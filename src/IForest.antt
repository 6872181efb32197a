-- ===== src/IForest.antt =====
-- mirador-nrt-aggregator-main/internal/processors/iforest/iforest.go: scoring by an isolation
-- forest. Loading the forest from a file or from JSON is not modelled: it is a field, `none` where
-- the load failed. The steps of a walk are counted by whole numbers, which float64 counts exactly.
pub mod Path
pub mod Stream
use text.Mathlib.Text.{◌==◌ as str_eq}
use nrt_aggragator.Prelude.{
  ℕ, zero, suc, ◌-◌, Bool, true, false, not, ◌&&◌, ◌||◌, List, [], ◌∷◌, ◌++◌, map, String,
  if◌then◌else◌, Option, none, some, length, replicate, ltb, ◌==◌, get_elem?, is_nil,
}
use nrt_aggragator.Prelude.Int.{ℤ, pos, negsuc, ltb_ℤ, ◌-ℤ◌}
use nrt_aggragator.Prelude.Dict.{Dict, get, put}
use nrt_aggragator.Prelude.Float.{Float, nought, unit, of_ℕ, gt}
use nrt_aggragator.Telemetry.{Aggregate, Item, envelope, aggregate, other}

pub record Node {ℓ} (F : Type ℓ) : Type ℓ where
  pub feature : ℤ
  pub threshold : F
  pub left : ℤ
  pub right : ℤ
  pub leaf : Bool

pub record Tree {ℓ} (F : Type ℓ) : Type ℓ where
  pub nodes : List (Node F)

pub record Forest {ℓ} (F : Type ℓ) : Type ℓ where
  pub version : String
  pub trees : List (Tree F)

-- `s[i]` for an index that may be negative, `none` out of bounds
abbrev pub at_index {ℓ} : {A : Type ℓ} → List A → ℤ → Option A
at_index xs (pos n) = get_elem? xs n
at_index xs (negsuc n) = none

abbrev is_zero_ℤ : ℤ → Bool
is_zero_ℤ (pos n) = n == 0
is_zero_ℤ (negsuc n) = false

abbrev pub max_depth : ℕ
max_depth = 64

pub record Welford {ℓ} (F : Type ℓ) : Type ℓ where
  pub n : F
  pub mean : F
  pub m2 : F

pub record Stats {ℓ} (F : Type ℓ) : Type ℓ where
  pub win_sec : ℤ
  pub data_of : Dict (List (Welford F))
  pub last_trim : ℤ

pub record Processor {ℓ} (F : Type ℓ) : Type ℓ where
  pub feats : List String
  pub norm_mode : String
  pub stats : Stats F
  pub forest : Option (Forest F)
  pub subsample_n : F

module _ {ℓ} {F : Type ℓ} ⦃f : Float F⦄ where
  -- the feature of one name; an unknown name reads 0
  unfoldable feature_of : Aggregate F → String → F
  feature_of a name =
      if str_eq name "p50"
      then a.p50
      else if str_eq name "p95"
      then a.p95
      else if str_eq name "p99"
      then a.p99
      else if str_eq name "rps"
      then a.rps
      else if str_eq name "error_rate"
      then a.error_rate
      else if str_eq name "count"
      then of_ℕ a.count
      else nought

  unfoldable features_of : List String → Aggregate F → List F
  unfolding feature_of
  features_of feats a = map (feature_of a) feats

  abbrev pub ends_walk : Node F → Bool
  ends_walk n =
      n.leaf
      || is_zero_ℤ n.left && is_zero_ℤ n.right && is_zero_ℤ n.feature && f.eq n.threshold nought

  abbrev pub feature_value : List F → ℤ → F
  feature_value x i = elim (at_index x i) [ none ↦ nought | some v ↦ v ]

  -- the child at which the walk goes on
  abbrev next_node : List F → Node F → ℤ
  next_node x n = if f.le (feature_value x n.feature) n.threshold then n.left else n.right

  -- The steps of the walk from node `i`, when `steps_left` are left to the limit.
  unfoldable pub walk : List (Node F) → List F → (steps_left : ℕ) → ℤ → ℕ
  walk nodes x zero i = 0
  walk nodes x (suc steps_left) i = elim (at_index nodes i) [
    | none ↦ 0
    | some n ↦ if ends_walk n then 0 else suc (walk nodes x steps_left (next_node x n))
  ]

  unfoldable pub path_length : Tree F → List F → F
  unfolding walk
  path_length t x = of_ℕ (walk t.nodes x max_depth (pos 0))

  -- 2 (ln (n - 1) + gamma) - 2 (n - 1) / n
  unfoldable c_of_n : F → F
  c_of_n n =
      if f.le n unit
      then unit
      else f.sub
          (f.mul (f.decimal 2 0) (f.add (f.log (f.sub n unit)) (f.decimal 57721566490153286060 20)))
          (f.div (f.mul (f.decimal 2 0) (f.sub n unit)) n)

  unfoldable sum_depths : F → List (Tree F) → List F → F
  unfolding path_length
  sum_depths acc [] x = acc
  sum_depths acc (t ∷ trees) x = sum_depths (f.add acc (path_length t x)) trees x

  unfoldable pub bounded_score : F → F
  bounded_score s = if f.lt s nought then nought else if gt s unit then unit else s

  unfoldable pub score : Option (Forest F) → F → List F → F
  unfolding sum_depths c_of_n bounded_score
  score none n x = nought
  score (some forest) n x =
      if is_nil forest.trees
      then nought
      else let n' = if f.le n unit then f.decimal 256 0 else n in
        let avg = f.div (sum_depths nought forest.trees x) (of_ℕ (length forest.trees)) in
        bounded_score (f.exp (f.div (f.sub nought avg) (c_of_n n')))

  abbrev pub new_welford : Welford F
  new_welford = record { n = nought; mean = nought; m2 = nought }

  unfoldable pub add_sample : Welford F → F → Welford F
  add_sample w x =
      let n = f.add w.n unit in
      let d = f.sub x w.mean in
      let mean = f.add w.mean (f.div d n) in
      record { n = n; mean = mean; m2 = f.add w.m2 (f.mul d (f.sub x mean)) }

  unfoldable variance : Welford F → F
  variance w = if f.lt w.n (f.decimal 2 0) then nought else f.div w.m2 (f.sub w.n unit)

  unfoldable stddev : Welford F → F
  unfolding variance
  stddev w = f.sqrt (variance w)

  unfoldable z_score : Welford F → F → F
  unfolding stddev
  z_score w v = if gt (stddev w) (f.decimal 1 9) then f.div (f.sub v w.mean) (stddev w) else nought

  -- The estimators and the scores; there are as many estimators as features.
  unfoldable pub apply_all : List (Welford F) → List F → List (Welford F) × List F
  unfolding add_sample z_score
  apply_all [] vec = ([], [])
  apply_all (w ∷ ws) [] = (w ∷ ws, [])
  apply_all (w ∷ ws) (v ∷ vec) =
      let w' = add_sample w v in let rest = apply_all ws vec in (w' ∷ rest.0, z_score w' v ∷ rest.1)

  -- The estimators of a service, made anew where there are none or their number is wrong.
  unfoldable pub estimators : Dict (List (Welford F)) → String → List F → List (Welford F)
  estimators m svc vec = elim (get m svc) [
    | none ↦ replicate (length vec) new_welford
    | some ws ↦ if length ws == length vec then ws else replicate (length vec) new_welford
  ]

  unfoldable pub apply : Stats F → String → ℤ → List F → Stats F × List F
  unfolding estimators apply_all
  apply z svc ts vec =
      let done = apply_all (estimators z.data_of svc vec) vec in
      (
        record z {
          data_of = put z.data_of svc done.0;
          last_trim = if ltb_ℤ z.win_sec (ts -ℤ z.last_trim) then ts else z.last_trim;
        },
        done.1,
      )

  abbrev scored : Processor F → Aggregate F → List F → Aggregate F
  scored p a vec = record a { anomaly_score = score p.forest p.subsample_n vec }

  -- What one item of the channel does: the new state, and what is sent.
  unfoldable pub step : Processor F → Item F → Processor F × Item F
  unfolding features_of apply score
  step p (aggregate a) =
      let vec = features_of p.feats a in
      if str_eq p.norm_mode "zscore"
      then (
        record p { stats = (apply p.stats a.service a.window_end vec).0 },
        aggregate (scored p a (apply p.stats a.service a.window_end vec).1),
      )
      else (p, aggregate (scored p a vec))
  step p item = (p, item)

  -- The outputs for the inputs up to the end of the channel or of the context.
  unfoldable pub start : Processor F → List (Item F) → List (Item F)
  unfolding step
  start p [] = []
  start p (item ∷ items) = (step p item).1 ∷ start (step p item).0 items
