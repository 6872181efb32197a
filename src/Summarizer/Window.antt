-- ===== src/Summarizer/Window.antt =====
-- The windows of the summarizer.
use mathlib.Core.Path.{subst}
use native.Mathlib.Nat.{mod-lt, mod-add-div, mul-mod_right}
use nrt_aggragator.Prelude.{
  ℕ, ◌+◌, ◌*◌, ◌/◌, ◌%◌, ◌≤◌, ◌<◌, ◌≡◌, refl, List, [], ◌∷◌, ◌++◌, String, Option, none, some,
  arith, Bool-cases, Option-cases, inl, inr, leb,
}
use nrt_aggragator.Prelude.Int.{pos}
use nrt_aggragator.Prelude.Text.{Strings}
use nrt_aggragator.Prelude.Dict.{Dict, get}
use nrt_aggragator.Prelude.Float.{Float}
use text.Mathlib.Text.{◌==◌ as str_eq}
use nrt_aggragator.Telemetry.{
  Bytes, Envelope, kind_metrics, kind_prom_rw, ResourceMetrics, Item, envelope, aggregate, other,
}
use nrt_aggragator.Summarizer.{
  TDigest, Svc, Processor, TimeSeries, trunc, consume_otlp, consume_resource,
}
use nrt_aggragator.Summarizer.Stream.{
  Input, message, tick, Loop, Decoders, summarize, summaries, add_summary, flush, consume_prom_rw,
  consume_otlp_metrics, consume_remote_write, step, run,
}

trunc-mul : (ts win : ℕ) → trunc ts win ≡ win * (ts / win)
trunc-mul ts win = omega (arith, mod-add-div ts win)

pub trunc-IsMultiple : (ts win : ℕ) → trunc ts win % win ≡ 0
trunc-IsMultiple ts win = rw (trunc-mul ts win) (mul-mod_right win (ts / win))

-- A window that has passed ends before the one of the present time.
pub trunc-ge : (start win now : ℕ) → 0 < win → start + win ≤ now → start ≤ trunc now win
trunc-ge start win now h passed = omega (arith, mod-lt now h)

module _ {ℓ} {F : Type ℓ} where
  -- The aggregates in the list are about whole windows, none before the ones ahead of it in the
  -- list and none before the one that begins at `lo`.
  abbrev pub InWindows : ℕ → ℕ → List (Item F) → Type 0
  InWindows win lo [] = Unit
  InWindows win lo (aggregate a ∷ rest) =
      (n : ℕ) × (a.window_start ≡ pos n)
      × (a.window_end ≡ pos (n + win))
      × (n % win ≡ 0)
      × (lo ≤ n)
      × InWindows win n rest
  InWindows win lo (envelope e ∷ rest) = InWindows win lo rest
  InWindows win lo (other k ∷ rest) = InWindows win lo rest

  pub InWindows-mono :
      (win lo higher : ℕ) (items : List (Item F))
      → lo ≤ higher
      → InWindows win higher items
      → InWindows win lo items
  InWindows-mono win lo higher [] h i = tt
  InWindows-mono win lo higher (aggregate a ∷ rest) h (n, st, en, m, le, i) =
      (n, st, en, m, omega arith, i)
  InWindows-mono win lo higher (envelope e ∷ rest) h i = InWindows-mono win lo higher rest h i
  InWindows-mono win lo higher (other k ∷ rest) h i = InWindows-mono win lo higher rest h i

  -- the inputs bring no aggregates
  abbrev pub NoAggregates : List (Input F) → Type 0
  NoAggregates [] = Unit
  NoAggregates (message (aggregate a) ∷ is) = ⊥
  NoAggregates (message (envelope e) ∷ is) = NoAggregates is
  NoAggregates (message (other k) ∷ is) = NoAggregates is
  NoAggregates (tick now ∷ is) = NoAggregates is

module _ {ℓ} {F T : Type ℓ} ⦃f : Float F⦄ ⦃t : TDigest F T⦄ ⦃s : Strings⦄ where
  add_summary-InWindows :
      (win start : ℕ) (svc : String) (found : Option (Svc F T)) (sent rest : List (Item F))
      → start % win ≡ 0
      → InWindows win start (sent ++ rest)
      → InWindows win start (add_summary win start svc found sent ++ rest)
  unfolding add_summary summarize
  add_summary-InWindows win start svc none sent rest m i = i
  add_summary-InWindows win start svc (some st) sent rest m i =
      (start, refl, refl, m, omega arith, i)

  summaries-InWindows :
      (win start : ℕ) (state : Dict (Svc F T)) (svcs : List String) (rest : List (Item F))
      → start % win ≡ 0
      → InWindows win start rest
      → InWindows win start (summaries win start state svcs ++ rest)
  unfolding summaries
  summaries-InWindows win start state [] rest m i = i
  summaries-InWindows win start state (svc ∷ svcs) rest m i =
      add_summary-InWindows win start svc (get state svc) _ rest m
        (summaries-InWindows win start state svcs rest m i)

  window-consume_otlp :
      (rms : List (ResourceMetrics F)) (p : Processor F T)
      → (consume_otlp p rms).window_sec ≡ p.window_sec
  unfolding consume_otlp consume_resource
  window-consume_otlp [] p = refl
  window-consume_otlp (rm ∷ rms) p = window-consume_otlp rms (consume_resource p rm)

  window-consume_prom_rw :
      (parse_float : String → Option F) (series : List (TimeSeries F)) (p : Processor F T)
      → (consume_prom_rw parse_float p series).window_sec ≡ p.window_sec
  unfolding consume_prom_rw
  window-consume_prom_rw parse_float [] p = refl
  window-consume_prom_rw parse_float (ts ∷ series) p = window-consume_prom_rw parse_float series _

  module _ (d : Decoders F) where
    window-consume_otlp_metrics :
        (p : Processor F T) (raw : Bytes) → (consume_otlp_metrics d p raw).window_sec ≡ p.window_sec
    unfolding consume_otlp_metrics
    window-consume_otlp_metrics p raw = elim (Option-cases (d.decode_otlp raw)) [
      | inl bad ↦ ground (arith, bad)
      | inr (rms, good) ↦ ground (arith, good, window-consume_otlp rms p)
    ]

    window-consume_remote_write :
        (p : Processor F T) (raw : Bytes) → (consume_remote_write d p raw).window_sec ≡ p.window_sec
    unfolding consume_remote_write
    window-consume_remote_write p raw = elim (Option-cases (d.decode_prom_rw raw)) [
      | inl bad ↦ ground (arith, bad)
      | inr (series, good) ↦ ground (arith, good, window-consume_prom_rw d.parse_float series p)
    ]

    -- What a round of the loop keeps: the length of the windows, and that one begins at a multiple
    -- of it, no earlier than before. What it sends is in the windows up to the new one.
    abbrev Advances : Loop F T → Input F → Type ℓ
    Advances l i =
        ((step d l i).0.processor.window_sec ≡ l.processor.window_sec)
        × ((step d l i).0.win_start % l.processor.window_sec ≡ 0)
        × ((rest : List (Item F))
            → InWindows l.processor.window_sec (step d l i).0.win_start rest
            → InWindows l.processor.window_sec l.win_start ((step d l i).1 ++ rest))

    message-Advances :
        (l : Loop F T) (env : Envelope)
        → l.win_start % l.processor.window_sec ≡ 0
        → Advances l (message (envelope env))
    unfolding step
    message-Advances l env m = elim (Bool-cases (str_eq env.kind kind_metrics)) [
      | inl otlp ↦ rw otlp (window-consume_otlp_metrics l.processor env.bytes, m, λ rest i. i)
      | inr other_kind ↦ elim (Bool-cases (str_eq env.kind kind_prom_rw)) [
        | inl prom ↦
            rw (other_kind, prom)
              (window-consume_remote_write l.processor env.bytes, m, λ rest i. i)
        | inr neither ↦ rw (other_kind, neither) (refl, m, λ rest i. i)
      ]
    ]

    tick-Advances :
        (l : Loop F T) (now : ℕ)
        → 0 < l.processor.window_sec
        → l.win_start % l.processor.window_sec ≡ 0
        → Advances l (tick now)
    unfolding step flush
    tick-Advances l now h m =
        let win = l.processor.window_sec in
        elim (Bool-cases (leb (l.win_start + win) now)) [
          | inl passed ↦ rw passed (
            refl,
            trunc-IsMultiple now win,
            λ rest i. summaries-InWindows win l.win_start l.processor.state _ rest m (
                InWindows-mono win l.win_start (trunc now win) rest
                  (trunc-ge l.win_start win now h (ground (arith, passed))) i),
          )
          | inr open_window ↦ rw open_window (refl, m, λ rest i. i)
        ]

    follow :
        (l : Loop F T) (i : Input F) (is : List (Input F))
        → Advances l i
        → 0 < l.processor.window_sec
        → (0 < (step d l i).0.processor.window_sec
            → (step d l i).0.win_start % (step d l i).0.processor.window_sec ≡ 0
            → InWindows
                (step d l i).0.processor.window_sec
                (step d l i).0.win_start
                (run d (step d l i).0 is))
        → InWindows l.processor.window_sec l.win_start ((step d l i).1 ++ run d (step d l i).0 is)
    follow l i is (same, multiple, extend) h rest =
        let after = step d l i in
        extend (run d after.0 is) (
          subst (λ win. InWindows win after.0.win_start (run d after.0 is)) same
            (rest (rw same h) (rw same multiple)))

    -- If the loop begins at a multiple of its window's length, which is positive, and the inputs
    -- bring no aggregates, then every aggregate that is sent is about a window of that length which
    -- begins at a multiple of it, and no aggregate is about an earlier window than one sent before.
    pub run-InWindows :
        (inputs : List (Input F)) (l : Loop F T)
        → NoAggregates inputs
        → 0 < l.processor.window_sec
        → l.win_start % l.processor.window_sec ≡ 0
        → InWindows l.processor.window_sec l.win_start (run d l inputs)
    unfolding run
    run-InWindows [] l none_in h m = tt
    run-InWindows (message (aggregate a) ∷ is) l none_in h m = absurd none_in
    run-InWindows (message (other k) ∷ is) l none_in h m =
        unfold step in run-InWindows is l none_in h m
    run-InWindows (message (envelope e) ∷ is) l none_in h m =
        follow l (message (envelope e)) is (message-Advances l e m) h
          (run-InWindows is (step d l (message (envelope e))).0 none_in)
    run-InWindows (tick now ∷ is) l none_in h m =
        follow l (tick now) is (tick-Advances l now h m) h
          (run-InWindows is (step d l (tick now)).0 none_in)
