-- ===== src/Vectorizer.antt =====
-- mirador-nrt-aggregator-main/internal/processors/vectorizer/vectorizer.go: aggregates are given a
-- vector, of their text or of their numbers. A float32 is a float64 that `single` has rounded. The
-- Ollama server, the splitting of texts, FNV, JSON and the printing of times are parameters.
pub mod Stream
pub mod Settings
pub mod Lengths
pub mod Revectored
use Prim.Native.String.{◌++◌ as join}
use text.Mathlib.Text.{◌==◌ as str_eq}
use nrt_aggragator.Prelude.{
  ℕ, zero, suc, ◌+◌, ◌-◌, false, ◌*◌, ◌%◌, ◌^◌, Bool, not, ◌&&◌, ◌||◌, List, [], ◌∷◌, ◌++◌, map,
  String, if◌then◌else◌, Option, none, some, ltb, leb, ◌==◌, length, take, drop, set, get_or,
  replicate, any, is_nil,
}
use nrt_aggragator.Prelude.Int.{ℤ, pos, negsuc, ◌-ℤ◌}
use nrt_aggragator.Prelude.Text.{Strings, to_lower, is_empty}
use nrt_aggragator.Prelude.TextOrder.{text_lt}
use nrt_aggragator.Prelude.Sort.{sort}
use nrt_aggragator.Prelude.Dict.{Dict, get, put}
use nrt_aggragator.Prelude.Float.{Float, nought, unit, of_ℕ, gt}
use nrt_aggragator.Telemetry.{Aggregate, Item, envelope, aggregate, other}
use nrt_aggragator.Summarizer.{text_at}

-- What a request for an embedding gives: no answer, or a status and the embedding, if it is decoded.
pub data Reply {ℓ} (F : Type ℓ) : Type ℓ where
  no_answer : Reply F
  answer : ℕ → Option (List F) → Reply F

-- the parts that are not in this file; `W` is the state of the world behind HTTP
pub record Tools {ℓ} (F W : Type ℓ) : Type ℓ where
  -- `float32(x)`
  pub single : F → F
  -- the URL, the model and the prompt
  pub post : String → String → String → W → Reply F × W
  -- `regexp.Split` at what is no letter or digit of ASCII
  pub split : String → List String
  pub fnv_64a : String → ℕ
  pub fnv_64 : String → ℕ
  -- `time.Unix(t, 0).UTC().Format(time.RFC3339)`
  pub format_time : ℤ → String

pub record PcaModel {ℓ} (F : Type ℓ) : Type ℓ where
  pub rows : ℕ
  pub cols : ℕ
  pub mat : List F
  pub mean : List F
  pub std : List F

pub record Processor {ℓ} (F : Type ℓ) : Type ℓ where
  pub mode : String
  pub allow_fallback : Bool
  pub ollama_endpoint : String
  pub ollama_model : String
  pub timeout_ms : ℕ
  pub retries : ℤ
  pub hash_dim : ℕ
  pub hash_ngrams : ℕ
  pub lowercase : Bool
  pub stopwords : List String
  pub logs_include : List String
  pub p90_approx : Bool
  pub ema_alpha : F
  pub pca : Option (PcaModel F)
  pub ema : Dict (List F)
  pub trace_attrs : List String
  pub trace_max : ℕ

-- `strings.Join(parts, " ")`
unfoldable join_words : List String → String
join_words [] = ""
join_words (x ∷ []) = x
join_words (x ∷ y ∷ ys) = join x (join " " (join_words (y ∷ ys)))

abbrev summary_part : String → List String
summary_part text_value = if is_empty text_value then [] else join "summary=" text_value ∷ []

-- The configured fields in their order; an empty "success" is filled in, and the flag is whether
-- that was done.
unfoldable log_fields : Dict String → String → List String → List String × Bool
log_fields labels success [] = ([], false)
log_fields labels success (k ∷ ks) =
    let rest = log_fields labels success ks in
    let fills = str_eq k "success" && is_empty (text_at labels k) in
    let v = if fills then success else text_at labels k in
    (if is_empty v then rest.0 else join k (join "=" v) ∷ rest.0, fills || rest.1)

-- at most as many attributes as are wanted, and one at least
unfoldable trace_fields : Dict String → ℕ → List String → List String
trace_fields labels max [] = []
trace_fields labels max (k ∷ ks) =
    let skipped = trace_fields labels max ks in
    let v = text_at labels k in
    if is_empty v
    then skipped
    else join k (join "=" v) ∷ (if leb max 1 then [] else trace_fields labels (max - 1) ks)

module _ {ℓ} {F : Type ℓ} ⦃f : Float F⦄ ⦃s : Strings⦄ where
  unfoldable pub build_logs_text : Processor F → Aggregate F → String
  unfolding log_fields join_words
  build_logs_text p a =
      let success = if gt a.error_rate nought then "false" else "true" in
      let fields = log_fields a.labels success (sort text_lt p.logs_include) in
      join_words (
        ("kind=log"
          ∷ join "service=" a.service
          ∷ join "ts_start=" (s.itoa a.window_start)
          ∷ join "ts_end=" (s.itoa a.window_end)
          ∷ [])
        ++ (fields.0
            ++ ((if fields.1 then [] else join "success=" success ∷ [])
                ++ summary_part a.summary_text)))

  unfoldable pub build_traces_text : Processor F → Aggregate F → String
  unfolding trace_fields join_words
  build_traces_text p a = join_words (
      ("kind=trace"
        ∷ join "service=" a.service
        ∷ join "ts_start=" (s.itoa a.window_start)
        ∷ join "ts_end=" (s.itoa a.window_end)
        ∷ join "p50=" (f.format 6 a.p50)
        ∷ join "p95=" (f.format 6 a.p95)
        ∷ join "p99=" (f.format 6 a.p99)
        ∷ join "rps=" (f.format 6 a.rps)
        ∷ join "error_rate=" (f.format 6 a.error_rate)
        ∷ [])
      ++ (trace_fields a.labels p.trace_max p.trace_attrs ++ summary_part a.summary_text))

abbrev pub is_stop {ℓ} : {F : Type ℓ} → Processor F → String → Bool
is_stop p w = any (str_eq w) p.stopwords

module _ {ℓ} {F W : Type ℓ} ⦃f : Float F⦄ (t : Tools F W) where
  unfoldable sum_squares : F → List F → F
  sum_squares sum [] = sum
  sum_squares sum (x ∷ xs) = sum_squares (f.add sum (f.mul x x)) xs

  unfoldable pub normalize : List F → List F
  unfolding sum_squares
  normalize v =
      let sum = sum_squares nought v in
      let inv = t.single (f.div unit (f.sqrt sum)) in
      if f.le sum nought then v else map (λ x. t.single (f.mul x inv)) v

  abbrev pub index_of : Processor F → String → ℕ
  index_of p w = t.fnv_64a w % p.hash_dim

  unfoldable pub emit : Processor F → String → List F → List F
  emit p w vec =
      let val = if t.fnv_64 (join "sign:" w) % 2 == 1 then f.sub nought unit else unit in
      if is_empty w
      then vec
      else set vec (index_of p w) (t.single (f.add (get_or vec (index_of p w) nought) val))

  -- a stop word is passed over
  unfoldable pub emit_unless : Bool → Processor F → String → List F → List F
  unfolding emit
  emit_unless stop p w vec = if stop then vec else emit p w vec

  unfoldable pub emit_words : Processor F → List String → List F → List F
  unfolding emit_unless
  emit_words p [] vec = vec
  emit_words p (w ∷ ws) vec = emit_words p ws (emit_unless (is_stop p w) p w vec)

  unfoldable pub emit_pairs : Processor F → List String → List F → List F
  unfolding emit_unless
  emit_pairs p [] vec = vec
  emit_pairs p (w ∷ []) vec = vec
  emit_pairs p (w ∷ v ∷ ws) vec =
      emit_pairs p (v ∷ ws) (emit_unless (is_stop p w || is_stop p v) p (join w (join "_" v)) vec)

  unfoldable pub emit_triples : Processor F → List String → List F → List F
  unfolding emit_unless
  emit_triples p [] vec = vec
  emit_triples p (w ∷ []) vec = vec
  emit_triples p (w ∷ v ∷ []) vec = vec
  emit_triples p (w ∷ v ∷ u ∷ ws) vec = emit_triples p (v ∷ u ∷ ws) (
      emit_unless (is_stop p w || (is_stop p v || is_stop p u)) p
        (join w (join "_" (join v (join "_" u)))) vec)

  unfoldable non_empty : List String → List String
  non_empty [] = []
  non_empty (w ∷ ws) = let rest = non_empty ws in if is_empty w then rest else w ∷ rest

  module _ ⦃s : Strings⦄ where
    unfoldable pub tokenize : Processor F → String → List String
    unfolding non_empty
    tokenize p text_value =
        non_empty (t.split (if p.lowercase then to_lower text_value else text_value))

    unfoldable pub embed_hashing : Processor F → String → List F
    unfolding tokenize emit_words emit_pairs emit_triples normalize
    embed_hashing p text_value =
        let toks = tokenize p text_value in
        let words = emit_words p toks (replicate p.hash_dim nought) in
        let pairs = if leb 2 p.hash_ngrams then emit_pairs p toks words else words in
        normalize (if leb 3 p.hash_ngrams then emit_triples p toks pairs else pairs)

  -- an embedding that is used: one that came with a status below 300, was decoded and is not empty
  abbrev pub accepted : Reply F → Option (List F)
  accepted (answer status (some (x ∷ xs))) =
      if leb 300 status then none else some (normalize (x ∷ xs))
  accepted _ = none

  abbrev attempts_of : ℤ → ℕ
  attempts_of (pos n) = suc n
  attempts_of (negsuc n) = 0

  -- the attempts that are left, up to the first that is accepted
  unfoldable pub attempts : Processor F → String → ℕ → W → Option (List F) × W
  unfolding normalize
  attempts p text_value zero w = (none, w)
  attempts p text_value (suc n) w =
      let done = t.post (join p.ollama_endpoint "/api/embeddings") p.ollama_model text_value w in
      elim (accepted done.0) [
        | none ↦ attempts p text_value n done.1
        | some emb ↦ (some emb, done.1)
      ]

  unfoldable pub embed_ollama : Processor F → String → W → Option (List F) × W
  unfolding attempts
  embed_ollama p text_value = attempts p text_value (attempts_of p.retries)
