-- ===== src/Vectorizer/Stream.antt =====
-- The rest of vectorizer.go: the vector of metrics, and the loop of Start.
use Prim.Native.String.{◌++◌ as join}
use text.Mathlib.Text.{◌==◌ as str_eq}
use nrt_aggragator.Prelude.{
  ℕ, zero, suc, ◌*◌, Bool, ◌&&◌, List, [], ◌∷◌, map, String, if◌then◌else◌, Option, none, some,
  ◌==◌, length, take, drop, replicate,
}
use nrt_aggragator.Prelude.Int.{◌-ℤ◌}
use nrt_aggragator.Prelude.Text.{Strings, to_lower, is_empty}
use nrt_aggragator.Prelude.Dict.{get, put}
use nrt_aggragator.Prelude.Float.{Float, nought, unit, of_ℕ, gt}
use nrt_aggragator.Telemetry.{Aggregate, Item, aggregate}
use nrt_aggragator.Summarizer.{text_at}
use nrt_aggragator.Vectorizer.{
  Tools, PcaModel, Processor, build_logs_text, build_traces_text, normalize, embed_hashing,
  embed_ollama,
}

module _ {ℓ} {F W : Type ℓ} ⦃f : Float F⦄ (t : Tools F W) where
  -- the eight features of a service's health
  unfoldable pub features : Processor F → Aggregate F → List F
  features p a =
      let p90 = if p.p90_approx then f.mul (f.decimal 5 1) (f.add a.p50 a.p95) else a.p95 in
      let span = f.of_int (a.window_end -ℤ a.window_start) in
      a.p50
      ∷ p90
      ∷ a.p95
      ∷ a.p99
      ∷ a.rps
      ∷ a.error_rate
      ∷ f.mul a.error_rate (of_ℕ a.count)
      ∷ f.div (of_ℕ a.count) (f.add unit span)
      ∷ []

  -- entry by entry, as far as both lists go
  abbrev pub zip_with : (F → F → F) → List F → List F → List F
  zip_with g [] ys = []
  zip_with g (x ∷ xs) [] = []
  zip_with g (x ∷ xs) (y ∷ ys) = g x y ∷ zip_with g xs ys

  abbrev pub or_zeros : List F → Option (List F) → List F
  or_zeros base none = replicate (length base) nought
  or_zeros base (some prev) =
      if length prev == length base then prev else replicate (length base) nought

  -- the smoothed features, which are kept, where smoothing is on
  unfoldable pub smooth : Processor F → String → List F → Processor F × List F
  smooth p service base =
      let mixed =
        zip_with (λ x y. f.add (f.mul p.ema_alpha x) (f.mul (f.sub unit p.ema_alpha) y)) base
          (or_zeros base (get p.ema service)) in
      if gt p.ema_alpha nought && f.le p.ema_alpha unit
      then (record p { ema = put p.ema service mixed }, mixed)
      else (p, base)

  abbrev dot : F → List F → List F → F
  dot sum [] ys = sum
  dot sum (x ∷ xs) [] = sum
  dot sum (x ∷ xs) (y ∷ ys) = dot (f.add sum (f.mul x y)) xs ys

  -- one number for each of the rows that are left
  unfoldable pub project : ℕ → ℕ → List F → List F → List F
  project zero cols mat x = []
  project (suc rows) cols mat x =
      t.single (dot nought (take cols mat) x) ∷ project rows cols (drop cols mat) x

  abbrev centered : PcaModel F → List F → List F
  centered m x = if length m.mean == length x then zip_with f.sub x m.mean else x

  -- a deviation of 10^-9 or less is left out
  abbrev scaled : PcaModel F → List F → List F
  scaled m x =
      if length m.std == length x
      then zip_with (λ v d. if gt d (f.decimal 1 9) then f.div v d else v) x m.std
      else x

  abbrev fits : PcaModel F → List F → Bool
  fits m base = m.cols == length base && length m.mat == m.rows * m.cols

  unfoldable pub vector_of : Option (PcaModel F) → List F → List F
  unfolding project normalize
  vector_of none base = normalize t (map t.single base)
  vector_of (some m) base =
      if fits m base
      then normalize t (project m.rows m.cols m.mat (scaled m (centered m base)))
      else normalize t (map t.single base)

  unfoldable pub build_metrics_vector : Processor F → Aggregate F → Processor F × List F
  unfolding features smooth vector_of
  build_metrics_vector p a =
      let smoothed = smooth p a.service (features p a) in (smoothed.0, vector_of p.pca smoothed.1)

  module _ ⦃s : Strings⦄ where
    -- A mode that is not known falls back, whatever the settings say.
    abbrev fallback : Processor F → String → Option (List F) × W → List F × W
    unfolding embed_hashing
    fallback p text_value (some emb, w) = (emb, w)
    fallback p text_value (none, w) =
        if str_eq p.mode "ollama"
        then (if p.allow_fallback then embed_hashing t p text_value else [], w)
        else (embed_hashing t p text_value, w)

    unfoldable pub embed_text : Processor F → String → W → List F × W
    unfolding embed_ollama embed_hashing
    embed_text p text_value w =
        if str_eq p.mode "hash"
        then (embed_hashing t p text_value, w)
        else fallback p text_value (embed_ollama t p text_value w)

    unfoldable pub default_summary : Aggregate F → String
    default_summary a = join "service " (
        join a.service (
          join " window " (
            join (t.format_time a.window_start) (
              join "-" (
                join (t.format_time a.window_end) (
                  join " p50=" (
                    join (f.format 6 a.p50) (
                      join " p95=" (
                        join (f.format 6 a.p95) (
                          join " p99=" (
                            join (f.format 6 a.p99) (
                              join " rps=" (
                                join (f.format 6 a.rps)
                                  (join " err_rate=" (f.format 6 a.error_rate)))))))))))))))

    -- the summary, or another one where it is blank
    abbrev pub text_of : Aggregate F → String
    text_of a = if is_empty (s.trim a.summary_text) then default_summary a else a.summary_text

    -- the aggregate with its new vector
    abbrev pub revector : Processor F → Aggregate F → List F × W → Processor F × W × Item F
    revector p a (vec, w) = (p, w, aggregate (record a { vector = vec }))

    -- one item: the processor and the world after it, and what is sent
    unfoldable pub step : Processor F → W → Item F → Processor F × W × Item F
    unfolding embed_text build_logs_text build_traces_text build_metrics_vector default_summary
    step p w (aggregate a) =
        let source = to_lower (text_at a.labels "source") in
        let metrics = build_metrics_vector p a in
        if str_eq source "logs"
        then revector p a (embed_text p (build_logs_text p a) w)
        else if str_eq source "traces"
        then revector p a (embed_text p (build_traces_text p a) w)
        else if str_eq source "metrics"
        then revector metrics.0 a (metrics.1, w)
        else revector p a (embed_text p (text_of a) w)
    step p w item = (p, w, item)

    unfoldable pub start : Processor F → W → List (Item F) → List (Item F)
    unfolding step
    start p w [] = []
    start p w (item ∷ items) = let done = step p w item in done.2 ∷ start done.0 done.1 items
