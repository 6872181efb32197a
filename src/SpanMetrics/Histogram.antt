-- ===== src/SpanMetrics/Histogram.antt =====
-- The duration histogram of a span.
use nrt_aggragator.Prelude.{
  ℕ, zero, suc, ◌+◌, ◌≤◌, ◌<◌, ◌≡◌, refl, ap, true, false, List, [], ◌∷◌, arith, Bool-cases, inl,
  inr, length, length-replicate, replicate, set, ltb,
}
use nrt_aggragator.Prelude.Float.{Float}
use nrt_aggragator.SpanMetrics.{bucket_index, bucket_counts}

abbrev pub total : List ℕ → ℕ
total [] = 0
total (n ∷ ns) = n + total ns

module _ {ℓ} {F : Type ℓ} ⦃f : Float F⦄ where
  -- `i` is the first bucket whose bound is not below the value, or the last bucket if there is none.
  abbrev pub IsBucket : List F → F → ℕ → Type 0
  IsBucket [] v i = i ≡ 0
  IsBucket (b ∷ bounds) v zero = f.le v b ≡ true
  IsBucket (b ∷ bounds) v (suc i) = (f.le v b ≡ false) × IsBucket bounds v i

  bucket_index-IsBucket :
      (bounds : List F) (v : F) → f.eq v v ≡ true → IsBucket bounds v (bucket_index bounds v)
  unfolding bucket_index
  bucket_index-IsBucket [] v n = refl
  bucket_index-IsBucket (b ∷ bounds) v n = elim (Bool-cases (f.le v b)) [
    | inl below ↦ rw below below
    | inr above ↦ rw (above, n) (above, bucket_index-IsBucket bounds v n)
  ]

  bucket_index-le : (bounds : List F) (v : F) → bucket_index bounds v ≤ length bounds
  unfolding bucket_index
  bucket_index-le [] v = omega arith
  bucket_index-le (b ∷ bounds) v = ground (arith, bucket_index-le bounds v)

abbrev single : ℕ → ℕ → List ℕ
single n i = set (replicate n 0) i 1

set_one : (n i : ℕ) → i < n → (length (single n i) ≡ n) × (total (single n i) ≡ 1)
set_one zero i h = absurd (omega arith)
set_one (suc n) zero h = (ap suc (length-replicate n 0), zeros n)
  where
    zeros : (n : ℕ) → 1 + total (replicate n 0) ≡ 1
    zeros zero = refl
    zeros (suc n) = omega (arith, zeros n)
set_one (suc n) (suc i) h =
    let ih = set_one n i (omega arith) in (omega (arith, ih.0), omega (arith, ih.1))

module _ {ℓ} {F : Type ℓ} ⦃f : Float F⦄ where
  -- A duration that is not NaN falls into one bucket, the first one whose bound it does not exceed
  -- or the last one of all; that bucket counts one, and the others, one more than bounds in all,
  -- count nothing.
  pub bucket_counts_exact :
      (bounds : List F) (v : F)
      → f.eq v v ≡ true
      → (i : ℕ) × IsBucket bounds v i
        × (bucket_counts bounds v ≡ set (replicate (length bounds + 1) 0) i 1)
        × (length (bucket_counts bounds v) ≡ length bounds + 1)
        × (total (bucket_counts bounds v) ≡ 1)
  unfolding bucket_counts
  bucket_counts_exact bounds v n =
      let i = bucket_index bounds v in
      let low = bucket_index-le bounds v in
      let fits : ltb i (length (replicate {A = ℕ} (length bounds + 1) 0)) ≡ true =
        ground (arith, length-replicate {A = ℕ} (length bounds + 1) 0, low) in
      let one = set_one (length bounds + 1) i (omega (arith, low)) in
      (i, bucket_index-IsBucket bounds v n, rw fits refl, rw fits one.0, rw fits one.1)
