-- ===== src/Vectorizer/Lengths.antt =====
-- The lengths of the vectors.
use Prim.Native.String.{◌++◌ as join}
use native.Mathlib.Nat.{mod-lt}
use nrt_aggragator.Prelude.{
  ℕ, zero, suc, ◌*◌, ◌<◌, ◌≡◌, refl, ap, ◌∙◌, ◌⊎◌, Bool, true, false, ◌||◌, List, [], ◌∷◌, String,
  if◌then◌else◌, Option, none, some, arith, Bool-cases, inl, inr, length, length-map,
  length-replicate, length-set, leb, replicate, drop, ◌==◌, ◌&&◌,
}
use nrt_aggragator.Prelude.Text.{Strings}
use nrt_aggragator.Prelude.Dict.{get}
use nrt_aggragator.Prelude.Float.{Float, nought, unit, gt}
use nrt_aggragator.Telemetry.{Aggregate}
use nrt_aggragator.Vectorizer.{
  Tools, PcaModel, Processor, normalize, index_of, is_stop, emit, emit_unless, emit_words,
  emit_pairs, emit_triples, tokenize, embed_hashing,
}
use nrt_aggragator.Vectorizer.Stream.{
  zip_with, or_zeros, features, smooth, project, vector_of, build_metrics_vector,
}

-- both branches have the length
length-if {ℓ} :
    {A : Type ℓ} (c : Bool) (xs ys : List A) (n : ℕ)
    → length xs ≡ n
    → length ys ≡ n
    → length (if c then xs else ys) ≡ n
length-if true xs ys n h k = h
length-if false xs ys n h k = k

module _ {ℓ} {F W : Type ℓ} ⦃f : Float F⦄ (t : Tools F W) where
  length-normalize : (v : List F) → length (normalize t v) ≡ length v
  unfolding normalize
  length-normalize v = length-if _ _ _ (length v) refl (length-map v _)

  length-emit : (p : Processor F) (w : String) (vec : List F) → length (emit t p w vec) ≡ length vec
  unfolding emit
  length-emit p w vec = length-if _ _ _ (length vec) refl (length-set vec _ _)

  length-emit_unless :
      (stop : Bool) (p : Processor F) (w : String) (vec : List F)
      → length (emit_unless t stop p w vec) ≡ length vec
  unfolding emit_unless
  length-emit_unless true p w vec = refl
  length-emit_unless false p w vec = length-emit p w vec

  length-emit_words :
      (p : Processor F) (ws : List String) (vec : List F)
      → length (emit_words t p ws vec) ≡ length vec
  unfolding emit_words
  length-emit_words p [] vec = refl
  length-emit_words p (w ∷ ws) vec = length-emit_words p ws _ ∙ length-emit_unless _ p w vec

  length-emit_pairs :
      (p : Processor F) (ws : List String) (vec : List F)
      → length (emit_pairs t p ws vec) ≡ length vec
  unfolding emit_pairs
  length-emit_pairs p [] vec = refl
  length-emit_pairs p (w ∷ []) vec = refl
  length-emit_pairs p (w ∷ v ∷ ws) vec =
      length-emit_pairs p (v ∷ ws) _
      ∙ length-emit_unless (is_stop p w || is_stop p v) p (join w (join "_" v)) vec

  length-emit_triples :
      (p : Processor F) (ws : List String) (vec : List F)
      → length (emit_triples t p ws vec) ≡ length vec
  unfolding emit_triples
  length-emit_triples p [] vec = refl
  length-emit_triples p (w ∷ []) vec = refl
  length-emit_triples p (w ∷ v ∷ []) vec = refl
  length-emit_triples p (w ∷ v ∷ u ∷ ws) vec =
      length-emit_triples p (v ∷ u ∷ ws) _
      ∙ length-emit_unless (is_stop p w || (is_stop p v || is_stop p u)) p
          (join w (join "_" (join v (join "_" u)))) vec

  pub length-embed_hashing :
      ⦃s : Strings⦄ (p : Processor F) (text_value : String)
      → length (embed_hashing t p text_value) ≡ p.hash_dim
  unfolding embed_hashing
  length-embed_hashing p text_value =
      let toks = tokenize t p text_value in
      let words = emit_words t p toks (replicate p.hash_dim nought) in
      let pairs = if leb 2 p.hash_ngrams then emit_pairs t p toks words else words in
      let words_size : length words ≡ p.hash_dim =
        length-emit_words p toks _ ∙ length-replicate p.hash_dim nought in
      let pairs_size : length pairs ≡ p.hash_dim =
        length-if _ _ _ p.hash_dim (length-emit_pairs p toks words ∙ words_size) words_size in
      let triples = emit_triples t p toks pairs in
      length-normalize (if leb 3 p.hash_ngrams then triples else pairs)
      ∙ length-if (leb 3 p.hash_ngrams) triples pairs p.hash_dim
          (length-emit_triples p toks pairs ∙ pairs_size) pairs_size

  -- No write of a feature is out of bounds, if the vector has an entry at least.
  index_of_lt : (p : Processor F) (w : String) → 0 < p.hash_dim → index_of t p w < p.hash_dim
  index_of_lt p w h = mod-lt (t.fnv_64a w) h

  length-project : (rows cols : ℕ) (mat x : List F) → length (project t rows cols mat x) ≡ rows
  unfolding project
  length-project zero cols mat x = refl
  length-project (suc rows) cols mat x = ap suc (length-project rows cols (drop cols mat) x)

  -- the length of a vector of metrics: 8, or the rows of the projection, where there is one
  abbrev pub HasLength : Option (PcaModel F) → ℕ → Type ℓ
  HasLength found n = (n ≡ 8) ⊎ ((m : PcaModel F) × (found ≡ some m) × (n ≡ m.rows))

  HasLength-if :
      (found : Option (PcaModel F)) (c : Bool) (xs ys : List F)
      → HasLength found (length xs)
      → HasLength found (length ys)
      → HasLength found (length (if c then xs else ys))
  HasLength-if found true xs ys h k = h
  HasLength-if found false xs ys h k = k

  length-vector_of :
      (found : Option (PcaModel F)) (base : List F)
      → length base ≡ 8
      → HasLength found (length (vector_of t found base))
  unfolding vector_of
  length-vector_of none base h = inl (length-normalize _ ∙ length-map base t.single ∙ h)
  length-vector_of (some m) base h =
      HasLength-if (some m) (m.cols == length base && length m.mat == m.rows * m.cols) _ _
        (inr (m, refl, length-normalize _ ∙ length-project m.rows m.cols m.mat _))
        (inl (length-normalize _ ∙ length-map base t.single ∙ h))

  length-zip_with :
      (g : F → F → F) (xs ys : List F)
      → length ys ≡ length xs
      → length (zip_with t g xs ys) ≡ length xs
  length-zip_with g [] ys h = refl
  length-zip_with g (x ∷ xs) [] h = absurd (omega arith)
  length-zip_with g (x ∷ xs) (y ∷ ys) h = ap suc (length-zip_with g xs ys (omega arith))

  length-or_zeros :
      (base : List F) (found : Option (List F)) → length (or_zeros t base found) ≡ length base
  length-or_zeros base none = length-replicate (length base) nought
  length-or_zeros base (some prev) = elim (Bool-cases (length prev == length base)) [
    | inl same ↦ rw same (ground (arith, same))
    | inr apart ↦ rw apart (length-replicate (length base) nought)
  ]

  length-smooth :
      (p : Processor F) (service : String) (base : List F)
      → (length (smooth t p service base).1 ≡ length base)
        × ((smooth t p service base).0.pca ≡ p.pca)
  unfolding smooth
  length-smooth p service base =
      elim (Bool-cases (gt p.ema_alpha nought && f.le p.ema_alpha unit)) [
        | inl on ↦ rw on (length-zip_with _ base _ (length-or_zeros base (get p.ema service)), refl)
        | inr off ↦ rw off (refl, refl)
      ]

  -- The vector of metrics has 8 entries, or as many as the projection has rows.
  pub length-build_metrics_vector :
      (p : Processor F) (a : Aggregate F) → HasLength p.pca (length (build_metrics_vector t p a).1)
  unfolding build_metrics_vector features
  length-build_metrics_vector p a =
      length-vector_of p.pca _ ((length-smooth p a.service (features t p a)).0 ∙ refl)
