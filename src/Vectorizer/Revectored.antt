-- ===== src/Vectorizer/Revectored.antt =====
-- What goes through the vectorizer.
use mathlib.Core.Path.{subst}
use text.Mathlib.Text.{◌==◌ as str_eq}
use nrt_aggragator.Prelude.{
  ℕ, ◌≡◌, refl, sym, ◌⊎◌, true, ◌&&◌, List, [], ◌∷◌, String, Option, Bool-cases, inl, inr, length,
}
use nrt_aggragator.Prelude.Text.{Strings, to_lower}
use nrt_aggragator.Prelude.Float.{Float, nought, unit, gt}
use nrt_aggragator.Telemetry.{Aggregate, Item, envelope, aggregate, other}
use nrt_aggragator.IForest.Stream.{Pairwise}
use nrt_aggragator.Summarizer.{text_at}
use nrt_aggragator.Vectorizer.{Tools, PcaModel, Processor, build_logs_text, build_traces_text}
use nrt_aggragator.Vectorizer.Stream.{
  smooth, features, build_metrics_vector, embed_text, text_of, revector, step, start,
}
use nrt_aggragator.Vectorizer.Lengths.{HasLength, length-embed_hashing, length-build_metrics_vector}

module _ {ℓ} {F W : Type ℓ} ⦃f : Float F⦄ ⦃s : Strings⦄ (t : Tools F W) where
  -- An item as it leaves: an aggregate has a new vector, of the length of a hashed text or of one of
  -- metrics, and is else unchanged, and so is any other item.
  abbrev pub Revectored : ℕ → Option (PcaModel F) → Item F → Item F → Type ℓ
  Revectored dim pca (aggregate a) (aggregate b) =
      (b ≡ record a { vector = b.vector })
      × ((length b.vector ≡ dim) ⊎ HasLength t pca (length b.vector))
  Revectored dim pca x y = y ≡ x

  -- the settings stay
  abbrev SameSettings : Processor F → Processor F → Type ℓ
  SameSettings p q = q ≡ record p { ema = q.ema }

  smooth-SameSettings :
      (p : Processor F) (service : String) (base : List F)
      → SameSettings p (smooth t p service base).0
  unfolding smooth
  smooth-SameSettings p service base =
      elim (Bool-cases (gt p.ema_alpha nought && f.le p.ema_alpha unit)) [
        | inl on ↦ rw on refl
        | inr off ↦ rw off refl
      ]

  metrics-SameSettings :
      (p : Processor F) (a : Aggregate F) → SameSettings p (build_metrics_vector t p a).0
  unfolding build_metrics_vector
  metrics-SameSettings p a = smooth-SameSettings p a.service (features t p a)

  length-embed_text :
      (p : Processor F) (text_value : String) (w : W)
      → str_eq p.mode "hash" ≡ true
      → length (embed_text t p text_value w).0 ≡ p.hash_dim
  unfolding embed_text
  length-embed_text p text_value w h = rw h (length-embed_hashing t p text_value)

  -- the result of a step is one of the two kinds
  abbrev IsStep : Processor F → Item F → Processor F × W × Item F → Type ℓ
  IsStep p item done = SameSettings p done.0 × Revectored p.hash_dim p.pca item done.2

  text-IsStep :
      (p : Processor F) (a : Aggregate F) (text_value : String) (w : W)
      → str_eq p.mode "hash" ≡ true
      → IsStep p (aggregate a) (revector t p a (embed_text t p text_value w))
  text-IsStep p a text_value w h =
      sized (embed_text t p text_value w) (length-embed_text p text_value w h)
    where
      sized :
          (vec : List F × W)
          → length vec.0 ≡ p.hash_dim
          → IsStep p (aggregate a) (revector t p a vec)
      sized (vec, v) k = (refl, (refl, inl k))

  step-IsStep :
      (p : Processor F) (w : W) (item : Item F)
      → str_eq p.mode "hash" ≡ true
      → IsStep p item (step t p w item)
  unfolding step
  step-IsStep p w (envelope e) h = (refl, refl)
  step-IsStep p w (other n) h = (refl, refl)
  step-IsStep p w (aggregate a) h =
      let source = to_lower (text_at a.labels "source") in
      elim (Bool-cases (str_eq source "logs")) [
        | inl logs ↦ rw logs (text-IsStep p a (build_logs_text p a) w h)
        | inr not_logs ↦ elim (Bool-cases (str_eq source "traces")) [
          | inl traces ↦ rw (not_logs, traces) (text-IsStep p a (build_traces_text p a) w h)
          | inr not_traces ↦ elim (Bool-cases (str_eq source "metrics")) [
            | inl metrics ↦
                rw (not_logs, not_traces, metrics)
                  (metrics-SameSettings p a, (refl, inr (length-build_metrics_vector t p a)))
            | inr neither ↦ rw (not_logs, not_traces, neither) (text-IsStep p a (text_of t a) w h)
          ]
        ]
      ]

  -- Every item leaves once and in its order. If texts are hashed, an aggregate leaves with a vector
  -- of as many entries as the hash has, or 8, or as many as the projection has rows, and is else
  -- unchanged, and so is any other item.
  pub start-Revectored :
      (p : Processor F) (w : W) (items : List (Item F))
      → str_eq p.mode "hash" ≡ true
      → Pairwise (Revectored p.hash_dim p.pca) items (start t p w items)
  unfolding start
  start-Revectored p w [] h = tt
  start-Revectored p w (item ∷ items) h =
      let done = step t p w item in
      let (same, revectored) = step-IsStep p w item h in
      (
        revectored,
        subst (λ q. Pairwise (Revectored p.hash_dim p.pca) items (start t q done.1 items))
            (sym same) (start-Revectored (record p { ema = done.0.ema }) done.1 items h),
      )
