-- ===== src/Filter/Kept.antt =====
-- What a filter drops.
use text.Mathlib.Text.{◌==◌ as str_eq}
use nrt_aggragator.Prelude.{
  ◌≡◌, refl, ◌⊎◌, Bool, true, ◌||◌, if◌then◌else◌, false, not, List, [], ◌∷◌, map, Option, some,
  arith, Bool-cases, inl, inr,
}
use nrt_aggragator.Prelude.Int.{ℤ}
use nrt_aggragator.Prelude.Float.{Float}
use nrt_aggragator.Telemetry.{Bytes, Item, envelope, aggregate, other}
use nrt_aggragator.Filter.{
  Activation, int_value, envelope_variables, aggregate_variables, bool_value, Processor, eval,
  eval_envelope, eval_aggregate, step, start,
}

module _ {ℓ} {F J : Type ℓ} ⦃f : Float F⦄ (decode : Bytes → Option J) (now : ℤ) where
  -- An envelope is judged before the processors, an aggregate after them or wherever the filter is
  -- on aggregates; anything else is not judged.
  abbrev is_judged : Processor F J → Item F → Bool
  is_judged p (envelope e) = str_eq p.stage "pre"
  is_judged p (aggregate a) = str_eq p.stage "post" || str_eq p.on "aggregates"
  is_judged p (other n) = false

  -- what the program sees of an item
  abbrev variables_of : Processor F J → Item F → Activation F J
  variables_of p (envelope e) =
      ("now_unix", int_value now)
      ∷ ("ts_unix", int_value e.ts_unix)
      ∷ envelope_variables decode now p.on e
  variables_of p (aggregate a) = aggregate_variables decode now a
  variables_of p (other n) = []

  -- The filter drops what does not match, judges the item, and its program evaluates to false of
  -- the item's own variables.
  abbrev Drops : Processor F J → Item F → Type 0
  Drops p item =
      (p.drop_non_matching ≡ true)
      × (is_judged p item ≡ true)
      × (p.program (variables_of p item) ≡ some (bool_value false))

  eval-false :
      (p : Processor F J) (vars : Activation F J)
      → eval p vars ≡ false
      → p.program vars ≡ some (bool_value false)
  unfolding eval
  eval-false p vars h = ground arith

  false-eval :
      (p : Processor F J) (vars : Activation F J)
      → p.program vars ≡ some (bool_value false)
      → eval p vars ≡ false
  unfolding eval
  false-eval p vars h = ground arith

  -- what a step comes to, by the tests that it makes
  abbrev pub Sends : Processor F J → Item F → List (Item F) → Type ℓ
  Sends p item sent = ((sent ≡ item ∷ []) × ¬ Drops p item) ⊎ ((sent ≡ []) × Drops p item)

  -- What is sent is decided by three tests.
  by_cases :
      (p : Processor F J) (item : Item F) {sent : List (Item F)}
      → sent ≡ (
          if is_judged p item
          then (if eval p (variables_of p item) || not p.drop_non_matching then item ∷ [] else [])
          else item ∷ [])
      → Sends p item sent
  by_cases p item h = elim (Bool-cases (is_judged p item)) [
    | inr passed ↦ inl (rw passed at h, λ d. absurd (ground (arith, passed, d.1)))
    | inl judged ↦ elim (Bool-cases (eval p (variables_of p item))) [
      | inl keep ↦ inl (
        rw (judged, keep) at h,
        λ d. absurd (ground (arith, keep, false-eval p (variables_of p item) d.2)),
      )
      | inr drop ↦ elim (Bool-cases p.drop_non_matching) [
        | inl drops ↦ inr (
          rw (judged, drop, drops) at h,
          (drops, judged, eval-false p (variables_of p item) drop),
        )
        | inr keeps ↦ inl (rw (judged, drop, keeps) at h, λ d. absurd (ground (arith, keeps, d.0)))
      ]
    ]
  ]

  pub step-IsKept : (p : Processor F J) (item : Item F) → Sends p item (step decode now p item)
  unfolding step eval_envelope eval_aggregate
  step-IsKept p (other n) = inl (refl, λ d. cc d.1)
  step-IsKept p (envelope e) = by_cases p (envelope e) (elim (Bool-cases (str_eq p.stage "pre")) [
    | inl pre ↦ rw pre refl
    | inr later ↦ rw later refl
  ])
  step-IsKept p (aggregate a) =
      by_cases p (aggregate a) (elim (Bool-cases (str_eq p.stage "post")) [
        | inl post ↦ rw post refl
        | inr elsewhere ↦ elim (Bool-cases (str_eq p.on "aggregates")) [
          | inl on ↦ rw (elsewhere, on) refl
          | inr off ↦ rw (elsewhere, off) refl
        ]
      ])

module _ {ℓ} {F J : Type ℓ} ⦃f : Float F⦄ (decode : Bytes → Option J) where
  -- A filter that does not drop sends every item once, unchanged and in order.
  start-passes :
      (p : Processor F J) (items : List (ℤ × Item F))
      → p.drop_non_matching ≡ false
      → start decode p items ≡ map (λ e. e.1) items
  unfolding start
  start-passes p [] keeps = refl
  start-passes p ((now, item) ∷ items) keeps = elim (step-IsKept decode now p item) [
    | inl (kept, passed) ↦ rw (kept, start-passes p items keeps) refl
    | inr (none_sent, dropped) ↦ absurd (ground (arith, keeps, dropped.0))
  ]
