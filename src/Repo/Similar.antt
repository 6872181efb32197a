-- ===== src/Repo/Similar.antt =====
-- The similar incidents: where an answer comes from, and the key under which it is kept.
use mathlib.Core.List.{Perm, foldr}
use mathlib.Core.List.Perm
use mathlib.Core.HLevel.{hedberg}
use text.Mathlib.Text.{◌==◌ as str_eq}
use text.Mathlib.TextEquality.{eq_iff}
use nrt_aggragator.Prelude.{
  length, Option, none, some, ◌≡◌, refl, sym, ap, ◌∙◌, ◌⊎◌, Bool, true, false, List, [], ◌∷◌,
  String, arith, Bool-cases, inl, inr, is_nil,
}
use nrt_aggragator.Prelude.TextOrder.{IsLinear, text_lt, text_lt-IsLinear}
use nrt_aggragator.Prelude.Sort.{insert, sort}
use nrt_aggragator.Prelude.Int.{ℤ, pos, ltb_ℤ}
use nrt_aggragator.Prelude.Text.{Strings, is_empty}
use nrt_aggragator.Prelude.Result.{Result, ok, err}
use nrt_aggragator.Prelude.Float.{Float}
use nrt_aggragator.Telemetry.{Bytes}
use nrt_aggragator.Models.{CorrelationResult}
use nrt_aggragator.Repo.{Times}
use nrt_aggragator.Repo.Queries.{cache_similar_incidents_key, similar_query}
use nrt_aggragator.Repo.Synthetic.{positive_limit, synthetic_similar_incidents}
use nrt_aggragator.Repo.Client.{Backend, WeaviateRepo, post_query}
use nrt_aggragator.Repo.Reads.{cached, similar_key, incidents_in, ask_similar, similar_incidents}

module _ {ℓ} {A : Type ℓ} (less : A → A → Bool) (laws : IsLinear A less) where
  insert-insert_lt :
      (x y : A) (zs : List A)
      → less x y ≡ true
      → insert less x (insert less y zs) ≡ insert less y (insert less x zs)
  unfolding insert
  insert-insert_lt x y [] h = ground (arith, laws.asym x y)
  insert-insert_lt x y (z ∷ zs) h =
      ground (arith, laws.asym x y, laws.trans z x y, insert-insert_lt x y zs h)

  insert-insert :
      (x y : A) (zs : List A) → insert less x (insert less y zs) ≡ insert less y (insert less x zs)
  insert-insert x y zs = elim (Bool-cases (less x y)) [
    | inl lt ↦ insert-insert_lt x y zs lt
    | inr ge ↦ elim (Bool-cases (less y x)) [
      | inl gt ↦ sym (insert-insert_lt y x zs gt)
      | inr le ↦
          ap (λ v. insert less v (insert less y zs)) (laws.connected x y ge le)
          ∙ ap (λ v. insert less y (insert less v zs)) (sym (laws.connected x y ge le))
    ]
  ]

  sort-foldr : (xs : List A) → sort less xs ≡ foldr (insert less) [] xs
  unfolding sort
  sort-foldr [] = refl
  sort-foldr (x ∷ xs) = ap (insert less x) (sort-foldr xs)

  sort-perm_eq : IsSet A → {xs ys : List A} → Perm xs ys → sort less xs ≡ sort less ys
  sort-perm_eq aset {xs} {ys} p =
      sort-foldr xs ∙ Perm.foldr-eq (hlevel) (insert less) insert-insert p [] ∙ sym (sort-foldr ys)

String-IsSet : IsSet String
String-IsSet = hedberg (λ x y. elim (Bool-cases (str_eq x y)) [
  | inl same ↦ yes ((eq_iff x y).0 same)
  | inr apart ↦ no (λ e. absurd (ground (arith, (eq_iff x y).1 e, apart)))
])

-- The key under which an answer is kept does not depend on the order of the symptoms.
similar_key-perm :
    ⦃s : Strings⦄ (tenant_id : String) (limit : ℤ) {xs ys : List String}
    → Perm xs ys
    → similar_key tenant_id xs limit ≡ similar_key tenant_id ys limit
similar_key-perm tenant_id limit p =
    ap (λ ss. cache_similar_incidents_key tenant_id ss limit)
      (sort-perm_eq text_lt text_lt-IsLinear String-IsSet p)

module _ {ℓ} {F W : Type ℓ} ⦃f : Float F⦄ ⦃t : Times⦄ ⦃s : Strings⦄ (b : Backend F W)
    (r : WeaviateRepo) (tenant_id : String) (symptoms : List String) (limit : ℤ) where
  abbrev key : String
  key = similar_key tenant_id symptoms limit

  -- what the cache gives, and the world after it was asked
  abbrev looked_up : W → Option (List (CorrelationResult F)) × W
  looked_up w = cached b.cache_get b.decode_incidents r.similar_ttl key w

  -- what the server answers to the query after that
  abbrev asked : W → Result (Option Bytes) × W
  asked w = post_query b r (similar_query tenant_id limit) (looked_up w).1

  -- the made-up answer, with as many entries as were asked for, or 3
  abbrev IsMadeUp : W → List (CorrelationResult F) → Type ℓ
  IsMadeUp w found =
      (found ≡ synthetic_similar_incidents (b.now w) symptoms limit)
      × (length found ≡ positive_limit limit)

  -- the server could not be asked, or its answer not be read
  abbrev IsUseless : Result (Option Bytes) → Type ℓ
  IsUseless answer =
      (answer ≡ ok none)
      ⊎ ((body : Bytes) × (answer ≡ ok (some body)) × (incidents_in b body ≡ none))

  -- Without an endpoint the answer is made up. With one, it is what the cache holds under the key;
  -- else what is in the body of the server's answer; and made up only if that cannot be had.
  abbrev ComesFrom : W → List (CorrelationResult F) → Type ℓ
  ComesFrom w found =
      ((is_empty r.endpoint ≡ true) × IsMadeUp w found)
      ⊎ ((is_empty r.endpoint ≡ false)
          × (((raw : Bytes) × ((b.cache_get key w).0 ≡ some raw)
                × (b.decode_incidents raw ≡ some found))
              ⊎ (((looked_up w).0 ≡ none)
                  × (((body : Bytes) × ((asked w).0 ≡ ok (some body))
                        × (incidents_in b body ≡ some found))
                      ⊎ (IsUseless (asked w).0 × IsMadeUp (asked w).1 found)))))

  -- There is an error only if there is an endpoint, the cache has no answer, and the request itself
  -- fails.
  abbrev pub Answers : W → Result (List (CorrelationResult F)) → Type ℓ
  Answers w (ok found) = ComesFrom w found
  Answers w (err e) =
      (is_empty r.endpoint ≡ false) × ((looked_up w).0 ≡ none) × ((asked w).0 ≡ err e)

  ask_similar-keeps :
      (w v : W) (body raw : Bytes) (found : List (CorrelationResult F))
      → ltb_ℤ (pos 0) r.similar_ttl ≡ true
      → is_nil found ≡ false
      → post_query b r (similar_query tenant_id limit) w ≡ (ok (some body), v)
      → incidents_in b body ≡ some found
      → b.encode_incidents found ≡ some raw
      → ask_similar b r tenant_id symptoms limit w ≡ (ok found, b.cache_set key raw r.similar_ttl v)
  unfolding ask_similar
  ask_similar-keeps w v body raw found ttl some_found sent read kept =
      rw (sent, read, ttl, some_found, kept) refl

  -- An answer that was read from the server and kept is given again, from the cache alone, for the
  -- same symptoms in any order: if there is a time to live, and the answer is not empty, is encoded
  -- and decoded again, and the cache gives for the key what was last set.
  pub similar_incidents-again :
      (others : List String) (w v : W) (body raw : Bytes) (found : List (CorrelationResult F))
      → Perm symptoms others
      → is_empty r.endpoint ≡ false
      → ltb_ℤ (pos 0) r.similar_ttl ≡ true
      → is_nil found ≡ false
      → post_query b r (similar_query tenant_id limit) w ≡ (ok (some body), v)
      → incidents_in b body ≡ some found
      → b.encode_incidents found ≡ some raw
      → b.decode_incidents raw ≡ some found
      → ((u : W) → (b.cache_get key (b.cache_set key raw r.similar_ttl u)).0 ≡ some raw)
      → let after = (ask_similar b r tenant_id symptoms limit w).1 in
        similar_incidents b (some r) tenant_id others limit after
        ≡ (ok found, (b.cache_get key after).1)
  unfolding similar_incidents
  similar_incidents-again others w v body raw found p there ttl some_found sent read kept back law =
      rw
        (
          ask_similar-keeps w v body raw found ttl some_found sent read kept,
          there,
          ← similar_key-perm tenant_id limit p,
          ttl,
          law v,
          back,
        )
        refl
