-- ===== src/Cache/Retry.antt =====
-- The attempts of `withConn`.
use nrt_aggragator.Prelude.{
  ℕ, zero, suc, ◌+◌, ◌<◌, ◌≡◌, refl, ap, ◌⊎◌, true, false, ◌&&◌, List, [], ◌∷◌, arith, Bool-cases,
  inl, inr, Option, some, ltb, All, map,
}
use nrt_aggragator.Prelude.Int.{ℤ, pos, negsuc}
use nrt_aggragator.Cache.Commands.{
  Acknowledged, Session, Conn, World, Tried, attempt_at, is_retried, backoff, attempts, retries_of,
  with_conn,
}

-- the numbers from `n` on, `k` of them
abbrev pub numbers : ℕ → ℕ → List ℕ
numbers n zero = []
numbers n (suc k) = n ∷ numbers (suc n) k

retries_of-pos : (max_retries : ℤ) → 0 < retries_of max_retries
retries_of-pos (pos zero) = omega arith
retries_of-pos (pos (suc n)) = omega arith
retries_of-pos (negsuc n) = omega arith

module _ {ℓ} {A : Type ℓ} where
  -- The attempt `n + k` decides: those before it failed in a way that is worth another attempt, with
  -- the pauses of `backoff` between them, and it did not, or it was the last one that was left.
  pub record IsDecided (try_at : ℕ → Tried A) (left n : ℕ) (result : Option (Tried A) × List ℕ)
      : Type ℓ where
    pub k : ℕ
    pub bounded : k < left
    pub answer : result.0 ≡ some (try_at (n + k))
    pub pauses : result.1 ≡ map backoff (numbers n k)
    pub earlier : All (λ i. is_retried (try_at i) ≡ true) (numbers n k)
    pub final : (is_retried (try_at (n + k)) ≡ false) ⊎ (suc k ≡ left)

  attempts-IsDecided :
      (try_at : ℕ → Tried A) (left n : ℕ)
      → 0 < left
      → IsDecided try_at left n (attempts try_at left n)
  unfolding attempts
  attempts-IsDecided try_at zero n h = absurd (omega arith)
  attempts-IsDecided try_at (suc left) n h =
      elim (Bool-cases (is_retried (try_at n) && ltb 0 left)) [
        | inl again ↦ rw again (
            let ih = attempts-IsDecided try_at left (suc n) (ground (arith, again)) in
            record {
              k = suc ih.k;
              bounded = omega (arith, ih.bounded);
              answer = ground (arith, ih.answer);
              pauses = ap (◌∷◌ (backoff n)) ih.pauses;
              earlier = (ground (arith, again), ih.earlier);
              final = ground (arith, ih.final);
            })
        | inr settled ↦ rw settled (record {
          k = 0;
          bounded = omega arith;
          answer = ground arith;
          pauses = refl;
          earlier = tt;
          final = ground (arith, settled);
        })
      ]

  -- One of at most as many attempts as are allowed, and of one at least, decides the answer: those
  -- before it failed in a way that is worth another attempt, each followed by its pause, and it did
  -- not, or was the last one allowed.
  pub with_conn-IsDecided :
      (max_retries : ℤ) (boot : Conn → Session Acknowledged) (fn : Conn → Session A)
      (worlds : ℕ → World)
      → IsDecided
          (λ n. attempt_at boot fn (worlds n))
          (retries_of max_retries)
          0
          (with_conn max_retries boot fn worlds)
  unfolding with_conn
  with_conn-IsDecided max_retries boot fn worlds =
      attempts-IsDecided (λ n. attempt_at boot fn (worlds n)) (retries_of max_retries) 0
        (retries_of-pos max_retries)
