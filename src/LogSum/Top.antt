-- ===== src/LogSum/Top.antt =====
-- The most frequent values of a field.
use nrt_aggragator.Prelude.{
  ℕ, ◌≡◌, refl, sym, ◌∙◌, false, List, map, String, arith, ltb, length, take, take_all, Bool-cases,
  inl, inr, if◌then◌else◌,
}
use nrt_aggragator.Prelude.Int.{pos}
use nrt_aggragator.Prelude.Sort.{sort}
use nrt_aggragator.Prelude.Ranking.{IsTop, take-sort-IsTop, Anything, All-Anything}
use nrt_aggragator.Prelude.Dict.{Dict}
use nrt_aggragator.LogSum.{count_at}
use nrt_aggragator.LogSum.Stream.{more, ranked, top_values}
use nrt_aggragator.LogSum.Window.{Succeeds}

-- the values of a map in the order of a range, each with its count
abbrev pub counted_values : (List String → List String) → Dict ℕ → List (String × ℕ)
counted_values range m = map (λ v. (v, count_at m v)) (range (map (λ e. e.0) m))

more_trans : (a b c : String × ℕ) → more b a ≡ false → more c b ≡ false → more c a ≡ false
more_trans a b c h k = ground arith

-- The lesser of the limit and the length cuts like the limit.
cut-eq-take {ℓ} :
    {A : Type ℓ} (n : ℕ) (xs : List A)
    → take (if ltb (length xs) n then length xs else n) xs ≡ take n xs
cut-eq-take n xs = elim (Bool-cases (ltb (length xs) n)) [
  | inl short ↦
      rw short (take_all (length xs) xs (omega arith) ∙ sym (take_all n xs (ground (arith, short))))
  | inr long ↦ rw long refl
]

-- With a limit that is not negative, the values of a field that are reported are, with those left
-- out, exactly the values that the range visits, each with its count; they are as many as the limit
-- allows, the most frequent first, and none that is left out is more frequent than a reported one.
pub top_values-IsTop :
    (range : List String → List String) (n : ℕ) (m : Dict ℕ)
    → Succeeds (IsTop more n (counted_values range m)) (top_values range (pos n) m)
unfolding top_values ranked
top_values-IsTop range n m =
    let values = counted_values range m in
    rw (cut-eq-take n (sort more values)) (
      take-sort-IsTop more Anything (λ a b c p q r h k. more_trans a b c h k) n values
        (λ a b. ground arith) (All-Anything values))
