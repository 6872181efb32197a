-- ===== src/Recommend/Unique.antt =====
-- `appendUnique` keeps a list free of repetitions and of empty texts, and loses nothing.
use text.Mathlib.TextEquality.{eq_iff}
use nrt_aggragator.Prelude.{
  ◌≡◌, refl, false, not, List, [], ◌∷◌, ◌++◌, String, arith, Bool-cases, inl, inr, ◌||◌, ◌&&◌,
}
use nrt_aggragator.Prelude.Text.{is_empty}
use nrt_aggragator.Recommend.{is_seen, add_unique, append_unique}

pub is_seen-append :
    (xs ys : List String) (j : String) → is_seen (xs ++ ys) j ≡ (is_seen xs j || is_seen ys j)
unfolding is_seen
is_seen-append [] ys j = refl
is_seen-append (x ∷ xs) ys j = ground (arith, is_seen-append xs ys j)

is_seen-add_unique :
    (xs : List String) (item j : String)
    → is_seen (add_unique xs item) j ≡ (is_seen xs j || (not (is_empty j) && is_seen (item ∷ []) j))
unfolding add_unique is_seen
is_seen-add_unique xs item j =
    ground (arith, is_seen-append xs (item ∷ []) j, eq_iff item j, eq_iff item "", eq_iff j "")

is_seen-cons :
    (x : String) (xs : List String) (j : String)
    → is_seen (x ∷ xs) j ≡ (is_seen (x ∷ []) j || is_seen xs j)
unfolding is_seen
is_seen-cons x xs j = ground arith

-- A text is in the result exactly when it was there before, or is one of the additions and not
-- empty.
pub is_seen-append_unique :
    (existing items : List String) (j : String)
    → is_seen (append_unique existing items) j
      ≡ (is_seen existing j || (not (is_empty j) && is_seen items j))
unfolding append_unique
is_seen-append_unique existing [] j = unfold is_seen in ground arith
is_seen-append_unique existing (item ∷ items) j = ground (
  arith,
  is_seen-append_unique (add_unique existing item) items j,
  is_seen-add_unique existing item j,
  is_seen-cons item items j,
)

-- No text stands twice in the list, and none is empty.
abbrev pub IsUnique : List String → Type 0
IsUnique [] = Unit
IsUnique (x ∷ xs) = (is_empty x ≡ false) × (is_seen xs x ≡ false) × IsUnique xs

IsUnique-append :
    (xs : List String) (j : String)
    → IsUnique xs
    → is_empty j ≡ false
    → is_seen xs j ≡ false
    → IsUnique (xs ++ j ∷ [])
unfolding is_seen
IsUnique-append [] j u n m = (n, refl, tt)
IsUnique-append (x ∷ xs) j (full, new, rest) n m = (
  full,
  ground (arith, is_seen-append xs (j ∷ []) x, eq_iff x j, eq_iff j x),
  IsUnique-append xs j rest n (ground arith),
)

add_unique-IsUnique :
    (existing : List String) (item : String)
    → IsUnique existing
    → IsUnique (add_unique existing item)
unfolding add_unique
add_unique-IsUnique existing item u = elim (Bool-cases (is_empty item)) [
  | inl e ↦ rw e u
  | inr e ↦ elim (Bool-cases (is_seen existing item)) [
    | inl old ↦ rw (e, old) u
    | inr new ↦ rw (e, new) (IsUnique-append existing item u e new)
  ]
]

pub append_unique-IsUnique :
    (existing items : List String) → IsUnique existing → IsUnique (append_unique existing items)
unfolding append_unique
append_unique-IsUnique existing [] u = u
append_unique-IsUnique existing (item ∷ items) u =
    append_unique-IsUnique (add_unique existing item) items (add_unique-IsUnique existing item u)
