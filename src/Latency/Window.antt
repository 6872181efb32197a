-- ===== src/Latency/Window.antt =====
-- The tracker is a sliding window over all durations observed since its creation.
use nrt_aggragator.Prelude.{
  ℕ, suc, ◌-◌, ◌≤◌, ◌<◌, ◌≡◌, refl, ap, List, [], ◌∷◌, ◌++◌, arith, length, take, drop,
  length-append, length-drop, take-append, drop-append, if◌then◌else◌, ltb, Bool-cases, inl, inr,
  zero,
}
use mathlib.Core.List.{append-nil, append_assoc}
use nrt_aggragator.Prelude.Int.{ℤ, leb_ℤ, pos, pos_part}
use nrt_aggragator.Latency.{LatencyTracker, new_latency_tracker, copy_down, observe, count}

abbrev pub observe_all : LatencyTracker → List ℤ → LatencyTracker
observe_all l [] = l
observe_all l (d ∷ ds) = observe_all (observe l d) ds

-- the last n entries
abbrev pub last_of : ℕ → List ℤ → List ℤ
last_of n xs = drop (length xs - n) xs

module _ {ℓ} {A : Type ℓ} where
  drop-one : (k : ℕ) (xs : List A) → drop 1 (drop k xs) ≡ drop (suc k) xs
  drop-one zero xs = refl
  drop-one (suc k) [] = refl
  drop-one (suc k) (x ∷ xs) = drop-one k xs

-- A full window loses its oldest entry.
take-copy_down :
    (n : ℕ) (s : List ℤ) (d : ℤ)
    → length s ≡ n
    → 0 < n
    → take n (copy_down (s ++ d ∷ [])) ≡ drop 1 s ++ d ∷ []
unfolding copy_down
take-copy_down n [] d h p = absurd (omega arith)
take-copy_down n (x ∷ xs) d h p =
    take-append n (xs ++ d ∷ []) _ (omega (arith, length-append xs (d ∷ [])))

abbrev window : ℕ → List ℤ → LatencyTracker
window n s = record { samples = s; max_size = n }

observe_room :
    (n : ℕ) (s : List ℤ) (d : ℤ) → length s < n → observe (window n s) d ≡ window n (s ++ d ∷ [])
unfolding observe
observe_room n s d h = ground (arith, length-append s (d ∷ []))

observe_full :
    (n : ℕ) (s : List ℤ) (d : ℤ)
    → length s ≡ n
    → 0 < n
    → observe (window n s) d ≡ window n (drop 1 s ++ d ∷ [])
unfolding observe
observe_full n s d h p = ground (arith, length-append s (d ∷ []), take-copy_down n s d h p)

last_of_short : (n : ℕ) (h : List ℤ) → length h ≤ n → last_of n h ≡ h
last_of_short n h p = let e : length h - n ≡ 0 = omega arith in rw e

last_of-append :
    (n : ℕ) (h : List ℤ) (d : ℤ)
    → n ≤ length h
    → 0 < n
    → last_of n (h ++ d ∷ []) ≡ drop 1 (last_of n h) ++ d ∷ []
last_of-append n h d p q =
    let e : length (h ++ d ∷ []) - n ≡ suc (length h - n) =
      omega (arith, length-append h (d ∷ [])) in
    rw (e, drop-one (length h - n) h) (drop-append (suc (length h - n)) h (d ∷ []) (omega arith))

-- An observation keeps the window on the last n of the history.
observe-last_of :
    (n : ℕ) (h : List ℤ) (d : ℤ)
    → 0 < n
    → observe (window n (last_of n h)) d ≡ window n (last_of n (h ++ d ∷ []))
observe-last_of n h d p = elim (Bool-cases (ltb (length h) n)) [
  | inl short ↦
      rw
        (
          last_of_short n h (ground arith),
          last_of_short n (h ++ d ∷ []) (ground (arith, length-append h (d ∷ []))),
        )
        (observe_room n h d (ground arith))
  | inr full ↦
      rw (last_of-append n h d (ground arith) p)
        (observe_full n (last_of n h) d (ground (arith, length-drop (length h - n) h)) p)
]

observe_all-last_of :
    (n : ℕ) (h ds : List ℤ)
    → 0 < n
    → observe_all (window n (last_of n h)) ds ≡ window n (last_of n (h ++ ds))
observe_all-last_of n h [] p = rw append-nil
observe_all-last_of n h (d ∷ ds) p =
    rw (observe-last_of n h d p, ← append_assoc h (d ∷ []) ds)
      (observe_all-last_of n (h ++ d ∷ []) ds p)

-- the size that `NewLatencyTracker` settles on
abbrev size_of : ℤ → ℕ
size_of m = if leb_ℤ m (pos 0) then 512 else pos_part m

size_of_pos : (m : ℤ) → 0 < size_of m
size_of_pos m = ground arith

new-eq-window : (m : ℤ) → new_latency_tracker m ≡ window (size_of m) []
unfolding new_latency_tracker
new-eq-window m = ground arith

-- Whatever size is asked for, after any observations the tracker holds exactly the last ones, in
-- order: all of them, or as many as its size (512 for a size that is not positive).
pub samples-observe_all :
    (m : ℤ) (ds : List ℤ)
    → (observe_all (new_latency_tracker m) ds).samples ≡ drop (length ds - size_of m) ds
samples-observe_all m ds = rw new-eq-window (
    ap (λ (l : LatencyTracker). l.samples)
      (rw (last_of_short (size_of m) [] (omega arith)) at
        (observe_all-last_of (size_of m) [] ds (size_of_pos m))))

-- The number of samples is the number of observations, up to the size.
pub count-observe_all :
    (m : ℤ) (ds : List ℤ)
    → (count (observe_all (new_latency_tracker m) ds) ≤ size_of m)
      × (count (observe_all (new_latency_tracker m) ds) ≤ length ds)
unfolding count
count-observe_all m ds =
    rw (samples-observe_all m ds) (omega (arith, length-drop (length ds - size_of m) ds))
