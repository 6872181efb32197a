-- ===== src/Latency.antt =====
-- mirador-rca-main/internal/utils/latency.go: the tracker of recent durations. A duration is its
-- number of nanoseconds; each method is one critical section of the mutex.
pub mod Window
pub mod Percentile
pub mod Rank
use nrt_aggragator.Prelude.{
  ℕ, zero, suc, ◌+◌, ◌-◌, Bool, List, [], ◌∷◌, ◌++◌, ltb, leb, if◌then◌else◌, length, take, drop,
  get_or,
}
use nrt_aggragator.Prelude.Int.{ℤ, pos, negsuc, ltb_ℤ, leb_ℤ, pos_part}
use nrt_aggragator.Prelude.Sort.{sort}
use nrt_aggragator.Prelude.Float.{Float, of_ℕ}

pub record LatencyTracker : Type 0 where
  pub samples : List ℤ
  pub max_size : ℕ

-- A size that is not positive becomes 512.
unfoldable pub new_latency_tracker : ℤ → LatencyTracker
new_latency_tracker max_size =
    if leb_ℤ max_size (pos 0)
    then record { samples = []; max_size = 512 }
    else record { samples = []; max_size = pos_part max_size }

-- `copy(s[0:], s[1:])`: the last entry stays where it was.
unfoldable pub copy_down : List ℤ → List ℤ
copy_down s = drop 1 s ++ drop (length s - 1) s

unfoldable pub observe : LatencyTracker → ℤ → LatencyTracker
unfolding copy_down
observe l d =
    let samples = l.samples ++ (d ∷ []) in
    if ltb l.max_size (length samples)
    then record l { samples = take l.max_size (copy_down samples) }
    else record l { samples = samples }

unfoldable pub count : LatencyTracker → ℕ
count l = length l.samples

-- the loops of `min` and `max`
unfoldable pub min_from : ℤ → List ℤ → ℤ
min_from m [] = m
min_from m (s ∷ ss) = min_from (if ltb_ℤ s m then s else m) ss

unfoldable pub max_from : ℤ → List ℤ → ℤ
max_from m [] = m
max_from m (s ∷ ss) = max_from (if ltb_ℤ m s then s else m) ss

unfoldable pub min : List ℤ → ℤ
unfolding min_from
min [] = pos 0
min (s ∷ ss) = min_from s ss

unfoldable pub max : List ℤ → ℤ
unfolding max_from
max [] = pos 0
max (s ∷ ss) = max_from s ss

-- the index, clamped to the n entries
unfoldable pub clamp_index : ℤ → ℕ → ℕ
clamp_index (negsuc i) n = 0
clamp_index (pos i) n = if leb n i then n - 1 else i

module _ {ℓ} {F : Type ℓ} ⦃f : Float F⦄ where
  percentile_of : List ℤ → F → ℤ
  unfolding min max clamp_index
  percentile_of samples p =
      if f.le p (f.decimal 0 0)
      then min samples
      else if f.le (f.decimal 100 0) p
      then max samples
      else (let sorted = sort ltb_ℤ samples in
          let index = f.to_int (f.mul (f.div p (f.decimal 100 0)) (of_ℕ (length sorted - 1))) in
          get_or sorted (clamp_index index (length sorted)) (pos 0))

  unfoldable pub percentile : LatencyTracker → F → ℤ
  unfolding percentile_of
  percentile l p = elim l.samples [ [] ↦ pos 0 | s ∷ ss ↦ percentile_of (s ∷ ss) p ]
