-- ===== src/LogSum/Counts.antt =====
-- What a window of logs counts.
use Prim.Native.Nat.{min}
use text.Mathlib.Text.{◌==◌ as str_eq}
use mathlib.Core.Path.{subst}
use mathlib.Core.List.{append-nil, append_assoc}
use text.Mathlib.TextEquality.{eq_iff}
use nrt_aggragator.Prelude.{
  ℕ, suc, ◌+◌, ◌%◌, ◌^◌, ◌≤◌, ◌≡◌, refl, Bool, true, false, List, [], ◌∷◌, ◌++◌, String, Option,
  none, some, arith, Bool-cases, inl, inr, length, length-append, length-set, count_of,
  count_of-append, if◌then◌else◌,
}
use nrt_aggragator.Prelude.Text.{Strings}
use nrt_aggragator.Prelude.Dict.{get, get-put}
use nrt_aggragator.Telemetry.{Bytes}
use nrt_aggragator.Summarizer.{plus_64}
use nrt_aggragator.LogSum.{
  Decoders, Entry, WState, Processor, service_of, is_error, sample_of, add_sample, ensure, or_new,
  count_entry, consume_entry, consume,
}

abbrev is_some {ℓ} : {A : Type ℓ} → Option A → Bool
is_some none = false
is_some (some a) = true

plus_64-suc : (n : ℕ) → plus_64 (n % 2 ^ 64) 1 ≡ suc n % 2 ^ 64
plus_64-suc n = omega arith

length-add_sample {ℓ} :
    {F : Type ℓ} (cap_size nanos n : ℕ) (x : Option F) (res : List F)
    → length res ≡ min cap_size n
    → length (add_sample cap_size nanos x res) ≡ min cap_size (n + count_of is_some (x ∷ []))
unfolding add_sample
length-add_sample cap_size nanos n none res h = omega arith
length-add_sample cap_size nanos n (some x) res h =
    ground (arith, length-append res (x ∷ []), length-set res (nanos % cap_size) x)

module _ {ℓ} {F : Type ℓ} ⦃s : Strings⦄ (d : Decoders F) where
  -- the entries that count for a service
  abbrev entry_of : Processor F → String → Option (Entry F) → List (Entry F)
  entry_of p svc none = []
  entry_of p svc (some obj) = if str_eq svc (service_of d p obj) then obj ∷ [] else []

  -- The counters of a service after entries: how many there were and how many are errors, both as
  -- numbers of 64 bits, and a sample for each that has one, as far as there is room.
  abbrev IsCountOf : Processor F → List (Entry F) → WState F → Type 0
  IsCountOf p objs st =
      (st.total ≡ length objs % 2 ^ 64)
      × (st.errs ≡ count_of (is_error d p) objs % 2 ^ 64)
      × (length st.res
          ≡ min (suc p.reservoir_last) (count_of (λ obj. is_some (sample_of d p obj)) objs))

  -- the state of a service, absent when nothing was counted for it
  abbrev pub Counted : Processor F → List (Entry F) → Option (WState F) → Type 0
  Counted p objs none = length objs ≡ 0
  Counted p objs (some st) = IsCountOf p objs st × (1 ≤ length objs)

  IsCountOf-count_entry :
      (p : Processor F) (nanos : ℕ) (obj : Entry F) (objs : List (Entry F)) (st : WState F)
      → IsCountOf p objs st
      → IsCountOf p (objs ++ (obj ∷ [])) (count_entry d p nanos obj st)
  unfolding count_entry
  IsCountOf-count_entry p nanos obj objs st (t, e, r) = (
    ground (arith, length-append objs (obj ∷ []), plus_64-suc (length objs)),
    ground (
      arith,
      count_of-append (is_error d p) objs (obj ∷ []),
      plus_64-suc (count_of (is_error d p) objs),
    ),
    ground (
      arith,
      count_of-append (λ x. is_some (sample_of d p x)) objs (obj ∷ []),
      length-add_sample (suc p.reservoir_last) nanos _ (sample_of d p obj) st.res r,
    ),
  )

  or_new-IsCountOf :
      (p : Processor F) (win_start : ℕ) (objs : List (Entry F)) (found : Option (WState F))
      → Counted p objs found
      → IsCountOf p objs (or_new win_start found)
  or_new-IsCountOf p win_start objs (some st) (c, one) = c
  or_new-IsCountOf p win_start (obj ∷ objs) none h = absurd (omega arith)
  or_new-IsCountOf p win_start [] none h = (omega arith, omega arith, omega arith)

  -- The state after one more log, whatever service it is of.
  consume_entry-Counted :
      (p : Processor F) (nanos win_start : ℕ) (svc : String) (found : Option (Entry F))
      (objs : List (Entry F))
      → Counted p objs (get p.state svc)
      → Counted p (objs ++ entry_of p svc found) (get (consume_entry d p nanos win_start found) svc)
  unfolding consume_entry ensure
  consume_entry-Counted p nanos win_start svc none objs h = rw (append-nil objs) h
  consume_entry-Counted p nanos win_start svc (some obj) objs h =
      let key = service_of d p obj in
      let st = or_new win_start (get p.state key) in
      elim (Bool-cases (str_eq svc key)) [
        | inl same ↦
            rw (get-put p.state key svc (count_entry d p nanos obj st), same)
              (
                IsCountOf-count_entry p nanos obj objs st (
                    or_new-IsCountOf p win_start objs (get p.state key)
                      (subst (λ k. Counted p objs (get p.state k)) ((eq_iff svc key).0 same) h)),
                omega (arith, length-append objs (obj ∷ [])),
              )
        | inr apart ↦
            rw (get-put p.state key svc (count_entry d p nanos obj st), apart)
              (rw (append-nil objs) h)
      ]

  -- the entries of a service among logs
  unfoldable pub entries_of : Processor F → String → List (ℕ × Bytes) → List (Entry F)
  entries_of p svc [] = []
  entries_of p svc ((nanos, raw) ∷ raws) = entry_of p svc (d.decode raw) ++ entries_of p svc raws

  -- the states after logs of one window
  unfoldable pub consume_all : Processor F → ℕ → List (ℕ × Bytes) → Processor F
  unfolding consume
  consume_all p win_start [] = p
  consume_all p win_start ((nanos, raw) ∷ raws) =
      consume_all (record p { state = consume d p nanos win_start raw }) win_start raws

  consume_all-Counted :
      (raws : List (ℕ × Bytes)) (p : Processor F) (win_start : ℕ) (svc : String)
      (objs : List (Entry F))
      → Counted p objs (get p.state svc)
      → Counted p (objs ++ entries_of p svc raws) (get (consume_all p win_start raws).state svc)
  unfolding consume_all consume entries_of
  consume_all-Counted [] p win_start svc objs h = rw (append-nil objs) h
  consume_all-Counted ((nanos, raw) ∷ raws) p win_start svc objs h =
      let after = record p { state = consume d p nanos win_start raw } in
      rw (← append_assoc objs (entry_of p svc (d.decode raw)) (entries_of p svc raws)) (
        consume_all-Counted raws after win_start svc (objs ++ entry_of p svc (d.decode raw))
          (consume_entry-Counted p nanos win_start svc (d.decode raw) objs h))

  -- From an empty state, a service has a state exactly if some log was its; the state has their
  -- number and the number of errors among them, both modulo 2^64, and as many samples as logs with
  -- a number in the quantile field, or as the reservoir has room for.
  pub consume_all-counts :
      (p : Processor F) (win_start : ℕ) (raws : List (ℕ × Bytes)) (svc : String)
      → p.state ≡ []
      → Counted p (entries_of p svc raws) (get (consume_all p win_start raws).state svc)
  consume_all-counts p win_start raws svc empty =
      consume_all-Counted raws p win_start svc [] (rw empty (unfold get in refl))
