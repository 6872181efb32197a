-- ===== src/LogSum/Window.antt =====
-- The windows of the log summarizer, and when it panics.
use mathlib.Core.Path.{subst}
use text.Mathlib.Text.{◌==◌ as str_eq}
use nrt_aggragator.Prelude.{
  ℕ, ◌+◌, ◌%◌, ◌<◌, ◌≡◌, refl, sym, ◌⊎◌, List, [], ◌∷◌, ◌++◌, String, Option, none, some, arith,
  Bool-cases, inl, inr, leb, zero, suc, ◌≤◌, length, get_elem?, All,
}
use nrt_aggragator.Prelude.Int.{ℤ, pos}
use nrt_aggragator.Prelude.Sort.{sort}
use nrt_aggragator.Prelude.Text.{Strings}
use nrt_aggragator.Prelude.Dict.{Dict, get}
use nrt_aggragator.Prelude.Float.{Float, nought, unit, of_ℕ, ge}
use nrt_aggragator.Telemetry.{Envelope, Aggregate, kind_json_logs, Item, envelope, aggregate, other}
use nrt_aggragator.Summarizer.{trunc}
use nrt_aggragator.Summarizer.Window.{InWindows, InWindows-mono, trunc-IsMultiple, trunc-ge}
use nrt_aggragator.LogSum.{Decoders, WState, Processor, counts_at, consume}
use nrt_aggragator.LogSum.Stream.{
  Input, arrived, ticked, Loop, top_values, add_top, top_labels, mixed, between, percentile,
  all_three, percentiles, labels_of, summary_of, summarize, close_window, prepend, add_summary,
  summaries, flush, log_arrived, next_window, append, run,
}

-- the inputs bring no aggregates
abbrev pub NoAggregates {ℓ} : {F : Type ℓ} → List (Input F) → Type 0
NoAggregates [] = Unit
NoAggregates (arrived nanos (aggregate a) ∷ is) = ⊥
NoAggregates (arrived nanos (envelope e) ∷ is) = NoAggregates is
NoAggregates (arrived nanos (other k) ∷ is) = NoAggregates is
NoAggregates (ticked now ∷ is) = NoAggregates is

-- There is a result, and it has the property.
abbrev pub Succeeds {ℓ} : {A : Type ℓ} → (A → Type 0) → Option A → Type 0
Succeeds P none = ⊥
Succeeds P (some a) = P a

Succeeds-bind {ℓ κ} :
    {A : Type ℓ} {B : Type κ} (P : B → Type 0) (g : A → Option B) (found : Option A)
    → Succeeds (λ _. Unit) found
    → ((a : A) → Succeeds P (g a))
    → Succeeds P (elim found [ none ↦ none | some a ↦ g a ])
Succeeds-bind P g none h k = absurd h
Succeeds-bind P g (some a) h k = k a

module _ ⦃s : Strings⦄ (range : List String → List String) (n : ℕ) where
  add_top-total :
      (k : String) (m : Dict ℕ) (labels : Dict String)
      → Succeeds (λ _. Unit) (add_top range (pos n) k m labels)
  unfolding add_top top_values
  add_top-total k [] labels = tt
  add_top-total k (e ∷ m) labels = tt

  top_labels-total :
      (top : Dict (Dict ℕ)) (ks : List String) (labels : Dict String)
      → Succeeds (λ _. Unit) (top_labels range (pos n) top ks labels)
  unfolding top_labels
  top_labels-total top [] labels = tt
  top_labels-total top (k ∷ ks) labels =
      Succeeds-bind _ (top_labels range (pos n) top ks)
        (add_top range (pos n) k (counts_at top k) labels)
        (add_top-total k (counts_at top k) labels) (top_labels-total top ks)

get_elem?-total {ℓ} :
    {A : Type ℓ} (xs : List A) (i : ℕ) → i < length xs → Succeeds (λ _. Unit) (get_elem? xs i)
get_elem?-total [] i h = absurd (omega arith)
get_elem?-total (x ∷ xs) zero h = tt
get_elem?-total (x ∷ xs) (suc i) h = get_elem?-total xs i (omega arith)

-- How the conversion to integers behaves where the percentiles use it: the fraction 0.50, 0.95 or
-- 0.99 of an integer that is not negative lies between 0 and it, without its fractional part.
abbrev pub IsTruncating {ℓ} : (F : Type ℓ) ⦃f : Float F⦄ → Type 0
IsTruncating F ⦃f⦄ =
    (k : ℕ)
    → All (λ q. (i : ℕ) × (f.to_int (f.mul (f.decimal q 2) (of_ℕ k)) ≡ pos i) × (i ≤ k))
        (50 ∷ 95 ∷ 99 ∷ [])

module _ {ℓ} {F : Type ℓ} ⦃f : Float F⦄ where
  mixed-total :
      (place : F) (l : ℤ) (a b : Option F)
      → Succeeds (λ _. Unit) a
      → Succeeds (λ _. Unit) b
      → Succeeds (λ _. Unit) (mixed place l a b)
  mixed-total place l (some a) (some b) h k = tt
  mixed-total place l none b h k = absurd h
  mixed-total place l (some a) none h k = absurd k

  between-total :
      (sorted : List F) (place : F) (l : ℕ)
      → l < length sorted
      → Succeeds (λ _. Unit) (between sorted place (pos l))
  between-total sorted place l small = elim (Bool-cases (leb (length sorted) (suc l))) [
    | inl last ↦ rw last (get_elem?-total sorted l small)
    | inr inner ↦ rw inner (
        mixed-total place (pos l) (get_elem? sorted l) (get_elem? sorted (suc l))
          (get_elem?-total sorted l small) (get_elem?-total sorted (suc l) (ground (arith, inner))))
  ]

  percentile-total :
      (sorted : List F) (q : F)
      → ((k : ℕ) → (i : ℕ) × (f.to_int (f.mul q (of_ℕ k)) ≡ pos i) × (i ≤ k))
      → Succeeds (λ _. Unit) (percentile sorted q)
  unfolding percentile
  percentile-total [] q law = tt
  percentile-total (x ∷ xs) q law = elim (Bool-cases (f.le q nought)) [
    | inl low ↦ rw low tt
    | inr above ↦ elim (Bool-cases (ge q unit)) [
      | inl high ↦ rw (above, high) (get_elem?-total (x ∷ xs) (length xs) (omega arith))
      | inr below ↦
          let (i, e, small) = law (length xs) in
          rw (above, below, e) (between-total (x ∷ xs) (f.mul q (of_ℕ (length xs))) i (omega arith))
    ]
  ]

  all_three-total :
      (a b c : Option F)
      → Succeeds (λ _. Unit) a
      → Succeeds (λ _. Unit) b
      → Succeeds (λ _. Unit) c
      → Succeeds (λ _. Unit) (all_three a b c)
  all_three-total (some a) (some b) (some c) h k l = tt
  all_three-total none b c h k l = absurd h
  all_three-total (some a) none c h k l = absurd k
  all_three-total (some a) (some b) none h k l = absurd l

  percentiles-total : IsTruncating F → (sorted : List F) → Succeeds (λ _. Unit) (percentiles sorted)
  unfolding percentiles
  percentiles-total law sorted =
      all_three-total (percentile sorted (f.decimal 50 2)) (percentile sorted (f.decimal 95 2))
        (percentile sorted (f.decimal 99 2)) (percentile-total sorted _ (λ k. (law k).0))
        (percentile-total sorted _ (λ k. (law k).1.0))
        (percentile-total sorted _ (λ k. (law k).1.1.0))

module _ {ℓ} {F : Type ℓ} ⦃f : Float F⦄ ⦃s : Strings⦄ (law : IsTruncating F) (d : Decoders F) where
  -- an aggregate of the window that begins at `start`
  abbrev IsOf : ℕ → ℕ → Aggregate F → Type 0
  IsOf win start a = (a.window_start ≡ pos start) × (a.window_end ≡ pos (start + win))

  summarize-IsOf :
      (win start : ℕ) (svc : String) (st : WState F) (tops : Dict String)
      → Succeeds (IsOf win start) (summarize d win start svc st tops)
  unfolding summarize
  summarize-IsOf win start svc st tops =
      Succeeds-bind (IsOf win start) (summary_of d win start svc st (labels_of d st tops))
        (percentiles (sort f.lt st.res)) (percentiles-total law (sort f.lt st.res))
        (λ qs. (refl, refl))

  close_window-IsOf :
      (p : Processor F) (start : ℕ) (svc : String) (st : WState F) (n : ℕ)
      → p.top_limit ≡ pos n
      → Succeeds (IsOf p.win_sec start) (close_window d p start svc st)
  unfolding close_window
  close_window-IsOf p start svc st n h =
      Succeeds-bind (IsOf p.win_sec start) (summarize d p.win_sec start svc st)
        (top_labels d.range p.top_limit st.top p.top_keys [])
        (rw h (top_labels-total d.range n st.top p.top_keys []))
        (λ tops. summarize-IsOf p.win_sec start svc st tops)

  -- what is sent, ahead of anything of this window or later ones
  abbrev Ahead : ℕ → ℕ → List (Item F) → List (Item F) → Type 0
  Ahead win start rest sent = InWindows win start (sent ++ rest)

  prepend-InWindows :
      (win start : ℕ) (rest : List (Item F)) (a : Option (Aggregate F))
      (sent : Option (List (Item F)))
      → start % win ≡ 0
      → Succeeds (IsOf win start) a
      → Succeeds (Ahead win start rest) sent
      → Succeeds (Ahead win start rest) (prepend a sent)
  prepend-InWindows win start rest (some a) (some sent) m (st, en) i =
      (start, st, en, m, omega arith, i)
  prepend-InWindows win start rest (some a) none m h i = absurd i
  prepend-InWindows win start rest none sent m h i = absurd h

  summaries-InWindows :
      (p : Processor F) (start n : ℕ) (rest : List (Item F)) (svcs : List String)
      → p.top_limit ≡ pos n
      → start % p.win_sec ≡ 0
      → InWindows p.win_sec start rest
      → Succeeds (Ahead p.win_sec start rest) (summaries d p start svcs)
  unfolding summaries add_summary
  summaries-InWindows p start n rest [] h m i = i
  summaries-InWindows p start n rest (svc ∷ svcs) h m i =
      add_summary-InWindows (get p.state svc) (summaries d p start svcs)
        (summaries-InWindows p start n rest svcs h m i)
    where
      add_summary-InWindows :
          (found : Option (WState F)) (sent : Option (List (Item F)))
          → Succeeds (Ahead p.win_sec start rest) sent
          → Succeeds (Ahead p.win_sec start rest) (add_summary d p start svc found sent)
      add_summary-InWindows none sent k = k
      add_summary-InWindows (some st) sent k =
          prepend-InWindows p.win_sec start rest (close_window d p start svc st) sent m
            (close_window-IsOf p start svc st n h) k

  append-InWindows :
      (win start later : ℕ) (sent rest : Option (List (Item F)))
      → Succeeds (InWindows win later) rest
      → ((items : List (Item F))
          → InWindows win later items
          → Succeeds (Ahead win start items) sent)
      → Succeeds (InWindows win start) (append sent rest)
  append-InWindows win start later (some sent) (some items) i k = k items i
  append-InWindows win start later none (some items) i k = k items i
  append-InWindows win start later sent none i k = absurd i

  -- the state after a log
  abbrev counted : Loop F → ℕ → Envelope → Loop F
  counted l nanos e = record l {
    processor = record l.processor { state = consume d l.processor nanos l.win_start e.bytes };
  }

  -- A log is counted and not sent; another envelope is sent and changes nothing.
  log_arrived-cases :
      (l : Loop F) (nanos : ℕ) (e : Envelope)
      → (log_arrived d l nanos (envelope e) ≡ (counted l nanos e, []))
        ⊎ (log_arrived d l nanos (envelope e) ≡ (l, envelope e ∷ []))
  unfolding log_arrived
  log_arrived-cases l nanos e = elim (Bool-cases (str_eq e.kind kind_json_logs)) [
    | inl logs ↦ inl (rw logs refl)
    | inr other_kind ↦ inr (rw other_kind refl)
  ]

  -- If the fractions of an integer are truncated to one between 0 and it, the limit of the top values
  -- is not negative, the loop begins at a multiple of its window's length, which is positive, and
  -- the inputs bring no aggregates, then no window's top values and percentiles panic, and every
  -- aggregate that is sent is about a window of that length which begins at a multiple of it, and
  -- no aggregate is about an earlier window than one sent before.
  pub run-Succeeds :
      (inputs : List (Input F)) (l : Loop F) (n : ℕ)
      → NoAggregates inputs
      → l.processor.top_limit ≡ pos n
      → 0 < l.processor.win_sec
      → l.win_start % l.processor.win_sec ≡ 0
      → Succeeds (InWindows l.processor.win_sec l.win_start) (run d l inputs)
  unfolding run
  run-Succeeds [] l n none_in h w m = tt
  run-Succeeds (arrived nanos (aggregate a) ∷ is) l n none_in h w m = absurd none_in
  run-Succeeds (arrived nanos (other k) ∷ is) l n none_in h w m =
      append-InWindows l.processor.win_sec l.win_start l.win_start (some (other k ∷ []))
        (run d l is) (run-Succeeds is l n none_in h w m) (λ items i. i)
  run-Succeeds (arrived nanos (envelope e) ∷ is) l n none_in h w m =
      let p = l.processor in
      let Good = λ (r : Loop F × List (Item F)).
        Succeeds (InWindows p.win_sec l.win_start) (append (some r.1) (run d r.0 is)) in
      elim (log_arrived-cases l nanos e) [
        | inl logs ↦ subst Good (sym logs) (
            append-InWindows p.win_sec l.win_start l.win_start (some [])
              (run d (counted l nanos e) is) (run-Succeeds is (counted l nanos e) n none_in h w m)
              (λ items i. i))
        | inr other_kind ↦ subst Good (sym other_kind) (
            append-InWindows p.win_sec l.win_start l.win_start (some (envelope e ∷ [])) (run d l is)
              (run-Succeeds is l n none_in h w m) (λ items i. i))
      ]
  run-Succeeds (ticked now ∷ is) l n none_in h w m =
      let p = l.processor in
      elim (Bool-cases (leb (l.win_start + p.win_sec) now)) [
        | inl passed ↦ rw passed (
            append-InWindows p.win_sec l.win_start (trunc now p.win_sec) (flush d p l.win_start)
              (run d (next_window d l now) is)
              (run-Succeeds is (next_window d l now) n none_in h w (trunc-IsMultiple now p.win_sec))
              (λ items i.
                unfold flush in
                summaries-InWindows p l.win_start n items _ h m (
                  InWindows-mono p.win_sec l.win_start (trunc now p.win_sec) items
                    (trunc-ge l.win_start p.win_sec now w (ground (arith, passed))) i)))
        | inr open_window ↦ rw open_window (
            append-InWindows p.win_sec l.win_start l.win_start (some []) (run d l is)
              (run-Succeeds is l n none_in h w m) (λ items i. i))
      ]
