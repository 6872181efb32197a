-- ===== src/Pipeline/Delivery.antt =====
-- What the subscribers of a receiver get.
use mathlib.Core.List.{append-nil, append_assoc}
use nrt_aggragator.Prelude.{
  ℕ, zero, suc, ◌+◌, ◌≤◌, ◌<◌, ◌≡◌, refl, sym, ap, ◌∙◌, List, [], ◌∷◌, ◌++◌, arith, length,
  length-append, length-replicate, replicate, All, All-mono, All-append,
}
use nrt_aggragator.Pipeline.FanOut.{
  buffer_size, Sent, own, foreign, own_of, Subscriber, new_subscriber, subscribers, Hand, idle,
  holding, stopped, Fan, sent_to, Moves, reads, crosses, there, Step, take_next, send, finish, stop,
  served_moves, waiting_moves, Reach, start, later, init,
}

module _ {ℓ} {E : Type ℓ} where
  pub own_of-append : (xs ys : List (Sent E)) → own_of (xs ++ ys) ≡ own_of xs ++ own_of ys
  own_of-append [] ys = refl
  own_of-append (own e ∷ xs) ys = ap (λ zs. e ∷ zs) (own_of-append xs ys)
  own_of-append (foreign e ∷ xs) ys = own_of-append xs ys

  length-own_of : (xs : List (Sent E)) → length (own_of xs) ≤ length xs
  length-own_of [] = omega arith
  length-own_of (own e ∷ xs) = omega (arith, length-own_of xs)
  length-own_of (foreign e ∷ xs) = omega (arith, length-own_of xs)

  -- what the subscriber has read and what waits for it of this receiver's, in order, is `xs`
  abbrev pub Got : List E → Subscriber E → Type ℓ
  Got xs s = (own_of (s.read ++ s.queue) ≡ xs) × (length s.queue ≤ buffer_size)

init-Got {ℓ} : (E : Type ℓ) (n : ℕ) → All (Got []) (replicate n (new_subscriber {E = E}))
init-Got E zero = tt
init-Got E (suc n) = ((refl, omega arith), init-Got E n)

module _ {ℓ} {E : Type ℓ} where
  abbrev in_hand : Hand E → List E
  in_hand idle = []
  in_hand (holding e) = e ∷ []
  in_hand (stopped e) = e ∷ []

  -- without an envelope in hand, nobody waits
  abbrev pub IsIdle : Hand E → List (Subscriber E) → Type 0
  IsIdle idle ws = length ws ≡ 0
  IsIdle _ ws = Unit

  -- `sent` are the envelopes that everybody has; `served` have the one in hand as well
  pub record Inv (all : List E) (n : ℕ) (t : Fan E) : Type ℓ where
    pub sent : List E
    pub all_of : all ≡ sent ++ (in_hand t.hand ++ t.todo)
    pub served_got : All (Got (sent ++ in_hand t.hand)) t.served
    pub waiting_got : All (Got sent) t.waiting
    pub count : length t.served + length t.waiting ≡ n
    pub no_wait : IsIdle t.hand t.waiting

  Moves-Got :
      (xs : List E) {ss ts : List (Subscriber E)} → Moves ss ts → All (Got xs) ss → All (Got xs) ts
  Moves-Got xs (reads e rest s ss h) ((g, small), gs) = (
    (
      ap own_of (append_assoc s.read (e ∷ []) rest ∙ ap (λ q. s.read ++ q) (sym h)) ∙ g,
      omega (arith, ap length h),
    ),
    gs,
  )
  Moves-Got xs (crosses e s ss room) ((g, small), gs) = (
    (
      ap own_of (sym (append_assoc s.read s.queue (foreign e ∷ [])))
          ∙ own_of-append (s.read ++ s.queue) (foreign e ∷ [])
          ∙ append-nil (own_of (s.read ++ s.queue))
          ∙ g,
      omega (arith, length-append s.queue (foreign e ∷ [])),
    ),
    gs,
  )
  Moves-Got xs (there s r) (g, gs) = (g, Moves-Got xs r gs)

  length-Moves : {ss ts : List (Subscriber E)} → Moves ss ts → length ts ≡ length ss
  length-Moves (reads e rest s ss h) = refl
  length-Moves (crosses e s ss room) = refl
  length-Moves (there s r) = ap suc (length-Moves r)

  Got-sent_to :
      (sent : List E) (e : E) (s : Subscriber E)
      → length s.queue < buffer_size
      → Got sent s
      → Got (sent ++ (e ∷ [])) (sent_to e s)
  Got-sent_to sent e s room (g, small) = (
    ap own_of (sym (append_assoc s.read s.queue (own e ∷ [])))
        ∙ own_of-append (s.read ++ s.queue) (own e ∷ [])
        ∙ ap (λ xs. xs ++ (e ∷ [])) g,
    omega (arith, length-append s.queue (own e ∷ [])),
  )

  Step-Inv : (all : List E) (n : ℕ) {t u : Fan E} → Step t u → Inv all n t → Inv all n u
  Step-Inv all n (take_next e es ss) inv = record {
    sent = inv.sent;
    all_of = inv.all_of;
    served_got = tt;
    waiting_got = rw (← append-nil inv.sent) inv.served_got;
    count = omega (arith, inv.count);
    no_wait = tt;
  }
  Step-Inv all n (send e es ds s ss room) inv = record {
    sent = inv.sent;
    all_of = inv.all_of;
    served_got =
        All-append (Got (inv.sent ++ (e ∷ []))) ds (sent_to e s ∷ []) inv.served_got
          (Got-sent_to inv.sent e s room inv.waiting_got.0, tt);
    waiting_got = inv.waiting_got.1;
    count = omega (arith, inv.count, length-append ds (sent_to e s ∷ []));
    no_wait = tt;
  }
  Step-Inv all n (finish e es ds) inv = record {
    sent = inv.sent ++ (e ∷ []);
    all_of = inv.all_of ∙ sym (append_assoc inv.sent (e ∷ []) es);
    served_got = rw (append-nil (inv.sent ++ (e ∷ []))) inv.served_got;
    waiting_got = tt;
    count = inv.count;
    no_wait = refl;
  }
  Step-Inv all n (stop e es ds s ss) inv = record {
    sent = inv.sent;
    all_of = inv.all_of;
    served_got = inv.served_got;
    waiting_got = inv.waiting_got;
    count = inv.count;
    no_wait = tt;
  }
  Step-Inv all n (served_moves es h ws r) inv = record {
    sent = inv.sent;
    all_of = inv.all_of;
    served_got = Moves-Got (inv.sent ++ in_hand h) r inv.served_got;
    waiting_got = inv.waiting_got;
    count = omega (arith, inv.count, length-Moves r);
    no_wait = inv.no_wait;
  }
  Step-Inv all n (waiting_moves es (holding e) ds r) inv = record {
    sent = inv.sent;
    all_of = inv.all_of;
    served_got = inv.served_got;
    waiting_got = Moves-Got inv.sent r inv.waiting_got;
    count = omega (arith, inv.count, length-Moves r);
    no_wait = tt;
  }
  Step-Inv all n (waiting_moves es (stopped e) ds r) inv = record {
    sent = inv.sent;
    all_of = inv.all_of;
    served_got = inv.served_got;
    waiting_got = Moves-Got inv.sent r inv.waiting_got;
    count = omega (arith, inv.count, length-Moves r);
    no_wait = tt;
  }
  Step-Inv all n (waiting_moves es idle ds r) inv = record {
    sent = inv.sent;
    all_of = inv.all_of;
    served_got = inv.served_got;
    waiting_got = Moves-Got inv.sent r inv.waiting_got;
    count = omega (arith, inv.count, length-Moves r);
    no_wait = length-Moves r ∙ inv.no_wait;
  }

  init-Inv : (all : List E) (n : ℕ) → Inv all n (init all n)
  init-Inv all n = record {
    sent = [];
    all_of = refl;
    served_got = init-Got E n;
    waiting_got = tt;
    count = omega (arith, length-replicate n (new_subscriber {E = E}));
    no_wait = refl;
  }

  pub Reach-Inv : (all : List E) (n : ℕ) {t : Fan E} → Reach (init all n) t → Inv all n t
  Reach-Inv all n start = init-Inv all n
  Reach-Inv all n (later r st) = Step-Inv all n st (Reach-Inv all n r)

  -- A subscriber that has the envelopes of `sent`, and at most one more.
  abbrev IsNear : List E → Subscriber E → Type 0
  IsNear sent s =
      (length sent ≤ length (own_of s.read) + length (own_of s.queue))
      × (length (own_of s.read) + length (own_of s.queue) ≤ suc (length sent))
      × (length (own_of s.queue) ≤ buffer_size)

  Got-length :
      (xs : List E) (s : Subscriber E)
      → Got xs s
      → (length (own_of s.read) + length (own_of s.queue) ≡ length xs)
        × (length (own_of s.queue) ≤ buffer_size)
  Got-length xs s (g, small) = omega (
    arith,
    length-append (own_of s.read) (own_of s.queue),
    ap length (sym (own_of-append s.read s.queue) ∙ g),
    length-own_of s.queue,
    small,
  )

  length-in_hand : (h : Hand E) → length (in_hand h) ≤ 1
  length-in_hand idle = omega arith
  length-in_hand (holding e) = omega arith
  length-in_hand (stopped e) = omega arith

  Got-IsNear :
      (sent : List E) (h : Hand E) (s : Subscriber E) → Got (sent ++ in_hand h) s → IsNear sent s
  Got-IsNear sent h s g =
      omega (
        arith,
        Got-length (sent ++ in_hand h) s g,
        length-append sent (in_hand h),
        length-in_hand h,
      )

  Inv-IsNear :
      (all : List E) (n : ℕ) (t : Fan E) (inv : Inv all n t) → All (IsNear inv.sent) (subscribers t)
  Inv-IsNear all n t inv =
      All-append (IsNear inv.sent) t.served t.waiting
        (All-mono t.served (Got-IsNear inv.sent t.hand) inv.served_got)
        (All-mono t.waiting (λ s g. Got-IsNear inv.sent idle s (rw (append-nil inv.sent) g))
          inv.waiting_got)

  -- what a subscriber has of the envelopes of the receiver is how they begin
  abbrev pub IsServed : List E → Subscriber E → Type ℓ
  IsServed all s =
      ((rest : List E) × (all ≡ own_of s.read ++ own_of s.queue ++ rest))
      × (length s.queue ≤ buffer_size)

  Got-IsServed :
      (all xs rest : List E) (s : Subscriber E) → all ≡ xs ++ rest → Got xs s → IsServed all s
  Got-IsServed all xs rest s e (g, small) =
      ((rest, e ∙ ap (λ ys. ys ++ rest) (sym g ∙ own_of-append s.read s.queue)), small)

  -- In every state that the fan-out reaches, before or after the context has ended, the subscribers
  -- are as many as there were, the envelopes of the receiver that each of them has read and that
  -- wait in its channel are together the first ones that the receiver sent, in their order, whatever
  -- other receivers send on the same channels, and no channel holds more than its capacity.
  pub Reach-IsServed :
      (all : List E) (n : ℕ) {t : Fan E}
      → Reach (init all n) t
      → (length (subscribers t) ≡ n) × All (IsServed all) (subscribers t)
  Reach-IsServed all n {t} r =
      let inv = Reach-Inv all n r in
      (
        omega (arith, length-append t.served t.waiting, inv.count),
        All-append (IsServed all) t.served t.waiting
            (All-mono t.served
              (λ s.
                Got-IsServed all (inv.sent ++ in_hand t.hand) t.todo s
                  (inv.all_of ∙ sym (append_assoc inv.sent (in_hand t.hand) t.todo)))
              inv.served_got)
            (All-mono t.waiting
              (λ s. Got-IsServed all inv.sent (in_hand t.hand ++ t.todo) s inv.all_of)
              inv.waiting_got),
      )

  -- One subscriber holds up the others: in every state that the fan-out reaches, no subscriber was
  -- sent more than 65 envelopes of the receiver beyond those that another one has read of them,
  -- whatever other receivers send on the same channels.
  pub Reach-IsHeldUp :
      (all : List E) (n : ℕ) {t : Fan E}
      → Reach (init all n) t
      → All
          (λ a.
            All
              (λ b.
                length (own_of a.read) + length (own_of a.queue)
                ≤ length (own_of b.read) + suc buffer_size)
              (subscribers t))
          (subscribers t)
  Reach-IsHeldUp all n {t} r =
      let near = Inv-IsNear all n t (Reach-Inv all n r) in
      All-mono (subscribers t) (λ a p. All-mono (subscribers t) (λ b q. omega (arith, p, q)) near)
        near
