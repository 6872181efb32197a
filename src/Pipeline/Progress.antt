-- ===== src/Pipeline/Progress.antt =====
-- The fan-out of a receiver gets to its end if its subscribers read.
use mathlib.Core.Path.{subst}
use mathlib.Core.List.{append-nil, append_assoc}
use nrt_aggragator.Prelude.{
  ℕ, ◌≡◌, refl, sym, ap, ◌∙◌, List, [], ◌∷◌, ◌++◌, map, arith, length, All,
}
use nrt_aggragator.Pipeline.FanOut.{
  Sent, own_of, Subscriber, Hand, idle, holding, stopped, Fan, sent_to, Moves, reads, there,
  take_next, send, finish, served_moves, waiting_moves, Reach, start, later, init,
}
use nrt_aggragator.Pipeline.Delivery.{Got, Reach-Inv, IsIdle}

module _ {ℓ} {E : Type ℓ} where
  -- any number of reads
  data ReadsMany : List (Subscriber E) → List (Subscriber E) → Type ℓ where
    done : (ss : List (Subscriber E)) → ReadsMany ss ss
    next : {ss ts us : List (Subscriber E)} → Moves ss ts → ReadsMany ts us → ReadsMany ss us

  ReadsMany-trans :
      {ss ts us : List (Subscriber E)} → ReadsMany ss ts → ReadsMany ts us → ReadsMany ss us
  ReadsMany-trans (done ss) r = r
  ReadsMany-trans (next one q) r = next one (ReadsMany-trans q r)

  ReadsMany-there :
      (s : Subscriber E) {ss ts : List (Subscriber E)}
      → ReadsMany ss ts
      → ReadsMany (s ∷ ss) (s ∷ ts)
  ReadsMany-there s (done ss) = done (s ∷ ss)
  ReadsMany-there s (next one q) = next (there s one) (ReadsMany-there s q)

  -- the subscriber after it has read all that waits
  abbrev drained : Subscriber E → Subscriber E
  drained s = record { queue = []; read = s.read ++ s.queue }

  drain_one :
      (q r : List (Sent E)) (ss : List (Subscriber E))
      → ReadsMany (record { queue = q; read = r } ∷ ss) (record { queue = []; read = r ++ q } ∷ ss)
  drain_one [] r ss = rw (append-nil r) (done (record { queue = []; read = r } ∷ ss))
  drain_one (e ∷ q) r ss =
      next (reads e q (record { queue = e ∷ q; read = r }) ss refl)
        (rw (← append_assoc r (e ∷ []) q) (drain_one q (r ++ (e ∷ [])) ss))

  drain_all : (ss : List (Subscriber E)) → ReadsMany ss (map drained ss)
  drain_all [] = done []
  drain_all (s ∷ ss) =
      ReadsMany-trans (drain_one s.queue s.read ss) (ReadsMany-there (drained s) (drain_all ss))

  abbrev at : List E → Hand E → List (Subscriber E) → List (Subscriber E) → Fan E
  at es h ds ws = record { todo = es; hand = h; served = ds; waiting = ws }

  served_read_many :
      {t : Fan E} (es : List E) (h : Hand E) {ds cs : List (Subscriber E)}
      (ws : List (Subscriber E))
      → ReadsMany ds cs
      → Reach t (at es h ds ws)
      → Reach t (at es h cs ws)
  served_read_many es h ws (done ds) r = r
  served_read_many es h ws (next one q) r =
      served_read_many es h ws q (later r (served_moves es h ws one))

  waiting_read_many :
      {t : Fan E} (es : List E) (h : Hand E) (ds : List (Subscriber E))
      {ws vs : List (Subscriber E)}
      → ReadsMany ws vs
      → Reach t (at es h ds ws)
      → Reach t (at es h ds vs)
  waiting_read_many es h ds (done ws) r = r
  waiting_read_many es h ds (next one q) r =
      waiting_read_many es h ds q (later r (waiting_moves es h ds one))

  -- everybody who waits gets the envelope in hand
  serve_all :
      {t : Fan E} (es : List E) (e : E) (ws ds : List (Subscriber E))
      → Reach t (at es (holding e) ds ws)
      → (cs : List (Subscriber E)) × Reach t (at es (holding e) cs [])
  serve_all es e [] ds r = (ds, r)
  serve_all es e (w ∷ ws) ds r = serve_all es e ws (ds ++ (sent_to e (drained w) ∷ [])) (
      later (waiting_read_many es (holding e) ds (drain_one w.queue w.read ws) r)
        (send e es ds (drained w) ws (omega arith)))

  -- everything that is still to come is sent
  send_all :
      {t : Fan E} (es : List E) (ds : List (Subscriber E))
      → Reach t (at es idle ds [])
      → (cs : List (Subscriber E)) × Reach t (at [] idle cs [])
  send_all [] ds r = (ds, r)
  send_all (e ∷ es) ds r =
      let (cs, q) = serve_all es e ds [] (later r (take_next e es ds)) in
      send_all es cs (later q (finish e es cs))

  -- the context has not ended
  abbrev IsRunning : Hand E → Type 0
  IsRunning (stopped e) = ⊥
  IsRunning _ = Unit

  go_on :
      {t : Fan E} (es : List E) (h : Hand E) (ds ws : List (Subscriber E))
      → IsRunning h
      → IsIdle h ws
      → Reach t (at es h ds ws)
      → (cs : List (Subscriber E)) × Reach t (at [] idle cs [])
  go_on es idle ds [] running none_waits r = send_all es ds r
  go_on es idle ds (w ∷ ws) running none_waits r = absurd (omega arith)
  go_on es (holding e) ds ws running none_waits r =
      let (cs, q) = serve_all es e ws ds r in send_all es cs (later q (finish e es cs))
  go_on es (stopped e) ds ws running none_waits r = absurd running

  Reach-trans : {s t u : Fan E} → Reach s t → Reach t u → Reach s u
  Reach-trans r start = r
  Reach-trans r (later q st) = later (Reach-trans r q) st

  drained-read :
      (xs : List E) (ss : List (Subscriber E))
      → All (Got xs) (map drained ss)
      → All (λ s. own_of s.read ≡ xs) (map drained ss)
  drained-read xs [] g = tt
  drained-read xs (s ∷ ss) ((g, small), gs) =
      (ap own_of (sym (append-nil (s.read ++ s.queue))) ∙ g, drained-read xs ss gs)

  -- The envelopes are all sent, and every subscriber has read them.
  abbrev pub IsComplete : List E → ℕ → Fan E → Type ℓ
  IsComplete all n t =
      (t.todo ≡ [])
      × (t.hand ≡ idle)
      × (length t.served ≡ n)
      × All (λ s. own_of s.read ≡ all) t.served

  -- Until the context ends nothing is lost and nothing gets stuck: from every state that the fan-out
  -- reaches, whatever other receivers sent on the same channels, if no envelope was given up it can
  -- go on, the subscribers reading, to one in which each of them has read all the envelopes of the
  -- receiver in order.
  pub Reach-IsComplete :
      (all : List E) (n : ℕ) {t : Fan E}
      → Reach (init all n) t
      → IsRunning t.hand
      → (u : Fan E) × Reach t u × IsComplete all n u
  Reach-IsComplete all n {t} r running =
      let (cs, q) =
        go_on t.todo t.hand t.served t.waiting running (Reach-Inv all n r).no_wait start in
      let last = served_read_many [] idle [] (drain_all cs) q in
      let inv = Reach-Inv all n (Reach-trans r last) in
      (
        at [] idle (map drained cs) [],
        last,
        (
          refl,
          refl,
          omega (arith, inv.count),
          drained-read all cs
              (subst (λ xs. All (Got xs) (map drained cs)) (sym inv.all_of) inv.served_got),
        ),
      )
