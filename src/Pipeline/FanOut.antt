-- ===== src/Pipeline/FanOut.antt =====
-- The goroutine that fans a receiver out: it takes an envelope from the shared channel and sends it
-- to each subscriber in turn, waiting while the buffer of that subscriber is full, until the context
-- ends. The channel of a pipeline is one for all the receivers that it names: the others send on it
-- as they like, and the pipeline reads when it likes. A pipeline is taken to name this receiver
-- once, a copy of an envelope is the envelope here, and the closing of channels is left out.
use Prim.Native.Nat.{ℕ, ◌<◌}
use nrt_aggragator.Prelude.{◌≡◌, List, [], ◌∷◌, ◌++◌, length, replicate}

-- the capacity of the channel of a pipeline
abbrev pub buffer_size : ℕ
buffer_size = 64

-- an envelope of this receiver, or of another one
pub data Sent {ℓ} (E : Type ℓ) : Type ℓ where
  own foreign : E → Sent E

abbrev pub own_of {ℓ} : {E : Type ℓ} → List (Sent E) → List E
own_of [] = []
own_of (own e ∷ es) = e ∷ own_of es
own_of (foreign e ∷ es) = own_of es

-- A pipeline: what waits in its channel, and what it has read.
pub record Subscriber {ℓ} (E : Type ℓ) : Type ℓ where
  pub queue : List (Sent E)
  pub read : List (Sent E)

-- nothing in hand; an envelope that is being sent; one that was given up as the context ended
pub data Hand {ℓ} (E : Type ℓ) : Type ℓ where
  idle : Hand E
  holding stopped : E → Hand E

-- What is still to come, the envelope in hand, the subscribers that have it, and those that wait.
pub record Fan {ℓ} (E : Type ℓ) : Type ℓ where
  pub todo : List E
  pub hand : Hand E
  pub served : List (Subscriber E)
  pub waiting : List (Subscriber E)

module _ {ℓ} {E : Type ℓ} where
  abbrev pub sent_to : E → Subscriber E → Subscriber E
  sent_to e s = record s { queue = s.queue ++ (own e ∷ []) }

  -- another receiver sends
  abbrev crossed_by : E → Subscriber E → Subscriber E
  crossed_by e s = record s { queue = s.queue ++ (foreign e ∷ []) }

  abbrev read_one : Sent E → List (Sent E) → Subscriber E → Subscriber E
  read_one e rest s = record { queue = rest; read = s.read ++ (e ∷ []) }

  -- One of the subscribers reads the head of its channel, or another receiver sends on one.
  pub data Moves : List (Subscriber E) → List (Subscriber E) → Type ℓ where
    reads :
        (e : Sent E) (rest : List (Sent E)) (s : Subscriber E) (ss : List (Subscriber E))
        → s.queue ≡ e ∷ rest
        → Moves (s ∷ ss) (read_one e rest s ∷ ss)
    crosses :
        (e : E) (s : Subscriber E) (ss : List (Subscriber E))
        → length s.queue < buffer_size
        → Moves (s ∷ ss) (crossed_by e s ∷ ss)
    there : (s : Subscriber E) {ss ts : List (Subscriber E)} → Moves ss ts → Moves (s ∷ ss) (s ∷ ts)

  pub data Step : Fan E → Fan E → Type ℓ where
    take_next :
        (e : E) (es : List E) (ss : List (Subscriber E))
        → Step
            (record { todo = e ∷ es; hand = idle; served = ss; waiting = [] })
            (record { todo = es; hand = holding e; served = []; waiting = ss })
    send :
        (e : E) (es : List E) (ds : List (Subscriber E)) (s : Subscriber E)
        (ss : List (Subscriber E))
        → length s.queue < buffer_size
        → Step
            (record { todo = es; hand = holding e; served = ds; waiting = s ∷ ss })
            (record {
              todo = es;
              hand = holding e;
              served = ds ++ (sent_to e s ∷ []);
              waiting = ss;
            })
    finish :
        (e : E) (es : List E) (ds : List (Subscriber E))
        → Step
            (record { todo = es; hand = holding e; served = ds; waiting = [] })
            (record { todo = es; hand = idle; served = ds; waiting = [] })
    -- the context has ended when a subscriber would be sent the envelope
    stop :
        (e : E) (es : List E) (ds : List (Subscriber E)) (s : Subscriber E)
        (ss : List (Subscriber E))
        → Step
            (record { todo = es; hand = holding e; served = ds; waiting = s ∷ ss })
            (record { todo = es; hand = stopped e; served = ds; waiting = s ∷ ss })
    served_moves :
        (es : List E) (h : Hand E) {ds cs : List (Subscriber E)} (ws : List (Subscriber E))
        → Moves ds cs
        → Step
            (record { todo = es; hand = h; served = ds; waiting = ws })
            (record { todo = es; hand = h; served = cs; waiting = ws })
    waiting_moves :
        (es : List E) (h : Hand E) (ds : List (Subscriber E)) {ws vs : List (Subscriber E)}
        → Moves ws vs
        → Step
            (record { todo = es; hand = h; served = ds; waiting = ws })
            (record { todo = es; hand = h; served = ds; waiting = vs })

  pub data Reach (s : Fan E) : Fan E → Type ℓ where
    start : Reach s s
    later : {t u : Fan E} → Reach s t → Step t u → Reach s u

  abbrev pub new_subscriber : Subscriber E
  new_subscriber = record { queue = []; read = [] }

  abbrev pub subscribers : Fan E → List (Subscriber E)
  subscribers t = t.served ++ t.waiting

  -- The receiver is about to send `es`, and nothing was read so far.
  abbrev pub init : List E → ℕ → Fan E
  init es n = record { todo = es; hand = idle; served = replicate n new_subscriber; waiting = [] }
