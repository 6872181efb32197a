-- ===== src/Cache/Commands.antt =====
-- The commands of valkey.go on a connection, and the attempts that `withConn` makes. A connection is
-- what the server will send and what was written to it; a key or a value is its bytes.
use nrt_aggragator.Prelude.{
  ℕ, zero, suc, ◌*◌, ◌/◌, ◌^◌, String, Bool, true, false, ◌&&◌, List, [], ◌∷◌, ◌++◌, if◌then◌else◌,
  Option, none, some, ltb, ◌==◌, is_nil,
}
use nrt_aggragator.Prelude.Int.{ℤ, pos}
use nrt_aggragator.Telemetry.{Bytes}
use nrt_aggragator.Cache.{
  Decimals, Failure, cache_miss, network, protocol, Read, done, failed, panic, Reply, simple_string,
  bulk_string, nil_reply, read_reply, write,
}

pub record ValkeyConfig : Type 0 where
  pub addr : Bytes
  pub username : Bytes
  pub password : Bytes
  pub db : ℤ
  pub dial_timeout : ℤ
  pub read_timeout : ℤ
  pub write_timeout : ℤ
  pub max_retries : ℤ

abbrev positive_or : ℤ → ℤ → ℤ
positive_or (pos (suc n)) def = pos (suc n)
positive_or _ def = def

-- 2 s to dial, 500 ms to read and to write, and one attempt
unfoldable normalise_durations : ValkeyConfig → ValkeyConfig
normalise_durations cfg = record cfg {
  dial_timeout = positive_or cfg.dial_timeout (pos 2_000_000_000);
  read_timeout = positive_or cfg.read_timeout (pos 500_000_000);
  write_timeout = positive_or cfg.write_timeout (pos 500_000_000);
  max_retries = positive_or cfg.max_retries (pos 1);
}

pub record Conn : Type 0 where
  pub incoming : Bytes
  pub sent : Bytes
  -- the error of the next write, if it fails
  pub write_error : Option Failure
  -- what a read past the last byte gives
  pub end_error : Failure

-- the answer of a command that answers nothing but that it succeeded
abbrev pub Acknowledged : Type 0
Acknowledged = Unit

pub data Session {ℓ} (A : Type ℓ) : Type ℓ where
  value : A → Conn → Session A
  error : Failure → Session A
  crash : Session A

infixl 5 ◌>>=◌
abbrev pub ◌>>=◌ {ℓ κ} : {A : Type ℓ} {B : Type κ} → Session A → (A → Conn → Session B) → Session B
value a conn >>= g = g a conn
error e >>= g = error e
crash >>= g = crash

abbrev of_read : Conn → Read Reply → Session Reply
of_read conn (done reply left) = value reply (record conn { incoming = left })
of_read conn (failed e) = error e
of_read conn panic = crash

-- the bytes of "OK" and "PONG"
abbrev ok_text : Bytes
ok_text = b'O' ∷ b'K' ∷ []

abbrev pong_text : Bytes
pong_text = b'P' ∷ b'O' ∷ b'N' ∷ b'G' ∷ []

abbrev same_bytes : Bytes → Bytes → Bool
same_bytes [] [] = true
same_bytes [] (y ∷ ys) = false
same_bytes (x ∷ xs) [] = false
same_bytes (x ∷ xs) (y ∷ ys) = (x == y) && same_bytes xs ys

module _ ⦃d : Decimals⦄ where
  -- a command is written and its reply read
  unfoldable pub exchange : List Bytes → Conn → Session Reply
  unfolding read_reply write
  exchange parts conn = elim conn.write_error [
    | some e ↦ error e
    | none ↦
        let conn' = record conn { sent = conn.sent ++ write parts } in
        of_read conn' (read_reply conn.end_error conn.incoming)
  ]

  abbrev payload_of : Reply → Conn → Session Bytes
  payload_of (bulk_string data_bytes) conn = value data_bytes conn
  payload_of nil_reply conn = error cache_miss
  payload_of _ conn = error (protocol "unexpected valkey reply type for GET")

  unfoldable pub get_key : Bytes → Conn → Session Bytes
  unfolding exchange
  get_key key conn = exchange ((b'G' ∷ b'E' ∷ b'T' ∷ []) ∷ key ∷ []) conn >>= payload_of

  abbrev expect_text : (Bytes → Bool) → String → Reply → Conn → Session Acknowledged
  expect_text good message (simple_string text) conn =
      if good text then value tt conn else error (protocol message)
  expect_text good message _ conn = error (protocol message)

  -- `PX` and the milliseconds of a positive time to live, given in nanoseconds
  abbrev expiry : ℤ → List Bytes
  expiry (pos (suc n)) = (b'P' ∷ b'X' ∷ []) ∷ d.digits (suc n / 1_000_000) ∷ []
  expiry _ = []

  abbrev set_command : Bytes → Bytes → ℤ → List Bytes
  set_command key val ttl = (b'S' ∷ b'E' ∷ b'T' ∷ []) ∷ key ∷ val ∷ expiry ttl

  unfoldable set_key : Bytes → Bytes → ℤ → Conn → Session Acknowledged
  unfolding exchange
  set_key key val ttl conn =
      exchange (set_command key val ttl) conn
      >>= expect_text (same_bytes ok_text) "unexpected SET response"

  abbrev stored_of : Reply → Conn → Session Bool
  stored_of (simple_string text) conn = value true conn
  stored_of nil_reply conn = value false conn
  stored_of _ conn = error (protocol "unexpected SETNX response type")

  unfoldable set_nx : Bytes → Bytes → ℤ → Conn → Session Bool
  unfolding exchange
  set_nx key val ttl conn =
      exchange (set_command key val ttl ++ ((b'N' ∷ b'X' ∷ []) ∷ [])) conn >>= stored_of

  unfoldable del : Bytes → Conn → Session Acknowledged
  unfolding exchange
  del key conn =
      exchange ((b'D' ∷ b'E' ∷ b'L' ∷ []) ∷ key ∷ []) conn >>= (λ reply conn'. value tt conn')

  unfoldable ping : Conn → Session Acknowledged
  unfolding exchange
  ping conn =
      exchange ((b'P' ∷ b'I' ∷ b'N' ∷ b'G' ∷ []) ∷ []) conn
      >>= expect_text (same_bytes pong_text) "unexpected PING response"

  abbrev auth_command : ValkeyConfig → List Bytes
  auth_command cfg =
      (b'A' ∷ b'U' ∷ b'T' ∷ b'H' ∷ [])
      ∷ (if is_nil cfg.username then cfg.password ∷ [] else cfg.username ∷ cfg.password ∷ [])

  -- `fold_ok` is strings.EqualFold with "OK".
  module _ (fold_ok : Bytes → Bool) where
    unfoldable authenticate : ValkeyConfig → Conn → Session Acknowledged
    unfolding exchange
    authenticate cfg conn =
        if is_nil cfg.password
        then value tt conn
        else exchange (auth_command cfg) conn >>= expect_text fold_ok "auth failed"

    unfoldable select_db : ℤ → Conn → Session Acknowledged
    unfolding exchange
    select_db (pos (suc n)) conn =
        exchange ((b'S' ∷ b'E' ∷ b'L' ∷ b'E' ∷ b'C' ∷ b'T' ∷ []) ∷ d.digits (suc n) ∷ []) conn
        >>= expect_text fold_ok "select failed"
    select_db _ conn = value tt conn

    unfoldable bootstrap : ValkeyConfig → Conn → Session Acknowledged
    unfolding authenticate select_db
    bootstrap cfg conn = authenticate cfg conn >>= (λ u conn'. select_db cfg.db conn')

-- How an attempt meets the world: the error of the context, and the connection or the dial's error.
pub record World : Type 0 where
  pub ctx_error : Option Failure
  pub dial : Session Acknowledged

pub data Tried {ℓ} (A : Type ℓ) : Type ℓ where
  success : A → Tried A
  failure : Failure → Tried A
  -- the error of the context, which ends the loop
  cancelled : Failure → Tried A
  crashed : Tried A

unfoldable pub should_retry : Failure → Bool
should_retry (network again) = again
should_retry _ = false

-- 25 ms, and twice as long after each attempt
unfoldable pub backoff : ℕ → ℕ
backoff attempt = 2 ^ attempt * 25_000_000

abbrev pub retries_of : ℤ → ℕ
retries_of (pos (suc n)) = suc n
retries_of _ = 1

module _ {ℓ} {A : Type ℓ} where
  abbrev tried_of : Session A → Tried A
  tried_of (value a conn) = success a
  tried_of (error e) = failure e
  tried_of crash = crashed

  -- one attempt: the context, the dial, the set-up of the connection, and the command
  unfoldable pub attempt_at : (Conn → Session Acknowledged) → (Conn → Session A) → World → Tried A
  attempt_at boot fn w = elim w.ctx_error [
    | some e ↦ cancelled e
    | none ↦ tried_of (w.dial >>= (λ u conn. boot conn) >>= (λ u conn. fn conn))
  ]

  abbrev pub is_retried : Tried A → Bool
  is_retried (failure e) = should_retry e
  is_retried _ = false

  -- The result of the attempts from the `n`-th one on, when `left` are left, and the pauses between
  -- them. With none left, no error is known.
  unfoldable pub attempts : (ℕ → Tried A) → (left : ℕ) → ℕ → Option (Tried A) × List ℕ
  unfolding backoff
  attempts try_at zero n = (none, [])
  attempts try_at (suc left) n =
      let rest = attempts try_at left (suc n) in
      if is_retried (try_at n) && ltb 0 left
      then (rest.0, backoff n ∷ rest.1)
      else (some (try_at n), [])

  -- The worlds of the attempts are numbered from 0.
  unfoldable pub with_conn :
      ℤ
      → (Conn → Session Acknowledged)
      → (Conn → Session A)
      → (ℕ → World)
      → Option (Tried A) × List ℕ
  unfolding attempts attempt_at
  with_conn max_retries boot fn worlds =
      attempts (λ n. attempt_at boot fn (worlds n)) (retries_of max_retries) 0
