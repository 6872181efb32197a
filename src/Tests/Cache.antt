-- ===== src/Tests/Cache.antt =====
-- The theorems about the cache, with numbers written as that many ones.
use nrt_aggragator.Prelude.{
  ℕ, zero, suc, ◌≡◌, refl, ap, [], ◌∷◌, ◌++◌, none, some, replicate, length, length-replicate, true,
}
use nrt_aggragator.Prelude.Int.{pos}
use nrt_aggragator.Telemetry.{Bytes}
use nrt_aggragator.Cache.{Decimals, Failure, network, done, read_reply, write_part, write}
use nrt_aggragator.Cache.Codec.{AreRead, OneLine, read_command, read_command-write}
use nrt_aggragator.Cache.Commands.{
  Acknowledged, Conn, Session, value, error, World, attempt_at, get_key, with_conn, should_retry,
  success,
}
use nrt_aggragator.Cache.Retry.{IsDecided, with_conn-IsDecided}
use nrt_aggragator.Cache.Lookup.{get_key-hit}

instance abbrev ones : Decimals
ones = record { digits = λ n. replicate n b'1'; atoi = λ line. some (pos (length line)) }

ones_line : (n : ℕ) → OneLine (replicate n b'1')
ones_line zero = tt
ones_line (suc n) = (refl, ones_line n)

ones-AreRead : AreRead
ones-AreRead = record {
  one_line = ones_line;
  read_back = λ n. ap (λ k. some (pos k)) (length-replicate n b'1');
}

abbrev key : Bytes
key = b'k' ∷ 13 ∷ 10 ∷ []

abbrev closed : Failure
closed = network true

read_command-write_example :
    read_command closed (write (key ∷ [] ∷ []) ++ b'x' ∷ []) ≡ done (key ∷ [] ∷ []) (b'x' ∷ [])
read_command-write_example = read_command-write ones-AreRead closed (key ∷ [] ∷ []) (b'x' ∷ [])

abbrev conn : Conn
conn = record {
  incoming = write_part (b'v' ∷ []) ++ b'x' ∷ [];
  sent = [];
  write_error = none;
  end_error = closed;
}

get_key-hit_example :
    get_key key conn
    ≡ value
        (b'v' ∷ [])
        (record conn { incoming = b'x' ∷ []; sent = write ((b'G' ∷ b'E' ∷ b'T' ∷ []) ∷ key ∷ []) })
get_key-hit_example = get_key-hit ones-AreRead key (b'v' ∷ []) (b'x' ∷ []) conn refl refl

abbrev worlds : ℕ → World
worlds zero = record { ctx_error = none; dial = error closed }
worlds (suc n) = record { ctx_error = none; dial = value tt conn }

abbrev boot : Conn → Session Acknowledged
boot c = value tt c

with_conn-IsDecided_example :
    IsDecided
      (λ n. attempt_at boot (get_key key) (worlds n))
      3
      0
      (with_conn (pos 3) boot (get_key key) worlds)
with_conn-IsDecided_example = with_conn-IsDecided (pos 3) boot (get_key key) worlds

second_answers :
    with_conn (pos 3) boot (get_key key) worlds ≡ (some (success (b'v' ∷ [])), 25_000_000 ∷ [])
unfolding with_conn get_key read_reply write_part should_retry
second_answers = refl
