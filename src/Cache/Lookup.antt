-- ===== src/Cache/Lookup.antt =====
-- The answer of `Get`.
use nrt_aggragator.Prelude.{◌≡◌, [], ◌∷◌, ◌++◌, none, arith}
use nrt_aggragator.Telemetry.{Bytes}
use nrt_aggragator.Cache.{Decimals, write_part, write}
use nrt_aggragator.Cache.Codec.{AreRead, read_reply-write_part}
use nrt_aggragator.Cache.Commands.{Conn, value, exchange, get_key}

module _ ⦃d : Decimals⦄ (laws : AreRead) where
  -- If digits stand on one line and are read back, nothing fails on the connection, and the server
  -- answers with a bulk string, `Get` gives its bytes, having written the command and read that
  -- reply and no more.
  pub get_key-hit :
      (key payload rest : Bytes) (conn : Conn)
      → conn.write_error ≡ none
      → conn.incoming ≡ write_part payload ++ rest
      → get_key key conn
        ≡ value payload (record conn {
          incoming = rest;
          sent = conn.sent ++ write ((b'G' ∷ b'E' ∷ b'T' ∷ []) ∷ key ∷ []);
        })
  unfolding get_key exchange
  get_key-hit key payload rest conn sound answer =
      ground (arith, sound, answer, read_reply-write_part laws conn.end_error payload rest)
