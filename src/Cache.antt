-- ===== src/Cache.antt =====
-- mirador-rca-main/internal/cache/valkey.go: the protocol of the cache (RESP) over the bytes of a
-- connection. What the server sends is a list of bytes that ends; reading past it is the error of
-- the connection. Deadlines are left out. The decimal digits of a number and their reading are
-- strconv and parameters.
pub mod Codec
pub mod Commands
pub mod Retry
pub mod Lookup
use nrt_aggragator.Prelude.{
  ℕ, zero, suc, ◌+◌, ◌-◌, ◌*◌, ◌^◌, Bool, true, false, not, ◌&&◌, ◌||◌, List, [], ◌∷◌, ◌++◌, map,
  String, if◌then◌else◌, Option, none, some, ltb, leb, ◌==◌, length, take, drop,
}
use nrt_aggragator.Prelude.Int.{ℤ, pos, negsuc}
use nrt_aggragator.Telemetry.{Bytes}

pub record Decimals : Type 0 where
  -- the digits of `%d`
  pub digits : ℕ → Bytes
  -- strconv.Atoi
  pub atoi : Bytes → Option ℤ

-- `network again` is a net.Error, which may be worth another attempt; `server` is an error that the
-- server answers.
pub data Failure : Type 0 where
  cache_miss : Failure
  network : (again : Bool) → Failure
  server : Bytes → Failure
  protocol : String → Failure

-- What a read gives: a value and the bytes that are left, an error, or a panic of Go.
pub data Read {ℓ} (A : Type ℓ) : Type ℓ where
  done : A → Bytes → Read A
  failed : Failure → Read A
  panic : Read A

pub data Reply : Type 0 where
  simple_string : Bytes → Reply
  integer : Bytes → Reply
  bulk_string : Bytes → Reply
  nil_reply : Reply

abbrev pub cr : ℕ
cr = 13

abbrev pub lf : ℕ
lf = 10

abbrev pub crlf : Bytes
crlf = cr ∷ lf ∷ []

-- strings.TrimSuffix(line, "\r")
unfoldable pub trim_cr : Bytes → Bytes
trim_cr [] = []
trim_cr (b ∷ []) = if b == cr then [] else b ∷ []
trim_cr (b ∷ c ∷ bs) = b ∷ trim_cr (c ∷ bs)

-- `end_error` is what a read past the last byte gives.
module _ (end_error : Failure) where
  -- the bytes up to the first line feed, without it
  unfoldable pub read_until : Bytes → Read Bytes
  read_until [] = failed end_error
  read_until (b ∷ bs) =
      let rest = read_until bs in
      if b == lf
      then done [] bs
      else elim rest [ done line left ↦ done (b ∷ line) left | failed e ↦ failed e | panic ↦ panic ]

  unfoldable pub read_line : Bytes → Read Bytes
  unfolding read_until trim_cr
  read_line bs = elim (read_until bs) [
    | done line left ↦ done (trim_cr line) left
    | failed e ↦ failed e
    | panic ↦ panic
  ]

  unfoldable pub expect_crlf : Bytes → Read Bytes
  expect_crlf [] = failed end_error
  expect_crlf (b1 ∷ []) = failed end_error
  expect_crlf (b1 ∷ b2 ∷ bs) =
      if b1 == cr && b2 == lf then done [] bs else failed (protocol "invalid line termination")

  -- `size` bytes and the end of the line
  unfoldable pub read_bulk : ℕ → Bytes → Read Reply
  unfolding expect_crlf
  read_bulk size bs =
      if ltb (length bs) size then failed end_error else elim (expect_crlf (drop size bs)) [
        | done line left ↦ done (bulk_string (take size bs)) left
        | failed e ↦ failed e
        | panic ↦ panic
      ]

  module _ ⦃d : Decimals⦄ where
    -- A size below -1 makes `make` panic.
    unfoldable pub bulk_of : Option ℤ → Bytes → Read Reply
    unfolding read_bulk
    bulk_of none bs = failed (protocol "invalid syntax")
    bulk_of (some (pos size)) bs = read_bulk size bs
    bulk_of (some (negsuc zero)) bs = done nil_reply bs
    bulk_of (some (negsuc (suc n))) bs = panic

    abbrev reply_of : (Bytes → Bytes → Read Reply) → Read Bytes → Read Reply
    reply_of g (done line left) = g line left
    reply_of g (failed e) = failed e
    reply_of g panic = panic

    unfoldable pub read_reply : Bytes → Read Reply
    unfolding read_line bulk_of
    read_reply [] = failed end_error
    read_reply (prefix ∷ bs) =
        if prefix == b'+'
        then reply_of (λ line left. done (simple_string line) left) (read_line bs)
        else if prefix == b'-'
        then reply_of (λ line left. failed (server line)) (read_line bs)
        else if prefix == b':'
        then reply_of (λ line left. done (integer line) left) (read_line bs)
        else if prefix == b'$'
        then reply_of (λ line left. bulk_of (d.atoi line) left) (read_line bs)
        else failed (protocol "unexpected RESP prefix")

module _ ⦃d : Decimals⦄ where
  -- one part of a command
  unfoldable pub write_part : Bytes → Bytes
  write_part part = b'$' ∷ (d.digits (length part) ++ crlf ++ part ++ crlf)

  unfoldable pub write_parts : List Bytes → Bytes
  unfolding write_part
  write_parts [] = []
  write_parts (part ∷ parts) = write_part part ++ write_parts parts

  unfoldable pub write : List Bytes → Bytes
  unfolding write_parts
  write parts = b'*' ∷ (d.digits (length parts) ++ crlf ++ write_parts parts)
