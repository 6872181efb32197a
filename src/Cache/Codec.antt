-- ===== src/Cache/Codec.antt =====
-- What is written is read back.
use mathlib.Core.List.{append_assoc}
use nrt_aggragator.Prelude.{
  ℕ, zero, suc, ◌≡◌, refl, ap, false, List, [], ◌∷◌, ◌++◌, arith, length, ltb, take, drop,
  length-append, take-append, All, ◌==◌, Option, some, if◌then◌else◌,
}
use nrt_aggragator.Prelude.Int.{ℤ, pos}
use nrt_aggragator.Telemetry.{Bytes}
use nrt_aggragator.Cache.{
  Decimals, Failure, Read, done, failed, panic, Reply, bulk_string, cr, lf, crlf, trim_cr,
  read_until, read_line, expect_crlf, read_bulk, bulk_of, read_reply, write_part, write_parts,
  write,
}

-- no byte of the line ends a line
abbrev pub OneLine : Bytes → Type 0
OneLine = All (λ b. (b == lf) ≡ false)

trim_cr-append : (line : Bytes) → trim_cr (line ++ cr ∷ []) ≡ line
unfolding trim_cr
trim_cr-append [] = refl
trim_cr-append (b ∷ []) = refl
trim_cr-append (b ∷ c ∷ line) = ap (◌∷◌ b) (trim_cr-append (c ∷ line))

read_until-append :
    (e : Failure) (line rest : Bytes)
    → OneLine line
    → read_until e (line ++ (crlf ++ rest)) ≡ done (line ++ cr ∷ []) rest
unfolding read_until
read_until-append e [] rest h = refl
read_until-append e (b ∷ line) rest h = ground (arith, read_until-append e line rest h.1, h.0)

read_line-append :
    (e : Failure) (line rest : Bytes)
    → OneLine line
    → read_line e (line ++ (crlf ++ rest)) ≡ done line rest
unfolding read_line
read_line-append e line rest h =
    ground (arith, read_until-append e line rest h, trim_cr-append line)

take-length : (xs ys : Bytes) → take (length xs) (xs ++ ys) ≡ xs
take-length xs ys = take-append (length xs) xs ys refl

drop-length : (xs ys : Bytes) → drop (length xs) (xs ++ ys) ≡ ys
drop-length [] ys = refl
drop-length (x ∷ xs) ys = drop-length xs ys

read_bulk-append :
    (e : Failure) (part rest : Bytes)
    → read_bulk e (length part) (part ++ (crlf ++ rest)) ≡ done (bulk_string part) rest
unfolding read_bulk expect_crlf
read_bulk-append e part rest =
    let enough : ltb (length (part ++ (crlf ++ rest))) (length part) ≡ false =
      ground (arith, length-append part (crlf ++ rest)) in
    rw (enough, drop-length part (crlf ++ rest), take-length part (crlf ++ rest)) refl

-- What strconv does: digits stand on one line, and are read back.
pub record AreRead ⦃d : Decimals⦄ : Type 0 where
  pub one_line : (n : ℕ) → OneLine (d.digits n)
  pub read_back : (n : ℕ) → d.atoi (d.digits n) ≡ some (pos n)

module _ ⦃d : Decimals⦄ (e : Failure) where
  -- A reader of commands, as a server has it: a line with the number of parts, and each as a bulk
  -- string. `read_as` goes on with a bulk string.
  abbrev read_as {ℓ} : {A : Type ℓ} → Read Reply → (Bytes → Bytes → Read A) → Read A
  read_as (done (bulk_string part) left) g = g part left
  read_as (done reply left) g = failed (Failure.protocol "bulk string expected")
  read_as (failed f) g = failed f
  read_as panic g = panic

  abbrev add_part : Bytes → Read (List Bytes) → Read (List Bytes)
  add_part part (done parts left) = done (part ∷ parts) left
  add_part part (failed f) = failed f
  add_part part panic = panic

  abbrev read_parts : ℕ → Bytes → Read (List Bytes)
  read_parts zero bs = done [] bs
  read_parts (suc n) bs = read_as (read_reply e bs) (λ part left. add_part part (read_parts n left))

  abbrev counted : Option ℤ → Bytes → Read (List Bytes)
  counted (some (pos n)) left = read_parts n left
  counted _ left = failed (Failure.protocol "number of parts expected")

  abbrev after_line : Read Bytes → Read (List Bytes)
  after_line (done line left) = counted (d.atoi line) left
  after_line (failed f) = failed f
  after_line panic = panic

  abbrev pub read_command : Bytes → Read (List Bytes)
  read_command [] = failed e
  read_command (b ∷ bs) =
      if b == b'*' then after_line (read_line e bs) else failed (Failure.protocol "array expected")

module _ ⦃d : Decimals⦄ (laws : AreRead) (e : Failure) where
  open laws use {one_line, read_back}

  write_part-append :
      (part rest : Bytes)
      → write_part part ++ rest
        ≡ b'$' ∷ (d.digits (length part) ++ (crlf ++ (part ++ (crlf ++ rest))))
  unfolding write_part
  write_part-append part rest = simp (append_assoc)

  read_reply-bulk :
      (line rest : Bytes)
      → OneLine line
      → read_reply e (b'$' ∷ (line ++ (crlf ++ rest))) ≡ bulk_of e (d.atoi line) rest
  unfolding read_reply
  read_reply-bulk line rest h = rw (read_line-append e line rest h) refl

  -- If digits stand on one line and are read back, a part that is written is read as a bulk string
  -- of the same bytes, and nothing after it is read.
  pub read_reply-write_part :
      (part rest : Bytes) → read_reply e (write_part part ++ rest) ≡ done (bulk_string part) rest
  read_reply-write_part part rest =
      rw
        (
          write_part-append part rest,
          read_reply-bulk (d.digits (length part)) (part ++ (crlf ++ rest))
              (one_line (length part)),
          read_back (length part),
        )
        (unfold bulk_of in read_bulk-append e part rest)

  read_parts-write_parts :
      (parts : List Bytes) (rest : Bytes)
      → read_parts e (length parts) (write_parts parts ++ rest) ≡ done parts rest
  unfolding write_parts
  read_parts-write_parts [] rest = refl
  read_parts-write_parts (part ∷ parts) rest =
      rw
        (
          append_assoc (write_part part) (write_parts parts) rest,
          read_reply-write_part part (write_parts parts ++ rest),
          read_parts-write_parts parts rest,
        )
        refl

  write-append :
      (parts : List Bytes) (rest : Bytes)
      → write parts ++ rest
        ≡ b'*' ∷ (d.digits (length parts) ++ (crlf ++ (write_parts parts ++ rest)))
  unfolding write
  write-append parts rest = simp (append_assoc)

  -- If digits stand on one line and are read back, then a command that is written, whatever bytes
  -- its parts hold, is read back by a server part by part, and nothing after it is read.
  pub read_command-write :
      (parts : List Bytes) (rest : Bytes) → read_command e (write parts ++ rest) ≡ done parts rest
  read_command-write parts rest =
      rw
        (
          write-append parts rest,
          read_line-append e (d.digits (length parts)) (write_parts parts ++ rest)
              (one_line (length parts)),
          read_back (length parts),
          read_parts-write_parts parts rest,
        )
        refl
