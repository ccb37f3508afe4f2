-- ===== src/Nanopb/Input/Buffer.antt =====
-- `pb_read` and `pb_readbyte` on a stream over bytes in memory.
use answrapp.Common.{
  ℕ, suc, ◌+◌, ◌≡◌, true, Option, List, [], ◌∷◌, ◌++◌, arith, leb, length, length-append,
  take_append, drop_append,
}
use answrapp.Nanopb.Types.{Error}
use answrapp.Nanopb.Input.{buffer, InStream, ok, fetch, got, read, skip, readbyte}

-- A stream over memory with `left` bytes to go.
abbrev pub over : List ℕ → ℕ → Option Error → InStream
over mem left err = record { source = buffer mem; bytes_left = left; errmsg = err }

fetch-buffer :
    (front rest : List ℕ) → fetch (buffer (front ++ rest)) (length front) ≡ got front (buffer rest)
unfolding fetch
fetch-buffer front rest =
    let enough : leb (length front) (length (front ++ rest)) ≡ true =
      ground (arith, length-append front rest) in
    rw (enough, take_append, drop_append)

pub read-buffer :
    (front rest : List ℕ) (k : ℕ) (err : Option Error)
    → read (length front) (over (front ++ rest) (length front + k) err) ≡ ok front (over rest k err)
unfolding read
read-buffer [] rest k err = ground arith
read-buffer (b ∷ front) rest k err = rw (fetch-buffer (b ∷ front) rest) (ground arith)

pub readbyte-buffer :
    (b : ℕ) (rest : List ℕ) (k : ℕ) (err : Option Error)
    → readbyte (over (b ∷ rest) (suc k) err) ≡ ok b (over rest k err)
unfolding readbyte fetch
readbyte-buffer b rest k err = ground arith

pub skip-buffer :
    (front rest : List ℕ) (k : ℕ) (err : Option Error)
    → skip (length front) (over (front ++ rest) (length front + k) err) ≡ ok tt (over rest k err)
unfolding skip
skip-buffer front rest k err = rw (read-buffer front rest k err)
