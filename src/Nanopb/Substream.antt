-- ===== src/Nanopb/Substream.antt =====
-- Substreams of pb_decode.c: `pb_make_string_substream` and `pb_close_string_substream`.
use answrapp.Common.{
  ℕ, ◌+◌, ◌-◌, ◌≡◌, refl, ◌∙◌, ap, false, Option, List, [], ◌∷◌, ◌++◌, append_assoc, arith, ltb,
  ◌==◌, if◌then◌else◌, length, length-append,
}
use native.Mathlib.Nat.{add_assoc}
use answrapp.Nanopb.Types.{Error, IsU32, parent_too_short}
use answrapp.Nanopb.Input.{
  InStream, Result, ok, failed, fault, stuck, Decoder, and_then, raise, skip,
}
use answrapp.Nanopb.Input.Buffer.{over, skip-buffer}
use answrapp.Nanopb.Input.Parses.{Parses}
use answrapp.Nanopb.Varint.{decode_varint32}
use answrapp.Nanopb.Varint.Format.{varint}
use answrapp.Nanopb.Varint.Decode32.{decode_varint32-varint}

-- The substream is returned; both streams keep the callback and its state.
abbrev pub split_off : ℕ → Decoder InStream
split_off size t =
    if ltb t.bytes_left size
    then raise parent_too_short t
    else ok (record t { bytes_left = size }) (record t { bytes_left = t.bytes_left - size })

unfoldable pub make_string_substream : Decoder InStream
make_string_substream s = and_then (decode_varint32 s) split_off

-- The stream goes on where the substream has come to.
abbrev pub adopt : InStream → Decoder (Unit {0})
adopt substream stream =
    ok tt (record stream { source = substream.source; errmsg = substream.errmsg })

abbrev pub skipped_to : Result (Unit {0}) → Decoder (Unit {0})
skipped_to (ok a substream) stream = adopt substream stream
skipped_to (failed substream) stream = failed stream
skipped_to fault stream = fault
skipped_to stuck stream = stuck

unfoldable pub close_string_substream : InStream → Decoder (Unit {0})
close_string_substream substream stream =
    let rest = skip substream.bytes_left substream in
    if substream.bytes_left == 0 then adopt substream stream else skipped_to rest stream

-- What `m` does in a substream, with the stream behind it.
abbrev pub closed {ℓ} : {A : Type ℓ} → InStream → A → Decoder A
closed stream a left = and_then (close_string_substream left stream) (λ _ t. ok a t)

abbrev pub inside {ℓ} : {A : Type ℓ} → Decoder A → InStream → Decoder A
inside m substream stream = and_then (m substream) (closed stream)

make_lem :
    (size n : ℕ) (mem : List ℕ) (err : Option Error)
    → IsU32 size
    → make_string_substream (over (varint 9 size ++ mem) (length (varint 9 size) + (size + n)) err)
      ≡ ok (over mem size err) (over mem n err)
unfolding make_string_substream
make_lem size n mem err h =
    let enough : ltb (size + n) size ≡ false = ground arith in
    let left : size + n - size ≡ n = omega arith in
    ap (λ r. and_then r split_off) (decode_varint32-varint size (size + n) mem err h)
    ∙ rw (enough, left) refl

close_lem :
    (back rest mem : List ℕ) (n : ℕ) (err : Option Error)
    → close_string_substream (over (back ++ rest) (length back) err) (over mem n err)
      ≡ ok tt (over rest n err)
unfolding close_string_substream
close_lem [] rest mem n err = refl
close_lem (b ∷ bs) rest mem n err =
    let some_left : (length (b ∷ bs) == 0) ≡ false = ground arith in
    let skipped : skip (length (b ∷ bs)) (over ((b ∷ bs) ++ rest) (length (b ∷ bs)) err)
        ≡ ok tt (over rest 0 err) =
      ap (λ k. skip (length (b ∷ bs)) (over ((b ∷ bs) ++ rest) k err)) (omega arith)
      ∙ skip-buffer (b ∷ bs) rest 0 err in
    rw some_left (ap (λ r. skipped_to r (over mem n err)) skipped)

module _ {ℓ} {A : Type ℓ} (m : Decoder A) (front back : List ℕ) (a : A) (p : Parses m front a) where
  inside_lem :
      (rest mem : List ℕ) (n : ℕ) (err : Option Error)
      → inside m (over (front ++ (back ++ rest)) (length front + length back) err) (over mem n err)
        ≡ ok a (over rest n err)
  inside_lem rest mem n err =
      ap (λ r. and_then r (closed (over mem n err))) (p (back ++ rest) (length back) err)
      ∙ ap (λ r. and_then r (λ _ t. ok a t)) (close_lem back rest mem n err)

-- A decoder that takes the bytes `front` runs in the substream of a string that starts with them as
-- it does on a stream, whatever it leaves of the string; behind the closed substream the stream goes
-- on behind the whole string.
pub substream_lem {ℓ} :
    {A : Type ℓ} (m : Decoder A) (front back : List ℕ) (a : A)
    → IsU32 (length (front ++ back))
    → Parses m front a
    → Parses
        (λ s. and_then (make_string_substream s) (inside m))
        (varint 9 (length (front ++ back)) ++ (front ++ back))
        a
substream_lem m front back a h p rest n err =
    let mem = (front ++ back) ++ rest in
    rw
      (
        append_assoc (varint 9 (length (front ++ back))),
        length-append (varint 9 (length (front ++ back))) (front ++ back),
        add_assoc,
      )
      (ap (λ r. and_then r (inside m)) (make_lem (length (front ++ back)) n mem err h)
        ∙ ap (λ r. and_then (m r) (closed (over mem n err))) (same_stream rest err)
        ∙ inside_lem m front back a p rest mem n err)
  where
    same_stream :
        (rest : List ℕ) (err : Option Error)
        → over ((front ++ back) ++ rest) (length (front ++ back)) err
          ≡ over (front ++ (back ++ rest)) (length front + length back) err
    same_stream rest err = rw (append_assoc, length-append front back) refl
