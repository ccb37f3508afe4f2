-- ===== src/Nanopb/Field/Blobs.antt =====
-- Fields of bytes and strings that stand in the structure itself: `pb_dec_bytes`, `pb_dec_string` and
-- `pb_dec_fixed_length_bytes` against their encoders.
use answrapp.Common.{
  ℕ, zero, suc, ◌+◌, ◌-◌, ◌^◌, ◌≤◌, ◌<◌, ◌≡◌, ◌≢◌, refl, ◌∙◌, ap, Bool, true, false, Option, some,
  List, [], ◌∷◌, ◌++◌, append_assoc, arith, ltb, leb, le→leb, ◌==◌, if◌then◌else◌, length,
  length-append, All,
}
use answrapp.Nanopb.Types.{
  Error, Field, atype, IsU32, IsU64, size_max, bytes_overflow, string_overflow,
}
use native.Mathlib.Nat.{add_assoc}
use answrapp.Nanopb.Types.Atype
use answrapp.Nanopb.Input.{Decoder, and_then, read, raise}
use answrapp.Nanopb.Input.Buffer.{over, read-buffer}
use answrapp.Nanopb.Input.Parses.{Parses, bind-Parses}
use answrapp.Nanopb.Output.Emits.{Emits, write-Emits, then-Emits}
use answrapp.Nanopb.Varint.{decode_varint32}
use answrapp.Nanopb.Varint.Format.{varint}
use answrapp.Nanopb.Varint.Decode32.{decode_varint32-varint}
use answrapp.Nanopb.Scalar.Encode.{encode_string}
use answrapp.Nanopb.Scalar.RoundTrip.{RoundTrips, encode_varint-Emits}
use answrapp.Nanopb.Field.{dec_bytes, dec_string, dec_fixed_length_bytes}
use answrapp.Nanopb.Field.Encode.{enc_bytes, until_zero, enc_string, enc_fixed_length_bytes}

-- The length as a varint, and the bytes.
abbrev pub delimited : List ℕ → List ℕ
delimited bytes = varint 9 (length bytes) ++ bytes

pub encode_string-Emits :
    (bytes : List ℕ) → IsU64 (length bytes) → Emits (encode_string bytes) (delimited bytes)
unfolding encode_string
encode_string-Emits bytes h =
    then-Emits (encode_varint-Emits (length bytes) (omega arith)) (write-Emits bytes (omega arith))

-- A length, and what the decoder does with it.
after_length :
    (f : ℕ → Decoder (List ℕ)) (bytes : List ℕ)
    → IsU32 (length bytes)
    → Parses (f (length bytes)) bytes bytes
    → Parses (λ s. and_then (decode_varint32 s) f) (delimited bytes) bytes
after_length f bytes h p =
    bind-Parses decode_varint32 f (varint 9 (length bytes)) bytes (length bytes) bytes
      (λ rest n err. decode_varint32-varint (length bytes) n rest err h) p

-- What `pb_dec_bytes` does in a static field with any length on the wire: the bytes are read if
-- they fit behind the four bytes of the size, and are an error otherwise.
pub dec_bytes_lem :
    (malloc : ℕ → Bool) (field : Field) (size n : ℕ) (rest : List ℕ) (err : Option Error)
    → atype field.type ≡ Atype.static
    → IsU32 size
    → dec_bytes malloc field (over (varint 9 size ++ rest) (length (varint 9 size) + n) err)
      ≡ (if leb (size + 4) field.data_size then read size else raise bytes_overflow)
          (over rest n err)
unfolding dec_bytes
dec_bytes_lem malloc field size n rest err static h =
    rw (decode_varint32-varint size n rest err h, static) (ground arith)

-- What `pb_dec_string` does in a static field with any length on the wire below 2 ^ 32 - 1: the
-- characters are read if they and the terminator fit the field, and are an error otherwise.
pub dec_string_lem :
    (malloc : ℕ → Bool) (field : Field) (size n : ℕ) (rest : List ℕ) (err : Option Error)
    → atype field.type ≡ Atype.static
    → size < 2 ^ 32 - 1
    → dec_string malloc field (over (varint 9 size ++ rest) (length (varint 9 size) + n) err)
      ≡ (if leb (size + 1) field.data_size then read size else raise string_overflow)
          (over rest n err)
unfolding dec_string
dec_string_lem malloc field size n rest err static h =
    rw (decode_varint32-varint size n rest err (omega arith), static) (ground arith)

enc_bytes_lem :
    (field : Field) (bytes : List ℕ)
    → IsU32 field.data_size
    → length bytes + 4 ≤ field.data_size
    → enc_bytes field (some bytes) ≡ encode_string bytes
unfolding enc_bytes
enc_bytes_lem field bytes word h = ground arith

-- `pb_dec_bytes` reads back every array of bytes that `pb_enc_bytes` writes, in a static field that
-- has room for the bytes behind their size.
pub bytes_round_trip :
    (malloc : ℕ → Bool) (field : Field) (bytes : List ℕ)
    → atype field.type ≡ Atype.static
    → IsU32 field.data_size
    → length bytes + 4 ≤ field.data_size
    → RoundTrips (enc_bytes field (some bytes)) (dec_bytes malloc field) bytes
bytes_round_trip malloc field bytes static word h = (
  delimited bytes,
  rw (enc_bytes_lem field bytes word h) (encode_string-Emits bytes (omega arith)),
  λ rest n err.
      let fits = le→leb _ _ h in
      rw (append_assoc, length-append (varint 9 (length bytes)) bytes, add_assoc)
        (dec_bytes_lem malloc field (length bytes) (length bytes + n) (bytes ++ rest) err static
            (omega arith)
          ∙ rw fits (read-buffer bytes rest n err)),
)

-- The characters of a string, none of them the terminator.
abbrev pub IsText : List ℕ → Type 0
IsText = All (λ c. c ≢ 0)

until_zero-text :
    (room : ℕ) (text behind : List ℕ)
    → IsText text
    → length text < room
    → until_zero room (text ++ 0 ∷ behind) ≡ text
unfolding until_zero
until_zero-text zero text behind h fits = absurd (omega arith)
until_zero-text (suc room) [] behind h fits = refl
until_zero-text (suc room) (c ∷ text) behind h fits =
    let character : (c == 0) ≡ false = ground (arith, h.0) in
    rw character (ap (λ t. c ∷ t) (until_zero-text room text behind h.1 (omega arith)))

-- `pb_dec_string` reads back every string of non-zero bytes that fits a static field with its
-- terminator, as `pb_enc_string` writes it from the memory of the field, whatever stands behind
-- the terminator there.
pub string_round_trip :
    (malloc : ℕ → Bool) (field : Field) (text behind : List ℕ)
    → atype field.type ≡ Atype.static
    → IsU32 field.data_size
    → IsText text
    → length text < field.data_size
    → RoundTrips (enc_string field (some (text ++ 0 ∷ behind))) (dec_string malloc field) text
unfolding enc_string
string_round_trip malloc field text behind static word chars h = (
  delimited text,
  rw (static, until_zero-text field.data_size text behind chars h)
      (encode_string-Emits text (omega arith)),
  λ rest n err.
      let fits : leb (length text + 1) field.data_size ≡ true = ground arith in
      rw (append_assoc, length-append (varint 9 (length text)) text, add_assoc)
        (dec_string_lem malloc field (length text) (length text + n) (text ++ rest) err static
            (omega arith)
          ∙ rw fits (read-buffer text rest n err)),
)

-- `pb_dec_fixed_length_bytes` reads back the bytes that `pb_enc_fixed_length_bytes` writes, as many
-- as the field has and at least one.
pub fixed_length_round_trip :
    (field : Field) (bytes : List ℕ)
    → 0 < length bytes
    → length bytes ≡ field.data_size
    → IsU32 field.data_size
    → RoundTrips (enc_fixed_length_bytes bytes) (dec_fixed_length_bytes field) bytes
unfolding enc_fixed_length_bytes dec_fixed_length_bytes
fixed_length_round_trip field bytes nonempty e word = (
  delimited bytes,
  encode_string-Emits bytes (omega arith),
  after_length _ bytes (omega arith) (λ rest n err.
      let fits : ltb size_max (length bytes) ≡ false = ground arith in
      let full : (length bytes == 0) ≡ false = ground arith in
      let whole : (field.data_size == field.data_size) ≡ true = ground arith in
      rw (fits, full, e, whole) (rw (← e) (read-buffer bytes rest n err))),
)
