-- ===== src/Nanopb/Field/Integers.antt =====
-- Integer fields: `pb_dec_varint`, `pb_dec_uvarint` and `pb_dec_svarint` against their encoders.
use answrapp.Common.{
  ℕ, ◌+◌, ◌-◌, ◌*◌, ◌%◌, ◌^◌, ◌<◌, ◌≡◌, refl, ◌∙◌, ap, ◌⊎◌, inl, inr, true, Option, some, List,
  ◌++◌, arith, ltb, lt→ltb, ◌==◌, if◌then◌else◌, length,
}
use answrapp.Common.Int.{ℤ, pos, negsuc, signed, pattern_of, ◌=ℤ◌, =ℤ_iff, Within}
use answrapp.Nanopb.Types.{Error, Field, IsU64, integer_too_large}
use answrapp.Nanopb.Input.{Decoder, and_then, pure, raise}
use answrapp.Nanopb.Input.Buffer.{over}
use answrapp.Nanopb.Varint.Format.{varint}
use answrapp.Nanopb.Varint.Decode64.{decode_varint-varint}
use answrapp.Nanopb.Scalar.RoundTrip.{RoundTrips, encode_varint-Emits, svarint_round_trip}
use answrapp.Nanopb.Field.{
  narrow, checked, dec_varint, narrow_unsigned, checked_unsigned, dec_uvarint, dec_svarint,
}
use answrapp.Nanopb.Field.Encode.{enc_varint, enc_uvarint, enc_svarint, is_integer_size}

-- The sizes of the integer types, as cases.
abbrev pub IntegerSize : ℕ → Type 0
IntegerSize n = (n ≡ 1) ⊎ (n ≡ 2) ⊎ (n ≡ 4) ⊎ (n ≡ 8)

pub by_size : (P : ℕ → Type 0) → P 1 → P 2 → P 4 → P 8 → (size : ℕ) → IntegerSize size → P size
by_size P p1 p2 p4 p8 size (inl e) = rw e p1
by_size P p1 p2 p4 p8 size (inr (inl e)) = rw e p2
by_size P p1 p2 p4 p8 size (inr (inr (inl e))) = rw e p4
by_size P p1 p2 p4 p8 size (inr (inr (inr e))) = rw e p8

fits_unsigned :
    (size v : ℕ)
    → IntegerSize size
    → IsU64 v
    → checked_unsigned (narrow_unsigned size v) v
      ≡ (if ltb v (2 ^ (8 * size)) then pure v else raise integer_too_large)
fits_unsigned size v s h =
    by_size
      (λ k.
        checked_unsigned (narrow_unsigned k v) v
        ≡ (if ltb v (2 ^ (8 * k)) then pure v else raise integer_too_large))
      (ground arith) (ground arith) (ground arith) (ground arith) size s

-- What `pb_dec_uvarint` does in a field of one, two, four or eight bytes with any uint64 on the
-- wire: it takes the value if the field can hold it, and is an error otherwise.
pub dec_uvarint_lem :
    (field : Field) (v n : ℕ) (rest : List ℕ) (err : Option Error)
    → IntegerSize field.data_size
    → IsU64 v
    → dec_uvarint field (over (varint 9 v ++ rest) (length (varint 9 v) + n) err)
      ≡ (if ltb v (2 ^ (8 * field.data_size)) then pure v else raise integer_too_large)
          (over rest n err)
unfolding dec_uvarint
dec_uvarint_lem field v n rest err size h =
    ap (λ r. and_then r (λ value. checked_unsigned (narrow_unsigned field.data_size value) value))
      (decode_varint-varint v n rest err h)
    ∙ ap (λ (m : Decoder ℕ). m (over rest n err)) (fits_unsigned field.data_size v size h)

-- The values of a signed type of `size` bytes.
abbrev pub Holds : ℕ → ℤ → Type 0
Holds size z = Within (2 ^ (8 * size - 1)) z

cast_same : (size : ℕ) (z : ℤ) → IntegerSize size → Holds size z → narrow size z ≡ some z
cast_same size (pos n) s h =
    by_size (λ k. Holds k (pos n) → narrow k (pos n) ≡ some (pos n)) (λ h. ground arith)
      (λ h. ground arith) (λ h. ground arith) (λ h. ground arith) size s h
cast_same size (negsuc n) s h =
    by_size (λ k. Holds k (negsuc n) → narrow k (negsuc n) ≡ some (negsuc n)) (λ h. ground arith)
      (λ h. ground arith) (λ h. ground arith) (λ h. ground arith) size s h

checked_same :
    (size : ℕ) (z : ℤ) → IntegerSize size → Holds size z → checked (narrow size z) z ≡ pure z
checked_same size z s h =
    let same : (z =ℤ z) ≡ true = (=ℤ_iff z z).1 refl in
    ap (λ o. checked o z) (cast_same size z s h) ∙ rw same

-- The value that `pb_dec_varint` makes of the pattern that `pb_enc_varint` wrote.
abbrev as_signed : ℕ → ℕ → ℤ
as_signed size value = if size == 8 then signed 64 value else signed 32 (value % 2 ^ 32)

as_signed-pattern :
    (size : ℕ) (z : ℤ) → IntegerSize size → Holds size z → as_signed size (pattern_of 64 z) ≡ z
as_signed-pattern size (pos n) s h =
    by_size (λ k. Holds k (pos n) → as_signed k (pattern_of 64 (pos n)) ≡ pos n) (λ h. ground arith)
      (λ h. ground arith) (λ h. ground arith) (λ h. ground arith) size s h
as_signed-pattern size (negsuc n) s h =
    by_size (λ k. Holds k (negsuc n) → as_signed k (pattern_of 64 (negsuc n)) ≡ negsuc n)
      (λ h. ground arith) (λ h. ground arith) (λ h. ground arith) (λ h. ground arith) size s h

pattern_fits : (z : ℤ) → IsU64 (pattern_of 64 z)
pattern_fits (pos n) = omega arith
pattern_fits (negsuc n) = omega arith

is_size : (size : ℕ) → IntegerSize size → is_integer_size size ≡ true
is_size size s = by_size (λ k. is_integer_size k ≡ true) refl refl refl refl size s

-- `pb_dec_varint` reads back every value of a signed field of one, two, four or eight bytes that
-- `pb_enc_varint` writes, negative values too.
pub varint_field_round_trip :
    (field : Field) (z : ℤ)
    → IntegerSize field.data_size
    → Holds field.data_size z
    → RoundTrips (enc_varint field z) (dec_varint field) z
unfolding enc_varint dec_varint
varint_field_round_trip field z s h = (
  varint 9 (pattern_of 64 z),
  rw (is_size field.data_size s) (encode_varint-Emits _ (pattern_fits z)),
  λ rest n err.
      ap
        (λ r. and_then r (λ value.
          checked (narrow field.data_size (as_signed field.data_size value))
            (as_signed field.data_size value)))
        (decode_varint-varint (pattern_of 64 z) n rest err (pattern_fits z))
      ∙ ap (λ x. checked (narrow field.data_size x) x (over rest n err))
          (as_signed-pattern field.data_size z s h)
      ∙ ap (λ (m : Decoder ℤ). m (over rest n err)) (checked_same field.data_size z s h),
)

-- `pb_dec_uvarint` reads back every value of an unsigned field of one, two, four or eight bytes that
-- `pb_enc_uvarint` writes.
pub uvarint_field_round_trip :
    (field : Field) (v : ℕ)
    → IntegerSize field.data_size
    → v < 2 ^ (8 * field.data_size)
    → RoundTrips (enc_uvarint field v) (dec_uvarint field) v
unfolding enc_uvarint
uvarint_field_round_trip field v s h =
    let word =
      by_size (λ k. v < 2 ^ (8 * k) → IsU64 v) (λ h. omega arith) (λ h. omega arith)
        (λ h. omega arith) (λ h. omega arith) field.data_size s h in
    (
      varint 9 v,
      rw (is_size field.data_size s) (encode_varint-Emits v word),
      λ rest n err.
          dec_uvarint_lem field v n rest err s word ∙ rw (lt→ltb v (2 ^ (8 * field.data_size)) h),
    )

Within-int64 : (size : ℕ) (z : ℤ) → IntegerSize size → Holds size z → Within (2 ^ 63) z
Within-int64 size (pos n) s h =
    by_size (λ k. Holds k (pos n) → n < 2 ^ 63) (λ h. omega arith) (λ h. omega arith)
      (λ h. omega arith) (λ h. omega arith) size s h
Within-int64 size (negsuc n) s h =
    by_size (λ k. Holds k (negsuc n) → n < 2 ^ 63) (λ h. omega arith) (λ h. omega arith)
      (λ h. omega arith) (λ h. omega arith) size s h

-- `pb_dec_svarint` reads back every value of a signed field of one, two, four or eight bytes that
-- `pb_enc_svarint` writes, in the zigzag form.
pub svarint_field_round_trip :
    (field : Field) (z : ℤ)
    → IntegerSize field.data_size
    → Holds field.data_size z
    → RoundTrips (enc_svarint field z) (dec_svarint field) z
unfolding enc_svarint dec_svarint
svarint_field_round_trip field z s h =
    let (bytes, emits, parses) = svarint_round_trip z (Within-int64 field.data_size z s h) in
    (
      bytes,
      rw (is_size field.data_size s) emits,
      λ rest n err.
          ap (λ r. and_then r (λ value. checked (narrow field.data_size value) value))
            (parses rest n err)
          ∙ ap (λ (m : Decoder ℤ). m (over rest n err)) (checked_same field.data_size z s h),
    )
