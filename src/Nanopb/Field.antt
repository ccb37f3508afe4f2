-- ===== src/Nanopb/Field.antt =====
-- The field decoders of pb_decode.c (`pb_dec_...`, in the table PB_DECODERS) and the allocation of
-- pointer fields. What a decoder stores at `dest` is what it returns. `malloc` stands for
-- `pb_realloc`: whether a request for so many bytes succeeds.
pub mod Encode
pub mod Integers
pub mod Blobs
pub mod Allocation
use answrapp.Common.{
  ℕ, zero, suc, ◌+◌, ◌-◌, ◌*◌, ◌/◌, ◌%◌, ◌^◌, Bool, true, false, ◌&&◌, ◌||◌, Option, none, some,
  List, [], ◌∷◌, ◌++◌, ltb, leb, ◌==◌, if◌then◌else◌, replicate, length,
}
use answrapp.Common.Int.{ℤ, signed, cast, ◌=ℤ◌}
use answrapp.Nanopb.Types.{
  Field, atype, size_max, invalid_data_size, integer_too_large, bytes_overflow, size_too_large,
  string_overflow, wrong_fixed_length, invalid_size, realloc_failed,
}
use answrapp.Nanopb.Types.Atype
use answrapp.Nanopb.Input.{InStream, Decoder, and_then, ◌>>=◌, ◌>>◌, pure, raise, read}
use answrapp.Nanopb.Varint.{decode_varint, decode_varint32}
use answrapp.Nanopb.Scalar.{decode_svarint}

-- The cast of a signed value to a field of `data_size` bytes; `none` for a size that is no type's.
abbrev pub narrow : ℕ → ℤ → Option ℤ
narrow data_size svalue =
    if data_size == 8
    then some (cast 64 svalue)
    else if data_size == 4
    then some (cast 32 svalue)
    else if data_size == 2
    then some (cast 16 svalue)
    else if data_size == 1
    then some (cast 8 svalue)
    else none

-- The store, and the check that it lost nothing.
abbrev pub checked : Option ℤ → ℤ → Decoder ℤ
checked none svalue = raise invalid_data_size
checked (some clamped) svalue = if clamped =ℤ svalue then pure clamped else raise integer_too_large

-- `pb_dec_varint`: a field of at most 32 bits reads the value as an int32_t.
unfoldable pub dec_varint : Field → Decoder ℤ
dec_varint field = do
  value ← decode_varint
  let svalue = if field.data_size == 8 then signed 64 value else signed 32 (value % 2 ^ 32)
  checked (narrow field.data_size svalue) svalue

abbrev pub narrow_unsigned : ℕ → ℕ → Option ℕ
narrow_unsigned data_size value =
    if data_size == 8
    then some value
    else if data_size == 4
    then some (value % 2 ^ 32)
    else if data_size == 2
    then some (value % 2 ^ 16)
    else if data_size == 1
    then some (value % 2 ^ 8)
    else none

abbrev pub checked_unsigned : Option ℕ → ℕ → Decoder ℕ
checked_unsigned none value = raise invalid_data_size
checked_unsigned (some clamped) value =
    if clamped == value then pure clamped else raise integer_too_large

-- `pb_dec_uvarint`.
unfoldable pub dec_uvarint : Field → Decoder ℕ
dec_uvarint field = do
  value ← decode_varint
  checked_unsigned (narrow_unsigned field.data_size value) value

-- `pb_dec_svarint`.
unfoldable pub dec_svarint : Field → Decoder ℤ
dec_svarint field = do value ← decode_svarint; checked (narrow field.data_size value) value

-- `allocate_field`: the product of the sizes is checked against the `size_t` only if one of them
-- has more than half of its bits.
unfoldable pub allocate_field : (ℕ → Bool) → ℕ → ℕ → Decoder (Unit {0})
allocate_field malloc data_size array_size =
    if data_size == 0 || array_size == 0
    then raise invalid_size
    else if (leb (2 ^ 32) data_size || leb (2 ^ 32) array_size)
        && ltb ((2 ^ 64 - 1) / array_size) data_size
    then raise size_too_large
    else if malloc (array_size * data_size % 2 ^ 64)
    then pure tt
    else raise realloc_failed

-- PB_BYTES_ARRAY_T_ALLOCSIZE: four bytes for the size stand in front.
abbrev pub bytes_alloc_size : ℕ → ℕ
bytes_alloc_size size = (size + 4) % 2 ^ 64

-- Room at the destination: allocated for a pointer field, else within the field's own bytes.
abbrev pub claim : (ℕ → Bool) → Field → ℕ → Decoder (Unit {0}) → Decoder (Unit {0})
claim malloc field alloc_size overflow =
    if atype field.type == Atype.pointer
    then allocate_field malloc alloc_size 1
    else if ltb field.data_size alloc_size
    then overflow
    else pure tt

-- `pb_dec_bytes`: the bytes of the array that it fills.
unfoldable pub dec_bytes : (ℕ → Bool) → Field → Decoder (List ℕ)
dec_bytes malloc field = do
  size ← decode_varint32
  let claimed = claim malloc field (bytes_alloc_size size) (raise bytes_overflow)
  if ltb size_max size
      then raise bytes_overflow
      else if ltb (bytes_alloc_size size) size
      then raise size_too_large
      else (claimed >> read size)

-- `pb_dec_string`: the characters before the terminator that it writes. `size + 1` is computed in
-- 32 bits.
unfoldable pub dec_string : (ℕ → Bool) → Field → Decoder (List ℕ)
dec_string malloc field = do
  size ← decode_varint32
  let alloc_size = (size + 1) % 2 ^ 32
  if ltb alloc_size size
      then raise size_too_large
      else (claim malloc field alloc_size (raise string_overflow) >> read size)

-- `pb_dec_fixed_length_bytes`.
unfoldable pub dec_fixed_length_bytes : Field → Decoder (List ℕ)
dec_fixed_length_bytes field = do
  size ← decode_varint32
  if ltb size_max size
      then raise bytes_overflow
      else if size == 0
      then pure (replicate field.data_size 0)
      else if size == field.data_size
      then read field.data_size
      else raise wrong_fixed_length
