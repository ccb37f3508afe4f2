-- ===== src/Nanopb/Scalar/Encode.antt =====
-- The writers of single values in pb_encode.c: varints, zigzag and fixed-width integers, tags,
-- strings and bools.
use answrapp.Common.{
  ℕ, zero, suc, ◌+◌, ◌/◌, ◌%◌, ◌^◌, bit_and, bit_or, Bool, ◌||◌, Option, none, some, List, [], ◌∷◌,
  ◌==◌, if◌then◌else◌, length,
}
use answrapp.Common.Int.{ℤ, pos, negsuc, pattern_of}
use answrapp.Nanopb.Types.{
  Field, ltype, invalid_field_type, WireType, wt_varint, wt_64bit, wt_string, wt_32bit,
}
use answrapp.Nanopb.Types.Ltype
use answrapp.Nanopb.Output.{fault, Encoder, ◌>>◌, raise, write}
use answrapp.Nanopb.Varint.{shl, varint_bytes}
use answrapp.Nanopb.Scalar.{complement}

-- `pb_encode_varint`. The fault stands for a loop that is not over after the ten elements of
-- `buffer`.
abbrev pub write_filled : Option (List ℕ) → Encoder
write_filled none = λ s. fault
write_filled (some bytes) = write bytes

unfoldable pub encode_varint : ℕ → Encoder
encode_varint value = write_filled (varint_bytes value)

-- `pb_encode_svarint`.
abbrev pub zigzag : ℤ → ℕ
zigzag (pos n) = shl 64 (pattern_of 64 (pos n)) 1
zigzag (negsuc n) = complement 64 (shl 64 (pattern_of 64 (negsuc n)) 1)

unfoldable pub encode_svarint : ℤ → Encoder
encode_svarint value = encode_varint (zigzag value)

-- `(pb_byte_t)((val >> at) & 0xFF)`, for the offsets of `count` bytes.
unfoldable pub split_bytes : ℕ → ℕ → ℕ → List ℕ
split_bytes zero at val = []
split_bytes (suc count) at val =
    (bit_and (val / 2 ^ at) 0xff % 256) ∷ split_bytes count (at + 8) val

-- `pb_encode_fixed32` and `pb_encode_fixed64`.
unfoldable pub encode_fixed32 : ℕ → Encoder
encode_fixed32 val = write (split_bytes 4 0 val)

unfoldable pub encode_fixed64 : ℕ → Encoder
encode_fixed64 val = write (split_bytes 8 0 val)

-- `pb_encode_tag`: `((pb_uint64_t)field_number << 3) | wiretype`.
abbrev pub tag_number : WireType → ℕ → ℕ
tag_number wiretype field_number = bit_or (shl 64 field_number 3) wiretype

unfoldable pub encode_tag : WireType → ℕ → Encoder
encode_tag wiretype field_number = encode_varint (tag_number wiretype field_number)

-- `pb_encode_tag_for_field`: the wire type by the data type.
unfoldable pub wire_type_of : ℕ → Option WireType
wire_type_of l =
    if l == Ltype.bool || l == Ltype.varint || l == Ltype.uvarint || l == Ltype.svarint
    then some wt_varint
    else if l == Ltype.fixed32
    then some wt_32bit
    else if l == Ltype.fixed64
    then some wt_64bit
    else if l == Ltype.bytes
        || l == Ltype.string
        || l == Ltype.submessage
        || l == Ltype.fixed_length_bytes
    then some wt_string
    else none

unfoldable pub encode_tag_for_field : Field → Encoder
encode_tag_for_field field = elim (wire_type_of (ltype field.type)) [
  | none ↦ raise invalid_field_type
  | some wiretype ↦ encode_tag wiretype field.tag
]

-- `pb_encode_string`.
unfoldable pub encode_string : List ℕ → Encoder
encode_string bytes = encode_varint (length bytes) >> write bytes

-- `pb_enc_bool`.
unfoldable pub encode_bool : Bool → Encoder
encode_bool b = encode_varint (if b then 1 else 0)
