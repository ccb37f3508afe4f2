-- ===== src/Nanopb/Field/Encode.antt =====
-- The field encoders of pb_encode.c (`pb_enc_...`, in the table PB_ENCODERS). Each takes the value
-- that stands at `src`.
use answrapp.Common.{
  ℕ, zero, suc, ◌-◌, ◌^◌, Bool, ◌||◌, ◌&&◌, Option, none, some, List, [], ◌∷◌, ltb, ◌==◌,
  if◌then◌else◌, length,
}
use answrapp.Common.Int.{ℤ, pattern_of}
use answrapp.Nanopb.Types.{Field, atype, invalid_data_size, bytes_exceeded}
use answrapp.Nanopb.Types.Atype
use answrapp.Nanopb.Output.{Encoder, raise}
use answrapp.Nanopb.Scalar.Encode.{encode_varint, encode_svarint, encode_string}
use answrapp.Nanopb.Field.{bytes_alloc_size}

-- The sizes of the integer types.
abbrev pub is_integer_size : ℕ → Bool
is_integer_size n = n == 1 || n == 2 || n == 4 || n == 8

-- `pb_enc_varint`, `pb_enc_uvarint` and `pb_enc_svarint`.
unfoldable pub enc_varint : Field → ℤ → Encoder
enc_varint field value =
    if is_integer_size field.data_size
    then encode_varint (pattern_of 64 value)
    else raise invalid_data_size

unfoldable pub enc_uvarint : Field → ℕ → Encoder
enc_uvarint field value =
    if is_integer_size field.data_size then encode_varint value else raise invalid_data_size

unfoldable pub enc_svarint : Field → ℤ → Encoder
enc_svarint field value =
    if is_integer_size field.data_size then encode_svarint value else raise invalid_data_size

-- `pb_enc_bytes`: `none` for a NULL pointer.
unfoldable pub enc_bytes : Field → Option (List ℕ) → Encoder
enc_bytes field none = encode_string []
enc_bytes field (some bytes) =
    let alloc_size = bytes_alloc_size (length bytes) in
    if ltb alloc_size (length bytes)
      || (atype field.type == Atype.static && ltb field.data_size alloc_size)
    then raise bytes_exceeded
    else encode_string bytes

-- The loop of `pb_enc_string` over at most `max_size` characters of the memory at `src`.
unfoldable pub until_zero : ℕ → List ℕ → List ℕ
until_zero zero memory = []
until_zero (suc room) [] = []
until_zero (suc room) (c ∷ memory) =
    let more = until_zero room memory in if c == 0 then [] else c ∷ more

-- `pb_enc_string`: a pointer field has no bound but the terminator.
unfoldable pub enc_string : Field → Option (List ℕ) → Encoder
enc_string field none = encode_string []
enc_string field (some memory) =
    encode_string (
      until_zero (if atype field.type == Atype.pointer then 2 ^ 64 - 1 else field.data_size) memory)

-- `pb_enc_fixed_length_bytes`, for the `data_size` bytes at `src`.
unfoldable pub enc_fixed_length_bytes : List ℕ → Encoder
enc_fixed_length_bytes bytes = encode_string bytes
