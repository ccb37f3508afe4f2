-- ===== src/Nanopb/Message/Value.antt =====
-- The table PB_ENCODERS of pb_encode.c: how a value in memory is encoded, by the type of its field.
use answrapp.Common.{
  ℕ, ◌+◌, ◌-◌, ◌^◌, ◌&&◌, Bool, true, not, Option, none, some, List, [], ◌∷◌, ◌==◌, if◌then◌else◌,
}
use answrapp.Nanopb.Types.{Field, ltype, atype, invalid_descriptor}
use answrapp.Nanopb.Types.Ltype
use answrapp.Nanopb.Types.Atype
use answrapp.Nanopb.Output.{Encoder, fault, ◌>>◌, raise, write_null}
use answrapp.Nanopb.Scalar.Encode.{encode_varint, encode_fixed32, encode_fixed64, encode_bool}
use answrapp.Nanopb.Field.Encode.{
  enc_varint, enc_uvarint, enc_svarint, enc_bytes, enc_string, enc_fixed_length_bytes,
  is_integer_size,
}
use answrapp.Nanopb.Memory.{Memory, load, load_signed, load_bytes, read_bool}
use answrapp.Nanopb.Message.{Context, MessageEncoder}

-- A function that reads through `src`.
abbrev pub unless_null : ℕ → Encoder → Encoder
unless_null src m = if src == 0 then (λ s. fault) else m

-- A number of the field's size, which is tested first.
abbrev pub number_at : Field → ℕ → Encoder → Encoder
number_at field src m = if src == 0 && is_integer_size field.data_size then (λ s. fault) else m

-- `pb_bytes_array_t` at `src`: the size, and the bytes behind it.
abbrev pub bytes_at : Memory → ℕ → Option (List ℕ)
bytes_at mem src = if src == 0 then none else some (load_bytes mem (load mem 4 src) (src + 4))

-- The characters that `pb_enc_string` may look at.
abbrev pub text_at : Memory → Field → ℕ → Option (List ℕ)
text_at mem field src =
    if src == 0
    then none
    else some (
        load_bytes mem (if atype field.type == Atype.pointer then 2 ^ 64 - 1 else field.data_size)
          src)

-- `pb_enc_fixed_length_bytes`, which hands NULL on to `pb_write`.
abbrev pub fixed_length_at : Memory → Field → ℕ → Encoder
fixed_length_at mem field src =
    if src == 0
    then encode_varint field.data_size >> write_null field.data_size
    else enc_fixed_length_bytes (load_bytes mem field.data_size src)

-- A message at NULL has no fields to read, unless its descriptor is just the terminator.
abbrev pub is_empty : List Field → Bool
is_empty [] = true
is_empty (f ∷ fs) = f.tag == 0

abbrev pub submessage_at : MessageEncoder → List Field → ℕ → Encoder
submessage_at submessage fields src =
    if src == 0 && not (is_empty fields) then (λ s. fault) else submessage fields src

-- `pb_enc_submessage`, with `pb_encode_submessage`.
abbrev pub enc_submessage : Context → MessageEncoder → Field → ℕ → Encoder
enc_submessage ctx submessage field src = elim field.ptr [
  | none ↦ raise invalid_descriptor
  | some fields ↦ submessage_at submessage (ctx.descriptor fields) src
]

-- The entry of the table for a field. The entry for extensions is NULL, and the table ends there
-- behind the fixed length bytes.
unfoldable pub encode_value : Context → MessageEncoder → Field → ℕ → Encoder
encode_value ctx submessage field src =
    let l = ltype field.type in
    let mem = ctx.memory in
    if l == Ltype.bool
    then unless_null src (encode_bool (read_bool mem src))
    else if l == Ltype.varint
    then number_at field src (enc_varint field (load_signed mem field.data_size src))
    else if l == Ltype.uvarint
    then number_at field src (enc_uvarint field (load mem field.data_size src))
    else if l == Ltype.svarint
    then number_at field src (enc_svarint field (load_signed mem field.data_size src))
    else if l == Ltype.fixed32
    then unless_null src (encode_fixed32 (load mem 4 src))
    else if l == Ltype.fixed64
    then unless_null src (encode_fixed64 (load mem 8 src))
    else if l == Ltype.bytes
    then enc_bytes field (bytes_at mem src)
    else if l == Ltype.string
    then enc_string field (text_at mem field src)
    else if l == Ltype.submessage
    then enc_submessage ctx submessage field src
    else if l == Ltype.fixed_length_bytes
    then fixed_length_at mem field src
    else (λ s. fault)
