-- ===== src/Nanopb/Decode/Value.antt =====
-- The entries of PB_DECODERS in pb_decode.c with what they store. The decoder of submessages takes
-- `pb_decode` and `pb_decode_noinit` as parameters.
use answrapp.Common.{ℕ, ◌+◌, ◌*◌, ◌%◌, ◌^◌, Option, none, some, ltb, ◌==◌, if◌then◌else◌}
use answrapp.Common.Int.{ℤ, signed, pattern_of, ◌=ℤ◌}
use answrapp.Nanopb.Types.{
  Field, ltype, htype, atype, size_max, invalid_data_size, integer_too_large, bytes_overflow,
  size_too_large, string_overflow, wrong_fixed_length, invalid_descriptor, Error,
}
use answrapp.Nanopb.Types.Ltype
use answrapp.Nanopb.Types.Htype
use answrapp.Nanopb.Types.Atype
use answrapp.Nanopb.Input.{read}
use answrapp.Nanopb.Varint.{decode_varint, decode_varint32}
use answrapp.Nanopb.Scalar.{decode_bool, decode_svarint, decode_fixed32, decode_fixed64}
use answrapp.Nanopb.Field.{narrow, narrow_unsigned, bytes_alloc_size}
use answrapp.Nanopb.Memory.{load_pointer}
use answrapp.Nanopb.Struct.{write_zero}
use answrapp.Nanopb.Decode.{
  Machine, Outcome, fault, Step, ◌>>=◌, ◌>>◌, pure, give, reading, raise, changing, loading,
  attempt, write_number, write_list, open_substream, close_substream, Context, MessageDecoder,
}
use answrapp.Nanopb.Decode
use answrapp.Nanopb.Decode.Allocate.{allocate_field}

-- `pb_dec_bool`.
unfoldable pub dec_bool : ℕ → Step (Unit {0})
dec_bool dest = do value ← reading decode_bool; write_number dest 1 (if value then 1 else 0)

-- The store in a field of `data_size` bytes, and the check that it lost nothing.
abbrev pub store_signed : Option ℤ → ℕ → ℕ → ℤ → Step (Unit {0})
store_signed none data_size dest svalue = raise invalid_data_size
store_signed (some clamped) data_size dest svalue = do
  write_number dest data_size (pattern_of (8 * data_size) clamped)
  if clamped =ℤ svalue then pure tt else raise integer_too_large

-- `pb_dec_varint`.
unfoldable pub dec_varint : Field → ℕ → Step (Unit {0})
dec_varint field dest = do
  value ← reading decode_varint
  let svalue = if field.data_size == 8 then signed 64 value else signed 32 (value % 2 ^ 32)
  store_signed (narrow field.data_size svalue) field.data_size dest svalue

abbrev pub store_unsigned : Option ℕ → ℕ → ℕ → ℕ → Step (Unit {0})
store_unsigned none data_size dest value = raise invalid_data_size
store_unsigned (some clamped) data_size dest value = do
  write_number dest data_size clamped
  if clamped == value then pure tt else raise integer_too_large

-- `pb_dec_uvarint`.
unfoldable pub dec_uvarint : Field → ℕ → Step (Unit {0})
dec_uvarint field dest = do
  value ← reading decode_varint
  store_unsigned (narrow_unsigned field.data_size value) field.data_size dest value

-- `pb_dec_svarint`.
unfoldable pub dec_svarint : Field → ℕ → Step (Unit {0})
dec_svarint field dest = do
  value ← reading decode_svarint
  store_signed (narrow field.data_size value) field.data_size dest value

-- `pb_dec_fixed32` and `pb_dec_fixed64`.
unfoldable pub dec_fixed32 : ℕ → Step (Unit {0})
dec_fixed32 dest = do value ← reading decode_fixed32; write_number dest 4 value

unfoldable pub dec_fixed64 : ℕ → Step (Unit {0})
dec_fixed64 dest = do value ← reading decode_fixed64; write_number dest 8 value

-- Room at the destination: returns where it is.
unfoldable pub room : Context → Field → ℕ → ℕ → Error → Step ℕ
room ctx field dest alloc_size overflow =
    if atype field.type == Atype.pointer
    then (allocate_field ctx dest alloc_size 1 >> loading (λ mem. load_pointer mem dest))
    else if ltb field.data_size alloc_size
    then raise overflow
    else pure dest

-- The bytes behind their four-byte size.
abbrev pub fill_bytes : ℕ → ℕ → Step (Unit {0})
fill_bytes size bdest = do
  write_number bdest 4 size
  bytes ← reading (read size)
  write_list (bdest + 4) size bytes

-- `pb_dec_bytes`.
unfoldable pub dec_bytes : Context → Field → ℕ → Step (Unit {0})
dec_bytes ctx field dest = do
  size ← reading decode_varint32
  if ltb size_max size
      then raise bytes_overflow
      else if ltb (bytes_alloc_size size) size
      then raise size_too_large
      else (room ctx field dest (bytes_alloc_size size) bytes_overflow >>= fill_bytes size)

-- The characters, and the terminator, which is written when they could not be read, too.
abbrev pub fill_string : ℕ → ℕ → Step (Unit {0})
fill_string size dest = do
  status ← attempt (reading (read size) >>= write_list dest size)
  write_number (dest + size) 1 0
  give status

-- `pb_dec_string`; `size + 1` is computed in 32 bits.
unfoldable pub dec_string : Context → Field → ℕ → Step (Unit {0})
dec_string ctx field dest = do
  size ← reading decode_varint32
  let alloc_size = (size + 1) % 2 ^ 32
  if ltb alloc_size size
      then raise size_too_large
      else (room ctx field dest alloc_size string_overflow >>= fill_string size)

-- `pb_dec_fixed_length_bytes`.
unfoldable pub dec_fixed_length_bytes : Field → ℕ → Step (Unit {0})
dec_fixed_length_bytes field dest = do
  size ← reading decode_varint32
  if ltb size_max size
      then raise bytes_overflow
      else if size == 0
      then changing (write_zero dest field.data_size)
      else if size == field.data_size
      then (reading (read field.data_size) >>= write_list dest field.data_size)
      else raise wrong_fixed_length

-- The call of `pb_decode` or `pb_decode_noinit`, and the end of the substream.
abbrev pub submessage_in : Step (Unit {0}) → Step (Unit {0})
submessage_in message = do
  parent ← open_substream
  status ← attempt message
  close_substream parent
  give status

-- `pb_dec_submessage`. A descriptor that is NULL is an error on the parent stream.
unfoldable pub dec_submessage :
    Context → MessageDecoder → MessageDecoder → Field → ℕ → Step (Unit {0})
dec_submessage ctx decode decode_noinit field dest = elim field.ptr [
  | none ↦ (do parent ← open_substream; Decode.enter parent; raise invalid_descriptor)
  | some fields ↦ submessage_in (
      (if htype field.type == Htype.repeated then decode else decode_noinit) (ctx.descriptor fields)
        dest)
]

-- PB_DECODERS; the entry of extensions is NULL.
unfoldable pub dec_value : Context → MessageDecoder → MessageDecoder → Field → ℕ → Step (Unit {0})
dec_value ctx decode decode_noinit field dest =
    let t = ltype field.type in
    if t == Ltype.bool
    then dec_bool dest
    else if t == Ltype.varint
    then dec_varint field dest
    else if t == Ltype.uvarint
    then dec_uvarint field dest
    else if t == Ltype.svarint
    then dec_svarint field dest
    else if t == Ltype.fixed32
    then dec_fixed32 dest
    else if t == Ltype.fixed64
    then dec_fixed64 dest
    else if t == Ltype.bytes
    then dec_bytes ctx field dest
    else if t == Ltype.string
    then dec_string ctx field dest
    else if t == Ltype.submessage
    then dec_submessage ctx decode decode_noinit field dest
    else if t == Ltype.fixed_length_bytes
    then dec_fixed_length_bytes field dest
    else (λ s. fault)
