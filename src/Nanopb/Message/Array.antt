-- ===== src/Nanopb/Message/Array.antt =====
-- `encode_array` of pb_encode.c.
use answrapp.Common.{ℕ, zero, suc, ◌*◌, ◌%◌, ◌^◌, not, ◌&&◌, ◌||◌, ltb, leb, ◌==◌, if◌then◌else◌}
use answrapp.Nanopb.Types.{Field, ltype, atype, wt_string, array_exceeded}
use answrapp.Nanopb.Types.Ltype
use answrapp.Nanopb.Types.Atype
use answrapp.Nanopb.Output.{
  Written, done, failed, fault, stuck, Encoder, ◌>>◌, return_true, raise, write_null, is_sizing,
  ostream_sizing,
}
use answrapp.Nanopb.Scalar.Encode.{encode_varint, encode_tag, encode_tag_for_field}
use answrapp.Nanopb.Memory.{shifted, load_pointer}
use answrapp.Nanopb.Message.{Context, MessageEncoder}
use answrapp.Nanopb.Message.Value.{encode_value}

-- `count` items of `size` bytes from `p` on.
unfoldable pub encode_items : (ℕ → Encoder) → ℕ → ℕ → ℕ → Encoder
encode_items item size zero p = return_true
encode_items item size (suc count) p =
    let more = encode_items item size count (shifted p size) in item p >> more

-- What follows a sizing pass: its count, or its failure, of which the stream learns nothing else.
abbrev pub with_size : Written → (ℕ → Encoder) → Encoder
with_size (done sizestream) k s = k sizestream.bytes_written s
with_size (failed sizestream) k s = failed s
with_size fault k s = fault
with_size stuck k s = stuck

-- The size of a packed array, then the items; a sizing stream only counts it.
abbrev pub packed_data : Encoder → ℕ → Encoder
packed_data items size =
    encode_varint size >> (λ s. if is_sizing s.sink then write_null size s else items s)

unfoldable pub encode_packed : Field → ℕ → Encoder → Encoder
encode_packed field count items =
    let l = ltype field.type in
    let sized : Encoder =
      if l == Ltype.fixed32
      then packed_data items (4 * count % 2 ^ 64)
      else if l == Ltype.fixed64
      then packed_data items (8 * count % 2 ^ 64)
      else with_size (items ostream_sizing) (packed_data items) in
    encode_tag wt_string field.tag >> sized

-- An entry of a pointer array of strings or bytes is a pointer itself.
abbrev pub entry_at : Context → Field → ℕ → ℕ
entry_at ctx field p =
    if atype field.type == Atype.pointer
      && (ltype field.type == Ltype.string || ltype field.type == Ltype.bytes)
    then load_pointer ctx.memory p
    else p

unfoldable pub encode_array : Context → MessageEncoder → Field → ℕ → ℕ → Encoder
encode_array ctx submessage field p count =
    let value = encode_value ctx submessage field in
    if count == 0
    then return_true
    else if not (atype field.type == Atype.pointer) && ltb field.array_size count
    then raise array_exceeded
    else if leb (ltype field.type) Ltype.last_packable
    then encode_packed field count (encode_items value field.data_size count p)
    else encode_items (λ q. encode_tag_for_field field >> value (entry_at ctx field q))
        field.data_size count p
