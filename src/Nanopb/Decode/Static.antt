-- ===== src/Nanopb/Decode/Static.antt =====
-- `decode_static_field` of pb_decode.c.
use answrapp.Common.{ℕ, zero, suc, ◌+◌, ◌*◌, ◌%◌, ◌^◌, ◌&&◌, ltb, leb, ◌==◌, if◌then◌else◌}
use answrapp.Nanopb.Types.{
  Field, ltype, htype, WireType, wt_string, array_overflow, invalid_field_type,
}
use answrapp.Nanopb.Types.Ltype
use answrapp.Nanopb.Types.Htype
use answrapp.Nanopb.Memory.{load}
use answrapp.Nanopb.Iter.{FieldIter}
use answrapp.Nanopb.Decode.{
  done, stuck, Step, ◌>>=◌, ◌>>◌, give, raise, changing, loading, attempt, write_number, remaining,
  enter, open_substream, close_substream, Context, MessageDecoder,
}
use answrapp.Nanopb.Decode.Allocate.{clear_submessage}
use answrapp.Nanopb.Decode.Value.{dec_value}

-- `(char*)p + data_size * (*size)`, a product of 32 bits.
abbrev pub item_address : ℕ → Field → ℕ → ℕ
item_address p field n = (p + field.data_size * n % 2 ^ 32) % 2 ^ 64

-- `*size` and `(*size)++`.
abbrev pub item_count : FieldIter → Step ℕ
item_count iter = loading (λ mem. load mem 4 iter.p_size)

abbrev pub count_item : FieldIter → Step (Unit {0})
count_item iter = do n ← item_count iter; write_number iter.p_size 4 ((n + 1) % 2 ^ 32)

-- One item of a packed array, the item at `n`.
abbrev pub packed_item : (ℕ → Step (Unit {0})) → Field → FieldIter → ℕ → Step (Unit {0})
packed_item func field iter n = do func (item_address iter.p_data field n); count_item iter

-- The loop over a packed array, on the substream.
unfoldable pub packed_items : (ℕ → Step (Unit {0})) → Field → FieldIter → ℕ → Step (Unit {0})
packed_items func field iter zero s = stuck
packed_items func field iter (suc fuel) s =
    let n = load s.store.memory 4 iter.p_size in
    let round = (packed_item func field iter n >> packed_items func field iter fuel) s in
    if ltb 0 s.stream.bytes_left && ltb n field.array_size then round else done tt s

-- A packed array; bytes that are left are an error on the parent stream.
unfoldable pub static_packed : (ℕ → Step (Unit {0})) → Field → FieldIter → Step (Unit {0})
static_packed func field iter = do
  parent ← open_substream
  left ← remaining
  status ← attempt (packed_items func field iter (suc left))
  rest ← remaining
  if rest == 0
      then (close_substream parent >> give status)
      else (enter parent >> raise array_overflow)

-- An item of an array that is not packed.
unfoldable pub static_item : (ℕ → Step (Unit {0})) → Field → FieldIter → Step (Unit {0})
static_item func field iter = do
  n ← item_count iter
  write_number iter.p_size 4 ((n + 1) % 2 ^ 32)
  if leb field.array_size n then raise array_overflow else func (item_address iter.p_data field n)

-- `decode_static_field` with the entry of PB_DECODERS.
unfoldable pub static_field :
    Context → (ℕ → Step (Unit {0})) → WireType → Field → FieldIter → Step (Unit {0})
static_field ctx func wire_type field iter =
    let h = htype field.type in
    let value = func iter.p_data in
    if h == Htype.required
    then value
    else if h == Htype.optional
    then (if iter.p_size == iter.p_data then value else (write_number iter.p_size 1 1 >> value))
    else if h == Htype.repeated
    then (if wire_type == wt_string && leb (ltype field.type) Ltype.last_packable
        then static_packed func field iter
        else static_item func field iter)
    else if h == Htype.oneof
    then (write_number iter.p_size 4 field.tag
        >> (if ltype field.type == Ltype.submessage
            then (changing (clear_submessage ctx field iter.p_data) >> value)
            else value))
    else raise invalid_field_type

unfoldable pub decode_static_field :
    Context → MessageDecoder → MessageDecoder → WireType → Field → FieldIter → Step (Unit {0})
decode_static_field ctx decode decode_noinit wire_type field iter =
    static_field ctx (dec_value ctx decode decode_noinit field) wire_type field iter
