-- ===== src/Nanopb/Decode/Pointer.antt =====
-- `decode_pointer_field` of pb_decode.c.
use answrapp.Common.{
  ℕ, zero, suc, ◌+◌, ◌-◌, ◌/◌, ◌%◌, ◌^◌, Bool, true, false, not, ◌&&◌, ◌||◌, some, ltb, leb, ◌==◌,
  if◌then◌else◌,
}
use answrapp.Nanopb.Types.{
  Field, ltype, htype, size_max, WireType, wt_string, invalid_field_type, too_many_entries,
}
use answrapp.Nanopb.Types.Ltype
use answrapp.Nanopb.Types.Htype
use answrapp.Nanopb.Input.{InStream}
use answrapp.Nanopb.Memory.{load, load_pointer}
use answrapp.Nanopb.Iter.{FieldIter}
use answrapp.Nanopb.Struct.Release.{release_single_field}
use answrapp.Nanopb.Decode.{
  Outcome, done, failed, outside, fault, stuck, Step, ◌>>=◌, ◌>>◌, pure, give, raise, changing,
  loading, write_number, remaining, open_substream, close_substream, Context, MessageDecoder,
}
use answrapp.Nanopb.Decode.Allocate.{allocate_field, initialize_pointer_field}
use answrapp.Nanopb.Decode.Static.{item_address, item_count, count_item}
use answrapp.Nanopb.Decode.Value.{dec_value}

-- What a pointer field points at.
abbrev pub target : FieldIter → Step ℕ
target iter = loading (λ mem. load_pointer mem iter.p_data)

-- An item in new storage.
abbrev pub new_item : Context → (ℕ → Step (Unit {0})) → Field → ℕ → Step (Unit {0})
new_item ctx func field p = initialize_pointer_field ctx field p >> func p

-- A single value. A submessage that was there is released first.
unfoldable pub pointer_single :
    Context → (ℕ → Step (Unit {0})) → Field → FieldIter → Step (Unit {0})
pointer_single ctx func field iter = do
  old ← target iter
  if ltype field.type == Ltype.submessage && not (old == 0)
      then changing (release_single_field ctx.descriptor ctx.nesting iter)
      else pure tt
  if htype field.type == Htype.oneof then write_number iter.p_size 4 field.tag else pure tt
  if ltype field.type == Ltype.string || ltype field.type == Ltype.bytes
      then func iter.p_data
      else (do
        allocate_field ctx iter.p_data field.data_size 1
        p ← target iter
        initialize_pointer_field ctx field p
        target iter >>= func)

-- The number of entries to allocate: a guess at those that are still to come.
abbrev pub guess : ℕ → ℕ → ℕ → ℕ
guess left data_size allocated =
    let remain = (left - 1) / data_size + 1 in
    if ltb remain ((size_max + 2 ^ 64 - allocated) % 2 ^ 64)
    then (allocated + remain) % 2 ^ 64
    else (allocated + 1) % 2 ^ 64

-- Storage for the entry behind `n` others; returns the number of allocated entries. A division by 0
-- is a fault.
unfoldable pub grow : Context → Field → FieldIter → ℕ → ℕ → Step ℕ
grow ctx field iter n allocated s =
    let allocated' = guess s.stream.bytes_left field.data_size allocated in
    if ltb allocated (n + 1)
    then (if field.data_size == 0
        then fault
        else (allocate_field ctx iter.p_data field.data_size allocated' >> pure allocated') s)
    else done allocated s

-- An entry of a packed array: storage, the value, the count.
abbrev pub packed_entry : Context → (ℕ → Step (Unit {0})) → Field → FieldIter → ℕ → ℕ → Step ℕ
packed_entry ctx func field iter n allocated = do
  allocated' ← grow ctx field iter n allocated
  base ← target iter
  new_item ctx func field (item_address base field n)
  count_item iter
  pure allocated'

-- A failed entry ends the loop with the status false.
abbrev pub unless_failed :
    Outcome ℕ → InStream → (ℕ → Step (Bool × InStream)) → Outcome (Bool × InStream)
unless_failed (done allocated s) parent more = more allocated s
unless_failed (failed s) parent more = done (false, parent) s
unless_failed outside parent more = outside
unless_failed fault parent more = fault
unless_failed stuck parent more = stuck

-- The loop over a packed array, on the substream; returns the status and the parent stream, whose
-- message it sets.
unfoldable pub packed_entries :
    Context → (ℕ → Step (Unit {0})) → Field → FieldIter → ℕ → InStream → ℕ → Step (Bool × InStream)
packed_entries ctx func field iter zero parent allocated s = stuck
packed_entries ctx func field iter (suc fuel) parent allocated s =
    let n = load s.store.memory 4 iter.p_size in
    let round =
      unless_failed (packed_entry ctx func field iter n allocated s) parent
        (packed_entries ctx func field iter fuel parent) in
    if s.stream.bytes_left == 0
    then done (true, parent) s
    else if n == size_max
    then done (false, record parent { errmsg = some too_many_entries }) s
    else round

unfoldable pub pointer_packed :
    Context → (ℕ → Step (Unit {0})) → Field → FieldIter → Step (Unit {0})
pointer_packed ctx func field iter = do
  allocated ← item_count iter
  parent ← open_substream
  left ← remaining
  r ← packed_entries ctx func field iter (suc left) parent allocated
  close_substream r.1
  give r.0

-- An entry of an array that is not packed.
unfoldable pub pointer_item : Context → (ℕ → Step (Unit {0})) → Field → FieldIter → Step (Unit {0})
pointer_item ctx func field iter = do
  n ← item_count iter
  if n == size_max then raise too_many_entries else (do
    allocate_field ctx iter.p_data field.data_size ((n + 1) % 2 ^ 32)
    base ← target iter
    index ← item_count iter
    count_item iter
    new_item ctx func field (item_address base field index))

-- `decode_pointer_field` with the entry of PB_DECODERS.
unfoldable pub pointer_field :
    Context → (ℕ → Step (Unit {0})) → WireType → Field → FieldIter → Step (Unit {0})
pointer_field ctx func wire_type field iter =
    let h = htype field.type in
    if h == Htype.required || h == Htype.optional || h == Htype.oneof
    then pointer_single ctx func field iter
    else if h == Htype.repeated
    then (if wire_type == wt_string && leb (ltype field.type) Ltype.last_packable
        then pointer_packed ctx func field iter
        else pointer_item ctx func field iter)
    else raise invalid_field_type

unfoldable pub decode_pointer_field :
    Context → MessageDecoder → MessageDecoder → WireType → Field → FieldIter → Step (Unit {0})
decode_pointer_field ctx decode decode_noinit wire_type field iter =
    pointer_field ctx (dec_value ctx decode decode_noinit field) wire_type field iter
