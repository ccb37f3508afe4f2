-- ===== src/Nanopb/Decode/Extension.antt =====
-- The extensions of a message in pb_decode.c: `default_extension_decoder`, `decode_extension` and
-- `find_extension_field`. An extension is its type, its destination, the next extension and `found`,
-- eight bytes apart; a type is the functions to decode and encode and the descriptor of the field.
use answrapp.Common.{ℕ, zero, suc, true, not, ◌||◌, Option, none, some, ◌==◌, if◌then◌else◌, length}
use answrapp.Nanopb.Types.{Field, ltype, WireType}
use answrapp.Nanopb.Types.Ltype
use answrapp.Nanopb.Memory.{Memory, load_pointer, shifted}
use answrapp.Nanopb.Iter.{FieldIter, Walk, returned, field_at, iter_next, unless_home}
use answrapp.Nanopb.Iter
use answrapp.Nanopb.Struct.Fields.{iter_from_extension}
use answrapp.Nanopb.Decode.{
  done, stuck, Step, ◌>>=◌, ◌>>◌, pure, loading, walking, write_number, remaining, at_field,
  Context, MessageDecoder,
}
use answrapp.Nanopb.Decode.One.{decode_field}

abbrev pub extension_type : ℕ → Memory → ℕ
extension_type ext mem = load_pointer mem ext

-- `default_extension_decoder`, for a field with the tag of the extension.
unfoldable pub default_extension_decoder :
    Context → MessageDecoder → MessageDecoder → ℕ → ℕ → WireType → Step (Unit {0})
default_extension_decoder ctx decode decode_noinit ext tag wire_type = do
  arg ← loading (λ mem. load_pointer mem (shifted (extension_type ext mem) 16))
  at_field (field_at (ctx.descriptor arg) 0) λ field.
      if field.tag == tag
      then (do
        iter ← (λ s. walking (iter_from_extension ctx.descriptor s.store.memory ext) s)
        write_number (shifted ext 24) 1 1
        decode_field ctx decode decode_noinit wire_type iter.1
        pure tt)
      else pure tt

-- The decoder of one extension: its own, or the default.
abbrev pub try_extension :
    Context → MessageDecoder → MessageDecoder → ℕ → WireType → ℕ → Step (Unit {0})
try_extension ctx decode decode_noinit tag wire_type ext = do
  own ← loading (λ mem. load_pointer mem (extension_type ext mem))
  if own == 0
      then default_extension_decoder ctx decode decode_noinit ext tag wire_type
      else ctx.extension own ext tag wire_type

-- The loop over the extensions, until one has read from the stream, which had `pos` bytes left.
unfoldable pub extension_loop : (ℕ → Step (Unit {0})) → ℕ → ℕ → ℕ → Step (Unit {0})
extension_loop try_one pos zero ext s = stuck
extension_loop try_one pos (suc fuel) ext s =
    let round =
      (do
        try_one ext
        next ← loading (λ mem. load_pointer mem (shifted ext 16))
        extension_loop try_one pos fuel next)
        s in
    if ext == 0 || not (s.stream.bytes_left == pos) then done tt s else round

-- `decode_extension`.
unfoldable pub decode_extension :
    Context → MessageDecoder → MessageDecoder → ℕ → WireType → FieldIter → Step (Unit {0})
decode_extension ctx decode decode_noinit tag wire_type iter = do
  ext ← loading (λ mem. load_pointer mem iter.p_data)
  pos ← remaining
  extension_loop (try_extension ctx decode decode_noinit tag wire_type) pos ctx.nesting ext

abbrev pub seek : Option Field → FieldIter → Walk → Walk
seek none iter more = Iter.fault
seek (some f) iter more = if ltype f.type == Ltype.extension then returned true iter else more

unfoldable pub find_extension_loop : ℕ → ℕ → FieldIter → Walk
find_extension_loop zero home iter = Iter.stuck
find_extension_loop (suc fuel) home iter =
    seek (field_at iter.start iter.pos) iter
      (unless_home home (find_extension_loop fuel home) (iter_next iter))

-- `find_extension_field`, with a round for each element of the array.
unfoldable pub find_extension_field : FieldIter → Walk
find_extension_field iter = find_extension_loop (length iter.start) iter.pos iter
