-- ===== src/Nanopb/Decode/One.antt =====
-- `decode_field` of pb_decode.c, and `pb_release_union_field`, which it calls. Both may move the
-- iterator, and return it.
use answrapp.Common.{ℕ, ◌||◌, ◌==◌, if◌then◌else◌}
use answrapp.Nanopb.Types.{
  Field, htype, atype, WireType, invalid_field_type, invalid_union_tag, iterator_error,
}
use answrapp.Nanopb.Types.Htype
use answrapp.Nanopb.Types.Atype
use answrapp.Nanopb.Memory.{load}
use answrapp.Nanopb.Iter.{FieldIter, field_at, iter_find}
use answrapp.Nanopb.Struct.Release.{release_single_field}
use answrapp.Nanopb.Decode.{
  Step, ◌>>=◌, ◌>>◌, pure, raise, changing, loading, walking, at_field, Context, MessageDecoder,
}
use answrapp.Nanopb.Decode.Static.{decode_static_field}
use answrapp.Nanopb.Decode.Pointer.{decode_pointer_field}
use answrapp.Nanopb.Decode.Callback.{decode_callback_field}

-- The old data is released, and the iterator goes back to the field.
abbrev pub release_old : Context → ℕ → ℕ → FieldIter → Step FieldIter
release_old ctx old_tag new_tag iter = do
  old ← walking (iter_find old_tag iter)
  if old.0
      then (do
        changing (release_single_field ctx.descriptor ctx.nesting old.1)
        new ← walking (iter_find new_tag old.1)
        if new.0 then pure new.1 else raise iterator_error)
      else raise invalid_union_tag

-- `pb_release_union_field`.
unfoldable pub release_union_field : Context → Field → FieldIter → Step FieldIter
release_union_field ctx field iter = do
  old_tag ← loading (λ mem. load mem 4 iter.p_size)
  if old_tag == 0 || old_tag == field.tag then pure iter else release_old ctx old_tag field.tag iter

-- The switch on the allocation type.
unfoldable pub decode_allocated :
    Context → MessageDecoder → MessageDecoder → WireType → Field → FieldIter → Step (Unit {0})
decode_allocated ctx decode decode_noinit wire_type field iter =
    let a = atype field.type in
    if a == Atype.static
    then decode_static_field ctx decode decode_noinit wire_type field iter
    else if a == Atype.pointer
    then decode_pointer_field ctx decode decode_noinit wire_type field iter
    else if a == Atype.callback
    then decode_callback_field ctx wire_type field iter
    else raise invalid_field_type

abbrev pub decode_at :
    Context → MessageDecoder → MessageDecoder → WireType → FieldIter → Step FieldIter
decode_at ctx decode decode_noinit wire_type iter =
    at_field (field_at iter.start iter.pos)
      λ field. decode_allocated ctx decode decode_noinit wire_type field iter >> pure iter

unfoldable pub decode_field :
    Context → MessageDecoder → MessageDecoder → WireType → FieldIter → Step FieldIter
decode_field ctx decode decode_noinit wire_type iter =
    at_field (field_at iter.start iter.pos) λ field.
      (if htype field.type == Htype.oneof then release_union_field ctx field iter else pure iter)
      >>= decode_at ctx decode decode_noinit wire_type
