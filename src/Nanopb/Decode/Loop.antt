-- ===== src/Nanopb/Decode/Loop.antt =====
-- The loop of `pb_decode_noinit` of pb_decode.c over the fields on the stream.
use answrapp.Common.{
  ℕ, zero, suc, ◌-◌, ◌^◌, Bool, false, ◌&&◌, Option, none, some, List, [], ◌∷◌, leb, ◌==◌,
  if◌then◌else◌,
}
use answrapp.Nanopb.Types.{Field, htype, WireType, wrong_fixed_count}
use answrapp.Nanopb.Types.Htype
use answrapp.Nanopb.Input.{Result, ok}
use answrapp.Nanopb.Input
use answrapp.Nanopb.Scalar.{Tag, decode_tag, skip_field}
use answrapp.Nanopb.Memory.{load}
use answrapp.Nanopb.Iter.{FieldIter, field_at, iter_begin, iter_find}
use answrapp.Nanopb.Struct.{Store, write_zero}
use answrapp.Nanopb.Decode.{
  Machine, Outcome, done, failed, outside, stuck, Step, ◌>>=◌, ◌>>◌, pure, reading, raise, changing,
  loading, walking, remaining, at_field, Context, MessageDecoder,
}
use answrapp.Nanopb.Decode.One.{decode_field}
use answrapp.Nanopb.Decode.Extension.{decode_extension, find_extension_field}
use answrapp.Nanopb.Decode.Required.{note_required, check_required}

-- The local variables. `fixed_count_field` is an index into the descriptor, `none` for NULL.
pub record Progress : Type 0 where
  pub iter : FieldIter
  pub fields_seen : List ℕ
  pub extension_range_start : ℕ
  pub fixed_count_field : Option ℕ

-- `fixed_count_field` has all of its items, if it is not NULL; `frame` is the address of the count.
abbrev pub check_fixed_count : ℕ → List Field → Option ℕ → Step (Unit {0})
check_fixed_count frame fields none = pure tt
check_fixed_count frame fields (some pos) = at_field (field_at fields pos) λ field.
    loading (λ mem. load mem 4 frame) >>= λ n.
    if n == field.array_size then pure tt else raise wrong_fixed_count

abbrev pub is_at : Option ℕ → ℕ → Bool
is_at none pos = false
is_at (some p) pos = p == pos

-- A repeated field without a counter in the structure is counted in the local variable.
abbrev pub count_fixed : ℕ → Field → Progress → Step Progress
count_fixed frame field p =
    let counted : Progress = record {
      iter = record p.iter { p_size = frame };
      fields_seen = p.fields_seen;
      extension_range_start = p.extension_range_start;
      fixed_count_field = some p.iter.pos;
    } in
    if htype field.type == Htype.repeated && p.iter.p_size == p.iter.p_data
    then (if is_at p.fixed_count_field p.iter.pos
        then pure counted
        else (check_fixed_count frame p.iter.start p.fixed_count_field
            >> changing (write_zero frame 4)
            >> pure counted))
    else pure p

-- A field that the descriptor has.
unfoldable pub known_field :
    Context → ℕ → MessageDecoder → MessageDecoder → WireType → Progress → Step Progress
known_field ctx frame decode decode_noinit wire_type p =
    at_field (field_at p.iter.start p.iter.pos) λ field. do
      q ← count_fixed frame field p
      iter ← decode_field ctx decode decode_noinit wire_type q.iter
      pure (record {
        iter = iter;
        fields_seen = note_required field q.iter q.fields_seen;
        extension_range_start = q.extension_range_start;
        fixed_count_field = q.fixed_count_field;
      })

-- `extension_range_start` behind `find_extension_field`.
abbrev pub range_start : Bool × FieldIter → Step ℕ
range_start found =
    if found.0
    then (at_field (field_at found.1.start found.1.pos) λ field. pure field.tag)
    else pure (2 ^ 32 - 1)

-- A field whose tag is in the range of extensions: it is skipped if no extension has read it.
abbrev pub extension_field :
    Context → MessageDecoder → MessageDecoder → Tag → FieldIter → Step (Unit {0})
extension_field ctx decode decode_noinit tag iter = do
  pos ← remaining
  decode_extension ctx decode decode_noinit tag.tag tag.wire_type iter
  left ← remaining
  if left == pos then reading (skip_field tag.wire_type) else pure tt

-- A field that the descriptor does not have.
unfoldable pub unknown_field :
    Context → MessageDecoder → MessageDecoder → Tag → Progress → Step Progress
unknown_field ctx decode decode_noinit tag p =
    if leb p.extension_range_start tag.tag
    then (do
      found ← walking (find_extension_field p.iter)
      start ← range_start found
      if leb start tag.tag
          then extension_field ctx decode decode_noinit tag found.1
          else reading (skip_field tag.wire_type)
      pure (record p { iter = found.1; extension_range_start = start }))
    else (reading (skip_field tag.wire_type) >> pure p)

-- One round, behind the tag.
unfoldable pub one_field :
    Context → ℕ → MessageDecoder → MessageDecoder → Progress → Tag → Step Progress
one_field ctx frame decode decode_noinit p tag = walking (iter_find tag.tag p.iter) >>= λ found.
    let p' : Progress = record p { iter = found.1 } in
    if found.0
    then known_field ctx frame decode decode_noinit tag.wire_type p'
    else unknown_field ctx decode decode_noinit tag p'

-- The tag of a round; the end of the message ends the loop.
abbrev pub with_tag :
    Result Tag × Bool → Store → (Tag → Step Progress) → Progress → Outcome Progress
with_tag (ok tag t, eof) store round p = round tag (record { stream = t; store = store })
with_tag (Input.failed t, eof) store round p =
    let s : Machine = record { stream = t; store = store } in if eof then done p s else failed s
with_tag (Input.fault, eof) store round p = outside
with_tag (Input.stuck, eof) store round p = stuck

unfoldable pub fields_loop : (Progress → Tag → Step Progress) → ℕ → Progress → Step Progress
fields_loop round zero p s = stuck
fields_loop round (suc fuel) p s =
    let rest =
      with_tag (decode_tag s.stream) s.store (λ tag. round p tag >>= fields_loop round fuel) p in
    if s.stream.bytes_left == 0 then done p s else rest

-- The body of `pb_decode_noinit`; `decode` and `decode_noinit` are the calls for submessages.
unfoldable pub decode_fields :
    Context → ℕ → MessageDecoder → MessageDecoder → List Field → ℕ → Step (Unit {0})
decode_fields ctx frame decode decode_noinit fields dest_struct = do
  changing (write_zero frame 4)
  begun ← walking (iter_begin fields dest_struct)
  left ← remaining
  p ← fields_loop (one_field ctx frame decode decode_noinit) (suc left) (record {
    iter = begun.1;
    fields_seen = 0 ∷ 0 ∷ [];
    extension_range_start = 0;
    fixed_count_field = none;
  })
  check_fixed_count frame fields p.fixed_count_field
  check_required p.iter p.fields_seen
