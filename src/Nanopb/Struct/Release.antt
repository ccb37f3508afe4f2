-- ===== src/Nanopb/Struct/Release.antt =====
-- `pb_release_single_field` and `pb_release` of pb_decode.c.
use answrapp.Common.{
  ℕ, zero, suc, not, ◌&&◌, ◌||◌, Option, none, some, List, ltb, ◌==◌, if◌then◌else◌,
}
use answrapp.Nanopb.Types.{Field, ltype, htype, atype}
use answrapp.Nanopb.Types.Ltype
use answrapp.Nanopb.Types.Htype
use answrapp.Nanopb.Types.Atype
use answrapp.Nanopb.Iter.{FieldIter, field_at}
use answrapp.Nanopb.Memory.{Memory, load, load_pointer, shifted}
use answrapp.Nanopb.Struct.{fault, stuck, Action, ◌>>◌, skip, write_zero, free}
use answrapp.Nanopb.Struct.Fields.{
  Descriptors, at_walk, each_field_of, iter_from_extension, each_extension,
}

-- `count` items of `size` bytes from `p` on.
unfoldable pub release_items : (ℕ → Action) → ℕ → ℕ → ℕ → Action
release_items one size zero p = skip
release_items one size (suc count) p = one p >> release_items one size count (shifted p size)

-- The number of items of a submessage field. The `_count` of a static array may be corrupted.
abbrev pub item_count : Field → FieldIter → Memory → ℕ
item_count field iter mem =
    let is_static = atype field.type == Atype.static in
    let count =
      if is_static && iter.p_size == iter.p_data
      then field.array_size
      else load mem 4 iter.p_size in
    if htype field.type == Htype.repeated
    then (if is_static && ltb field.array_size count then field.array_size else count)
    else 1

abbrev pub release_submessages :
    Descriptors → (List Field → ℕ → Action) → Field → FieldIter → Action
release_submessages descriptor message field iter s =
    let item =
      if atype field.type == Atype.pointer
      then load_pointer s.memory iter.p_data
      else iter.p_data in
    let one : ℕ → Action =
      λ p. elim field.ptr [ none ↦ (λ t. fault) | some fields ↦ message (descriptor fields) p ] in
    (if item == 0
        then skip
        else release_items one field.data_size (item_count field iter s.memory) item)
      s

-- The entries of a pointer array of strings or bytes.
unfoldable pub release_entries : ℕ → ℕ → Action
release_entries zero p = skip
release_entries (suc count) p =
    if p == 0
    then (λ s. fault)
    else ((λ s. free (load_pointer s.memory p) s)
        >> write_zero p 8
        >> release_entries count (shifted p 8))

abbrev pub release_pointer : Field → FieldIter → Action
release_pointer field iter =
    let is_repeated = htype field.type == Htype.repeated in
    (if is_repeated && (ltype field.type == Ltype.string || ltype field.type == Ltype.bytes)
      then (λ s.
          release_entries (load s.memory 4 iter.p_size) (load_pointer s.memory iter.p_data) s)
      else skip)
    >> (if is_repeated then write_zero iter.p_size 4 else skip)
    >> (λ s. free (load_pointer s.memory iter.p_data) s)
    >> write_zero iter.p_data 8

-- What is contained in an extension or a submessage.
abbrev pub release_contents :
    Descriptors → (FieldIter → Action) → (List Field → ℕ → Action) → ℕ → Field → FieldIter → Action
release_contents descriptor one message fuel field iter =
    if ltype field.type == Ltype.extension
    then (λ s.
        each_extension (λ ext t. at_walk (iter_from_extension descriptor t.memory ext) one t) fuel
          (load_pointer s.memory iter.p_data) s)
    else if ltype field.type == Ltype.submessage && not (atype field.type == Atype.callback)
    then release_submessages descriptor message field iter
    else skip

-- One call; the parameters are those of `default_field`.
abbrev pub release_field :
    Descriptors
    → (FieldIter → Action)
    → (List Field → ℕ → Action)
    → ℕ
    → Option Field
    → FieldIter
    → Action
release_field descriptor one message fuel none iter s = fault
release_field descriptor one message fuel (some field) iter s =
    let other = htype field.type == Htype.oneof && not (load s.memory 4 iter.p_size == field.tag) in
    (if other
        then skip
        else (release_contents descriptor one message fuel field iter
            >> (if atype field.type == Atype.pointer then release_pointer field iter else skip)))
      s

abbrev pub unless_null : (List Field → ℕ → Action) → List Field → ℕ → Action
unless_null message fields p = if p == 0 then skip else message fields p

-- `pb_release_single_field`, with the depth of submessages and the number of extensions for fuel.
unfoldable pub release_single_field : Descriptors → ℕ → FieldIter → Action
release_single_field descriptor zero iter = λ s. stuck
release_single_field descriptor (suc depth) iter =
    let one = release_single_field descriptor depth in
    release_field descriptor one (unless_null (each_field_of one)) depth
      (field_at iter.start iter.pos) iter

-- `pb_release`, which ignores NULL.
unfoldable pub release : Descriptors → ℕ → List Field → ℕ → Action
release descriptor depth fields p =
    unless_null (each_field_of (release_single_field descriptor depth)) fields p
