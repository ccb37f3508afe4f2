-- ===== src/Nanopb/Struct/Defaults.antt =====
-- `pb_field_set_to_default` and `pb_message_set_to_defaults` of pb_decode.c.
use answrapp.Common.{
  ℕ, zero, suc, Bool, not, ◌&&◌, ◌||◌, Option, none, some, List, ◌==◌, if◌then◌else◌,
}
use answrapp.Nanopb.Types.{Field, ltype, htype, atype}
use answrapp.Nanopb.Types.Ltype
use answrapp.Nanopb.Types.Htype
use answrapp.Nanopb.Types.Atype
use answrapp.Nanopb.Iter.{FieldIter, field_at}
use answrapp.Nanopb.Memory.{load_pointer, shifted}
use answrapp.Nanopb.Struct.{fault, stuck, Action, ◌>>◌, skip, write_zero, copy_bytes}
use answrapp.Nanopb.Struct.Fields.{
  Descriptors, at_walk, each_field_of, iter_from_extension, each_extension,
}

-- A call for an extension.
abbrev pub default_extension : Descriptors → (FieldIter → Action) → ℕ → Action
default_extension descriptor one ext =
    write_zero (shifted ext 24) 1
    >> (λ s. at_walk (iter_from_extension descriptor s.memory ext) one s)

-- The data of a static field; NULL for the descriptor of a submessage is read through.
abbrev pub init_data : Descriptors → (List Field → ℕ → Action) → Field → ℕ → Action
init_data descriptor message field p =
    if ltype field.type == Ltype.submessage
    then elim field.ptr [ none ↦ (λ s. fault) | some fields ↦ message (descriptor fields) p ]
    else elim field.ptr [
      | none ↦ write_zero p field.data_size
      | some source ↦ copy_bytes p source field.data_size
    ]

abbrev pub is_counted : Field → Bool
is_counted field = htype field.type == Htype.repeated || htype field.type == Htype.oneof

abbrev pub default_static : Descriptors → (List Field → ℕ → Action) → Field → FieldIter → Action
default_static descriptor message field iter =
    let contents = init_data descriptor message field iter.p_data in
    if htype field.type == Htype.optional && not (iter.p_size == iter.p_data)
    then write_zero iter.p_size 1 >> contents
    else if is_counted field
    then write_zero iter.p_size 4
    else contents

abbrev pub default_pointer : Field → FieldIter → Action
default_pointer field iter =
    write_zero iter.p_data 8 >> (if is_counted field then write_zero iter.p_size 4 else skip)

-- One call. `one` and `message` are the calls for extensions and submessages, `fuel` bounds the
-- number of extensions.
abbrev pub default_field :
    Descriptors
    → (FieldIter → Action)
    → (List Field → ℕ → Action)
    → ℕ
    → Option Field
    → FieldIter
    → Action
default_field descriptor one message fuel none iter = λ s. fault
default_field descriptor one message fuel (some field) iter =
    let a = atype field.type in
    if ltype field.type == Ltype.extension
    then (λ s.
        each_extension (default_extension descriptor one) fuel (load_pointer s.memory iter.p_data)
          s)
    else if a == Atype.static
    then default_static descriptor message field iter
    else if a == Atype.pointer
    then default_pointer field iter
    else skip

-- `pb_field_set_to_default`, with the depth of submessages and the number of extensions for fuel.
unfoldable pub field_set_to_default : Descriptors → ℕ → FieldIter → Action
field_set_to_default descriptor zero iter = λ s. stuck
field_set_to_default descriptor (suc depth) iter =
    let one = field_set_to_default descriptor depth in
    default_field descriptor one (each_field_of one) depth (field_at iter.start iter.pos) iter

-- `pb_message_set_to_defaults`.
unfoldable pub message_set_to_defaults : Descriptors → ℕ → List Field → ℕ → Action
message_set_to_defaults descriptor depth fields p =
    each_field_of (field_set_to_default descriptor depth) fields p
