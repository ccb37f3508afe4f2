-- ===== src/Nanopb/Message/Proto3.antt =====
-- `pb_check_proto3_default_value` of pb_encode.c: does a field hold the value that is not encoded?
use answrapp.Common.{
  ℕ, zero, suc, true, false, not, ◌&&◌, Option, none, some, ltb, ◌==◌, if◌then◌else◌, length,
}
use answrapp.Nanopb.Types.{Field, ltype, htype, atype}
use answrapp.Nanopb.Types.Ltype
use answrapp.Nanopb.Types.Htype
use answrapp.Nanopb.Types.Atype
use answrapp.Nanopb.Iter.{FieldIter, Walk, field_at, size_address, iter_begin, iter_next}
use answrapp.Nanopb.Iter
use answrapp.Nanopb.Memory.{load, load_pointer, byte_at, read_bool, all_zero}
use answrapp.Nanopb.Message.{Context, Answer, answer, fault, stuck}

abbrev pub after_next : Walk → (FieldIter → Answer) → Answer
after_next (Iter.returned more iter) k = if more then k iter else answer true
after_next Iter.fault k = fault
after_next Iter.stuck k = stuck

abbrev pub and_also : Answer → Answer → Answer
and_also (answer b) more = if b then more else answer false
and_also fault more = fault
and_also stuck more = stuck

abbrev pub check_at : Option Field → (Field → Answer) → Answer
check_at none check = fault
check_at (some f) check = check f

-- The loop over the fields of a submessage.
unfoldable pub all_default : (Field → ℕ → Answer) → ℕ → FieldIter → Answer
all_default check zero iter = stuck
all_default check (suc rounds) iter =
    and_also (check_at (field_at iter.start iter.pos) (λ f. check f iter.p_data))
      (after_next (iter_next iter) (all_default check rounds))

abbrev pub all_from : (Field → ℕ → Answer) → Walk → Answer
all_from check (Iter.returned more iter) =
    if more then all_default check (length iter.start) iter else answer true
all_from check Iter.fault = fault
all_from check Iter.stuck = stuck

-- The fields of the submessage at `p`; NULL for their descriptor is read through.
abbrev pub submessage_is_default : Context → (Field → ℕ → Answer) → Field → ℕ → Answer
submessage_is_default ctx check field p = elim field.ptr [
  | none ↦ fault
  | some fields ↦ all_from check (iter_begin (ctx.descriptor fields) p)
]

-- The last branches: a pointer, or bytes that are all zero.
abbrev pub plain_is_default : Context → Field → ℕ → Answer
plain_is_default ctx field p =
    if atype field.type == Atype.pointer && ltb Ltype.last_packable (ltype field.type)
    then answer (load_pointer ctx.memory p == 0)
    else answer (all_zero ctx.memory field.data_size p)

-- Singular fields of proto3.
abbrev pub singular_is_default : Context → (Field → ℕ → Answer) → Field → ℕ → Answer
singular_is_default ctx check field p =
    let l = ltype field.type in
    if not (atype field.type == Atype.static)
    then plain_is_default ctx field p
    else if l == Ltype.bytes
    then answer (load ctx.memory 4 p == 0)
    else if l == Ltype.string
    then answer (byte_at ctx.memory p == 0)
    else if l == Ltype.fixed_length_bytes
    then answer (field.data_size == 0)
    else if l == Ltype.submessage
    then submessage_is_default ctx check field p
    else plain_is_default ctx field p

-- One call; `check` is the call for the fields of a submessage.
abbrev pub check_field : Context → (Field → ℕ → Answer) → Field → ℕ → Answer
check_field ctx check field p =
    let h = htype field.type in
    let size = size_address p field in
    if h == Htype.required
    then answer false
    else if h == Htype.repeated && not (field.size_offset == 0)
    then answer (load ctx.memory 4 size == 0)
    else if h == Htype.repeated && atype field.type == Atype.static
    then answer false
    else if h == Htype.oneof
    then answer (load ctx.memory 4 size == 0)
    else if h == Htype.optional && not (field.size_offset == 0)
    then answer (not (read_bool ctx.memory size))
    else singular_is_default ctx check field p

-- `pb_check_proto3_default_value`, with the depth of submessages for fuel.
unfoldable pub is_proto3_default : Context → ℕ → Field → ℕ → Answer
unfolding all_default
is_proto3_default ctx zero field p = stuck
is_proto3_default ctx (suc depth) field p = check_field ctx (is_proto3_default ctx depth) field p
