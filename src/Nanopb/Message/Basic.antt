-- ===== src/Nanopb/Message/Basic.antt =====
-- `encode_basic_field`, `encode_callback_field` and `encode_field` of pb_encode.c.
use answrapp.Common.{ℕ, Bool, true, not, ◌||◌, Option, none, some, ◌==◌, if◌then◌else◌}
use answrapp.Nanopb.Types.{
  Field, htype, atype, invalid_field_type, missing_required, callback_error,
}
use answrapp.Nanopb.Types.Htype
use answrapp.Nanopb.Types.Atype
use answrapp.Nanopb.Output.{Written, done, failed, fault, stuck, Encoder, ◌>>◌, return_true, raise}
use answrapp.Nanopb.Scalar.Encode.{encode_tag_for_field}
use answrapp.Nanopb.Iter.{size_address}
use answrapp.Nanopb.Memory.{shifted, load, load_pointer, read_bool}
use answrapp.Nanopb.Message.{Context, MessageEncoder, Answer, answer}
use answrapp.Nanopb.Message
use answrapp.Nanopb.Message.Value.{encode_value}
use answrapp.Nanopb.Message.Array.{encode_array}
use answrapp.Nanopb.Message.Proto3.{is_proto3_default}

-- What `pSize` points to: an address in the structure, or the variable `implicit_has`.
pub data Presence : Type 0 where
  stored : ℕ → Presence
  implicit : Bool → Presence

abbrev pub has_field : Context → Presence → Bool
has_field ctx (stored p) = read_bool ctx.memory p
has_field ctx (implicit b) = b

-- `*(const pb_size_t*)pSize`. The variable `implicit_has` has less than the four bytes.
abbrev pub which_field : Context → Presence → Option ℕ
which_field ctx (stored p) = some (load ctx.memory 4 p)
which_field ctx (implicit b) = none

abbrev pub array_count : Context → Field → Presence → ℕ
array_count ctx field (stored p) = load ctx.memory 4 p
array_count ctx field (implicit b) = field.array_size

abbrev pub value_with_tag : Context → MessageEncoder → Field → ℕ → Encoder
value_with_tag ctx submessage field p =
    encode_tag_for_field field >> encode_value ctx submessage field p

abbrev pub selected : Option ℕ → Field → Encoder → Encoder
selected none field m = λ s. fault
selected (some which) field m = if which == field.tag then m else return_true

-- The `switch`, for the data at `p`.
unfoldable pub encode_present : Context → MessageEncoder → Field → Presence → ℕ → Encoder
encode_present ctx submessage field presence p =
    let h = htype field.type in
    let one = value_with_tag ctx submessage field p in
    if h == Htype.required
    then (if p == 0 then raise missing_required else one)
    else if h == Htype.optional
    then (if has_field ctx presence then one else return_true)
    else if h == Htype.repeated
    then encode_array ctx submessage field p (array_count ctx field presence)
    else if h == Htype.oneof
    then selected (which_field ctx presence) field one
    else raise invalid_field_type

-- Behind a pointer field `implicit_has` says whether the pointer is not NULL.
abbrev pub through_pointer : Bool → Presence → Presence
through_pointer b (stored p) = stored p
through_pointer b (implicit _) = implicit b

abbrev pub encode_allocated : Context → MessageEncoder → Field → ℕ → Presence → Encoder
encode_allocated ctx submessage field p presence =
    if atype field.type == Atype.pointer
    then (let target = load_pointer ctx.memory p in
        encode_present ctx submessage field (through_pointer (not (target == 0)) presence) target)
    else encode_present ctx submessage field presence p

-- What a test says, or how it fails.
abbrev pub answered : Answer → (Bool → Encoder) → Encoder
answered (answer b) k = k b
answered Message.fault k = λ s. fault
answered Message.stuck k = λ s. stuck

-- `encode_basic_field`.
unfoldable pub encode_basic_field : Context → ℕ → MessageEncoder → Field → ℕ → Encoder
encode_basic_field ctx depth submessage field p =
    let k = encode_allocated ctx submessage field p in
    if not (field.size_offset == 0)
    then k (stored (size_address p field))
    else if htype field.type == Htype.optional
    then answered (is_proto3_default ctx depth field p) (λ b. k (implicit (not b)))
    else k (implicit true)

-- A callback's failure is reported as one.
abbrev pub or_callback_error : Written → Written
or_callback_error (failed t) = raise callback_error t
or_callback_error (done t) = done t
or_callback_error fault = fault
or_callback_error stuck = stuck

-- `encode_callback_field`: `pb_callback_t` holds the function and, behind it, `arg`.
unfoldable pub encode_callback_field : Context → Field → ℕ → Encoder
encode_callback_field ctx field p =
    let encode = load_pointer ctx.memory p in
    if encode == 0
    then return_true
    else (λ s. or_callback_error (ctx.callback encode field (shifted p 8) s))

-- `encode_field`.
unfoldable pub encode_field : Context → ℕ → MessageEncoder → Field → ℕ → Encoder
encode_field ctx depth submessage field p =
    let a = atype field.type in
    if a == Atype.static || a == Atype.pointer
    then encode_basic_field ctx depth submessage field p
    else if a == Atype.callback
    then encode_callback_field ctx field p
    else raise invalid_field_type
