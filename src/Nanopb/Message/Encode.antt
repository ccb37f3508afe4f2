-- ===== src/Nanopb/Message/Encode.antt =====
-- `pb_encode`, `pb_encode_delimited`, `pb_encode_nullterminated` and `pb_get_encoded_size` of pb_encode.c.
use answrapp.Common.{ℕ, zero, suc, Option, none, some, List, [], ◌∷◌, ◌==◌, if◌then◌else◌, length}
use answrapp.Nanopb.Types.{Field, ltype}
use answrapp.Nanopb.Types.Ltype
use answrapp.Nanopb.Output.{
  Written, done, failed, fault, stuck, Encoder, ◌>>◌, return_true, write, ostream_sizing,
}
use answrapp.Nanopb.Iter.{FieldIter, Walk, field_at, iter_begin, iter_next}
use answrapp.Nanopb.Iter
use answrapp.Nanopb.Message.{Context, MessageEncoder}
use answrapp.Nanopb.Message.Basic.{encode_field}
use answrapp.Nanopb.Message.Extension.{encode_extension_field}
use answrapp.Nanopb.Message.Submessage.{encode_submessage}

abbrev pub at_field : Option Field → (Field → Encoder) → Encoder
at_field none m = λ s. fault
at_field (some f) m = m f

abbrev pub while_more : Walk → (FieldIter → Encoder) → Encoder
while_more (Iter.returned more iter) k = if more then k iter else return_true
while_more Iter.fault k = λ s. fault
while_more Iter.stuck k = λ s. stuck

-- The loop over the fields.
unfoldable pub encode_fields : (Field → ℕ → Encoder) → ℕ → FieldIter → Encoder
encode_fields one zero iter = λ s. stuck
encode_fields one (suc rounds) iter =
    at_field (field_at iter.start iter.pos) (λ f. one f iter.p_data)
    >> while_more (iter_next iter) (encode_fields one rounds)

-- An extension placeholder or a regular field.
unfoldable pub encode_one : Context → ℕ → MessageEncoder → Field → ℕ → Encoder
encode_one ctx depth submessage field p =
    if ltype field.type == Ltype.extension
    then encode_extension_field ctx depth submessage depth p
    else encode_field ctx depth submessage field p

-- `pb_encode`. `depth` is the fuel for the nesting of submessages and for a list of extensions.
unfoldable pub encode : Context → ℕ → MessageEncoder
encode ctx zero fields p = λ s. stuck
encode ctx (suc depth) fields p = while_more (iter_begin fields p) (
    encode_fields (encode_one ctx (suc depth) (encode_submessage (encode ctx depth)))
      (length fields))

-- `pb_encode_delimited`.
unfoldable pub encode_delimited : Context → ℕ → MessageEncoder
encode_delimited ctx depth = encode_submessage (encode ctx depth)

-- `pb_encode_nullterminated`.
unfoldable pub encode_nullterminated : Context → ℕ → MessageEncoder
encode_nullterminated ctx depth fields p = encode ctx depth fields p >> write (0 ∷ [])

-- `pb_get_encoded_size`: the count of a sizing stream, `none` where it returns false.
abbrev counted : Written → Option ℕ
counted (done t) = some t.bytes_written
counted (failed t) = none
counted fault = none
counted stuck = none

unfoldable pub get_encoded_size : Context → ℕ → List Field → ℕ → Option ℕ
get_encoded_size ctx depth fields p = counted (encode ctx depth fields p ostream_sizing)
