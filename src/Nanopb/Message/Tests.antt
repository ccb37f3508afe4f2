-- ===== src/Nanopb/Message/Tests.antt =====
-- The theorems on whole messages at a concrete message.
use answrapp.Common.{
  ℕ, zero, suc, ◌+◌, ◌^◌, ◌<◌, ◌≡◌, ◌≢◌, refl, ap, Option, none, some, List, [], ◌∷◌, ◌++◌, arith,
  ◌==◌, if◌then◌else◌, length, All,
}
use answrapp.Nanopb.Types.{Field, ltype, wt_string}
use answrapp.Nanopb.Types.Ltype
use answrapp.Nanopb.Input.{read, and_then}
use answrapp.Nanopb.Input.Parses.{Parses, read-Parses}
use answrapp.Nanopb.Substream.{make_string_substream, inside}
use answrapp.Nanopb.Output.{
  OutStream, done, return_true, ostream_sizing, ◌>>◌, write, write_null, store,
}
use answrapp.Nanopb.Output.Bounds.{into, Fits}
use answrapp.Nanopb.Output.Emits.{EmitsFrom, Emits-EmitsFrom, then-Emits, return_true-EmitsFrom}
use answrapp.Nanopb.Varint.Format.{varint}
use answrapp.Nanopb.Scalar.Encode.{
  encode_varint, tag_number, encode_tag, encode_tag_for_field, wire_type_of,
}
use answrapp.Nanopb.Field.Encode.{enc_uvarint}
use answrapp.Nanopb.Varint.{varint_bytes, varint_groups, clear_last}
use answrapp.Nanopb.Scalar.RoundTrip.{encode_varint-Emits}
use answrapp.Nanopb.Memory.{Memory, load}
use answrapp.Nanopb.Message.{Context}
use answrapp.Nanopb.Message.Array.{encode_packed, encode_array, encode_items}
use answrapp.Nanopb.Message.Basic.{encode_basic_field, encode_field, encode_present, value_with_tag}
use answrapp.Nanopb.Message.Value.{encode_value}
use answrapp.Nanopb.Iter.{iter_begin, iter_next, field_at}
use answrapp.Nanopb.Message.Submessage.{encode_submessage, second_pass}
use answrapp.Nanopb.Message.Encode.{
  encode, encode_fields, encode_one, encode_delimited, get_encoded_size,
}
use answrapp.Nanopb.Message.Consistent.{Fresh, Consistent, return_true-Consistent}
use answrapp.Nanopb.Message.Consistent.Values.{IsField}
use answrapp.Nanopb.Message.Consistent.Fields.{IsContext}
use answrapp.Nanopb.Message.Consistent.Messages.{HasSmallMessages, encode-Consistent}
use answrapp.Nanopb.Message.Consistent.Submessages.{encode_submessage-EmitsFrom}
use answrapp.Nanopb.Message.Ends.{Ends, return_true-Ends}
use answrapp.Nanopb.Message.Ends.Defaults.{Nests, IsLayered}
use answrapp.Nanopb.Message.Ends.Messages.{encode-Ends}
use answrapp.Nanopb.Message.Sizes.{
  get_encoded_size_lem, encode_packed-EmitsFrom, delimited_round_trip,
}
use answrapp.Nanopb.Message.Presence.{encode_basic_field-number}

abbrev field_of : ℕ → ℕ → ℕ → ℕ → Option ℕ → Field
field_of tag type data_size array_size ptr = record {
  tag = tag;
  type = type;
  data_offset = 0;
  size_offset = 0;
  data_size = data_size;
  array_size = array_size;
  ptr = ptr;
}

abbrev last_field : Field
last_field = field_of 0 0 0 0 none

-- A number, an array of two small numbers and a message without fields.
abbrev number_field : Field
number_field = field_of 1 0x02 4 0 none

abbrev point : List Field
point = number_field ∷ field_of 2 0x22 1 2 none ∷ field_of 3 0x08 1 0 (some 7) ∷ last_field ∷ []

-- The bytes from address 100 on.
abbrev memory : Memory
memory a = if a == 100 then 150 else if a == 104 then 5 else if a == 105 then 6 else 0

abbrev context : Context
context = record {
  memory = memory;
  descriptor = λ p. last_field ∷ [];
  callback = λ e f a. return_true;
  extension = λ e x. return_true;
}

abbrev encoded : List ℕ
encoded = 0x08 ∷ 0x96 ∷ 0x01 ∷ 0x12 ∷ 0x02 ∷ 0x05 ∷ 0x06 ∷ 0x1a ∷ 0x00 ∷ []

encode-point : encode context 2 point 100 (into 20 [] 20 0 none) ≡ done (into 20 encoded 20 9 none)
unfolding encode encode_fields encode_one encode_field encode_basic_field encode_present
    encode_array encode_packed encode_items encode_value encode_submessage second_pass
    encode_tag_for_field wire_type_of encode_tag encode_varint varint_bytes varint_groups clear_last
    enc_uvarint iter_begin iter_next field_at write write_null store load
encode-point = refl

point-IsField : All IsField point
point-IsField = omega arith

context-IsContext : IsContext context
context-IsContext = record {
  fields = λ p. omega arith;
  callbacks = λ e f a. return_true-Consistent;
  extensions = λ e x. return_true-Consistent;
}

context-HasSmallMessages : HasSmallMessages context
unfolding encode iter_begin field_at
context-HasSmallMessages zero p a t e = cc
context-HasSmallMessages (suc depth) p a t e =
    let same : t ≡ ostream_sizing = cc in
    omega (arith, ap (λ (u : OutStream). u.bytes_written) same)

twenty-Fits : Fits 20 [] 20 0
twenty-Fits = record { counted = omega arith; room = omega arith; word = omega arith }

encode-Consistent_example : Consistent (encode context 2 point 100)
encode-Consistent_example =
    encode-Consistent context context-IsContext context-HasSmallMessages 2 point 100 point-IsField

get_encoded_size_lem_example :
    (bytes : List ℕ) × (into 20 encoded 20 9 none
      ≡ into 20 ([] ++ bytes) 20 (0 + length bytes) none)
    × (get_encoded_size context 2 point 100 ≡ some (length bytes))
    × EmitsFrom Fresh (encode context 2 point 100) bytes
get_encoded_size_lem_example =
    get_encoded_size_lem context context-IsContext context-HasSmallMessages 2 point 100
      point-IsField twenty-Fits (omega arith) encode-point

abbrev rank : ℕ → ℕ
rank p = 0

plain-Nests :
    (tag type data_size array_size r : ℕ)
    → ltype type ≢ Ltype.extension
    → Nests rank r (field_of tag type data_size array_size none)
plain-Nests tag type data_size array_size r h = (h, λ q e is. cc)

context-IsLayered : IsLayered context rank
context-IsLayered = record {
  nested = λ p. (plain-Nests 0 0 0 0 0 (omega arith), tt);
  callbacks = λ e f a. return_true-Ends;
}

point-Nests : All (Nests rank 1) point
point-Nests = (
  plain-Nests 1 0x02 4 0 1 (omega arith),
  (
    plain-Nests 2 0x22 1 2 1 (omega arith),
    (
      ((λ e. absurd (omega arith)), λ q e is. omega arith),
      (plain-Nests 0 0 0 0 1 (omega arith), tt),
    ),
  ),
)

encode-Ends_example : Ends (encode context 2 point 100)
encode-Ends_example =
    encode-Ends context rank context-IsLayered 2 1 point 100 (omega arith) point-Nests

-- The message with the number only.
abbrev single : List Field
single = number_field ∷ last_field ∷ []

encode-single : EmitsFrom Fresh (encode context 1 single 100) (0x08 ∷ 0x96 ∷ 0x01 ∷ [])
unfolding encode encode_fields encode_one encode_field encode_basic_field encode_present
    encode_value encode_tag_for_field wire_type_of encode_tag enc_uvarint iter_begin iter_next
    field_at load varint
encode-single =
    then-Emits
      (then-Emits (Emits-EmitsFrom Fresh (encode_varint-Emits 8 (omega arith)))
        (Emits-EmitsFrom Fresh (encode_varint-Emits 150 (omega arith))))
      (return_true-EmitsFrom Fresh)

encode_submessage-EmitsFrom_example :
    EmitsFrom Fresh
      (encode_submessage (encode context 1) single 100)
      (varint 9 3 ++ 0x08 ∷ 0x96 ∷ 0x01 ∷ [])
encode_submessage-EmitsFrom_example =
    encode_submessage-EmitsFrom (encode context 1) single 100 (0x08 ∷ 0x96 ∷ 0x01 ∷ [])
      encode-single (omega arith)

delimited_round_trip_example :
    (delimited : List ℕ) × EmitsFrom Fresh (encode_delimited context 1 single 100) delimited
    × Parses
        (λ s. and_then (make_string_substream s) (inside (read 3)))
        delimited
        (0x08 ∷ 0x96 ∷ 0x01 ∷ [])
delimited_round_trip_example =
    delimited_round_trip context 1 single 100 (0x08 ∷ 0x96 ∷ 0x01 ∷ []) encode-single (omega arith)
      (read 3) (0x08 ∷ 0x96 ∷ 0x01 ∷ []) (read-Parses (0x08 ∷ 0x96 ∷ 0x01 ∷ []))

two_numbers : length (varint 9 5 ++ varint 9 6) < 2 ^ 63
unfolding varint
two_numbers = omega arith

encode_packed-EmitsFrom_example :
    EmitsFrom Fresh
      (encode_packed (field_of 2 0x22 1 2 none) 2 (encode_varint 5 >> encode_varint 6))
      (varint 9 (tag_number wt_string 2)
        ++ (varint 9 (length (varint 9 5 ++ varint 9 6)) ++ (varint 9 5 ++ varint 9 6)))
encode_packed-EmitsFrom_example =
    encode_packed-EmitsFrom (field_of 2 0x22 1 2 none) 2 (encode_varint 5 >> encode_varint 6)
      (varint 9 5 ++ varint 9 6) (omega arith) (omega arith) (omega arith)
      (Emits-EmitsFrom Fresh
        (then-Emits (encode_varint-Emits 5 (omega arith)) (encode_varint-Emits 6 (omega arith))))
      two_numbers

-- A singular number of proto3, which is not zero.
encode_basic_field-number_example :
    encode_basic_field context 1 (encode context 0) (field_of 1 0x12 4 0 none) 100 ≡ (
      if load memory 4 100 == 0
      then return_true
      else value_with_tag context (encode context 0) (field_of 1 0x12 4 0 none) 100)
encode_basic_field-number_example =
    encode_basic_field-number context (encode context 0) (field_of 1 0x12 4 0 none) 0 100 refl refl
      refl (omega arith)
