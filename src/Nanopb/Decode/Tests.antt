-- ===== src/Nanopb/Decode/Tests.antt =====
-- Runs of the message decoder.
use answrapp.Common.{ℕ, ◌-◌, ◌^◌, ◌≡◌, refl, ◌+◌, Option, none, some, List, [], ◌∷◌, length}
use answrapp.Common.{◌≢◌, ◌∙◌, sym, arith, inl, inr, ◌++◌, All, ◌==◌, if◌then◌else◌}
use answrapp.Common.Int.{negsuc}
use answrapp.Nanopb.Types.{Field, Error, ltype}
use answrapp.Nanopb.Types.Ltype
use answrapp.Nanopb.Types
use answrapp.Nanopb.Input.{istream_from_buffer, read, fetch, readbyte}
use answrapp.Nanopb.Varint.{decode_varint, decode_varint32, decode_varint32_eof}
use answrapp.Nanopb.Varint
use answrapp.Nanopb.Scalar.{decode_tag, decode_bool}
use answrapp.Nanopb.Memory.{load, load_bytes}
use answrapp.Nanopb.Iter.{field_at, iter_begin, iter_next, iter_find, find_loop}
use answrapp.Nanopb.Struct.Fields.{each_field, each_field_of}
use answrapp.Nanopb.Struct.Defaults.{message_set_to_defaults, field_set_to_default}
use answrapp.Nanopb.Struct.Release.{release, release_single_field}
use answrapp.Nanopb.Input.{ok}
use answrapp.Nanopb.Input.Buffer.{over}
use answrapp.Nanopb.Field.{dec_uvarint, dec_varint}
use answrapp.Nanopb.Memory.{load_signed}
use answrapp.Nanopb.Iter.{FieldIter}
use answrapp.Nanopb.Message.Ends.Defaults.{Nests}
use answrapp.Nanopb.Decode
use answrapp.Nanopb.Decode.Value
use answrapp.Nanopb.Decode.Messages.{decode_delimited}
use answrapp.Nanopb.Decode.Keeps.{Keeps}
use answrapp.Nanopb.Decode.Bounds.Items.{Foreign, decode_static_field-Keeps}
use answrapp.Nanopb.Decode.Bounds.Counts.{Leaves}
use answrapp.Nanopb.Decode.Bounds.Arrays.{UpTo, Any, decode_static_field-count}
use answrapp.Nanopb.Decode.Missing.{required_fields, begun, decode_noinit-empty}
use answrapp.Nanopb.Decode.Stored.{dec_value-uvarint, dec_value-varint}
use answrapp.Nanopb.Decode.Runs.{RunPost, Anything}
use answrapp.Nanopb.Decode.Runs.Values.{IsLayered}
use answrapp.Nanopb.Decode.Runs.Rounds.{IsMessage}
use answrapp.Nanopb.Decode.Runs.Messages.{decode-RunPost}
use answrapp.Nanopb.Decode.{Machine, Outcome, done, failed, outside, fault, stuck, Context}
use answrapp.Nanopb.Decode.Value.{dec_value, dec_string, dec_bool, room}
use answrapp.Nanopb.Decode.Static.{decode_static_field, static_field}
use answrapp.Nanopb.Decode.One.{decode_field, decode_allocated}
use answrapp.Nanopb.Decode.Required.{mark_seen, seek_end, check_required}
use answrapp.Nanopb.Decode.Loop.{known_field, unknown_field, one_field, fields_loop, decode_fields}
use answrapp.Nanopb.Decode.Messages.{initialized, decode_noinit_at, decode_noinit, decode}

abbrev field : ℕ → ℕ → ℕ → ℕ → ℕ → Field
field tag type data_offset size_offset data_size = record {
  tag = tag;
  type = type;
  data_offset = data_offset;
  size_offset = size_offset;
  data_size = data_size;
  array_size = 0;
  ptr = none;
}

-- `required uint32 number = 1` and `optional string text = 2`, of three characters.
abbrev pair : List Field
pair = field 1 0x02 0 0 4 ∷ field 2 0x17 1 (2 ^ 32 - 1) 4 ∷ field 0 0 0 0 0 ∷ []

abbrev ctx : Context
ctx = record {
  descriptor = λ p. pair;
  realloc = λ ptr size store. (0, store);
  callback = λ e f a s. fault;
  extension = λ e x tag wire_type s. fault;
  frame = λ depth. 5000 + depth;
  nesting = 3;
}

-- The outcome and the bytes at an address.
abbrev seen : ℕ → ℕ → Outcome (Unit {0}) → Option (Option Error) × List ℕ
seen a count (done x s) = (none, load_bytes s.store.memory count a)
seen a count (failed s) = (some s.stream.errmsg, load_bytes s.store.memory count a)
seen a count outside = (none, [])
seen a count fault = (none, [])
seen a count stuck = (none, [])

abbrev on : List ℕ → Machine
on bytes = record {
  stream = istream_from_buffer bytes (length bytes);
  store = record { memory = λ x. 7; freed = [] };
}

pair_read :
    seen 100 8 (decode ctx pair 100 (on (0x08 ∷ 0x96 ∷ 0x01 ∷ 0x12 ∷ 0x02 ∷ 104 ∷ 105 ∷ [])))
    ≡ (none, 150 ∷ 0 ∷ 0 ∷ 0 ∷ 1 ∷ 104 ∷ 105 ∷ 0 ∷ [])
unfolding decode initialized decode_noinit decode_noinit_at decode_fields fields_loop one_field
    known_field unknown_field decode_field decode_allocated decode_static_field static_field
    dec_value Value.dec_uvarint dec_string room message_set_to_defaults field_set_to_default
    each_field each_field_of field_at iter_begin iter_next iter_find find_loop decode_tag
    decode_varint decode_varint32 decode_varint32_eof readbyte read fetch mark_seen seek_end
    check_required load Varint.varint_loop Varint.varint32_loop Varint.varint32_from
pair_read = refl

-- Without the required field.
pair_without_number :
    seen 100 1 (decode ctx pair 100 (on (0x12 ∷ 0x01 ∷ 104 ∷ [])))
    ≡ (some (some Types.missing_required), 0 ∷ [])
unfolding release release_single_field decode initialized decode_noinit decode_noinit_at
    decode_fields fields_loop one_field known_field unknown_field decode_field decode_allocated
    decode_static_field static_field dec_value Value.dec_uvarint dec_string room
    message_set_to_defaults field_set_to_default each_field each_field_of field_at iter_begin
    iter_next iter_find find_loop decode_tag decode_varint decode_varint32 decode_varint32_eof
    readbyte read fetch mark_seen seek_end check_required load Varint.varint_loop
    Varint.varint32_loop Varint.varint32_from
pair_without_number = refl

-- A field with number 0 in a message without fields: it is taken for the terminator of the
-- descriptor, and decoded as a bool in the structure.
empty_message_zero :
    seen 100 2 (decode ctx (field 0 0 0 0 0 ∷ []) 100 (on (0x01 ∷ 0x05 ∷ []))) ≡ (none, 1 ∷ 7 ∷ [])
unfolding decode initialized decode_noinit decode_noinit_at decode_fields fields_loop one_field
    known_field unknown_field decode_field decode_allocated decode_static_field static_field
    dec_value Value.dec_uvarint dec_string room message_set_to_defaults field_set_to_default
    each_field each_field_of field_at iter_begin iter_next iter_find find_loop decode_tag
    decode_varint decode_varint32 decode_varint32_eof readbyte read fetch mark_seen seek_end
    check_required load Varint.varint_loop Varint.varint32_loop Varint.varint32_from dec_bool
    decode_bool
empty_message_zero = refl

-- `own` and `end` of the message `pair`.
abbrev number_field : Field
number_field = field 1 0x02 0 0 4

abbrev text_field : Field
text_field = field 2 0x17 1 (2 ^ 32 - 1) 4

abbrev last_field : Field
last_field = field 0 0 0 0 0

plain_Nests :
    (r : ℕ) (f : Field) → ltype f.type ≢ Ltype.extension → f.ptr ≡ none → Nests (λ p. 0) r f
plain_Nests r f h e = (h, λ q eq is_submessage. let impossible : none ≡ some q = sym e ∙ eq in cc)

pair-Nests : All (Nests (λ p. 0) 0) pair
pair-Nests = (
  plain_Nests 0 number_field (omega arith) refl,
  (plain_Nests 0 text_field (omega arith) refl, (plain_Nests 0 last_field (omega arith) refl, tt)),
)

ctx-IsLayered : IsLayered ctx (λ p. 0)
ctx-IsLayered = record {
  nested = λ p. pair-Nests;
  deep = λ p. omega arith;
  shaped = λ p. record {
    own = number_field ∷ text_field ∷ [];
    end = last_field;
    shape = refl;
    tagged = (omega arith, (omega arith, tt));
    ended = refl;
  };
  callbacks = λ e f a. record { reads = λ s v. tt };
}

pair-IsMessage : IsMessage ctx (λ p. 0) (number_field ∷ text_field ∷ []) last_field
pair-IsMessage = record {
  tagged = (omega arith, (omega arith, tt));
  ended = refl;
  layer = (0, omega arith, pair-Nests);
}

abbrev some_bytes : List ℕ
some_bytes = 0x08 ∷ 0x96 ∷ 0x01 ∷ 0x12 ∷ 0x02 ∷ 104 ∷ 105 ∷ []

decode-RunPost_example :
    RunPost 0 Anything
      (on some_bytes).stream
      (decode ctx ((number_field ∷ text_field ∷ []) ++ last_field ∷ []) 100 (on some_bytes))
    × RunPost 1 Anything (on some_bytes).stream (
        decode_delimited ctx
          ((number_field ∷ text_field ∷ []) ++ last_field ∷ [])
          100
          (on some_bytes))
decode-RunPost_example =
    decode-RunPost ctx (λ p. 0) ctx-IsLayered (number_field ∷ text_field ∷ []) last_field 100
      (on some_bytes) pair-IsMessage (record { serves = omega arith; fits = omega arith })

-- An array of three uint32, its count behind it.
abbrev array_field : Field
array_field = record {
  tag = 3;
  type = 0x22;
  data_offset = 0;
  size_offset = 12;
  data_size = 4;
  array_size = 3;
  ptr = none;
}

abbrev array_iter : FieldIter
array_iter = record {
  start = array_field ∷ last_field ∷ [];
  pos = 0;
  required_field_index = 0;
  dest_struct = 200;
  p_data = 200;
  p_size = 212;
}

decode_static_field-Keeps_example :
    Keeps
      (Foreign array_field array_iter)
      (decode_static_field ctx (decode ctx) (decode_noinit ctx) 2 array_field array_iter)
decode_static_field-Keeps_example =
    decode_static_field-Keeps ctx (decode ctx) (decode_noinit ctx) array_field array_iter refl
      (omega arith) (record { bool = λ e. cc; fixed32 = λ e. cc; fixed64 = λ e. cc }) 2
      (omega arith) (omega arith)

-- Two items that are packed, for an array that has none.
abbrev zeroed : Machine
zeroed = record {
  stream = istream_from_buffer (0x02 ∷ 0x05 ∷ 0x07 ∷ []) 3;
  store = record { memory = λ x. 0; freed = [] };
}

decode_static_field-count_example :
    Leaves 212
      (UpTo 0 array_field)
      Any
      (decode_static_field ctx (decode ctx) (decode_noinit ctx) 2 array_field array_iter zeroed)
unfolding load
decode_static_field-count_example =
    decode_static_field-count ctx (decode ctx) (decode_noinit ctx) array_field array_iter 2 zeroed
      refl refl (omega arith) (record { bool = λ e. cc; fixed32 = λ e. cc; fixed64 = λ e. cc })
      (omega arith) (omega arith) (omega arith) (inl (omega arith)) (omega arith)

decode_noinit-empty_example :
    decode_noinit ctx (number_field ∷ ((text_field ∷ []) ++ last_field ∷ [])) 100 (on [])
    ≡ (if required_fields (number_field ∷ text_field ∷ []) == 0
          then Decode.pure tt
          else Decode.raise Types.missing_required)
        (begun ctx (on []))
decode_noinit-empty_example =
    decode_noinit-empty ctx number_field (text_field ∷ []) last_field 100 (on [])
      (omega arith, (omega arith, tt)) refl (omega arith) refl

-- 150 in a field of four bytes, and -1 in one of two.
read_150 : dec_uvarint number_field (on (0x96 ∷ 0x01 ∷ [])).stream ≡ ok 150 (over [] 0 none)
unfolding dec_uvarint decode_varint readbyte fetch Varint.varint_loop
read_150 = refl

dec_value-uvarint_example :
    (m : Machine) × (dec_value ctx
        (decode ctx)
        (decode_noinit ctx)
        number_field
        100
        (on (0x96 ∷ 0x01 ∷ []))
      ≡ done tt m)
    × (m.stream ≡ over [] 0 none)
    × (load m.store.memory 4 100 ≡ 150)
dec_value-uvarint_example =
    dec_value-uvarint ctx (decode ctx) (decode_noinit ctx) number_field 100 (on (0x96 ∷ 0x01 ∷ []))
      (over [] 0 none) (inr (inr (inl refl))) 150 refl (omega arith) read_150

abbrev short_field : Field
short_field = field 4 0x01 0 0 2

abbrev minus_one : List ℕ
minus_one = 0xff ∷ 0xff ∷ 0xff ∷ 0xff ∷ 0xff ∷ 0xff ∷ 0xff ∷ 0xff ∷ 0xff ∷ 0x01 ∷ []

read_minus_one : dec_varint short_field (on minus_one).stream ≡ ok (negsuc 0) (over [] 0 none)
unfolding dec_varint decode_varint readbyte fetch Varint.varint_loop
read_minus_one = refl

dec_value-varint_example :
    (m : Machine) × (dec_value ctx (decode ctx) (decode_noinit ctx) short_field 100 (on minus_one)
      ≡ done tt m)
    × (m.stream ≡ over [] 0 none)
    × (load_signed m.store.memory 2 100 ≡ negsuc 0)
dec_value-varint_example =
    dec_value-varint ctx (decode ctx) (decode_noinit ctx) short_field 100 (on minus_one)
      (over [] 0 none) (inr (inl refl)) (negsuc 0) refl (omega arith) read_minus_one
