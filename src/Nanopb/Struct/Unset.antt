-- ===== src/Nanopb/Struct/Unset.antt =====
-- The defaults of pb_decode.c against the encoder.
use answrapp.Common.{ℕ, zero, suc, ◌+◌, ◌≤◌, ◌≡◌, refl, ◌∙◌, true, false, none, some, arith, ◌==◌}
use answrapp.Nanopb.Types.{Field, ltype, htype, atype}
use answrapp.Nanopb.Types.Ltype
use answrapp.Nanopb.Types.Htype
use answrapp.Nanopb.Types.Atype
use answrapp.Nanopb.Iter.{FieldIter, field_at}
use answrapp.Nanopb.Output.{return_true}
use answrapp.Nanopb.Memory.{Memory, load}
use answrapp.Nanopb.Message.{Context, MessageEncoder}
use answrapp.Nanopb.Message.Basic.{encode_basic_field}
use answrapp.Nanopb.Message.Presence.{encode_basic_field-number}
use answrapp.Nanopb.Struct.{Store, changed, overwrite, write_zero}
use answrapp.Nanopb.Struct.Fields.{Descriptors}
use answrapp.Nanopb.Struct.Defaults.{field_set_to_default}

pub load-overwrite :
    (mem : Memory) (a count n p : ℕ)
    → a ≤ p
    → p + n ≤ a + count
    → load (overwrite a count (λ i. 0) mem) n p ≡ 0
unfolding load
load-overwrite mem a count zero p h fits = refl
load-overwrite mem a count (suc n) p h fits =
    ground (arith, load-overwrite mem a count n (p + 1) (omega arith) (omega arith))

module _ (descriptor : Descriptors) (depth : ℕ) (iter : FieldIter) (field : Field) (s : Store)
    (here : field_at iter.start iter.pos ≡ some field) (no_has : iter.p_size ≡ iter.p_data)
    (optional : htype field.type ≡ Htype.optional) (static : atype field.type ≡ Atype.static)
    (number : ltype field.type ≤ Ltype.last_packable) (no_default : field.ptr ≡ none) where
  zeroed :
      field_set_to_default descriptor (suc depth) iter s ≡ write_zero iter.p_data field.data_size s
  unfolding field_set_to_default
  zeroed =
      let no_extension : (ltype field.type == Ltype.extension) ≡ false = ground (arith, number) in
      let no_submessage : (ltype field.type == Ltype.submessage) ≡ false = ground (arith, number) in
      let same : (iter.p_size == iter.p_data) ≡ true = ground (arith, no_has) in
      rw (here, no_extension, no_submessage, same, optional, static, no_default) refl

  -- `pb_field_set_to_default` on a singular static proto3 field with a bool or a number, without a
  -- default value, zeroes the field and frees nothing; from the memory that it leaves,
  -- `encode_basic_field` writes nothing for the field.
  pub encode_basic_field-field_set_to_default :
      (ctx : Context) (submessage : MessageEncoder) (fuel : ℕ)
      → field.size_offset ≡ 0
      → (t : Store) × (field_set_to_default descriptor (suc depth) iter s ≡ changed t)
        × (t.freed ≡ s.freed)
        × (encode_basic_field
              (record ctx { memory = t.memory })
              (suc fuel)
              submessage
              field
              iter.p_data
            ≡ return_true)
  encode_basic_field-field_set_to_default ctx submessage fuel no_size =
      let mem = overwrite iter.p_data field.data_size (λ i. 0) s.memory in
      let zero_number : (load mem field.data_size iter.p_data == 0) ≡ true = ground (
        arith,
        load-overwrite s.memory iter.p_data field.data_size field.data_size iter.p_data
            (omega arith) (omega arith),
      ) in
      (
        record { memory = mem; freed = s.freed },
        zeroed,
        refl,
        encode_basic_field-number (record ctx { memory = mem }) submessage field fuel iter.p_data
              optional no_size static number
            ∙ rw zero_number refl,
      )
