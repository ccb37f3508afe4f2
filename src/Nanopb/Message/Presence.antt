-- ===== src/Nanopb/Message/Presence.antt =====
-- Which singular fields of proto3 are encoded.
use answrapp.Common.{
  ℕ, zero, suc, ◌+◌, ◌≤◌, ◌≡◌, refl, inl, inr, true, false, Bool-cases, arith, ◌==◌, if◌then◌else◌,
}
use answrapp.Nanopb.Types.{Field, ltype, htype, atype}
use answrapp.Nanopb.Types.Ltype
use answrapp.Nanopb.Types.Htype
use answrapp.Nanopb.Types.Atype
use answrapp.Nanopb.Output.{return_true}
use answrapp.Nanopb.Memory.{Memory, load, all_zero}
use answrapp.Nanopb.Message.{Context, MessageEncoder, answer}
use answrapp.Nanopb.Message.Proto3.{is_proto3_default}
use answrapp.Nanopb.Message.Basic.{value_with_tag, encode_present, encode_basic_field}

-- All bytes of a number are zero when it is.
all_zero-load : (mem : Memory) (n a : ℕ) → all_zero mem n a ≡ (load mem n a == 0)
unfolding all_zero load
all_zero-load mem zero a = refl
all_zero-load mem (suc n) a = ground (arith, all_zero-load mem n (a + 1))

module _ (ctx : Context) (submessage : MessageEncoder) (field : Field) (depth p : ℕ)
    (optional : htype field.type ≡ Htype.optional) (no_size : field.size_offset ≡ 0)
    (static : atype field.type ≡ Atype.static)
    (number : ltype field.type ≤ Ltype.last_packable) where
  number_is_default :
      is_proto3_default ctx (suc depth) field p ≡ answer (load ctx.memory field.data_size p == 0)
  unfolding is_proto3_default
  number_is_default =
      let bytes : (ltype field.type == Ltype.bytes) ≡ false = ground (arith, number) in
      let string : (ltype field.type == Ltype.string) ≡ false = ground (arith, number) in
      let fixed : (ltype field.type == Ltype.fixed_length_bytes) ≡ false = ground (arith, number) in
      let sub : (ltype field.type == Ltype.submessage) ≡ false = ground (arith, number) in
      rw (bytes, string, fixed, sub, optional, no_size, static)
        (rw (all_zero-load ctx.memory field.data_size p) refl)

  -- A singular static field of proto3 with a bool or a number is left out when all of its bytes are
  -- zero, and else written with its tag, at any depth but 0.
  pub encode_basic_field-number : encode_basic_field ctx (suc depth) submessage field p ≡ (
      if load ctx.memory field.data_size p == 0
      then return_true
      else value_with_tag ctx submessage field p)
  unfolding encode_basic_field encode_present
  encode_basic_field-number =
      let tested = number_is_default in
      let none_stored : (field.size_offset == 0) ≡ true = ground (arith, no_size) in
      elim (Bool-cases (load ctx.memory field.data_size p == 0)) [
        | inl a ↦ rw (none_stored, tested, optional, static, a) refl
        | inr a ↦ rw (none_stored, tested, optional, static, a) refl
      ]
