-- ===== src/Nanopb/Message/Ends/Fields.antt =====
-- `encode_field` ends if the submessages of the field do.
use answrapp.Common.{ℕ, ◌≡◌, refl, Bool, true, not, ◌||◌, Option, none, some, ◌==◌}
use answrapp.Nanopb.Types.{Field, htype, atype}
use answrapp.Nanopb.Types.Atype
use answrapp.Nanopb.Types.Htype
use answrapp.Nanopb.Output.{Encoder, Written, done, failed, fault, stuck}
use answrapp.Nanopb.Iter.{size_address}
use answrapp.Nanopb.Memory.{shifted, load_pointer}
use answrapp.Nanopb.Message.{Context, MessageEncoder, Answer, answer}
use answrapp.Nanopb.Message
use answrapp.Nanopb.Message.Proto3.{is_proto3_default}
use answrapp.Nanopb.Message.Basic.{
  Presence, stored, implicit, has_field, which_field, array_count, value_with_tag, selected,
  encode_present, through_pointer, encode_allocated, answered, encode_basic_field,
  or_callback_error, encode_callback_field, encode_field,
}
use answrapp.Nanopb.Message.Ends.{
  Ends, return_true-Ends, raise-Ends, fault-Ends, then-Ends, if-Ends,
}
use answrapp.Nanopb.Message.Ends.Values.{SubmessagesEnd, field_tag-Ends, value-Ends, array-Ends}
use answrapp.Nanopb.Message.Ends.Defaults.{Decides}

or_callback_error-Ends : (r : Written) → (r ≡ stuck → ⊥) → or_callback_error r ≡ stuck → ⊥
or_callback_error-Ends (done t) h e = cc
or_callback_error-Ends (failed t) h e = cc
or_callback_error-Ends fault h e = cc
or_callback_error-Ends stuck h e = h refl

answered-Ends :
    (a : Answer) {k : Bool → Encoder} → Decides a → ((b : Bool) → Ends (k b)) → Ends (answered a k)
answered-Ends (answer b) h hk = hk b
answered-Ends Message.fault h hk = fault-Ends
answered-Ends Message.stuck h hk = absurd (h.decides refl)

module _ (ctx : Context) (submessage : MessageEncoder) (field : Field)
    (sub : SubmessagesEnd ctx submessage field) where
  selected-Ends : (which : Option ℕ) {m : Encoder} → Ends m → Ends (selected which field m)
  selected-Ends none h = fault-Ends
  selected-Ends (some n) h = if-Ends (n == field.tag) h return_true-Ends

  present-Ends :
      (presence : Presence) (p : ℕ) → Ends (encode_present ctx submessage field presence p)
  unfolding encode_present
  present-Ends presence p =
      let h = htype field.type in
      let one : Ends (value_with_tag ctx submessage field p) =
        then-Ends (field_tag-Ends field) (value-Ends ctx submessage field sub p) in
      if-Ends (h == Htype.required) (if-Ends (p == 0) (raise-Ends _) one) (
        if-Ends (h == Htype.optional) (if-Ends (has_field ctx presence) one return_true-Ends) (
          if-Ends (h == Htype.repeated)
            (array-Ends ctx submessage field sub p (array_count ctx field presence))
            (if-Ends (h == Htype.oneof) (selected-Ends (which_field ctx presence) one)
              (raise-Ends _))))

  allocated-Ends :
      (p : ℕ) (presence : Presence) → Ends (encode_allocated ctx submessage field p presence)
  allocated-Ends p presence =
      let target = load_pointer ctx.memory p in
      if-Ends (atype field.type == Atype.pointer)
        (present-Ends (through_pointer (not (target == 0)) presence) target)
        (present-Ends presence p)

  module _ (depth : ℕ) (decides : (p : ℕ) → Decides (is_proto3_default ctx depth field p)) where
    basic-Ends : (p : ℕ) → Ends (encode_basic_field ctx depth submessage field p)
    unfolding encode_basic_field
    basic-Ends p =
        if-Ends (not (field.size_offset == 0)) (allocated-Ends p (stored (size_address p field))) (
          if-Ends (htype field.type == Htype.optional)
            (answered-Ends (is_proto3_default ctx depth field p) (decides p)
              (λ b. allocated-Ends p (implicit (not b))))
            (allocated-Ends p (implicit true)))

    callback-Ends :
        ((e : ℕ) (f : Field) (a : ℕ) → Ends (ctx.callback e f a))
        → (p : ℕ) → Ends (encode_callback_field ctx field p)
    unfolding encode_callback_field
    callback-Ends h p = if-Ends (load_pointer ctx.memory p == 0) return_true-Ends (record {
      ends = λ s e.
          or_callback_error-Ends _ ((h (load_pointer ctx.memory p) field (shifted p 8)).ends s) e;
    })

    pub field-Ends :
        ((e : ℕ) (f : Field) (a : ℕ) → Ends (ctx.callback e f a))
        → (p : ℕ) → Ends (encode_field ctx depth submessage field p)
    unfolding encode_field
    field-Ends h p =
        let a = atype field.type in
        if-Ends (a == Atype.static || a == Atype.pointer) (basic-Ends p)
          (if-Ends (a == Atype.callback) (callback-Ends h p) (raise-Ends _))
