-- ===== src/Nanopb/Message/Consistent/Fields.antt =====
-- `encode_field`: basic fields and callbacks.
use answrapp.Common.{
  ℕ, ◌≡◌, refl, ap, inl, inr, Bool, true, not, ◌||◌, Option, none, some, ◌==◌, All,
}
use answrapp.Nanopb.Types.{Field, htype, atype, IsU32}
use answrapp.Nanopb.Types.Atype
use answrapp.Nanopb.Types.Htype
use answrapp.Nanopb.Output.{Encoder, OutStream, Written, done, failed, fault, stuck, set_error}
use answrapp.Nanopb.Types.{callback_error}
use answrapp.Nanopb.Iter.{size_address}
use answrapp.Nanopb.Memory.{shifted, load_4, load_pointer}
use answrapp.Nanopb.Message.{Context, MessageEncoder, Answer, answer}
use answrapp.Nanopb.Message
use answrapp.Nanopb.Message.Basic.{
  Presence, stored, implicit, has_field, which_field, array_count, value_with_tag, selected,
  encode_present, encode_allocated, answered, encode_basic_field, or_callback_error,
  encode_callback_field, encode_field, through_pointer,
}
use answrapp.Nanopb.Message.Proto3.{is_proto3_default}
use answrapp.Nanopb.Message.Consistent.{
  Consistent, return_true-Consistent, if-Consistent, raise-Fails, fault-Fails, stuck-Fails,
  then-Consistent,
}
use answrapp.Nanopb.Message.Consistent.Values.{
  IsField, Submessages, value-Consistent, field_tag-Consistent,
}
use answrapp.Nanopb.Message.Consistent.Arrays.{array-Consistent}

-- The descriptors are those of a program, and the functions of the user are consistent.
pub record IsContext (ctx : Context) : Type 0 where
  pub fields : (p : ℕ) → All IsField (ctx.descriptor p)
  pub callbacks : (e : ℕ) (f : Field) (a : ℕ) → Consistent (ctx.callback e f a)
  pub extensions : (e x : ℕ) → Consistent (ctx.extension e x)

or_callback_error-refuses :
    (r : Written) {t : OutStream}
    → r ≡ failed t
    → (u : OutStream) × (or_callback_error r ≡ failed u)
or_callback_error-refuses (failed t) h = (set_error callback_error t, refl)
or_callback_error-refuses (done t) h = cc
or_callback_error-refuses fault h = cc
or_callback_error-refuses stuck h = cc

or_callback_error-done : (r : Written) {t : OutStream} → or_callback_error r ≡ done t → r ≡ done t
or_callback_error-done (failed t) h = cc
or_callback_error-done (done t) h = h
or_callback_error-done fault h = cc
or_callback_error-done stuck h = cc

or_callback_error-Consistent :
    {m : Encoder} → Consistent m → Consistent (λ s. or_callback_error (m s))
or_callback_error-Consistent (inl (bytes, e)) = inl (
  bytes,
  record {
    appends = λ f err p h. ap or_callback_error (e.appends f err p h);
    refuses = λ f err p h. let (t, r) = e.refuses f err p h in or_callback_error-refuses _ r;
    sizes = λ max bw err p h. ap or_callback_error (e.sizes max bw err p h);
  },
)
or_callback_error-Consistent (inr h) =
    inr (record { never = λ f w t e. h.never f w t (or_callback_error-done _ e) })

module _ (ctx : Context) (submessage : MessageEncoder) (sub : Submessages ctx submessage)
    (field : Field) (w : IsField field) where
  tagged-Consistent : (p : ℕ) → Consistent (value_with_tag ctx submessage field p)
  tagged-Consistent p =
      then-Consistent (field_tag-Consistent field) (value-Consistent ctx submessage sub field p w)

  count-IsU32 : (presence : Presence) → IsU32 (array_count ctx field presence)
  count-IsU32 (stored p) = load_4 ctx.memory p
  count-IsU32 (implicit b) = w.array_size_fits

  selected-Consistent :
      (which : Option ℕ) {m : Encoder} → Consistent m → Consistent (selected which field m)
  selected-Consistent none c = inr fault-Fails
  selected-Consistent (some n) c = if-Consistent (n == field.tag) c return_true-Consistent

  present-Consistent :
      (presence : Presence) (p : ℕ) → Consistent (encode_present ctx submessage field presence p)
  unfolding encode_present
  present-Consistent presence p =
      let h = htype field.type in
      let one = tagged-Consistent p in
      if-Consistent (h == Htype.required) (if-Consistent (p == 0) (inr (raise-Fails _)) one) (
        if-Consistent (h == Htype.optional)
          (if-Consistent (has_field ctx presence) one return_true-Consistent)
          (if-Consistent (h == Htype.repeated)
            (array-Consistent ctx submessage field sub w (array_count ctx field presence)
              (count-IsU32 presence) p)
            (if-Consistent (h == Htype.oneof) (selected-Consistent (which_field ctx presence) one)
              (inr (raise-Fails _)))))

  allocated-Consistent :
      (p : ℕ) (presence : Presence) → Consistent (encode_allocated ctx submessage field p presence)
  allocated-Consistent p presence =
      let target = load_pointer ctx.memory p in
      if-Consistent (atype field.type == Atype.pointer)
        (present-Consistent (through_pointer (not (target == 0)) presence) target)
        (present-Consistent presence p)

  answered-Consistent :
      (a : Answer) {k : Bool → Encoder}
      → ((b : Bool) → Consistent (k b))
      → Consistent (answered a k)
  answered-Consistent (answer b) h = h b
  answered-Consistent Message.fault h = inr fault-Fails
  answered-Consistent Message.stuck h = inr stuck-Fails

  basic-Consistent : (depth p : ℕ) → Consistent (encode_basic_field ctx depth submessage field p)
  unfolding encode_basic_field
  basic-Consistent depth p =
      if-Consistent (not (field.size_offset == 0))
        (allocated-Consistent p (stored (size_address p field)))
        (if-Consistent (htype field.type == Htype.optional)
          (answered-Consistent (is_proto3_default ctx depth field p)
            (λ b. allocated-Consistent p (implicit (not b))))
          (allocated-Consistent p (implicit true)))

  callback-Consistent : IsContext ctx → (p : ℕ) → Consistent (encode_callback_field ctx field p)
  unfolding encode_callback_field
  callback-Consistent c p =
      if-Consistent (load_pointer ctx.memory p == 0) return_true-Consistent
        (or_callback_error-Consistent (c.callbacks (load_pointer ctx.memory p) field (shifted p 8)))

  pub field-Consistent :
      IsContext ctx → (depth p : ℕ) → Consistent (encode_field ctx depth submessage field p)
  unfolding encode_field
  field-Consistent c depth p =
      let a = atype field.type in
      if-Consistent (a == Atype.static || a == Atype.pointer) (basic-Consistent depth p)
        (if-Consistent (a == Atype.callback) (callback-Consistent c p) (inr (raise-Fails _)))
