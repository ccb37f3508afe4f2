-- ===== src/Nanopb/Message/Consistent/Messages.antt =====
-- `pb_encode` and the functions around it: extensions, the loop over the fields, whole messages.
use answrapp.Common.{
  ℕ, zero, suc, ◌^◌, ◌<◌, ◌≡◌, refl, inr, Bool, Option, none, some, List, ◌==◌, length, All,
}
use answrapp.Nanopb.Types.{Field, ltype}
use answrapp.Nanopb.Types.Ltype
use answrapp.Nanopb.Output.{Encoder, OutStream, done, ostream_sizing}
use answrapp.Nanopb.Iter.{FieldIter, Walk, returned, field_at, iter_begin, iter_next}
use answrapp.Nanopb.Iter.Start.{field_at-All, iter_begin-StartsAt, iter_next-StartsAt}
use answrapp.Nanopb.Iter
use answrapp.Nanopb.Memory.{shifted, load_pointer}
use answrapp.Nanopb.Message.{Context, MessageEncoder}
use answrapp.Nanopb.Message.Extension.{
  extension_type, extension_next, encode_extended, default_extension_encoder, encode_extensions,
  encode_extension_field,
}
use answrapp.Nanopb.Message.Submessage.{encode_submessage}
use answrapp.Nanopb.Message.Encode.{at_field, while_more, encode_fields, encode_one, encode}
use answrapp.Nanopb.Message.Consistent.{
  Consistent, return_true-Consistent, if-Consistent, fault-Fails, stuck-Fails, then-Consistent,
}
use answrapp.Nanopb.Message.Consistent.Values.{IsField, Submessages}
use answrapp.Nanopb.Message.Consistent.Fields.{IsContext, field-Consistent}
use answrapp.Nanopb.Message.Consistent.Submessages.{encode_submessage-Consistent}

while_more-Consistent :
    (w : Walk) (k : FieldIter → Encoder)
    → ((b : Bool) (t : FieldIter) → w ≡ returned b t → Consistent (k t))
    → Consistent (while_more w k)
while_more-Consistent (returned b t) k h = if-Consistent b (h b t refl) return_true-Consistent
while_more-Consistent Iter.fault k h = inr fault-Fails
while_more-Consistent Iter.stuck k h = inr stuck-Fails

at_field-Consistent :
    (o : Option Field) {m : Field → Encoder}
    → ((f : Field) → o ≡ some f → Consistent (m f))
    → Consistent (at_field o m)
at_field-Consistent none h = inr fault-Fails
at_field-Consistent (some f) h = h f refl

module _ {one : Field → ℕ → Encoder}
    (each : (f : Field) (p : ℕ) → IsField f → Consistent (one f p)) where
  fields-Consistent :
      (rounds : ℕ) (iter : FieldIter)
      → All IsField iter.start
      → Consistent (encode_fields one rounds iter)
  unfolding encode_fields
  fields-Consistent zero iter h = inr stuck-Fails
  fields-Consistent (suc rounds) iter h =
      then-Consistent
        (at_field-Consistent (field_at iter.start iter.pos)
          (λ f e. each f iter.p_data (field_at-All IsField iter.start iter.pos h e)))
        (while_more-Consistent (iter_next iter) (encode_fields one rounds)
          (λ b t e. fields-Consistent rounds t (rw ((iter_next-StartsAt iter).kept b t e) h)))

  all_fields-Consistent :
      (fields : List Field) (rounds p : ℕ)
      → All IsField fields
      → Consistent (while_more (iter_begin fields p) (encode_fields one rounds))
  all_fields-Consistent fields rounds p h =
      while_more-Consistent (iter_begin fields p) (encode_fields one rounds)
        (λ b t e. fields-Consistent rounds t (rw ((iter_begin-StartsAt fields p).kept b t e) h))

-- No message counts up to 2 ^ 63 bytes.
abbrev pub HasSmallMessages : Context → Type 0
HasSmallMessages ctx =
    (depth p a : ℕ) (t : OutStream)
    → encode ctx depth (ctx.descriptor p) a ostream_sizing ≡ done t
    → t.bytes_written < 2 ^ 63

module _ (ctx : Context) (c : IsContext ctx) where
  module _ (depth : ℕ) (submessage : MessageEncoder) (sub : Submessages ctx submessage) where
    extended-Consistent :
        (o : Option Field) (ext : ℕ)
        → ((f : Field) → o ≡ some f → IsField f)
        → Consistent (encode_extended ctx depth submessage o ext)
    extended-Consistent none ext h = inr fault-Fails
    extended-Consistent (some f) ext h = field-Consistent ctx submessage sub f (h f refl) c depth _

    default-Consistent : (ext : ℕ) → Consistent (default_extension_encoder ctx depth submessage ext)
    unfolding default_extension_encoder
    default-Consistent ext =
        let p = load_pointer ctx.memory (shifted (extension_type ctx depth submessage ext) 16) in
        extended-Consistent (field_at (ctx.descriptor p) 0) ext
          (λ f e. field_at-All IsField (ctx.descriptor p) 0 (c.fields p) e)

    extensions-Consistent :
        (fuel ext : ℕ) → Consistent (encode_extensions ctx depth submessage fuel ext)
    unfolding encode_extensions
    extensions-Consistent zero ext = inr stuck-Fails
    extensions-Consistent (suc fuel) ext = if-Consistent (ext == 0) return_true-Consistent (
        then-Consistent
          (if-Consistent
            (load_pointer ctx.memory (shifted (extension_type ctx depth submessage ext) 8) == 0)
            (default-Consistent ext) (c.extensions _ ext))
          (extensions-Consistent fuel (extension_next ctx depth submessage ext)))

    one-Consistent :
        (f : Field) (p : ℕ) → IsField f → Consistent (encode_one ctx depth submessage f p)
    unfolding encode_one encode_extension_field
    one-Consistent f p w =
        if-Consistent (ltype f.type == Ltype.extension)
          (extensions-Consistent depth (load_pointer ctx.memory p))
          (field-Consistent ctx submessage sub f w c depth p)

  -- For certain bytes `pb_encode` appends just these on every stream into an array with room for them,
  -- fails on one without, and counts their number on every sizing stream, or else it succeeds on no
  -- stream into an array. The streams have no error and less than 2 ^ 63 bytes of `max_size`, those into
  -- an array write within it, the fields have sizes of 32 bits, the callbacks and the extension encoders of the user
  -- are consistent, and no message counts up to 2 ^ 63 bytes.
  pub encode-Consistent :
      HasSmallMessages ctx
      → (depth : ℕ) (fields : List Field) (p : ℕ) → All IsField fields
      → Consistent (encode ctx depth fields p)
  unfolding encode
  encode-Consistent small zero fields p h = inr stuck-Fails
  encode-Consistent small (suc depth) fields p h =
      let sub : Submessages ctx (encode_submessage (encode ctx depth)) = λ q a.
        encode_submessage-Consistent (encode ctx depth) (ctx.descriptor q) a
          (encode-Consistent small depth (ctx.descriptor q) a (c.fields q)) (small depth q a) in
      all_fields-Consistent (one-Consistent (suc depth) (encode_submessage (encode ctx depth)) sub)
        fields (length fields) p h
