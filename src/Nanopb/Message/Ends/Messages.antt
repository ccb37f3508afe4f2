-- ===== src/Nanopb/Message/Ends/Messages.antt =====
-- `pb_encode` ends if messages are nested in a finite order.
use answrapp.Common.{
  ℕ, zero, suc, ◌+◌, ◌≤◌, ◌<◌, ◌≡◌, refl, true, false, Option, none, some, List, arith, ◌==◌,
  length, All, ltb, ◌%◌, ◌^◌,
}
use answrapp.Nanopb.Types.{Field, ltype}
use answrapp.Nanopb.Types.Ltype
use answrapp.Nanopb.Output.{
  Encoder, OutStream, Written, done, failed, fault, stuck, ostream_sizing, is_sizing,
}
use answrapp.Nanopb.Iter.{FieldIter, Walk, returned, field_at, iter_begin, iter_next}
use answrapp.Nanopb.Iter
use answrapp.Nanopb.Iter.Start.{
  field_at-All, iter_begin-first, iter_begin-ne-stuck, iter_next-Advances,
}
use answrapp.Nanopb.Message.{Context, MessageEncoder}
use answrapp.Nanopb.Message.Submessage.{
  after_pass, second_pass, after_sizing, encode_submessage, limited,
}
use answrapp.Nanopb.Message.Encode.{at_field, while_more, encode_fields, encode_one, encode}
use answrapp.Nanopb.Message.Ends.{
  Ends, return_true-Ends, raise-Ends, fault-Ends, then-Ends, choose-Ends, write_null-Ends,
}
use answrapp.Nanopb.Message.Ends.Values.{varint-Ends}
use answrapp.Nanopb.Message.Ends.Fields.{field-Ends}
use answrapp.Nanopb.Message.Ends.Defaults.{Nests, IsLayered, is_proto3_default-Decides}

after_pass-Ends :
    (r : Written) (size : ℕ) (s : OutStream) → (r ≡ stuck → ⊥) → after_pass r size s ≡ stuck → ⊥
after_pass-Ends (done t) size s h e = ground arith
after_pass-Ends (failed t) size s h e = ground arith
after_pass-Ends fault size s h e = cc
after_pass-Ends stuck size s h e = h refl

second_pass-Ends : (m : Encoder) (size : ℕ) → Ends m → Ends (second_pass m size)
unfolding second_pass
second_pass-Ends m size h =
    choose-Ends (λ s. ltb s.max_size ((s.bytes_written + size) % 2 ^ 64)) (raise-Ends _)
      (record {
        ends = λ s e. after_pass-Ends (m (limited size s)) size s (h.ends (limited size s)) e;
      })

after_sizing-Ends :
    (r : Written) {k : ℕ → Encoder}
    → (r ≡ stuck → ⊥)
    → ((n : ℕ) → Ends (k n))
    → Ends (after_sizing r k)
after_sizing-Ends (done t) h hk = hk t.bytes_written
after_sizing-Ends (failed t) h hk = record { ends = λ s e. cc }
after_sizing-Ends fault h hk = fault-Ends
after_sizing-Ends stuck h hk = absurd (h refl)

pub encode_submessage-Ends :
    (encode : MessageEncoder) (fields : List Field) (p : ℕ)
    → Ends (encode fields p)
    → Ends (encode_submessage encode fields p)
unfolding encode_submessage
encode_submessage-Ends encode fields p h =
    after_sizing-Ends (encode fields p ostream_sizing) (h.ends ostream_sizing) (λ size.
      then-Ends (varint-Ends size) (
        choose-Ends (λ s. is_sizing s.sink) (write_null-Ends size)
          (second_pass-Ends (encode fields p) size h)))

at_field-Ends :
    (o : Option Field) {m : Field → Encoder}
    → ((f : Field) → o ≡ some f → Ends (m f))
    → Ends (at_field o m)
at_field-Ends none h = fault-Ends
at_field-Ends (some f) h = h f refl

while_more-Ends :
    (w : Walk) {k : FieldIter → Encoder}
    → (w ≡ Iter.stuck → ⊥)
    → ((t : FieldIter) → w ≡ returned true t → Ends (k t))
    → Ends (while_more w k)
while_more-Ends (returned true t) h hk = hk t refl
while_more-Ends (returned false t) h hk = return_true-Ends
while_more-Ends Iter.fault h hk = fault-Ends
while_more-Ends Iter.stuck h hk = absurd (h refl)

module _ (one : Field → ℕ → Encoder) (P : Field → Type 0)
    (each : (f : Field) (p : ℕ) → P f → Ends (one f p)) where
  fields-Ends :
      (rounds : ℕ) (iter : FieldIter)
      → All P iter.start
      → iter.pos < length iter.start
      → length iter.start ≤ rounds + iter.pos
      → Ends (encode_fields one rounds iter)
  unfolding encode_fields
  fields-Ends zero iter h lt enough = absurd (omega arith)
  fields-Ends (suc rounds) iter h lt enough =
      then-Ends
        (at_field-Ends (field_at iter.start iter.pos)
          (λ f e. each f iter.p_data (field_at-All P iter.start iter.pos h e)))
        (while_more-Ends (iter_next iter) (iter_next-Advances iter).ends (λ t e.
          let (start, pos, room) = (iter_next-Advances iter).further t e in
          fields-Ends rounds t (rw start h) (rw start room) (rw start (omega arith))))

  all_fields-Ends :
      (fields : List Field) (p : ℕ)
      → All P fields
      → Ends (while_more (iter_begin fields p) (encode_fields one (length fields)))
  all_fields-Ends fields p h =
      while_more-Ends (iter_begin fields p) (iter_begin-ne-stuck fields p) (λ t e.
        let (start, pos, room) = iter_begin-first fields p e in
        fields-Ends (length fields) t (rw start h) (rw (start, pos) room) (rw start (omega arith)))

module _ (ctx : Context) (rank : ℕ → ℕ) (layered : IsLayered ctx rank) where
  one-Ends :
      (depth r : ℕ) (submessage : MessageEncoder)
      → r < depth
      → ((q a : ℕ) → rank q < r → Ends (submessage (ctx.descriptor q) a))
      → (f : Field) (p : ℕ) → Nests rank r f
      → Ends (encode_one ctx depth submessage f p)
  unfolding encode_one
  one-Ends depth r submessage lt sub f p nests =
      let plain : (ltype f.type == Ltype.extension) ≡ false = ground (arith, nests.0) in
      rw plain (
        field-Ends ctx submessage f (λ q e is a. sub q a (nests.1 q e is)) depth
          (λ a. is_proto3_default-Decides ctx rank layered depth r f a lt nests) layered.callbacks
          p)

  -- `pb_encode` has fuel enough on every stream, so that it returns unless it faults, at a depth
  -- above the rank of the message, where no field is an extension, each submessage has a smaller rank
  -- than the message that it stands in, and the callbacks never run out of fuel.
  pub encode-Ends :
      (depth r : ℕ) (fields : List Field) (p : ℕ)
      → r < depth
      → All (Nests rank r) fields
      → Ends (encode ctx depth fields p)
  unfolding encode
  encode-Ends zero r fields p lt h = absurd (omega arith)
  encode-Ends (suc depth) r fields p lt h =
      all_fields-Ends (encode_one ctx (suc depth) (encode_submessage (encode ctx depth)))
        (Nests rank r)
        (one-Ends (suc depth) r (encode_submessage (encode ctx depth)) lt (λ q a below.
          encode_submessage-Ends (encode ctx depth) (ctx.descriptor q) a
            (encode-Ends depth (rank q) (ctx.descriptor q) a (omega arith) (layered.nested q))))
        fields p h
