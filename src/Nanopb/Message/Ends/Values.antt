-- ===== src/Nanopb/Message/Ends/Values.antt =====
-- The values and arrays of a field, if its submessages end.
use answrapp.Common.{
  ℕ, zero, suc, ◌≡◌, refl, inl, inr, not, ◌&&◌, ◌||◌, Bool-cases, Option, none, some, List, [], ltb,
  leb, ◌==◌, ==_iff, if◌then◌else◌, length,
}
use answrapp.Nanopb.Types.{
  Field, ltype, atype, invalid_field_type, invalid_descriptor, invalid_data_size,
}
use answrapp.Nanopb.Types.Atype
use answrapp.Nanopb.Types.Ltype
use answrapp.Nanopb.Output.{
  Encoder, Written, done, failed, fault, stuck, is_sizing, ostream_sizing, raise,
}
use answrapp.Nanopb.Scalar.Encode.{
  write_filled, encode_varint, encode_tag, encode_tag_for_field, wire_type_of, encode_string,
  encode_svarint, encode_bool, encode_fixed32, encode_fixed64,
}
use answrapp.Nanopb.Varint.{varint_bytes}
use answrapp.Nanopb.Field.{bytes_alloc_size}
use answrapp.Nanopb.Field.Encode.{
  enc_bytes, enc_string, enc_varint, enc_uvarint, enc_svarint, enc_fixed_length_bytes,
  is_integer_size,
}
use answrapp.Nanopb.Memory.{shifted}
use answrapp.Nanopb.Message.{Context, MessageEncoder}
use answrapp.Nanopb.Message.Value.{
  unless_null, number_at, is_empty, submessage_at, enc_submessage, encode_value,
}
use answrapp.Nanopb.Message.Array.{
  encode_items, with_size, packed_data, encode_packed, entry_at, encode_array,
}
use answrapp.Nanopb.Message.Ends.{
  Ends, return_true-Ends, raise-Ends, fault-Ends, then-Ends, if-Ends, choose-Ends, write-Ends,
  write_null-Ends,
}

write_filled-Ends : (o : Option (List ℕ)) → Ends (write_filled o)
write_filled-Ends none = fault-Ends
write_filled-Ends (some bytes) = write-Ends bytes

pub varint-Ends : (v : ℕ) → Ends (encode_varint v)
unfolding encode_varint
varint-Ends v = write_filled-Ends (varint_bytes v)

tag-Ends :
    (o : Option ℕ) (f : ℕ)
    → Ends (elim o [ none ↦ raise invalid_field_type | some wt ↦ encode_tag wt f ])
unfolding encode_tag
tag-Ends none f = raise-Ends _
tag-Ends (some wt) f = varint-Ends _

pub field_tag-Ends : (field : Field) → Ends (encode_tag_for_field field)
unfolding encode_tag_for_field
field_tag-Ends field = tag-Ends (wire_type_of (ltype field.type)) field.tag

string-Ends : (bytes : List ℕ) → Ends (encode_string bytes)
unfolding encode_string
string-Ends bytes = then-Ends (varint-Ends (length bytes)) (write-Ends bytes)

enc_bytes-Ends : (field : Field) (o : Option (List ℕ)) → Ends (enc_bytes field o)
unfolding enc_bytes
enc_bytes-Ends field none = string-Ends []
enc_bytes-Ends field (some bytes) =
    if-Ends
      (ltb (bytes_alloc_size (length bytes)) (length bytes)
        || (atype field.type == Atype.static
            && ltb field.data_size (bytes_alloc_size (length bytes))))
      (raise-Ends _) (string-Ends bytes)

enc_string-Ends : (field : Field) (o : Option (List ℕ)) → Ends (enc_string field o)
unfolding enc_string
enc_string-Ends field none = string-Ends []
enc_string-Ends field (some memory) = string-Ends _

-- The submessages of a field.
abbrev pub SubmessagesEnd : Context → MessageEncoder → Field → Type 0
SubmessagesEnd ctx submessage field =
    (q : ℕ)
    → field.ptr ≡ some q
    → ltype field.type ≡ Ltype.submessage
    → (a : ℕ) → Ends (submessage (ctx.descriptor q) a)

module _ (ctx : Context) (submessage : MessageEncoder) (field : Field)
    (sub : SubmessagesEnd ctx submessage field) where
  unless_null-Ends : {m : Encoder} (src : ℕ) → Ends m → Ends (unless_null src m)
  unless_null-Ends src h = if-Ends (src == 0) fault-Ends h

  number_at-Ends : {m : Encoder} (src : ℕ) → Ends m → Ends (number_at field src m)
  number_at-Ends src h = if-Ends (src == 0 && is_integer_size field.data_size) fault-Ends h

  submessage-Ends :
      (o : Option ℕ) (src : ℕ)
      → field.ptr ≡ o
      → ltype field.type ≡ Ltype.submessage
      → Ends (elim o [
        | none ↦ raise invalid_descriptor
        | some fields ↦ submessage_at submessage (ctx.descriptor fields) src
      ])
  submessage-Ends none src e h = raise-Ends _
  submessage-Ends (some q) src e h =
      if-Ends (src == 0 && not (is_empty (ctx.descriptor q))) fault-Ends (sub q e h src)

  sized-Ends :
      {m : Encoder}
      → Ends m
      → Ends (if is_integer_size field.data_size then m else raise invalid_data_size)
  sized-Ends h = if-Ends (is_integer_size field.data_size) h (raise-Ends _)

  submessage_entry-Ends :
      (src : ℕ) {m : Encoder}
      → Ends m
      → Ends (
          if ltype field.type == Ltype.submessage
          then enc_submessage ctx submessage field src
          else m)
  submessage_entry-Ends src h = elim (Bool-cases (ltype field.type == Ltype.submessage)) [
    | inl a ↦
        let is_submessage = (==_iff (ltype field.type) Ltype.submessage).0 a in
        rw a (submessage-Ends field.ptr src refl is_submessage)
    | inr a ↦ rw a h
  ]

  pub value-Ends : (src : ℕ) → Ends (encode_value ctx submessage field src)
  unfolding encode_value enc_varint enc_uvarint enc_svarint encode_svarint encode_bool
      encode_fixed32 encode_fixed64 enc_fixed_length_bytes
  value-Ends src =
      let l = ltype field.type in
      if-Ends (l == Ltype.bool) (unless_null-Ends src (varint-Ends _)) (
        if-Ends (l == Ltype.varint) (number_at-Ends src (sized-Ends (varint-Ends _))) (
          if-Ends (l == Ltype.uvarint) (number_at-Ends src (sized-Ends (varint-Ends _))) (
            if-Ends (l == Ltype.svarint) (number_at-Ends src (sized-Ends (varint-Ends _))) (
              if-Ends (l == Ltype.fixed32) (unless_null-Ends src (write-Ends _)) (
                if-Ends (l == Ltype.fixed64) (unless_null-Ends src (write-Ends _)) (
                  if-Ends (l == Ltype.bytes) (enc_bytes-Ends field _) (
                    if-Ends (l == Ltype.string) (enc_string-Ends field _) (
                      submessage_entry-Ends src (
                        if-Ends (l == Ltype.fixed_length_bytes)
                          (if-Ends (src == 0) (then-Ends (varint-Ends _) (write_null-Ends _))
                            (string-Ends _))
                          fault-Ends)))))))))

  items-Ends :
      {item : ℕ → Encoder}
      → ((q : ℕ) → Ends (item q))
      → (size count p : ℕ) → Ends (encode_items item size count p)
  unfolding encode_items
  items-Ends h size zero p = return_true-Ends
  items-Ends h size (suc count) p = then-Ends (h p) (items-Ends h size count (shifted p size))

  packed_data-Ends : {items : Encoder} → Ends items → (size : ℕ) → Ends (packed_data items size)
  packed_data-Ends h size =
      then-Ends (varint-Ends size) (choose-Ends (λ s. is_sizing s.sink) (write_null-Ends size) h)

  with_size-Ends :
      (r : Written) {k : ℕ → Encoder}
      → (r ≡ stuck → ⊥)
      → ((n : ℕ) → Ends (k n))
      → Ends (with_size r k)
  with_size-Ends (done t) h hk = hk t.bytes_written
  with_size-Ends (failed t) h hk = record { ends = λ s e. cc }
  with_size-Ends fault h hk = fault-Ends
  with_size-Ends stuck h hk = absurd (h refl)

  packed-Ends : (count : ℕ) {items : Encoder} → Ends items → Ends (encode_packed field count items)
  unfolding encode_packed encode_tag
  packed-Ends count {items} h = then-Ends (varint-Ends _) (
      if-Ends (ltype field.type == Ltype.fixed32) (packed_data-Ends h _) (
        if-Ends (ltype field.type == Ltype.fixed64) (packed_data-Ends h _)
          (with_size-Ends (items ostream_sizing) (h.ends ostream_sizing) (packed_data-Ends h))))

  pub array-Ends : (p count : ℕ) → Ends (encode_array ctx submessage field p count)
  unfolding encode_array
  array-Ends p count = if-Ends (count == 0) return_true-Ends (
      if-Ends (not (atype field.type == Atype.pointer) && ltb field.array_size count) (raise-Ends _)
        (if-Ends (leb (ltype field.type) Ltype.last_packable)
          (packed-Ends count (items-Ends value-Ends field.data_size count p))
          (items-Ends (λ q. then-Ends (field_tag-Ends field) (value-Ends (entry_at ctx field q)))
            field.data_size count p)))
