-- ===== src/Nanopb/Message/Consistent/Arrays.antt =====
-- `encode_array`: the size of a packed array is what its items take, computed or counted.
use answrapp.Common.{
  ℕ, zero, suc, ◌+◌, ◌*◌, ◌%◌, ◌^◌, ◌≤◌, ◌≡◌, refl, ap, inl, inr, ◌⊎◌, Bool, true, false, not, ◌&&◌,
  Bool-cases, Option, none, List, [], ◌++◌, arith, ltb, leb, ◌==◌, ==_iff, if◌then◌else◌, length,
  length-append,
}
use native.Mathlib.Nat.{add_comm, mul-suc, mod-eq_of_lt, mul-le-mul_right}
use answrapp.Nanopb.Types.{Error, Field, ltype, atype, IsU32, wt_string}
use answrapp.Nanopb.Types.Atype
use answrapp.Nanopb.Types.Ltype
use answrapp.Nanopb.Output.{
  Encoder, OutStream, Written, done, failed, fault, stuck, write_null, is_sizing, ostream_sizing,
  ◌>>◌,
}
use answrapp.Nanopb.Output.Bounds.{counting}
use answrapp.Nanopb.Output.Emits.{EmitsFrom, Emits-EmitsFrom, then-Emits, return_true-EmitsFrom}
use answrapp.Nanopb.Scalar.Encode.{split_bytes}
use answrapp.Nanopb.Scalar.RoundTrip.{encode_fixed32-Emits, encode_fixed64-Emits}
use answrapp.Nanopb.Memory.{shifted, load}
use answrapp.Nanopb.Message.{Context, MessageEncoder}
use answrapp.Nanopb.Message.Value.{encode_value}
use answrapp.Nanopb.Message.Array.{
  encode_items, with_size, packed_data, encode_packed, entry_at, encode_array,
}
use answrapp.Nanopb.Message.Consistent.{
  Fresh, Consistent, Fails, return_true-Consistent, if-Consistent, raise-Fails, fault-Fails,
  stuck-Fails, then-Consistent, then-Fails_left, then-Fails_right, too_large-Fails,
}
use answrapp.Nanopb.Message.Consistent.Values.{
  IsField, Submessages, value-Consistent, varint-Consistent, tag-Consistent, field_tag-Consistent,
}

-- Every success writes so many bytes.
abbrev pub OfLength : ℕ → Encoder → Type 0
OfLength n m = ((bytes : List ℕ) × EmitsFrom Fresh m bytes × (length bytes ≡ n)) ⊎ Fails m

then-OfLength : {m k : Encoder} (n l : ℕ) → OfLength n m → OfLength l k → OfLength (n + l) (m >> k)
then-OfLength n l (inl (xs, em, ex)) (inl (ys, ek, ey)) =
    inl (xs ++ ys, then-Emits em ek, omega (arith, length-append xs ys))
then-OfLength n l (inl (xs, em, ex)) (inr h) = inr (then-Fails_right em h)
then-OfLength {k} n l (inr h) ck = inr (then-Fails_left k h)

if_OfLength :
    {n : ℕ} {m k : Encoder} (b : Bool)
    → OfLength n m
    → OfLength n k
    → OfLength n (if b then m else k)
if_OfLength true cm ck = cm
if_OfLength false cm ck = ck

module _ {item : ℕ → Encoder} (size : ℕ) where
  items-Consistent :
      ((p : ℕ) → Consistent (item p)) → (count p : ℕ) → Consistent (encode_items item size count p)
  unfolding encode_items
  items-Consistent h zero p = return_true-Consistent
  items-Consistent h (suc count) p =
      then-Consistent (h p) (items-Consistent h count (shifted p size))

  items-OfLength :
      (n : ℕ)
      → ((p : ℕ) → OfLength n (item p))
      → (count p : ℕ) → OfLength (n * count) (encode_items item size count p)
  unfolding encode_items
  items-OfLength n h zero p = inl ([], return_true-EmitsFrom Fresh, omega arith)
  items-OfLength n h (suc count) p =
      rw (mul-suc, add_comm (n * count) n)
        (then-OfLength n (n * count) (h p) (items-OfLength n h count (shifted p size)))

pub write_null-counting :
    (size max_size bytes_written : ℕ) (err : Option Error)
    → write_null size (counting max_size bytes_written err)
      ≡ done (counting max_size ((bytes_written + size) % 2 ^ 64) err)
unfolding write_null
write_null-counting size max_size bytes_written err = ground arith

-- The items, which a sizing stream only counts.
abbrev pub counted_items : Encoder → ℕ → Encoder
counted_items items size s = if is_sizing s.sink then write_null size s else items s

pub counted_items-EmitsFrom :
    {items : Encoder} {bytes : List ℕ}
    → EmitsFrom Fresh items bytes
    → EmitsFrom Fresh (counted_items items (length bytes)) bytes
counted_items-EmitsFrom {bytes} e = record {
  appends = λ f err p h. e.appends f err p h;
  refuses = λ f err p h. e.refuses f err p h;
  sizes = λ max bw err p h. write_null-counting (length bytes) max bw err;
}

counted_items-Fails : {items : Encoder} (size : ℕ) → Fails items → Fails (counted_items items size)
counted_items-Fails size h = record { never = λ f w t e. h.never f w t e }

counted_items-Consistent :
    {items : Encoder} (size : ℕ) → OfLength size items → Consistent (counted_items items size)
counted_items-Consistent size (inl (bytes, e, same)) =
    inl (bytes, rw (← same) (counted_items-EmitsFrom e))
counted_items-Consistent size (inr h) = inr (counted_items-Fails size h)

packed_data-Consistent :
    {items : Encoder} (size : ℕ) → OfLength size items → Consistent (packed_data items size)
packed_data-Consistent size h =
    then-Consistent (varint-Consistent size) (counted_items-Consistent size h)

-- What a sizing pass counts is the size, unless no array takes that much.
pub sizing-count :
    {m : Encoder} {bytes : List ℕ} {t : OutStream}
    → EmitsFrom Fresh m bytes
    → m ostream_sizing ≡ done t
    → t.bytes_written ≡ length bytes % 2 ^ 64
sizing-count {bytes} {t} e h =
    let counts = e.sizes 0 0 none (omega arith, refl) (omega arith) in
    let same : t ≡ counting 0 ((0 + length bytes) % 2 ^ 64) none = cc in
    omega (arith, ap (λ (u : OutStream). u.bytes_written) same)

counted-OfLength :
    {items : Encoder} {t : OutStream}
    → Consistent items
    → items ostream_sizing ≡ done t
    → OfLength t.bytes_written items
counted-OfLength (inr f) h = inr f
counted-OfLength {t} (inl (bytes, e)) h = elim (Bool-cases (ltb (length bytes) (2 ^ 63))) [
  | inl small ↦ inl (bytes, e, ground (arith, sizing-count e h))
  | inr large ↦ inr (too_large-Fails e (ground arith))
]

with_size-Consistent :
    (r : Written) (k : ℕ → Encoder)
    → ((t : OutStream) → r ≡ done t → Consistent (k t.bytes_written))
    → Consistent (with_size r k)
with_size-Consistent (done t) k h = h t refl
with_size-Consistent (failed t) k h = inr (record { never = λ f w u e. cc })
with_size-Consistent fault k h = inr fault-Fails
with_size-Consistent stuck k h = inr stuck-Fails

module _ (ctx : Context) (submessage : MessageEncoder) (field : Field) where
  fixed32-OfLength :
      (p : ℕ) → ltype field.type ≡ Ltype.fixed32 → OfLength 4 (encode_value ctx submessage field p)
  unfolding encode_value split_bytes
  fixed32-OfLength p h = rw h (
      if_OfLength (p == 0) (inr fault-Fails)
        (inl (_, Emits-EmitsFrom Fresh (encode_fixed32-Emits (load ctx.memory 4 p)), refl)))

  fixed64-OfLength :
      (p : ℕ) → ltype field.type ≡ Ltype.fixed64 → OfLength 8 (encode_value ctx submessage field p)
  unfolding encode_value split_bytes
  fixed64-OfLength p h = rw h (
      if_OfLength (p == 0) (inr fault-Fails)
        (inl (_, Emits-EmitsFrom Fresh (encode_fixed64-Emits (load ctx.memory 8 p)), refl)))

  module _ (sub : Submessages ctx submessage) (w : IsField field) (count : ℕ) (small : IsU32 count)
      (p : ℕ) where
    values : Encoder
    values = encode_items (encode_value ctx submessage field) field.data_size count p

    fixed_size :
        (n : ℕ)
        → n ≤ 8
        → ((q : ℕ) → OfLength n (encode_value ctx submessage field q))
        → Consistent (packed_data values (n * count % 2 ^ 64))
    unfolding values
    fixed_size n h each =
        let bound : n * count ≤ 8 * count = mul-le-mul_right count h in
        let same : n * count % 2 ^ 64 ≡ n * count = mod-eq_of_lt (omega arith) in
        rw same (packed_data-Consistent (n * count) (items-OfLength field.data_size n each count p))

    counted_size : Consistent (with_size (values ostream_sizing) (packed_data values))
    unfolding values
    counted_size = with_size-Consistent (values ostream_sizing) (packed_data values) (λ t e.
        packed_data-Consistent t.bytes_written (
          counted-OfLength
            (items-Consistent field.data_size (λ q. value-Consistent ctx submessage sub field q w)
              count p)
            e))

    packed-Consistent : Consistent (encode_packed field count values)
    unfolding encode_packed
    packed-Consistent =
        then-Consistent (tag-Consistent wt_string field.tag)
          (elim (Bool-cases (ltype field.type == Ltype.fixed32)) [
            | inl a ↦ rw a (
                fixed_size 4 (omega arith)
                  (λ q. fixed32-OfLength q ((==_iff (ltype field.type) Ltype.fixed32).0 a)))
            | inr b ↦ rw b (elim (Bool-cases (ltype field.type == Ltype.fixed64)) [
              | inl a ↦ rw a (
                  fixed_size 8 (omega arith)
                    (λ q. fixed64-OfLength q ((==_iff (ltype field.type) Ltype.fixed64).0 a)))
              | inr c ↦ rw c counted_size
            ])
          ])

    pub array-Consistent : Consistent (encode_array ctx submessage field p count)
    unfolding encode_array values
    array-Consistent =
        let value = λ (q : ℕ). value-Consistent ctx submessage sub field q w in
        if-Consistent (count == 0) return_true-Consistent (
          if-Consistent (not (atype field.type == Atype.pointer) && ltb field.array_size count)
            (inr (raise-Fails _))
            (if-Consistent (leb (ltype field.type) Ltype.last_packable) packed-Consistent (
              items-Consistent field.data_size
                (λ q. then-Consistent (field_tag-Consistent field) (value (entry_at ctx field q)))
                count p)))
