-- ===== src/Nanopb/Decode/Bounds/Items.antt =====
-- Where `decode_static_field` stores.
use answrapp.Common.{
  ℕ, zero, suc, ◌+◌, ◌*◌, ◌%◌, ◌^◌, ◌≤◌, ◌<◌, ◌≡◌, ◌≢◌, refl, inl, inr, true, false, ◌&&◌,
  Bool-cases, arith, ltb, leb, ◌==◌, ==_iff, if◌then◌else◌,
}
use mathlib.Core.Path.{subst}
use answrapp.Nanopb.Types.{
  Field, ltype, htype, atype, WireType, wt_string, array_overflow, invalid_field_type,
}
use answrapp.Nanopb.Types.Ltype
use answrapp.Nanopb.Types.Htype
use answrapp.Nanopb.Types.Atype
use answrapp.Nanopb.Substream.{make_string_substream, close_string_substream}
use answrapp.Nanopb.Memory.{load}
use answrapp.Nanopb.Iter.{FieldIter}
use answrapp.Nanopb.Input.{InStream}
use answrapp.Nanopb.Decode.{
  Step, ◌>>◌, write_number, byte_of, enter, remaining, open_substream, close_substream, Context,
  MessageDecoder,
}
use answrapp.Nanopb.Decode.Value.{dec_value}
use answrapp.Nanopb.Decode.Static.{
  item_address, item_count, packed_item, packed_items, static_packed, static_item, static_field,
  decode_static_field,
}
use answrapp.Nanopb.Decode.Keeps.{
  Keeps, Apart, bind-Keeps, then-Keeps, if-Keeps, reading-Keeps, raise-Keeps, give-Keeps,
  attempt-Keeps, write-Keeps,
}
use answrapp.Nanopb.Decode.Bounds.{IsSized, dec_value-Keeps}

-- The bytes that a static field takes in its structure: those of its data, and those of its size,
-- which are the `has_` flag, the `_count` or the `which_`.
abbrev pub extent : Field → ℕ
extent field =
    if htype field.type == Htype.repeated
    then field.data_size * field.array_size
    else field.data_size

abbrev pub size_width : Field → ℕ
size_width field =
    if htype field.type == Htype.required
    then 0
    else if htype field.type == Htype.optional
    then 1
    else 4

-- An address that is not the field's.
abbrev pub Foreign : Field → FieldIter → ℕ → Type 0
Foreign field iter x = Apart iter.p_data (extent field) x × Apart iter.p_size (size_width field) x

module _ {Free : ℕ → Type 0} where
  pub enter-Keeps : (stream : InStream) → Keeps Free (enter stream)
  enter-Keeps stream = record { keeps = λ s x free. refl }

  pub remaining-Keeps : Keeps Free remaining
  remaining-Keeps = record { keeps = λ s x free. refl }

  pub open_substream-Keeps : Keeps Free open_substream
  unfolding open_substream
  open_substream-Keeps = bind-Keeps (reading-Keeps make_string_substream) enter-Keeps

  pub close_substream-Keeps : (parent : InStream) → Keeps Free (close_substream parent)
  unfolding close_substream
  close_substream-Keeps parent =
      bind-Keeps (enter-Keeps parent)
        (λ substream. reading-Keeps (close_string_substream substream))

module _ (Free : ℕ → Type 0) (field : Field) (iter : FieldIter) (func : ℕ → Step (Unit {0}))
    (counts : (x : ℕ) → Free x → Apart iter.p_size 4 x)
    (item : (n : ℕ)
      → n < field.array_size
      → Keeps Free (func (item_address iter.p_data field n))) where
  item_count-Keeps : Keeps Free (item_count iter)
  item_count-Keeps = record { keeps = λ s x free. refl }

  size_write : (v : ℕ) → Keeps Free (write_number iter.p_size 4 v)
  size_write v = write-Keeps iter.p_size 4 (byte_of v) counts

  round-Keeps :
      (fuel n : ℕ)
      → Keeps Free (packed_items func field iter fuel)
      → n < field.array_size
      → Keeps Free (packed_item func field iter n >> packed_items func field iter fuel)
  round-Keeps fuel n rest lt =
      then-Keeps
        (then-Keeps (item n lt) (bind-Keeps item_count-Keeps (λ m. size_write ((m + 1) % 2 ^ 32))))
        rest

  packed_items-Keeps : (fuel : ℕ) → Keeps Free (packed_items func field iter fuel)
  unfolding packed_items
  packed_items-Keeps zero = record { keeps = λ s x free. tt }
  packed_items-Keeps (suc fuel) = record {
    keeps = λ s x free.
        let n = load s.store.memory 4 iter.p_size in
        elim (Bool-cases (ltb 0 s.stream.bytes_left && ltb n field.array_size)) [
          | inl more ↦
              rw more ((round-Keeps fuel n (packed_items-Keeps fuel) (ground arith)).keeps s x free)
          | inr over ↦ rw over refl
        ];
  }

  static_packed-Keeps : Keeps Free (static_packed func field iter)
  unfolding static_packed
  static_packed-Keeps = bind-Keeps open_substream-Keeps (λ parent.
      bind-Keeps remaining-Keeps (λ left.
        bind-Keeps (attempt-Keeps (packed_items-Keeps (suc left))) (λ status.
          bind-Keeps remaining-Keeps (λ rest.
            if-Keeps (rest == 0)
              (λ e. then-Keeps (close_substream-Keeps parent) (give-Keeps status))
              (λ e. then-Keeps (enter-Keeps parent) (raise-Keeps array_overflow))))))

  static_item-Keeps : Keeps Free (static_item func field iter)
  unfolding static_item
  static_item-Keeps = bind-Keeps item_count-Keeps (λ n. then-Keeps (size_write ((n + 1) % 2 ^ 32)) (
      if-Keeps (leb field.array_size n) (λ e. raise-Keeps array_overflow)
        (λ e. item n (ground arith))))

pub item_end : (d n count : ℕ) → n < count → d * n + d ≤ d * count
item_end d n count lt = grind arith

-- The items of an array without an overflow in their offsets are its own bytes.
pub item-Apart :
    (p o d total x : ℕ)
    → o + d ≤ total
    → total < 2 ^ 32
    → p + total ≤ 2 ^ 64
    → Apart p total x
    → Apart ((p + o % 2 ^ 32) % 2 ^ 64) d x
item-Apart p o zero total x fits small inside apart = ground arith
item-Apart p o (suc d) total x fits small inside apart =
    let at : (p + o % 2 ^ 32) % 2 ^ 64 ≡ p + o = omega arith in rw at (around apart)
  where
    around : Apart p total x → Apart (p + o) (suc d) x
    around (inl lt) = inl (omega arith)
    around (inr ge) = inr (omega arith)

module _ (field : Field) where
  extent_single : (htype field.type == Htype.repeated) ≡ false → extent field ≡ field.data_size
  extent_single e = rw e refl

  extent_array :
      (htype field.type == Htype.repeated) ≡ true
      → extent field ≡ field.data_size * field.array_size
  extent_array e = rw e refl

  -- The size of an optional field is a byte, and that of an array or a union is four.
  width_flag : (htype field.type == Htype.optional) ≡ true → size_width field ≡ 1
  width_flag e = ground arith

  width_count :
      (htype field.type == Htype.required) ≡ false
      → (htype field.type == Htype.optional) ≡ false
      → size_width field ≡ 4
  width_count e f = ground arith

module _ (ctx : Context) (decode decode_noinit : MessageDecoder) (field : Field) (iter : FieldIter)
    (is_static : atype field.type ≡ Atype.static) (plain : ltype field.type ≢ Ltype.submessage)
    (sized : IsSized field) where
  single-Keeps :
      (htype field.type == Htype.repeated) ≡ false
      → Keeps (Foreign field iter) (dec_value ctx decode decode_noinit field iter.p_data)
  single-Keeps single =
      dec_value-Keeps (Foreign field iter) field iter.p_data
        (λ x free. subst (λ k. Apart iter.p_data k x) (extent_single field single) free.0) ctx
        decode decode_noinit is_static plain sized

  item-Keeps :
      (n : ℕ)
      → (htype field.type == Htype.repeated) ≡ true
      → field.data_size * field.array_size < 2 ^ 32
      → iter.p_data + field.data_size * field.array_size ≤ 2 ^ 64
      → n < field.array_size
      → Keeps
          (Foreign field iter)
          (dec_value ctx decode decode_noinit field (item_address iter.p_data field n))
  item-Keeps n array small inside lt =
      dec_value-Keeps (Foreign field iter) field (item_address iter.p_data field n)
        (λ x free.
          item-Apart iter.p_data (field.data_size * n) field.data_size
            (field.data_size * field.array_size) x (item_end field.data_size n field.array_size lt)
            small inside (subst (λ k. Apart iter.p_data k x) (extent_array field array) free.0))
        ctx decode decode_noinit is_static plain sized

  -- On any input, `decode_static_field` for a field that is no submessage stores only in the bytes of
  -- the field: those of its data, `data_size` or for an array `data_size * array_size`, and those of
  -- its size. The array takes less than 2 ^ 32 bytes and lies within 2 ^ 64, and a bool or a
  -- fixed-width number has the `data_size` of its type.
  pub decode_static_field-Keeps :
      (wire_type : WireType)
      → field.data_size * field.array_size < 2 ^ 32
      → iter.p_data + field.data_size * field.array_size ≤ 2 ^ 64
      → Keeps
          (Foreign field iter)
          (decode_static_field ctx decode decode_noinit wire_type field iter)
  unfolding decode_static_field static_field
  decode_static_field-Keeps wire_type small inside =
      let h = htype field.type in
      let func = dec_value ctx decode decode_noinit field in
      if-Keeps (h == Htype.required) (λ e. single-Keeps (ground arith))
        (λ a.
          if-Keeps (h == Htype.optional)
            (λ e.
              if-Keeps (iter.p_size == iter.p_data) (λ _. single-Keeps (ground arith))
                (λ _.
                  then-Keeps
                    (write-Keeps iter.p_size 1 (byte_of 1)
                      (λ x free. subst (λ k. Apart iter.p_size k x) (width_flag field e) free.1))
                    (single-Keeps (ground arith))))
            (λ b.
              let counts = λ (x : ℕ) (free : Foreign field iter x).
                subst (λ k. Apart iter.p_size k x) (width_count field a b) free.1 in
              if-Keeps (h == Htype.repeated)
                (λ e.
                  let item = λ (n : ℕ). item-Keeps n e small inside in
                  if-Keeps (wire_type == wt_string && leb (ltype field.type) Ltype.last_packable)
                    (λ _. static_packed-Keeps (Foreign field iter) field iter func counts item)
                    (λ _. static_item-Keeps (Foreign field iter) field iter func counts item))
                (λ c.
                  if-Keeps (h == Htype.oneof)
                    (λ e. then-Keeps (write-Keeps iter.p_size 4 (byte_of field.tag) counts) (
                      if-Keeps (ltype field.type == Ltype.submessage)
                        (λ s. absurd (plain ((==_iff (ltype field.type) Ltype.submessage).0 s)))
                        (λ _. single-Keeps c)))
                    (λ _. raise-Keeps invalid_field_type))))
