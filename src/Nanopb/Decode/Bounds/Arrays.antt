-- ===== src/Nanopb/Decode/Bounds/Arrays.antt =====
-- The `_count` of a static array in `decode_static_field`.
use answrapp.Common.{
  ℕ, zero, suc, ◌+◌, ◌*◌, ◌%◌, ◌^◌, ◌≤◌, ◌<◌, ◌≡◌, ◌≢◌, refl, ◌⊎◌, inl, inr, true, false, ◌&&◌,
  Bool-cases, arith, ltb, leb, ◌==◌, if◌then◌else◌,
}
use answrapp.Nanopb.Types.{Field, ltype, htype, atype, WireType, wt_string, array_overflow}
use answrapp.Nanopb.Types.Ltype
use answrapp.Nanopb.Types.Htype
use answrapp.Nanopb.Types.Atype
use answrapp.Nanopb.Memory.{load}
use answrapp.Nanopb.Iter.{FieldIter}
use answrapp.Nanopb.Decode.{Machine, Step, raise, Context, MessageDecoder}
use answrapp.Nanopb.Decode.Value.{dec_value}
use answrapp.Nanopb.Decode.Static.{
  item_address, count_item, packed_item, packed_items, static_packed, static_item, static_field,
  decode_static_field,
}
use answrapp.Nanopb.Decode.Keeps.{Keeps, Apart, raise-Keeps, give-Keeps}
use answrapp.Nanopb.Decode.Bounds.{IsSized, dec_value-Keeps}
use answrapp.Nanopb.Decode.Bounds.Items.{
  item-Apart, item_end, enter-Keeps, remaining-Keeps, open_substream-Keeps, close_substream-Keeps,
}
use answrapp.Nanopb.Decode.Bounds.Counts.{
  Within, Leaves, Counts, Keeps-Counts, weaker-Counts, bind-Counts, if-Counts, write-Counts,
  attempt-Counts,
}

-- A count that has not fallen below `first`, and does not exceed the array.
abbrev pub UpTo : ℕ → Field → ℕ → Type 0
UpTo first field c = (first ≤ c) × (c ≤ field.array_size)

abbrev pub Any : ℕ → Type 0
Any c = Unit

module _ (field : Field) (iter : FieldIter) (func : ℕ → Step (Unit {0})) (first : ℕ)
    (small : field.array_size < 2 ^ 32)
    (item : (n : ℕ)
      → n < field.array_size
      → Keeps (Within iter.p_size) (func (item_address iter.p_data field n))) where
  count_item-Counts :
      (n : ℕ)
      → n < field.array_size
      → first ≤ n
      → Counts iter.p_size (λ c. c ≡ n) (UpTo first field) (UpTo first field) (count_item iter)
  count_item-Counts n lt le = record {
    counts = λ s e.
        (write-Counts {P = λ c. c ≡ n} {Q = UpTo first field} {E = UpTo first field}
            ((load s.store.memory 4 iter.p_size + 1) % 2 ^ 32) (omega arith)
            (omega arith, omega arith)).counts
          s e;
  }

  packed_item-Counts :
      (n : ℕ)
      → n < field.array_size
      → first ≤ n
      → Counts iter.p_size
          (λ c. c ≡ n)
          (UpTo first field)
          (UpTo first field)
          (packed_item func field iter n)
  packed_item-Counts n lt le =
      bind-Counts (weaker-Counts (λ c e. (omega arith, omega arith)) (Keeps-Counts (item n lt)))
        (λ u. count_item-Counts n lt le)

  packed_items-Counts :
      (fuel : ℕ)
      → Counts iter.p_size
          (UpTo first field)
          (UpTo first field)
          (UpTo first field)
          (packed_items func field iter fuel)
  unfolding packed_items
  packed_items-Counts zero = record { counts = λ s k. tt }
  packed_items-Counts (suc fuel) = record {
    counts = λ s k.
        let n = load s.store.memory 4 iter.p_size in
        elim (Bool-cases (ltb 0 s.stream.bytes_left && ltb n field.array_size)) [
          | inl more ↦
              let round =
                bind-Counts (packed_item-Counts n (ground arith) k.0)
                  (λ u. packed_items-Counts fuel) in
              rw more (round.counts s refl)
          | inr over ↦ rw over k
        ];
  }

  -- A packed array.
  static_packed-Counts :
      Counts iter.p_size
        (UpTo first field)
        (UpTo first field)
        (UpTo first field)
        (static_packed func field iter)
  unfolding static_packed
  static_packed-Counts = bind-Counts (Keeps-Counts open_substream-Keeps) (λ parent.
      bind-Counts (Keeps-Counts remaining-Keeps) (λ left.
        bind-Counts (attempt-Counts (packed_items-Counts (suc left))) (λ status.
          bind-Counts (Keeps-Counts remaining-Keeps) (λ rest.
            if-Counts (rest == 0)
              (λ e.
                bind-Counts (Keeps-Counts (close_substream-Keeps parent))
                  (λ u. Keeps-Counts (give-Keeps status)))
              (λ e.
                bind-Counts (Keeps-Counts (enter-Keeps parent))
                  (λ u. Keeps-Counts (raise-Keeps array_overflow)))))))

  fitting_item-Counts :
      (n : ℕ)
      → first ≤ n
      → Counts iter.p_size
          (λ c. c ≡ (n + 1) % 2 ^ 32)
          (UpTo first field)
          Any
          (if leb field.array_size n
            then raise array_overflow
            else func (item_address iter.p_data field n))
  fitting_item-Counts n le =
      if-Counts (leb field.array_size n) (λ e. record { counts = λ t h. tt })
        (λ e.
          let lt : n < field.array_size = ground arith in
          record {
            counts = λ t h.
                (weaker-Counts {F = Any} (λ c k. tt)
                    (Keeps-Counts {P = UpTo first field} (item n lt))).counts
                  t (omega arith, omega arith);
          })

  -- An item of its own: the count goes up, also where the array is full, which is an error.
  static_item-Counts :
      Counts iter.p_size (λ c. c ≡ first) (UpTo first field) Any (static_item func field iter)
  unfolding static_item
  static_item-Counts = record {
    counts = λ s k.
        let n = load s.store.memory 4 iter.p_size in
        let v = (n + 1) % 2 ^ 32 in
        let stored =
          bind-Counts {Q = λ c. c ≡ v}
            (write-Counts {P = λ c. c ≡ first} {E = Any} v (omega arith) refl)
            (λ u. fitting_item-Counts n (omega arith)) in
        stored.counts s k;
  }

-- The items of an array lie apart from its count.
items-Apart :
    (field : Field) (iter : FieldIter) (n x : ℕ)
    → field.data_size * field.array_size < 2 ^ 32
    → iter.p_data + field.data_size * field.array_size ≤ 2 ^ 64
    → (iter.p_data + field.data_size * field.array_size ≤ iter.p_size)
      ⊎ (iter.p_size + 4 ≤ iter.p_data)
    → n < field.array_size
    → Within iter.p_size x
    → Apart (item_address iter.p_data field n) field.data_size x
items-Apart field iter n x small inside beside lt within =
    item-Apart iter.p_data (field.data_size * n) field.data_size
      (field.data_size * field.array_size) x (item_end field.data_size n field.array_size lt) small
      inside (around beside)
  where
    around :
        (iter.p_data + field.data_size * field.array_size ≤ iter.p_size)
          ⊎ (iter.p_size + 4 ≤ iter.p_data)
        → Apart iter.p_data (field.data_size * field.array_size) x
    around (inl le) = inr (omega (arith, within.0))
    around (inr le) = inl (omega (arith, within.1))

-- On any input, if `decode_static_field` succeeds for an array of items that are no submessages, then
-- the array has at least as many items as before by its `_count`, and still at most `array_size`. The
-- array has at most `array_size` items before, `array_size` is below 2 ^ 32, the array takes less
-- than 2 ^ 32 bytes within 2 ^ 64, apart from its count, and a bool or a fixed-width number has the
-- `data_size` of its type.
pub decode_static_field-count :
    (ctx : Context) (decode decode_noinit : MessageDecoder) (field : Field) (iter : FieldIter)
    (wire_type : WireType) (s : Machine)
    → (htype field.type == Htype.repeated) ≡ true
    → atype field.type ≡ Atype.static
    → ltype field.type ≢ Ltype.submessage
    → IsSized field
    → field.array_size < 2 ^ 32
    → field.data_size * field.array_size < 2 ^ 32
    → iter.p_data + field.data_size * field.array_size ≤ 2 ^ 64
    → (iter.p_data + field.data_size * field.array_size ≤ iter.p_size)
      ⊎ (iter.p_size + 4 ≤ iter.p_data)
    → load s.store.memory 4 iter.p_size ≤ field.array_size
    → Leaves iter.p_size
        (UpTo (load s.store.memory 4 iter.p_size) field)
        Any
        (decode_static_field ctx decode decode_noinit wire_type field iter s)
unfolding decode_static_field static_field
decode_static_field-count ctx decode decode_noinit field iter wire_type s array is_static plain
      sized few small inside beside start =
    let h = htype field.type in
    let first = load s.store.memory 4 iter.p_size in
    let func = dec_value ctx decode decode_noinit field in
    let item = λ (n : ℕ) (lt : n < field.array_size).
      dec_value-Keeps (Within iter.p_size) field (item_address iter.p_data field n)
        (λ x within. items-Apart field iter n x small inside beside lt within) ctx decode
        decode_noinit is_static plain sized in
    let no_required : (h == Htype.required) ≡ false = ground arith in
    let no_optional : (h == Htype.optional) ≡ false = ground arith in
    rw (no_required, no_optional, array)
      (elim (Bool-cases (wire_type == wt_string && leb (ltype field.type) Ltype.last_packable)) [
        | inl packed ↦ rw packed (
            (weaker-Counts {F = Any} (λ c k. tt)
                (static_packed-Counts field iter func first few item)).counts
              s (omega arith, start))
        | inr plain ↦ rw plain ((static_item-Counts field iter func first few item).counts s refl)
      ])
