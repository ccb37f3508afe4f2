-- ===== src/Nanopb/Decode/Stored.antt =====
-- What the decoders of numbers leave in memory.
use answrapp.Common.{
  ℕ, zero, suc, ◌+◌, ◌*◌, ◌/◌, ◌%◌, ◌^◌, ◌<◌, ◌≡◌, refl, ◌∙◌, sym, ap, inl, inr, true, ◌&&◌,
  Bool-cases, Option, none, some, arith, ltb, leb, ◌==◌, if◌then◌else◌,
}
use native.Mathlib.Nat.{div-div-eq-div-mul, pow-succ', mul_assoc}
use answrapp.Common.Int.{ℤ, pos, negsuc, signed, pattern_of, ◌=ℤ◌}
use answrapp.Nanopb.Types.{Field, ltype, integer_too_large}
use answrapp.Nanopb.Types.Ltype
use answrapp.Nanopb.Input.{InStream, Result, ok, and_then, raise}
use answrapp.Nanopb.Input
use answrapp.Nanopb.Varint.{decode_varint}
use answrapp.Nanopb.Field.{
  narrow, checked, dec_varint, narrow_unsigned, checked_unsigned, dec_uvarint,
}
use answrapp.Nanopb.Field.Integers.{IntegerSize, by_size, Holds}
use answrapp.Nanopb.Memory.{Memory, load, load_signed}
use answrapp.Nanopb.Struct.{Store, overwrite}
use answrapp.Nanopb.Decode.{Machine, Outcome, done, with_store, byte_of, Context, MessageDecoder}
use answrapp.Nanopb.Decode
use answrapp.Nanopb.Decode.Value.{store_signed, store_unsigned, dec_value}
use answrapp.Nanopb.Decode.Value

-- The bytes of a number from the byte `k` on.
load_bytes_of :
    (mem : Memory) (n a v : ℕ)
    → ((i : ℕ) → i < n → mem (a + i) ≡ byte_of v i)
    → load mem n a + 256 ^ n * (v / 256 ^ n) ≡ v
unfolding load
load_bytes_of mem zero a v h = omega arith
load_bytes_of mem (suc n) a v h =
    let q = v / 256 / 256 ^ n in
    let first : mem a ≡ v % 256 = ap mem (omega arith) ∙ h 0 (omega arith) ∙ omega arith in
    let power : 256 ^ suc n ≡ 256 * 256 ^ n = pow-succ' 256 n in
    let quotient : v / 256 ^ suc n ≡ q =
      ap (λ (p : ℕ). v / p) power ∙ sym (div-div-eq-div-mul v 256 (256 ^ n)) in
    let rest : load mem n (a + 1) + 256 ^ n * q ≡ v / 256 =
      load_bytes_of mem n (a + 1) (v / 256)
        (λ i lt. ap mem (omega arith) ∙ h (suc i) (omega arith) ∙ shift i) in
    let product : 256 * 256 ^ n * q ≡ 256 * (256 ^ n * q) = mul_assoc 256 (256 ^ n) q in
    rw (quotient, power, first) (omega (arith, rest, product))
  where
    shift : (i : ℕ) → byte_of v (suc i) ≡ byte_of (v / 256) i
    shift i =
        ap (λ (x : ℕ). x % 256)
          (ap (λ (p : ℕ). v / p) (pow-succ' 256 i) ∙ sym (div-div-eq-div-mul v 256 (256 ^ i)))

overwrite_at :
    (mem : Memory) (a count i : ℕ) (bytes : ℕ → ℕ)
    → i < count
    → overwrite a count bytes mem (a + i) ≡ bytes i
overwrite_at mem a count i bytes lt =
    let inside : (leb a (a + i) && ltb (a + i) (a + count)) ≡ true = ground arith in
    rw inside (ap bytes (omega arith))

-- A number that fits its bytes is read back from them.
pub load-write_number :
    (mem : Memory) (size a v : ℕ)
    → IntegerSize size
    → v < 2 ^ (8 * size)
    → load (overwrite a size (byte_of v) mem) size a ≡ v
load-write_number mem size a v s h =
    let whole =
      load_bytes_of (overwrite a size (byte_of v) mem) size a v
        (λ i lt. overwrite_at mem a size i (byte_of v) lt) in
    let none_left : 256 ^ size * (v / 256 ^ size) ≡ 0 =
      by_size (λ k. v < 2 ^ (8 * k) → 256 ^ k * (v / 256 ^ k) ≡ 0) (λ h. omega arith)
        (λ h. omega arith) (λ h. omega arith) (λ h. omega arith) size s h in
    omega (arith, whole, none_left)

-- The machine behind a number that was stored.
abbrev pub stored : ℕ → ℕ → ℕ → InStream → Store → Machine
stored dest size v stream store = record {
  stream = stream;
  store = record { memory = overwrite dest size (byte_of v) store.memory; freed = store.freed };
}

abbrev finished : ℕ → ℕ → ℕ → InStream → Store → Outcome (Unit {0})
finished dest size v stream store = done tt (stored dest size v stream store)

module _ (size dest : ℕ) (store : Store) (t u : InStream) where
  store_unsigned_lem :
      (o : Option ℕ) (value v : ℕ)
      → checked_unsigned o value t ≡ ok v u
      → store_unsigned o size dest value (record { stream = t; store = store })
        ≡ done tt (stored dest size v u store)
  store_unsigned_lem none value v e = cc
  store_unsigned_lem (some c) value v e = elim (Bool-cases (c == value)) [
    | inl fits ↦ let e' = rw fits at e in rw fits (both (fits_same e'))
    | inr large ↦ let e' = rw large at e in absurd (refused e')
  ]
    where
      fits_same : Input.pure c t ≡ ok v u → (c ≡ v) × (t ≡ u)
      fits_same e = (cc, cc)

      refused : raise {A = ℕ} integer_too_large t ≡ ok v u → ⊥
      refused e = cc

      both : (c ≡ v) × (t ≡ u) → finished dest size c t store ≡ finished dest size v u store
      both (p, q) = rw (p, q) refl

  store_signed_lem :
      (o : Option ℤ) (value z : ℤ)
      → checked o value t ≡ ok z u
      → store_signed o size dest value (record { stream = t; store = store })
        ≡ done tt (stored dest size (pattern_of (8 * size) z) u store)
  store_signed_lem none value z e = cc
  store_signed_lem (some c) value z e = elim (Bool-cases (c =ℤ value)) [
    | inl fits ↦ let e' = rw fits at e in rw fits (both (fits_same e'))
    | inr large ↦ let e' = rw large at e in absurd (refused e')
  ]
    where
      fits_same : Input.pure c t ≡ ok z u → (c ≡ z) × (t ≡ u)
      fits_same e = (cc, cc)

      refused : raise {A = ℤ} integer_too_large t ≡ ok z u → ⊥
      refused e = cc

      both :
          (c ≡ z) × (t ≡ u)
          → finished dest size (pattern_of (8 * size) c) t store
            ≡ finished dest size (pattern_of (8 * size) z) u store
      both (p, q) = rw (p, q) refl

module _ (field : Field) (dest : ℕ) (store : Store) (u : InStream) where
  unsigned_behind :
      (r : Result ℕ) (v : ℕ)
      → and_then r (λ value. checked_unsigned (narrow_unsigned field.data_size value) value)
        ≡ ok v u
      → Decode.and_then (with_store store r) (λ value.
        store_unsigned (narrow_unsigned field.data_size value) field.data_size dest value)
        ≡ done tt (stored dest field.data_size v u store)
  unsigned_behind (ok value t) v e =
      store_unsigned_lem field.data_size dest store t u (narrow_unsigned field.data_size value)
        value v e
  unsigned_behind (Input.failed t) v e = cc
  unsigned_behind Input.fault v e = cc
  unsigned_behind Input.stuck v e = cc

  abbrev as_signed : ℕ → ℤ
  as_signed value = if field.data_size == 8 then signed 64 value else signed 32 (value % 2 ^ 32)

  signed_behind :
      (r : Result ℕ) (z : ℤ)
      → and_then r (λ value. checked (narrow field.data_size (as_signed value)) (as_signed value))
        ≡ ok z u
      → Decode.and_then (with_store store r) (λ value.
        store_signed
          (narrow field.data_size (as_signed value))
          field.data_size
          dest
          (as_signed value))
        ≡ done tt (stored dest field.data_size (pattern_of (8 * field.data_size) z) u store)
  signed_behind (ok value t) z e =
      store_signed_lem field.data_size dest store t u (narrow field.data_size (as_signed value))
        (as_signed value) z e
  signed_behind (Input.failed t) z e = cc
  signed_behind Input.fault z e = cc
  signed_behind Input.stuck z e = cc

pattern_lt : (size : ℕ) (z : ℤ) → IntegerSize size → pattern_of (8 * size) z < 2 ^ (8 * size)
pattern_lt size (pos k) s =
    by_size (λ b. pattern_of (8 * b) (pos k) < 2 ^ (8 * b)) (omega arith) (omega arith)
      (omega arith) (omega arith) size s
pattern_lt size (negsuc k) s =
    by_size (λ b. pattern_of (8 * b) (negsuc k) < 2 ^ (8 * b)) (omega arith) (omega arith)
      (omega arith) (omega arith) size s

signed_pattern :
    (size : ℕ) (z : ℤ)
    → IntegerSize size
    → Holds size z
    → signed (8 * size) (pattern_of (8 * size) z) ≡ z
signed_pattern size (pos k) s h =
    by_size (λ b. Holds b (pos k) → signed (8 * b) (pattern_of (8 * b) (pos k)) ≡ pos k)
      (λ h. ground arith) (λ h. ground arith) (λ h. ground arith) (λ h. ground arith) size s h
signed_pattern size (negsuc k) s h =
    by_size (λ b. Holds b (negsuc k) → signed (8 * b) (pattern_of (8 * b) (negsuc k)) ≡ negsuc k)
      (λ h. ground arith) (λ h. ground arith) (λ h. ground arith) (λ h. ground arith) size s h

module _ (ctx : Context) (decode decode_noinit : MessageDecoder) (field : Field) (dest : ℕ)
    (s : Machine) (u : InStream) (size : IntegerSize field.data_size) where
  -- Where `pb_dec_uvarint` reads a value, the decoder of an uvarint field leaves the value in the
  -- `data_size` bytes at `dest`, with the same stream behind it.
  pub dec_value-uvarint :
      (v : ℕ)
      → ltype field.type ≡ Ltype.uvarint
      → v < 2 ^ (8 * field.data_size)
      → dec_uvarint field s.stream ≡ ok v u
      → (m : Machine) × (dec_value ctx decode decode_noinit field dest s ≡ done tt m)
        × (m.stream ≡ u)
        × (load m.store.memory field.data_size dest ≡ v)
  unfolding dec_uvarint dec_value Value.dec_uvarint
  dec_value-uvarint v is_uvarint fits e = (
    stored dest field.data_size v u s.store,
    rw is_uvarint (unsigned_behind field dest s.store u (decode_varint s.stream) v e),
    refl,
    load-write_number s.store.memory field.data_size dest v size fits,
  )

  -- Where `pb_dec_varint` reads a value, the decoder of a varint field leaves the value in the
  -- `data_size` bytes at `dest`, with the same stream behind it.
  pub dec_value-varint :
      (z : ℤ)
      → ltype field.type ≡ Ltype.varint
      → Holds field.data_size z
      → dec_varint field s.stream ≡ ok z u
      → (m : Machine) × (dec_value ctx decode decode_noinit field dest s ≡ done tt m)
        × (m.stream ≡ u)
        × (load_signed m.store.memory field.data_size dest ≡ z)
  unfolding dec_varint dec_value Value.dec_varint
  dec_value-varint z is_varint fits e = (
    stored dest field.data_size (pattern_of (8 * field.data_size) z) u s.store,
    rw is_varint (signed_behind field dest s.store u (decode_varint s.stream) z e),
    refl,
    ap (signed (8 * field.data_size)) (
          load-write_number s.store.memory field.data_size dest (pattern_of (8 * field.data_size) z)
            size (pattern_lt field.data_size z size))
        ∙ signed_pattern field.data_size z size fits,
  )
