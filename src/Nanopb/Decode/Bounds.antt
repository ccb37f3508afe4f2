-- ===== src/Nanopb/Decode/Bounds.antt =====
-- Where the decoders of values store.
pub mod Items
pub mod Counts
pub mod Arrays
use answrapp.Common.{
  ℕ, zero, suc, ◌+◌, ◌-◌, ◌*◌, ◌%◌, ◌^◌, ◌≤◌, ◌<◌, ◌≡◌, ◌≢◌, refl, sym, ◌⊎◌, inl, inr, Bool, true,
  false, ◌&&◌, Bool-cases, Option, none, some, List, get_or, arith, ltb, leb, ◌==◌, ==_iff,
  if◌then◌else◌,
}
use answrapp.Common.Int.{ℤ, signed, pattern_of, ◌=ℤ◌}
use answrapp.Nanopb.Types.{
  Field, ltype, htype, atype, Error, bytes_overflow, string_overflow, size_max, integer_too_large,
}
use answrapp.Nanopb.Types.Ltype
use answrapp.Nanopb.Types.Htype
use answrapp.Nanopb.Types.Atype
use answrapp.Nanopb.Input.{read}
use answrapp.Nanopb.Varint.{decode_varint, decode_varint32}
use answrapp.Nanopb.Scalar.{decode_bool, decode_svarint, decode_fixed32, decode_fixed64}
use answrapp.Nanopb.Field.{narrow, narrow_unsigned, bytes_alloc_size}
use answrapp.Nanopb.Decode.{
  Machine, Outcome, Step, ◌>>=◌, ◌>>◌, pure, give, reading, raise, changing, attempt, write_number,
  write_list, byte_of, Context, MessageDecoder,
}
use answrapp.Nanopb.Decode.Value.{
  dec_bool, store_signed, dec_varint, store_unsigned, dec_uvarint, dec_svarint, dec_fixed32,
  dec_fixed64, room, fill_bytes, dec_bytes, fill_string, dec_string, dec_fixed_length_bytes,
  dec_value,
}
use answrapp.Nanopb.Struct
use answrapp.Nanopb.Decode
use answrapp.Nanopb.Decode.Value
use answrapp.Nanopb.Decode.Keeps.{
  Keeps, Apart, bind-Keeps, then-Keeps, if-Keeps, reading-Keeps, raise-Keeps, pure-Keeps,
  fault-Keeps, give-Keeps, attempt-Keeps, write-Keeps,
}

-- A field whose size is that of its type: at least one byte for a bool, four and eight for the
-- fixed-width numbers, which the decoders store whatever `data_size` is.
pub record IsSized (field : Field) : Type 0 where
  pub bool : ltype field.type ≡ Ltype.bool → 1 ≤ field.data_size
  pub fixed32 : ltype field.type ≡ Ltype.fixed32 → 4 ≤ field.data_size
  pub fixed64 : ltype field.type ≡ Ltype.fixed64 → 8 ≤ field.data_size

module _ (Free : ℕ → Type 0) (field : Field) (dest : ℕ)
    (own : (x : ℕ) → Free x → Apart dest field.data_size x) where
  own_write :
      (a count : ℕ) (bytes : ℕ → ℕ)
      → dest ≤ a
      → a + count ≤ dest + field.data_size
      → Keeps Free (changing (Struct.write_bytes a count bytes))
  own_write a count bytes lo hi = write-Keeps a count bytes (λ x free. within x (own x free))
    where
      within : (x : ℕ) → Apart dest field.data_size x → Apart a count x
      within x (inl lt) = inl (omega arith)
      within x (inr ge) = inr (omega arith)

  dec_bool-Keeps : 1 ≤ field.data_size → Keeps Free (dec_bool dest)
  unfolding dec_bool
  dec_bool-Keeps h =
      bind-Keeps (reading-Keeps decode_bool)
        (λ value. own_write dest 1 (byte_of (if value then 1 else 0)) (omega arith) (omega arith))

  store_signed-Keeps :
      (o : Option ℤ) (svalue : ℤ) → Keeps Free (store_signed o field.data_size dest svalue)
  store_signed-Keeps none svalue = raise-Keeps _
  store_signed-Keeps (some clamped) svalue =
      then-Keeps
        (own_write dest field.data_size (byte_of (pattern_of (8 * field.data_size) clamped))
          (omega arith) (omega arith))
        (if-Keeps (clamped =ℤ svalue) (λ e. pure-Keeps tt) (λ e. raise-Keeps integer_too_large))

  store_unsigned-Keeps :
      (o : Option ℕ) (value : ℕ) → Keeps Free (store_unsigned o field.data_size dest value)
  store_unsigned-Keeps none value = raise-Keeps _
  store_unsigned-Keeps (some clamped) value =
      then-Keeps (own_write dest field.data_size (byte_of clamped) (omega arith) (omega arith))
        (if-Keeps (clamped == value) (λ e. pure-Keeps tt) (λ e. raise-Keeps integer_too_large))

  dec_varint-Keeps : Keeps Free (dec_varint field dest)
  unfolding dec_varint
  dec_varint-Keeps = bind-Keeps (reading-Keeps decode_varint) (λ value.
      let svalue = if field.data_size == 8 then signed 64 value else signed 32 (value % 2 ^ 32) in
      store_signed-Keeps (narrow field.data_size svalue) svalue)

  dec_uvarint-Keeps : Keeps Free (dec_uvarint field dest)
  unfolding dec_uvarint
  dec_uvarint-Keeps =
      bind-Keeps (reading-Keeps decode_varint)
        (λ value. store_unsigned-Keeps (narrow_unsigned field.data_size value) value)

  dec_svarint-Keeps : Keeps Free (dec_svarint field dest)
  unfolding dec_svarint
  dec_svarint-Keeps =
      bind-Keeps (reading-Keeps decode_svarint)
        (λ value. store_signed-Keeps (narrow field.data_size value) value)

  dec_fixed32-Keeps : 4 ≤ field.data_size → Keeps Free (dec_fixed32 dest)
  unfolding dec_fixed32
  dec_fixed32-Keeps h =
      bind-Keeps (reading-Keeps decode_fixed32)
        (λ value. own_write dest 4 (byte_of value) (omega arith) (omega arith))

  dec_fixed64-Keeps : 8 ≤ field.data_size → Keeps Free (dec_fixed64 dest)
  unfolding dec_fixed64
  dec_fixed64-Keeps h =
      bind-Keeps (reading-Keeps decode_fixed64)
        (λ value. own_write dest 8 (byte_of value) (omega arith) (omega arith))

  module _ (ctx : Context) (is_static : atype field.type ≡ Atype.static) where
    not_pointer : (atype field.type == Atype.pointer) ≡ false
    not_pointer = rw is_static refl

    -- In a static field the room is the field itself.
    room-Keeps :
        (alloc_size : ℕ) (overflow : Error) (k : ℕ → Step (Unit {0}))
        → (alloc_size ≤ field.data_size → Keeps Free (k dest))
        → Keeps Free (room ctx field dest alloc_size overflow >>= k)
    unfolding room
    room-Keeps alloc_size overflow k h =
        rw not_pointer (elim (Bool-cases (ltb field.data_size alloc_size)) [
          | inl short ↦ rw short (raise-Keeps overflow)
          | inr long ↦ rw long (same (h (ground arith)))
        ])
      where
        same : Keeps Free (k dest) → Keeps Free (pure dest >>= k)
        same p = p

    fill_bytes-Keeps : (size : ℕ) → size + 4 ≤ field.data_size → Keeps Free (fill_bytes size dest)
    fill_bytes-Keeps size h =
        then-Keeps (own_write dest 4 (byte_of size) (omega arith) (omega arith)) (
          bind-Keeps (reading-Keeps (read size)) (λ bytes.
            own_write (dest + 4) size (λ i. get_or bytes i 0) (omega arith) (omega arith)))

    fill_string-Keeps : (size : ℕ) → size + 1 ≤ field.data_size → Keeps Free (fill_string size dest)
    fill_string-Keeps size h =
        bind-Keeps
          (attempt-Keeps (
            bind-Keeps (reading-Keeps (read size))
              (λ bytes. own_write dest size (λ i. get_or bytes i 0) (omega arith) (omega arith))))
          (λ status.
            then-Keeps (own_write (dest + size) 1 (byte_of 0) (omega arith) (omega arith))
              (give-Keeps status))

    dec_bytes-Keeps : Keeps Free (dec_bytes ctx field dest)
    unfolding dec_bytes
    dec_bytes-Keeps = bind-Keeps (reading-Keeps decode_varint32) (λ size.
        if-Keeps (ltb size_max size) (λ e. raise-Keeps bytes_overflow)
          (λ small.
            if-Keeps (ltb (bytes_alloc_size size) size) (λ e. raise-Keeps _)
              (λ e.
                room-Keeps (bytes_alloc_size size) bytes_overflow (fill_bytes size)
                  (λ fits. fill_bytes-Keeps size (ground arith)))))

    dec_string-Keeps : Keeps Free (dec_string ctx field dest)
    unfolding dec_string
    dec_string-Keeps = bind-Keeps (reading-Keeps decode_varint32) (λ size.
        if-Keeps (ltb ((size + 1) % 2 ^ 32) size) (λ e. raise-Keeps _)
          (λ no_wrap.
            room-Keeps ((size + 1) % 2 ^ 32) string_overflow (fill_string size)
              (λ fits. fill_string-Keeps size (ground arith))))

  dec_fixed_length_bytes-Keeps : Keeps Free (dec_fixed_length_bytes field dest)
  unfolding dec_fixed_length_bytes
  dec_fixed_length_bytes-Keeps = bind-Keeps (reading-Keeps decode_varint32) (λ size.
      if-Keeps (ltb size_max size) (λ e. raise-Keeps _)
        (λ e.
          if-Keeps (size == 0)
            (λ e. own_write dest field.data_size (λ i. 0) (omega arith) (omega arith))
            (λ e.
              if-Keeps (size == field.data_size)
                (λ e. bind-Keeps (reading-Keeps (read field.data_size)) (λ bytes.
                  own_write dest field.data_size (λ i. get_or bytes i 0) (omega arith)
                    (omega arith)))
                (λ e. raise-Keeps _))))

  -- The decoder of a value that is no submessage stores only in the `data_size` bytes at `dest`, in a
  -- static field.
  pub dec_value-Keeps :
      (ctx : Context) (decode decode_noinit : MessageDecoder)
      → atype field.type ≡ Atype.static
      → ltype field.type ≢ Ltype.submessage
      → IsSized field
      → Keeps Free (dec_value ctx decode decode_noinit field dest)
  unfolding dec_value
  dec_value-Keeps ctx decode decode_noinit is_static plain sized =
      let is = λ (k : ℕ) (e : (ltype field.type == k) ≡ true). (==_iff (ltype field.type) k).0 e in
      if-Keeps (ltype field.type == Ltype.bool) (λ e. dec_bool-Keeps (sized.bool (is _ e)))
        (λ e.
          if-Keeps (ltype field.type == Ltype.varint) (λ e. dec_varint-Keeps)
            (λ e.
              if-Keeps (ltype field.type == Ltype.uvarint) (λ e. dec_uvarint-Keeps)
                (λ e.
                  if-Keeps (ltype field.type == Ltype.svarint) (λ e. dec_svarint-Keeps)
                    (λ e.
                      if-Keeps (ltype field.type == Ltype.fixed32)
                        (λ e. dec_fixed32-Keeps (sized.fixed32 (is _ e)))
                        (λ e.
                          if-Keeps (ltype field.type == Ltype.fixed64)
                            (λ e. dec_fixed64-Keeps (sized.fixed64 (is _ e))) (λ e. blobs is))))))
    where
      blobs :
          ((k : ℕ) → (ltype field.type == k) ≡ true → ltype field.type ≡ k)
          → Keeps Free (
              if ltype field.type == Ltype.bytes
              then dec_bytes ctx field dest
              else if ltype field.type == Ltype.string
              then dec_string ctx field dest
              else if ltype field.type == Ltype.submessage
              then Value.dec_submessage ctx decode decode_noinit field dest
              else if ltype field.type == Ltype.fixed_length_bytes
              then dec_fixed_length_bytes field dest
              else (λ s. Decode.fault))
      blobs is =
          if-Keeps (ltype field.type == Ltype.bytes) (λ e. dec_bytes-Keeps ctx is_static)
            (λ e.
              if-Keeps (ltype field.type == Ltype.string) (λ e. dec_string-Keeps ctx is_static)
                (λ e.
                  if-Keeps (ltype field.type == Ltype.submessage) (λ e. absurd (plain (is _ e)))
                    (λ e.
                      if-Keeps (ltype field.type == Ltype.fixed_length_bytes)
                        (λ e. dec_fixed_length_bytes-Keeps) (λ e. fault-Keeps))))
