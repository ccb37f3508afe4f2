-- ===== src/Nanopb/Message/Consistent/Values.antt =====
-- The value of a field, and its tag.
use answrapp.Common.{
  ℕ, zero, suc, ◌+◌, ◌-◌, ◌^◌, ◌/◌, leb, ◌≤◌, ◌≡◌, refl, inl, inr, Bool, true, false, not, ◌&&◌,
  ◌||◌, Bool-cases, Option, none, some, List, [], ◌∷◌, arith, ltb, ◌==◌, if◌then◌else◌, length,
  length-tabulate,
}
use answrapp.Nanopb.Field.{bytes_alloc_size}
use answrapp.Nanopb.Types.{
  invalid_field_type, invalid_data_size, invalid_descriptor, Field, ltype, atype, IsU32, IsU64,
}
use answrapp.Nanopb.Types.Atype
use answrapp.Nanopb.Types.Ltype
use answrapp.Nanopb.Output.{Encoder, raise, write, write_null}
use answrapp.Nanopb.Scalar.Encode.{
  write_filled, encode_varint, encode_bool, encode_svarint, encode_string, encode_tag, tag_number,
  encode_tag_for_field, wire_type_of,
}
use answrapp.Nanopb.Output.Emits.{write-Emits}
use answrapp.Nanopb.Varint.{varint_groups, clear_last, varint_bytes}
use mathlib.Core.Option
use answrapp.Nanopb.Scalar.RoundTrip.{encode_fixed32-Emits, encode_fixed64-Emits}
use answrapp.Nanopb.Field.Encode.{
  enc_varint, enc_uvarint, enc_svarint, enc_bytes, enc_string, enc_fixed_length_bytes, until_zero,
  is_integer_size,
}
use answrapp.Nanopb.Field.Blobs.{encode_string-Emits}
use answrapp.Nanopb.Memory.{Memory, byte_at, load, load_bytes, load_4}
use answrapp.Nanopb.Message.{Context, MessageEncoder}
use answrapp.Nanopb.Message.Value.{
  unless_null, number_at, is_empty, submessage_at, bytes_at, fixed_length_at, encode_value,
}
use answrapp.Nanopb.Message.Consistent.{
  Consistent, Emits-Consistent, if-Consistent, raise-Fails, fault-Fails, then-Consistent,
}

-- The sizes of a field are 32 bits wide.
pub record IsField (f : Field) : Type 0 where
  pub data_size_fits : IsU32 f.data_size
  pub array_size_fits : IsU32 f.array_size

-- A list of at most so many bytes, if there is one.
abbrev AtMost : ℕ → Option (List ℕ) → Type 0
AtMost k o = (bs : List ℕ) → o ≡ some bs → length bs ≤ k

cons-AtMost :
    (k b : ℕ) (o : Option (List ℕ)) → AtMost k o → AtMost (suc k) (Option.map (λ bs. b ∷ bs) o)
cons-AtMost k b none h bs e = cc
cons-AtMost k b (some cs) h bs e = ground (arith, h cs refl)

varint_groups-AtMost : (k v : ℕ) → AtMost k (varint_groups k v)
unfolding varint_groups
varint_groups-AtMost zero v bs e = ground arith
varint_groups-AtMost (suc k) v bs e = elim (Bool-cases (v == 0)) [
  | inl z ↦ let e' = rw z at e in ground arith
  | inr nz ↦
      cons-AtMost k _ (varint_groups k (v / 2 ^ 7)) (varint_groups-AtMost k (v / 2 ^ 7)) bs
        (rw nz at e)
]

length-clear_last : (bs : List ℕ) → length (clear_last bs) ≡ length bs
unfolding clear_last
length-clear_last [] = refl
length-clear_last (b ∷ []) = refl
length-clear_last (b ∷ c ∷ bs) = omega (arith, length-clear_last (c ∷ bs))

clear_last-AtMost : (k : ℕ) (o : Option (List ℕ)) → AtMost k o → AtMost k (Option.map clear_last o)
clear_last-AtMost k none h bs e = cc
clear_last-AtMost k (some cs) h bs e = ground (arith, h cs refl, length-clear_last cs)

varint_bytes-AtMost : (v : ℕ) → AtMost 10 (varint_bytes v)
unfolding varint_bytes
varint_bytes-AtMost v bs e = elim (Bool-cases (leb v 0x7f)) [
  | inl small ↦ let e' = rw small at e in ground arith
  | inr large ↦
      clear_last-AtMost 10 (varint_groups 10 v) (varint_groups-AtMost 10 v) bs (rw large at e)
]

write_filled-Consistent : (o : Option (List ℕ)) → AtMost 10 o → Consistent (write_filled o)
write_filled-Consistent none h = inr fault-Fails
write_filled-Consistent (some bytes) h =
    Emits-Consistent (write-Emits bytes (omega (arith, h bytes refl)))

pub varint-Consistent : (v : ℕ) → Consistent (encode_varint v)
unfolding encode_varint
varint-Consistent v = write_filled-Consistent (varint_bytes v) (varint_bytes-AtMost v)

until_zero-length : (room : ℕ) (memory : List ℕ) → length (until_zero room memory) ≤ room
unfolding until_zero
until_zero-length zero memory = omega arith
until_zero-length (suc room) [] = omega arith
until_zero-length (suc room) (c ∷ memory) = ground (arith, until_zero-length room memory)

string-Consistent : (bytes : List ℕ) → IsU64 (length bytes) → Consistent (encode_string bytes)
string-Consistent bytes h = Emits-Consistent (encode_string-Emits bytes h)

bool-Consistent : (b : Bool) → Consistent (encode_bool b)
unfolding encode_bool
bool-Consistent true = varint-Consistent 1
bool-Consistent false = varint-Consistent 0

-- Any wire type and any field number.
pub tag-Consistent : (wt f : ℕ) → Consistent (encode_tag wt f)
unfolding encode_tag
tag-Consistent wt f = varint-Consistent (tag_number wt f)

optional_tag-Consistent :
    (o : Option ℕ) (f : ℕ)
    → Consistent (elim o [ none ↦ raise invalid_field_type | some wt ↦ encode_tag wt f ])
optional_tag-Consistent none f = inr (raise-Fails _)
optional_tag-Consistent (some wt) f = tag-Consistent wt f

pub field_tag-Consistent : (field : Field) → Consistent (encode_tag_for_field field)
unfolding encode_tag_for_field
field_tag-Consistent field = optional_tag-Consistent (wire_type_of (ltype field.type)) field.tag

null-Consistent : (n : ℕ) → Consistent (write_null n)
unfolding write_null write
null-Consistent zero = Emits-Consistent {bytes = []} (write-Emits [] (omega arith))
null-Consistent (suc n) = inr (record { never = λ f w t e. ground arith })

number_at-Consistent :
    (field : Field) {m : Encoder} (src : ℕ) → Consistent m → Consistent (number_at field src m)
number_at-Consistent field src c =
    if-Consistent (src == 0 && is_integer_size field.data_size) (inr fault-Fails) c

unless_null-Consistent : {m : Encoder} (src : ℕ) → Consistent m → Consistent (unless_null src m)
unless_null-Consistent src c = if-Consistent (src == 0) (inr fault-Fails) c

-- A value of an integer field.
sized-Consistent :
    (size : ℕ) {m : Encoder}
    → Consistent m
    → Consistent (if is_integer_size size then m else raise invalid_data_size)
sized-Consistent size c = if-Consistent (is_integer_size size) c (inr (raise-Fails _))

enc_bytes-Consistent :
    (field : Field) (o : Option (List ℕ))
    → ((bytes : List ℕ) → o ≡ some bytes → IsU64 (length bytes))
    → Consistent (enc_bytes field o)
unfolding enc_bytes
enc_bytes-Consistent field none h = string-Consistent [] (omega arith)
enc_bytes-Consistent field (some bytes) h =
    if-Consistent
      (ltb (bytes_alloc_size (length bytes)) (length bytes)
        || (atype field.type == Atype.static
            && ltb field.data_size (bytes_alloc_size (length bytes))))
      (inr (raise-Fails _)) (string-Consistent bytes (h bytes refl))

bytes_at-IsU64 :
    (mem : Memory) (a : ℕ) (bytes : List ℕ) → bytes_at mem a ≡ some bytes → IsU64 (length bytes)
bytes_at-IsU64 mem a bytes h =
    ground (arith, load_4 mem a, length-tabulate (load mem 4 a) (a + 4) (byte_at mem))

enc_string-Consistent :
    (field : Field) (memory : Option (List ℕ))
    → IsField field
    → Consistent (enc_string field memory)
unfolding enc_string
enc_string-Consistent field none w = string-Consistent [] (omega arith)
enc_string-Consistent field (some memory) w =
    let room = if atype field.type == Atype.pointer then 2 ^ 64 - 1 else field.data_size in
    string-Consistent (until_zero room memory) (ground (arith, until_zero-length room memory))

fixed_length-Consistent :
    (field : Field) (mem : Memory) (a : ℕ)
    → IsField field
    → Consistent (fixed_length_at mem field a)
unfolding enc_fixed_length_bytes
fixed_length-Consistent field mem a w =
    if-Consistent (a == 0)
      (then-Consistent (varint-Consistent field.data_size) (null-Consistent field.data_size))
      (string-Consistent (load_bytes mem field.data_size a)
        (omega (arith, length-tabulate field.data_size a (byte_at mem), w.data_size_fits)))

-- What submessages are encoded by.
abbrev pub Submessages : Context → MessageEncoder → Type 0
Submessages ctx submessage = (p a : ℕ) → Consistent (submessage (ctx.descriptor p) a)

module _ (ctx : Context) (submessage : MessageEncoder) (sub : Submessages ctx submessage) where
  submessage-Consistent :
      (o : Option ℕ) (src : ℕ)
      → Consistent (elim o [
        | none ↦ raise invalid_descriptor
        | some fields ↦ submessage_at submessage (ctx.descriptor fields) src
      ])
  submessage-Consistent none src = inr (raise-Fails _)
  submessage-Consistent (some p) src =
      if-Consistent (src == 0 && not (is_empty (ctx.descriptor p))) (inr fault-Fails) (sub p src)

  pub value-Consistent :
      (field : Field) (src : ℕ) → IsField field → Consistent (encode_value ctx submessage field src)
  unfolding encode_value enc_varint enc_uvarint enc_svarint encode_svarint
  value-Consistent field src w =
      let l = ltype field.type in
      let mem = ctx.memory in
      if-Consistent (l == Ltype.bool) (unless_null-Consistent src (bool-Consistent _)) (
        if-Consistent (l == Ltype.varint)
          (number_at-Consistent field src (sized-Consistent field.data_size (varint-Consistent _)))
          (if-Consistent (l == Ltype.uvarint)
            (number_at-Consistent field src
              (sized-Consistent field.data_size (varint-Consistent _)))
            (if-Consistent (l == Ltype.svarint)
              (number_at-Consistent field src
                (sized-Consistent field.data_size (varint-Consistent _)))
              (if-Consistent (l == Ltype.fixed32)
                (unless_null-Consistent src (Emits-Consistent (encode_fixed32-Emits _)))
                (if-Consistent (l == Ltype.fixed64)
                  (unless_null-Consistent src (Emits-Consistent (encode_fixed64-Emits _)))
                  (if-Consistent (l == Ltype.bytes)
                    (enc_bytes-Consistent field _ (bytes_at-IsU64 mem src))
                    (if-Consistent (l == Ltype.string) (enc_string-Consistent field _ w) (
                      if-Consistent (l == Ltype.submessage) (submessage-Consistent field.ptr src) (
                        if-Consistent (l == Ltype.fixed_length_bytes)
                          (fixed_length-Consistent field mem src w) (inr fault-Fails))))))))))
