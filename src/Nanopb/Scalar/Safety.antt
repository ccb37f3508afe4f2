-- ===== src/Nanopb/Scalar/Safety.antt =====
-- The readers of single values on a well-formed stream, whatever bytes it holds.
use answrapp.Common.{
  ℕ, zero, suc, ◌^◌, ◌≤◌, ◌<◌, bit_and, Bool, List, [], ◌∷◌, arith, ◌==◌, length, Bool-cases, inl,
  inr,
}
use answrapp.Common.Bits.Masks.{and_7}
use answrapp.Nanopb.Types.{
  IsU32, WireType, wt_varint, wt_64bit, wt_string, wt_32bit, invalid_wire_type,
}
use answrapp.Nanopb.Input.{InStream, Result, ok, failed, fault, stuck, Decoder, pure, read, skip}
use answrapp.Nanopb.Input.Safety.{
  IsValid, Follows-self, Post, Ensures, IsSafe, bind-Ensures, if-Ensures, raise-Ensures,
  pure-Ensures, read-Ensures, skip-IsSafe, Bytes, Post-mono,
}
use answrapp.Nanopb.Varint.{decode_varint32, decode_varint32_eof}
use answrapp.Nanopb.Varint.Safety.{decode_varint32-Ensures, skip_varint-IsSafe}
use answrapp.Nanopb.Scalar.{
  Tag, tag_result, decode_tag, skip_string, skip_field, raw_from, raw_varint, read_raw_value,
}

skip_string-IsSafe : IsSafe skip_string
unfolding skip_string
skip_string-IsSafe =
    bind-Ensures IsU32 (λ _. Unit) decode_varint32 skip decode_varint32-Ensures
      (λ length _. skip-IsSafe length)

-- `pb_skip_field` on a well-formed stream, for every wire type and whatever bytes it holds: it
-- terminates, stays within the stream and leaves it well formed with no more bytes left than before.
pub skip_field-IsSafe : (wire_type : WireType) → IsSafe (skip_field wire_type)
unfolding skip_field
skip_field-IsSafe wire_type =
    if-Ensures Any (wire_type == wt_varint) _ _ (λ _. skip_varint-IsSafe)
      (λ _.
        if-Ensures Any (wire_type == wt_64bit) _ _ (λ _. skip-IsSafe 8)
          (λ _.
            if-Ensures Any (wire_type == wt_string) _ _ (λ _. skip_string-IsSafe)
              (λ _.
                if-Ensures Any (wire_type == wt_32bit) _ _ (λ _. skip-IsSafe 4)
                  (λ _. raise-Ensures Any invalid_wire_type))))
  where
    Any : Unit {0} → Type 0
    Any _ = Unit

-- `pb_decode_tag`: a wire type of three bits and a tag of 29.
abbrev pub TagBounds : Tag → Type 0
TagBounds t = (t.wire_type < 8) × (t.tag < 2 ^ 29)

tag_result-Post :
    (s : InStream) (r : Result ℕ) (eof : Bool)
    → Post IsU32 s r
    → Post TagBounds s (tag_result (r, eof)).0
tag_result-Post s (ok temp t) eof h = elim (Bool-cases (temp == 0)) [
  | inl zero_tag ↦ rw zero_tag h.1
  | inr tag ↦ rw (tag, and_7) ((omega arith, omega (arith, h.0)), h.1)
]
tag_result-Post s (failed t) eof h = h
tag_result-Post s fault eof h = absurd h
tag_result-Post s stuck eof h = absurd h

varint32_eof-Post : (s : InStream) → IsValid s → Post IsU32 s (decode_varint32_eof s).0
unfolding decode_varint32
varint32_eof-Post s v = decode_varint32-Ensures s v

-- `pb_decode_tag` on a well-formed stream, whatever bytes it holds: it ends within the stream, and a
-- tag that it returns has a wire type below 8 and a number below 2 ^ 29.
pub decode_tag-Post : (s : InStream) → IsValid s → Post TagBounds s (decode_tag s).0
unfolding decode_tag
decode_tag-Post s v =
    tag_result-Post s (decode_varint32_eof s).0 (decode_varint32_eof s).1 (varint32_eof-Post s v)

abbrev AtMost : ℕ → List ℕ → Type 0
AtMost room bytes = length bytes ≤ room

raw_from-Ensures :
    (room : ℕ) (bytes : List ℕ) (more : Decoder (List ℕ))
    → Bytes 1 bytes
    → Ensures (AtMost room) more
    → Ensures (AtMost (suc room)) (raw_from bytes more)
raw_from-Ensures room [] more h hm = absurd (omega (arith, h.0))
raw_from-Ensures room (b ∷ bs) more h hm =
    if-Ensures (AtMost (suc room)) (bit_and b 0x80 == 0) _ _
      (λ _. pure-Ensures (AtMost (suc room)) (b ∷ []) (omega arith))
      (λ _.
        bind-Ensures (AtMost room) (AtMost (suc room)) more (λ rest. pure (b ∷ rest)) hm
          (λ rest hr. pure-Ensures (AtMost (suc room)) (b ∷ rest) (omega arith)))

raw_varint-Ensures : (room : ℕ) → Ensures (AtMost room) (raw_varint room)
unfolding raw_varint
raw_varint-Ensures zero = λ s v. Follows-self v
raw_varint-Ensures (suc room) =
    bind-Ensures (Bytes 1) (AtMost (suc room)) (read 1) (λ bytes. raw_from bytes (raw_varint room))
      (read-Ensures 1)
      (λ bytes hb. raw_from-Ensures room bytes (raw_varint room) hb (raw_varint-Ensures room))

read-AtMost : (count room : ℕ) → count ≤ room → Ensures (AtMost room) (read count)
read-AtMost count room h s v =
    Post-mono (Bytes count) (AtMost room) s (read count s) (λ bytes e. omega (arith, e.0))
      (read-Ensures count s v)

-- `read_raw_value` on a well-formed stream, with a buffer of `max_size` bytes, at least eight: it ends
-- within the stream, and returns at most `max_size` bytes.
pub read_raw_value-Ensures :
    (wire_type max_size : ℕ)
    → 8 ≤ max_size
    → Ensures (λ bytes. length bytes ≤ max_size) (read_raw_value wire_type max_size)
unfolding read_raw_value
read_raw_value-Ensures wire_type max_size h =
    let P = AtMost max_size in
    if-Ensures P (wire_type == wt_varint) _ _ (λ _. raw_varint-Ensures max_size)
      (λ _.
        if-Ensures P (wire_type == wt_64bit) _ _ (λ _. read-AtMost 8 max_size h)
          (λ _.
            if-Ensures P (wire_type == wt_32bit) _ _ (λ _. read-AtMost 4 max_size (omega arith))
              (λ _. raise-Ensures P invalid_wire_type)))
