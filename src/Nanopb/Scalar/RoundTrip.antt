-- ===== src/Nanopb/Scalar/RoundTrip.antt =====
-- The writers of single values in pb_encode.c against the readers of pb_decode.c. The bytes between
-- them are named once, for both sides.
use answrapp.Common.{
  ℕ, zero, suc, ◌+◌, ◌*◌, ◌^◌, ◌≤◌, ◌<◌, ◌≡◌, refl, ◌∙◌, sym, List, [], ◌∷◌, arith, length, All,
}
use mathlib.Core.Path.{subst}
use answrapp.Common.Bits.{or_disjoint}
use answrapp.Common.Bits.Masks.{and_1, and_ff}
use answrapp.Common.Int.{ℤ, pos, negsuc, Within}
use native.Mathlib.Nat.{mod-eq_of_lt, pow-le-pow_right}
use native.Mathlib.Numerals.{towards_suc}
use answrapp.Nanopb.Types.{IsByte, IsU32, IsU64}
use answrapp.Nanopb.Input.{Decoder, read}
use answrapp.Nanopb.Input.Parses.{Parses, read-Parses, map-Parses}
use answrapp.Nanopb.Output.{Encoder}
use answrapp.Nanopb.Output.Emits.{Emits, write-Emits}
use answrapp.Nanopb.Varint.{decode_varint, decode_varint32}
use answrapp.Nanopb.Varint.Format.{varint, varint_bytes-format, length-varint}
use answrapp.Nanopb.Varint.Decode64.{decode_varint-varint}
use answrapp.Nanopb.Varint.Decode32.{decode_varint32-varint}
use answrapp.Nanopb.Scalar.{unzigzag, decode_svarint, join_bytes, decode_fixed32, decode_fixed64}
use answrapp.Nanopb.Scalar.Encode.{
  write_filled, encode_varint, zigzag, encode_svarint, split_bytes, encode_fixed32, encode_fixed64,
}

-- The bytes that `enc` writes are read by `dec` as `a`, with anything behind them left alone.
abbrev pub RoundTrips {ℓ} : {A : Type ℓ} → Encoder → Decoder A → A → Type ℓ
RoundTrips enc dec a = (bytes : List ℕ) × Emits enc bytes × Parses dec bytes a

pub encode_varint-Emits : (v : ℕ) → IsU64 v → Emits (encode_varint v) (varint 9 v)
unfolding encode_varint
encode_varint-Emits v h =
    subst (λ o. Emits (write_filled o) (varint 9 v)) (sym (varint_bytes-format v h))
      (write-Emits (varint 9 v) (omega (arith, length-varint 9 v)))

-- `pb_decode_varint` reads back every uint64 that `pb_encode_varint` writes.
pub varint_round_trip : (v : ℕ) → IsU64 v → RoundTrips (encode_varint v) decode_varint v
varint_round_trip v h =
    (varint 9 v, encode_varint-Emits v h, λ rest n err. decode_varint-varint v n rest err h)

-- `pb_decode_varint32` reads back every uint32 that `pb_encode_varint` writes.
pub varint32_round_trip : (v : ℕ) → IsU32 v → RoundTrips (encode_varint v) decode_varint32 v
varint32_round_trip v h = (
  varint 9 v,
  encode_varint-Emits v (omega arith),
  λ rest n err. decode_varint32-varint v n rest err h,
)

zigzag_fits : (z : ℤ) → Within (2 ^ 63) z → IsU64 (zigzag z)
zigzag_fits (pos n) h = omega arith
zigzag_fits (negsuc n) h = omega arith

unzigzag-zigzag : (z : ℤ) → Within (2 ^ 63) z → unzigzag (zigzag z) ≡ z
unzigzag-zigzag (pos n) h = rw and_1 (ground arith)
unzigzag-zigzag (negsuc n) h = rw and_1 (ground arith)

-- `pb_decode_svarint` reads back every int64 that `pb_encode_svarint` writes.
pub svarint_round_trip :
    (z : ℤ) → Within (2 ^ 63) z → RoundTrips (encode_svarint z) decode_svarint z
unfolding encode_svarint decode_svarint
svarint_round_trip z h =
    let (bytes, emits, parses) = varint_round_trip (zigzag z) (zigzag_fits z h) in
    (
      bytes,
      emits,
      subst (Parses decode_svarint bytes) (unzigzag-zigzag z h)
          (map-Parses decode_varint unzigzag bytes (zigzag z) parses),
    )

join_step :
    (w at result b : ℕ) (bs : List ℕ)
    → result < 2 ^ at
    → b * 2 ^ at < 2 ^ w
    → join_bytes w at result (b ∷ bs) ≡ join_bytes w (at + 8) (result + b * 2 ^ at) bs
unfolding join_bytes
join_step w at result b bs low fits = rw (mod-eq_of_lt fits, or_disjoint at result b low)

shift_eight : (at : ℕ) → 2 ^ (at + 8) ≡ 256 * 2 ^ at
shift_eight at = simp towards_suc (omega arith)

-- The number that bytes stand for, the lowest first, from bit `at` on.
unfoldable pub little_endian : ℕ → List ℕ → ℕ
little_endian at [] = 0
little_endian at (b ∷ bs) = b * 2 ^ at + little_endian (at + 8) bs

byte_shift : (b x : ℕ) → IsByte b → b * x ≤ 255 * x
byte_shift b x h = grind arith

-- Within the word the shifts lose nothing, and `|` adds.
pub join-little_endian :
    (w at result : ℕ) (bs : List ℕ)
    → All IsByte bs
    → result < 2 ^ at
    → at + 8 * length bs ≤ w
    → join_bytes w at result bs ≡ result + little_endian at bs
join-little_endian w at result [] h low fits = unfold join_bytes little_endian in omega arith
join-little_endian w at result (b ∷ bs) (hb, h) low fits =
    let word : 2 ^ (at + 8) ≤ 2 ^ w = pow-le-pow_right (omega arith) (omega arith) in
    let eight = shift_eight at in
    let below = byte_shift b (2 ^ at) hb in
    join_step w at result b bs low (omega (arith, low))
    ∙ join-little_endian w (at + 8) (result + b * 2 ^ at) bs h (omega arith) (omega arith)
    ∙ unfold little_endian in omega arith

little_endian-split_32 : (v : ℕ) → IsU32 v → little_endian 0 (split_bytes 4 0 v) ≡ v
unfolding little_endian split_bytes
little_endian-split_32 v h = omega (arith, and_ff)

little_endian-split_64 : (v : ℕ) → IsU64 v → little_endian 0 (split_bytes 8 0 v) ≡ v
unfolding little_endian split_bytes
little_endian-split_64 v h = omega (arith, and_ff)

split_bytes-IsByte : (count at v : ℕ) → All IsByte (split_bytes count at v)
unfolding split_bytes
split_bytes-IsByte zero at v = tt
split_bytes-IsByte (suc count) at v = (omega arith, split_bytes-IsByte count (at + 8) v)

-- `pb_decode_fixed32` and `pb_decode_fixed64` read a little-endian number.
pub fixed32-Parses :
    (bytes : List ℕ) {v : ℕ}
    → length bytes ≡ 4
    → All IsByte bytes
    → little_endian 0 bytes ≡ v
    → Parses decode_fixed32 bytes v
unfolding decode_fixed32
fixed32-Parses bytes e h value =
    subst (Parses decode_fixed32 bytes)
      (join-little_endian 32 0 0 bytes h (omega arith) (omega arith) ∙ omega arith)
      (map-Parses (read 4) (join_bytes 32 0 0) bytes bytes (rw (← e) (read-Parses bytes)))

pub fixed64-Parses :
    (bytes : List ℕ) {v : ℕ}
    → length bytes ≡ 8
    → All IsByte bytes
    → little_endian 0 bytes ≡ v
    → Parses decode_fixed64 bytes v
unfolding decode_fixed64
fixed64-Parses bytes e h value =
    subst (Parses decode_fixed64 bytes)
      (join-little_endian 64 0 0 bytes h (omega arith) (omega arith) ∙ omega arith)
      (map-Parses (read 8) (join_bytes 64 0 0) bytes bytes (rw (← e) (read-Parses bytes)))

pub encode_fixed32-Emits : (v : ℕ) → Emits (encode_fixed32 v) (split_bytes 4 0 v)
unfolding encode_fixed32 split_bytes
encode_fixed32-Emits v = write-Emits (split_bytes 4 0 v) (omega arith)

pub encode_fixed64-Emits : (v : ℕ) → Emits (encode_fixed64 v) (split_bytes 8 0 v)
unfolding encode_fixed64 split_bytes
encode_fixed64-Emits v = write-Emits (split_bytes 8 0 v) (omega arith)

-- `pb_decode_fixed32` reads back every uint32 that `pb_encode_fixed32` writes, in four bytes.
pub fixed32_round_trip : (v : ℕ) → IsU32 v → RoundTrips (encode_fixed32 v) decode_fixed32 v
unfolding split_bytes
fixed32_round_trip v h = (
  split_bytes 4 0 v,
  encode_fixed32-Emits v,
  fixed32-Parses (split_bytes 4 0 v) refl (split_bytes-IsByte 4 0 v) (little_endian-split_32 v h),
)

-- `pb_decode_fixed64` reads back every uint64 that `pb_encode_fixed64` writes, in eight bytes.
pub fixed64_round_trip : (v : ℕ) → IsU64 v → RoundTrips (encode_fixed64 v) decode_fixed64 v
unfolding split_bytes
fixed64_round_trip v h = (
  split_bytes 8 0 v,
  encode_fixed64-Emits v,
  fixed64-Parses (split_bytes 8 0 v) refl (split_bytes-IsByte 8 0 v) (little_endian-split_64 v h),
)
