-- ===== src/Nanopb/Varint/Decode64.antt =====
-- `pb_decode_varint` on the format of a varint.
use answrapp.Common.{
  ℕ, zero, suc, ◌+◌, ◌*◌, ◌/◌, ◌%◌, ◌^◌, ◌<◌, ◌≡◌, ap, ◌∙◌, inl, inr, true, false, bit_and, bit_or,
  Option, List, ◌∷◌, ◌++◌, arith, ltb, leb, ◌==◌, Bool-cases, length,
}
use answrapp.Common.Bits.{mask_80, or_disjoint}
use answrapp.Common.Bits.Masks.{and_7f}
use Prim.Native.Nat.add
use native.Mathlib.Nat.{div-add-mod, mod-eq_of_lt}
use native.Mathlib.Numerals.{towards_suc}
use answrapp.Nanopb.Types.{Error, IsU64}
use answrapp.Nanopb.Input.{ok}
use answrapp.Nanopb.Input.Buffer.{over, readbyte-buffer}
use answrapp.Nanopb.Varint.{shl, next_bitpos, varint_loop, decode_varint}
use answrapp.Nanopb.Varint.Format.{varint}

-- The accumulating step `result |= (uint64_t)(byte & 0x7F) << bitpos` adds.
pub or-group :
    (w bitpos result byte g : ℕ)
    → bit_and byte 0x7f ≡ g
    → result < 2 ^ bitpos
    → g * 2 ^ bitpos < 2 ^ w
    → bit_or result (shl w (bit_and byte 0x7f) bitpos) ≡ result + g * 2 ^ bitpos
or-group w bitpos result byte g e low fits =
    rw (e, mod-eq_of_lt fits, or_disjoint bitpos result g low)

last_byte :
    (fuel bitpos result w n : ℕ) (rest : List ℕ) (err : Option Error)
    → w < 128
    → bitpos < 64
    → result < 2 ^ bitpos
    → w * 2 ^ bitpos < 2 ^ 64
    → varint_loop (suc fuel) bitpos result (over (w ∷ rest) (suc n) err)
      ≡ ok (result + w * 2 ^ bitpos) (over rest n err)
unfolding varint_loop
last_byte fuel bitpos result w n rest err hw hb low fits =
    let more : leb 64 bitpos ≡ false = ground arith in
    let stop : (bit_and w 0x80 == 0) ≡ true = ground (arith, mask_80 w) in
    rw (more, readbyte-buffer w rest n err, stop)
      (rw (or-group 64 bitpos result w w (and_7f w ∙ omega arith) low fits))

inner_byte :
    (fuel bitpos result g n : ℕ) (rest : List ℕ) (err : Option Error)
    → g < 128
    → bitpos < 64
    → result < 2 ^ bitpos
    → g * 2 ^ bitpos < 2 ^ 64
    → varint_loop (suc fuel) bitpos result (over ((g + 128) ∷ rest) (suc n) err)
      ≡ varint_loop fuel (bitpos + 7) (result + g * 2 ^ bitpos) (over rest n err)
unfolding varint_loop
inner_byte fuel bitpos result g n rest err hg hb low fits =
    let more : leb 64 bitpos ≡ false = ground arith in
    let continue : (bit_and (g + 128) 0x80 == 0) ≡ false = ground (arith, mask_80 (g + 128)) in
    let next : next_bitpos bitpos ≡ bitpos + 7 = omega arith in
    rw (more, readbyte-buffer (g + 128) rest n err, continue, next)
      (rw (or-group 64 bitpos result (g + 128) g (and_7f (g + 128) ∙ omega arith) low fits))

shift_seven : (b : ℕ) → 2 ^ (b + 7) ≡ 128 * 2 ^ b
shift_seven b = simp towards_suc (omega arith)

-- The lowest group of `v` and the others, each at its place.
pub split_group : (v b : ℕ) → v * 2 ^ b ≡ v % 128 * 2 ^ b + v / 128 * 2 ^ (b + 7)
split_group v b = omega (
  arith,
  ap (λ (t : ℕ). t * 2 ^ b) (div-add-mod v 128),
  ap (λ (t : ℕ). v / 128 * t) (shift_seven b),
)

-- The value so far fills the bits below `bitpos`.
pub group_below : (g b r : ℕ) → g < 128 → r < 2 ^ b → r + g * 2 ^ b < 2 ^ (b + 7)
group_below g b r hg hr = rw (shift_seven b) (grind arith)

varint_loop-varint :
    (k v fuel bitpos result n : ℕ) (rest : List ℕ) (err : Option Error)
    → v < 128 ^ suc k
    → k < fuel
    → bitpos + 7 * k < 64
    → result < 2 ^ bitpos
    → result + v * 2 ^ bitpos < 2 ^ 64
    → varint_loop fuel bitpos result (over (varint k v ++ rest) (length (varint k v) + n) err)
      ≡ ok (result + v * 2 ^ bitpos) (over rest n err)
unfolding varint
varint_loop-varint k v zero bitpos result n rest err hv hf hb low fits = absurd (omega arith)
varint_loop-varint zero v (suc fuel) bitpos result n rest err hv hf hb low fits = rw add.suc (
    rw add.zero
      (last_byte fuel bitpos result v n rest err (omega arith) (omega arith) low (omega arith)))
varint_loop-varint (suc k) v (suc fuel) bitpos result n rest err hv hf hb low fits =
    let parts = split_group v bitpos in
    elim (Bool-cases (ltb v 128)) [
      | inl small ↦
          rw (small, add.suc, add.zero)
            (last_byte fuel bitpos result v n rest err (ground arith) (omega arith) low
              (omega arith))
      | inr large ↦
          rw (large, add.suc)
            (inner_byte fuel bitpos result (v % 128) _ _ err (omega arith) (omega arith) low
                (omega arith)
              ∙ varint_loop-varint k (v / 128) fuel (bitpos + 7) (result + v % 128 * 2 ^ bitpos) n
                  rest err (omega arith) (omega arith) (omega arith)
                  (group_below (v % 128) bitpos result (omega arith) low) (omega arith)
              ∙ ap (λ t. ok t (over rest n err)) (omega arith))
    ]

-- On a stream over the format of a uint64 and any bytes behind it, `pb_decode_varint` returns the
-- number and stops at the bytes behind.
pub decode_varint-varint :
    (v n : ℕ) (rest : List ℕ) (err : Option Error)
    → IsU64 v
    → decode_varint (over (varint 9 v ++ rest) (length (varint 9 v) + n) err)
      ≡ ok v (over rest n err)
unfolding decode_varint
decode_varint-varint v n rest err h =
    varint_loop-varint 9 v 11 0 0 n rest err (omega arith) (omega arith) (omega arith) (omega arith)
      (omega arith)
    ∙ ap (λ t. ok t (over rest n err)) (omega arith)
