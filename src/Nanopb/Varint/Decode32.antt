-- ===== src/Nanopb/Varint/Decode32.antt =====
-- `pb_decode_varint32` on the format of a varint.
use answrapp.Common.{
  ℕ, zero, suc, ◌+◌, ◌*◌, ◌/◌, ◌%◌, ◌^◌, ◌≤◌, ◌<◌, ◌≡◌, refl, ap, ◌∙◌, inl, inr, true, false, not,
  ◌&&◌, bit_and, Option, List, ◌∷◌, ◌++◌, arith, ltb, leb, ◌==◌, Bool-cases, length,
}
use answrapp.Common.Bits.{mask_80, agree_below_sound, agree_below}
use answrapp.Common.Bits.Masks.{and_7f}
use Prim.Native.Nat.add
use native.Mathlib.Nat.{pow-le-pow_right}
use answrapp.Nanopb.Types.{Error, IsU32}
use answrapp.Nanopb.Input.{InStream, Result, ok, failed, fault, stuck, readbyte}
use answrapp.Nanopb.Input.Buffer.{over, readbyte-buffer}
use answrapp.Nanopb.Varint.{
  next_bitpos, varint32_loop, varint32_from, varint32_result, decode_varint32_eof, decode_varint32,
}
use answrapp.Nanopb.Varint.Format.{varint, varint-small, varint-large}
use answrapp.Nanopb.Varint.Decode64.{or-group, split_group, group_below}

-- Only the bits below 4 of the byte at bit 28 fit.
mask_70 : (b : ℕ) → b < 16 → bit_and b 0x70 ≡ 0
unfolding agree_below
mask_70 = agree_below_sound (λ b. bit_and b 0x70) (λ b. 0) 16 refl

-- A number that fills a uint32 from bit `b` on starts below bit 32.
start_below : (v b : ℕ) → 0 < v → v * 2 ^ b < 2 ^ 32 → b < 32
start_below zero b p h = absurd (omega arith)
start_below (suc v) b p h = elim (Bool-cases (ltb b 32)) [
  | inl low ↦ ground arith
  | inr high ↦
      absurd (omega (arith, pow-le-pow_right {n = 2} (omega arith) {i = 32} {j = b} (ground arith)))
]

-- So the test behind the loop lets the number pass.
no_overflow :
    (j w : ℕ)
    → 7 * j < 32
    → w * 2 ^ (7 * j) < 2 ^ 32
    → (next_bitpos (7 * j) == 35 && not (bit_and w 0x70 == 0)) ≡ false
no_overflow j w hb fits = elim (Bool-cases (j == 4)) [
  | inl e ↦
      let four : j ≡ 4 = ground arith in
      let small : w < 16 = omega (arith, rw four at fits) in ground (arith, mask_70 w small)
  | inr ne ↦ let other : (next_bitpos (7 * j) == 35) ≡ false = ground arith in rw other
]

last_byte32 :
    (fuel j result w n : ℕ) (rest : List ℕ) (err : Option Error)
    → w < 128
    → 7 * j < 32
    → result < 2 ^ (7 * j)
    → w * 2 ^ (7 * j) < 2 ^ 32
    → varint32_loop (suc fuel) (7 * j) result (over (w ∷ rest) (suc n) err)
      ≡ ok (result + w * 2 ^ (7 * j)) (over rest n err)
unfolding varint32_loop
last_byte32 fuel j result w n rest err hw hb low fits =
    let below : leb 32 (7 * j) ≡ false = ground arith in
    let stop : (bit_and w 0x80 == 0) ≡ true = ground (arith, mask_80 w) in
    rw (readbyte-buffer w rest n err, below, stop)
      (rw
        (or-group 32 (7 * j) result w w (and_7f w ∙ omega arith) low fits, no_overflow j w hb fits))

inner_byte32 :
    (fuel j result g n : ℕ) (rest : List ℕ) (err : Option Error)
    → g < 128
    → 7 * j < 32
    → result < 2 ^ (7 * j)
    → g * 2 ^ (7 * j) < 2 ^ 32
    → varint32_loop (suc fuel) (7 * j) result (over ((g + 128) ∷ rest) (suc n) err)
      ≡ varint32_loop fuel (7 * suc j) (result + g * 2 ^ (7 * j)) (over rest n err)
unfolding varint32_loop
inner_byte32 fuel j result g n rest err hg hb low fits =
    let below : leb 32 (7 * j) ≡ false = ground arith in
    let continue : (bit_and (g + 128) 0x80 == 0) ≡ false = ground (arith, mask_80 (g + 128)) in
    let next : next_bitpos (7 * j) ≡ 7 * suc j = omega arith in
    rw (readbyte-buffer (g + 128) rest n err, below, continue, next)
      (rw (or-group 32 (7 * j) result (g + 128) g (and_7f (g + 128) ∙ omega arith) low fits))

wide : (j : ℕ) → 7 * suc j ≡ 7 * j + 7
wide j = omega arith

split_at : (v j : ℕ) → v * 2 ^ (7 * j) ≡ v % 128 * 2 ^ (7 * j) + v / 128 * 2 ^ (7 * suc j)
split_at v j = rw (wide j) (split_group v (7 * j))

varint32_loop-varint :
    (k v fuel j result n : ℕ) (rest : List ℕ) (err : Option Error)
    → v < 128 ^ suc k
    → 0 < v
    → length (varint k v) ≤ fuel
    → result < 2 ^ (7 * j)
    → result + v * 2 ^ (7 * j) < 2 ^ 32
    → varint32_loop fuel (7 * j) result (over (varint k v ++ rest) (length (varint k v) + n) err)
      ≡ ok (result + v * 2 ^ (7 * j)) (over rest n err)
unfolding varint
varint32_loop-varint zero v zero j result n rest err hv p hf low fits = absurd (omega arith)
varint32_loop-varint zero v (suc fuel) j result n rest err hv p hf low fits =
    rw (add.suc, add.zero)
      (last_byte32 fuel j result v n rest err (omega arith) (start_below v (7 * j) p (omega arith))
        low (omega arith))
varint32_loop-varint (suc k) v zero j result n rest err hv p hf low fits = absurd (ground arith)
varint32_loop-varint (suc k) v (suc fuel) j result n rest err hv p hf low fits =
    let below = start_below v (7 * j) p (omega arith) in
    let parts = split_at v j in
    elim (Bool-cases (ltb v 128)) [
      | inl small ↦
          rw (small, add.suc, add.zero)
            (last_byte32 fuel j result v n rest err (ground arith) below low (omega arith))
      | inr large ↦
          rw (large, add.suc)
            (inner_byte32 fuel j result (v % 128) _ _ err (omega arith) below low (omega arith)
              ∙ varint32_loop-varint k (v / 128) fuel (suc j) (result + v % 128 * 2 ^ (7 * j)) n
                  rest err (omega arith) (ground arith) (omega (arith, rw large at hf))
                  (rw (wide j) (group_below (v % 128) (7 * j) result (omega arith) low))
                  (omega arith)
              ∙ ap (λ t. ok t (over rest n err)) (omega arith))
    ]

varint32_from_last :
    (v n : ℕ) (rest : List ℕ) (err : Option Error)
    → v < 128
    → varint32_from v (over rest n err) ≡ ok v (over rest n err)
unfolding varint32_from
varint32_from_last v n rest err h =
    let stop : (bit_and v 0x80 == 0) ≡ true = ground (arith, mask_80 v) in rw stop

varint32_from_more :
    (v n : ℕ) (rest : List ℕ) (err : Option Error)
    → IsU32 v
    → 128 ≤ v
    → varint32_from
        (v % 128 + 128)
        (over (varint 8 (v / 128) ++ rest) (length (varint 8 (v / 128)) + n) err)
      ≡ ok v (over rest n err)
unfolding varint32_from
varint32_from_more v n rest err fits h =
    let byte : ℕ = v % 128 + 128 in
    let more : (bit_and byte 0x80 == 0) ≡ false = ground (arith, mask_80 byte) in
    let first : bit_and byte 0x7f ≡ v % 128 = and_7f byte ∙ omega arith in
    rw (more, first)
      (varint32_loop-varint 8 (v / 128) _ 1 (v % 128) n rest err (omega arith) (omega arith)
          (omega arith) (omega arith) (omega arith)
        ∙ ap (λ t. ok t (over rest n err)) (omega arith))

first_byte :
    (s : InStream) {t : InStream} {b : ℕ}
    → readbyte s ≡ ok b t
    → decode_varint32 s ≡ varint32_from b t
unfolding decode_varint32 decode_varint32_eof
first_byte s e = ap (λ r. (varint32_result r).0) e

-- On a stream over the format of a uint32 and any bytes behind it, `pb_decode_varint32` returns
-- the number and stops at the bytes behind.
pub decode_varint32-varint :
    (v n : ℕ) (rest : List ℕ) (err : Option Error)
    → IsU32 v
    → decode_varint32 (over (varint 9 v ++ rest) (length (varint 9 v) + n) err)
      ≡ ok v (over rest n err)
decode_varint32-varint v n rest err h = elim (Bool-cases (ltb v 128)) [
  | inl small ↦
      rw (varint-small 9 v (ground arith), add.suc, add.zero)
        (first_byte _ (readbyte-buffer v rest n err)
          ∙ varint32_from_last v n rest err (ground arith))
  | inr large ↦
      rw (varint-large 8 v (ground arith), add.suc)
        (first_byte _ (readbyte-buffer (v % 128 + 128) (varint 8 (v / 128) ++ rest) _ err)
          ∙ varint32_from_more v n rest err h (ground arith))
]

-- A number that was read leaves `*eof` alone.
eof_of_ok :
    (r : Result ℕ) {v : ℕ} {t : InStream}
    → (varint32_result r).0 ≡ ok v t
    → varint32_result r ≡ (ok v t, false)
eof_of_ok (ok byte t) e = ap (λ x. (x, false)) e
eof_of_ok (failed t) e = cc
eof_of_ok fault e = cc
eof_of_ok stuck e = cc

pub decode_varint32_eof-ok :
    (s : InStream) {v : ℕ} {t : InStream}
    → decode_varint32 s ≡ ok v t
    → decode_varint32_eof s ≡ (ok v t, false)
unfolding decode_varint32 decode_varint32_eof
decode_varint32_eof-ok s e = eof_of_ok (readbyte s) e
