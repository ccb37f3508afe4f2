-- ===== src/Nanopb/Scalar/Skip.antt =====
-- `pb_skip_field` on the values that an encoder writes.
use answrapp.Common.{
  ℕ, zero, suc, ◌+◌, ◌/◌, ◌%◌, ◌^◌, ◌≤◌, ◌<◌, ◌≡◌, ◌≢◌, ◌∙◌, bit_and, true, false, inl, inr, List,
  [], ◌∷◌, ◌++◌, arith, ltb, ◌==◌, Bool-cases, length, Option,
}
use answrapp.Common.Bits.{mask_80}
use Prim.Native.Nat.add
use answrapp.Nanopb.Types.{
  Error, IsU32, IsU64, wt_varint, wt_64bit, wt_string, wt_32bit, invalid_wire_type,
}
use answrapp.Nanopb.Input.{InStream, ok, read, skip, raise}
use answrapp.Nanopb.Input.Buffer.{over, read-buffer}
use answrapp.Nanopb.Input.Parses.{Parses, skip-Parses, bind-Parses}
use answrapp.Nanopb.Varint.{skip_varint_loop, skip_varint, decode_varint32}
use answrapp.Nanopb.Varint.Format.{varint}
use answrapp.Nanopb.Varint.Decode32.{decode_varint32-varint}
use answrapp.Nanopb.Scalar.{skip_string, skip_field}

one_byte :
    (b n : ℕ) (rest : List ℕ) (err : Option Error)
    → read 1 (over (b ∷ rest) (suc n) err) ≡ ok (b ∷ []) (over rest n err)
one_byte b n rest err =
    let one : suc n ≡ 1 + n = omega arith in rw one (read-buffer (b ∷ []) rest n err)

skip_byte :
    (fuel b n : ℕ) (rest : List ℕ) (err : Option Error)
    → b < 128
    → skip_varint_loop (suc fuel) (over (b ∷ rest) (suc n) err) ≡ ok tt (over rest n err)
unfolding skip_varint_loop
skip_byte fuel b n rest err h =
    let stop : (bit_and b 0x80 == 0) ≡ true = ground (arith, mask_80 b) in
    rw (one_byte b n rest err, stop)

skip_inner :
    (fuel g n : ℕ) (rest : List ℕ) (err : Option Error)
    → g < 128
    → skip_varint_loop (suc fuel) (over ((g + 128) ∷ rest) (suc n) err)
      ≡ skip_varint_loop fuel (over rest n err)
unfolding skip_varint_loop
skip_inner fuel g n rest err h =
    let more : (bit_and (g + 128) 0x80 == 0) ≡ false = ground (arith, mask_80 (g + 128)) in
    rw (one_byte (g + 128) n rest err, more)

skip_varint_loop-varint :
    (k v fuel n : ℕ) (rest : List ℕ) (err : Option Error)
    → v < 128 ^ suc k
    → length (varint k v) ≤ fuel
    → skip_varint_loop fuel (over (varint k v ++ rest) (length (varint k v) + n) err)
      ≡ ok tt (over rest n err)
unfolding varint
skip_varint_loop-varint zero v zero n rest err hv hf = absurd (omega arith)
skip_varint_loop-varint zero v (suc fuel) n rest err hv hf =
    rw (add.suc, add.zero) (skip_byte fuel v n rest err (omega arith))
skip_varint_loop-varint (suc k) v zero n rest err hv hf = absurd (ground arith)
skip_varint_loop-varint (suc k) v (suc fuel) n rest err hv hf = elim (Bool-cases (ltb v 128)) [
  | inl small ↦ rw (small, add.suc, add.zero) (skip_byte fuel v n rest err (ground arith))
  | inr large ↦
      rw (large, add.suc)
        (skip_inner fuel (v % 128) _ _ err (omega arith)
          ∙ skip_varint_loop-varint k (v / 128) fuel n rest err (omega arith)
              (omega (arith, rw large at hf)))
]

skip_varint-varint : (v : ℕ) → IsU64 v → Parses skip_varint (varint 9 v) tt
unfolding skip_varint
skip_varint-varint v h rest n err =
    skip_varint_loop-varint 9 v (suc (length (varint 9 v) + n)) n rest err (omega arith)
      (omega arith)

skip_string-string :
    (bytes : List ℕ)
    → IsU32 (length bytes)
    → Parses skip_string (varint 9 (length bytes) ++ bytes) tt
unfolding skip_string
skip_string-string bytes h =
    bind-Parses decode_varint32 skip (varint 9 (length bytes)) bytes (length bytes) tt
      (λ rest n err. decode_varint32-varint (length bytes) n rest err h) (skip-Parses bytes)

-- By its wire type `pb_skip_field` goes over the varint of an uint64, eight bytes, a string of at
-- most 2 ^ 32 - 1 bytes with its length in front, or four bytes, and leaves what follows.
pub skip_field_lem :
    (v : ℕ) (eight four text : List ℕ)
    → IsU64 v
    → length eight ≡ 8
    → length four ≡ 4
    → IsU32 (length text)
    → Parses (skip_field wt_varint) (varint 9 v) tt
      × Parses (skip_field wt_64bit) eight tt
      × Parses (skip_field wt_string) (varint 9 (length text) ++ text) tt
      × Parses (skip_field wt_32bit) four tt
unfolding skip_field
skip_field_lem v eight four text hv h8 h4 ht = (
  skip_varint-varint v hv,
  rw (← h8) (skip-Parses eight),
  skip_string-string text ht,
  rw (← h4) (skip-Parses four),
)

-- Any other wire type is an error, and nothing is read.
pub skip_field_invalid :
    (wt : ℕ) (s : InStream)
    → wt ≢ 0
    → wt ≢ 1
    → wt ≢ 2
    → wt ≢ 5
    → skip_field wt s ≡ raise invalid_wire_type s
unfolding skip_field
skip_field_invalid wt s h0 h1 h2 h5 = ground arith
