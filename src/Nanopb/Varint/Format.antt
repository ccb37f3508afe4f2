-- ===== src/Nanopb/Varint/Format.antt =====
-- The wire format of a varint in plain arithmetic: groups of seven bits, the lowest first, 128
-- added to each but the last; and `pb_encode_varint` against it.
use answrapp.Common.{
  ℕ, zero, suc, ◌+◌, ◌/◌, ◌%◌, ◌^◌, ◌≤◌, ◌<◌, ◌≡◌, ◌≢◌, refl, ◌∙◌, inl, inr, false, bit_and, bit_or,
  some, List, [], ◌∷◌, arith, ltb, leb, ◌==◌, if◌then◌else◌, Bool-cases, length, All,
}
use answrapp.Common.Bits.{or_80}
use answrapp.Common.Bits.Masks.{and_7f}
use mathlib.Core.Option
use answrapp.Nanopb.Types.{IsByte, IsU64}
use answrapp.Nanopb.Varint.{varint_groups, clear_last, varint_bytes}

-- The format of `v`, for `v` below 128 ^ (k + 1).
unfoldable pub varint : ℕ → ℕ → List ℕ
varint zero v = v ∷ []
varint (suc k) v =
    let rest = varint k (v / 128) in if ltb v 128 then v ∷ [] else (v % 128 + 128) ∷ rest

high_group : (v : ℕ) → bit_or (bit_and v 0x7f) 0x80 % 256 ≡ v % 128 + 128
high_group v = rw (and_7f v, or_80 (v % 128) (omega arith)) (omega arith)

last_group : (v : ℕ) → v < 128 → bit_and (v % 128 + 128) 0x7f ≡ v
last_group v h = rw (and_7f (v % 128 + 128)) (omega arith)

varint_groups-zero : (k : ℕ) → varint_groups k 0 ≡ some []
unfolding varint_groups
varint_groups-zero zero = refl
varint_groups-zero (suc k) = refl

varint_groups_step :
    (k v : ℕ)
    → 0 < v
    → varint_groups (suc k) v ≡ Option.map (λ bs. (v % 128 + 128) ∷ bs) (varint_groups k (v / 128))
unfolding varint_groups
varint_groups_step k v p =
    let positive : (v == 0) ≡ false = ground arith in rw (positive, high_group v)

varint_groups_last :
    (k v : ℕ) → 0 < v → v < 128 → varint_groups (suc k) v ≡ some ((v % 128 + 128) ∷ [])
varint_groups_last k v p h =
    let done : v / 128 ≡ 0 = omega arith in
    varint_groups_step k v p ∙ rw (done, varint_groups-zero k)

varint_groups_more :
    (k v : ℕ) (bs : List ℕ)
    → 0 < v
    → varint_groups k (v / 128) ≡ some bs
    → varint_groups (suc k) v ≡ some ((v % 128 + 128) ∷ bs)
varint_groups_more k v bs p e = varint_groups_step k v p ∙ rw e

clear_last_skip : (b : ℕ) (bs : List ℕ) → bs ≢ [] → clear_last (b ∷ bs) ≡ b ∷ clear_last bs
unfolding clear_last
clear_last_skip b [] h = absurd (h refl)
clear_last_skip b (c ∷ bs) h = refl

-- The loop fills the format's bytes, the top bit of the last one still set.
abbrev Fills : ℕ → ℕ → Type 0
Fills k v =
    (bs : List ℕ) × (varint_groups (suc k) v ≡ some bs) × (bs ≢ []) × (clear_last bs ≡ varint k v)

one_group : (k v : ℕ) → 0 < v → v < 128 → varint k v ≡ v ∷ [] → Fills k v
unfolding clear_last
one_group k v p h e =
    ((v % 128 + 128) ∷ [], varint_groups_last k v p h, (λ q. cc), rw (last_group v h, e))

varint_groups-format : (k v : ℕ) → 0 < v → v < 128 ^ suc k → Fills k v
unfolding varint
varint_groups-format zero v p h = one_group zero v p (omega arith) refl
varint_groups-format (suc k) v p h = elim (Bool-cases (ltb v 128)) [
  | inl small ↦ one_group (suc k) v p (ground arith) (rw small)
  | inr large ↦
      let (bs, e, ne, format) = varint_groups-format k (v / 128) (ground arith) (omega arith) in
      (
        (v % 128 + 128) ∷ bs,
        varint_groups_more (suc k) v bs p e,
        (λ q. cc),
        clear_last_skip _ bs ne ∙ rw (format, large),
      )
]

pub varint-small : (k v : ℕ) → v < 128 → varint k v ≡ v ∷ []
unfolding varint
varint-small zero v h = refl
varint-small (suc k) v h = ground arith

pub varint-large : (k v : ℕ) → 128 ≤ v → varint (suc k) v ≡ (v % 128 + 128) ∷ varint k (v / 128)
unfolding varint
varint-large k v h = let large : ltb v 128 ≡ false = ground arith in rw large

-- For every uint64 the loop of `pb_encode_varint` ends within its ten bytes, and fills them with the
-- varint format of the value.
pub varint_bytes-format : (v : ℕ) → IsU64 v → varint_bytes v ≡ some (varint 9 v)
unfolding varint_bytes
varint_bytes-format v h = elim (Bool-cases (leb v 0x7f)) [
  | inl small ↦ rw (small, varint-small 9 v (ground arith))
  | inr large ↦
      let (bs, e, ne, format) = varint_groups-format 9 v (ground arith) (omega arith) in
      rw (large, e, format)
]

pub varint-IsByte : (k v : ℕ) → v < 128 ^ suc k → All IsByte (varint k v)
unfolding varint
varint-IsByte zero v h = omega arith
varint-IsByte (suc k) v h = ground (arith, varint-IsByte k (v / 128) (omega arith))

pub length-varint : (k v : ℕ) → (1 ≤ length (varint k v)) × (length (varint k v) ≤ k + 1)
unfolding varint
length-varint zero v = omega arith
length-varint (suc k) v = ground (arith, length-varint k (v / 128))
