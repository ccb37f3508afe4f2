-- ===== src/Nanopb/Field/Allocation.antt =====
-- `allocate_field`: its test of the sizes against the product that it asks for.
use answrapp.Common.{
  ℕ, ◌-◌, ◌*◌, ◌/◌, ◌%◌, ◌^◌, ◌≤◌, ◌<◌, ◌≡◌, ◌↔◌, refl, inl, inr, Bool, false, ◌&&◌, ◌||◌,
  Bool-cases, arith, ltb, leb, ◌==◌, if◌then◌else◌,
}
use native.Mathlib.Nat.{mul_comm, mul-le-mul, le-div_iff_mul-le, mod-eq_of_lt}
use answrapp.Nanopb.Types.{size_too_large, realloc_failed}
use answrapp.Nanopb.Input.{InStream, pure, raise}
use answrapp.Nanopb.Field.{allocate_field}

abbrev is_too_large : ℕ → ℕ → Bool
is_too_large d n = (leb (2 ^ 32) d || leb (2 ^ 32) n) && ltb ((2 ^ 64 - 1) / n) d

halves_fit : (d n : ℕ) → d < 2 ^ 32 → n < 2 ^ 32 → n * d < 2 ^ 64
halves_fit d n hd hn =
    let most : n * d ≤ (2 ^ 32 - 1) * (2 ^ 32 - 1) =
      mul-le-mul {n₂ = 2 ^ 32 - 1} {m₂ = 2 ^ 32 - 1} (omega arith) (omega arith) in
    omega (arith, most)

exact_test : (d n : ℕ) → 0 < n → is_too_large d n ≡ leb (2 ^ 64) (n * d)
exact_test d n hn =
    let bound : (d ≤ (2 ^ 64 - 1) / n) ↔ (d * n ≤ 2 ^ 64 - 1) = le-div_iff_mul-le hn in
    let swap = mul_comm n d in
    elim (Bool-cases (leb (2 ^ 32) d || leb (2 ^ 32) n)) [
      | inl large ↦ rw large (ground (arith, bound, swap))
      | inr small ↦ rw small (ground (arith, halves_fit d n))
    ]

-- For sizes of a `size_t` that are not 0, `allocate_field` asks for just the product of the sizes, and
-- fails with "size too large" if, and only if, the product does not fit a `size_t`.
pub allocate_field_lem :
    (malloc : ℕ → Bool) (data_size array_size : ℕ) (s : InStream)
    → 0 < data_size
    → 0 < array_size
    → allocate_field malloc data_size array_size s
      ≡ (if leb (2 ^ 64) (array_size * data_size)
            then raise size_too_large
            else if malloc (array_size * data_size)
            then pure tt
            else raise realloc_failed)
          s
unfolding allocate_field
allocate_field_lem malloc d n s hd hn =
    let some_data : (d == 0) ≡ false = ground arith in
    let some_entries : (n == 0) ≡ false = ground arith in
    elim (Bool-cases (leb (2 ^ 64) (n * d))) [
      | inl large ↦ rw (some_data, some_entries, exact_test d n hn, large) refl
      | inr fits ↦
          let word : n * d % 2 ^ 64 ≡ n * d = mod-eq_of_lt (ground arith) in
          rw (some_data, some_entries, exact_test d n hn, fits, word) refl
    ]
