-- ===== src/Nanopb/Struct.antt =====
-- The structure of a message in memory, as pb_decode.c prepares and releases it. An action changes
-- the memory and may free blocks of it. NULL is address 0.
pub mod Fields
pub mod Defaults
pub mod Release
pub mod Unset
pub mod Once
pub mod Ends
mod Tests
use answrapp.Common.{
  ℕ, ◌+◌, ◌-◌, ◌/◌, ◌%◌, ◌^◌, Bool, true, false, ◌&&◌, List, ◌∷◌, ltb, leb, ◌==◌, if◌then◌else◌,
}
use answrapp.Nanopb.Memory.{Memory}

-- The blocks that were freed, the latest first.
pub record Store : Type 0 where
  pub memory : Memory
  pub freed : List ℕ

-- `fault` is a read through NULL or behind the end of a descriptor, `stuck` a loop or a recursion
-- whose fuel has run out.
pub data Change : Type 0 where
  changed : Store → Change
  fault : Change
  stuck : Change

abbrev pub Action : Type 0
Action = Store → Change

abbrev pub after : Change → Action → Change
after (changed s) k = k s
after fault k = fault
after stuck k = stuck

infixl 5 ◌>>◌
abbrev pub ◌>>◌ : Action → Action → Action
◌>>◌ m k s = after (m s) k

abbrev pub skip : Action
skip s = changed s

-- `count` bytes from `a` on, from a function of the offset.
abbrev pub overwrite : ℕ → ℕ → (ℕ → ℕ) → Memory → Memory
overwrite a count bytes mem x = if leb a x && ltb x (a + count) then bytes (x - a) else mem x

abbrev pub write_bytes : ℕ → ℕ → (ℕ → ℕ) → Action
write_bytes a count bytes s =
    changed (record { memory = overwrite a count bytes s.memory; freed = s.freed })

-- `memset` with 0, and the assignment of 0, false or NULL.
abbrev pub write_zero : ℕ → ℕ → Action
write_zero a count = write_bytes a count (λ i. 0)

-- `memcpy`.
abbrev pub copy_bytes : ℕ → ℕ → ℕ → Action
copy_bytes a source count s = write_bytes a count (λ i. s.memory (source + i)) s

-- `pb_free`, which ignores NULL.
abbrev pub free : ℕ → Action
free p s = changed (record { memory = s.memory; freed = (if p == 0 then s.freed else p ∷ s.freed) })
