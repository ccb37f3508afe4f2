-- ===== src/Nanopb/Memory.antt =====
-- The memory that a message lies in: a byte at each address, the lowest byte of a number first.
-- NULL is address 0.
use answrapp.Common.{
  ℕ, zero, suc, ◌+◌, ◌*◌, ◌%◌, ◌^◌, ◌<◌, Bool, true, false, not, List, arith, ◌==◌, if◌then◌else◌,
  tabulate,
}
use answrapp.Common.Int.{ℤ, signed}

abbrev pub Memory : Type 0
Memory = ℕ → ℕ

abbrev pub byte_at : Memory → ℕ → ℕ
byte_at mem a = mem a % 256

-- `p + n` for a pointer.
abbrev pub shifted : ℕ → ℕ → ℕ
shifted p n = (p + n) % 2 ^ 64

-- The number in `count` bytes from an address on.
unfoldable pub load : Memory → ℕ → ℕ → ℕ
load mem zero a = 0
load mem (suc count) a = byte_at mem a + 256 * load mem count (a + 1)

abbrev pub load_signed : Memory → ℕ → ℕ → ℤ
load_signed mem count a = signed (8 * count) (load mem count a)

abbrev pub load_pointer : Memory → ℕ → ℕ
load_pointer mem a = load mem 8 a

abbrev pub load_bytes : Memory → ℕ → ℕ → List ℕ
load_bytes mem count a = tabulate count a (byte_at mem)

-- `safe_read_bool`, for a `bool` of one byte.
abbrev pub read_bool : Memory → ℕ → Bool
read_bool mem a = not (byte_at mem a == 0)

-- Are all of `count` bytes zero?
unfoldable pub all_zero : Memory → ℕ → ℕ → Bool
all_zero mem zero a = true
all_zero mem (suc count) a =
    let more = all_zero mem count (a + 1) in if byte_at mem a == 0 then more else false

pub load_4 : (mem : Memory) (a : ℕ) → load mem 4 a < 2 ^ 32
unfolding load
load_4 mem a = omega arith

pub load_8 : (mem : Memory) (a : ℕ) → load mem 8 a < 2 ^ 64
unfolding load
load_8 mem a = omega arith
