-- ===== src/Nanopb/Types/Atype.antt =====
-- The allocation types of a field, the top two bits of a `pb_type_t` (PB_ATYPE_... of pb.h).
use answrapp.Common.{ℕ}

abbrev pub static : ℕ
static = 0x00

abbrev pub pointer : ℕ
pointer = 0x80

abbrev pub callback : ℕ
callback = 0x40
