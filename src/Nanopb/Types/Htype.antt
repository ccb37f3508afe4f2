-- ===== src/Nanopb/Types/Htype.antt =====
-- The repetition rules of a field, bits 4 and 5 of a `pb_type_t` (PB_HTYPE_... of pb.h).
use answrapp.Common.{ℕ}

abbrev pub required : ℕ
required = 0x00

abbrev pub optional : ℕ
optional = 0x10

abbrev pub repeated : ℕ
repeated = 0x20

abbrev pub oneof : ℕ
oneof = 0x30
