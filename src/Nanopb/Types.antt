-- ===== src/Nanopb/Types.antt =====
-- The shared types of pb.h, as they are with PB_FIELD_32BIT and PB_ENABLE_MALLOC, which the
-- build files of the pods set, on a platform where `size_t` has 64 bits.
pub mod Ltype
pub mod Htype
pub mod Atype
use answrapp.Common.{ℕ, ◌^◌, ◌-◌, ◌<◌, bit_and, Option}

-- The texts that PB_RETURN_ERROR stores in a stream.
pub data Error : Type 0 where
  end_of_stream io_error varint_overflow invalid_wire_type parent_too_short array_overflow : Error
  invalid_field_type wrong_fixed_count missing_required invalid_data_size integer_too_large : Error
  bytes_overflow size_too_large string_overflow invalid_descriptor wrong_fixed_length : Error
  stream_full bytes_exceeded callback_failed array_exceeded submsg_size_changed : Error
  invalid_size realloc_failed callback_error too_many_entries invalid_union_tag : Error
  iterator_error : Error

-- `pb_byte_t`, `uint32_t`, and `uint64_t` or `size_t`.
abbrev pub IsByte : ℕ → Type 0
IsByte b = b < 256

abbrev pub IsU32 : ℕ → Type 0
IsU32 v = v < 2 ^ 32

abbrev pub IsU64 : ℕ → Type 0
IsU64 v = v < 2 ^ 64

-- `PB_SIZE_MAX`, for a `pb_size_t` of 32 bits.
abbrev pub size_max : ℕ
size_max = 2 ^ 32 - 1

-- `pb_wire_type_t`. A decoded tag holds any number below 8, so a wire type is a number.
abbrev pub WireType : Type 0
WireType = ℕ

abbrev pub wt_varint : WireType
wt_varint = 0

abbrev pub wt_64bit : WireType
wt_64bit = 1

abbrev pub wt_string : WireType
wt_string = 2

abbrev pub wt_32bit : WireType
wt_32bit = 5

-- PB_LTYPE, PB_HTYPE and PB_ATYPE.
abbrev pub ltype : ℕ → ℕ
ltype x = bit_and x 0x0f

abbrev pub htype : ℕ → ℕ
htype x = bit_and x 0x30

abbrev pub atype : ℕ → ℕ
atype x = bit_and x 0xc0

-- `pb_field_t`. The signed `size_offset` is its 32-bit pattern; `ptr` is the address of the
-- descriptor of a submessage or of a default value, `none` for NULL.
pub record Field : Type 0 where
  pub tag : ℕ
  pub type : ℕ
  pub data_offset : ℕ
  pub size_offset : ℕ
  pub data_size : ℕ
  pub array_size : ℕ
  pub ptr : Option ℕ
