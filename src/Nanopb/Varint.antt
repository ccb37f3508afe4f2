-- ===== src/Nanopb/Varint.antt =====
-- Variable-length integers: `pb_decode_varint`, `pb_decode_varint32_eof`, `pb_decode_varint32` and
-- `pb_skip_varint` of pb_decode.c, `pb_encode_varint` of pb_encode.c.
pub mod Format
pub mod Decode64
pub mod Decode32
pub mod Safety
pub mod Takes
use answrapp.Common.{
  ℕ, zero, suc, ◌+◌, ◌-◌, ◌*◌, ◌/◌, ◌%◌, ◌^◌, bit_and, bit_or, Bool, true, false, not, ◌&&◌, ◌||◌,
  Option, none, some, List, [], ◌∷◌, ◌++◌, ltb, leb, ◌==◌, if◌then◌else◌, length,
}
use mathlib.Core.Option
use answrapp.Nanopb.Types.{varint_overflow}
use answrapp.Nanopb.Input.{
  InStream, Result, ok, failed, fault, stuck, Decoder, and_then, ◌>>=◌, ◌>>◌, pure, raise, read,
  readbyte,
}

-- `x << k` in a word of 2 ^ w values.
abbrev pub shl : ℕ → ℕ → ℕ → ℕ
shl w x k = x * 2 ^ k % 2 ^ w

-- `bitpos` is an uint_fast8_t, of 8 bits on the platforms of the app.
abbrev pub next_bitpos : ℕ → ℕ
next_bitpos bitpos = (bitpos + 7) % 256

-- `pb_decode_varint`: the test at the top of the loop fails in round eleven.
unfoldable pub varint_loop : ℕ → ℕ → ℕ → Decoder ℕ
varint_loop zero bitpos result = λ s. stuck
varint_loop (suc fuel) bitpos result = if leb 64 bitpos then raise varint_overflow else do
  byte ← readbyte
  let result' = bit_or result (shl 64 (bit_and byte 0x7f) bitpos)
  let more = varint_loop fuel (next_bitpos bitpos) result'
  if bit_and byte 0x80 == 0 then pure result' else more

unfoldable pub decode_varint : Decoder ℕ
unfolding varint_loop
decode_varint = varint_loop 11 0 0

-- The test in `pb_decode_varint32_eof` of a byte at or above bit 32, whose seven bits must be
-- zero, or all ones where the value so far is negative.
abbrev pub beyond_32 : ℕ → ℕ → ℕ → Bool
beyond_32 byte bitpos result =
    let sign_extension : ℕ = if ltb bitpos 63 then 0xff else 0x01 in
    not (bit_and byte 0x7f == 0) && (result / 2 ^ 31 == 0 || not (byte == sign_extension))

-- The test behind the loop.
abbrev pub finish_32 : ℕ → ℕ → ℕ → Decoder ℕ
finish_32 byte bitpos result =
    if bitpos == 35 && not (bit_and byte 0x70 == 0) then raise varint_overflow else pure result

-- The loop of `pb_decode_varint32_eof`. Nothing but the end of the stream bounds it, so its fuel
-- is `bytes_left`.
unfoldable pub varint32_loop : ℕ → ℕ → ℕ → Decoder ℕ
varint32_loop zero bitpos result = λ s. stuck
varint32_loop (suc fuel) bitpos result = do
  byte ← readbyte
  let result' = if leb 32 bitpos then result else bit_or result (shl 32 (bit_and byte 0x7f) bitpos)
  let more = varint32_loop fuel (next_bitpos bitpos) result'
  if leb 32 bitpos && beyond_32 byte bitpos result
      then raise varint_overflow
      else if bit_and byte 0x80 == 0
      then finish_32 byte (next_bitpos bitpos) result'
      else more

-- The multibyte case and the quick case.
unfoldable pub varint32_from : ℕ → Decoder ℕ
varint32_from byte =
    if bit_and byte 0x80 == 0
    then pure byte
    else (λ s. varint32_loop (suc s.bytes_left) 7 (bit_and byte 0x7f) s)

-- `pb_decode_varint32_eof`: the result, and whether it stores true through `eof`. It does so if the
-- first byte cannot be read and no byte is left.
abbrev varint32_result : Result ℕ → Result ℕ × Bool
varint32_result (ok byte t) = (varint32_from byte t, false)
varint32_result (failed t) = (failed t, t.bytes_left == 0)
varint32_result fault = (fault, false)
varint32_result stuck = (stuck, false)

unfoldable pub decode_varint32_eof : InStream → Result ℕ × Bool
decode_varint32_eof s = varint32_result (readbyte s)

-- `pb_decode_varint32`.
unfoldable pub decode_varint32 : Decoder ℕ
decode_varint32 s = (decode_varint32_eof s).0

-- `pb_skip_varint`, which only the end of the stream bounds.
abbrev skip_from : List ℕ → Decoder (Unit {0}) → Decoder (Unit {0})
skip_from [] more = λ s. fault
skip_from (byte ∷ bs) more = if bit_and byte 0x80 == 0 then pure tt else more

unfoldable pub skip_varint_loop : ℕ → Decoder (Unit {0})
skip_varint_loop zero = λ s. stuck
skip_varint_loop (suc fuel) = do
  bytes ← read 1
  let more = skip_varint_loop fuel
  skip_from bytes more

unfoldable pub skip_varint : Decoder (Unit {0})
unfolding skip_varint_loop
skip_varint s = skip_varint_loop (suc s.bytes_left) s

-- The loop of `pb_encode_varint` that fills `buffer`; `none` if the fuel runs out.
unfoldable pub varint_groups : ℕ → ℕ → Option (List ℕ)
varint_groups zero value = if value == 0 then some [] else none
varint_groups (suc fuel) value =
    let more = varint_groups fuel (value / 2 ^ 7) in
    if value == 0
    then some []
    else Option.map (λ bytes. (bit_or (bit_and value 0x7f) 0x80 % 256) ∷ bytes) more

-- `buffer[i-1] &= 0x7F`.
unfoldable pub clear_last : List ℕ → List ℕ
clear_last [] = []
clear_last (b ∷ []) = bit_and b 0x7f ∷ []
clear_last (b ∷ c ∷ bs) = b ∷ clear_last (c ∷ bs)

-- The bytes that `pb_encode_varint` hands to `pb_write`. The array `buffer` has ten elements, and
-- the loop is given ten rounds.
unfoldable pub varint_bytes : ℕ → Option (List ℕ)
varint_bytes value =
    if leb value 0x7f then some (value ∷ []) else Option.map clear_last (varint_groups 10 value)
