-- ===== src/Nanopb/Scalar.antt =====
-- The readers of single values in pb_decode.c: tags, zigzag and fixed-width integers, bools, and
-- the skipping of a field whose tag is not known.
pub mod Encode
pub mod Safety
pub mod RoundTrip
pub mod Tags
pub mod Skip
pub mod Takes
use answrapp.Common.{
  ℕ, zero, suc, ◌+◌, ◌-◌, ◌*◌, ◌/◌, ◌%◌, ◌^◌, ◌≡◌, bit_and, bit_or, Bool, true, false, not, List,
  [], ◌∷◌, ◌++◌, ltb, leb, ◌==◌, if◌then◌else◌,
}
use answrapp.Common.Int.{ℤ, signed}
use answrapp.Nanopb.Types.{invalid_wire_type, WireType, wt_varint, wt_64bit, wt_string, wt_32bit}
use answrapp.Nanopb.Input.{
  InStream, Result, ok, failed, fault, stuck, Decoder, and_then, ◌>>=◌, ◌>>◌, pure, raise, read,
  skip,
}
use answrapp.Nanopb.Varint.{shl, decode_varint, decode_varint32, decode_varint32_eof, skip_varint}

-- `pb_decode_tag`: the wire type and the tag, and what it stores through `eof`. A zero byte ends a
-- message too.
pub record Tag : Type 0 where
  pub wire_type : WireType
  pub tag : ℕ

abbrev tag_result : Result ℕ × Bool → Result Tag × Bool
tag_result (ok temp t, eof) =
    if temp == 0
    then (failed t, true)
    else (ok (record { wire_type = bit_and temp 7; tag = temp / 2 ^ 3 }) t, eof)
tag_result (failed t, eof) = (failed t, eof)
tag_result (fault, eof) = (fault, eof)
tag_result (stuck, eof) = (stuck, eof)

unfoldable pub decode_tag : InStream → Result Tag × Bool
decode_tag s = tag_result (decode_varint32_eof s)

-- `~x` in a word of w bits.
abbrev pub complement : ℕ → ℕ → ℕ
complement w x = 2 ^ w - 1 - x

-- `pb_decode_svarint`: the zigzag form.
abbrev pub unzigzag : ℕ → ℤ
unzigzag value =
    if bit_and value 1 == 0 then signed 64 (value / 2) else signed 64 (complement 64 (value / 2))

unfoldable pub decode_svarint : Decoder ℤ
decode_svarint = do value ← decode_varint; pure (unzigzag value)

-- The bytes of a fixed-width number, the lowest first: `bytes[i] << 8 * i`, joined by `|`.
unfoldable pub join_bytes : ℕ → ℕ → ℕ → List ℕ → ℕ
join_bytes w at result [] = result
join_bytes w at result (b ∷ bs) = join_bytes w (at + 8) (bit_or result (shl w b at)) bs

-- `pb_decode_fixed32` and `pb_decode_fixed64`.
unfoldable pub decode_fixed32 : Decoder ℕ
decode_fixed32 = do bytes ← read 4; pure (join_bytes 32 0 0 bytes)

unfoldable pub decode_fixed64 : Decoder ℕ
decode_fixed64 = do bytes ← read 8; pure (join_bytes 64 0 0 bytes)

-- `pb_dec_bool`, which `pb_decode_bool` calls.
unfoldable pub decode_bool : Decoder Bool
decode_bool = do value ← decode_varint32; pure (not (value == 0))

-- `pb_skip_string` and `pb_skip_field`.
unfoldable pub skip_string : Decoder (Unit {0})
skip_string = do length ← decode_varint32; skip length

unfoldable pub skip_field : WireType → Decoder (Unit {0})
skip_field wire_type =
    if wire_type == wt_varint
    then skip_varint
    else if wire_type == wt_64bit
    then skip 8
    else if wire_type == wt_string
    then skip_string
    else if wire_type == wt_32bit
    then skip 4
    else raise invalid_wire_type

-- The loop of `read_raw_value` over a varint: at most `max_size` bytes, the size so far in `size`.
abbrev pub raw_from : List ℕ → Decoder (List ℕ) → Decoder (List ℕ)
raw_from [] more = λ s. fault
raw_from (b ∷ bs) more =
    if bit_and b 0x80 == 0 then pure (b ∷ []) else (more >>= λ rest. pure (b ∷ rest))

unfoldable pub raw_varint : ℕ → Decoder (List ℕ)
raw_varint zero = failed
raw_varint (suc room) = do bytes ← read 1; let more = raw_varint room; raw_from bytes more

-- `read_raw_value`: the bytes of a value that is no string; `max_size` bounds a varint.
unfoldable pub read_raw_value : WireType → ℕ → Decoder (List ℕ)
read_raw_value wire_type max_size =
    if wire_type == wt_varint
    then raw_varint max_size
    else if wire_type == wt_64bit
    then read 8
    else if wire_type == wt_32bit
    then read 4
    else raise invalid_wire_type
