-- ===== src/Nanopb/Scalar/Takes.antt =====
-- How far the readers of single values move their stream.
use answrapp.Common.{
  ℕ, zero, suc, not, bit_and, Bool, List, [], ◌∷◌, arith, ◌==◌, Bool-cases, inl, inr,
}
use answrapp.Nanopb.Types.{WireType, wt_varint, wt_64bit, wt_string, wt_32bit, invalid_wire_type}
use answrapp.Nanopb.Input.{InStream, Result, ok, failed, fault, stuck, Decoder}
use answrapp.Nanopb.Input.Takes.{
  Moves-mono, Takes, TakesPost, Takes-mono, bind-Takes, raise-Takes, fault-Takes, failed-Takes,
  if-Takes, pure-Takes, read-Takes, skip-Takes,
}
use answrapp.Nanopb.Varint.{decode_varint32_eof}
use answrapp.Nanopb.Varint.Takes.{
  decode_varint-Takes, varint32_eof-Takes, decode_varint32-Takes, skip_varint-Takes,
}
use answrapp.Nanopb.Scalar.{
  tag_result, decode_tag, skip_string, skip_field, raw_from, raw_varint, read_raw_value,
  decode_bool, decode_svarint, decode_fixed32, decode_fixed64, unzigzag, join_bytes,
}

tag_result-Takes :
    (s : InStream) (r : Result ℕ) (eof : Bool)
    → TakesPost 1 s r
    → TakesPost 1 s (tag_result (r, eof)).0
tag_result-Takes s (ok temp t) eof h = elim (Bool-cases (temp == 0)) [
  | inl e ↦ rw e (Moves-mono 0 (omega arith) h)
  | inr e ↦ rw e h
]
tag_result-Takes s (failed t) eof h = h
tag_result-Takes s fault eof h = tt
tag_result-Takes s stuck eof h = tt

pub decode_tag-Takes : (s : InStream) → TakesPost 1 s (decode_tag s).0
unfolding decode_tag
decode_tag-Takes s =
    tag_result-Takes s (decode_varint32_eof s).0 (decode_varint32_eof s).1 (varint32_eof-Takes s)

pub decode_bool-Takes : Takes 1 decode_bool
unfolding decode_bool
decode_bool-Takes = bind-Takes {k = 0} decode_varint32-Takes (λ v. pure-Takes (not (v == 0)))

pub decode_svarint-Takes : Takes 1 decode_svarint
unfolding decode_svarint
decode_svarint-Takes = bind-Takes {k = 0} decode_varint-Takes (λ v. pure-Takes (unzigzag v))

pub decode_fixed32-Takes : Takes 4 decode_fixed32
unfolding decode_fixed32
decode_fixed32-Takes = bind-Takes {k = 0} (read-Takes 4) (λ b. pure-Takes (join_bytes 32 0 0 b))

pub decode_fixed64-Takes : Takes 8 decode_fixed64
unfolding decode_fixed64
decode_fixed64-Takes = bind-Takes {k = 0} (read-Takes 8) (λ b. pure-Takes (join_bytes 64 0 0 b))

skip_string-Takes : Takes 0 skip_string
unfolding skip_string
skip_string-Takes = Takes-mono 0 (omega arith) (bind-Takes decode_varint32-Takes skip-Takes)

pub skip_field-Takes : (wire_type : WireType) → Takes 0 (skip_field wire_type)
unfolding skip_field
skip_field-Takes wire_type = if-Takes (wire_type == wt_varint) skip_varint-Takes (
    if-Takes (wire_type == wt_64bit) (skip-Takes 8) (
      if-Takes (wire_type == wt_string) skip_string-Takes
        (if-Takes (wire_type == wt_32bit) (skip-Takes 4) (raise-Takes invalid_wire_type))))

raw_more : (bytes : List ℕ) {m : Decoder (List ℕ)} → Takes 0 m → Takes 0 (raw_from bytes m)
raw_more [] h = fault-Takes
raw_more (b ∷ bs) h =
    if-Takes (bit_and b 0x80 == 0) (pure-Takes (b ∷ []))
      (bind-Takes h (λ rest. pure-Takes (b ∷ rest)))

raw_varint-Takes : (room : ℕ) → Takes 0 (raw_varint room)
unfolding raw_varint
raw_varint-Takes zero = failed-Takes
raw_varint-Takes (suc room) =
    Takes-mono 0 (omega arith)
      (bind-Takes (read-Takes 1) (λ bytes. raw_more bytes (raw_varint-Takes room)))

pub read_raw_value-Takes : (wire_type max_size : ℕ) → Takes 0 (read_raw_value wire_type max_size)
unfolding read_raw_value
read_raw_value-Takes wire_type max_size =
    if-Takes (wire_type == wt_varint) (raw_varint-Takes max_size) (
      if-Takes (wire_type == wt_64bit) (Takes-mono 0 (omega arith) (read-Takes 8)) (
        if-Takes (wire_type == wt_32bit) (Takes-mono 0 (omega arith) (read-Takes 4))
          (raise-Takes invalid_wire_type)))
