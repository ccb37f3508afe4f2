-- ===== src/Nanopb/Varint/Takes.antt =====
-- How far the readers of varints move their stream.
use answrapp.Common.{
  ℕ, zero, suc, ◌&&◌, not, bit_and, bit_or, List, [], ◌∷◌, arith, leb, ◌==◌, if◌then◌else◌,
}
use answrapp.Nanopb.Types.{varint_overflow}
use answrapp.Nanopb.Input.{InStream, Result, ok, failed, fault, stuck, Decoder, readbyte}
use answrapp.Nanopb.Input.Takes.{
  Takes, TakesPost, TakesPost-Moves, Takes-mono, bind-Takes, raise-Takes, stuck-Takes, fault-Takes,
  if-Takes, pure-Takes, read-Takes, readbyte-Takes,
}
use answrapp.Nanopb.Varint.{
  shl, next_bitpos, varint_loop, decode_varint, beyond_32, varint32_loop, varint32_from, skip_from,
  varint32_result, decode_varint32_eof, decode_varint32, skip_varint_loop, skip_varint,
}

varint_loop-Takes : (fuel bitpos result : ℕ) → Takes 1 (varint_loop fuel bitpos result)
unfolding varint_loop
varint_loop-Takes zero bitpos result = stuck-Takes
varint_loop-Takes (suc fuel) bitpos result =
    if-Takes (leb 64 bitpos) (raise-Takes varint_overflow) (
      bind-Takes {k = 0} readbyte-Takes (λ byte.
        let result' = bit_or result (shl 64 (bit_and byte 0x7f) bitpos) in
        if-Takes (bit_and byte 0x80 == 0) (pure-Takes result')
          (Takes-mono 0 (omega arith) (varint_loop-Takes fuel (next_bitpos bitpos) result'))))

-- The readers that take a byte at least.
pub decode_varint-Takes : Takes 1 decode_varint
unfolding decode_varint
decode_varint-Takes = varint_loop-Takes 11 0 0

varint32_loop-Takes : (fuel bitpos result : ℕ) → Takes 0 (varint32_loop fuel bitpos result)
unfolding varint32_loop
varint32_loop-Takes zero bitpos result = stuck-Takes
varint32_loop-Takes (suc fuel) bitpos result = Takes-mono 0 (omega arith) (
    bind-Takes {k = 0} readbyte-Takes (λ byte.
      let result' =
        if leb 32 bitpos then result else bit_or result (shl 32 (bit_and byte 0x7f) bitpos) in
      if-Takes (leb 32 bitpos && beyond_32 byte bitpos result) (raise-Takes varint_overflow) (
        if-Takes (bit_and byte 0x80 == 0)
          (if-Takes (next_bitpos bitpos == 35 && not (bit_and byte 0x70 == 0))
            (raise-Takes varint_overflow) (pure-Takes result'))
          (varint32_loop-Takes fuel (next_bitpos bitpos) result'))))

varint32_from-Takes : (byte : ℕ) → Takes 0 (varint32_from byte)
unfolding varint32_from
varint32_from-Takes byte =
    if-Takes (bit_and byte 0x80 == 0) (pure-Takes byte) (record {
      takes = λ s. (varint32_loop-Takes (suc s.bytes_left) 7 (bit_and byte 0x7f)).takes s;
    })

varint32_result-Takes :
    (s : InStream) (r : Result ℕ) → TakesPost 1 s r → TakesPost 1 s (varint32_result r).0
varint32_result-Takes s (ok byte t) h =
    TakesPost-Moves 0 (varint32_from byte t) h ((varint32_from-Takes byte).takes t)
varint32_result-Takes s (failed t) h = h
varint32_result-Takes s fault h = tt
varint32_result-Takes s stuck h = tt

pub varint32_eof-Takes : (s : InStream) → TakesPost 1 s (decode_varint32_eof s).0
unfolding decode_varint32_eof
varint32_eof-Takes s = varint32_result-Takes s (readbyte s) (readbyte-Takes.takes s)

pub decode_varint32-Takes : Takes 1 decode_varint32
unfolding decode_varint32
decode_varint32-Takes = record { takes = varint32_eof-Takes }

skip_more : (bytes : List ℕ) {m : Decoder (Unit {0})} → Takes 0 m → Takes 0 (skip_from bytes m)
skip_more [] h = fault-Takes
skip_more (b ∷ bs) h = if-Takes (bit_and b 0x80 == 0) (pure-Takes tt) h

skip_varint_loop-Takes : (fuel : ℕ) → Takes 0 (skip_varint_loop fuel)
unfolding skip_varint_loop
skip_varint_loop-Takes zero = stuck-Takes
skip_varint_loop-Takes (suc fuel) =
    Takes-mono 0 (omega arith)
      (bind-Takes (read-Takes 1) (λ bytes. skip_more bytes (skip_varint_loop-Takes fuel)))

pub skip_varint-Takes : Takes 0 skip_varint
unfolding skip_varint
skip_varint-Takes = record { takes = λ s. (skip_varint_loop-Takes (suc s.bytes_left)).takes s }
