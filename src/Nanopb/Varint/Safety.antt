-- ===== src/Nanopb/Varint/Safety.antt =====
-- The varint readers on a well-formed stream, whatever bytes it holds.
use answrapp.Common.{
  ℕ, zero, suc, ◌+◌, ◌*◌, ◌^◌, ◌≤◌, ◌<◌, ◌≡◌, true, false, Bool, not, ◌&&◌, bit_and, bit_or, List,
  [], ◌∷◌, arith, leb, ◌==◌, if◌then◌else◌,
}
use answrapp.Common.Bits.{or-lt-pow}
use answrapp.Common.Bits.Masks.{and_7f}
use native.Mathlib.Nat.{mod-lt, one-le-pow}
use answrapp.Nanopb.Types.{IsByte, IsU32, IsU64, varint_overflow}
use answrapp.Nanopb.Input.{
  InStream, Result, ok, failed, fault, stuck, Decoder, pure, read, readbyte,
}
use answrapp.Nanopb.Input.Safety.{
  IsValid, Post, Ensures, IsSafe, Post-and_then, bind-Ensures, if-Ensures, raise-Ensures,
  pure-Ensures, readbyte-Ensures, readbyte_takes, read-Ensures, read_takes, Bytes, Post-Follows,
  Follows-self,
}
use answrapp.Nanopb.Varint.{
  shl, next_bitpos, varint_loop, decode_varint, finish_32, beyond_32, varint32_loop, varint32_from,
  skip_from, varint32_result, decode_varint32_eof, decode_varint32, skip_varint_loop, skip_varint,
}

shl-lt : (w x k : ℕ) → shl w x k < 2 ^ w
shl-lt w x k = mod-lt _ (one-le-pow w 2 (omega arith))

next_lem : (j : ℕ) → leb 64 (7 * j) ≡ false → next_bitpos (7 * j) ≡ 7 * suc j
next_lem j h = ground arith

-- With eleven rounds the loop of `pb_decode_varint` never runs out of them, and the number is a
-- uint64 whatever the bytes.
module _ (fuel j result : ℕ) (hr : IsU64 result) where
  -- One round, for any proof about the rounds behind it.
  varint_round :
      ((byte : ℕ)
        → leb 64 (7 * j) ≡ false
        → Ensures IsU64
            (varint_loop fuel (7 * suc j) (bit_or result (shl 64 (bit_and byte 0x7f) (7 * j)))))
      → Ensures IsU64 (varint_loop (suc fuel) (7 * j) result)
  unfolding varint_loop
  varint_round rest =
      if-Ensures IsU64 (leb 64 (7 * j)) _ _ (λ _. raise-Ensures IsU64 varint_overflow)
        (λ more. bind-Ensures IsByte IsU64 readbyte _ readbyte-Ensures (λ byte hb.
          if-Ensures IsU64 (bit_and byte 0x80 == 0) _ _
            (λ _. pure-Ensures IsU64 _ (or-lt-pow 64 _ _ hr (shl-lt 64 _ _)))
            (λ _. rw (next_lem j more) (rest byte more))))

varint_loop-Ensures :
    (fuel j result : ℕ)
    → 10 ≤ fuel + j
    → IsU64 result
    → Ensures IsU64 (varint_loop (suc fuel) (7 * j) result)
varint_loop-Ensures zero j result h hr =
    varint_round zero j result hr (λ byte more. absurd (ground arith))
varint_loop-Ensures (suc fuel) j result h hr = varint_round (suc fuel) j result hr (λ byte more.
    varint_loop-Ensures fuel (suc j) _ (omega arith) (or-lt-pow 64 _ _ hr (shl-lt 64 _ _)))

-- `pb_decode_varint` on a well-formed stream, whatever bytes it holds: it ends within the stream,
-- and a value that it returns is an uint64.
pub decode_varint-Ensures : Ensures IsU64 decode_varint
unfolding decode_varint
decode_varint-Ensures = varint_loop-Ensures 10 0 0 (omega arith) (omega arith)

if-Post :
    (P : ℕ → Type 0) (s : InStream) (b : Bool) (m k : Decoder ℕ)
    → Post P s (m s)
    → Post P s (k s)
    → Post P s ((if b then m else k) s)
if-Post P s true m k p q = p
if-Post P s false m k p q = q

if_both : (P : ℕ → Type 0) (b : Bool) {x y : ℕ} → P x → P y → P (if b then x else y)
if_both P true p q = p
if_both P false p q = q

finish_32-Ensures :
    (byte bitpos result : ℕ) → IsU32 result → Ensures IsU32 (finish_32 byte bitpos result)
finish_32-Ensures byte bitpos result h =
    if-Ensures IsU32 (bitpos == 35 && not (bit_and byte 0x70 == 0)) _ _
      (λ _. raise-Ensures IsU32 varint_overflow) (λ _. pure-Ensures IsU32 result h)

-- Below `fuel` bytes the loop of `pb_decode_varint32_eof` ends by the stream, and its number is a
-- uint32.
varint32_loop-Post :
    (fuel bitpos result : ℕ) (s : InStream)
    → IsValid s
    → s.bytes_left < fuel
    → IsU32 result
    → Post IsU32 s (varint32_loop fuel bitpos result s)
unfolding varint32_loop
varint32_loop-Post zero bitpos result s v h hr = absurd (omega arith)
varint32_loop-Post (suc fuel) bitpos result s v h hr =
    Post-and_then IsByte IsU32 s (readbyte s) _ (readbyte-Ensures s v) (λ byte t e hb fo.
      let result' =
        if leb 32 bitpos then result else bit_or result (shl 32 (bit_and byte 0x7f) bitpos) in
      let fits : IsU32 result' =
        if_both IsU32 (leb 32 bitpos) hr (or-lt-pow 32 _ _ hr (shl-lt 32 _ _)) in
      if-Post IsU32 t (leb 32 bitpos && beyond_32 byte bitpos result) _ _
        (raise-Ensures IsU32 varint_overflow t fo.valid)
        (if-Post IsU32 t (bit_and byte 0x80 == 0) _ _
          (finish_32-Ensures byte (next_bitpos bitpos) result' fits t fo.valid)
          (varint32_loop-Post fuel (next_bitpos bitpos) result' t fo.valid
            (omega (arith, readbyte_takes s byte t e)) fits)))

varint32_from-Ensures : (byte : ℕ) → IsByte byte → Ensures IsU32 (varint32_from byte)
unfolding varint32_from
varint32_from-Ensures byte h s v =
    if-Post IsU32 s (bit_and byte 0x80 == 0) (pure byte)
      (λ s. varint32_loop (suc s.bytes_left) 7 (bit_and byte 0x7f) s)
      (pure-Ensures IsU32 byte (omega arith) s v)
      (varint32_loop-Post (suc s.bytes_left) 7 _ s v (omega arith) (rw (and_7f byte) (omega arith)))

varint32_result-Post :
    (s : InStream) (r : Result ℕ) → Post IsByte s r → Post IsU32 s (varint32_result r).0
varint32_result-Post s (ok byte t) h =
    Post-Follows IsU32 (varint32_from byte t) h.1 (varint32_from-Ensures byte h.0 t h.1.valid)
varint32_result-Post s (failed t) h = h
varint32_result-Post s fault h = absurd h
varint32_result-Post s stuck h = absurd h

-- `pb_decode_varint32` on a well-formed stream, whatever bytes it holds: it ends within the stream,
-- and a value that it returns is an uint32.
pub decode_varint32-Ensures : Ensures IsU32 decode_varint32
unfolding decode_varint32 decode_varint32_eof
decode_varint32-Ensures s v = varint32_result-Post s (readbyte s) (readbyte-Ensures s v)

skip_last :
    (b : Bool) (m : Decoder (Unit {0})) (t : InStream)
    → IsValid t
    → Post (λ _. Unit) t (m t)
    → Post (λ _. Unit) t ((if b then pure tt else m) t)
skip_last true m t v p = (tt, Follows-self v)
skip_last false m t v p = p

skip_varint_loop-Post :
    (fuel : ℕ) (s : InStream)
    → IsValid s
    → s.bytes_left < fuel
    → Post (λ _. Unit) s (skip_varint_loop fuel s)
unfolding skip_varint_loop
skip_varint_loop-Post zero s v h = absurd (omega arith)
skip_varint_loop-Post (suc fuel) s v h =
    Post-and_then (Bytes 1) (λ _. Unit) s (read 1 s) _ (read-Ensures 1 s v)
      (λ bytes t e hb fo.
        from bytes t hb fo.valid
          (skip_varint_loop-Post fuel t fo.valid (omega (arith, read_takes s bytes t e))))
  where
    from :
        (bytes : List ℕ) (t : InStream)
        → Bytes 1 bytes
        → IsValid t
        → Post (λ _. Unit) t (skip_varint_loop fuel t)
        → Post (λ _. Unit) t (skip_from bytes (skip_varint_loop fuel) t)
    from [] t hb vt p = absurd (omega (arith, hb.0))
    from (byte ∷ bs) t hb vt p = skip_last (bit_and byte 0x80 == 0) (skip_varint_loop fuel) t vt p

pub skip_varint-IsSafe : IsSafe skip_varint
unfolding skip_varint
skip_varint-IsSafe s v = skip_varint_loop-Post (suc s.bytes_left) s v (omega arith)
