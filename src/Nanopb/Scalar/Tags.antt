-- ===== src/Nanopb/Scalar/Tags.antt =====
-- `pb_encode_tag` against `pb_decode_tag`.
use answrapp.Common.{
  ℕ, ◌+◌, ◌*◌, ◌/◌, ◌^◌, ◌<◌, ◌≡◌, ◌∙◌, ap, bit_and, false, List, ◌++◌, arith, ◌==◌, length, Option,
}
use answrapp.Common.Bits.{or_disjoint_left}
use answrapp.Common.Bits.Masks.{and_7}
use native.Mathlib.Nat.{mod-eq_of_lt}
use answrapp.Nanopb.Types.{Error}
use answrapp.Nanopb.Input.{InStream, ok}
use answrapp.Nanopb.Input.Buffer.{over}
use answrapp.Nanopb.Output.Emits.{Emits}
use answrapp.Nanopb.Varint.Format.{varint}
use answrapp.Nanopb.Varint.Decode32.{decode_varint32-varint, decode_varint32_eof-ok}
use answrapp.Nanopb.Scalar.{tag_result, decode_tag}
use answrapp.Nanopb.Scalar.Encode.{tag_number, encode_tag}
use answrapp.Nanopb.Scalar.RoundTrip.{encode_varint-Emits}

-- A tag fits a uint32 with its wire type in the low three bits.
tag_number_lem : (wt f : ℕ) → wt < 8 → f < 2 ^ 29 → tag_number wt f ≡ f * 2 ^ 3 + wt
tag_number_lem wt f hw hf =
    let word : f * 2 ^ 3 < 2 ^ 64 = omega arith in
    rw (mod-eq_of_lt word, or_disjoint_left 3 f wt hw)

tag_result_lem :
    (wt f : ℕ) (t : InStream)
    → wt < 8
    → 0 < f
    → tag_result (ok (f * 2 ^ 3 + wt) t, false) ≡ (ok (record { wire_type = wt; tag = f }) t, false)
tag_result_lem wt f t hw hf =
    let nonzero : (f * 2 ^ 3 + wt == 0) ≡ false = ground arith in
    let tag : (f * 2 ^ 3 + wt) / 2 ^ 3 ≡ f = omega arith in
    let wire : bit_and (f * 2 ^ 3 + wt) 7 ≡ wt = and_7 _ ∙ omega arith in rw (nonzero, wire, tag)

-- `pb_decode_tag` reads back the wire type and the number of every field that `pb_encode_tag`
-- writes, for a wire type of three bits and a field number from 1 to 2 ^ 29 - 1, and does not
-- report the end of the message.
pub tag_round_trip :
    (wt f : ℕ)
    → wt < 8
    → 0 < f
    → f < 2 ^ 29
    → (bytes : List ℕ) × Emits (encode_tag wt f) bytes
      × ((rest : List ℕ) (n : ℕ) (err : Option Error)
          → decode_tag (over (bytes ++ rest) (length bytes + n) err)
            ≡ (ok (record { wire_type = wt; tag = f }) (over rest n err), false))
unfolding encode_tag decode_tag
tag_round_trip wt f hw hp hf =
    let number = tag_number_lem wt f hw hf in
    (
      varint 9 (f * 2 ^ 3 + wt),
      rw number (encode_varint-Emits _ (omega arith)),
      λ rest n err.
          ap tag_result (
            decode_varint32_eof-ok _
              (decode_varint32-varint (f * 2 ^ 3 + wt) n rest err (omega arith)))
          ∙ tag_result_lem wt f (over rest n err) hw hp,
    )
