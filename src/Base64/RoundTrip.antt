-- ===== src/Base64/RoundTrip.antt =====
-- `f_b64_pton` on what `f_b64_ntop` writes.
use answrapp.Common.{
  ℕ, ◌+◌, ◌^◌, ◌≤◌, ◌<◌, ◌≡◌, refl, ◌∙◌, some, List, [], ◌∷◌, ◌++◌, append_assoc, append-nil, arith,
  All, length, length-append,
}
use answrapp.Common.Int.{pos}
use answrapp.Nanopb.Types.{IsByte}
use answrapp.Base64.{letter, returned}
use answrapp.Base64.Encode.{f_b64_ntop}
use answrapp.Base64.Decode.{state_0, state_2, state_3, decode_from, f_b64_pton}
use answrapp.Base64.Format.{group, digit_at, base64}
use answrapp.Base64.Text.{f_b64_ntop_lem}
use answrapp.Base64.Digits.{snoc, length-snoc}
use answrapp.Base64.Groups.{
  Reads, at_end, decode_first, decode_second, decode_third, move, one_byte, two_bytes,
}

module _ (targsize : ℕ) (int : targsize ≤ 2 ^ 31) where
  whole_group :
      (a b c x y z : ℕ) (cs out ys : List ℕ)
      → IsByte a
      → IsByte b
      → IsByte c
      → length out + 3 < targsize
      → decode_from targsize
          (letter (digit_at (group a b c) 18)
            ∷ letter (digit_at (group a b c) 12)
            ∷ letter (digit_at (group a b c) 6)
            ∷ letter (digit_at (group a b c) 0)
            ∷ cs)
          state_0
          (length out)
          (some (out ++ x ∷ y ∷ z ∷ ys))
        ≡ decode_from targsize cs state_0
            (length (out ++ a ∷ b ∷ c ∷ []))
            (some ((out ++ a ∷ b ∷ c ∷ []) ++ ys))
  whole_group a b c x y z cs out ys ha hb hc h =
      let n = group a b c in
      let last = letter (digit_at n 0) ∷ cs in
      let third = letter (digit_at n 6) ∷ last in
      let e = length-snoc out a in
      let e' = length-snoc (snoc out a) b in
      decode_first targsize int a b c ha hb hc third out (z ∷ ys) x y (omega arith)
      ∙ move targsize int third out state_2 a _
      ∙ decode_second targsize int a b c ha hb hc last (snoc out a) ys x z (omega arith)
      ∙ move targsize int last (snoc out a) state_3 b _
      ∙ decode_third targsize int a b c ha hb hc cs (snoc (snoc out a) b) ys x y (omega arith)
      ∙ move targsize int cs (snoc (snoc out a) b) state_0 c _
      ∙ rw (append_assoc out (a ∷ []) (b ∷ []), append_assoc out (a ∷ b ∷ []) (c ∷ [])) refl

  decode_from-Reads :
      (bytes out ys : List ℕ)
      → All IsByte bytes
      → length out + length bytes < targsize
      → length bytes < length ys
      → Reads targsize bytes out ys
  unfolding base64
  decode_from-Reads [] out ys hb h k =
      (ys, omega arith, rw append-nil (at_end targsize out (some (out ++ ys)) (omega arith)))
  decode_from-Reads (a ∷ []) out [] hb h k = absurd (omega arith)
  decode_from-Reads (a ∷ []) out (y ∷ []) hb h k = absurd (omega arith)
  decode_from-Reads (a ∷ []) out (y ∷ z ∷ ys) hb h k =
      one_byte targsize int a y z out ys hb.0 (omega arith)
  decode_from-Reads (a ∷ b ∷ []) out [] hb h k = absurd (omega arith)
  decode_from-Reads (a ∷ b ∷ []) out (x ∷ []) hb h k = absurd (omega arith)
  decode_from-Reads (a ∷ b ∷ []) out (x ∷ y ∷ []) hb h k = absurd (omega arith)
  decode_from-Reads (a ∷ b ∷ []) out (x ∷ y ∷ z ∷ ys) hb h k =
      two_bytes targsize int a b x y z out ys hb.0 hb.1.0 (omega arith)
  decode_from-Reads (a ∷ b ∷ c ∷ rest) out [] hb h k = absurd (omega arith)
  decode_from-Reads (a ∷ b ∷ c ∷ rest) out (x ∷ []) hb h k = absurd (omega arith)
  decode_from-Reads (a ∷ b ∷ c ∷ rest) out (x ∷ y ∷ []) hb h k = absurd (omega arith)
  decode_from-Reads (a ∷ b ∷ c ∷ rest) out (x ∷ y ∷ z ∷ ys) hb h k =
      let three = out ++ a ∷ b ∷ c ∷ [] in
      let e = length-append out (a ∷ b ∷ c ∷ []) in
      let (after, len, reads) =
        decode_from-Reads rest three ys hb.1.1.1 (omega arith) (omega arith) in
      (
        after,
        omega arith,
        whole_group a b c x y z (base64 rest) out ys hb.0 hb.1.0 hb.1.1.0 (omega arith)
            ∙ reads
            ∙ rw (append_assoc out (a ∷ b ∷ c ∷ []) rest) refl,
      )

-- With room for the text and its terminator in `targsize` bytes, `f_b64_ntop` returns a text that
-- `f_b64_pton`, in an array with more room than the bytes need, reads as just these bytes: it
-- returns their number and stores them at the start of the array. Both sizes are at most 2 ^ 31.
pub base64_round_trip :
    (targsize size : ℕ) (bytes memory : List ℕ)
    → All IsByte bytes
    → length (base64 bytes) < targsize
    → targsize ≤ 2 ^ 31
    → length bytes < size
    → size ≤ length memory
    → size ≤ 2 ^ 31
    → (text : List ℕ) × (after : List ℕ) × (f_b64_ntop targsize targsize bytes
        ≡ returned (pos (length text)) (text ++ 0 ∷ []))
      × (length bytes + length after ≡ length memory)
      × (f_b64_pton size (some memory) text ≡ returned (pos (length bytes)) (some (bytes ++ after)))
unfolding f_b64_pton
base64_round_trip targsize size bytes memory hb room int fits inside int' =
    let (after, len, reads) =
      decode_from-Reads size int' bytes [] memory hb (omega arith) (omega arith) in
    (
      base64 bytes,
      after,
      (f_b64_ntop_lem targsize targsize bytes (omega arith) int hb).0 room,
      len,
      reads,
    )
