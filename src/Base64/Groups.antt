-- ===== src/Base64/Groups.antt =====
-- `f_b64_pton` on the text of one, two or three bytes.
use answrapp.Common.{
  ℕ, ◌+◌, ◌*◌, ◌%◌, ◌^◌, ◌≤◌, ◌<◌, ◌≡◌, refl, ◌∙◌, ap, sym, bit_and, false, some, List, [], ◌∷◌,
  ◌++◌, append_assoc, arith, leb, length, length-append, get_at,
}
use answrapp.Common.Bits.Masks.{and_3, and_f}
use answrapp.Common.Int.{pos, cast}
use answrapp.Nanopb.Types.{IsByte}
use answrapp.Base64.{letter, pad, returned}
use answrapp.Base64.Decode.{
  State, state_0, state_1, state_2, state_3, Target, take_digit, check_extra, trailing, second_pad,
  finish_pad, finish_end, decode_from,
}
use answrapp.Base64.Format.{group, digit_at, base64}
use answrapp.Base64.Digits.{
  kind-letter, kind-pad, snoc, length-snoc, take_0, take_1, take_2, take_3, join_a, join_b, join_c,
}

decode_digit :
    (targsize d : ℕ) (cs : List ℕ) (s : State) (i : ℕ) (t : Target)
    → d < 64
    → decode_from targsize (letter d ∷ cs) s i t
      ≡ take_digit targsize d s i t (decode_from targsize cs)
unfolding decode_from
decode_digit targsize d cs s i t h = rw (kind-letter d h) refl

-- The bits of a digit that the next byte starts with.
abbrev high_4 : ℕ → ℕ
high_4 d = bit_and d 0x0f * 2 ^ 4 % 256

abbrev high_2 : ℕ → ℕ
high_2 d = bit_and d 0x03 * 2 ^ 6 % 256

module _ (targsize : ℕ) (int : targsize ≤ 2 ^ 31) (a b c : ℕ) (ha : IsByte a) (hb : IsByte b)
    (hc : IsByte c) (cs out ys : List ℕ) (y z : ℕ) where
  -- The digits of a group, two for the first byte and one for each other.
  pub decode_first :
      length out + 1 < targsize
      → decode_from targsize
          (letter (digit_at (group a b c) 18) ∷ letter (digit_at (group a b c) 12) ∷ cs)
          state_0
          (length out)
          (some (out ++ y ∷ z ∷ ys))
        ≡ decode_from targsize cs state_2
            (length out + 1)
            (some (snoc out a ++ high_4 (digit_at (group a b c) 12) ∷ ys))
  decode_first h =
      let n = group a b c in
      let d = digit_at n 18 in
      let e = digit_at n 12 in
      decode_digit targsize d (letter e ∷ cs) state_0 (length out) _ (omega arith)
      ∙ take_0 targsize d out (z ∷ ys) y (decode_from targsize (letter e ∷ cs)) int (omega arith)
      ∙ decode_digit targsize e cs state_1 (length out) _ (omega arith)
      ∙ take_1 targsize e out ys (d * 2 ^ 2 % 256) z (decode_from targsize cs) int h
      ∙ rw (join_a a b c ha hb hc) refl

  pub decode_second :
      length out + 1 < targsize
      → decode_from targsize
          (letter (digit_at (group a b c) 6) ∷ cs)
          state_2
          (length out)
          (some (out ++ high_4 (digit_at (group a b c) 12) ∷ z ∷ ys))
        ≡ decode_from targsize cs state_3
            (length out + 1)
            (some (snoc out b ++ high_2 (digit_at (group a b c) 6) ∷ ys))
  decode_second h =
      let n = group a b c in
      let d = digit_at n 6 in
      decode_digit targsize d cs state_2 (length out) _ (omega arith)
      ∙ take_2 targsize d out ys (high_4 (digit_at n 12)) z (decode_from targsize cs) int h
      ∙ rw (join_b a b c ha hb hc) refl

  pub decode_third :
      length out < targsize
      → decode_from targsize
          (letter (digit_at (group a b c) 0) ∷ cs)
          state_3
          (length out)
          (some (out ++ high_2 (digit_at (group a b c) 6) ∷ ys))
        ≡ decode_from targsize cs state_0 (length out + 1) (some (snoc out c ++ ys))
  decode_third h =
      let n = group a b c in
      let d = digit_at n 0 in
      decode_digit targsize d cs state_3 (length out) _ (omega arith)
      ∙ take_3 targsize d out ys (high_2 (digit_at n 6)) (decode_from targsize cs) int h
      ∙ rw (join_c a b c ha hb hc) refl

check_lem :
    (out ys : List ℕ)
    → length out < 2 ^ 31
    → check_extra (length out) (some (out ++ 0 ∷ ys))
      ≡ returned (pos (length out)) (some (out ++ 0 ∷ ys))
unfolding check_extra
check_lem out ys h =
    let inside : leb (length (out ++ 0 ∷ ys)) (length out) ≡ false =
      ground (arith, length-append out (0 ∷ ys)) in
    let int : cast 32 (pos (length out)) ≡ pos (length out) = ground arith in
    rw (inside, get_at out ys 0 0, int) refl

two_pads :
    (targsize : ℕ) (out ys : List ℕ)
    → length out < 2 ^ 31
    → decode_from targsize (pad ∷ pad ∷ []) state_2 (length out) (some (out ++ 0 ∷ ys))
      ≡ returned (pos (length out)) (some (out ++ 0 ∷ ys))
unfolding decode_from finish_pad second_pad trailing
two_pads targsize out ys h = rw kind-pad (check_lem out ys h)

one_pad :
    (targsize : ℕ) (out ys : List ℕ)
    → length out < 2 ^ 31
    → decode_from targsize (pad ∷ []) state_3 (length out) (some (out ++ 0 ∷ ys))
      ≡ returned (pos (length out)) (some (out ++ 0 ∷ ys))
unfolding decode_from finish_pad trailing
one_pad targsize out ys h = rw kind-pad (check_lem out ys h)

pub at_end :
    (targsize : ℕ) (out : List ℕ) (t : Target)
    → length out < 2 ^ 31
    → decode_from targsize [] state_0 (length out) t ≡ returned (pos (length out)) t
unfolding decode_from finish_end
at_end targsize out t h =
    let int : cast 32 (pos (length out)) ≡ pos (length out) = ground arith in rw int refl

-- The rest of a decoding: from the text of `bytes` it stores just these behind `out`.
abbrev pub Reads : ℕ → List ℕ → List ℕ → List ℕ → Type 0
Reads targsize bytes out ys =
    (after : List ℕ) × (length bytes + length after ≡ length ys)
    × (decode_from targsize (base64 bytes) state_0 (length out) (some (out ++ ys))
        ≡ returned (pos (length (out ++ bytes))) (some ((out ++ bytes) ++ after)))

module _ (targsize : ℕ) (int : targsize ≤ 2 ^ 31) where
  pub move :
      (cs out : List ℕ) (s : State) (a : ℕ) (t : Target)
      → decode_from targsize cs s (length out + 1) t
        ≡ decode_from targsize cs s (length (snoc out a)) t
  move cs out s a t = ap (λ i. decode_from targsize cs s i t) (sym (length-snoc out a))

  pub one_byte :
      (a y z : ℕ) (out ys : List ℕ)
      → IsByte a
      → length out + 1 < targsize
      → Reads targsize (a ∷ []) out (y ∷ z ∷ ys)
  unfolding base64
  one_byte a y z out ys ha h =
      let zero_byte : IsByte 0 = omega arith in
      let extra : high_4 (digit_at (group a 0 0) 12) ≡ 0 = rw and_f (omega arith) in
      let e = length-snoc out a in
      (
        0 ∷ ys,
        omega arith,
        decode_first targsize int a 0 0 ha zero_byte zero_byte (pad ∷ pad ∷ []) out ys y z h
            ∙ move (pad ∷ pad ∷ []) out state_2 a _
            ∙ rw extra (two_pads targsize (snoc out a) ys (omega arith)),
      )

  pub two_bytes :
      (a b x y z : ℕ) (out ys : List ℕ)
      → IsByte a
      → IsByte b
      → length out + 2 < targsize
      → Reads targsize (a ∷ b ∷ []) out (x ∷ y ∷ z ∷ ys)
  unfolding base64
  two_bytes a b x y z out ys ha hb h =
      let zero_byte : IsByte 0 = omega arith in
      let extra : high_2 (digit_at (group a b 0) 6) ≡ 0 = rw and_3 (omega arith) in
      let e = length-snoc out a in
      let e' = length-snoc (snoc out a) b in
      let third = letter (digit_at (group a b 0) 6) ∷ pad ∷ [] in
      (
        0 ∷ ys,
        omega arith,
        decode_first targsize int a b 0 ha hb zero_byte third out (z ∷ ys) x y (omega arith)
            ∙ move third out state_2 a _
            ∙ decode_second targsize int a b 0 ha hb zero_byte (pad ∷ []) (snoc out a) ys x z
                (omega arith)
            ∙ move (pad ∷ []) (snoc out a) state_3 b _
            ∙ rw (extra, append_assoc out (a ∷ []) (b ∷ []))
                (one_pad targsize (out ++ a ∷ b ∷ []) ys
                  (omega (arith, length-append out (a ∷ b ∷ [])))),
      )
