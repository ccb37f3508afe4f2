-- ===== src/Base64/Digits.antt =====
-- What `f_b64_pton` makes of a digit of base 64: the tests of a character, the stores of each state,
-- and the bytes that the digits of a group put together.
use answrapp.Common.{
  ℕ, ◌+◌, ◌*◌, ◌/◌, ◌%◌, ◌^◌, ◌≤◌, ◌<◌, ◌≡◌, refl, ◌∙◌, ap, sym, bit_and, bit_or, true, false, some,
  List, [], ◌∷◌, ◌++◌, append_assoc, arith, ltb, leb, if◌then◌else◌, length, length-append, set_at,
  get_at,
}
use answrapp.Common.Bits.{agree_below, agree_below_sound, or_disjoint_left}
use answrapp.Common.Bits.Masks.{and_3, and_f}
use native.Mathlib.Nat.{mod-eq_of_lt}
use answrapp.Nanopb.Types.{IsByte}
use answrapp.Base64.{letter, position, pad, Outcome, returned, minus_one}
use answrapp.Base64.Decode.{
  Kind, space, padding, foreign, digit, kind, State, state_0, state_1, state_2, state_3, Target,
  Rest, store, add_to, next, take_digit,
}
use answrapp.Base64.Format.{group, digit_at}

abbrev code : Kind → ℕ
code space = 64
code padding = 64
code foreign = 64
code (digit p) = p

code_digit : (k : Kind) (d : ℕ) → code k ≡ d → d < 64 → k ≡ digit d
code_digit space d e h = absurd (omega arith)
code_digit padding d e h = absurd (omega arith)
code_digit foreign d e h = absurd (omega arith)
code_digit (digit p) d e h = ap digit e

code-letter : (d : ℕ) → d < 64 → code (kind (letter d)) ≡ d
unfolding agree_below kind letter position
code-letter = agree_below_sound (λ d. code (kind (letter d))) (λ d. d) 64 refl

pub kind-letter : (d : ℕ) → d < 64 → kind (letter d) ≡ digit d
kind-letter d h = code_digit (kind (letter d)) d (code-letter d h) h

pub kind-pad : kind pad ≡ padding
unfolding kind
kind-pad = refl

module _ (out ys : List ℕ) (y v : ℕ) (more : List ℕ → Outcome Target) where
  pub store_lem : store (out ++ y ∷ ys) (length out) v more ≡ more (out ++ v ∷ ys)
  store_lem =
      let inside : ltb (length out) (length (out ++ y ∷ ys)) ≡ true =
        ground (arith, length-append out (y ∷ ys)) in
      rw (inside, set_at out ys y v) refl

  pub add_to_lem :
      add_to (out ++ y ∷ ys) (length out) v more ≡ more (out ++ (bit_or y v % 256) ∷ ys)
  add_to_lem =
      let inside : ltb (length out) (length (out ++ y ∷ ys)) ≡ true =
        ground (arith, length-append out (y ∷ ys)) in
      rw (inside, get_at out ys y 0, set_at out ys y (bit_or y v % 256)) refl

pub store_at :
    (i : ℕ) (mem out ys : List ℕ) (y v : ℕ) (more : List ℕ → Outcome Target)
    → mem ≡ out ++ y ∷ ys
    → i ≡ length out
    → store mem i v more ≡ more (out ++ v ∷ ys)
store_at i mem out ys y v more em ei = rw (em, ei) (store_lem out ys y v more)

abbrev pub snoc : List ℕ → ℕ → List ℕ
snoc out v = out ++ v ∷ []

pub length-snoc : (out : List ℕ) (v : ℕ) → length (snoc out v) ≡ length out + 1
length-snoc out v = length-append out (v ∷ [])

next-snoc : (out : List ℕ) (v : ℕ) → length out < 2 ^ 31 → next (length out) ≡ length (snoc out v)
next-snoc out v h = omega (arith, length-snoc out v)

-- One digit in each state, where the array has room; `more` is the rest of the function.
module _ (targsize d : ℕ) (out ys : List ℕ) (y : ℕ) (more : Rest) (int : targsize ≤ 2 ^ 31) where
  pub take_0 :
      length out < targsize
      → take_digit targsize d state_0 (length out) (some (out ++ y ∷ ys)) more
        ≡ more state_1 (length out) (some (out ++ (d * 2 ^ 2 % 256) ∷ ys))
  unfolding take_digit
  take_0 h =
      let free : leb targsize (length out) ≡ false = ground arith in
      rw free (store_lem out ys y (d * 2 ^ 2 % 256) (λ m. more state_1 (length out) (some m)))

  pub take_3 :
      length out < targsize
      → take_digit targsize d state_3 (length out) (some (out ++ y ∷ ys)) more
        ≡ more state_0 (length out + 1) (some (snoc out (bit_or y d % 256) ++ ys))
  unfolding take_digit
  take_3 h =
      let free : leb targsize (length out) ≡ false = ground arith in
      let index : next (length out) ≡ length out + 1 = omega arith in
      rw (free, append_assoc)
        (add_to_lem out ys y d (λ m. more state_0 (next (length out)) (some m)) ∙ rw index refl)

-- States 1 and 2 end one byte and start the next.
module _ (targsize : ℕ) (out ys : List ℕ) (y z v w : ℕ) (more : Rest) (int : targsize ≤ 2 ^ 31)
    (s : State) (h : length out + 1 < targsize) where
  both_lem :
      (if leb targsize (next (length out))
        then returned minus_one (some (out ++ y ∷ z ∷ ys))
        else (add_to
            (out ++ y ∷ z ∷ ys)
            (length out)
            v
            λ m. store m (next (length out)) w λ m'. more s (next (length out)) (some m')))
      ≡ more s (length out + 1) (some (snoc out (bit_or y v % 256) ++ w ∷ ys))
  both_lem =
      let free : leb targsize (next (length out)) ≡ false = ground arith in
      let byte = bit_or y v % 256 in
      let index : next (length out) ≡ length out + 1 = omega arith in
      let rest : List ℕ → Outcome Target = λ m. more s (next (length out)) (some m) in
      rw free (
        add_to_lem out (z ∷ ys) y v (λ m. store m (next (length out)) w rest)
        ∙ store_at (next (length out)) (out ++ byte ∷ z ∷ ys) (snoc out byte) ys z w rest
            (sym (append_assoc out (byte ∷ []) (z ∷ ys))) (next-snoc out byte (omega arith))
        ∙ ap (λ i. more s i (some (snoc out byte ++ w ∷ ys))) index)

module _ (targsize d : ℕ) (out ys : List ℕ) (y z : ℕ) (more : Rest) (int : targsize ≤ 2 ^ 31)
    (h : length out + 1 < targsize) where
  pub take_1 :
      take_digit targsize d state_1 (length out) (some (out ++ y ∷ z ∷ ys)) more
      ≡ more state_2
          (length out + 1)
          (some (snoc out (bit_or y (d / 2 ^ 4) % 256) ++ (bit_and d 0x0f * 2 ^ 4 % 256) ∷ ys))
  unfolding take_digit
  take_1 = both_lem targsize out ys y z (d / 2 ^ 4) _ more int state_2 h

  pub take_2 :
      take_digit targsize d state_2 (length out) (some (out ++ y ∷ z ∷ ys)) more
      ≡ more state_3
          (length out + 1)
          (some (snoc out (bit_or y (d / 2 ^ 2) % 256) ++ (bit_and d 0x03 * 2 ^ 6 % 256) ∷ ys))
  unfolding take_digit
  take_2 = both_lem targsize out ys y z (d / 2 ^ 2) _ more int state_3 h

or_byte :
    (k g low a : ℕ)
    → g * 2 ^ k < 256
    → low < 2 ^ k
    → g * 2 ^ k + low ≡ a
    → IsByte a
    → bit_or (g * 2 ^ k % 256) low % 256 ≡ a
or_byte k g low a fits hl e h = rw (mod-eq_of_lt fits, or_disjoint_left k g low hl) (omega arith)

-- The three bytes of a group.
module _ (a b c : ℕ) (ha : IsByte a) (hb : IsByte b) (hc : IsByte c) where
  pub join_a :
      bit_or (digit_at (group a b c) 18 * 2 ^ 2 % 256) (digit_at (group a b c) 12 / 2 ^ 4) % 256 ≡ a
  join_a = or_byte 2 (digit_at (group a b c) 18) _ a (omega arith) (omega arith) (omega arith) ha

  pub join_b :
      bit_or
          (bit_and (digit_at (group a b c) 12) 0x0f * 2 ^ 4 % 256)
          (digit_at (group a b c) 6 / 2 ^ 2)
        % 256
      ≡ b
  join_b =
      rw and_f (
        or_byte 4 (digit_at (group a b c) 12 % 16) _ b (omega arith) (omega arith) (omega arith) hb)

  pub join_c :
      bit_or (bit_and (digit_at (group a b c) 6) 0x03 * 2 ^ 6 % 256) (digit_at (group a b c) 0)
        % 256
      ≡ c
  join_c =
      rw and_3
        (or_byte 6 (digit_at (group a b c) 6 % 4) _ c (omega arith) (omega arith) (omega arith) hc)
