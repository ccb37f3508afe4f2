-- ===== src/Base64/Safety.antt =====
-- `f_b64_pton` on any string at all, and the array that it is given.
use answrapp.Common.{
  ℕ, ◌%◌, ◌^◌, ◌≤◌, ◌<◌, ◌≡◌, refl, ◌∙◌, bit_or, true, false, Bool-cases, inl, inr, none, some,
  List, [], ◌∷◌, arith, ltb, leb, ◌==◌, if◌then◌else◌, length, length-set, set, get_or,
}
use answrapp.Base64.{Outcome, returned, fault, minus_one, pad}
use answrapp.Base64.Decode.{
  Kind, space, padding, foreign, digit, kind, by_kind, isspace, State, state_0, state_1, state_2,
  state_3, Target, Rest, store, add_to, next, take_digit, check_extra, trailing, second_pad,
  finish_pad, finish_end, decode_from, f_b64_pton,
}

-- The call has returned, with an array of `size` bytes.
abbrev pub Keeps : ℕ → Outcome Target → Type 0
Keeps size (returned n none) = ⊥
Keeps size (returned n (some mem)) = length mem ≡ size
Keeps size fault = ⊥

-- Behind the first digit of a group `tarindex` is a byte of the array.
abbrev InRange : ℕ → State → ℕ → Type 0
InRange targsize state_0 i = i ≤ targsize
InRange targsize _ i = i < targsize

module _ (targsize size : ℕ) (room : targsize ≤ size) (word : targsize < 2 ^ 32) where
  abbrev RestKeeps : Rest → Type 0
  RestKeeps more =
      (s : State) (i : ℕ) (mem : List ℕ)
      → InRange targsize s i
      → length mem ≡ size
      → Keeps size (more s i (some mem))

  store-Keeps :
      (mem : List ℕ) (i v : ℕ) (more : List ℕ → Outcome Target)
      → i < size
      → length mem ≡ size
      → ((m : List ℕ) → length m ≡ size → Keeps size (more m))
      → Keeps size (store mem i v more)
  store-Keeps mem i v more h e k =
      let inside : ltb i (length mem) ≡ true = ground arith in
      rw inside (k (set mem i v) (length-set mem i v ∙ e))

  two_stores :
      (mem : List ℕ) (i v : ℕ) (w : ℕ) (s : State) (more : Rest)
      → i < targsize
      → length mem ≡ size
      → (next i < targsize → (m : List ℕ) → length m ≡ size → Keeps size (more s (next i) (some m)))
      → Keeps size (
          if leb targsize (next i)
          then returned minus_one (some mem)
          else (add_to mem i v λ m. store m (next i) w λ m'. more s (next i) (some m')))
  two_stores mem i v w s more h e k = elim (Bool-cases (leb targsize (next i))) [
    | inl full ↦ rw full e
    | inr free ↦ rw free (
        store-Keeps mem i (bit_or (get_or mem i 0) v % 256)
          (λ m. store m (next i) w λ m'. more s (next i) (some m')) (ground arith) e
          (λ m em.
            store-Keeps m (next i) w (λ m'. more s (next i) (some m')) (ground arith) em
              (k (ground arith))))
  ]

  take_digit-Keeps :
      (p : ℕ) (more : Rest) → RestKeeps more → RestKeeps (λ s i t. take_digit targsize p s i t more)
  unfolding take_digit
  take_digit-Keeps p more k state_0 i mem h e = elim (Bool-cases (leb targsize i)) [
    | inl full ↦ rw full e
    | inr free ↦ rw free (
        store-Keeps mem i _ (λ m. more state_1 i (some m)) (ground arith) e
          (λ m em. k state_1 i m (ground arith) em))
  ]
  take_digit-Keeps p more k state_1 i mem h e =
      two_stores mem i _ _ state_2 more h e (λ hi m em. k state_2 (next i) m hi em)
  take_digit-Keeps p more k state_2 i mem h e =
      two_stores mem i _ _ state_3 more h e (λ hi m em. k state_3 (next i) m hi em)
  take_digit-Keeps p more k state_3 i mem h e = elim (Bool-cases (leb targsize i)) [
    | inl full ↦ rw full e
    | inr free ↦ rw free (
        store-Keeps mem i _ (λ m. more state_0 (next i) (some m)) (ground arith) e
          (λ m em. k state_0 (next i) m (omega arith) em))
  ]

  check_extra-Keeps :
      (i : ℕ) (mem : List ℕ)
      → i < targsize
      → length mem ≡ size
      → Keeps size (check_extra i (some mem))
  unfolding check_extra
  check_extra-Keeps i mem h e =
      let inside : leb (length mem) i ≡ false = ground arith in
      elim (Bool-cases (get_or mem i 0 == 0)) [
        | inl z ↦ rw (inside, z) e
        | inr n ↦ rw (inside, n) e
      ]

  trailing-Keeps :
      (cs : List ℕ) (i : ℕ) (mem : List ℕ)
      → i < targsize
      → length mem ≡ size
      → Keeps size (trailing i (some mem) cs)
  unfolding trailing
  trailing-Keeps [] i mem h e = check_extra-Keeps i mem h e
  trailing-Keeps (ch ∷ cs) i mem h e = elim (Bool-cases (isspace ch)) [
    | inl blank ↦ rw blank (trailing-Keeps cs i mem h e)
    | inr other ↦ rw other e
  ]

  second_pad-Keeps :
      (cs : List ℕ) (i : ℕ) (mem : List ℕ)
      → i < targsize
      → length mem ≡ size
      → Keeps size (second_pad i (some mem) cs)
  unfolding second_pad
  second_pad-Keeps [] i mem h e = e
  second_pad-Keeps (ch ∷ cs) i mem h e = elim (Bool-cases (isspace ch)) [
    | inl blank ↦ rw blank (second_pad-Keeps cs i mem h e)
    | inr other ↦ rw other (elim (Bool-cases (ch == pad)) [
      | inl p ↦ rw p (trailing-Keeps cs i mem h e)
      | inr n ↦ rw n e
    ])
  ]

  finish_pad-Keeps : (cs : List ℕ) → RestKeeps (λ s i t. finish_pad s i t cs)
  unfolding finish_pad
  finish_pad-Keeps cs state_0 i mem h e = e
  finish_pad-Keeps cs state_1 i mem h e = e
  finish_pad-Keeps cs state_2 i mem h e = second_pad-Keeps cs i mem h e
  finish_pad-Keeps cs state_3 i mem h e = trailing-Keeps cs i mem h e

  by_kind-Keeps :
      (k : Kind) (cs : List ℕ) (more : Rest)
      → RestKeeps more
      → RestKeeps (by_kind k targsize cs more)
  by_kind-Keeps space cs more km = km
  by_kind-Keeps padding cs more km = finish_pad-Keeps cs
  by_kind-Keeps foreign cs more km = λ s i mem h e. e
  by_kind-Keeps (digit p) cs more km = take_digit-Keeps p more km

  finish_end-Keeps : RestKeeps finish_end
  unfolding finish_end
  finish_end-Keeps state_0 i mem h e = e
  finish_end-Keeps state_1 i mem h e = e
  finish_end-Keeps state_2 i mem h e = e
  finish_end-Keeps state_3 i mem h e = e

  decode_from-Keeps : (src : List ℕ) → RestKeeps (decode_from targsize src)
  unfolding decode_from
  decode_from-Keeps [] = finish_end-Keeps
  decode_from-Keeps (ch ∷ cs) =
      by_kind-Keeps (kind ch) cs (decode_from targsize cs) (decode_from-Keeps cs)

-- Whatever string it is given, `f_b64_pton` touches no byte outside an array that has at least
-- `targsize` bytes (below 2 ^ 32), and returns with an array of the same size.
pub f_b64_pton-Keeps :
    (targsize : ℕ) (memory src : List ℕ)
    → targsize ≤ length memory
    → targsize < 2 ^ 32
    → Keeps (length memory) (f_b64_pton targsize (some memory) src)
unfolding f_b64_pton
f_b64_pton-Keeps targsize memory src room word =
    decode_from-Keeps targsize (length memory) room word src state_0 0 memory (omega arith) refl
