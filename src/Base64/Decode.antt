-- ===== src/Base64/Decode.antt =====
-- `f_b64_pton`. `target` is NULL, or the array behind the pointer; `targsize` is what the caller says
-- of its size.
use answrapp.Common.{
  ℕ, ◌+◌, ◌*◌, ◌/◌, ◌%◌, ◌^◌, bit_and, bit_or, Bool, ◌&&◌, ◌||◌, Option, none, some, List, [], ◌∷◌,
  ltb, leb, ◌==◌, if◌then◌else◌, length, get_or, set,
}
use answrapp.Common.Int.{pos, cast}
use answrapp.Base64.{alphabet, pad, position, Outcome, returned, fault, minus_one}

-- `state`, 0 to 3.
pub data State : Type 0 where
  state_0 state_1 state_2 state_3 : State

abbrev pub Target : Type 0
Target = Option (List ℕ)

-- `isspace`, in the locale of C.
abbrev pub isspace : ℕ → Bool
isspace ch = ch == 32 || (leb 9 ch && leb ch 13)

-- What the tests of the loop make of a character.
pub data Kind : Type 0 where
  space padding foreign : Kind
  digit : ℕ → Kind

abbrev digit_or_foreign : Option ℕ → Kind
digit_or_foreign none = foreign
digit_or_foreign (some p) = digit p

unfoldable pub kind : ℕ → Kind
kind ch =
    if isspace ch
    then space
    else if ch == pad
    then padding
    else digit_or_foreign (position 0 ch alphabet)

-- The rest of the function, from a state, `tarindex` and the target on.
abbrev pub Rest : Type 0
Rest = State → ℕ → Target → Outcome Target

-- `target[i] = v`.
abbrev pub store : List ℕ → ℕ → ℕ → (List ℕ → Outcome Target) → Outcome Target
store mem i v more = if ltb i (length mem) then more (set mem i v) else fault

-- `tarindex + 1` and `tarindex++`, of an u_int.
abbrev pub next : ℕ → ℕ
next i = (i + 1) % 2 ^ 32

-- The end of a byte is added to the one that stands there, and the rest of the digit starts the
-- next byte.
abbrev pub add_to : List ℕ → ℕ → ℕ → (List ℕ → Outcome Target) → Outcome Target
add_to mem i v more = store mem i (bit_or (get_or mem i 0) v % 256) more

-- The `switch` on a digit, the `p`-th of the alphabet.
unfoldable pub take_digit : ℕ → ℕ → State → ℕ → Target → Rest → Outcome Target
take_digit targsize p state_0 i none more = more state_1 i none
take_digit targsize p state_0 i (some mem) more =
    if leb targsize i
    then returned minus_one (some mem)
    else (store mem i (p * 2 ^ 2 % 256) λ m. more state_1 i (some m))
take_digit targsize p state_1 i none more = more state_2 (next i) none
take_digit targsize p state_1 i (some mem) more =
    if leb targsize (next i)
    then returned minus_one (some mem)
    else (add_to mem i (p / 2 ^ 4)
        λ m. store m (next i) (bit_and p 0x0f * 2 ^ 4 % 256) λ m'. more state_2 (next i) (some m'))
take_digit targsize p state_2 i none more = more state_3 (next i) none
take_digit targsize p state_2 i (some mem) more =
    if leb targsize (next i)
    then returned minus_one (some mem)
    else (add_to mem i (p / 2 ^ 2)
        λ m. store m (next i) (bit_and p 0x03 * 2 ^ 6 % 256) λ m'. more state_3 (next i) (some m'))
take_digit targsize p state_3 i none more = more state_0 (next i) none
take_digit targsize p state_3 i (some mem) more =
    if leb targsize i
    then returned minus_one (some mem)
    else (add_to mem i p λ m. more state_0 (next i) (some m))

abbrev return_index : ℕ → Target → Outcome Target
return_index i target = returned (cast 32 (pos i)) target

-- The bits behind the last full byte must be zero.
unfoldable pub check_extra : ℕ → Target → Outcome Target
check_extra i none = return_index i none
check_extra i (some mem) =
    if leb (length mem) i
    then fault
    else if get_or mem i 0 == 0
    then return_index i (some mem)
    else returned minus_one (some mem)

-- The loop of case 3: nothing but white space may follow.
unfoldable pub trailing : ℕ → Target → List ℕ → Outcome Target
trailing i target [] = check_extra i target
trailing i target (ch ∷ cs) =
    let more = trailing i target cs in if isspace ch then more else returned minus_one target

-- Case 2: another = behind any white space.
unfoldable pub second_pad : ℕ → Target → List ℕ → Outcome Target
second_pad i target [] = returned minus_one target
second_pad i target (ch ∷ cs) =
    let more = second_pad i target cs in
    let end = trailing i target cs in
    if isspace ch then more else if ch == pad then end else returned minus_one target

-- Behind the loop, after a pad character.
unfoldable pub finish_pad : State → ℕ → Target → List ℕ → Outcome Target
finish_pad state_0 i target cs = returned minus_one target
finish_pad state_1 i target cs = returned minus_one target
finish_pad state_2 i target cs = second_pad i target cs
finish_pad state_3 i target cs = trailing i target cs

-- At the end of the string: no byte may be left unfinished.
unfoldable pub finish_end : Rest
finish_end state_0 i target = return_index i target
finish_end state_1 i target = returned minus_one target
finish_end state_2 i target = returned minus_one target
finish_end state_3 i target = returned minus_one target

-- A round of the loop; `rest` is the loop over the characters `cs` behind this one.
abbrev pub by_kind : Kind → ℕ → List ℕ → Rest → Rest
by_kind space targsize cs rest s i target = rest s i target
by_kind padding targsize cs rest s i target = finish_pad s i target cs
by_kind foreign targsize cs rest s i target = returned minus_one target
by_kind (digit p) targsize cs rest s i target = take_digit targsize p s i target rest

-- The loop.
unfoldable pub decode_from : ℕ → List ℕ → Rest
decode_from targsize [] = finish_end
decode_from targsize (ch ∷ cs) = by_kind (kind ch) targsize cs (decode_from targsize cs)

-- `f_b64_pton`.
unfoldable pub f_b64_pton : ℕ → Target → List ℕ → Outcome Target
f_b64_pton targsize target src = decode_from targsize src state_0 0 target
