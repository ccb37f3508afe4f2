-- ===== src/Nanopb/Input.antt =====
-- `pb_istream_t` of pb_decode.h and the functions of pb_decode.c that read from it: `buf_read`,
-- `pb_read`, `pb_readbyte` and `pb_istream_from_buffer`.
-- A C function that returns a bool and changes its stream is a function from the stream to a
-- `Result`; `false` is `failed`, with the stream as it is left behind. What such a function has
-- stored through its other pointers before it fails is not kept.
pub mod Safety
pub mod Buffer
pub mod Parses
pub mod Takes
pub mod Contents
use answrapp.Common.{
  ℕ, zero, suc, ◌+◌, ◌-◌, Option, none, some, List, [], ◌∷◌, ◌++◌, ltb, leb, ◌==◌, if◌then◌else◌,
  length, take, drop, tabulate,
}
use answrapp.Nanopb.Types.{Error, end_of_stream, io_error}

-- The callback of a stream together with its state. `buffer` is `buf_read`, and holds the memory
-- from the state pointer to the end of the caller's array. `custom` is a callback of the user:
-- `answer` gives, for the sizes asked so far (the latest first), the bytes or an I/O error.
pub data Source : Type 0 where
  buffer : List ℕ → Source
  custom : (List ℕ → Option (ℕ → ℕ)) → List ℕ → Source

pub record InStream : Type 0 where
  pub source : Source
  pub bytes_left : ℕ
  pub errmsg : Option Error

-- `fault` is an access outside the caller's array, `stuck` a loop whose fuel has run out.
pub data Result {ℓ} (A : Type ℓ) : Type ℓ where
  ok : A → InStream → Result A
  failed : InStream → Result A
  fault : Result A
  stuck : Result A

abbrev pub Decoder {ℓ} : Type ℓ → Type ℓ
Decoder A = InStream → Result A

abbrev pub and_then {ℓ κ} :
    {A : Type ℓ} {B : Type κ} → Result A → (A → InStream → Result B) → Result B
and_then (ok a s) f = f a s
and_then (failed s) f = failed s
and_then fault f = fault
and_then stuck f = stuck

infixl 5 ◌>>=◌ ◌>>◌
abbrev pub ◌>>=◌ {ℓ κ} : {A : Type ℓ} {B : Type κ} → Decoder A → (A → Decoder B) → Decoder B
◌>>=◌ m f s = and_then (m s) f

abbrev pub ◌>>◌ {ℓ κ} : {A : Type ℓ} {B : Type κ} → Decoder A → Decoder B → Decoder B
◌>>◌ m k s = and_then (m s) (λ _ t. k t)

abbrev pub pure {ℓ} : {A : Type ℓ} → A → Decoder A
pure a s = ok a s

-- PB_SET_ERROR keeps the first message.
abbrev pub set_error : Error → InStream → InStream
set_error e s = record s { errmsg = elim s.errmsg [ none ↦ some e | some x ↦ some x ] }

-- PB_RETURN_ERROR.
abbrev pub raise {ℓ} : {A : Type ℓ} → Error → Decoder A
raise e s = failed (set_error e s)

-- What a call of the callback does, with the new state.
pub data Fetch : Type 0 where
  got : List ℕ → Source → Fetch
  refused : Source → Fetch
  outside : Fetch

unfoldable pub fetch : Source → ℕ → Fetch
fetch (buffer mem) count =
    if leb count (length mem) then got (take count mem) (buffer (drop count mem)) else outside
fetch (custom answer past) count = elim (answer (count ∷ past)) [
  | none ↦ refused (custom answer (count ∷ past))
  | some f ↦ got (tabulate count 0 f) (custom answer (count ∷ past))
]

-- The call of the callback in `pb_read` and `pb_readbyte`, and `bytes_left -= count` behind it.
abbrev pub deliver : Fetch → ℕ → Decoder (List ℕ)
deliver (got bytes src) count s =
    ok bytes (record s { source = src; bytes_left = s.bytes_left - count })
deliver (refused src) count s = raise io_error (record s { source = src })
deliver outside count s = fault

-- `pb_read` with a buffer to read into.
unfoldable pub read : ℕ → Decoder (List ℕ)
unfolding fetch
read count s =
    if count == 0
    then ok [] s
    else if ltb s.bytes_left count
    then raise end_of_stream s
    else deliver (fetch s.source count) count s

-- The loop of `pb_read` that skips by 16 bytes.
unfoldable pub skip_chunks : ℕ → ℕ → Decoder (Unit {0})
unfolding read
skip_chunks zero count = λ s. stuck
skip_chunks (suc fuel) count =
    let more = (do read 16; skip_chunks fuel (count - 16)) in
    if ltb 16 count then more else (do read count; pure tt)

-- `pb_read` with NULL for the buffer: `buf_read` just moves its pointer, and with another callback
-- the bytes are read in pieces.
skip_from : Source → ℕ → Decoder (Unit {0})
unfolding read skip_chunks
skip_from (buffer mem) count = do read count; pure tt
skip_from (custom answer past) count = if count == 0 then pure tt else skip_chunks (suc count) count

unfoldable pub skip : ℕ → Decoder (Unit {0})
unfolding skip_from
skip count s = skip_from s.source count s

-- `pb_readbyte`.
unfoldable pub readbyte : Decoder ℕ
unfolding fetch
readbyte s =
    if s.bytes_left == 0
    then raise end_of_stream s
    else (and_then (deliver (fetch s.source 1) 1 s)
        λ bytes t. elim bytes [ [] ↦ fault | b ∷ bs ↦ ok b t ])

-- `pb_istream_from_buffer`.
abbrev pub istream_from_buffer : List ℕ → ℕ → InStream
istream_from_buffer buf bufsize = record {
  source = buffer buf;
  bytes_left = bufsize;
  errmsg = none;
}
