-- ===== src/Nanopb/Output.antt =====
-- `pb_ostream_t` of pb_encode.h and the functions of pb_encode.c that write to it: `buf_write`,
-- `pb_ostream_from_buffer` and `pb_write`.
pub mod Bounds
pub mod Emits
use answrapp.Common.{
  ℕ, zero, suc, ◌+◌, ◌%◌, ◌^◌, Bool, true, false, ◌||◌, Option, none, some, List, [], ◌∷◌, ◌++◌,
  ltb, leb, ◌==◌, if◌then◌else◌, length,
}
use answrapp.Nanopb.Types.{Error, stream_full, io_error}

-- The callback of a stream together with its state. `sizing` is NULL: nothing is stored.
-- `buffer` is `buf_write` into an array of `capacity` bytes, of which `out` are written.
-- `custom` is a callback of the user, whose answer depends on what was written before, the latest
-- first.
pub data Sink : Type 0 where
  sizing : Sink
  buffer : ℕ → List ℕ → Sink
  custom : (List (List ℕ) → Bool) → List (List ℕ) → Sink

pub record OutStream : Type 0 where
  pub sink : Sink
  pub max_size : ℕ
  pub bytes_written : ℕ
  pub errmsg : Option Error

-- A C function that returns a bool and writes to its stream; `false` is `failed`. `fault` is a
-- write behind the end of the caller's array, or a read through NULL; `stuck` is a loop or a recursion
-- whose fuel has run out.
pub data Written : Type 0 where
  done : OutStream → Written
  failed : OutStream → Written
  fault : Written
  stuck : Written

abbrev pub Encoder : Type 0
Encoder = OutStream → Written

abbrev pub then_write : Written → Encoder → Written
then_write (done s) k = k s
then_write (failed s) k = failed s
then_write fault k = fault
then_write stuck k = stuck

infixl 5 ◌>>◌
abbrev pub ◌>>◌ : Encoder → Encoder → Encoder
◌>>◌ m k s = then_write (m s) k

abbrev pub return_true : Encoder
return_true s = done s

-- PB_RETURN_ERROR.
abbrev pub set_error : Error → OutStream → OutStream
set_error e s = record s { errmsg = elim s.errmsg [ none ↦ some e | some x ↦ some x ] }

abbrev pub raise : Error → Encoder
raise e s = failed (set_error e s)

-- What a call of the callback does with some bytes.
pub data Stored : Type 0 where
  stored : Sink → Stored
  refused : Sink → Stored
  outside : Stored

unfoldable pub store : Sink → List ℕ → Stored
store sizing bytes = outside
store (buffer capacity out) bytes =
    if leb (length out + length bytes) capacity
    then stored (buffer capacity (out ++ bytes))
    else outside
store (custom answer past) bytes =
    if answer (bytes ∷ past)
    then stored (custom answer (bytes ∷ past))
    else refused (custom answer (bytes ∷ past))

abbrev pub is_sizing : Sink → Bool
is_sizing sizing = true
is_sizing (buffer capacity out) = false
is_sizing (custom answer past) = false

-- `bytes_written += count` for a `size_t`.
abbrev pub advance : ℕ → OutStream → OutStream
advance count s = record s { bytes_written = (s.bytes_written + count) % 2 ^ 64 }

abbrev pub commit : Stored → ℕ → Encoder
commit (stored sink) count s = done (advance count (record s { sink = sink }))
commit (refused sink) count s = raise io_error (record s { sink = sink })
commit outside count s = fault

-- The test for room, in `size_t` arithmetic.
abbrev pub is_full : OutStream → ℕ → Bool
is_full s count =
    let total = (s.bytes_written + count) % 2 ^ 64 in
    ltb total s.bytes_written || ltb s.max_size total

-- `pb_write`.
unfoldable pub write : List ℕ → Encoder
write bytes s =
    let count = length bytes in
    if count == 0 || is_sizing s.sink
    then done (advance count s)
    else if is_full s count
    then raise stream_full s
    else commit (store s.sink bytes) count s

-- `pb_write` with NULL for the buffer: the callback would read through it.
unfoldable pub write_null : ℕ → Encoder
write_null count s =
    if count == 0 || is_sizing s.sink
    then done (advance count s)
    else if is_full s count
    then raise stream_full s
    else fault

-- `pb_ostream_from_buffer`, and PB_OSTREAM_SIZING.
abbrev pub ostream_from_buffer : ℕ → ℕ → OutStream
ostream_from_buffer capacity bufsize = record {
  sink = buffer capacity [];
  max_size = bufsize;
  bytes_written = 0;
  errmsg = none;
}

abbrev pub ostream_sizing : OutStream
ostream_sizing = record { sink = sizing; max_size = 0; bytes_written = 0; errmsg = none }
