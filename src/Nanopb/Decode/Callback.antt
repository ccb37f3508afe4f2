-- ===== src/Nanopb/Decode/Callback.antt =====
-- `decode_callback_field` of pb_decode.c. A `pb_callback_t` is the address of the function `decode`
-- and, eight bytes behind it, `arg`.
use answrapp.Common.{ℕ, zero, suc, ◌||◌, ◌==◌, if◌then◌else◌, length}
use answrapp.Nanopb.Types.{Field, WireType, wt_string, callback_failed}
use answrapp.Nanopb.Input.{istream_from_buffer}
use answrapp.Nanopb.Scalar.{skip_field, read_raw_value}
use answrapp.Nanopb.Memory.{load_pointer, shifted}
use answrapp.Nanopb.Iter.{FieldIter}
use answrapp.Nanopb.Decode.{
  stuck, Step, ◌>>=◌, ◌>>◌, pure, give, reading, raise, loading, attempt, remaining, enter,
  open_substream, close_substream, Context,
}

-- The loop that calls the function until the string is used up.
unfoldable pub callback_loop : Step (Unit {0}) → ℕ → Step (Unit {0})
callback_loop call zero = λ s. stuck
callback_loop call (suc fuel) = do
  call
  left ← remaining
  let more = callback_loop call fuel
  if left == 0 then pure tt else more

unfoldable pub callback_string : Step (Unit {0}) → Step (Unit {0})
callback_string call = do
  parent ← open_substream
  left ← remaining
  status ← attempt (callback_loop call (suc left))
  if status then close_substream parent else (enter parent >> raise callback_failed)

-- A number is copied, so that the function sees the end of a stream behind it.
unfoldable pub callback_number : Step (Unit {0}) → WireType → Step (Unit {0})
callback_number call wire_type = do
  bytes ← reading (read_raw_value wire_type 10)
  stream ← enter (istream_from_buffer bytes (length bytes))
  status ← attempt call
  enter stream
  give status

unfoldable pub decode_callback_field : Context → WireType → Field → FieldIter → Step (Unit {0})
decode_callback_field ctx wire_type field iter = do
  decode ← loading (λ mem. load_pointer mem iter.p_data)
  let call = ctx.callback decode field (shifted iter.p_data 8)
  if iter.p_data == 0 || decode == 0
      then reading (skip_field wire_type)
      else if wire_type == wt_string
      then callback_string call
      else callback_number call wire_type
