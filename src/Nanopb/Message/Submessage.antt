-- ===== src/Nanopb/Message/Submessage.antt =====
-- `pb_encode_submessage` of pb_encode.c; `encode` is `pb_encode`.
use answrapp.Common.{ℕ, ◌+◌, ◌%◌, ◌^◌, ltb, ◌==◌, if◌then◌else◌}
use mathlib.Core.Option
use answrapp.Nanopb.Types.{stream_full, submsg_size_changed}
use answrapp.Nanopb.Output.{
  OutStream, Written, done, failed, fault, stuck, Encoder, ◌>>◌, raise, write_null, is_sizing,
  ostream_sizing,
}
use answrapp.Nanopb.Scalar.Encode.{encode_varint}
use answrapp.Nanopb.Message.{MessageEncoder}

-- The substream: the callback and its state, and exactly `size` bytes.
abbrev pub limited : ℕ → OutStream → OutStream
limited size s = record s { max_size = size; bytes_written = 0; errmsg = Option.none }

-- The state of the substream goes back to the stream.
abbrev pub taken_over : OutStream → OutStream → OutStream
taken_over substream s = record s {
  sink = substream.sink;
  bytes_written = (s.bytes_written + substream.bytes_written) % 2 ^ 64;
  errmsg = substream.errmsg;
}

-- The check of the count, then the status of the second pass.
abbrev pub after_pass : Written → ℕ → Encoder
after_pass (done t) size s =
    if t.bytes_written == size
    then done (taken_over t s)
    else raise submsg_size_changed (taken_over t s)
after_pass (failed t) size s =
    if t.bytes_written == size
    then failed (taken_over t s)
    else raise submsg_size_changed (taken_over t s)
after_pass fault size s = fault
after_pass stuck size s = stuck

-- The second pass. The sum is in `size_t` arithmetic.
unfoldable pub second_pass : Encoder → ℕ → Encoder
second_pass message size s =
    if ltb s.max_size ((s.bytes_written + size) % 2 ^ 64)
    then raise stream_full s
    else after_pass (message (limited size s)) size s

-- The size, then the message; a sizing stream only counts it.
abbrev pub sized_message : Encoder → ℕ → Encoder
sized_message message size =
    encode_varint size
    >> (λ s. if is_sizing s.sink then write_null size s else second_pass message size s)

-- The first pass hands its error on.
abbrev pub after_sizing : Written → (ℕ → Encoder) → Encoder
after_sizing (done t) k s = k t.bytes_written s
after_sizing (failed t) k s = failed (record s { errmsg = t.errmsg })
after_sizing fault k s = fault
after_sizing stuck k s = stuck

unfoldable pub encode_submessage : MessageEncoder → MessageEncoder
encode_submessage encode fields p =
    after_sizing (encode fields p ostream_sizing) (sized_message (encode fields p))
