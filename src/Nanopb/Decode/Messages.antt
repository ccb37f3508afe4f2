-- ===== src/Nanopb/Decode/Messages.antt =====
-- `pb_decode_noinit`, `pb_decode`, `pb_decode_delimited_noinit`, `pb_decode_delimited` and
-- `pb_decode_nullterminated` of pb_decode.c. Every substream is shorter than the stream that it
-- comes from, so the bytes left are enough for the depth of submessages.
use answrapp.Common.{ℕ, zero, suc, if◌then◌else◌}
use answrapp.Nanopb.Struct.Defaults.{message_set_to_defaults}
use answrapp.Nanopb.Struct.Release.{release}
use answrapp.Nanopb.Decode.{
  stuck, ◌>>=◌, ◌>>◌, pure, give, changing, attempt, open_substream, close_substream, remaining,
  Context, MessageDecoder,
}
use answrapp.Nanopb.Decode.Loop.{decode_fields}

-- `pb_decode` on top of `pb_decode_noinit`.
unfoldable pub initialized : Context → MessageDecoder → MessageDecoder
initialized ctx decode_noinit fields dest_struct = do
  changing (message_set_to_defaults ctx.descriptor ctx.nesting fields dest_struct)
  status ← attempt (decode_noinit fields dest_struct)
  if status then pure tt else changing (release ctx.descriptor ctx.nesting fields dest_struct)
  give status

-- `pb_decode_noinit`, with the depth of submessages for fuel.
unfoldable pub decode_noinit_at : Context → ℕ → MessageDecoder
decode_noinit_at ctx zero fields dest_struct = λ s. stuck
decode_noinit_at ctx (suc depth) fields dest_struct =
    let noinit = decode_noinit_at ctx depth in
    decode_fields ctx (ctx.frame depth) (initialized ctx noinit) noinit fields dest_struct

unfoldable pub decode_noinit : Context → MessageDecoder
decode_noinit ctx fields dest_struct = do
  left ← remaining
  decode_noinit_at ctx (suc left) fields dest_struct

-- `pb_decode`.
unfoldable pub decode : Context → MessageDecoder
decode ctx = initialized ctx (decode_noinit ctx)

-- A message behind its length.
abbrev pub delimited : MessageDecoder → MessageDecoder
delimited message fields dest_struct = do
  parent ← open_substream
  status ← attempt (message fields dest_struct)
  close_substream parent
  give status

-- `pb_decode_delimited_noinit`, `pb_decode_delimited` and `pb_decode_nullterminated`.
unfoldable pub decode_delimited_noinit : Context → MessageDecoder
decode_delimited_noinit ctx = delimited (decode_noinit ctx)

unfoldable pub decode_delimited : Context → MessageDecoder
decode_delimited ctx = delimited (decode ctx)

unfoldable pub decode_nullterminated : Context → MessageDecoder
decode_nullterminated ctx = decode ctx
