-- ===== src/Lib.antt =====
-- The C code of the app's pods: nanopb (protocol buffers, ANSWR/Pods/nanopb) and the base 64
-- functions of the websocket in FirebaseDatabase.
--
-- The app sends its diagnostics and logs as protocol buffers. nanopb reads and writes them
-- through streams: `pb_istream_t` and `pb_ostream_t` are a callback with its state, a count of
-- the bytes left or written, and the first error. On the streams stand the varints, on these the
-- scalars and tags, and on these the decoders and encoders of one field, which a descriptor
-- `pb_field_t` guides. The encoder of whole messages walks a descriptor and encodes each field,
-- submessages in two passes: one that counts and one that writes. The decoder of whole messages
-- reads tags, looks each one up in the descriptor and stores the field in the structure.
--
--   Common           lists, Boolean tests, bit operations and signed machine integers
--   Nanopb/Types     ANSWR/Pods/nanopb/pb.h
--   Nanopb/Input     pb_istream_t: buf_read, pb_read, pb_readbyte (ANSWR/Pods/nanopb/pb_decode.c)
--   Nanopb/Output    pb_ostream_t: buf_write, pb_write (ANSWR/Pods/nanopb/pb_encode.c)
--   Nanopb/Varint    pb_decode_varint, pb_decode_varint32_eof, pb_skip_varint, pb_encode_varint
--   Nanopb/Scalar    pb_decode_tag, pb_skip_field, pb_decode_svarint, pb_decode_fixed32 and _fixed64,
--                    read_raw_value, and the encoders in Nanopb/Scalar/Encode
--   Nanopb/Field     pb_dec_... and allocate_field, and pb_enc_... in Nanopb/Field/Encode
--   Nanopb/Message   pb_encode and what it calls: Value (PB_ENCODERS), Array (encode_array), Proto3
--                    (pb_check_proto3_default_value), Basic (encode_basic_field, encode_callback_field,
--                    encode_field), Extension (default_extension_encoder, encode_extension_field),
--                    Submessage (pb_encode_submessage), Encode (pb_encode, pb_encode_delimited,
--                    pb_encode_nullterminated, pb_get_encoded_size); on the memory of Nanopb/Memory
--   Nanopb/Struct    the structure of a message: pb_field_set_to_default, pb_message_set_to_defaults,
--                    pb_release_single_field, pb_release (ANSWR/Pods/nanopb/pb_decode.c)
--   Nanopb/Substream pb_make_string_substream and pb_close_string_substream
--   Nanopb/Decode    pb_decode and what it calls: Value (PB_DECODERS with what they store), Allocate
--                    (allocate_field, initialize_pointer_field), Static, Pointer and Callback
--                    (decode_static_field, decode_pointer_field, decode_callback_field), One
--                    (decode_field, pb_release_union_field), Extension (default_extension_decoder,
--                    decode_extension, find_extension_field), Required and Loop (pb_decode_noinit),
--                    Messages (pb_decode, pb_decode_delimited, pb_decode_nullterminated)
--   Nanopb/Iter      pb_field_iter_t (ANSWR/Pods/nanopb/pb_common.c)
--   Base64           f_b64_ntop and f_b64_pton, ANSWR/Pods/FirebaseDatabase/FirebaseDatabase/
--                    Sources/third_party/SocketRocket/fbase64.c
--
-- A C function that returns a bool and changes its stream is a function from the stream to a
-- result: `ok` with what it stores through its other pointers, `failed` with the stream as it is
-- left, or `fault` for an access outside an array of the caller. A callback of a user is an
-- arbitrary function of the requests made so far. Numbers are natural numbers with the
-- wrap-around of their C type written out, for `size_t` of 64 bits, `uint_fast8_t` of 8 bits and
-- the build flags of the pods (PB_FIELD_32BIT and PB_ENABLE_MALLOC). `malloc` is a parameter.
-- Nanopb/Field has the decoders of a field as the values that they return; in Nanopb/Decode they
-- are steps on a `Machine`, the stream and the memory, which come back after a failure too.
--
-- Defaults and release change the memory and note what `pb_free` frees (`Store`).
--
-- Loops that recursion on a list does not end run on fuel, and `stuck` is their lack of it:
-- pb_decode_varint has eleven rounds, as the shift passes 63 after ten; pb_decode_varint32_eof
-- and pb_skip_varint have one round more than bytes are left; pb_read skips with one round more
-- than bytes are to be skipped; pb_field_iter_find has a round for each element of the descriptor
-- array. The encoder of a varint has the ten rounds for which its array has room. The loops over
-- the fields of a message have a round for each element of its descriptor. `pb_encode` and
-- `pb_check_proto3_default_value` call themselves for submessages: their fuel `depth` is the
-- depth of the nesting, and one more than the longest list of extensions; so it is for the
-- defaults and the release in a decoder (`nesting`). `pb_decode_noinit` calls itself for
-- submessages with one more than the bytes left for fuel, since a substream is shorter than its
-- parent, and its loops over tags, packed items and calls of a callback have a round more than
-- bytes are left. The predicates `Ensures` and `IsSafe` exclude `stuck` and `fault`.
--
-- `Emits enc bytes` and `Parses dec bytes value` name the contract between the two directions:
-- what an encoder writes into an array with room, without room and when sizing; and what a
-- decoder takes from the front of any stream that starts with the bytes. `RoundTrips` joins the
-- two. The encoder of a message depends on what stands in memory, so that its contract is
-- `Consistent`: on streams into an array and sizing streams it always writes the same bytes, or
-- it succeeds on no stream into an array. `Ends` says that it does not run out of fuel.
--
-- A message in memory is a function from addresses to bytes, which encoding does not change; the
-- descriptors, and the functions of the user behind the pointers of `pb_callback_t` and
-- `pb_extension_type_t`, are parameters by their address (`Context`). The contracts of message
-- encoders are about streams of less than 2 ^ 63 bytes: the test for room in pb_encode_submessage
-- adds without a test for wrap-around, which no smaller size meets.
--
-- Not modelled: the bytes that a callback stores in a buffer before it fails to fill it; the
-- generated descriptor tables; the Swift app, and the libraries in Objective-C and C++. A write
-- through a pointer of the structure is a write at that address, whatever it is.
pub mod Common
pub mod Base64
pub mod Nanopb
