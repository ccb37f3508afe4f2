-- ===== src/Nanopb/Message/Sizes.antt =====
-- `pb_get_encoded_size`, `pb_encode_delimited` and packed arrays: what a message takes.
use answrapp.Common.{
  ℕ, ◌+◌, ◌%◌, ◌^◌, ◌<◌, ◌≡◌, ◌≢◌, refl, inl, inr, false, Bool-cases, none, some, List, [], ◌++◌,
  append-nil, arith, leb, leb→le, ◌==◌, length, All,
}
use answrapp.Nanopb.Types.{Field, ltype, IsU32, IsU64, wt_string}
use answrapp.Nanopb.Types.Ltype
use mathlib.Core.Path.{subst}
use answrapp.Nanopb.Input.{Decoder, and_then}
use answrapp.Nanopb.Input.Parses.{Parses}
use answrapp.Nanopb.Substream.{make_string_substream, inside, substream_lem}
use answrapp.Nanopb.Output.{Encoder, OutStream, done}
use answrapp.Nanopb.Output.Bounds.{into, Fits}
use answrapp.Nanopb.Output.Emits.{EmitsFrom, Emits-EmitsFrom, then-Emits}
use answrapp.Nanopb.Varint.Format.{varint}
use answrapp.Nanopb.Scalar.Encode.{tag_number, encode_tag}
use answrapp.Nanopb.Scalar.RoundTrip.{encode_varint-Emits}
use answrapp.Nanopb.Message.{Context}
use answrapp.Nanopb.Message.Array.{encode_packed}
use answrapp.Nanopb.Message.Encode.{encode, encode_delimited, get_encoded_size}
use answrapp.Nanopb.Message.Consistent.{Fresh, Consistent, failed-ne-done}
use answrapp.Nanopb.Message.Consistent.Values.{IsField}
use answrapp.Nanopb.Message.Consistent.Arrays.{counted_items-EmitsFrom}
use answrapp.Nanopb.Message.Consistent.Fields.{IsContext}
use answrapp.Nanopb.Message.Consistent.Messages.{HasSmallMessages, encode-Consistent}
use answrapp.Nanopb.Message.Consistent.Submessages.{encode_submessage-EmitsFrom}

-- What a success on one stream shows.
written_lem :
    {m : Encoder} {capacity max_size bytes_written : ℕ} {out : List ℕ} {t : OutStream}
    → Consistent m
    → Fits capacity out max_size bytes_written
    → max_size < 2 ^ 63
    → m (into capacity out max_size bytes_written none) ≡ done t
    → (bytes : List ℕ) × (t
        ≡ into capacity (out ++ bytes) max_size (bytes_written + length bytes) none)
      × (length bytes < 2 ^ 63)
      × EmitsFrom Fresh m bytes
written_lem (inr h) f w e = absurd (h.never f w _ e)
written_lem {max_size} {bytes_written} (inl (bytes, em)) f w e =
    elim (Bool-cases (leb (bytes_written + length bytes) max_size)) [
      | inl fits ↦
          let room = leb→le _ _ fits in
          let first = em.appends f none (w, refl) room in (bytes, cc, omega arith, em)
      | inr full ↦
          let (u, eu) = em.refuses f none (w, refl) (ground arith) in absurd (failed-ne-done eu e)
    ]

size_lem :
    (ctx : Context) (depth : ℕ) (fields : List Field) (p : ℕ) {bytes : List ℕ}
    → EmitsFrom Fresh (encode ctx depth fields p) bytes
    → length bytes < 2 ^ 63
    → get_encoded_size ctx depth fields p ≡ some (length bytes)
unfolding get_encoded_size
size_lem ctx depth fields p {bytes} em small =
    let counts = em.sizes 0 0 none (omega arith, refl) (omega arith) in
    let same : (0 + length bytes) % 2 ^ 64 ≡ length bytes = omega arith in rw (counts, same)

-- If `pb_encode` succeeds on a stream into an array that has no error and less than 2 ^ 63 bytes of
-- `max_size`, then it has appended certain bytes, `pb_get_encoded_size` returns their number, and on
-- every other such stream it writes the same bytes or fails for lack of room. The fields have sizes
-- of 32 bits, the callbacks and the extension encoders of the user are consistent, and no message
-- counts up to 2 ^ 63 bytes.
pub get_encoded_size_lem :
    (ctx : Context)
    → IsContext ctx
    → HasSmallMessages ctx
    → (depth : ℕ) (fields : List Field) (p : ℕ) → All IsField fields
    → {capacity max_size bytes_written : ℕ} {out : List ℕ} {t : OutStream}
    → Fits capacity out max_size bytes_written
    → max_size < 2 ^ 63
    → encode ctx depth fields p (into capacity out max_size bytes_written none) ≡ done t
    → (bytes : List ℕ) × (t
        ≡ into capacity (out ++ bytes) max_size (bytes_written + length bytes) none)
      × (get_encoded_size ctx depth fields p ≡ some (length bytes))
      × EmitsFrom Fresh (encode ctx depth fields p) bytes
get_encoded_size_lem ctx c small depth fields p h f w e =
    let (bytes, result, bound, em) =
      written_lem (encode-Consistent ctx c small depth fields p h) f w e in
    (bytes, result, size_lem ctx depth fields p em bound, em)

-- A packed array whose items write less than 2 ^ 63 bytes, and are not of a fixed width, is its tag
-- with the wire type of a string, the number of these bytes, and the bytes.
pub encode_packed-EmitsFrom :
    (field : Field) (count : ℕ) (items : Encoder) (bytes : List ℕ)
    → ltype field.type ≢ Ltype.fixed32
    → ltype field.type ≢ Ltype.fixed64
    → IsU64 (tag_number wt_string field.tag)
    → EmitsFrom Fresh items bytes
    → length bytes < 2 ^ 63
    → EmitsFrom Fresh
        (encode_packed field count items)
        (varint 9 (tag_number wt_string field.tag) ++ (varint 9 (length bytes) ++ bytes))
unfolding encode_packed encode_tag
encode_packed-EmitsFrom field count items bytes ne32 ne64 tag em small =
    let no32 : (ltype field.type == Ltype.fixed32) ≡ false = ground (arith, ne32) in
    let no64 : (ltype field.type == Ltype.fixed64) ≡ false = ground (arith, ne64) in
    let counts = em.sizes 0 0 none (omega arith, refl) (omega arith) in
    let same : (0 + length bytes) % 2 ^ 64 ≡ length bytes = omega arith in
    let size = Emits-EmitsFrom Fresh (encode_varint-Emits (length bytes) (omega arith)) in
    rw (no32, no64, counts, same)
      (then-Emits (Emits-EmitsFrom Fresh (encode_varint-Emits _ tag))
        (then-Emits size (counted_items-EmitsFrom em)))

-- A message of less than 2 ^ 32 bytes that `pb_encode_delimited` writes is opened by
-- `pb_make_string_substream`: a decoder that takes the bytes of the message runs on exactly these, and
-- closing the substream leaves the stream behind them.
pub delimited_round_trip {ℓ} :
    {A : Type ℓ} (ctx : Context) (depth : ℕ) (fields : List Field) (p : ℕ) (bytes : List ℕ)
    → EmitsFrom Fresh (encode ctx depth fields p) bytes
    → IsU32 (length bytes)
    → (m : Decoder A) (a : A) → Parses m bytes a
    → (delimited : List ℕ) × EmitsFrom Fresh (encode_delimited ctx depth fields p) delimited
      × Parses (λ s. and_then (make_string_substream s) (inside m)) delimited a
unfolding encode_delimited
delimited_round_trip ctx depth fields p bytes em small m a parses = (
  varint 9 (length bytes) ++ bytes,
  encode_submessage-EmitsFrom (encode ctx depth) fields p bytes em (omega arith),
  subst
      (λ bs.
        Parses (λ s. and_then (make_string_substream s) (inside m)) (varint 9 (length bs) ++ bs) a)
      (append-nil bytes) (substream_lem m bytes [] a (rw append-nil small) parses),
)
