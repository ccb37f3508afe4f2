-- ===== src/Nanopb/Message/Consistent/Submessages.antt =====
-- `pb_encode_submessage`: the second pass writes what the first has counted.
use answrapp.Common.{
  ℕ, ◌+◌, ◌%◌, ◌^◌, ◌≤◌, ◌<◌, ◌≡◌, refl, inl, inr, true, false, Bool-cases, none, some, List, ◌++◌,
  arith, ltb, if◌then◌else◌, length,
}
use answrapp.Nanopb.Types.{Field, stream_full}
use answrapp.Nanopb.Output.{
  Encoder, OutStream, Written, done, failed, fault, stuck, write_null, is_sizing, ostream_sizing,
}
use answrapp.Nanopb.Output.Bounds.{into, Fits}
use answrapp.Nanopb.Output.Emits.{EmitsFrom, Emits-EmitsFrom, then-Emits}
use answrapp.Nanopb.Varint.Format.{varint}
use answrapp.Nanopb.Scalar.RoundTrip.{encode_varint-Emits}
use answrapp.Nanopb.Message.{MessageEncoder}
use answrapp.Nanopb.Message.Submessage.{
  limited, after_pass, second_pass, sized_message, after_sizing, encode_submessage,
}
use answrapp.Nanopb.Message.Consistent.{
  Fresh, Consistent, Fails, then-Consistent, fault-Fails, stuck-Fails, too_large-Fails,
}
use answrapp.Nanopb.Message.Consistent.Values.{varint-Consistent}
use answrapp.Nanopb.Message.Consistent.Arrays.{write_null-counting, sizing-count}

-- What stands behind the size.
abbrev body : Encoder → ℕ → Encoder
body message size s = if is_sizing s.sink then write_null size s else second_pass message size s

after_pass-done :
    (r : Written) (size : ℕ) (s t : OutStream)
    → after_pass r size s ≡ done t
    → (u : OutStream) × (r ≡ done u)
after_pass-done (done u) size s t e = (u, refl)
after_pass-done (failed u) size s t e = ground arith
after_pass-done fault size s t e = cc
after_pass-done stuck size s t e = cc

module _ {capacity max_size bytes_written : ℕ} {out : List ℕ}
    (f : Fits capacity out max_size bytes_written) (w : max_size < 2 ^ 63) (size : ℕ) where
  Fits-limited : bytes_written + size ≤ max_size → Fits capacity out size 0
  Fits-limited h = record {
    counted = omega arith;
    room = omega (arith, f.room);
    word = omega arith;
  }

second_pass-appends :
    {m : Encoder} {bytes : List ℕ} {capacity max_size bytes_written : ℕ} {out : List ℕ}
    → EmitsFrom Fresh m bytes
    → Fits capacity out max_size bytes_written
    → max_size < 2 ^ 63
    → bytes_written + length bytes ≤ max_size
    → second_pass m (length bytes) (into capacity out max_size bytes_written none)
      ≡ done (into capacity (out ++ bytes) max_size (bytes_written + length bytes) none)
unfolding second_pass
second_pass-appends {bytes} {max_size} {bytes_written} e f w h =
    let fits : ltb max_size ((bytes_written + length bytes) % 2 ^ 64) ≡ false = ground arith in
    let first =
      e.appends (Fits-limited f w (length bytes) h) none (omega arith, refl) (omega arith) in
    rw (fits, first) (ground arith)

second_pass-refuses :
    (m : Encoder) (size : ℕ) {capacity max_size bytes_written : ℕ} {out : List ℕ}
    → Fits capacity out max_size bytes_written
    → max_size < 2 ^ 63
    → size < 2 ^ 63
    → max_size < bytes_written + size
    → (t : OutStream) × (second_pass m size (into capacity out max_size bytes_written none)
        ≡ failed t)
unfolding second_pass
second_pass-refuses m size {capacity} {max_size} {bytes_written} {out} f w small h =
    let full : ltb max_size ((bytes_written + size) % 2 ^ 64) ≡ true = ground (arith, f.counted) in
    (into capacity out max_size bytes_written (some stream_full), rw full)

body-EmitsFrom :
    {m : Encoder} {bytes : List ℕ}
    → EmitsFrom Fresh m bytes
    → length bytes < 2 ^ 63
    → EmitsFrom Fresh (body m (length bytes)) bytes
body-EmitsFrom {m} {bytes} e small = record {
  appends = λ f err p h. rw p.1 (second_pass-appends e f p.0 h);
  refuses = λ f err p h. rw p.1 (second_pass-refuses m (length bytes) f p.0 small h);
  sizes = λ max bw err p h. write_null-counting (length bytes) max bw err;
}

second_pass-never :
    {m : Encoder} (size : ℕ) {capacity max_size bytes_written : ℕ} {out : List ℕ} (t : OutStream)
    → size < 2 ^ 63
    → Fails m
    → Fits capacity out max_size bytes_written
    → max_size < 2 ^ 63
    → second_pass m size (into capacity out max_size bytes_written none) ≡ done t
    → ⊥
unfolding second_pass
second_pass-never {m} size {capacity} {max_size} {bytes_written} {out} t small h f w e =
    elim (Bool-cases (ltb max_size ((bytes_written + size) % 2 ^ 64))) [
      | inl full ↦ let e' = rw full at e in cc
      | inr fits ↦
          let room : bytes_written + size ≤ max_size = ground (arith, f.counted) in
          let s = into capacity out max_size bytes_written none in
          let (u, eu) = after_pass-done (m (limited size s)) size s t (rw fits at e) in
          h.never (Fits-limited f w size room) (omega arith) u eu
    ]

body-Fails : {m : Encoder} (size : ℕ) → size < 2 ^ 63 → Fails m → Fails (body m size)
body-Fails size small h = record { never = λ f w t e. second_pass-never size t small h f w e }

-- The first pass.
after_sizing-Consistent :
    (r : Written) (k : ℕ → Encoder)
    → ((t : OutStream) → r ≡ done t → Consistent (k t.bytes_written))
    → Consistent (after_sizing r k)
after_sizing-Consistent (done t) k h = h t refl
after_sizing-Consistent (failed t) k h = inr (record { never = λ f w u e. cc })
after_sizing-Consistent fault k h = inr fault-Fails
after_sizing-Consistent stuck k h = inr stuck-Fails

sized-Consistent :
    {m : Encoder} {t : OutStream}
    → Consistent m
    → m ostream_sizing ≡ done t
    → t.bytes_written < 2 ^ 63
    → Consistent (body m t.bytes_written)
sized-Consistent {t} (inr h) e small = inr (body-Fails t.bytes_written small h)
sized-Consistent {m} {t} (inl (bytes, em)) e small =
    elim (Bool-cases (ltb (length bytes) (2 ^ 63))) [
      | inl fits ↦
          let same : t.bytes_written ≡ length bytes = ground (arith, sizing-count em e) in
          inl (bytes, rw same (body-EmitsFrom em (ground arith)))
      | inr large ↦ inr (body-Fails t.bytes_written small (too_large-Fails em (ground arith)))
    ]

module _ (encode : MessageEncoder) (fields : List Field) (p : ℕ) where
  -- If a message encoder writes the same bytes, less than 2 ^ 63 of them, on every stream into an array
  -- with room for them, fails on one without, and counts them on every sizing stream, then
  -- `pb_encode_submessage` writes their number as a varint
  -- and the bytes: on a stream into an array with room for both it appends them, without room it
  -- fails, and on a sizing stream it counts them. The streams have no error and less than 2 ^ 63 bytes
  -- of `max_size`.
  pub encode_submessage-EmitsFrom :
      (bytes : List ℕ)
      → EmitsFrom Fresh (encode fields p) bytes
      → length bytes < 2 ^ 63
      → EmitsFrom Fresh (encode_submessage encode fields p) (varint 9 (length bytes) ++ bytes)
  unfolding encode_submessage
  encode_submessage-EmitsFrom bytes e small =
      let counts = e.sizes 0 0 none (omega arith, refl) (omega arith) in
      let same : (0 + length bytes) % 2 ^ 64 ≡ length bytes = omega arith in
      rw (counts, same)
        (then-Emits (Emits-EmitsFrom Fresh (encode_varint-Emits (length bytes) (omega arith)))
          (body-EmitsFrom e small))

  pub encode_submessage-Consistent :
      Consistent (encode fields p)
      → ((t : OutStream) → encode fields p ostream_sizing ≡ done t → t.bytes_written < 2 ^ 63)
      → Consistent (encode_submessage encode fields p)
  unfolding encode_submessage
  encode_submessage-Consistent c small =
      after_sizing-Consistent (encode fields p ostream_sizing) (sized_message (encode fields p))
        (λ t e.
          then-Consistent (varint-Consistent t.bytes_written) (sized-Consistent c e (small t e)))
