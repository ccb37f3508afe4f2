-- ===== src/Nanopb/Input/Contents.antt =====
-- Which bytes `pb_read` reads.
use answrapp.Common.{
  ℕ, ◌+◌, ◌≤◌, ◌<◌, ◌≡◌, ◌≢◌, refl, ◌⊎◌, inl, inr, true, Option, none, some, Bool-cases, List, ◌∷◌,
  ◌++◌, arith, ltb, leb, ◌==◌, length, length-take, length-tabulate, drop, take-append-drop,
  tabulate, sym,
}
use answrapp.Nanopb.Types.{end_of_stream, io_error}
use answrapp.Nanopb.Input.{
  Source, buffer, custom, InStream, Result, ok, failed, fault, stuck, Fetch, got, refused, outside,
  set_error, fetch, deliver, read,
}
use answrapp.Nanopb.Input.Safety.{Serves, IsValid}

-- The source `src` gives `bytes` and is `next` behind them: they are the front of the memory, or what
-- the callback answers when it is asked for their number.
abbrev pub Gives : Source → List ℕ → Source → Type 0
Gives (buffer mem) bytes next = (rest : List ℕ) × (mem ≡ bytes ++ rest) × (next ≡ buffer rest)
Gives (custom answer past) bytes next =
    (next ≡ custom answer (length bytes ∷ past))
    × (f : ℕ → ℕ) × (answer (length bytes ∷ past) ≡ some f)
    × (bytes ≡ tabulate (length bytes) 0 f)

-- The callback refuses `count` bytes.
abbrev pub Refuses : Source → ℕ → Source → Type 0
Refuses (buffer mem) count next = ⊥
Refuses (custom answer past) count next =
    (answer (count ∷ past) ≡ none) × (next ≡ custom answer (count ∷ past))

-- What a read of `count` bytes makes of a stream.
abbrev pub Reads : ℕ → InStream → Result (List ℕ) → Type 0
Reads count s (ok bytes t) =
    (length bytes ≡ count)
    × (t.bytes_left + count ≡ s.bytes_left)
    × (t.errmsg ≡ s.errmsg)
    × (((count ≡ 0) × (t ≡ s)) ⊎ ((count ≢ 0) × Gives s.source bytes t.source))
Reads count s (failed t) =
    ((s.bytes_left < count) × (t ≡ set_error end_of_stream s))
    ⊎ ((next : Source) × Refuses s.source count next
        × (t ≡ set_error io_error (record s { source = next })))
Reads count s fault = ⊥
Reads count s stuck = ⊥

abbrev Fetches : Source → ℕ → Fetch → Type 0
Fetches src count (got bytes next) = (length bytes ≡ count) × Gives src bytes next
Fetches src count (refused next) = Refuses src count next
Fetches src count outside = ⊥

fetch_lem :
    (src : Source) (left count : ℕ)
    → Serves src left
    → count ≤ left
    → Fetches src count (fetch src count)
unfolding fetch
fetch_lem (buffer mem) left count v h =
    let enough : leb count (length mem) ≡ true = ground arith in
    rw enough (
      omega (arith, length-take count mem),
      (drop count mem, sym (take-append-drop count mem), refl),
    )
fetch_lem (custom answer past) left count v h = answered (answer (count ∷ past)) refl
  where
    answered :
        (o : Option (ℕ → ℕ))
        → answer (count ∷ past) ≡ o
        → Fetches (custom answer past) count (fetch (custom answer past) count)
    answered none e = rw (e, fetch) (e, refl)
    answered (some f) e =
        let size = length-tabulate count 0 f in
        rw (e, fetch) (size, (rw size refl, f, rw size e, rw size refl))

deliver_lem :
    (f : Fetch) (count : ℕ) (s : InStream)
    → count ≢ 0
    → count ≤ s.bytes_left
    → Fetches s.source count f
    → Reads count s (deliver f count s)
deliver_lem (got bytes src) count s positive h p = (p.0, omega arith, refl, inr (positive, p.1))
deliver_lem (refused src) count s positive h p = inr (src, p, refl)
deliver_lem outside count s positive h p = absurd p

-- On a well-formed stream `pb_read` with a buffer stays within the stream. If it succeeds it has read
-- `count` bytes, taken them off `bytes_left` and kept the error: for a `count` of 0 the stream is as it
-- was, and otherwise the bytes are the next ones of the memory, which stands behind them, or those
-- that the callback answers to this size. It fails where fewer bytes are left, or where the callback
-- refuses; then it keeps `bytes_left` and sets the error, "end of stream" or "io error", if there was
-- none.
pub read-Reads : (count : ℕ) (s : InStream) → IsValid s → Reads count s (read count s)
unfolding read
read-Reads count s v = elim (Bool-cases (count == 0)) [
  | inl e ↦ rw e (ground arith, ground arith, refl, inl (ground arith, refl))
  | inr e ↦ rw e (elim (Bool-cases (ltb s.bytes_left count)) [
    | inl short ↦ rw short (inl (ground arith, refl))
    | inr long ↦ rw long (
        deliver_lem (fetch s.source count) count s (ground arith) (ground arith)
          (fetch_lem s.source s.bytes_left count v.serves (ground arith)))
  ])
]
