-- ===== src/Nanopb/Output/Bounds.antt =====
-- `pb_write` into the caller's array, and on a sizing stream.
use answrapp.Common.{
  ℕ, ◌+◌, ◌-◌, ◌%◌, ◌^◌, ◌≤◌, ◌<◌, ◌≡◌, Option, List, [], ◌∷◌, ◌++◌, append-nil, arith, length,
  length-append,
}
use native.Mathlib.Nat.{add-zero}
use answrapp.Nanopb.Types.{Error, IsU64, stream_full}
use answrapp.Nanopb.Output.{sizing, buffer, OutStream, done, raise, store, write}

-- A stream into an array of `capacity` bytes, the bytes `out` of which are written.
abbrev pub into : ℕ → List ℕ → ℕ → ℕ → Option Error → OutStream
into capacity out max_size bytes_written err = record {
  sink = buffer capacity out;
  max_size = max_size;
  bytes_written = bytes_written;
  errmsg = err;
}

-- What `max_size` still allows lies within the array.
pub record Fits (capacity : ℕ) (out : List ℕ) (max_size bytes_written : ℕ) : Type 0 where
  pub counted : bytes_written ≤ max_size
  pub room : length out + (max_size - bytes_written) ≤ capacity
  pub word : IsU64 max_size

module _ {capacity max_size bytes_written : ℕ} {out : List ℕ}
    (f : Fits capacity out max_size bytes_written) where
  -- With room for the bytes, `pb_write` appends them.
  pub write-into :
      (bytes : List ℕ) (err : Option Error)
      → bytes_written + length bytes ≤ max_size
      → write bytes (into capacity out max_size bytes_written err)
        ≡ done (into capacity (out ++ bytes) max_size (bytes_written + length bytes) err)
  unfolding write store
  write-into [] err h =
      let still : bytes_written % 2 ^ 64 ≡ bytes_written = omega (arith, f.counted, f.word) in
      rw (add-zero, append-nil, still)
  write-into (b ∷ bs) err h = ground (arith, f.room, f.word)

  -- Without, it stores nothing and fails.
  pub write_full :
      (bytes : List ℕ) (err : Option Error)
      → max_size < bytes_written + length bytes
      → IsU64 (length bytes)
      → write bytes (into capacity out max_size bytes_written err)
        ≡ raise stream_full (into capacity out max_size bytes_written err)
  unfolding write
  write_full bytes err h w = ground arith

  pub Fits-write :
      (bytes : List ℕ)
      → bytes_written + length bytes ≤ max_size
      → Fits capacity (out ++ bytes) max_size (bytes_written + length bytes)
  Fits-write bytes h = record {
    counted = h;
    room = omega (arith, length-append out bytes, f.room);
    word = f.word;
  }

-- A sizing stream.
abbrev pub counting : ℕ → ℕ → Option Error → OutStream
counting max_size bytes_written err = record {
  sink = sizing;
  max_size = max_size;
  bytes_written = bytes_written;
  errmsg = err;
}

-- It counts, in `size_t` arithmetic, stores nothing and never fails.
pub write-counting :
    (bytes : List ℕ) (max_size bytes_written : ℕ) (err : Option Error)
    → write bytes (counting max_size bytes_written err)
      ≡ done (counting max_size ((bytes_written + length bytes) % 2 ^ 64) err)
unfolding write
write-counting bytes max_size bytes_written err = ground arith
