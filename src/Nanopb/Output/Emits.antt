-- ===== src/Nanopb/Output/Emits.antt =====
-- What a writing function promises: it writes certain bytes and nothing else. `Emits m bytes` is the
-- specification against which the encoders are proved; it holds of `m >> k` with the bytes joined.
-- `EmitsFrom P m bytes` promises it of the streams whose `max_size` and error meet `P`.
use answrapp.Common.{
  ℕ, ◌+◌, ◌%◌, ◌^◌, ◌≤◌, ◌<◌, ◌≡◌, refl, ◌∙◌, ap, inl, inr, Option, List, [], ◌++◌, append_assoc,
  append-nil, arith, leb, leb→le, Bool-cases, length, length-append,
}
use native.Mathlib.Nat.{add_assoc, add-zero}
use answrapp.Nanopb.Types.{Error, IsU64}
use answrapp.Nanopb.Output.{OutStream, done, failed, then_write, Encoder, ◌>>◌, return_true, write}
use answrapp.Nanopb.Output.Bounds.{
  into, counting, Fits, Fits-write, write-into, write_full, write-counting,
}

pub record EmitsFrom (P : ℕ → Option Error → Type 0) (m : Encoder) (bytes : List ℕ) : Type 0 where
  -- With room for the bytes it appends them and counts them.
  pub appends :
      {capacity max_size bytes_written : ℕ} {out : List ℕ}
      → Fits capacity out max_size bytes_written
      → (err : Option Error) → P max_size err
      → bytes_written + length bytes ≤ max_size
      → m (into capacity out max_size bytes_written err)
        ≡ done (into capacity (out ++ bytes) max_size (bytes_written + length bytes) err)
  -- Without room it fails.
  pub refuses :
      {capacity max_size bytes_written : ℕ} {out : List ℕ}
      → Fits capacity out max_size bytes_written
      → (err : Option Error) → P max_size err
      → max_size < bytes_written + length bytes
      → (t : OutStream) × (m (into capacity out max_size bytes_written err) ≡ failed t)
  -- A sizing stream counts as much, in `size_t` arithmetic.
  pub sizes :
      (max_size bytes_written : ℕ) (err : Option Error)
      → P max_size err
      → IsU64 bytes_written
      → m (counting max_size bytes_written err)
        ≡ done (counting max_size ((bytes_written + length bytes) % 2 ^ 64) err)

abbrev pub Emits : Encoder → List ℕ → Type 0
Emits = EmitsFrom (λ _ _. Unit {0})

-- A promise for all streams holds for some.
pub Emits-EmitsFrom :
    (P : ℕ → Option Error → Type 0) {m : Encoder} {bytes : List ℕ}
    → Emits m bytes
    → EmitsFrom P m bytes
Emits-EmitsFrom P e = record {
  appends = λ f err _ h. e.appends f err tt h;
  refuses = λ f err _ h. e.refuses f err tt h;
  sizes = λ max bw err _ h. e.sizes max bw err tt h;
}

-- `pb_write` of a `size_t` of bytes, on a stream into an array, appends and counts them if there is
-- room for them and fails if not; on a sizing stream it counts them and stores nothing.
pub write-Emits : (bytes : List ℕ) → IsU64 (length bytes) → Emits (write bytes) bytes
write-Emits bytes w = record {
  appends = λ f err _ h. write-into f bytes err h;
  refuses = λ f err _ h. (_, write_full f bytes err h w);
  sizes = λ max bw err _ h. write-counting bytes max bw err;
}

-- Nothing is written.
pub return_true-EmitsFrom : (P : ℕ → Option Error → Type 0) → EmitsFrom P return_true []
return_true-EmitsFrom P = record {
  appends = λ f err _ h. rw (append-nil, add-zero) refl;
  refuses = λ f err _ h. absurd (omega (arith, f.counted));
  sizes = λ max bw err _ h. let same : (bw + 0) % 2 ^ 64 ≡ bw = omega arith in rw same refl;
}

module _ {P : ℕ → Option Error → Type 0} {m k : Encoder} {xs ys : List ℕ} (em : EmitsFrom P m xs)
    (ek : EmitsFrom P k ys) where
  both_append :
      {capacity max_size bytes_written : ℕ} {out : List ℕ}
      → Fits capacity out max_size bytes_written
      → (err : Option Error) → P max_size err
      → bytes_written + length (xs ++ ys) ≤ max_size
      → (m >> k) (into capacity out max_size bytes_written err)
        ≡ done (into capacity (out ++ (xs ++ ys)) max_size (bytes_written + length (xs ++ ys)) err)
  both_append f err p h =
      let total = length-append xs ys in
      let first = em.appends f err p (omega (arith, total)) in
      let second =
        ek.appends (Fits-write f xs (omega (arith, total))) err p (omega (arith, total)) in
      rw (total, ← append_assoc, ← add_assoc) (ap (λ r. then_write r k) first ∙ second)

  both_refuse :
      {capacity max_size bytes_written : ℕ} {out : List ℕ}
      → Fits capacity out max_size bytes_written
      → (err : Option Error) → P max_size err
      → max_size < bytes_written + length (xs ++ ys)
      → (t : OutStream) × ((m >> k) (into capacity out max_size bytes_written err) ≡ failed t)
  both_refuse {max_size} {bytes_written} f err p h =
      let total = length-append xs ys in
      elim (Bool-cases (leb (bytes_written + length xs) max_size)) [
        | inl fits ↦
            let first = em.appends f err p (leb→le _ _ fits) in
            let (t, e) =
              ek.refuses (Fits-write f xs (leb→le _ _ fits)) err p (omega (arith, total)) in
            (t, ap (λ r. then_write r k) first ∙ e)
        | inr full ↦
            let (t, e) = em.refuses f err p (ground arith) in (t, ap (λ r. then_write r k) e)
      ]

  both_size :
      (max_size bytes_written : ℕ) (err : Option Error)
      → P max_size err
      → IsU64 bytes_written
      → (m >> k) (counting max_size bytes_written err)
        ≡ done (counting max_size ((bytes_written + length (xs ++ ys)) % 2 ^ 64) err)
  both_size max bw err p h =
      let total : ((bw + length xs) % 2 ^ 64 + length ys) % 2 ^ 64
          ≡ (bw + length (xs ++ ys)) % 2 ^ 64 =
        omega (arith, length-append xs ys) in
      ap (λ r. then_write r k) (em.sizes max bw err p h)
      ∙ ek.sizes max ((bw + length xs) % 2 ^ 64) err p (omega arith)
      ∙ ap (λ n. done (counting max n err)) total

  pub then-Emits : EmitsFrom P (m >> k) (xs ++ ys)
  then-Emits = record { appends = both_append; refuses = both_refuse; sizes = both_size }
