-- ===== src/Nanopb/Message/Consistent.antt =====
-- What each encoder of a message is: on streams into an array and sizing streams it always writes the
-- same bytes, or it succeeds on no stream into an array.
-- `Consistent` is the predicate, for streams without an error and with less than 2 ^ 63 bytes.
pub mod Values
pub mod Arrays
pub mod Fields
pub mod Submessages
pub mod Messages
use answrapp.Common.{
  ℕ, ◌+◌, ◌%◌, ◌^◌, ◌≤◌, ◌<◌, ◌≡◌, refl, ◌∙◌, ap, sym, ◌⊎◌, inl, inr, Bool, true, false, Bool-cases,
  Option, none, some, List, [], ◌++◌, arith, leb, leb→le, if◌then◌else◌, length,
}
use answrapp.Nanopb.Types.{Error, IsU64}
use answrapp.Nanopb.Output.{
  OutStream, Written, done, failed, fault, stuck, Encoder, then_write, ◌>>◌, return_true, raise,
}
use answrapp.Nanopb.Output.Bounds.{into, counting, Fits, Fits-write}
use answrapp.Nanopb.Output.Emits.{
  EmitsFrom, Emits, Emits-EmitsFrom, return_true-EmitsFrom, then-Emits,
}

-- A stream on which nothing has failed.
abbrev pub Fresh : ℕ → Option Error → Type 0
Fresh max_size err = (max_size < 2 ^ 63) × (err ≡ none)

abbrev pub Writes : Encoder → Type 0
Writes m = (bytes : List ℕ) × EmitsFrom Fresh m bytes

-- It does not succeed on any stream into an array.
pub record Fails (m : Encoder) : Type 0 where
  pub never :
      {capacity max_size bytes_written : ℕ} {out : List ℕ}
      → Fits capacity out max_size bytes_written
      → max_size < 2 ^ 63
      → (t : OutStream) → m (into capacity out max_size bytes_written none) ≡ done t
      → ⊥

abbrev pub Consistent : Encoder → Type 0
Consistent m = Writes m ⊎ Fails m

pub Emits-Consistent : {m : Encoder} {bytes : List ℕ} → Emits m bytes → Consistent m
Emits-Consistent {bytes} e = inl (bytes, Emits-EmitsFrom Fresh e)

pub return_true-Consistent : Consistent return_true
return_true-Consistent = inl ([], return_true-EmitsFrom Fresh)

pub raise-Fails : (e : Error) → Fails (raise e)
raise-Fails e = record { never = λ f w t eq. cc }

pub fault-Fails : Fails (λ s. fault)
fault-Fails = record { never = λ f w t eq. cc }

pub stuck-Fails : Fails (λ s. stuck)
stuck-Fails = record { never = λ f w t eq. cc }

pub then_write-done :
    (r : Written) (k : Encoder) (t : OutStream)
    → then_write r k ≡ done t
    → (u : OutStream) × (r ≡ done u)
then_write-done (done u) k t e = (u, refl)
then_write-done (failed u) k t e = cc
then_write-done fault k t e = cc
then_write-done stuck k t e = cc

pub failed-ne-done : {r : Written} {u t : OutStream} → r ≡ failed u → r ≡ done t → ⊥
failed-ne-done h e = cc

pub then-Fails_left : {m : Encoder} (k : Encoder) → Fails m → Fails (m >> k)
then-Fails_left k h = record {
  never = λ f w t e. let (u, eu) = then_write-done _ k t e in h.never f w u eu;
}

module _ {m k : Encoder} where
  after_bytes :
      {bytes : List ℕ} {capacity max_size bytes_written : ℕ} {out : List ℕ}
      → EmitsFrom Fresh m bytes
      → Fails k
      → Fits capacity out max_size bytes_written
      → max_size < 2 ^ 63
      → (t : OutStream) → (m >> k) (into capacity out max_size bytes_written none) ≡ done t
      → ⊥
  after_bytes {bytes} {max_size} {bytes_written} em h f w t e =
      elim (Bool-cases (leb (bytes_written + length bytes) max_size)) [
        | inl fits ↦
            let room = leb→le _ _ fits in
            let first = em.appends f none (w, refl) room in
            h.never (Fits-write f bytes room) w t (sym (ap (λ r. then_write r k) first) ∙ e)
        | inr full ↦
            let (u, eu) = em.refuses f none (w, refl) (ground arith) in
            failed-ne-done (ap (λ r. then_write r k) eu) e
      ]

  pub then-Fails_right : {bytes : List ℕ} → EmitsFrom Fresh m bytes → Fails k → Fails (m >> k)
  then-Fails_right em h = record { never = after_bytes em h }

  pub then-Consistent : Consistent m → Consistent k → Consistent (m >> k)
  then-Consistent (inl (xs, em)) (inl (ys, ek)) = inl (xs ++ ys, then-Emits em ek)
  then-Consistent (inl (xs, em)) (inr h) = inr (then-Fails_right em h)
  then-Consistent (inr h) ck = inr (then-Fails_left k h)

pub if-Consistent :
    {m k : Encoder} (b : Bool) → Consistent m → Consistent k → Consistent (if b then m else k)
if-Consistent true cm ck = cm
if-Consistent false cm ck = ck

-- No array takes 2 ^ 63 bytes.
pub too_large-Fails :
    {m : Encoder} {bytes : List ℕ} → EmitsFrom Fresh m bytes → 2 ^ 63 ≤ length bytes → Fails m
too_large-Fails em h = record {
  never = λ f w t e. let (u, eu) = em.refuses f none (w, refl) (omega arith) in failed-ne-done eu e;
}
