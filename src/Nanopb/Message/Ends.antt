-- ===== src/Nanopb/Message/Ends.antt =====
-- Which encoders end: those that never run out of fuel, on any stream.
pub mod Values
pub mod Defaults
pub mod Fields
pub mod Messages
use answrapp.Common.{
  ℕ, ◌≡◌, refl, inl, inr, Bool, true, false, Bool-cases, List, arith, ◌||◌, ◌==◌, if◌then◌else◌,
  length,
}
use answrapp.Nanopb.Types.{Error}
use answrapp.Nanopb.Output.{
  OutStream, Sink, Stored, stored, refused, outside, Written, done, failed, fault, stuck, Encoder,
  then_write, ◌>>◌, return_true, raise, store, is_sizing, is_full, commit, write, write_null,
}

pub record Ends (m : Encoder) : Type 0 where
  pub ends : (s : OutStream) → m s ≡ stuck → ⊥

pub return_true-Ends : Ends return_true
return_true-Ends = record { ends = λ s e. cc }

pub raise-Ends : (e : Error) → Ends (raise e)
raise-Ends e = record { ends = λ s h. cc }

pub fault-Ends : Ends (λ s. fault)
fault-Ends = record { ends = λ s h. cc }

then_write-Ends :
    (r : Written) (k : Encoder) → (r ≡ stuck → ⊥) → Ends k → then_write r k ≡ stuck → ⊥
then_write-Ends (done t) k h hk e = hk.ends t e
then_write-Ends (failed t) k h hk e = cc
then_write-Ends fault k h hk e = cc
then_write-Ends stuck k h hk e = h refl

pub then-Ends : {m k : Encoder} → Ends m → Ends k → Ends (m >> k)
then-Ends {m} {k} hm hk = record { ends = λ s e. then_write-Ends (m s) k (hm.ends s) hk e }

pub if-Ends : {m k : Encoder} (b : Bool) → Ends m → Ends k → Ends (if b then m else k)
if-Ends true hm hk = hm
if-Ends false hm hk = hk

-- A choice by the stream.
pub choose-Ends :
    {m k : Encoder} (test : OutStream → Bool)
    → Ends m
    → Ends k
    → Ends (λ s. if test s then m s else k s)
choose-Ends {m} {k} test hm hk = record {
  ends = λ s e. elim (Bool-cases (test s)) [
    | inl a ↦ hm.ends s (rw a at e)
    | inr a ↦ hk.ends s (rw a at e)
  ];
}

commit-Ends : (r : Stored) (n : ℕ) (s : OutStream) → commit r n s ≡ stuck → ⊥
commit-Ends (stored sink) n s e = cc
commit-Ends (refused sink) n s e = cc
commit-Ends outside n s e = cc

pub write-Ends : (bytes : List ℕ) → Ends (write bytes)
unfolding write
write-Ends bytes =
    choose-Ends (λ s. length bytes == 0 || is_sizing s.sink) (record { ends = λ s e. cc })
      (choose-Ends (λ s. is_full s (length bytes)) (raise-Ends _)
        (record { ends = λ s e. commit-Ends (store s.sink bytes) (length bytes) s e }))

pub write_null-Ends : (n : ℕ) → Ends (write_null n)
unfolding write_null
write_null-Ends n =
    choose-Ends (λ s. n == 0 || is_sizing s.sink) (record { ends = λ s e. cc })
      (choose-Ends (λ s. is_full s n) (raise-Ends _) fault-Ends)
