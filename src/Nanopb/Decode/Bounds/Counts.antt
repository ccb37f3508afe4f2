-- ===== src/Nanopb/Decode/Bounds/Counts.antt =====
-- What a step of the decoder makes of a number of four bytes in the memory.
use answrapp.Common.{
  ℕ, ◌+◌, ◌^◌, ◌≤◌, ◌<◌, ◌≡◌, refl, inl, inr, Bool, true, false, arith, if◌then◌else◌,
}
use answrapp.Nanopb.Memory.{Memory, load}
use answrapp.Nanopb.Decode.{
  Machine, Outcome, done, failed, outside, fault, stuck, Step, and_then, ◌>>=◌, attempt,
  write_number,
}
use answrapp.Nanopb.Decode
use answrapp.Nanopb.Decode.Keeps.{Same, Keeps}
use answrapp.Nanopb.Decode.Stored.{load-write_number}

-- The four bytes of a number at `p`.
abbrev pub Within : ℕ → ℕ → Type 0
Within p x = (p ≤ x) × (x < p + 4)

-- What holds of the number at `p` behind a success, and behind a failure.
abbrev pub Leaves {ℓ} : {A : Type ℓ} → ℕ → (ℕ → Type 0) → (ℕ → Type 0) → Outcome A → Type 0
Leaves p Q E (done a t) = Q (load t.store.memory 4 p)
Leaves p Q E (failed t) = E (load t.store.memory 4 p)
Leaves p Q E outside = Unit
Leaves p Q E fault = Unit
Leaves p Q E stuck = Unit

-- A step from a number with `P` to one with `Q`, or with `E` on a failure.
pub record Counts {ℓ} {A : Type ℓ} (p : ℕ) (P Q E : ℕ → Type 0) (m : Step A) : Type 0 where
  pub counts : (s : Machine) → P (load s.store.memory 4 p) → Leaves p Q E (m s)

load_same :
    (p : ℕ) (mem old : Memory)
    → ((x : ℕ) → Within p x → mem x ≡ old x)
    → load mem 4 p ≡ load old 4 p
unfolding load
load_same p mem old h =
    let a = h p (omega arith, omega arith) in
    let b = h (p + 1) (omega arith, omega arith) in
    let c = h (p + 1 + 1) (omega arith, omega arith) in
    let d = h (p + 1 + 1 + 1) (omega arith, omega arith) in rw (a, b, c, d) refl

module _ (p : ℕ) (P : ℕ → Type 0) where
  Same-Leaves {ℓ} :
      {A : Type ℓ} (s : Machine) (r : Outcome A)
      → ((x : ℕ) → Within p x → Same s x r)
      → P (load s.store.memory 4 p)
      → Leaves p P P r
  Same-Leaves s (done a t) h k = rw (load_same p t.store.memory s.store.memory h) k
  Same-Leaves s (failed t) h k = rw (load_same p t.store.memory s.store.memory h) k
  Same-Leaves s outside h k = tt
  Same-Leaves s fault h k = tt
  Same-Leaves s stuck h k = tt

module _ {p : ℕ} {P : ℕ → Type 0} where
  -- A step that does not store in the number keeps what holds of it.
  pub Keeps-Counts {ℓ} : {A : Type ℓ} {m : Step A} → Keeps (Within p) m → Counts p P P P m
  Keeps-Counts {m} h = record { counts = λ s k. Same-Leaves p P s (m s) (λ x w. h.keeps s x w) k }

module _ (p : ℕ) (Q E : ℕ → Type 0) where
  weaker-Leaves {ℓ} :
      {A : Type ℓ} (F : ℕ → Type 0) (r : Outcome A)
      → ((c : ℕ) → E c → F c)
      → Leaves p Q E r
      → Leaves p Q F r
  weaker-Leaves F (done a t) f h = h
  weaker-Leaves F (failed t) f h = f _ h
  weaker-Leaves F outside f h = tt
  weaker-Leaves F fault f h = tt
  weaker-Leaves F stuck f h = tt

  and_then-Leaves {ℓ κ} :
      {A : Type ℓ} {B : Type κ} (R : ℕ → Type 0) (r : Outcome A) (f : A → Step B)
      → Leaves p Q E r
      → ((a : A) → Counts p Q R E (f a))
      → Leaves p R E (and_then r f)
  and_then-Leaves R (done a t) f h k = (k a).counts t h
  and_then-Leaves R (failed t) f h k = h
  and_then-Leaves R outside f h k = tt
  and_then-Leaves R fault f h k = tt
  and_then-Leaves R stuck f h k = tt

module _ {p : ℕ} {P Q E : ℕ → Type 0} where
  pub weaker-Counts {ℓ} :
      {A : Type ℓ} {F : ℕ → Type 0} {m : Step A}
      → ((c : ℕ) → E c → F c)
      → Counts p P Q E m
      → Counts p P Q F m
  weaker-Counts {F} {m} f h = record {
    counts = λ s k. weaker-Leaves p Q E F (m s) f (h.counts s k);
  }

  pub bind-Counts {ℓ κ} :
      {A : Type ℓ} {B : Type κ} {R : ℕ → Type 0} {m : Step A} {f : A → Step B}
      → Counts p P Q E m
      → ((a : A) → Counts p Q R E (f a))
      → Counts p P R E (m >>= f)
  bind-Counts {R} {m} {f} hm hf = record {
    counts = λ s k. and_then-Leaves p Q E R (m s) f (hm.counts s k) hf;
  }

  pub if-Counts {ℓ} :
      {A : Type ℓ} {m k : Step A} (b : Bool)
      → (b ≡ true → Counts p P Q E m)
      → (b ≡ false → Counts p P Q E k)
      → Counts p P Q E (if b then m else k)
  if-Counts true hm hk = hm refl
  if-Counts false hm hk = hk refl

  -- A number of 32 bits that is stored.
  pub write-Counts : (v : ℕ) → v < 2 ^ 32 → Q v → Counts p P Q E (write_number p 4 v)
  write-Counts v fits q = record {
    counts = λ s k. rw (load-write_number s.store.memory 4 p v (inr (inr (inl refl))) fits) q;
  }

status-Leaves {ℓ} :
    {A : Type ℓ} (p : ℕ) (Q : ℕ → Type 0) (r : Outcome A)
    → Leaves p Q Q r
    → Leaves p Q Q (Decode.status_of r)
status-Leaves p Q (done a t) h = h
status-Leaves p Q (failed t) h = h
status-Leaves p Q outside h = tt
status-Leaves p Q fault h = tt
status-Leaves p Q stuck h = tt

pub attempt-Counts {ℓ} :
    {A : Type ℓ} {p : ℕ} {P Q : ℕ → Type 0} {m : Step A}
    → Counts p P Q Q m
    → Counts p P Q Q (attempt m)
attempt-Counts {p} {Q} {m} h = record { counts = λ s k. status-Leaves p Q (m s) (h.counts s k) }
