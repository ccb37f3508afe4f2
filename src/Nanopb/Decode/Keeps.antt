-- ===== src/Nanopb/Decode/Keeps.antt =====
-- Which bytes of the memory a step of the decoder leaves as they are.
use answrapp.Common.{
  ℕ, ◌+◌, ◌-◌, ◌≤◌, ◌<◌, ◌≡◌, refl, ◌⊎◌, inl, inr, Bool, true, false, ◌&&◌, arith, ltb, leb,
  if◌then◌else◌,
}
use answrapp.Nanopb.Types.{Error}
use answrapp.Nanopb.Input.{InStream, Result, ok, Decoder, read}
use answrapp.Nanopb.Input
use answrapp.Nanopb.Struct.{write_bytes}
use answrapp.Nanopb.Decode.{
  Machine, Outcome, done, failed, outside, fault, stuck, Step, and_then, ◌>>=◌, ◌>>◌, pure, give,
  reading, raise, changing, loading, attempt, write_number, write_list, Context, MessageDecoder,
}
use answrapp.Nanopb.Decode

abbrev pub Same {ℓ} : {A : Type ℓ} → Machine → ℕ → Outcome A → Type 0
Same s x (done a t) = t.store.memory x ≡ s.store.memory x
Same s x (failed t) = t.store.memory x ≡ s.store.memory x
Same s x outside = Unit
Same s x fault = Unit
Same s x stuck = Unit

-- A step that keeps the bytes at the addresses with `Free`.
pub record Keeps {ℓ} {A : Type ℓ} (Free : ℕ → Type 0) (m : Step A) : Type 0 where
  pub keeps : (s : Machine) (x : ℕ) → Free x → Same s x (m s)

-- The address lies outside of `count` bytes from `a` on.
abbrev pub Apart : ℕ → ℕ → ℕ → Type 0
Apart a count x = (x < a) ⊎ (a + count ≤ x)

module _ {ℓ} {A : Type ℓ} where
  Same-step :
      (s t : Machine) (x : ℕ) (r : Outcome A)
      → t.store.memory x ≡ s.store.memory x
      → Same t x r
      → Same s x r
  Same-step s t x (done a u) e h = rw h e
  Same-step s t x (failed u) e h = rw h e
  Same-step s t x outside e h = tt
  Same-step s t x fault e h = tt
  Same-step s t x stuck e h = tt

module _ {ℓ κ} {A : Type ℓ} {B : Type κ} where
  and_then-Same :
      (s : Machine) (x : ℕ) (r : Outcome A) (f : A → Step B)
      → Same s x r
      → ((a : A) (t : Machine) → Same t x (f a t))
      → Same s x (and_then r f)
  and_then-Same s x (done a t) f h k = Same-step s t x (f a t) h (k a t)
  and_then-Same s x (failed t) f h k = h
  and_then-Same s x outside f h k = tt
  and_then-Same s x fault f h k = tt
  and_then-Same s x stuck f h k = tt

  pub bind-Keeps :
      {Free : ℕ → Type 0} {m : Step A} {f : A → Step B}
      → Keeps Free m
      → ((a : A) → Keeps Free (f a))
      → Keeps Free (m >>= f)
  bind-Keeps {m} {f} hm hf = record {
    keeps =
        λ s x free. and_then-Same s x (m s) f (hm.keeps s x free) (λ a t. (hf a).keeps t x free);
  }

reading-Same {ℓ} :
    {A : Type ℓ} (s : Machine) (x : ℕ) (r : Result A) → Same s x (Decode.with_store s.store r)
reading-Same s x (ok a t) = refl
reading-Same s x (Input.failed t) = refl
reading-Same s x Input.fault = tt
reading-Same s x Input.stuck = tt

status-Same {ℓ} :
    {A : Type ℓ} (s : Machine) (x : ℕ) (r : Outcome A) → Same s x r → Same s x (Decode.status_of r)
status-Same s x (done a t) h = h
status-Same s x (failed t) h = h
status-Same s x outside h = tt
status-Same s x fault h = tt
status-Same s x stuck h = tt

module _ {Free : ℕ → Type 0} where
  pub then-Keeps {ℓ κ} :
      {A : Type ℓ} {B : Type κ} {m : Step A} {k : Step B}
      → Keeps Free m
      → Keeps Free k
      → Keeps Free (m >> k)
  then-Keeps hm hk = bind-Keeps hm (λ a. hk)

  pub if-Keeps {ℓ} :
      {A : Type ℓ} {m k : Step A} (b : Bool)
      → (b ≡ true → Keeps Free m)
      → (b ≡ false → Keeps Free k)
      → Keeps Free (if b then m else k)
  if-Keeps true hm hk = hm refl
  if-Keeps false hm hk = hk refl

  -- A function of the stream alone changes no memory.
  pub reading-Keeps {ℓ} : {A : Type ℓ} (m : Decoder A) → Keeps Free (reading m)
  reading-Keeps m = record { keeps = λ s x free. reading-Same s x (m s.stream) }

  pub raise-Keeps {ℓ} : {A : Type ℓ} (e : Error) → Keeps Free (raise {A = A} e)
  raise-Keeps e = record { keeps = λ s x free. refl }

  pub pure-Keeps {ℓ} : {A : Type ℓ} (a : A) → Keeps Free (pure a)
  pure-Keeps a = record { keeps = λ s x free. refl }

  pub fault-Keeps {ℓ} : {A : Type ℓ} → Keeps {A = A} Free (λ s. fault)
  fault-Keeps = record { keeps = λ s x free. tt }

  pub give-Keeps : (b : Bool) → Keeps Free (give b)
  give-Keeps true = record { keeps = λ s x free. refl }
  give-Keeps false = record { keeps = λ s x free. refl }

  pub attempt-Keeps {ℓ} : {A : Type ℓ} {m : Step A} → Keeps Free m → Keeps Free (attempt m)
  attempt-Keeps {m} h = record { keeps = λ s x free. status-Same s x (m s) (h.keeps s x free) }

  -- A write of `count` bytes from `a` on, none of them free.
  pub write-Keeps :
      (a count : ℕ) (bytes : ℕ → ℕ)
      → ((x : ℕ) → Free x → Apart a count x)
      → Keeps Free (changing (write_bytes a count bytes))
  write-Keeps a count bytes h = record { keeps = λ s x free. untouched s x (h x free) }
    where
      untouched :
          (s : Machine) (x : ℕ)
          → Apart a count x
          → (if leb a x && ltb x (a + count) then bytes (x - a) else s.store.memory x)
            ≡ s.store.memory x
      untouched s x (inl lt) = ground arith
      untouched s x (inr ge) = ground arith
