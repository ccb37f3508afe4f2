-- ===== src/Nanopb/Decode/Runs.antt =====
-- Steps of the decoder that end, whatever the stream holds, and read nothing outside of it.
pub mod Substreams
pub mod Scalars
pub mod Values
pub mod Fields
pub mod Pointers
pub mod Callbacks
pub mod Iterators
pub mod Rounds
pub mod Loops
pub mod Messages
use answrapp.Common.{
  ℕ, zero, suc, ◌+◌, ◌≤◌, ◌<◌, ◌≡◌, refl, Bool, true, false, Option, none, some, arith,
  if◌then◌else◌,
}
use answrapp.Nanopb.Types.{Error, Field}
use answrapp.Nanopb.Input.{InStream, Result, ok, Decoder, set_error}
use answrapp.Nanopb.Input
use answrapp.Nanopb.Input.Safety.{IsValid, Post, Ensures}
use answrapp.Nanopb.Input.Takes.{Moves, Moves-self, Moves-trans, Moves-mono, Takes, TakesPost}
use answrapp.Nanopb.Memory.{Memory}
use answrapp.Nanopb.Iter.{FieldIter, Walk, returned}
use answrapp.Nanopb.Iter
use answrapp.Nanopb.Struct.{Store, Change, changed, Action}
use answrapp.Nanopb.Struct
use answrapp.Nanopb.Struct.Ends.{Ends}
use answrapp.Nanopb.Decode.{
  Machine, Outcome, done, failed, outside, fault, stuck, Step, and_then, ◌>>=◌, ◌>>◌, pure, give,
  with_store, reading, raise, with_stream, changing, loading, walking, status_of, attempt,
  remaining, at_field,
}

-- The stream `t` is well formed, and is what is left of `s` after at least `k` bytes.
pub record Goes (k : ℕ) (s t : InStream) : Type 0 where
  pub valid : IsValid t
  pub moves : Moves k s t

pub Goes-self : {s : InStream} → IsValid s → Goes 0 s s
Goes-self {s} v = record { valid = v; moves = Moves-self s }

pub Goes-trans : {j k : ℕ} {s t u : InStream} → Goes j s t → Goes k t u → Goes (j + k) s u
Goes-trans p q = record { valid = q.valid; moves = Moves-trans p.moves q.moves }

pub Goes-mono : (j : ℕ) {k : ℕ} {s t : InStream} → j ≤ k → Goes k s t → Goes j s t
Goes-mono j h p = record { valid = p.valid; moves = Moves-mono j h p.moves }

-- A step from the stream `s` may meet a fault in memory, and otherwise ends with a result and takes
-- at least `k` bytes when it succeeds.
abbrev pub RunPost {ℓ} : {A : Type ℓ} → ℕ → (A → Type 0) → InStream → Outcome A → Type 0
RunPost k P s (done a t) = P a × Goes k s t.stream
RunPost k P s (failed t) = Goes 0 s t.stream
RunPost k P s outside = ⊥
RunPost k P s fault = Unit
RunPost k P s stuck = ⊥

-- Such a step on every well-formed stream with less than `n` bytes left.
pub record Runs {ℓ} {A : Type ℓ} (n k : ℕ) (P : A → Type 0) (m : Step A) : Type 0 where
  pub runs : (s : Machine) → IsValid s.stream → s.stream.bytes_left < n → RunPost k P s.stream (m s)

abbrev pub Anything {ℓ} : {A : Type ℓ} → A → Type 0
Anything a = Unit

module _ {ℓ} {A : Type ℓ} where
  pub RunPost-mono :
      (j : ℕ) {k : ℕ} (P Q : A → Type 0) (s : InStream) (r : Outcome A)
      → j ≤ k
      → ((a : A) → P a → Q a)
      → RunPost k P s r
      → RunPost j Q s r
  RunPost-mono j P Q s (done a t) h f p = (f a p.0, Goes-mono j h p.1)
  RunPost-mono j P Q s (failed t) h f p = p
  RunPost-mono j P Q s outside h f p = absurd p
  RunPost-mono j P Q s fault h f p = tt
  RunPost-mono j P Q s stuck h f p = absurd p

  pub RunPost-Goes :
      {j : ℕ} (k : ℕ) (P : A → Type 0) {s t : InStream} (r : Outcome A)
      → Goes j s t
      → RunPost k P t r
      → RunPost (j + k) P s r
  RunPost-Goes k P (done a u) g p = (p.0, Goes-trans g p.1)
  RunPost-Goes k P (failed u) g p = Goes-mono 0 (omega arith) (Goes-trans g p)
  RunPost-Goes k P outside g p = absurd p
  RunPost-Goes k P fault g p = tt
  RunPost-Goes k P stuck g p = absurd p

  pub Runs-mono :
      (j : ℕ) {n k : ℕ} {P Q : A → Type 0} {m : Step A}
      → j ≤ k
      → ((a : A) → P a → Q a)
      → Runs n k P m
      → Runs n j Q m
  Runs-mono j {P} {Q} {m} h f p = record {
    runs = λ s v lt. RunPost-mono j P Q s.stream (m s) h f (p.runs s v lt);
  }

  pub Runs-any : {n k : ℕ} {P : A → Type 0} {m : Step A} → Runs n k P m → Runs n 0 Anything m
  Runs-any p = Runs-mono 0 (omega arith) (λ a _. tt) p

module _ {ℓ κ} {A : Type ℓ} {B : Type κ} where
  pub and_then-Runs :
      (j k : ℕ) (P : A → Type 0) (Q : B → Type 0) (s : InStream) (r : Outcome A) (f : A → Step B)
      → RunPost j P s r
      → ((a : A) (t : Machine) → P a → Goes j s t.stream → RunPost k Q t.stream (f a t))
      → RunPost (j + k) Q s (and_then r f)
  and_then-Runs j k P Q s (done a t) f h g = RunPost-Goes k Q (f a t) h.1 (g a t h.0 h.1)
  and_then-Runs j k P Q s (failed t) f h g = h
  and_then-Runs j k P Q s outside f h g = absurd h
  and_then-Runs j k P Q s fault f h g = tt
  and_then-Runs j k P Q s stuck f h g = absurd h

  pub bind-Runs :
      {n j k : ℕ} {P : A → Type 0} {Q : B → Type 0} {m : Step A} {f : A → Step B}
      → Runs n j P m
      → ((a : A) → P a → Runs n k Q (f a))
      → Runs n (j + k) Q (m >>= f)
  bind-Runs {n} {j} {k} {P} {Q} {m} {f} hm hf = record {
    runs = λ s v lt.
        and_then-Runs j k P Q s.stream (m s) f (hm.runs s v lt)
          (λ a t p g. (hf a p).runs t g.valid (omega (arith, g.moves.takes)));
  }

  -- Where it does not matter how many bytes are taken.
  pub then-Runs :
      {n j k : ℕ} {P : A → Type 0} {Q : B → Type 0} {m : Step A} {m' : Step B}
      → Runs n j P m
      → Runs n k Q m'
      → Runs n 0 Q (m >> m')
  then-Runs hm hn = Runs-mono 0 (omega arith) (λ b q. q) (bind-Runs hm (λ a _. hn))

  pub next-Runs :
      {n j k : ℕ} {P : A → Type 0} {Q : B → Type 0} {m : Step A} {f : A → Step B}
      → Runs n j P m
      → ((a : A) → P a → Runs n k Q (f a))
      → Runs n 0 Q (m >>= f)
  next-Runs hm hf = Runs-mono 0 (omega arith) (λ b q. q) (bind-Runs hm hf)

pub raise-Goes : (e : Error) {s : InStream} → IsValid s → Goes 0 s (set_error e s)
raise-Goes e {s} v = record {
  valid = record { serves = v.serves; fits = v.fits };
  moves = record { takes = omega arith; room = (Moves-self s).room };
}

module _ {ℓ} {A : Type ℓ} where
  pub if-Runs :
      {n k : ℕ} {P : A → Type 0} {m m' : Step A} (b : Bool)
      → (b ≡ true → Runs n k P m)
      → (b ≡ false → Runs n k P m')
      → Runs n k P (if b then m else m')
  if-Runs true hm hn = hm refl
  if-Runs false hm hn = hn refl

  with_store-Runs :
      (k : ℕ) (P : A → Type 0) (s : InStream) (store : Store) (r : Result A)
      → Post P s r
      → TakesPost k s r
      → RunPost k P s (with_store store r)
  with_store-Runs k P s store (ok a t) p h = (p.0, record { valid = p.1.valid; moves = h })
  with_store-Runs k P s store (Input.failed t) p h = record { valid = p.valid; moves = h }
  with_store-Runs k P s store Input.fault p h = absurd p
  with_store-Runs k P s store Input.stuck p h = absurd p

  pub reading-Runs :
      {n : ℕ} (k : ℕ) (P : A → Type 0) (m : Decoder A)
      → Ensures P m
      → Takes k m
      → Runs n k P (reading m)
  reading-Runs k P m safe takes = record {
    runs = λ s v lt.
        with_store-Runs k P s.stream s.store (m s.stream) (safe s.stream v) (takes.takes s.stream);
  }

  pub raise-Runs : {n k : ℕ} {P : A → Type 0} (e : Error) → Runs n k P (raise e)
  raise-Runs e = record { runs = λ s v lt. raise-Goes e v }

  pub pure-Runs : {n : ℕ} {P : A → Type 0} (a : A) → P a → Runs n 0 P (pure a)
  pure-Runs a p = record { runs = λ s v lt. (p, Goes-self v) }

  pub fault-Runs : {n k : ℕ} {P : A → Type 0} → Runs n k P (λ s. fault)
  fault-Runs = record { runs = λ s v lt. tt }

  pub loading-Runs : {n : ℕ} (f : Memory → A) → Runs n 0 Anything (loading f)
  loading-Runs f = record { runs = λ s v lt. (tt, Goes-self v) }

  status-Runs :
      (k : ℕ) (P : A → Type 0) (s : InStream) (r : Outcome A)
      → RunPost k P s r
      → RunPost 0 Anything s (status_of r)
  status-Runs k P s (done a t) h = (tt, Goes-mono 0 (omega arith) h.1)
  status-Runs k P s (failed t) h = (tt, h)
  status-Runs k P s outside h = absurd h
  status-Runs k P s fault h = tt
  status-Runs k P s stuck h = absurd h

  pub attempt-Runs :
      {n k : ℕ} {P : A → Type 0} {m : Step A} → Runs n k P m → Runs n 0 Anything (attempt m)
  attempt-Runs {n} {k} {P} {m} h = record {
    runs = λ s v lt. status-Runs k P s.stream (m s) (h.runs s v lt);
  }

pub give-Runs : {n : ℕ} (b : Bool) → Runs n 0 Anything (give b)
give-Runs true = record { runs = λ s v lt. (tt, Goes-self v) }
give-Runs false = record { runs = λ s v lt. Goes-self v }

pub remaining-Runs : {n : ℕ} → Runs n 0 Anything remaining
remaining-Runs = record { runs = λ s v lt. (tt, Goes-self v) }

with_stream-Runs :
    (s : InStream) (c : Change)
    → IsValid s
    → (c ≡ Struct.stuck → ⊥)
    → RunPost 0 Anything s (with_stream s c)
with_stream-Runs s (changed t) v h = (tt, Goes-self v)
with_stream-Runs s Struct.fault v h = tt
with_stream-Runs s Struct.stuck v h = absurd (h refl)

pub changing-Runs : {n : ℕ} {m : Action} → Ends m → Runs n 0 Anything (changing m)
changing-Runs {n} {m} h = record {
  runs = λ s v lt. with_stream-Runs s.stream (m s.store) v (h.ends s.store);
}

-- A walk of an iterator that ends.
pub walking-Runs :
    {n : ℕ} {P : Bool × FieldIter → Type 0} (w : Walk)
    → (w ≡ Iter.stuck → ⊥)
    → ((b : Bool) (t : FieldIter) → w ≡ returned b t → P (b, t))
    → Runs n 0 P (walking w)
walking-Runs (returned b t) h p = pure-Runs (b, t) (p b t refl)
walking-Runs Iter.fault h p = fault-Runs
walking-Runs Iter.stuck h p = absurd (h refl)

pub at_field-Runs {ℓ} :
    {A : Type ℓ} {n k : ℕ} {P : A → Type 0} (o : Option Field) {f : Field → Step A}
    → ((field : Field) → o ≡ some field → Runs n k P (f field))
    → Runs n k P (at_field o f)
at_field-Runs none h = fault-Runs
at_field-Runs (some field) h = h field refl
