-- ===== src/Nanopb/Input/Takes.antt =====
-- How far a reading function moves its stream: what it takes off `bytes_left` covers what it takes
-- from the array behind a buffer.
use answrapp.Common.{
  ℕ, zero, suc, ◌+◌, ◌-◌, ◌≤◌, ◌≡◌, refl, inl, inr, true, false, Option, none, some, Bool,
  Bool-cases, List, [], ◌∷◌, arith, ltb, leb, ◌==◌, if◌then◌else◌, length, length-drop, tabulate,
}
use answrapp.Nanopb.Types.{Error, end_of_stream}
use answrapp.Nanopb.Input.{
  Source, buffer, custom, InStream, Result, ok, failed, fault, stuck, Decoder, and_then, ◌>>=◌,
  pure, set_error, raise, got, refused, fetch, deliver, read, skip_chunks, skip_from, skip,
  readbyte,
}

abbrev pub Room : Source → ℕ → Source → ℕ → Type 0
Room (buffer mem) left (buffer mem') left' = length mem + left' ≤ length mem' + left
Room (custom answer past) left (buffer mem') left' = ⊥
Room src left (custom answer past) left' = Unit

-- The stream `t` is `s` after at least `k` bytes.
pub record Moves (k : ℕ) (s t : InStream) : Type 0 where
  pub takes : t.bytes_left + k ≤ s.bytes_left
  pub room : Room s.source s.bytes_left t.source t.bytes_left

Room-self : (src : Source) (left : ℕ) → Room src left src left
Room-self (buffer mem) left = omega arith
Room-self (custom answer past) left = tt

pub Room-trans : (p q r : Source) (a b c : ℕ) → Room p a q b → Room q b r c → Room p a r c
Room-trans (buffer l) (buffer m) (buffer n) a b c h k = omega arith
Room-trans (buffer l) (buffer m) (custom f past) a b c h k = tt
Room-trans (buffer l) (custom f past) (buffer n) a b c h k = absurd k
Room-trans (buffer l) (custom f past) (custom g z) a b c h k = tt
Room-trans (custom f past) (buffer m) r a b c h k = absurd h
Room-trans (custom f past) (custom g z) (buffer n) a b c h k = absurd k
Room-trans (custom f past) (custom g z) (custom o y) a b c h k = tt

pub Moves-self : (s : InStream) → Moves 0 s s
Moves-self s = record { takes = omega arith; room = Room-self s.source s.bytes_left }

pub Moves-trans : {j k : ℕ} {s t u : InStream} → Moves j s t → Moves k t u → Moves (j + k) s u
Moves-trans {s} {t} {u} p q = record {
  takes = omega (arith, p.takes, q.takes);
  room = Room-trans s.source t.source u.source s.bytes_left t.bytes_left u.bytes_left p.room q.room;
}

pub Moves-mono : (k : ℕ) {j : ℕ} {s t : InStream} → k ≤ j → Moves j s t → Moves k s t
Moves-mono k h p = record { takes = omega (arith, p.takes); room = p.room }

abbrev pub TakesPost {ℓ} : {A : Type ℓ} → ℕ → InStream → Result A → Type 0
TakesPost k s (ok a t) = Moves k s t
TakesPost k s (failed t) = Moves 0 s t
TakesPost k s fault = Unit
TakesPost k s stuck = Unit

-- A reading function that takes at least `k` bytes when it succeeds.
pub record Takes {ℓ} {A : Type ℓ} (k : ℕ) (m : Decoder A) : Type 0 where
  pub takes : (s : InStream) → TakesPost k s (m s)

module _ {ℓ} {A : Type ℓ} where
  pub TakesPost-mono :
      (j : ℕ) {k : ℕ} (s : InStream) (r : Result A) → j ≤ k → TakesPost k s r → TakesPost j s r
  TakesPost-mono j s (ok a t) h p = Moves-mono j h p
  TakesPost-mono j s (failed t) h p = p
  TakesPost-mono j s fault h p = tt
  TakesPost-mono j s stuck h p = tt

  pub TakesPost-Moves :
      {j : ℕ} (k : ℕ) {s t : InStream} (r : Result A)
      → Moves j s t
      → TakesPost k t r
      → TakesPost (j + k) s r
  TakesPost-Moves k (ok a u) h p = Moves-trans h p
  TakesPost-Moves k (failed u) h p = Moves-mono 0 (omega arith) (Moves-trans h p)
  TakesPost-Moves k fault h p = tt
  TakesPost-Moves k stuck h p = tt

  pub Takes-mono : (j : ℕ) {k : ℕ} {m : Decoder A} → j ≤ k → Takes k m → Takes j m
  Takes-mono j {m} h p = record { takes = λ s. TakesPost-mono j s (m s) h (p.takes s) }

module _ {ℓ κ} {A : Type ℓ} {B : Type κ} where
  pub TakesPost-and_then :
      (j k : ℕ) (s : InStream) (r : Result A) (f : A → InStream → Result B)
      → TakesPost j s r
      → ((a : A) (t : InStream) → TakesPost k t (f a t))
      → TakesPost (j + k) s (and_then r f)
  TakesPost-and_then j k s (ok a t) f p h = TakesPost-Moves k (f a t) p (h a t)
  TakesPost-and_then j k s (failed t) f p h = p
  TakesPost-and_then j k s fault f p h = tt
  TakesPost-and_then j k s stuck f p h = tt

  pub bind-Takes :
      {j k : ℕ} {m : Decoder A} {f : A → Decoder B}
      → Takes j m
      → ((a : A) → Takes k (f a))
      → Takes (j + k) (m >>= f)
  bind-Takes {j} {k} {m} {f} hm hf = record {
    takes = λ s. TakesPost-and_then j k s (m s) f (hm.takes s) (λ a t. (hf a).takes t);
  }

pub raise-Moves : (e : Error) (s : InStream) → Moves 0 s (set_error e s)
raise-Moves e s = record { takes = omega arith; room = Room-self s.source s.bytes_left }

module _ {ℓ} {A : Type ℓ} {k : ℕ} where
  pub raise-Takes : (e : Error) → Takes {A = A} k (raise e)
  raise-Takes e = record { takes = raise-Moves e }

  pub stuck-Takes : Takes {A = A} k (λ s. stuck)
  stuck-Takes = record { takes = λ s. tt }

  pub fault-Takes : Takes {A = A} k (λ s. fault)
  fault-Takes = record { takes = λ s. tt }

  pub failed-Takes : Takes {A = A} k failed
  failed-Takes = record { takes = λ s. Moves-self s }

  pub if-Takes : {m n : Decoder A} (b : Bool) → Takes k m → Takes k n → Takes k (if b then m else n)
  if-Takes true hm hn = hm
  if-Takes false hm hn = hn

pub pure-Takes {ℓ} : {A : Type ℓ} (a : A) → Takes 0 (pure a)
pure-Takes a = record { takes = λ s. Moves-self s }

deliver_from-Takes :
    (src : Source) (count : ℕ) (s : InStream)
    → s.source ≡ src
    → count ≤ s.bytes_left
    → TakesPost count s (deliver (fetch src count) count s)
unfolding fetch
deliver_from-Takes (buffer mem) count s e h = elim (Bool-cases (leb count (length mem))) [
  | inl long ↦ rw long (record {
    takes = omega arith;
    room = rw e (omega (arith, length-drop count mem, leb_le count (length mem) long));
  })
  | inr short ↦ rw short tt
]
  where
    leb_le : (a b : ℕ) → leb a b ≡ true → a ≤ b
    leb_le a b h = ground arith
deliver_from-Takes (custom answer past) count s e h = answered (answer (count ∷ past))
  where
    answered :
        (o : Option (ℕ → ℕ))
        → TakesPost count s (
            deliver
              (elim o [
                | none ↦ refused (custom answer (count ∷ past))
                | some f ↦ got (tabulate count 0 f) (custom answer (count ∷ past))
              ])
              count
              s)
    answered none = record { takes = omega arith; room = tt }
    answered (some f) = record { takes = omega arith; room = tt }

pub read-Takes : (count : ℕ) → Takes count (read count)
unfolding read
read-Takes count = record {
  takes = λ s. elim (Bool-cases (count == 0)) [
    | inl zero_count ↦ rw zero_count (Moves-mono count (ground arith) (Moves-self s))
    | inr e ↦ rw e (elim (Bool-cases (ltb s.bytes_left count)) [
      | inl short ↦ rw short (raise-Moves end_of_stream s)
      | inr long ↦ rw long (deliver_from-Takes s.source count s refl (ground arith))
    ])
  ];
}

pub skip_chunks-Takes : (fuel count : ℕ) → Takes 0 (skip_chunks fuel count)
unfolding skip_chunks
skip_chunks-Takes zero count = stuck-Takes
skip_chunks-Takes (suc fuel) count =
    if-Takes (ltb 16 count)
      (Takes-mono 0 (omega arith)
        (bind-Takes (read-Takes 16) (λ _. skip_chunks-Takes fuel (count - 16))))
      (Takes-mono 0 (omega arith) (bind-Takes (read-Takes count) (λ _. pure-Takes tt)))

skip_from-Takes : (src : Source) (count : ℕ) → Takes 0 (skip_from src count)
unfolding skip_from
skip_from-Takes (buffer mem) count =
    Takes-mono 0 (omega arith) (bind-Takes (read-Takes count) (λ _. pure-Takes tt))
skip_from-Takes (custom answer past) count =
    if-Takes (count == 0) (pure-Takes tt) (skip_chunks-Takes (suc count) count)

pub skip-Takes : (count : ℕ) → Takes 0 (skip count)
unfolding skip
skip-Takes count = record { takes = λ s. (skip_from-Takes s.source count).takes s }

first-Takes :
    (bytes : List ℕ) (t : InStream)
    → TakesPost {A = ℕ} 0 t (elim bytes [ [] ↦ fault | b ∷ bs ↦ ok b t ])
first-Takes [] t = tt
first-Takes (b ∷ bs) t = Moves-self t

pub readbyte-Takes : Takes 1 readbyte
unfolding readbyte
readbyte-Takes = record {
  takes = λ s. elim (Bool-cases (s.bytes_left == 0)) [
    | inl e ↦ rw e (raise-Moves end_of_stream s)
    | inr e ↦ rw e (
        TakesPost-and_then 1 0 s _ _ (deliver_from-Takes s.source 1 s refl (ground arith))
          (λ bytes t. first-Takes bytes t))
  ];
}
