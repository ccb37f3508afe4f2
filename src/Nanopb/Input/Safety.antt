-- ===== src/Nanopb/Input/Safety.antt =====
-- Reading from a well-formed stream. `Ensures P m` says of a reading function `m` that there it makes
-- no access outside the caller's array, has fuel enough, leaves the stream well formed with no more
-- bytes left, and returns a value with `P`.
use answrapp.Common.{
  ℕ, zero, suc, ◌+◌, ◌-◌, ◌≤◌, ◌<◌, ◌≡◌, refl, inl, inr, true, false, Option, none, some, Bool,
  Bool-cases, List, [], ◌∷◌, arith, ltb, leb, ◌==◌, if◌then◌else◌, length, length-take, length-drop,
  length-tabulate, All, All-take, All-drop, All-tabulate,
}
use answrapp.Nanopb.Types.{IsByte, IsU64, Error}
use answrapp.Nanopb.Input.{
  Source, buffer, custom, InStream, Result, ok, failed, fault, stuck, Decoder, and_then, ◌>>=◌,
  pure, raise, Fetch, got, refused, outside, fetch, deliver, read, skip_chunks, skip_from, skip,
  readbyte,
}

-- A source can serve `left` bytes: the array reaches that far and holds bytes, and a callback
-- delivers bytes.
abbrev pub Serves : Source → ℕ → Type 0
Serves (buffer mem) left = (left ≤ length mem) × All IsByte mem
Serves (custom answer past) left =
    (asked : List ℕ) (f : ℕ → ℕ) → answer asked ≡ some f → (i : ℕ) → IsByte (f i)

pub record IsValid (s : InStream) : Type 0 where
  pub serves : Serves s.source s.bytes_left
  pub fits : IsU64 s.bytes_left

-- The stream `t` is what is left of `s`.
pub record Follows (s t : InStream) : Type 0 where
  pub valid : IsValid t
  pub shrinks : t.bytes_left ≤ s.bytes_left

pub Follows-self : {s : InStream} → IsValid s → Follows s s
Follows-self v = record { valid = v; shrinks = omega arith }

pub Follows-trans : {s t u : InStream} → Follows s t → Follows t u → Follows s u
Follows-trans p q = record { valid = q.valid; shrinks = omega (arith, p.shrinks, q.shrinks) }

abbrev pub Post {ℓ} : {A : Type ℓ} → (A → Type 0) → InStream → Result A → Type 0
Post P s (ok a t) = P a × Follows s t
Post P s (failed t) = Follows s t
Post P s fault = ⊥
Post P s stuck = ⊥

abbrev pub Ensures {ℓ} : {A : Type ℓ} → (A → Type 0) → Decoder A → Type 0
Ensures P m = (s : InStream) → IsValid s → Post P s (m s)

abbrev pub IsSafe {ℓ} : {A : Type ℓ} → Decoder A → Type 0
IsSafe m = Ensures (λ _. Unit) m

module _ {ℓ} {A : Type ℓ} where
  -- A later stream may stand for the one that it follows.
  pub Post-Follows :
      (P : A → Type 0) {s t : InStream} (r : Result A) → Follows s t → Post P t r → Post P s r
  Post-Follows P (ok a u) f p = (p.0, Follows-trans f p.1)
  Post-Follows P (failed u) f p = Follows-trans f p
  Post-Follows P fault f p = absurd p
  Post-Follows P stuck f p = absurd p

  pub Post-mono :
      (P Q : A → Type 0) (s : InStream) (r : Result A)
      → ((a : A) → P a → Q a)
      → Post P s r
      → Post Q s r
  Post-mono P Q s (ok a u) f p = (f a p.0, p.1)
  Post-mono P Q s (failed u) f p = p
  Post-mono P Q s fault f p = absurd p
  Post-mono P Q s stuck f p = absurd p

module _ {ℓ} {A : Type ℓ} where
  pub Post-and_then {κ} :
      {B : Type κ} (P : A → Type 0) (Q : B → Type 0) (s : InStream) (r : Result A)
      (f : A → InStream → Result B)
      → Post P s r
      → ((a : A) (t : InStream) → r ≡ ok a t → P a → Follows s t → Post Q t (f a t))
      → Post Q s (and_then r f)
  Post-and_then P Q s (ok a t) f p h = Post-Follows Q (f a t) p.1 (h a t refl p.0 p.1)
  Post-and_then P Q s (failed t) f p h = p
  Post-and_then P Q s fault f p h = absurd p
  Post-and_then P Q s stuck f p h = absurd p

  pub bind-Ensures {κ} :
      {B : Type κ} (P : A → Type 0) (Q : B → Type 0) (m : Decoder A) (f : A → Decoder B)
      → Ensures P m
      → ((a : A) → P a → Ensures Q (f a))
      → Ensures Q (m >>= f)
  bind-Ensures P Q m f hm hf s v =
      Post-and_then P Q s (m s) f (hm s v) (λ a t _ p fo. hf a p t fo.valid)

  pub raise-Ensures : (P : A → Type 0) (e : Error) → Ensures P (raise {A = A} e)
  raise-Ensures P e s v = record {
    valid = record { serves = v.serves; fits = v.fits };
    shrinks = omega arith;
  }

  pub pure-Ensures : (P : A → Type 0) (a : A) → P a → Ensures P (pure a)
  pure-Ensures P a p s v = (p, Follows-self v)

  pub if-Ensures :
      (P : A → Type 0) (b : Bool) (m k : Decoder A)
      → (b ≡ true → Ensures P m)
      → (b ≡ false → Ensures P k)
      → Ensures P (if b then m else k)
  if-Ensures P true m k hm hk = hm refl
  if-Ensures P false m k hm hk = hk refl

-- What the callback may do to a stream with `left` bytes to go that asks for `count` of them.
abbrev Fetched : ℕ → ℕ → Fetch → Type 0
Fetched left count (got bytes src) =
    (length bytes ≡ count) × All IsByte bytes × Serves src (left - count)
Fetched left count (refused src) = Serves src left
Fetched left count outside = ⊥

fetch_lem :
    (src : Source) (left count : ℕ)
    → Serves src left
    → count ≤ left
    → Fetched left count (fetch src count)
unfolding fetch
fetch_lem (buffer mem) left count v h =
    let enough : leb count (length mem) ≡ true = ground arith in
    rw enough (
      omega (arith, length-take count mem),
      All-take IsByte count mem v.1,
      (omega (arith, length-drop count mem), All-drop IsByte count mem v.1),
    )
fetch_lem (custom answer past) left count v h = answered (answer (count ∷ past)) refl
  where
    answered :
        (o : Option (ℕ → ℕ))
        → answer (count ∷ past) ≡ o
        → Fetched left count (fetch (custom answer past) count)
    answered none e = rw (e, fetch) v
    answered (some f) e =
        rw (e, fetch) (length-tabulate count 0 f, All-tabulate IsByte count 0 f (λ i. v _ f e i), v)

abbrev pub Bytes : ℕ → List ℕ → Type 0
Bytes count bytes = (length bytes ≡ count) × All IsByte bytes

-- A read of `count` bytes also takes them off `bytes_left`.
deliver_lem :
    (f : Fetch) (count : ℕ) (s : InStream)
    → IsValid s
    → count ≤ s.bytes_left
    → Fetched s.bytes_left count f
    → Post (Bytes count) s (deliver f count s)
deliver_lem (got bytes src) count s v h p = (
  (p.0, p.1),
  record { valid = record { serves = p.2; fits = omega (arith, v.fits) }; shrinks = omega arith },
)
deliver_lem (refused src) count s v h p = record {
  valid = record { serves = p; fits = v.fits };
  shrinks = omega arith;
}
deliver_lem outside count s v h p = absurd p

-- `pb_read` of `count` bytes on a well-formed stream: it stays within the stream, leaves it well
-- formed with no more bytes left than before, and if it succeeds it has read `count` bytes.
pub read-Ensures : (count : ℕ) → Ensures (Bytes count) (read count)
unfolding read
read-Ensures count s v = elim (Bool-cases (count == 0)) [
  | inl e ↦ rw e ((ground arith, tt), Follows-self v)
  | inr e ↦ rw e (elim (Bool-cases (ltb s.bytes_left count)) [
    | inl short ↦ rw short (raise-Ensures (Bytes count) _ s v)
    | inr long ↦ rw long (
        deliver_lem (fetch s.source count) count s v (ground arith)
          (fetch_lem s.source s.bytes_left count v.serves (ground arith)))
  ])
]

pub read-IsSafe : (count : ℕ) → IsSafe (read count)
read-IsSafe count s v =
    Post-mono (Bytes count) (λ _. Unit) s (read count s) (λ _ _. tt) (read-Ensures count s v)

pub skip_chunks-IsSafe : (fuel count : ℕ) → count < fuel → IsSafe (skip_chunks fuel count)
unfolding skip_chunks
skip_chunks-IsSafe zero count h = absurd (omega arith)
skip_chunks-IsSafe (suc fuel) count h =
    if-Ensures (λ _. Unit) (ltb 16 count) _ _
      (λ e.
        bind-Ensures (λ _. Unit) (λ _. Unit) (read 16) (λ _. skip_chunks fuel (count - 16))
          (read-IsSafe 16) (λ _ _. skip_chunks-IsSafe fuel (count - 16) (ground arith)))
      (λ e.
        bind-Ensures (λ _. Unit) (λ _. Unit) (read count) (λ _. pure tt) (read-IsSafe count)
          (λ _ _. pure-Ensures {0} (λ _. Unit) tt tt))

skip_from-IsSafe : (src : Source) (count : ℕ) → IsSafe (skip_from src count)
unfolding skip_from
skip_from-IsSafe (buffer mem) count =
    bind-Ensures (λ _. Unit) (λ _. Unit) (read count) (λ _. pure tt) (read-IsSafe count)
      (λ _ _. pure-Ensures {0} (λ _. Unit) tt tt)
skip_from-IsSafe (custom answer past) count =
    if-Ensures (λ _. Unit) (count == 0) (pure tt) (skip_chunks (suc count) count)
      (λ _. pure-Ensures {0} (λ _. Unit) tt tt)
      (λ _. skip_chunks-IsSafe (suc count) count (omega arith))

-- `pb_read` with a NULL buffer on a well-formed stream, from memory or from any callback: it
-- terminates, stays within the stream and leaves it well formed with no more bytes left than before.
pub skip-IsSafe : (count : ℕ) → IsSafe (skip count)
unfolding skip
skip-IsSafe count s v = skip_from-IsSafe s.source count s v

first-IsByte :
    (bytes : List ℕ) (t : InStream)
    → Bytes 1 bytes
    → IsValid t
    → Post {A = ℕ} IsByte t (elim bytes [ [] ↦ fault | b ∷ bs ↦ ok b t ])
first-IsByte [] t h v = absurd (omega (arith, h.0))
first-IsByte (b ∷ bs) t h v = (h.1.0, Follows-self v)

-- A byte that is read is a byte.
pub readbyte-Ensures : Ensures IsByte readbyte
unfolding readbyte
readbyte-Ensures s v = elim (Bool-cases (s.bytes_left == 0)) [
  | inl e ↦ rw e (raise-Ensures IsByte _ s v)
  | inr e ↦ rw e (
      Post-and_then (Bytes 1) IsByte s _ _
        (deliver_lem (fetch s.source 1) 1 s v (ground arith)
          (fetch_lem s.source s.bytes_left 1 v.serves (ground arith)))
        (λ bytes t eq p fo. first-IsByte bytes t p fo.valid))
]

pub readbyte_takes :
    (s : InStream) (b : ℕ) (t : InStream) → readbyte s ≡ ok b t → t.bytes_left + 1 ≡ s.bytes_left
unfolding readbyte
readbyte_takes s b t e = ground arith

pub read_takes :
    (s : InStream) (bytes : List ℕ) (t : InStream)
    → read 1 s ≡ ok bytes t
    → t.bytes_left + 1 ≡ s.bytes_left
unfolding read
read_takes s bytes t e = ground arith
