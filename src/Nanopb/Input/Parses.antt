-- ===== src/Nanopb/Input/Parses.antt =====
-- What a reading function promises on bytes in memory: it takes those and returns their value,
-- whatever follows them. `Parses m bytes a` is the specification against which the decoders are
-- proved.
use answrapp.Common.{ℕ, ◌+◌, ◌≡◌, ◌∙◌, ap, Option, List, ◌++◌, append_assoc, length, length-append}
use native.Mathlib.Nat.{add_assoc}
use answrapp.Nanopb.Types.{Error}
use answrapp.Nanopb.Input.{Decoder, ok, and_then, ◌>>=◌, pure, read, skip}
use answrapp.Nanopb.Input.Buffer.{over, read-buffer, skip-buffer}

abbrev pub Parses {ℓ} : {A : Type ℓ} → Decoder A → List ℕ → A → Type ℓ
Parses m bytes a =
    (rest : List ℕ) (n : ℕ) (err : Option Error)
    → m (over (bytes ++ rest) (length bytes + n) err) ≡ ok a (over rest n err)

pub read-Parses : (bytes : List ℕ) → Parses (read (length bytes)) bytes bytes
read-Parses bytes rest n err = read-buffer bytes rest n err

pub skip-Parses : (bytes : List ℕ) → Parses (skip (length bytes)) bytes tt
skip-Parses bytes rest n err = skip-buffer bytes rest n err

module _ {ℓ κ} {A : Type ℓ} {B : Type κ} where
  pub bind-Parses :
      (m : Decoder A) (f : A → Decoder B) (xs ys : List ℕ) (a : A) (b : B)
      → Parses m xs a
      → Parses (f a) ys b
      → Parses (m >>= f) (xs ++ ys) b
  bind-Parses m f xs ys a b p q rest n err =
      rw (length-append xs ys, append_assoc, add_assoc)
        (ap (λ r. and_then r f) (p (ys ++ rest) (length ys + n) err) ∙ q rest n err)

  pub map-Parses :
      (m : Decoder A) (f : A → B) (xs : List ℕ) (a : A)
      → Parses m xs a
      → Parses (m >>= λ x. pure (f x)) xs (f a)
  map-Parses m f xs a p rest n err = ap (λ r. and_then r (λ x. pure (f x))) (p rest n err)
