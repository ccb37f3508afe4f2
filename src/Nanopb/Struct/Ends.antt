-- ===== src/Nanopb/Struct/Ends.antt =====
-- Which actions on a structure end: those that never run out of fuel.
pub mod Messages
use answrapp.Common.{
  ℕ, zero, suc, ◌+◌, ◌≤◌, ◌<◌, ◌≡◌, ◌≢◌, refl, inl, inr, Bool, true, false, not, ◌&&◌, ◌||◌,
  Bool-cases, Option, none, some, List, arith, ◌==◌, ==_iff, if◌then◌else◌, length, All,
}
use answrapp.Nanopb.Types.{Field, ltype, htype, atype}
use answrapp.Nanopb.Types.Ltype
use answrapp.Nanopb.Types.Htype
use answrapp.Nanopb.Types.Atype
use answrapp.Nanopb.Iter.{FieldIter, Walk, returned, field_at, iter_begin, iter_next}
use answrapp.Nanopb.Iter
use answrapp.Nanopb.Iter.Start.{
  field_at-All, iter_begin-first, iter_begin-ne-stuck, iter_next-Advances,
}
use answrapp.Nanopb.Message.Ends.Defaults.{Nests}
use answrapp.Nanopb.Memory.{load, load_pointer, shifted}
use answrapp.Nanopb.Struct.{
  Store, Change, changed, fault, stuck, Action, after, ◌>>◌, skip, write_zero, copy_bytes, free,
}
use answrapp.Nanopb.Struct.Fields.{Descriptors, while_more, each_field, each_field_of}
use answrapp.Nanopb.Struct.Defaults.{
  init_data, is_counted, default_field, field_set_to_default, message_set_to_defaults,
}
use answrapp.Nanopb.Struct.Release.{
  release_items, release_submessages, item_count, release_entries, release_pointer,
  release_contents, release_field, release_single_field, release, unless_null,
}

pub record Ends (m : Action) : Type 0 where
  pub ends : (s : Store) → m s ≡ stuck → ⊥

pub skip-Ends : Ends skip
skip-Ends = record { ends = λ s e. cc }

pub fault-Ends : Ends (λ s. fault)
fault-Ends = record { ends = λ s e. cc }

after-Ends : (r : Change) (k : Action) → (r ≡ stuck → ⊥) → Ends k → after r k ≡ stuck → ⊥
after-Ends (changed t) k h hk e = hk.ends t e
after-Ends fault k h hk e = cc
after-Ends stuck k h hk e = h refl

pub then-Ends : {m k : Action} → Ends m → Ends k → Ends (m >> k)
then-Ends {m} {k} hm hk = record { ends = λ s e. after-Ends (m s) k (hm.ends s) hk e }

pub if-Ends : {m k : Action} (b : Bool) → Ends m → Ends k → Ends (if b then m else k)
if-Ends true hm hk = hm
if-Ends false hm hk = hk

-- An action that is chosen by the store.
pub chosen-Ends : (m : Store → Action) → ((s : Store) → Ends (m s)) → Ends (λ s. m s s)
chosen-Ends m h = record { ends = λ s e. (h s).ends s e }

-- One that only changes the store.
pub plain-Ends : (f : Store → Store) → Ends (λ s. changed (f s))
plain-Ends f = record { ends = λ s e. cc }

pub zero-Ends : (p count : ℕ) → Ends (write_zero p count)
zero-Ends p count = record { ends = λ s e. cc }

pub free_at-Ends : (p : ℕ) → Ends (λ s. free (load_pointer s.memory p) s)
free_at-Ends p = record { ends = λ s e. cc }

while_more-Ends :
    (w : Walk) {k : FieldIter → Action}
    → (w ≡ Iter.stuck → ⊥)
    → ((t : FieldIter) → w ≡ returned true t → Ends (k t))
    → Ends (while_more w k)
while_more-Ends (returned true t) h hk = hk t refl
while_more-Ends (returned false t) h hk = skip-Ends
while_more-Ends Iter.fault h hk = fault-Ends
while_more-Ends Iter.stuck h hk = absurd (h refl)

-- The iterator stands at a field with `P`, if at any.
abbrev pub Stands : (Field → Type 0) → FieldIter → Type 0
Stands P iter = (f : Field) → field_at iter.start iter.pos ≡ some f → P f

module _ (one : FieldIter → Action) (P : Field → Type 0)
    (each : (iter : FieldIter) → Stands P iter → Ends (one iter)) where
  each_field-Ends :
      (rounds : ℕ) (iter : FieldIter)
      → All P iter.start
      → iter.pos < length iter.start
      → length iter.start ≤ rounds + iter.pos
      → Ends (each_field one rounds iter)
  unfolding each_field
  each_field-Ends zero iter h lt enough = absurd (omega arith)
  each_field-Ends (suc rounds) iter h lt enough =
      then-Ends (each iter (λ f e. field_at-All P iter.start iter.pos h e)) (
        while_more-Ends (iter_next iter) (iter_next-Advances iter).ends (λ t e.
          let (start, pos, room) = (iter_next-Advances iter).further t e in
          each_field-Ends rounds t (rw start h) (rw start room) (rw start (omega arith))))

  pub each_field_of-Ends :
      (fields : List Field) (p : ℕ) → All P fields → Ends (each_field_of one fields p)
  unfolding each_field_of
  each_field_of-Ends fields p h =
      while_more-Ends (iter_begin fields p) (iter_begin-ne-stuck fields p) (λ t e.
        let (start, pos, room) = iter_begin-first fields p e in
        each_field-Ends (length fields) t (rw start h) (rw (start, pos) room)
          (rw start (omega arith)))
