-- ===== src/Nanopb/Iter/Search.antt =====
-- `pb_field_iter_find` on a descriptor.
use answrapp.Common.{
  ℕ, zero, suc, ◌+◌, ◌-◌, ◌≤◌, ◌<◌, ◌≡◌, ◌≢◌, ◌∙◌, ap, sym, ◌⊎◌, inl, inr, Bool, true, false,
  Bool-cases, Option, none, some, List, [], ◌∷◌, ◌++◌, arith, ltb, ◌==◌, if◌then◌else◌, length,
  length-append, All,
}
use mathlib.Core.Path.{subst}
use answrapp.Nanopb.Types.{Field}
use answrapp.Nanopb.Iter.{
  FieldIter, Walk, returned, fault, stuck, field_at, iter_next, is_wanted, unless_home, find_loop,
  iter_find,
}
use answrapp.Nanopb.Iter.Step.{Descriptor, Wanted, around, own_field, next_lem}

-- What the search has looked at when it stands at `pos`, having begun at `home`.
abbrev Seen : ℕ → ℕ → ℕ → Type 0
Seen home pos i = ((home ≤ i) × (i < pos)) ⊎ ((pos < home) × ((home ≤ i) ⊎ (i < pos)))

-- How many of `n` fields are left to look at.
abbrev left_over : ℕ → ℕ → ℕ → ℕ
left_over n home pos = if ltb pos home then home - pos else n - pos + home

-- The result of a search: a wanted field, or none there is and the iterator is where it began.
abbrev pub Finds : ℕ → List Field → ℕ → ℕ → Walk → Type 0
Finds tag fs n home (returned true t) = (t.start ≡ fs) × (t.pos < n) × Wanted tag fs t.pos
Finds tag fs n home (returned false t) =
    (t.start ≡ fs) × (t.pos ≡ home) × ((i : ℕ) → i < n → Wanted tag fs i → ⊥)
Finds tag fs n home fault = ⊥
Finds tag fs n home stuck = ⊥

Seen-next :
    (n home pos i : ℕ)
    → pos < n
    → home < n
    → i < n
    → Seen home (around n pos) i
    → (around n pos ≢ home)
    → Seen home pos i ⊎ (i ≡ pos)
Seen-next n home pos i hp hh hi s ne = ground arith

Seen-all :
    (n home pos i : ℕ)
    → pos < n
    → home < n
    → i < n
    → around n pos ≡ home
    → Seen home pos i ⊎ (i ≡ pos)
Seen-all n home pos i hp hh hi e = ground arith

left_next :
    (n home pos fuel : ℕ)
    → pos < n
    → home < n
    → left_over n home pos ≤ suc fuel
    → around n pos ≢ home
    → left_over n home (around n pos) ≤ fuel
left_next n home pos fuel hp hh hl ne = ground arith

around_lt : (n pos : ℕ) → pos < n → around n pos < n
around_lt n pos h = ground arith

left_some : (n home pos : ℕ) → pos < n → 0 < left_over n home pos
left_some n home pos h = ground arith

unwanted :
    (tag pos : ℕ) (fs : List Field) (f : Field)
    → field_at fs pos ≡ some f
    → is_wanted tag f ≡ false
    → Wanted tag fs pos
    → ⊥
unwanted tag pos fs f e miss (g, eg, hit) =
    let same : some f ≡ some g = sym e ∙ eg in
    let test : is_wanted tag f ≡ is_wanted tag g =
      ap (λ (o : Option Field). elim o [ none ↦ false | some x ↦ is_wanted tag x ]) same in
    ground (arith, miss, hit, test)

module _ (own : List Field) (end : Field) (tagged : All (λ (f : Field). f.tag ≢ 0) own)
    (ended : end.tag ≡ 0) (tag home : ℕ) (inside : home < length own) where
  abbrev Goal : Walk → Type 0
  Goal = Finds tag (own ++ end ∷ []) (length own) home

  -- None of the fields seen so far is wanted.
  abbrev Clear : ℕ → Type 0
  Clear pos = (i : ℕ) → i < length own → Seen home pos i → Wanted tag (own ++ end ∷ []) i → ⊥

  Clear-at :
      (pos i : ℕ)
      → Clear pos
      → (Wanted tag (own ++ end ∷ []) pos → ⊥)
      → i < length own
      → Seen home pos i ⊎ (i ≡ pos)
      → Wanted tag (own ++ end ∷ []) i
      → ⊥
  Clear-at pos i clear miss hi (inl s) = clear i hi s
  Clear-at pos i clear miss hi (inr e) = rw e miss

  go_on :
      (fuel pos : ℕ) (iter : FieldIter) (r : Walk)
      → pos < length own
      → left_over (length own) home pos ≤ suc fuel
      → Clear pos
      → (Wanted tag (own ++ end ∷ []) pos → ⊥)
      → ((t : FieldIter)
          → t.start ≡ own ++ end ∷ []
          → t.pos < length own
          → left_over (length own) home t.pos ≤ fuel
          → Clear t.pos
          → Goal (find_loop fuel home tag t))
      → (b : Bool) × (t : FieldIter) × (r ≡ returned b t)
        × (t.start ≡ own ++ end ∷ [])
        × (t.pos ≡ around (length own) pos)
      → Goal (unless_home home (find_loop fuel home tag) r)
  go_on fuel pos iter r hp left clear miss more (b, t, er, es, ep) =
      let n = length own in
      elim (Bool-cases (t.pos == home)) [
        | inl back ↦
            let e : around n pos ≡ home = sym ep ∙ ground arith in
            rw (er, back)
              (
                es,
                ground arith,
                λ i hi. Clear-at pos i clear miss hi (Seen-all n home pos i hp inside hi e),
              )
        | inr on ↦
            let ne : around n pos ≢ home = rw (← ep) (ground arith) in
            rw (er, on)
              (more t es (rw ep (around_lt n pos hp))
                (rw ep (left_next n home pos fuel hp inside left ne))
                (λ i hi s.
                  Clear-at pos i clear miss hi
                    (Seen-next n home pos i hp inside hi (rw ep at s) ne)))
      ]

  find_loop-Finds :
      (fuel : ℕ) (iter : FieldIter)
      → iter.start ≡ own ++ end ∷ []
      → iter.pos < length own
      → left_over (length own) home iter.pos ≤ fuel
      → Clear iter.pos
      → Goal (find_loop fuel home tag iter)
  unfolding find_loop
  find_loop-Finds zero iter es hp left clear =
      absurd (omega (arith, left_some (length own) home iter.pos hp))
  find_loop-Finds (suc fuel) iter es hp left clear =
      let (f, ef, tf) = own_field own end iter.pos tagged hp in
      let here : field_at iter.start iter.pos ≡ some f = rw es ef in
      elim (Bool-cases (is_wanted tag f)) [
        | inl hit ↦ rw (here, hit) (es, hp, (f, ef, hit))
        | inr miss ↦
            rw (here, miss)
              (go_on fuel iter.pos iter (iter_next iter) hp left clear
                (unwanted tag iter.pos (own ++ end ∷ []) f ef miss) (find_loop-Finds fuel)
                (next_lem own end tagged ended iter es hp))
      ]

-- From any field of a descriptor `pb_field_iter_find` ends within the array: it returns true at a
-- field with the tag that is no extension, or false where it began, and then no field of the
-- descriptor is such a field.
pub iter_find_lem :
    (tag : ℕ) (iter : FieldIter) (d : Descriptor iter.start)
    → iter.pos < length d.own
    → Finds tag iter.start (length d.own) iter.pos (iter_find tag iter)
unfolding iter_find
iter_find_lem tag iter d h =
    subst
      (λ fs. Finds tag fs (length d.own) iter.pos (find_loop (length iter.start) iter.pos tag iter))
      (sym d.shape)
      (find_loop-Finds d.own d.end d.tagged d.ended tag iter.pos h (length iter.start) iter d.shape
        h enough (λ i hi s. absurd (ground arith)))
  where
    enough : left_over (length d.own) iter.pos iter.pos ≤ length iter.start
    enough = rw d.shape (ground (arith, length-append d.own (d.end ∷ [])))
