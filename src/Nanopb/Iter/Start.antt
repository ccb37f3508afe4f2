-- ===== src/Nanopb/Iter/Start.antt =====
-- The walks of pb_common.c stay on one descriptor, whatever it holds.
use answrapp.Common.{
  ℕ, zero, suc, ◌+◌, ◌<◌, ◌≡◌, refl, ◌∙◌, sym, ap, Bool, true, false, Option, none, some, List, [],
  ◌∷◌, arith, ◌==◌, if◌then◌else◌, length, All,
}
use mathlib.Core.Path.{subst}
use answrapp.Nanopb.Types.{Field}
use answrapp.Nanopb.Iter.{
  FieldIter, Walk, returned, field_at, iter_begin, iter_next, next_from, wrapped, advance,
}
use answrapp.Nanopb.Iter
use answrapp.Nanopb.Iter.Step.{advance_lem}

pub field_at-All {ℓ} :
    (P : Field → Type ℓ) (fields : List Field) (i : ℕ) {f : Field}
    → All P fields
    → field_at fields i ≡ some f
    → P f
unfolding field_at
field_at-All P [] i h e = absurd (cc)
field_at-All P (g ∷ fs) zero {f} h e = let same : g ≡ f = cc in subst P same h.0
field_at-All P (g ∷ fs) (suc i) h e = field_at-All P fs i h.1 e

-- The iterator stays on a descriptor.
pub record StartsAt (fields : List Field) (w : Walk) : Type 0 where
  pub kept : (b : Bool) (t : FieldIter) → w ≡ returned b t → t.start ≡ fields

fault-StartsAt : (fields : List Field) → StartsAt fields Iter.fault
fault-StartsAt fields = record { kept = λ b t e. cc }

returned-StartsAt :
    (fields : List Field) (b : Bool) (t : FieldIter)
    → t.start ≡ fields
    → StartsAt fields (returned b t)
returned-StartsAt fields b t h = record {
  kept = λ c u e. let same : u ≡ t = cc in ap (λ (x : FieldIter). x.start) same ∙ h;
}

if-StartsAt :
    {fields : List Field} {v w : Walk} (b : Bool)
    → StartsAt fields v
    → StartsAt fields w
    → StartsAt fields (if b then v else w)
if-StartsAt true hv hw = hv
if-StartsAt false hv hw = hw

pub iter_begin-StartsAt : (fields : List Field) (p : ℕ) → StartsAt fields (iter_begin fields p)
unfolding iter_begin field_at
iter_begin-StartsAt [] p = fault-StartsAt []
iter_begin-StartsAt (f ∷ fs) p = returned-StartsAt (f ∷ fs) _ _ refl

wrapped-StartsAt :
    (fields : List Field) (w : Walk) → StartsAt fields w → StartsAt fields (wrapped w)
wrapped-StartsAt fields (returned b t) h = returned-StartsAt fields false t (h.kept b t refl)
wrapped-StartsAt fields Iter.fault h = h
wrapped-StartsAt fields Iter.stuck h = record { kept = λ b t e. cc }

next_from-StartsAt :
    (o r : Option Field) (iter : FieldIter) → StartsAt iter.start (next_from o r iter)
next_from-StartsAt none r iter = fault-StartsAt iter.start
next_from-StartsAt (some f) none iter =
    if-StartsAt (f.tag == 0) (returned-StartsAt iter.start false iter refl)
      (fault-StartsAt iter.start)
next_from-StartsAt (some f) (some g) iter =
    if-StartsAt (f.tag == 0) (returned-StartsAt iter.start false iter refl) (
      if-StartsAt (g.tag == 0)
        (wrapped-StartsAt iter.start _ (iter_begin-StartsAt iter.start iter.dest_struct))
        (returned-StartsAt iter.start true (advance f g iter) (advance_lem f g iter).0))

pub iter_next-StartsAt : (iter : FieldIter) → StartsAt iter.start (iter_next iter)
unfolding iter_next
iter_next-StartsAt iter =
    next_from-StartsAt (field_at iter.start iter.pos) (field_at iter.start (iter.pos + 1)) iter

-- A step ends, and says that there is more only at an element further on.
pub record Advances (iter : FieldIter) (w : Walk) : Type 0 where
  pub further :
      (t : FieldIter)
      → w ≡ returned true t
      → (t.start ≡ iter.start) × (t.pos ≡ iter.pos + 1) × (t.pos < length iter.start)
  pub ends : w ≡ Iter.stuck → ⊥

none-Advances :
    (iter : FieldIter) (w : Walk)
    → ((t : FieldIter) → w ≡ returned true t → ⊥)
    → (w ≡ Iter.stuck → ⊥)
    → Advances iter w
none-Advances iter w h k = record { further = λ t e. absurd (h t e); ends = k }

if-Advances :
    {iter : FieldIter} {v w : Walk} (b : Bool)
    → Advances iter v
    → Advances iter w
    → Advances iter (if b then v else w)
if-Advances true hv hw = hv
if-Advances false hv hw = hw

wrapped-Ends : (w : Walk) (t : FieldIter) → wrapped w ≡ returned true t → ⊥
wrapped-Ends (returned b u) t e = cc
wrapped-Ends Iter.fault t e = cc
wrapped-Ends Iter.stuck t e = cc

pub iter_begin-ne-stuck : (fields : List Field) (p : ℕ) → iter_begin fields p ≡ Iter.stuck → ⊥
unfolding iter_begin field_at
iter_begin-ne-stuck [] p e = cc
iter_begin-ne-stuck (f ∷ fs) p e = cc

wrapped-ne-stuck : (w : Walk) → (w ≡ Iter.stuck → ⊥) → wrapped w ≡ Iter.stuck → ⊥
wrapped-ne-stuck (returned b u) h e = cc
wrapped-ne-stuck Iter.fault h e = cc
wrapped-ne-stuck Iter.stuck h e = h refl

field_at-bound : (fs : List Field) (i : ℕ) {f : Field} → field_at fs i ≡ some f → i < length fs
unfolding field_at
field_at-bound [] i e = cc
field_at-bound (g ∷ fs) zero e = omega arith
field_at-bound (g ∷ fs) (suc i) e = omega (arith, field_at-bound fs i e)

advance-Advances :
    (f g : Field) (iter : FieldIter)
    → iter.pos + 1 < length iter.start
    → Advances iter (returned true (advance f g iter))
advance-Advances f g iter h = record {
  further = λ t e.
      let same : t ≡ advance f g iter = cc in
      let (starts, stands) = advance_lem f g iter in
      let pos : t.pos ≡ iter.pos + 1 = ap (λ (x : FieldIter). x.pos) same ∙ stands in
      (ap (λ (x : FieldIter). x.start) same ∙ starts, pos, rw pos h);
  ends = λ e. cc;
}

next_from-Advances :
    (o r : Option Field) (iter : FieldIter)
    → r ≡ field_at iter.start (iter.pos + 1)
    → Advances iter (next_from o r iter)
next_from-Advances none r iter h = none-Advances iter _ (λ t e. cc) (λ e. cc)
next_from-Advances (some f) none iter h =
    if-Advances (f.tag == 0) (none-Advances iter _ (λ t e. cc) (λ e. cc))
      (none-Advances iter _ (λ t e. cc) (λ e. cc))
next_from-Advances (some f) (some g) iter h =
    if-Advances (f.tag == 0) (none-Advances iter _ (λ t e. cc) (λ e. cc)) (
      if-Advances (g.tag == 0)
        (none-Advances iter _ (wrapped-Ends _)
          (wrapped-ne-stuck _ (iter_begin-ne-stuck iter.start iter.dest_struct)))
        (advance-Advances f g iter (field_at-bound iter.start (iter.pos + 1) (sym h))))

pub iter_next-Advances : (iter : FieldIter) → Advances iter (iter_next iter)
unfolding iter_next
iter_next-Advances iter =
    next_from-Advances (field_at iter.start iter.pos) (field_at iter.start (iter.pos + 1)) iter refl

returned-same : {b c : Bool} {t u : FieldIter} → returned b t ≡ returned c u → u ≡ t
returned-same e = cc

-- The walk begins at the first element.
pub iter_begin-first :
    (fields : List Field) (p : ℕ) {b : Bool} {t : FieldIter}
    → iter_begin fields p ≡ returned b t
    → (t.start ≡ fields) × (t.pos ≡ 0) × (0 < length fields)
unfolding iter_begin field_at
iter_begin-first [] p e = cc
iter_begin-first (f ∷ fs) p e =
    let same = returned-same e in
    (ap (λ (x : FieldIter). x.start) same, ap (λ (x : FieldIter). x.pos) same, omega arith)
