-- ===== src/Nanopb/Decode/Runs/Iterators.antt =====
-- Where the iterator of the decoder stands: at a field of the descriptor, or at the terminator of a
-- message without fields.
use answrapp.Common.{
  ℕ, zero, suc, ◌+◌, ◌<◌, ◌≡◌, ◌≢◌, refl, ◌∙◌, sym, ap, ◌⊎◌, inl, inr, Bool, true, false,
  Bool-cases, Option, none, some, List, [], ◌∷◌, ◌++◌, arith, ◌==◌, if◌then◌else◌, length,
  length-append, All,
}
use mathlib.Core.Path.{subst}
use answrapp.Nanopb.Types.{Field, ltype}
use answrapp.Nanopb.Types.Ltype
use answrapp.Nanopb.Iter.{
  FieldIter, Walk, returned, fault, stuck, field_at, iter_next, is_wanted, look, unless_home,
  find_loop, iter_find,
}
use answrapp.Nanopb.Iter.Start.{StartsAt, field_at-All, iter_next-StartsAt}
use answrapp.Nanopb.Iter.Search.{Finds, iter_find_lem}
use answrapp.Nanopb.Decode.Extension.{seek, find_extension_loop, find_extension_field}

pub record Placed (own : List Field) (end : Field) (iter : FieldIter) : Type 0 where
  pub shape : iter.start ≡ own ++ end ∷ []
  pub inside : (iter.pos < length own) ⊎ ((length own ≡ 0) × (iter.pos ≡ 0))

-- A search that ends, and leaves the iterator in place.
pub record Places (own : List Field) (end : Field) (w : Walk) : Type 0 where
  pub ends : w ≡ stuck → ⊥
  pub places : (b : Bool) (t : FieldIter) → w ≡ returned b t → Placed own end t

returned-Places :
    {own : List Field} {end : Field} {t : FieldIter} (b : Bool)
    → Placed own end t
    → Places own end (returned b t)
returned-Places {own} {end} {t} b h = record {
  ends = λ e. cc;
  places = λ c u e. let same : t ≡ u = cc in subst (Placed own end) same h;
}

Finds-Places :
    (tag home : ℕ) (fs own : List Field) (end : Field) (w : Walk)
    → fs ≡ own ++ end ∷ []
    → home < length own
    → Finds tag fs (length own) home w
    → Places own end w
Finds-Places tag home fs own end (returned true t) e lt h =
    returned-Places true (record { shape = h.0 ∙ e; inside = inl h.1 })
Finds-Places tag home fs own end (returned false t) e lt h =
    returned-Places false (record { shape = h.0 ∙ e; inside = inl (rw h.1 lt) })
Finds-Places tag home fs own end fault e lt h = absurd h
Finds-Places tag home fs own end stuck e lt h = absurd h

-- A message without fields.
empty-Places :
    (tag : ℕ) (end : Field) (iter : FieldIter)
    → end.tag ≡ 0
    → iter.start ≡ end ∷ []
    → iter.pos ≡ 0
    → Places [] end (iter_find tag iter)
unfolding iter_find find_loop iter_next field_at
empty-Places tag end iter ended es ep =
    let at_end : (end.tag == 0) ≡ true = rw ended refl in
    elim (Bool-cases (is_wanted tag end)) [
      | inl hit ↦ rw (es, ep, hit) (returned-Places true here)
      | inr miss ↦ rw (es, ep, miss, at_end) (returned-Places false here)
    ]
  where
    here :
        {r d a b : ℕ}
        → Placed [] end (record {
          start = end ∷ [];
          pos = 0;
          required_field_index = r;
          dest_struct = d;
          p_data = a;
          p_size = b;
        })
    here = record { shape = refl; inside = inr (refl, refl) }

module _ (own : List Field) (end : Field) (tagged : All (λ (f : Field). f.tag ≢ 0) own)
    (ended : end.tag ≡ 0) where
  pub iter_find-Places :
      (tag : ℕ) (iter : FieldIter) → Placed own end iter → Places own end (iter_find tag iter)
  iter_find-Places tag iter p = elim p.inside [
    | inl lt ↦ Finds-Places tag iter.pos iter.start own end (iter_find tag iter) p.shape lt (
        iter_find_lem tag iter
          (record { own = own; end = end; shape = p.shape; tagged = tagged; ended = ended }) lt)
    | inr (e, ep) ↦ none own tagged p.shape e ep
  ]
    where
      none :
          (own : List Field)
          → All (λ (f : Field). f.tag ≢ 0) own
          → iter.start ≡ own ++ end ∷ []
          → length own ≡ 0
          → iter.pos ≡ 0
          → Places own end (iter_find tag iter)
      none [] t es e ep = empty-Places tag end iter ended es ep
      none (f ∷ fs) t es e ep = absurd (omega arith)

-- A tag that no field of the descriptor has.
tag_sum : List Field → ℕ
tag_sum [] = 0
tag_sum (f ∷ fs) = f.tag + tag_sum fs

All-tag_sum : (fs : List Field) (t : ℕ) → tag_sum fs < t → All (λ (f : Field). f.tag < t) fs
unfolding tag_sum
All-tag_sum [] t h = tt
All-tag_sum (f ∷ fs) t h = (omega arith, All-tag_sum fs t (omega arith))

-- A search for it, and a search for extensions where there are none, do the same.
module _ (tag : ℕ) (fs : List Field) (tags : All (λ (f : Field). f.tag < tag) fs)
    (plain : All (λ (f : Field). ltype f.type ≢ Ltype.extension) fs) where
  round_agrees :
      (o : Option Field) (iter : FieldIter) (w v : Walk)
      → field_at fs iter.pos ≡ o
      → v ≡ w
      → seek o iter v ≡ look o tag iter w
  round_agrees none iter w v e h = refl
  round_agrees (some f) iter w v e h =
      let low = field_at-All (λ (g : Field). g.tag < tag) fs iter.pos tags e in
      let other =
        field_at-All (λ (g : Field). ltype g.type ≢ Ltype.extension) fs iter.pos plain e in
      let no_hit : is_wanted tag f ≡ false = ground (arith, low) in
      let no_extension : (ltype f.type == Ltype.extension) ≡ false = ground (arith, other) in
      rw (no_hit, no_extension) h

  unless_home_agrees :
      (home : ℕ) (w : Walk) (f g : FieldIter → Walk)
      → StartsAt fs w
      → ((t : FieldIter) → t.start ≡ fs → f t ≡ g t)
      → unless_home home f w ≡ unless_home home g w
  unless_home_agrees home (returned b t) f g h e =
      ap (λ (w : Walk). if t.pos == home then returned false t else w) (e t (h.kept b t refl))
  unless_home_agrees home fault f g h e = refl
  unless_home_agrees home stuck f g h e = refl

  loops_agree :
      (fuel home : ℕ) (iter : FieldIter)
      → iter.start ≡ fs
      → find_extension_loop fuel home iter ≡ find_loop fuel home tag iter
  unfolding find_extension_loop find_loop
  loops_agree zero home iter es = refl
  loops_agree (suc fuel) home iter es =
      round_agrees (field_at iter.start iter.pos) iter _ _ (ap (λ l. field_at l iter.pos) (sym es))
        (unless_home_agrees home (iter_next iter) (find_extension_loop fuel home)
          (find_loop fuel home tag)
          (subst (λ l. StartsAt l (iter_next iter)) es (iter_next-StartsAt iter))
          (loops_agree fuel home))

  -- The search for extensions never returns true.
  seek_misses :
      (o : Option Field) (iter t : FieldIter) (v : Walk)
      → field_at fs iter.pos ≡ o
      → (v ≡ returned true t → ⊥)
      → seek o iter v ≡ returned true t
      → ⊥
  seek_misses none iter t v e h k = cc
  seek_misses (some f) iter t v e h k =
      let other =
        field_at-All (λ (g : Field). ltype g.type ≢ Ltype.extension) fs iter.pos plain e in
      let no_extension : (ltype f.type == Ltype.extension) ≡ false = ground (arith, other) in
      let k' = rw no_extension at k in h k'

  home_misses :
      (home : ℕ) (w : Walk) (f : FieldIter → Walk) (t : FieldIter)
      → StartsAt fs w
      → ((u : FieldIter) → u.start ≡ fs → f u ≡ returned true t → ⊥)
      → unless_home home f w ≡ returned true t
      → ⊥
  home_misses home (returned b u) f t h g k = elim (Bool-cases (u.pos == home)) [
    | inl e ↦ let k' = rw e at k in false_true (ap (λ w. succeeded w) k')
    | inr e ↦ let k' = rw e at k in g u (h.kept b u refl) k'
  ]
    where
      succeeded : Walk → Bool
      succeeded (returned c u) = c
      succeeded fault = true
      succeeded stuck = true

      false_true : false ≡ true → ⊥
      false_true e = cc
  home_misses home fault f t h g k = cc
  home_misses home stuck f t h g k = cc

  loop_misses :
      (fuel home : ℕ) (iter t : FieldIter)
      → iter.start ≡ fs
      → find_extension_loop fuel home iter ≡ returned true t
      → ⊥
  unfolding find_extension_loop
  loop_misses zero home iter t es k = cc
  loop_misses (suc fuel) home iter t es k =
      seek_misses (field_at iter.start iter.pos) iter t _ (ap (λ l. field_at l iter.pos) (sym es))
        (home_misses home (iter_next iter) (find_extension_loop fuel home) t
          (subst (λ l. StartsAt l (iter_next iter)) es (iter_next-StartsAt iter))
          (λ u eu. loop_misses fuel home u t eu))
        k

module _ (own : List Field) (end : Field) (tagged : All (λ (f : Field). f.tag ≢ 0) own)
    (ended : end.tag ≡ 0)
    (plain : All (λ (f : Field). ltype f.type ≢ Ltype.extension) (own ++ end ∷ [])) where
  -- In a message without extensions `find_extension_field` ends, and returns false.
  pub find_extension_field-Places :
      (iter : FieldIter)
      → Placed own end iter
      → Places own end (find_extension_field iter)
        × ((t : FieldIter) → find_extension_field iter ≡ returned true t → ⊥)
  unfolding find_extension_field iter_find
  find_extension_field-Places iter p =
      let fs = own ++ end ∷ [] in
      let tag = suc (tag_sum fs) in
      (
        subst (Places own end)
            (sym (
              loops_agree tag fs (All-tag_sum fs tag (omega arith)) plain (length iter.start)
                iter.pos iter p.shape))
            (iter_find-Places own end tagged ended tag iter p),
        λ t.
            loop_misses tag fs (All-tag_sum fs tag (omega arith)) plain (length iter.start) iter.pos
              iter t p.shape,
      )

pub Placed-bound :
    {own : List Field} {end : Field} {iter : FieldIter}
    → Placed own end iter
    → iter.pos < length iter.start
Placed-bound {own} {end} {iter} p =
    let size : length iter.start ≡ length own + 1 =
      ap length p.shape ∙ length-append own (end ∷ []) in
    elim p.inside [ inl lt ↦ omega (arith, size) | inr (e, ep) ↦ omega (arith, size) ]
