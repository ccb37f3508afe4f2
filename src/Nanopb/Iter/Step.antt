-- ===== src/Nanopb/Iter/Step.antt =====
-- `pb_field_iter_next` on a descriptor.
use answrapp.Common.{
  ℕ, zero, suc, ◌+◌, ◌<◌, ◌≡◌, ◌≢◌, refl, ◌∙◌, ap, inl, inr, Bool, true, false, Bool-cases, some,
  List, [], ◌∷◌, ◌++◌, arith, ltb, ◌==◌, if◌then◌else◌, length, All,
}
use answrapp.Nanopb.Types.{Field}
use answrapp.Nanopb.Iter.{
  FieldIter, Walk, returned, field_at, iter_begin, begin_at, is_same_union, advance, wrapped,
  iter_next, is_wanted,
}

-- A descriptor: fields with a tag, and the terminator.
pub record Descriptor (fields : List Field) : Type 0 where
  pub own : List Field
  pub end : Field
  pub shape : fields ≡ own ++ end ∷ []
  pub tagged : All (λ (f : Field). f.tag ≢ 0) own
  pub ended : end.tag ≡ 0

pub own_field :
    (own : List Field) (end : Field) (i : ℕ)
    → All (λ (f : Field). f.tag ≢ 0) own
    → i < length own
    → (f : Field) × (field_at (own ++ end ∷ []) i ≡ some f) × (f.tag ≢ 0)
unfolding field_at
own_field [] end i h lt = absurd (omega arith)
own_field (f ∷ fs) end zero h lt = (f, refl, h.0)
own_field (f ∷ fs) end (suc i) h lt = own_field fs end i h.1 (omega arith)

end_field : (own : List Field) (end : Field) → field_at (own ++ end ∷ []) (length own) ≡ some end
unfolding field_at
end_field [] end = refl
end_field (f ∷ fs) end = end_field fs end

-- The index behind `i` on the way around `n` fields.
abbrev pub around : ℕ → ℕ → ℕ
around n i = if ltb (i + 1) n then i + 1 else 0

-- A field that `pb_field_iter_find` looks for.
abbrev pub Wanted : ℕ → List Field → ℕ → Type 0
Wanted tag fields i = (f : Field) × (field_at fields i ≡ some f) × (is_wanted tag f ≡ true)

pub advance_lem :
    (f g : Field) (iter : FieldIter)
    → ((advance f g iter).start ≡ iter.start) × ((advance f g iter).pos ≡ iter.pos + 1)
advance_lem f g iter = elim (Bool-cases (is_same_union f g)) [
  | inl e ↦ rw e (refl, refl)
  | inr e ↦ rw e (refl, refl)
]

module _ (own : List Field) (end : Field) (tagged : All (λ (f : Field). f.tag ≢ 0) own)
    (ended : end.tag ≡ 0) where
  abbrev pub fields : List Field
  fields = own ++ end ∷ []

  -- What a step to the next field does.
  abbrev pub Steps : FieldIter → Walk → Type 0
  Steps iter r =
      (b : Bool) × (t : FieldIter) × (r ≡ returned b t)
      × (t.start ≡ fields)
      × (t.pos ≡ around (length own) iter.pos)

  begin_lem :
      (dest : ℕ)
      → 0 < length own
      → (b : Bool) × (t : FieldIter) × (iter_begin fields dest ≡ returned b t)
        × (t.start ≡ fields)
        × (t.pos ≡ 0)
  unfolding iter_begin
  begin_lem dest h =
      let (f, e, t) = own_field own end 0 tagged h in
      (_, _, ap (λ o. begin_at o fields dest) e, refl, refl)

  pub next_lem :
      (iter : FieldIter) → iter.start ≡ fields → iter.pos < length own → Steps iter (iter_next iter)
  unfolding iter_next
  next_lem iter es h =
      let (f, ef, tf) = own_field own end iter.pos tagged h in
      let no_end : (f.tag == 0) ≡ false = ground arith in
      elim (Bool-cases (ltb (iter.pos + 1) (length own))) [
        | inl inner ↦
            let (g, eg, tg) = own_field own end (iter.pos + 1) tagged (ground arith) in
            let no_end' : (g.tag == 0) ≡ false = ground arith in
            let (s, p) = advance_lem f g iter in
            (
              true,
              advance f g iter,
              rw (es, ef, eg, no_end, no_end') refl,
              s ∙ es,
              p ∙ rw inner refl,
            )
        | inr last ↦
            let place : iter.pos + 1 ≡ length own = ground arith in
            let at_end : (end.tag == 0) ≡ true = ground arith in
            let (b, t, e, s, p) = begin_lem iter.dest_struct (omega arith) in
            (
              false,
              t,
              rw (es, ef, place, end_field own end, no_end, at_end) (ap wrapped e),
              s,
              p ∙ rw last refl,
            )
      ]
