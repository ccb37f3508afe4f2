-- ===== src/Nanopb/Decode/Runs/Rounds.antt =====
-- A round of the loop of `pb_decode_noinit` ends, and leaves the iterator on the descriptor.
use answrapp.Common.{
  ℕ, suc, ◌-◌, ◌^◌, ◌<◌, ◌≡◌, ◌≢◌, refl, Bool, true, false, ◌&&◌, ◌||◌, Option, none, some, List,
  [], ◌∷◌, ◌++◌, arith, leb, ◌==◌, All,
}
use answrapp.Nanopb.Types.{
  Field, ltype, htype, atype, WireType, wrong_fixed_count, invalid_field_type, invalid_union_tag,
  iterator_error,
}
use answrapp.Nanopb.Types.Ltype
use answrapp.Nanopb.Types.Htype
use answrapp.Nanopb.Types.Atype
use answrapp.Nanopb.Scalar.{Tag, skip_field}
use answrapp.Nanopb.Scalar.Safety.{skip_field-IsSafe}
use answrapp.Nanopb.Scalar.Takes.{skip_field-Takes}
use answrapp.Nanopb.Memory.{load}
use answrapp.Nanopb.Iter.{FieldIter, returned, field_at, iter_find}
use answrapp.Nanopb.Message.Ends.Defaults.{Nests}
use answrapp.Nanopb.Decode.{reading, walking, Context, MessageDecoder}
use answrapp.Nanopb.Decode.Value
use answrapp.Nanopb.Decode.Static.{decode_static_field}
use answrapp.Nanopb.Decode.Pointer.{decode_pointer_field}
use answrapp.Nanopb.Decode.One.{release_old, release_union_field, decode_allocated, decode_field}
use answrapp.Nanopb.Decode.Extension.{find_extension_field}
use answrapp.Nanopb.Decode.Loop.{
  Progress, check_fixed_count, is_at, count_fixed, known_field, range_start, unknown_field,
  one_field,
}
use answrapp.Nanopb.Decode.Runs.{
  Runs, Anything, then-Runs, next-Runs, if-Runs, reading-Runs, raise-Runs, pure-Runs, loading-Runs,
  changing-Runs, walking-Runs, at_field-Runs,
}
use answrapp.Nanopb.Decode.Runs.Scalars.{write-Runs}
use answrapp.Nanopb.Decode.Runs.Values.{IsLayered, dec_value-Runs}
use answrapp.Nanopb.Decode.Runs.Fields.{static_field-Runs}
use answrapp.Nanopb.Decode.Runs.Pointers.{OnLayer, release-Ends, pointer_field-Runs}
use answrapp.Nanopb.Decode.Runs.Callbacks.{decode_callback_field-Runs}
use answrapp.Nanopb.Decode.Runs.Iterators.{Placed, iter_find-Places, find_extension_field-Places}

pub check_fixed_count-Runs :
    {n : ℕ} (frame : ℕ) (fields : List Field) (o : Option ℕ)
    → Runs n 0 Anything (check_fixed_count frame fields o)
check_fixed_count-Runs frame fields none = pure-Runs tt tt
check_fixed_count-Runs frame fields (some pos) = at_field-Runs (field_at fields pos) (λ field e.
    next-Runs (loading-Runs (λ mem. load mem 4 frame)) (λ k _.
      if-Runs (k == field.array_size) (λ e. pure-Runs tt tt) (λ e. raise-Runs wrong_fixed_count)))

-- A descriptor of the rank `r`.
pub record IsMessage (ctx : Context) (rank : ℕ → ℕ) (own : List Field) (end : Field) : Type 0 where
  pub tagged : All (λ (f : Field). f.tag ≢ 0) own
  pub ended : end.tag ≡ 0
  pub layer : (r : ℕ) × (r < ctx.nesting) × All (Nests rank r) (own ++ end ∷ [])

module _ {n : ℕ} (ctx : Context) (rank : ℕ → ℕ) (layered : IsLayered ctx rank)
    (decode decode_noinit : MessageDecoder)
    (full : (p a : ℕ) → Runs n 0 Anything (decode (ctx.descriptor p) a))
    (partial : (p a : ℕ) → Runs n 0 Anything (decode_noinit (ctx.descriptor p) a))
    (own : List Field) (end : Field) (message : IsMessage ctx rank own end) where
  abbrev At : FieldIter → Type 0
  At = Placed own end

  placed-OnLayer : (iter : FieldIter) → At iter → OnLayer ctx rank iter
  placed-OnLayer iter p = let (r, lt, nests) = message.layer in (r, lt, rw p.shape nests)

  value-Runs :
      (field : Field) (a : ℕ)
      → Runs (suc n) 1 Anything (Value.dec_value ctx decode decode_noinit field a)
  value-Runs field a =
      dec_value-Runs ctx decode decode_noinit a (λ p. full p a) (λ p. partial p a) field

  decode_allocated-Runs :
      (wire_type : WireType) (field : Field) (iter : FieldIter)
      → At iter
      → Runs (suc n) 0 Anything (decode_allocated ctx decode decode_noinit wire_type field iter)
  unfolding decode_allocated decode_static_field decode_pointer_field
  decode_allocated-Runs wire_type field iter p =
      let func = Value.dec_value ctx decode decode_noinit field in
      if-Runs (atype field.type == Atype.static)
        (λ e. static_field-Runs func field iter (value-Runs field) ctx rank wire_type layered)
        (λ e.
          if-Runs (atype field.type == Atype.pointer)
            (λ e.
              pointer_field-Runs ctx rank layered func field iter (value-Runs field) wire_type
                (placed-OnLayer iter p))
            (λ e.
              if-Runs (atype field.type == Atype.callback)
                (λ e. decode_callback_field-Runs ctx rank wire_type field iter layered)
                (λ e. raise-Runs invalid_field_type)))

  find-Runs :
      {k : ℕ} (tag : ℕ) (iter : FieldIter)
      → At iter
      → Runs k 0 (λ found. At found.1) (walking (iter_find tag iter))
  find-Runs tag iter p =
      let placed = iter_find-Places own end message.tagged message.ended tag iter p in
      walking-Runs (iter_find tag iter) placed.ends placed.places

  release_old-Runs :
      {k : ℕ} (old new : ℕ) (iter : FieldIter)
      → At iter
      → Runs k 0 At (release_old ctx old new iter)
  release_old-Runs old new iter p = next-Runs (find-Runs old iter p) (λ found pf.
      if-Runs found.0
        (λ e.
          then-Runs
            (changing-Runs (release-Ends ctx rank found.1 layered (placed-OnLayer found.1 pf)))
            (next-Runs (find-Runs new found.1 pf) (λ again pa.
              if-Runs again.0 (λ e. pure-Runs again.1 pa) (λ e. raise-Runs iterator_error))))
        (λ e. raise-Runs invalid_union_tag))

  release_union_field-Runs :
      {k : ℕ} (field : Field) (iter : FieldIter)
      → At iter
      → Runs k 0 At (release_union_field ctx field iter)
  unfolding release_union_field
  release_union_field-Runs field iter p =
      next-Runs (loading-Runs (λ mem. load mem 4 iter.p_size)) (λ old _.
        if-Runs (old == 0 || old == field.tag) (λ e. pure-Runs iter p)
          (λ e. release_old-Runs old field.tag iter p))

  pub decode_field-Runs :
      (wire_type : WireType) (iter : FieldIter)
      → At iter
      → Runs (suc n) 0 At (decode_field ctx decode decode_noinit wire_type iter)
  unfolding decode_field
  decode_field-Runs wire_type iter p = at_field-Runs (field_at iter.start iter.pos) (λ field e.
      next-Runs
        (if-Runs (htype field.type == Htype.oneof) (λ e. release_union_field-Runs field iter p)
          (λ e. pure-Runs iter p))
        (λ t pt. at_field-Runs (field_at t.start t.pos) (λ field' e'.
          then-Runs (decode_allocated-Runs wire_type field' t pt) (pure-Runs {P = At} t pt))))

  abbrev Stays : Progress → Type 0
  Stays p = At p.iter

  moved : (iter : FieldIter) (p_size : ℕ) → At iter → At (record iter { p_size = p_size })
  moved iter p_size p = record { shape = p.shape; inside = p.inside }

  count_fixed-Runs :
      {k : ℕ} (frame : ℕ) (field : Field) (p : Progress)
      → Stays p
      → Runs k 0 Stays (count_fixed frame field p)
  count_fixed-Runs frame field p h =
      if-Runs (htype field.type == Htype.repeated && p.iter.p_size == p.iter.p_data)
        (λ e.
          if-Runs (is_at p.fixed_count_field p.iter.pos) (λ e. pure-Runs _ (moved p.iter frame h))
            (λ e.
              then-Runs
                (then-Runs (check_fixed_count-Runs frame p.iter.start p.fixed_count_field)
                  (write-Runs frame 4 (λ i. 0)))
                (pure-Runs {P = Stays} _ (moved p.iter frame h))))
        (λ e. pure-Runs p h)

  known_field-Runs :
      (frame : ℕ) (wire_type : WireType) (p : Progress)
      → Stays p
      → Runs (suc n) 0 Stays (known_field ctx frame decode decode_noinit wire_type p)
  unfolding known_field
  known_field-Runs frame wire_type p h =
      at_field-Runs (field_at p.iter.start p.iter.pos) (λ field e.
        next-Runs (count_fixed-Runs frame field p h)
          (λ q hq. next-Runs (decode_field-Runs wire_type q.iter hq) (λ iter hi. pure-Runs _ hi)))

  skip-Runs : {k : ℕ} (wire_type : WireType) → Runs k 0 Anything (reading (skip_field wire_type))
  skip-Runs wire_type =
      reading-Runs 0 Anything (skip_field wire_type) (skip_field-IsSafe wire_type)
        (skip_field-Takes wire_type)

  extensions_plain : All (λ (f : Field). ltype f.type ≢ Ltype.extension) (own ++ end ∷ [])
  extensions_plain = let (r, lt, nests) = message.layer in firsts (own ++ end ∷ []) r nests
    where
      firsts :
          (fs : List Field) (r : ℕ)
          → All (Nests rank r) fs
          → All (λ (f : Field). ltype f.type ≢ Ltype.extension) fs
      firsts [] r h = tt
      firsts (f ∷ fs) r h = (h.0.0, firsts fs r h.1)

  -- The range of extensions begins behind every tag.
  searched-Runs :
      {k : ℕ} (iter : FieldIter)
      → At iter
      → Runs k 0 (λ found. At found.1 × (found.0 ≡ false)) (walking (find_extension_field iter))
  searched-Runs iter p =
      let (placed, misses) =
        find_extension_field-Places own end message.tagged message.ended extensions_plain iter p in
      walking-Runs (find_extension_field iter) placed.ends
        (λ b t e. (placed.places b t e, no_hit b t e (misses t)))
    where
      no_hit :
          (b : Bool) (t : FieldIter)
          → find_extension_field iter ≡ returned b t
          → (find_extension_field iter ≡ returned true t → ⊥)
          → b ≡ false
      no_hit true t e h = absurd (h e)
      no_hit false t e h = refl

  unknown_field-Runs :
      (tag : Tag) (p : Progress)
      → tag.tag < 2 ^ 29
      → Stays p
      → Runs (suc n) 0 Stays (unknown_field ctx decode decode_noinit tag p)
  unfolding unknown_field
  unknown_field-Runs tag p low h =
      if-Runs (leb p.extension_range_start tag.tag)
        (λ e. next-Runs (searched-Runs p.iter h) (λ found hf.
          next-Runs (range-Runs found hf.1) (λ start hs.
            then-Runs
              (if-Runs (leb start tag.tag) (λ e. absurd (ground arith))
                (λ e. skip-Runs tag.wire_type))
              (pure-Runs {P = Stays} _ hf.0))))
        (λ e. then-Runs (skip-Runs tag.wire_type) (pure-Runs {P = Stays} p h))
    where
      range-Runs :
          {k : ℕ} (found : Bool × FieldIter)
          → found.0 ≡ false
          → Runs k 0 (λ start. start ≡ 2 ^ 32 - 1) (range_start found)
      range-Runs found e = rw e (pure-Runs (2 ^ 32 - 1) refl)

  -- A round of the loop.
  pub one_field-Runs :
      (frame : ℕ) (p : Progress) (tag : Tag)
      → tag.tag < 2 ^ 29
      → Stays p
      → Runs (suc n) 0 Stays (one_field ctx frame decode decode_noinit p tag)
  unfolding one_field
  one_field-Runs frame p tag low h = next-Runs (find-Runs tag.tag p.iter h) (λ found hf.
      if-Runs found.0 (λ e. known_field-Runs frame tag.wire_type (record p { iter = found.1 }) hf)
        (λ e. unknown_field-Runs tag (record p { iter = found.1 }) low hf))
