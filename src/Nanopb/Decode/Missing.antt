-- ===== src/Nanopb/Decode/Missing.antt =====
-- `pb_decode_noinit` on an empty stream: the check of the required fields.
use answrapp.Common.{
  ℕ, zero, suc, ◌+◌, ◌%◌, ◌^◌, ◌≤◌, ◌<◌, ◌≡◌, ◌≢◌, refl, ◌∙◌, sym, ap, inl, inr, Bool, true, false,
  not, ◌&&◌, Bool-cases, some, List, [], ◌∷◌, ◌++◌, append_assoc, arith, ◌==◌, if◌then◌else◌,
  length, length-append, All,
}
use answrapp.Nanopb.Types.{Field, htype, missing_required}
use answrapp.Nanopb.Types.Htype
use answrapp.Nanopb.Iter.{
  FieldIter, returned, field_at, iter_begin, iter_next, is_same_union, advance, wrapped,
  size_address,
}
use answrapp.Nanopb.Iter.Step.{advance_lem}
use answrapp.Nanopb.Struct.{overwrite}
use answrapp.Nanopb.Decode.{
  Machine, Outcome, done, Step, ◌>>=◌, pure, raise, changing, walking, at_field, Context,
}
use answrapp.Nanopb.Decode
use answrapp.Nanopb.Decode.Loop.{fields_loop, decode_fields}
use answrapp.Nanopb.Decode.Messages.{decode_noinit_at, decode_noinit}
use answrapp.Nanopb.Decode.Required.{Ending, seek_end, required_count, all_seen, check_required}

-- The number of required fields.
pub required_fields : List Field → ℕ
required_fields [] = 0
required_fields (f ∷ fs) = (if htype f.type == Htype.required then 1 else 0) + required_fields fs

abbrev one_if_required : ℕ → ℕ
one_if_required type = if htype type == Htype.required then 1 else 0

at_middle :
    (pre : List Field) (f : Field) (tail : List Field)
    → field_at (pre ++ f ∷ tail) (length pre) ≡ some f
unfolding field_at
at_middle [] f tail = refl
at_middle (g ∷ pre) f tail = at_middle pre f tail

-- The index of a required field goes up by one.
advance-required_field_index :
    (f g : Field) (iter : FieldIter)
    → iter.required_field_index + 1 < 2 ^ 32
    → (advance f g iter).required_field_index ≡ iter.required_field_index + one_if_required f.type
advance-required_field_index f g iter h = elim (Bool-cases (is_same_union f g)) [
  | inl e ↦
      let other : (htype f.type == Htype.required) ≡ false = ground (arith, e) in
      rw (e, other) (omega arith)
  | inr e ↦ rw e (elim (Bool-cases (htype f.type == Htype.required)) [
    | inl r ↦ rw r (omega arith)
    | inr r ↦ rw r (omega arith)
  ])
]

-- What the walk to the end of a descriptor finds.
record Counted (fs : List Field) (count : ℕ) (e : Ending) : Type 0 where
  start : e.iter.start ≡ fs
  pos : e.iter.pos ≡ 0
  total : e.req_field_count + one_if_required e.last_type ≡ count

wrapped_begin :
    (fs pre : List Field) (f : Field) (tail : List Field) (a : ℕ)
    → fs ≡ pre ++ f ∷ tail
    → (t : FieldIter) × (wrapped (iter_begin fs a) ≡ returned false t)
      × (t.start ≡ fs)
      × (t.pos ≡ 0)
unfolding iter_begin field_at
wrapped_begin [] [] f tail a e = cc
wrapped_begin [] (g ∷ pre) f tail a e = cc
wrapped_begin (g ∷ gs) pre f tail a e = (_, refl, refl, refl)

behind_middle :
    (pre : List Field) (f x : Field) (tail : List Field)
    → field_at (pre ++ f ∷ (x ∷ tail)) (suc (length pre)) ≡ some x
unfolding field_at
behind_middle [] f x tail = refl
behind_middle (g ∷ pre) f x tail = behind_middle pre f x tail

neighbours :
    (pre : List Field) (f x : Field) (tail : List Field) (iter : FieldIter)
    → iter.start ≡ pre ++ f ∷ (x ∷ tail)
    → iter.pos ≡ length pre
    → (field_at iter.start iter.pos ≡ some f) × (field_at iter.start (iter.pos + 1) ≡ some x)
neighbours pre f x tail iter es ep = (
  ap (λ l. field_at l iter.pos) es
      ∙ ap (field_at (pre ++ f ∷ (x ∷ tail))) ep
      ∙ at_middle pre f (x ∷ tail),
  ap (λ l. field_at l (iter.pos + 1)) es
      ∙ ap (field_at (pre ++ f ∷ (x ∷ tail))) (omega arith)
      ∙ behind_middle pre f x tail,
)

one_if_required-le : (type : ℕ) → one_if_required type ≤ 1
one_if_required-le type = ground arith

seek_end-Counted :
    (fuel : ℕ) (pre : List Field) (f : Field) (gs : List Field) (end : Field) (iter : FieldIter)
    (s : Machine)
    → iter.start ≡ pre ++ f ∷ (gs ++ end ∷ [])
    → iter.pos ≡ length pre
    → All (λ (g : Field). g.tag ≢ 0) (f ∷ gs)
    → end.tag ≡ 0
    → length gs < fuel
    → iter.required_field_index + (length gs + 1) < 2 ^ 32
    → (e : Ending) × (seek_end fuel iter s ≡ done e s)
      × Counted iter.start (iter.required_field_index + required_fields (f ∷ gs)) e
unfolding seek_end iter_next required_fields
seek_end-Counted zero pre f gs end iter s es ep tagged ended enough small = absurd (omega arith)
seek_end-Counted (suc fuel) pre f [] end iter s es ep tagged ended enough small =
    let (here, next) = neighbours pre f end [] iter es ep in
    let tag : (f.tag == 0) ≡ false = ground (arith, tagged.0) in
    let tag_end : (end.tag == 0) ≡ true = rw ended refl in
    let (t, et, ts, tp) = wrapped_begin iter.start pre f (end ∷ []) iter.dest_struct es in
    (
      record { req_field_count = iter.required_field_index; last_type = f.type; iter = t },
      rw (here, next, tag, tag_end, et) refl,
      record { start = ts; pos = tp; total = omega arith },
    )
seek_end-Counted (suc fuel) pre f (g ∷ gs) end iter s es ep tagged ended enough small =
    let (here, next) = neighbours pre f g (gs ++ end ∷ []) iter es ep in
    let tag : (f.tag == 0) ≡ false = ground (arith, tagged.0) in
    let tag_next : (g.tag == 0) ≡ false = ground (arith, tagged.1.0) in
    let (starts, stands) = advance_lem f g iter in
    let index = advance-required_field_index f g iter (omega arith) in
    let (e, ee, c) =
      seek_end-Counted fuel (pre ++ f ∷ []) g gs end (advance f g iter) s
        (starts ∙ es ∙ sym (append_assoc pre (f ∷ []) (g ∷ (gs ++ end ∷ []))))
        (stands ∙ omega (arith, length-append pre (f ∷ []))) tagged.1 ended (omega arith)
        (omega (arith, index, one_if_required-le f.type)) in
    (
      e,
      rw (here, next, tag, tag_next) ee,
      record { start = c.start ∙ starts; pos = c.pos; total = c.total ∙ omega (arith, index) },
    )

-- Without a field that was seen, only a message without required fields passes.
all_below : ℕ → (ℕ → Bool) → Bool
all_below zero p = true
all_below (suc k) p = p k && all_below k p

all_below_sound : (k : ℕ) (p : ℕ → Bool) (x : ℕ) → all_below k p ≡ true → x < k → p x ≡ true
unfolding all_below
all_below_sound zero p x h lt = absurd (omega arith)
all_below_sound (suc k) p x h lt = ground (arith, all_below_sound k p x)

same : Bool → Bool → Bool
same true b = b
same false b = not b

same-eq : (a b : Bool) → same a b ≡ true → a ≡ b
unfolding same
same-eq true true h = refl
same-eq true false h = cc
same-eq false true h = cc
same-eq false false h = refl

all_seen_table : all_below 65 (λ count. same (all_seen count (0 ∷ 0 ∷ [])) (count == 0)) ≡ true
unfolding all_below same
all_seen_table = refl

all_seen-none : (count : ℕ) → count ≤ 64 → all_seen count (0 ∷ 0 ∷ []) ≡ (count == 0)
all_seen-none count h = same-eq (all_seen count (0 ∷ 0 ∷ [])) (count == 0) (
    all_below_sound 65 (λ c. same (all_seen c (0 ∷ 0 ∷ [])) (c == 0)) count all_seen_table
      (omega arith))

-- The count that is checked is 0 for no required field only, and at most 64.
required_count_lem :
    (e : Ending) (f : Field) (count : ℕ)
    → f.tag ≢ 0
    → count < 2 ^ 32
    → e.req_field_count + one_if_required e.last_type ≡ count
    → (required_count e f ≤ 64) × ((required_count e f == 0) ≡ (count == 0))
required_count_lem e f count tag small total =
    let tagged : (f.tag == 0) ≡ false = ground arith in
    elim (Bool-cases (htype e.last_type == Htype.required)) [
      | inl r ↦ rw (tagged, r) (ground (arith, rw r at total))
      | inr r ↦ rw (tagged, r) (ground (arith, rw r at total))
    ]

required_fields-le : (fs : List Field) → required_fields fs ≤ length fs
unfolding required_fields
required_fields-le [] = omega arith
required_fields-le (f ∷ fs) = ground (arith, required_fields-le fs)

check_required-none :
    (f : Field) (gs : List Field) (end : Field) (iter : FieldIter) (s : Machine)
    → iter.start ≡ f ∷ (gs ++ end ∷ [])
    → iter.pos ≡ 0
    → iter.required_field_index ≡ 0
    → All (λ (g : Field). g.tag ≢ 0) (f ∷ gs)
    → end.tag ≡ 0
    → length gs + 1 < 2 ^ 32
    → check_required iter (0 ∷ 0 ∷ []) s
      ≡ (if required_fields (f ∷ gs) == 0 then pure tt else raise missing_required) s
unfolding check_required
check_required-none f gs end iter s es ep er tagged ended small =
    let total = required_fields (f ∷ gs) in
    let size : length iter.start ≡ suc (length gs + 1) =
      ap length es ∙ omega (arith, length-append gs (end ∷ [])) in
    let (e, ee, c) =
      seek_end-Counted (length iter.start) [] f gs end iter s es ep tagged ended (omega arith)
        (omega arith) in
    let first : field_at e.iter.start e.iter.pos ≡ some f =
      ap (λ l. field_at l e.iter.pos) (c.start ∙ es)
      ∙ ap (field_at (f ∷ (gs ++ end ∷ []))) c.pos
      ∙ at_middle [] f (gs ++ end ∷ []) in
    let (low, zeros) =
      required_count_lem e f total tagged.0 (omega (arith, required_fields-le (f ∷ gs)))
        (omega (arith, c.total)) in
    ap (λ r. Decode.and_then r (check (0 ∷ 0 ∷ []))) ee
    ∙ ap (λ o. at_field o (λ field. verdict (all_seen (required_count e field) (0 ∷ 0 ∷ []))) s)
        first
    ∙ ap (λ b. verdict b s) (all_seen-none (required_count e f) low ∙ zeros)
  where
    verdict : Bool → Step (Unit {0})
    verdict b = if b then pure tt else raise missing_required

    check : List ℕ → Ending → Step (Unit {0})
    check seen e =
        at_field (field_at e.iter.start e.iter.pos)
          λ field. verdict (all_seen (required_count e field) seen)

-- The machine behind the initialization of the local variable.
abbrev pub begun : Context → Machine → Machine
begun ctx s = record {
  stream = s.stream;
  store = record {
    memory = overwrite (ctx.frame s.stream.bytes_left) 4 (λ i. 0) s.store.memory;
    freed = s.store.freed;
  };
}

-- On an empty stream `pb_decode_noinit` for a message of at least one and less than 2 ^ 32 fields
-- succeeds if none of them is required and fails with "missing required field" otherwise, and
-- stores nothing but the 0 of its local variable.
pub decode_noinit-empty :
    (ctx : Context) (f : Field) (gs : List Field) (end : Field) (dest_struct : ℕ) (s : Machine)
    → All (λ (g : Field). g.tag ≢ 0) (f ∷ gs)
    → end.tag ≡ 0
    → length gs + 1 < 2 ^ 32
    → s.stream.bytes_left ≡ 0
    → decode_noinit ctx (f ∷ (gs ++ end ∷ [])) dest_struct s
      ≡ (if required_fields (f ∷ gs) == 0 then pure tt else raise missing_required) (begun ctx s)
unfolding decode_noinit decode_noinit_at decode_fields fields_loop iter_begin field_at
decode_noinit-empty ctx f gs end dest_struct s tagged ended small empty =
    let is_empty : (s.stream.bytes_left == 0) ≡ true = ground arith in
    rw is_empty (
      check_required-none f gs end
        (record {
          start = f ∷ (gs ++ end ∷ []);
          pos = 0;
          required_field_index = 0;
          dest_struct = dest_struct;
          p_data = (dest_struct + f.data_offset) % 2 ^ 64;
          p_size = size_address ((dest_struct + f.data_offset) % 2 ^ 64) f;
        })
        (begun ctx s) refl refl refl tagged ended small)
