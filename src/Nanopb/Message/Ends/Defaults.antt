-- ===== src/Nanopb/Message/Ends/Defaults.antt =====
-- `pb_check_proto3_default_value` on submessages that are nested in a finite order.
use answrapp.Common.{
  ℕ, zero, suc, ◌+◌, ◌≤◌, ◌<◌, ◌≡◌, ◌≢◌, refl, inl, inr, Bool, true, false, not, ◌&&◌, Bool-cases,
  Option, none, some, List, arith, ltb, ◌==◌, ==_iff, if◌then◌else◌, length, All,
}
use answrapp.Nanopb.Types.{Field, ltype, htype, atype}
use answrapp.Nanopb.Types.Atype
use answrapp.Nanopb.Types.Htype
use answrapp.Nanopb.Types.Ltype
use answrapp.Nanopb.Iter.{FieldIter, Walk, returned, field_at, size_address, iter_begin, iter_next}
use answrapp.Nanopb.Iter
use answrapp.Nanopb.Iter.Start.{
  field_at-All, iter_begin-first, iter_begin-ne-stuck, iter_next-Advances,
}
use answrapp.Nanopb.Message.{Context, MessageEncoder, Answer, answer}
use answrapp.Nanopb.Message
use answrapp.Nanopb.Message.Proto3.{
  after_next, and_also, check_at, all_default, all_from, plain_is_default, is_proto3_default,
}
use answrapp.Nanopb.Message.Ends.{Ends}

-- A field that is no extension, and whose submessage has a rank below `r`.
abbrev pub Nests : (ℕ → ℕ) → ℕ → Field → Type 0
Nests rank r f =
    (ltype f.type ≢ Ltype.extension)
    × ((q : ℕ) → f.ptr ≡ some q → ltype f.type ≡ Ltype.submessage → rank q < r)

-- Descriptors that are nested in a finite order, without extensions, and callbacks that end.
pub record IsLayered (ctx : Context) (rank : ℕ → ℕ) : Type 0 where
  pub nested : (p : ℕ) → All (Nests rank (rank p)) (ctx.descriptor p)
  pub callbacks : (e : ℕ) (f : Field) (a : ℕ) → Ends (ctx.callback e f a)

pub record Decides (a : Answer) : Type 0 where
  pub decides : a ≡ Message.stuck → ⊥

answer-Decides : (b : Bool) → Decides (answer b)
answer-Decides b = record { decides = λ e. cc }

fault-Decides : Decides Message.fault
fault-Decides = record { decides = λ e. cc }

if-Decides : {a c : Answer} (b : Bool) → Decides a → Decides c → Decides (if b then a else c)
if-Decides true ha hc = ha
if-Decides false ha hc = hc

and_also-Decides : (a : Answer) {c : Answer} → Decides a → Decides c → Decides (and_also a c)
and_also-Decides (answer b) ha hc = if-Decides b hc (answer-Decides false)
and_also-Decides Message.fault ha hc = fault-Decides
and_also-Decides Message.stuck ha hc = ha

check_at-Decides :
    (o : Option Field) {check : Field → Answer}
    → ((f : Field) → o ≡ some f → Decides (check f))
    → Decides (check_at o check)
check_at-Decides none h = fault-Decides
check_at-Decides (some f) h = h f refl

after_next-Decides :
    (w : Walk) {k : FieldIter → Answer}
    → (w ≡ Iter.stuck → ⊥)
    → ((t : FieldIter) → w ≡ returned true t → Decides (k t))
    → Decides (after_next w k)
after_next-Decides (returned true t) h hk = hk t refl
after_next-Decides (returned false t) h hk = answer-Decides true
after_next-Decides Iter.fault h hk = fault-Decides
after_next-Decides Iter.stuck h hk = absurd (h refl)

module _ {check : Field → ℕ → Answer} {P : Field → Type 0}
    (each : (f : Field) (p : ℕ) → P f → Decides (check f p)) where
  all_default-Decides :
      (rounds : ℕ) (iter : FieldIter)
      → All P iter.start
      → iter.pos < length iter.start
      → length iter.start ≤ rounds + iter.pos
      → Decides (all_default check rounds iter)
  unfolding all_default
  all_default-Decides zero iter h lt enough = absurd (omega arith)
  all_default-Decides (suc rounds) iter h lt enough =
      and_also-Decides _
        (check_at-Decides (field_at iter.start iter.pos)
          (λ f e. each f iter.p_data (field_at-All P iter.start iter.pos h e)))
        (after_next-Decides (iter_next iter) (iter_next-Advances iter).ends (λ t e.
          let (start, pos, room) = (iter_next-Advances iter).further t e in
          all_default-Decides rounds t (rw start h) (rw start room) (rw start (omega arith))))

  all_from-Decides :
      (w : Walk) (fields : List Field)
      → All P fields
      → (w ≡ Iter.stuck → ⊥)
      → ((b : Bool) (t : FieldIter)
          → w ≡ returned b t
          → (t.start ≡ fields) × (t.pos ≡ 0) × (0 < length fields))
      → Decides (all_from check w)
  all_from-Decides (returned b t) fields h ends first =
      let (start, pos, some_field) = first b t refl in
      if-Decides b
        (all_default-Decides (length t.start) t (rw start h) (rw (start, pos) some_field)
          (omega arith))
        (answer-Decides true)
  all_from-Decides Iter.fault fields h ends first = fault-Decides
  all_from-Decides Iter.stuck fields h ends first = absurd (ends refl)

module _ (ctx : Context) (rank : ℕ → ℕ) (layered : IsLayered ctx rank) where
  submessage-Decides :
      {check : Field → ℕ → Answer} (r : ℕ)
      → ((q : ℕ) (f : Field) (p : ℕ) → rank q < r → Nests rank (rank q) f → Decides (check f p))
      → (field : Field) (o : Option ℕ) (p : ℕ) → ((q : ℕ) → o ≡ some q → rank q < r)
      → Decides (elim o [
        | none ↦ Message.fault
        | some fields ↦ all_from check (iter_begin (ctx.descriptor fields) p)
      ])
  submessage-Decides r each field none p h = fault-Decides
  submessage-Decides r each field (some q) p h =
      all_from-Decides (λ f a. each q f a (h q refl)) (iter_begin (ctx.descriptor q) p)
        (ctx.descriptor q) (layered.nested q) (iter_begin-ne-stuck (ctx.descriptor q) p)
        (λ b t e. iter_begin-first (ctx.descriptor q) p e)

  plain-Decides : (field : Field) (p : ℕ) → Decides (plain_is_default ctx field p)
  plain-Decides field p =
      if-Decides (atype field.type == Atype.pointer && ltb Ltype.last_packable (ltype field.type))
        (answer-Decides _) (answer-Decides _)

  -- With more depth than ranks below.
  pub is_proto3_default-Decides :
      (depth r : ℕ) (field : Field) (p : ℕ)
      → r < depth
      → Nests rank r field
      → Decides (is_proto3_default ctx depth field p)
  unfolding is_proto3_default
  is_proto3_default-Decides zero r field p lt nests = absurd (omega arith)
  is_proto3_default-Decides (suc depth) r field p lt nests =
      let h = htype field.type in
      let l = ltype field.type in
      let each : (q : ℕ) (f : Field) (a : ℕ)
          → rank q < r
          → Nests rank (rank q) f
          → Decides (is_proto3_default ctx depth f a) =
        λ q f a below inner. is_proto3_default-Decides depth (rank q) f a (omega arith) inner in
      if-Decides (h == Htype.required) (answer-Decides _) (
        if-Decides (h == Htype.repeated && not (field.size_offset == 0)) (answer-Decides _) (
          if-Decides (h == Htype.repeated && atype field.type == Atype.static) (answer-Decides _) (
            if-Decides (h == Htype.oneof) (answer-Decides _) (
              if-Decides (h == Htype.optional && not (field.size_offset == 0)) (answer-Decides _) (
                if-Decides (not (atype field.type == Atype.static)) (plain-Decides field p) (
                  if-Decides (l == Ltype.bytes) (answer-Decides _) (
                    if-Decides (l == Ltype.string) (answer-Decides _) (
                      if-Decides (l == Ltype.fixed_length_bytes) (answer-Decides _)
                        (elim (Bool-cases (l == Ltype.submessage)) [
                          | inl a ↦ rw a (
                              submessage-Decides r each field field.ptr p
                                (λ q e. nests.1 q e ((==_iff l Ltype.submessage).0 a)))
                          | inr a ↦ rw a (plain-Decides field p)
                        ])))))))))
