-- ===== src/Nanopb/Struct/Ends/Messages.antt =====
-- The defaults and the release of messages that are nested in a finite order, without extensions, as
-- `Nests` says: the fuel is enough.
use answrapp.Common.{
  ℕ, zero, suc, ◌<◌, ◌≡◌, refl, inl, inr, false, not, ◌&&◌, ◌||◌, Bool-cases, Option, none, some,
  List, arith, ◌==◌, ==_iff, if◌then◌else◌, All,
}
use answrapp.Nanopb.Types.{Field, ltype, htype, atype}
use answrapp.Nanopb.Types.Ltype
use answrapp.Nanopb.Types.Htype
use answrapp.Nanopb.Types.Atype
use answrapp.Nanopb.Iter.{FieldIter, field_at}
use answrapp.Nanopb.Message.Ends.Defaults.{Nests}
use answrapp.Nanopb.Memory.{load, load_pointer, shifted}
use answrapp.Nanopb.Struct.{fault, Action, write_zero, copy_bytes}
use answrapp.Nanopb.Struct.Fields.{Descriptors, each_field_of}
use answrapp.Nanopb.Struct.Defaults.{
  init_data, is_counted, default_field, field_set_to_default, message_set_to_defaults,
}
use answrapp.Nanopb.Struct.Release.{
  release_items, release_submessages, item_count, release_entries, release_pointer,
  release_contents, release_field, release_single_field, release, unless_null,
}
use answrapp.Nanopb.Struct.Ends.{
  Ends, skip-Ends, fault-Ends, then-Ends, if-Ends, chosen-Ends, plain-Ends, zero-Ends, free_at-Ends,
  Stands, each_field_of-Ends,
}

module _ (descriptor : Descriptors) (rank : ℕ → ℕ)
    (nested : (p : ℕ) → All (Nests rank (rank p)) (descriptor p)) where
  module _ (message : List Field → ℕ → Action) (field : Field) (r : ℕ) (nests : Nests rank r field)
      (sub : (q a : ℕ) → rank q < r → Ends (message (descriptor q) a)) where
    submessage-Ends :
        (o : Option ℕ) (a : ℕ)
        → field.ptr ≡ o
        → ltype field.type ≡ Ltype.submessage
        → Ends (elim o [ none ↦ (λ s. fault) | some fields ↦ message (descriptor fields) a ])
    submessage-Ends none a e h = fault-Ends
    submessage-Ends (some q) a e h = sub q a (nests.1 q e h)

    default_value-Ends :
        (o : Option ℕ) (p size : ℕ)
        → Ends (elim o [ none ↦ write_zero p size | some source ↦ copy_bytes p source size ])
    default_value-Ends none p size = plain-Ends _
    default_value-Ends (some source) p size = plain-Ends _

    init_data-Ends : (p : ℕ) → Ends (init_data descriptor message field p)
    init_data-Ends p = elim (Bool-cases (ltype field.type == Ltype.submessage)) [
      | inl a ↦
          rw a (submessage-Ends field.ptr p refl ((==_iff (ltype field.type) Ltype.submessage).0 a))
      | inr a ↦ rw a (default_value-Ends field.ptr p field.data_size)
    ]

    default_field-Ends :
        (one : FieldIter → Action) (fuel : ℕ) (iter : FieldIter)
        → Ends (default_field descriptor one message fuel (some field) iter)
    default_field-Ends one fuel iter =
        let plain : (ltype field.type == Ltype.extension) ≡ false = ground (arith, nests.0) in
        rw plain (
          if-Ends (atype field.type == Atype.static)
            (if-Ends (htype field.type == Htype.optional && not (iter.p_size == iter.p_data))
              (then-Ends (plain-Ends _) (init_data-Ends iter.p_data))
              (if-Ends (is_counted field) (plain-Ends _) (init_data-Ends iter.p_data)))
            (if-Ends (atype field.type == Atype.pointer)
              (then-Ends (plain-Ends _) (if-Ends (is_counted field) (plain-Ends _) skip-Ends))
              skip-Ends))

    items-Ends :
        {one : ℕ → Action}
        → ((a : ℕ) → Ends (one a))
        → (size count p : ℕ) → Ends (release_items one size count p)
    unfolding release_items
    items-Ends h size zero p = skip-Ends
    items-Ends h size (suc count) p = then-Ends (h p) (items-Ends h size count (shifted p size))

    entries-Ends : (count p : ℕ) → Ends (release_entries count p)
    unfolding release_entries
    entries-Ends zero p = skip-Ends
    entries-Ends (suc count) p =
        if-Ends (p == 0) fault-Ends (
          then-Ends (then-Ends (free_at-Ends p) (zero-Ends p 8)) (entries-Ends count (shifted p 8)))

    submessages-Ends :
        (iter : FieldIter)
        → ltype field.type ≡ Ltype.submessage
        → Ends (release_submessages descriptor message field iter)
    submessages-Ends iter h = chosen-Ends _ (λ s.
        let item =
          if atype field.type == Atype.pointer
          then load_pointer s.memory iter.p_data
          else iter.p_data in
        if-Ends (item == 0) skip-Ends (
          items-Ends (λ a. submessage-Ends field.ptr a refl h) field.data_size
            (item_count field iter s.memory) item))

    pointer-Ends : (iter : FieldIter) → Ends (release_pointer field iter)
    pointer-Ends iter =
        let repeated = htype field.type == Htype.repeated in
        then-Ends
          (then-Ends
            (then-Ends
              (if-Ends
                (repeated && (ltype field.type == Ltype.string || ltype field.type == Ltype.bytes))
                (chosen-Ends _ (λ s.
                  entries-Ends (load s.memory 4 iter.p_size) (load_pointer s.memory iter.p_data)))
                skip-Ends)
              (if-Ends repeated (zero-Ends iter.p_size 4) skip-Ends))
            (free_at-Ends iter.p_data))
          (zero-Ends iter.p_data 8)

    contents-Ends :
        (one : FieldIter → Action) (fuel : ℕ) (iter : FieldIter)
        → Ends (release_contents descriptor one message fuel field iter)
    contents-Ends one fuel iter =
        let plain : (ltype field.type == Ltype.extension) ≡ false = ground (arith, nests.0) in
        rw plain (elim (Bool-cases (ltype field.type == Ltype.submessage)) [
          | inl a ↦ rw a (
              if-Ends (not (atype field.type == Atype.callback))
                (submessages-Ends iter ((==_iff (ltype field.type) Ltype.submessage).0 a))
                skip-Ends)
          | inr a ↦ rw a skip-Ends
        ])

    release_field-Ends :
        (one : FieldIter → Action) (fuel : ℕ) (iter : FieldIter)
        → Ends (release_field descriptor one message fuel (some field) iter)
    release_field-Ends one fuel iter = chosen-Ends _ (λ s.
        if-Ends (htype field.type == Htype.oneof && not (load s.memory 4 iter.p_size == field.tag))
          skip-Ends
          (then-Ends (contents-Ends one fuel iter)
            (if-Ends (atype field.type == Atype.pointer) (pointer-Ends iter) skip-Ends)))

  default_at-Ends :
      (one : FieldIter → Action) (message : List Field → ℕ → Action) (fuel r : ℕ) (o : Option Field)
      (iter : FieldIter)
      → ((q a : ℕ) → rank q < r → Ends (message (descriptor q) a))
      → ((f : Field) → o ≡ some f → Nests rank r f)
      → Ends (default_field descriptor one message fuel o iter)
  default_at-Ends one message fuel r none iter sub h = fault-Ends
  default_at-Ends one message fuel r (some f) iter sub h =
      default_field-Ends message f r (h f refl) sub one fuel iter

  release_at-Ends :
      (one : FieldIter → Action) (message : List Field → ℕ → Action) (fuel r : ℕ) (o : Option Field)
      (iter : FieldIter)
      → ((q a : ℕ) → rank q < r → Ends (message (descriptor q) a))
      → ((f : Field) → o ≡ some f → Nests rank r f)
      → Ends (release_field descriptor one message fuel o iter)
  release_at-Ends one message fuel r none iter sub h = record { ends = λ s e. cc }
  release_at-Ends one message fuel r (some f) iter sub h =
      release_field-Ends message f r (h f refl) sub one fuel iter

  field_set_to_default-Ends :
      (depth r : ℕ) (iter : FieldIter)
      → r < depth
      → Stands (Nests rank r) iter
      → Ends (field_set_to_default descriptor depth iter)
  unfolding field_set_to_default
  field_set_to_default-Ends zero r iter lt h = absurd (omega arith)
  field_set_to_default-Ends (suc depth) r iter lt h =
      default_at-Ends (field_set_to_default descriptor depth)
        (each_field_of (field_set_to_default descriptor depth)) depth r
        (field_at iter.start iter.pos) iter
        (λ q a below.
          each_field_of-Ends (field_set_to_default descriptor depth) (Nests rank (rank q))
            (λ i at. field_set_to_default-Ends depth (rank q) i (omega arith) at) (descriptor q) a
            (nested q))
        h

  pub release_single_field-Ends :
      (depth r : ℕ) (iter : FieldIter)
      → r < depth
      → Stands (Nests rank r) iter
      → Ends (release_single_field descriptor depth iter)
  unfolding release_single_field
  release_single_field-Ends zero r iter lt h = absurd (omega arith)
  release_single_field-Ends (suc depth) r iter lt h =
      release_at-Ends (release_single_field descriptor depth)
        (unless_null (each_field_of (release_single_field descriptor depth))) depth r
        (field_at iter.start iter.pos) iter
        (λ q a below. if-Ends (a == 0) skip-Ends (
          each_field_of-Ends (release_single_field descriptor depth) (Nests rank (rank q))
            (λ i at. release_single_field-Ends depth (rank q) i (omega arith) at) (descriptor q) a
            (nested q)))
        h

  -- `pb_message_set_to_defaults` and `pb_release` return, at a depth above the rank of the message.
  pub message_set_to_defaults-Ends :
      (depth r : ℕ) (fields : List Field) (p : ℕ)
      → r < depth
      → All (Nests rank r) fields
      → Ends (message_set_to_defaults descriptor depth fields p)
        × Ends (release descriptor depth fields p)
  unfolding message_set_to_defaults release
  message_set_to_defaults-Ends depth r fields p lt h = (
    each_field_of-Ends (field_set_to_default descriptor depth) (Nests rank r)
        (λ i at. field_set_to_default-Ends depth r i lt at) fields p h,
    if-Ends (p == 0) skip-Ends (
        each_field_of-Ends (release_single_field descriptor depth) (Nests rank r)
          (λ i at. release_single_field-Ends depth r i lt at) fields p h),
  )
