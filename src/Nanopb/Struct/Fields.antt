-- ===== src/Nanopb/Struct/Fields.antt =====
-- The walks of pb_decode.c over the fields of a message and over its extensions.
use answrapp.Common.{ℕ, zero, suc, Option, none, some, List, ◌==◌, if◌then◌else◌, length}
use answrapp.Nanopb.Types.{Field, atype}
use answrapp.Nanopb.Types.Atype
use answrapp.Nanopb.Iter.{FieldIter, Walk, returned, field_at, iter_begin, iter_next}
use answrapp.Nanopb.Iter
use answrapp.Nanopb.Memory.{Memory, load_pointer, shifted}
use answrapp.Nanopb.Struct.{changed, fault, stuck, Action, after, ◌>>◌, skip}

-- The descriptor of a message by its address.
abbrev pub Descriptors : Type 0
Descriptors = ℕ → List Field

abbrev pub at_walk : Walk → (FieldIter → Action) → Action
at_walk (returned more iter) k = k iter
at_walk Iter.fault k = λ s. fault
at_walk Iter.stuck k = λ s. stuck

abbrev pub while_more : Walk → (FieldIter → Action) → Action
while_more (returned more iter) k = if more then k iter else skip
while_more Iter.fault k = λ s. fault
while_more Iter.stuck k = λ s. stuck

-- The loop over the fields of a message.
unfoldable pub each_field : (FieldIter → Action) → ℕ → FieldIter → Action
each_field one zero iter = λ s. stuck
each_field one (suc rounds) iter = one iter >> while_more (iter_next iter) (each_field one rounds)

unfoldable pub each_field_of : (FieldIter → Action) → List Field → ℕ → Action
unfolding each_field
each_field_of one fields p = while_more (iter_begin fields p) (each_field one (length fields))

-- What `iter_from_extension` changes in the iterator.
abbrev pub for_extension : Option Field → ℕ → ℕ → Walk → Walk
for_extension (some field) ext dest (returned more iter) = returned more (record iter {
  p_data = (if atype field.type == Atype.pointer then shifted ext 8 else dest);
  p_size = shifted ext 24;
})
for_extension none ext dest (returned more iter) = Iter.fault
for_extension field ext dest Iter.fault = Iter.fault
for_extension field ext dest Iter.stuck = Iter.stuck

-- `iter_from_extension`.
unfoldable pub iter_from_extension : Descriptors → Memory → ℕ → Walk
iter_from_extension descriptor mem ext =
    let fields = descriptor (load_pointer mem (shifted (load_pointer mem ext) 16)) in
    let dest = load_pointer mem (shifted ext 8) in
    for_extension (field_at fields 0) ext dest (iter_begin fields dest)

-- The loop over the extensions of a message, with fuel for their number.
unfoldable pub each_extension : (ℕ → Action) → ℕ → ℕ → Action
each_extension one zero ext s = stuck
each_extension one (suc fuel) ext s =
    let rest =
      after (one ext s) (λ t. each_extension one fuel (load_pointer t.memory (shifted ext 16)) t) in
    if ext == 0 then changed s else rest
