-- ===== src/Nanopb/Struct/Tests.antt =====
-- Defaults and release at concrete structures.
use answrapp.Common.{ℕ, ◌≡◌, refl, Option, none, some, List, [], ◌∷◌, arith, ◌==◌, if◌then◌else◌}
use answrapp.Nanopb.Types.{Field}
use answrapp.Nanopb.Iter.{FieldIter, field_at, iter_begin, iter_next}
use answrapp.Nanopb.Output.{return_true}
use answrapp.Nanopb.Memory.{load, load_pointer}
use answrapp.Nanopb.Message.{Context}
use answrapp.Nanopb.Message.Basic.{encode_basic_field}
use answrapp.Nanopb.Message.Encode.{encode}
use answrapp.Nanopb.Struct.{Store, Change, changed}
use answrapp.Nanopb.Struct.Fields.{Descriptors, each_field_of, each_field}
use answrapp.Nanopb.Struct.Defaults.{field_set_to_default}
use answrapp.Nanopb.Struct.Release.{release_single_field, release, release_items}
use answrapp.Nanopb.Struct.Unset.{encode_basic_field-field_set_to_default}
use answrapp.Nanopb.Struct.Once.{release_single_field_twice}

abbrev field_of : ℕ → ℕ → ℕ → Option ℕ → Field
field_of tag type data_size ptr = record {
  tag = tag;
  type = type;
  data_offset = 0;
  size_offset = 0;
  data_size = data_size;
  array_size = 0;
  ptr = ptr;
}

-- A message with a string behind a pointer, and one that holds it.
abbrev name_field : Field
name_field = field_of 1 0x87 8 none

abbrev last_field : Field
last_field = field_of 0 0 0 none

abbrev descriptors : Descriptors
descriptors p =
    if p == 7
    then name_field ∷ last_field ∷ []
    else field_of 1 0x08 8 (some 7) ∷ field_of 2 0x87 8 none ∷ last_field ∷ []

-- The pointers of the two strings stand at 100 and 108.
abbrev filled : Store
filled = record { memory = λ a. if a == 100 then 40 else if a == 108 then 50 else 0; freed = [] }

abbrev freed_by : Change → List ℕ
freed_by (changed s) = s.freed
freed_by _ = []

release_both : freed_by (release descriptors 2 (descriptors 0) 100 filled) ≡ 50 ∷ 40 ∷ []
unfolding release each_field_of each_field release_single_field release_items iter_begin iter_next
    field_at load
release_both = refl

abbrev iter_at : Field → ℕ → FieldIter
iter_at field p = record {
  start = field ∷ last_field ∷ [];
  pos = 0;
  required_field_index = 0;
  dest_struct = p;
  p_data = p;
  p_size = p;
}

name_here : field_at (name_field ∷ last_field ∷ []) 0 ≡ some name_field
unfolding field_at
name_here = refl

release_single_field_twice_example :
    (t u : Store) × (release_single_field descriptors 1 (iter_at name_field 100) filled ≡ changed t)
    × (t.freed
        ≡ (if load_pointer filled.memory 100 == 0 then [] else load_pointer filled.memory 100 ∷ []))
    × (load_pointer t.memory 100 ≡ 0)
    × (release_single_field descriptors 1 (iter_at name_field 100) t ≡ changed u)
    × (u.freed ≡ t.freed)
release_single_field_twice_example =
    release_single_field_twice descriptors 0 (iter_at name_field 100) name_field name_here refl
      (omega arith) (omega arith) (omega arith) (omega arith) filled

abbrev context : Context
context = record {
  memory = filled.memory;
  descriptor = descriptors;
  callback = λ e f a. return_true;
  extension = λ e x. return_true;
}

abbrev number_field : Field
number_field = field_of 1 0x12 4 none

number_here : field_at (number_field ∷ last_field ∷ []) 0 ≡ some number_field
unfolding field_at
number_here = refl

encode_basic_field-field_set_to_default_example :
    (t : Store) × (field_set_to_default descriptors 1 (iter_at number_field 100) filled ≡ changed t)
    × (t.freed ≡ [])
    × (encode_basic_field
          (record context { memory = t.memory })
          1
          (encode context 0)
          number_field
          100
        ≡ return_true)
encode_basic_field-field_set_to_default_example =
    encode_basic_field-field_set_to_default descriptors 0 (iter_at number_field 100) number_field
      filled number_here refl refl refl (omega arith) refl context (encode context 0) 0 refl
