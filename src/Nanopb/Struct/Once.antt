-- ===== src/Nanopb/Struct/Once.antt =====
-- A pointer field is freed once.
use answrapp.Common.{ℕ, suc, ◌≡◌, ◌≢◌, refl, false, some, ◌∷◌, arith, ◌==◌, if◌then◌else◌}
use answrapp.Nanopb.Types.{Field, ltype, htype, atype}
use answrapp.Nanopb.Types.Ltype
use answrapp.Nanopb.Types.Htype
use answrapp.Nanopb.Types.Atype
use answrapp.Nanopb.Iter.{FieldIter, field_at}
use answrapp.Nanopb.Memory.{load_pointer}
use answrapp.Nanopb.Struct.{Store, changed, overwrite}
use answrapp.Nanopb.Struct.Fields.{Descriptors}
use answrapp.Nanopb.Struct.Release.{release_single_field}
use answrapp.Nanopb.Struct.Unset.{load-overwrite}

module _ (descriptor : Descriptors) (depth : ℕ) (iter : FieldIter) (field : Field)
    (here : field_at iter.start iter.pos ≡ some field) (pointer : atype field.type ≡ Atype.pointer)
    (no_oneof : htype field.type ≢ Htype.oneof) (no_array : htype field.type ≢ Htype.repeated)
    (no_extension : ltype field.type ≢ Ltype.extension)
    (no_submessage : ltype field.type ≢ Ltype.submessage) where
  -- What a release does to the store.
  abbrev emptied : Store → Store
  emptied s = record {
    memory = overwrite iter.p_data 8 (λ i. 0) s.memory;
    freed =
        (if load_pointer s.memory iter.p_data == 0
          then s.freed
          else load_pointer s.memory iter.p_data ∷ s.freed);
  }

  release_step :
      (s : Store) → release_single_field descriptor (suc depth) iter s ≡ changed (emptied s)
  unfolding release_single_field
  release_step s =
      let oneof : (htype field.type == Htype.oneof) ≡ false = ground (arith, no_oneof) in
      let repeated : (htype field.type == Htype.repeated) ≡ false = ground (arith, no_array) in
      let extension : (ltype field.type == Ltype.extension) ≡ false =
        ground (arith, no_extension) in
      let submessage : (ltype field.type == Ltype.submessage) ≡ false =
        ground (arith, no_submessage) in
      rw (here, oneof, repeated, extension, submessage, pointer) refl

  -- `pb_release_single_field` on a pointer field that is no array, no member of a union, no extension
  -- and no submessage frees what the pointer holds, if it is not NULL, and sets the pointer to NULL:
  -- a second call frees nothing more.
  pub release_single_field_twice :
      (s : Store)
      → (t u : Store) × (release_single_field descriptor (suc depth) iter s ≡ changed t)
        × (t.freed ≡ (
            if load_pointer s.memory iter.p_data == 0
            then s.freed
            else load_pointer s.memory iter.p_data ∷ s.freed))
        × (load_pointer t.memory iter.p_data ≡ 0)
        × (release_single_field descriptor (suc depth) iter t ≡ changed u)
        × (u.freed ≡ t.freed)
  release_single_field_twice s =
      let null = load-overwrite s.memory iter.p_data 8 8 iter.p_data (omega arith) (omega arith) in
      let t = emptied s in (t, emptied t, release_step s, refl, null, release_step t, rw null refl)
