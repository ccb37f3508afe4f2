-- ===== src/Nanopb/Decode/Required.antt =====
-- The required fields of a message in `pb_decode_noinit` of pb_decode.c: the words `fields_seen`,
-- and their check at the end.
use answrapp.Common.{
  ℕ, zero, suc, ◌+◌, ◌-◌, ◌/◌, ◌%◌, ◌^◌, bit_or, Bool, true, not, ◌&&◌, ◌||◌, List, [], ◌∷◌, get_or,
  set, ltb, ◌==◌, if◌then◌else◌, length,
}
use answrapp.Nanopb.Types.{Field, htype, missing_required}
use answrapp.Nanopb.Types.Htype
use answrapp.Nanopb.Iter.{FieldIter, field_at, iter_next}
use answrapp.Nanopb.Decode.{stuck, Step, ◌>>=◌, pure, raise, walking, at_field}

-- PB_MAX_REQUIRED_FIELDS.
abbrev pub max_required_fields : ℕ
max_required_fields = 64

abbrev pub allbits : ℕ
allbits = 2 ^ 32 - 1

-- `fields_seen[index >> 5] |= 1 << (index & 31)`.
unfoldable pub mark_seen : ℕ → List ℕ → List ℕ
mark_seen index seen =
    set seen (index / 32) (bit_or (get_or seen (index / 32) 0) (2 ^ (index % 32)))

-- The bookkeeping for the field at the iterator.
abbrev pub note_required : Field → FieldIter → List ℕ → List ℕ
note_required field iter seen =
    if htype field.type == Htype.required && ltb iter.required_field_index max_required_fields
    then mark_seen iter.required_field_index seen
    else seen

-- The loop to the end of the descriptor: `req_field_count` and `last_type`, and the iterator.
pub record Ending : Type 0 where
  pub req_field_count : ℕ
  pub last_type : ℕ
  pub iter : FieldIter

unfoldable pub seek_end : ℕ → FieldIter → Step Ending
seek_end zero iter = λ s. stuck
seek_end (suc fuel) iter = at_field (field_at iter.start iter.pos) λ field.
    walking (iter_next iter) >>= λ w.
    let more = seek_end fuel w.1 in
    if w.0
    then more
    else pure
        (record { req_field_count = iter.required_field_index; last_type = field.type; iter = w.1 })

-- The number of required fields that are checked: one more for the last field.
abbrev pub required_count : Ending → Field → ℕ
required_count e field =
    let count =
      if htype e.last_type == Htype.required && not (field.tag == 0)
      then (e.req_field_count + 1) % 2 ^ 32
      else e.req_field_count in
    if ltb max_required_fields count then max_required_fields else count

abbrev pub whole_words : ℕ → List ℕ → Bool
whole_words zero seen = true
whole_words (suc n) [] = true
whole_words (suc n) (w ∷ seen) = w == allbits && whole_words n seen

-- The test of the whole words, and of the remaining bits.
abbrev pub all_seen : ℕ → List ℕ → Bool
all_seen count seen =
    whole_words (count / 32) seen
    && (count % 32 == 0 || get_or seen (count / 32) 0 == allbits / 2 ^ (32 - count % 32))

-- The check that all required fields were present.
unfoldable pub check_required : FieldIter → List ℕ → Step (Unit {0})
check_required iter seen = do
  e ← seek_end (length iter.start) iter
  at_field (field_at e.iter.start e.iter.pos)
      λ field. if all_seen (required_count e field) seen then pure tt else raise missing_required
