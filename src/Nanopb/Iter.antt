-- ===== src/Nanopb/Iter.antt =====
-- The field iterator of pb_common.c: `pb_field_iter_begin`, `pb_field_iter_next` and
-- `pb_field_iter_find`. A descriptor is an array of fields that ends with one whose tag is 0; the
-- pointers `start` and `pos` into it are the array and an index.
pub mod Step
pub mod Start
pub mod Search
use answrapp.Common.{
  ℕ, zero, suc, ◌+◌, ◌*◌, ◌%◌, ◌^◌, Bool, true, false, not, ◌&&◌, Option, none, some, List, [], ◌∷◌,
  ◌==◌, if◌then◌else◌, length,
}
use answrapp.Common.Int.{signed, pattern_of}
use answrapp.Nanopb.Types.{Field, ltype, htype, atype, size_max}
use answrapp.Nanopb.Types.Ltype
use answrapp.Nanopb.Types.Htype
use answrapp.Nanopb.Types.Atype

-- `pb_field_iter_t`; the addresses of the structure, of the field's data and of its size.
pub record FieldIter : Type 0 where
  pub start : List Field
  pub pos : ℕ
  pub required_field_index : ℕ
  pub dest_struct : ℕ
  pub p_data : ℕ
  pub p_size : ℕ

-- The returned bool and the iterator behind the call; `fault` is a read behind the array, `stuck` a
-- loop without fuel.
pub data Walk : Type 0 where
  returned : Bool → FieldIter → Walk
  fault : Walk
  stuck : Walk

unfoldable pub field_at : List Field → ℕ → Option Field
field_at [] i = none
field_at (f ∷ fs) zero = some f
field_at (f ∷ fs) (suc i) = field_at fs i

-- `(char*)iter->pData + iter->pos->size_offset`, with a signed offset.
abbrev pub size_address : ℕ → Field → ℕ
size_address p_data f = (p_data + pattern_of 64 (signed 32 f.size_offset)) % 2 ^ 64

abbrev pub begin_at : Option Field → List Field → ℕ → Walk
begin_at none fields dest_struct = fault
begin_at (some f) fields dest_struct =
    let p_data = (dest_struct + f.data_offset) % 2 ^ 64 in
    returned (not (f.tag == 0)) (record {
      start = fields;
      pos = 0;
      required_field_index = 0;
      dest_struct = dest_struct;
      p_data = p_data;
      p_size = size_address p_data f;
    })

-- `pb_field_iter_begin`.
unfoldable pub iter_begin : List Field → ℕ → Walk
iter_begin fields dest_struct = begin_at (field_at fields 0) fields dest_struct

-- The size that the previous field takes in the structure. `sizeof(void*)` is 8.
abbrev pub previous_size : Field → ℕ
previous_size f =
    if atype f.type == Atype.static && htype f.type == Htype.repeated
    then f.data_size * f.array_size % 2 ^ 64
    else if atype f.type == Atype.pointer
    then 8
    else f.data_size

abbrev pub is_same_union : Field → Field → Bool
is_same_union f g =
    htype f.type == Htype.oneof && (htype g.type == Htype.oneof && g.data_offset == size_max)

-- From the field `f` to the field `g` behind it.
abbrev pub advance : Field → Field → FieldIter → FieldIter
advance f g iter =
    if is_same_union f g
    then record iter { pos = iter.pos + 1 }
    else (let p_data = (iter.p_data + previous_size f + g.data_offset) % 2 ^ 64 in
        record {
          start = iter.start;
          pos = iter.pos + 1;
          required_field_index =
              (if htype f.type == Htype.required
                then (iter.required_field_index + 1) % 2 ^ 32
                else iter.required_field_index);
          dest_struct = iter.dest_struct;
          p_data = p_data;
          p_size = size_address p_data g;
        })

-- The call of `pb_field_iter_begin` whose result is not used.
abbrev pub wrapped : Walk → Walk
wrapped (returned b iter) = returned false iter
wrapped fault = fault
wrapped stuck = stuck

abbrev pub next_from : Option Field → Option Field → FieldIter → Walk
next_from none next iter = fault
next_from (some f) none iter = if f.tag == 0 then returned false iter else fault
next_from (some f) (some g) iter =
    if f.tag == 0
    then returned false iter
    else if g.tag == 0
    then wrapped (iter_begin iter.start iter.dest_struct)
    else returned true (advance f g iter)

-- `pb_field_iter_next`.
unfoldable pub iter_next : FieldIter → Walk
iter_next iter = next_from (field_at iter.start iter.pos) (field_at iter.start (iter.pos + 1)) iter

-- The test of `pb_field_iter_find`.
abbrev pub is_wanted : ℕ → Field → Bool
is_wanted tag f = f.tag == tag && not (ltype f.type == Ltype.extension)

-- The end of a round: the loop goes on unless it is back where it began, at `home`.
abbrev pub unless_home : ℕ → (FieldIter → Walk) → Walk → Walk
unless_home home more (returned b iter) =
    if iter.pos == home then returned false iter else more iter
unless_home home more fault = fault
unless_home home more stuck = stuck

abbrev pub look : Option Field → ℕ → FieldIter → Walk → Walk
look none tag iter more = fault
look (some f) tag iter more = if is_wanted tag f then returned true iter else more

unfoldable pub find_loop : ℕ → ℕ → ℕ → FieldIter → Walk
find_loop zero home tag iter = stuck
find_loop (suc fuel) home tag iter =
    look (field_at iter.start iter.pos) tag iter
      (unless_home home (find_loop fuel home tag) (iter_next iter))

-- `pb_field_iter_find`, with a round for each element of the array.
unfoldable pub iter_find : ℕ → FieldIter → Walk
iter_find tag iter = find_loop (length iter.start) iter.pos tag iter
