-- ===== src/Nanopb/Decode/Runs/Fields.antt =====
-- The decoders of static and of callback fields end.
use answrapp.Common.{
  ℕ, zero, suc, ◌+◌, ◌%◌, ◌^◌, ◌≤◌, inl, inr, ◌&&◌, ◌||◌, Bool-cases, Option, none, some, arith,
  ltb, leb, ◌==◌, if◌then◌else◌,
}
use answrapp.Nanopb.Types.{
  Field, ltype, htype, WireType, wt_string, array_overflow, invalid_field_type,
}
use answrapp.Nanopb.Types.Ltype
use answrapp.Nanopb.Types.Htype
use answrapp.Nanopb.Memory.{load}
use answrapp.Nanopb.Iter.{FieldIter}
use answrapp.Nanopb.Struct.Ends.{Ends, fault-Ends, then-Ends, if-Ends, skip-Ends, zero-Ends}
use answrapp.Nanopb.Struct.Ends.Messages.{message_set_to_defaults-Ends}
use answrapp.Nanopb.Struct.Defaults.{message_set_to_defaults}
use answrapp.Nanopb.Struct.{write_zero}
use answrapp.Nanopb.Struct
use answrapp.Nanopb.Decode.{
  Machine, Outcome, done, failed, Step, ◌>>=◌, ◌>>◌, give, reading, raise, changing, loading,
  attempt, write_number, remaining, enter, open_substream, close_substream, Context, MessageDecoder,
}
use answrapp.Nanopb.Decode
use answrapp.Nanopb.Decode.Allocate.{clear_submessage, initialize_pointer_field}
use answrapp.Nanopb.Decode.Static.{
  item_address, count_item, packed_item, packed_items, static_packed, static_item, static_field,
}
use answrapp.Nanopb.Decode.Runs.{
  Goes-self, Goes-mono, Goes-trans, raise-Goes, RunPost-mono, Runs, Anything, Runs-mono, Runs-any,
  and_then-Runs, bind-Runs, then-Runs, next-Runs, if-Runs, raise-Runs, loading-Runs, attempt-Runs,
  changing-Runs,
}
use answrapp.Nanopb.Decode.Runs.Substreams.{
  parent-Goes, substream-IsValid, open_substream-Runs, attempted-Runs, close_and_give-Runs,
}
use answrapp.Nanopb.Decode.Runs.Scalars.{write-Runs}
use answrapp.Nanopb.Decode.Runs.Values.{IsLayered}

-- The address of a submessage that is cleared does not matter.
module _ (ctx : Context) (rank : ℕ → ℕ) (layered : IsLayered ctx rank) (field : Field) (p : ℕ) where
  defaults_at-Ends :
      (o : Option ℕ)
      → Ends (elim o [
        | none ↦ (λ s. Struct.fault)
        | some q ↦ message_set_to_defaults ctx.descriptor ctx.nesting (ctx.descriptor q) p
      ])
  defaults_at-Ends none = fault-Ends
  defaults_at-Ends (some q) =
      (message_set_to_defaults-Ends ctx.descriptor rank layered.nested ctx.nesting (rank q)
        (ctx.descriptor q) p (layered.deep q) (layered.nested q)).0

  clear_submessage-Ends : Ends (clear_submessage ctx field p)
  clear_submessage-Ends = then-Ends (zero-Ends p field.data_size) (defaults_at-Ends field.ptr)

  pub initialize_pointer_field-Runs :
      {n : ℕ} → Runs n 0 Anything (initialize_pointer_field ctx field p)
  unfolding initialize_pointer_field
  initialize_pointer_field-Runs = changing-Runs (
      if-Ends (ltype field.type == Ltype.string || ltype field.type == Ltype.bytes) (zero-Ends p 8)
        (if-Ends (ltype field.type == Ltype.submessage) clear_submessage-Ends skip-Ends))

pub count_item-Runs : {n : ℕ} (iter : FieldIter) → Runs n 0 Anything (count_item iter)
count_item-Runs iter =
    next-Runs (loading-Runs (λ mem. load mem 4 iter.p_size))
      (λ k _. write-Runs iter.p_size 4 (Decode.byte_of ((k + 1) % 2 ^ 32)))

-- With a decoder of values that takes a byte at least.
module _ {n : ℕ} (func : ℕ → Step (Unit {0})) (field : Field) (iter : FieldIter)
    (value : (a : ℕ) → Runs n 1 Anything (func a)) where
  item-Runs : (k : ℕ) → Runs n 1 Anything (packed_item func field iter k)
  item-Runs k =
      Runs-mono 1 (omega arith) (λ a _. tt)
        (bind-Runs (value (item_address iter.p_data field k)) (λ _ _. count_item-Runs iter))

  packed_items-Runs :
      (fuel : ℕ) → fuel ≤ n → Runs fuel 0 Anything (packed_items func field iter fuel)
  unfolding packed_items
  packed_items-Runs zero h = record { runs = λ s v lt. absurd (omega arith) }
  packed_items-Runs (suc fuel) h = record {
    runs = λ s v lt.
        let k = load s.store.memory 4 iter.p_size in
        elim (Bool-cases (ltb 0 s.stream.bytes_left && ltb k field.array_size)) [
          | inl more ↦ rw more (
              RunPost-mono 0 {k = 1} Anything Anything s.stream _ (omega arith) (λ a _. tt)
                (and_then-Runs 1 0 Anything Anything s.stream (packed_item func field iter k s)
                  (λ _. packed_items func field iter fuel) ((item-Runs k).runs s v (omega arith))
                  (λ a t _ g.
                    (packed_items-Runs fuel (omega arith)).runs t g.valid
                      (omega (arith, g.moves.takes)))))
          | inr over ↦ rw over (tt, Goes-self v)
        ];
  }

  static_packed-Runs : Runs n 1 Anything (static_packed func field iter)
  unfolding static_packed
  static_packed-Runs = record {
    runs = λ s v lt.
        open_substream-Runs 1 Anything
          (λ parent. remaining >>= λ left.
            attempt (packed_items func field iter (suc left)) >>= λ status. remaining >>= λ rest.
            if rest == 0
            then (close_substream parent >> give status)
            else (enter parent >> raise array_overflow))
          s v
          (λ parent substream o.
            let t : Machine = record { stream = substream; store = s.store } in
            attempted-Runs 1 Anything s.stream
              (packed_items func field iter (suc substream.bytes_left) t) _
              ((attempt-Runs
                  (packed_items-Runs (suc substream.bytes_left) (omega (arith, o.takes)))).runs
                t (substream-IsValid o) (omega arith))
              (λ status u g. elim (Bool-cases (u.stream.bytes_left == 0)) [
                | inl e ↦ rw e (close_and_give-Runs o status u g)
                | inr e ↦ rw e (
                    Goes-mono 0 (omega arith) (
                      Goes-trans (parent-Goes o) (raise-Goes array_overflow (parent-Goes o).valid)))
              ]));
  }

  static_item-Runs : Runs n 0 Anything (static_item func field iter)
  unfolding static_item
  static_item-Runs = next-Runs (loading-Runs (λ mem. load mem 4 iter.p_size)) (λ k _.
      then-Runs (write-Runs iter.p_size 4 (Decode.byte_of ((k + 1) % 2 ^ 32))) (
        if-Runs (leb field.array_size k) (λ e. raise-Runs array_overflow)
          (λ e. Runs-any (value (item_address iter.p_data field k)))))

  pub static_field-Runs :
      (ctx : Context) (rank : ℕ → ℕ) (wire_type : WireType)
      → IsLayered ctx rank
      → Runs n 0 Anything (static_field ctx func wire_type field iter)
  unfolding static_field
  static_field-Runs ctx rank wire_type layered =
      let h = htype field.type in
      let one = Runs-any (value iter.p_data) in
      if-Runs (h == Htype.required) (λ e. one)
        (λ e.
          if-Runs (h == Htype.optional)
            (λ e.
              if-Runs (iter.p_size == iter.p_data) (λ e. one)
                (λ e. then-Runs (write-Runs iter.p_size 1 (Decode.byte_of 1)) one))
            (λ e.
              if-Runs (h == Htype.repeated)
                (λ e.
                  if-Runs (wire_type == wt_string && leb (ltype field.type) Ltype.last_packable)
                    (λ e. Runs-any static_packed-Runs) (λ e. static_item-Runs))
                (λ e.
                  if-Runs (h == Htype.oneof)
                    (λ e. then-Runs (write-Runs iter.p_size 4 (Decode.byte_of field.tag)) (
                      if-Runs (ltype field.type == Ltype.submessage)
                        (λ e.
                          then-Runs
                            (changing-Runs
                              (clear_submessage-Ends ctx rank layered field iter.p_data))
                            one)
                        (λ e. one)))
                    (λ e. raise-Runs invalid_field_type))))
