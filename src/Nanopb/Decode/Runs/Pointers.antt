-- ===== src/Nanopb/Decode/Runs/Pointers.antt =====
-- `decode_pointer_field` ends.
use answrapp.Common.{
  ℕ, zero, suc, ◌+◌, ◌%◌, ◌^◌, ◌≤◌, ◌<◌, ◌≡◌, refl, inl, inr, Bool, not, ◌&&◌, ◌||◌, Bool-cases,
  arith, ltb, leb, ◌==◌, if◌then◌else◌, All,
}
use answrapp.Nanopb.Types.{
  Field, size_max, too_many_entries, ltype, htype, WireType, wt_string, invalid_field_type,
}
use answrapp.Nanopb.Types.Ltype
use answrapp.Nanopb.Types.Htype
use answrapp.Nanopb.Input.{InStream}
use answrapp.Nanopb.Input.Safety.{IsValid}
use answrapp.Nanopb.Memory.{load, load_pointer}
use answrapp.Nanopb.Iter.{FieldIter}
use answrapp.Nanopb.Iter.Start.{field_at-All}
use answrapp.Nanopb.Struct.Ends.{Ends}
use answrapp.Nanopb.Decode.{
  Machine, Outcome, done, failed, Step, ◌>>=◌, ◌>>◌, give, reading, raise, changing, loading,
  attempt, write_number, remaining, enter, open_substream, close_substream, Context, MessageDecoder,
}
use answrapp.Nanopb.Decode
use answrapp.Nanopb.Decode.Static.{item_address}
use answrapp.Nanopb.Decode.Pointer.{
  target, new_item, pointer_single, guess, grow, packed_entry, unless_failed, packed_entries,
  pointer_packed, pointer_item, pointer_field,
}
use answrapp.Nanopb.Decode.Runs.Fields.{initialize_pointer_field-Runs, count_item-Runs}
use answrapp.Nanopb.Struct.Release.{release_single_field}
use answrapp.Nanopb.Struct.Ends.Messages.{release_single_field-Ends}
use answrapp.Nanopb.Message.Ends.Defaults.{Nests}
use answrapp.Nanopb.Decode.Runs.{
  Goes, Goes-self, Goes-mono, Goes-trans, RunPost, RunPost-mono, Runs, Anything, Runs-mono,
  Runs-any, bind-Runs, then-Runs, next-Runs, if-Runs, raise-Runs, pure-Runs, loading-Runs,
  changing-Runs,
}
use answrapp.Nanopb.Decode.Runs.Substreams.{
  Opened, substream-IsValid, open_substream-Runs, close_and_give-Runs, alike-Opened,
}
use answrapp.Nanopb.Decode.Runs.Scalars.{write-Runs, allocate_field-Runs}
use answrapp.Nanopb.Decode.Runs.Values.{IsLayered}

-- The iterator stands on a descriptor that is nested in a finite order.
abbrev pub OnLayer : Context → (ℕ → ℕ) → FieldIter → Type 0
OnLayer ctx rank iter = (r : ℕ) × (r < ctx.nesting) × All (Nests rank r) iter.start

pub release-Ends :
    (ctx : Context) (rank : ℕ → ℕ) (iter : FieldIter)
    → IsLayered ctx rank
    → OnLayer ctx rank iter
    → Ends (release_single_field ctx.descriptor ctx.nesting iter)
release-Ends ctx rank iter layered (r, lt, nests) =
    release_single_field-Ends ctx.descriptor rank layered.nested ctx.nesting r iter lt
      (λ f e. field_at-All (Nests rank r) iter.start iter.pos nests e)

-- The loop over a packed array ends with a status; the parent stream keeps its source and its size.
abbrev Settles : InStream → InStream → Outcome (Bool × InStream) → Type 0
Settles parent s (done r t) =
    ((r.1.source ≡ parent.source) × (r.1.bytes_left ≡ parent.bytes_left)) × Goes 0 s t.stream
Settles parent s (failed t) = ⊥
Settles parent s Decode.outside = ⊥
Settles parent s Decode.fault = Unit
Settles parent s Decode.stuck = ⊥

Settles-Goes :
    {j : ℕ} (parent : InStream) {s t : InStream} (r : Outcome (Bool × InStream))
    → Goes j s t
    → Settles parent t r
    → Settles parent s r
Settles-Goes parent (done r u) g h = (h.0, Goes-mono 0 (omega arith) (Goes-trans g h.1))
Settles-Goes parent (failed u) g h = absurd h
Settles-Goes parent Decode.outside g h = absurd h
Settles-Goes parent Decode.fault g h = tt
Settles-Goes parent Decode.stuck g h = absurd h

closed-Runs :
    (s parent substream : InStream) (r : Outcome (Bool × InStream))
    → Opened s parent substream
    → Settles parent substream r
    → RunPost 1 Anything s (Decode.and_then r (λ x. close_substream x.1 >> give x.0))
closed-Runs s parent substream (done x u) o h =
    close_and_give-Runs (alike-Opened o x.1 h.0.0 h.0.1) x.0 u h.1
closed-Runs s parent substream (failed u) o h = absurd h
closed-Runs s parent substream Decode.outside o h = absurd h
closed-Runs s parent substream Decode.fault o h = tt
closed-Runs s parent substream Decode.stuck o h = absurd h

module _ {n : ℕ} (ctx : Context) (rank : ℕ → ℕ) (layered : IsLayered ctx rank)
    (func : ℕ → Step (Unit {0})) (field : Field) (iter : FieldIter)
    (value : (a : ℕ) → Runs n 1 Anything (func a)) where
  new_item-Runs : (p : ℕ) → Runs n 1 Anything (new_item ctx func field p)
  new_item-Runs p =
      Runs-mono 1 (omega arith) (λ a _. tt)
        (bind-Runs (initialize_pointer_field-Runs ctx rank layered field p) (λ _ _. value p))

  target-Runs : Runs n 0 Anything (target iter)
  target-Runs = loading-Runs (λ mem. load_pointer mem iter.p_data)

  when-Runs :
      {m : Step (Unit {0})} (b : Bool)
      → Runs n 0 Anything m
      → Runs n 0 Anything (if b then m else Decode.pure tt)
  when-Runs b h = if-Runs b (λ e. h) (λ e. pure-Runs tt tt)

  pointer_single-Runs :
      OnLayer ctx rank iter → Runs n 0 Anything (pointer_single ctx func field iter)
  unfolding pointer_single
  pointer_single-Runs on = next-Runs target-Runs (λ old _.
      then-Runs
        (when-Runs (ltype field.type == Ltype.submessage && not (old == 0))
          (changing-Runs (release-Ends ctx rank iter layered on)))
        (then-Runs
          (when-Runs (htype field.type == Htype.oneof)
            (write-Runs iter.p_size 4 (Decode.byte_of field.tag)))
          (if-Runs (ltype field.type == Ltype.string || ltype field.type == Ltype.bytes)
            (λ e. Runs-any (value iter.p_data))
            (λ e. then-Runs (allocate_field-Runs ctx iter.p_data field.data_size 1) (
              next-Runs target-Runs (λ p _.
                then-Runs (initialize_pointer_field-Runs ctx rank layered field p)
                  (next-Runs target-Runs (λ q _. Runs-any (value q)))))))))

  grow-Runs : (k allocated : ℕ) → Runs n 0 Anything (grow ctx field iter k allocated)
  unfolding grow
  grow-Runs k allocated = record {
    runs = λ s v lt. elim (Bool-cases (ltb allocated (k + 1))) [
      | inr enough ↦ rw enough (tt, Goes-self v)
      | inl more ↦ rw more (elim (Bool-cases (field.data_size == 0)) [
        | inl e ↦ rw e tt
        | inr e ↦ rw e (
            let allocated' = guess s.stream.bytes_left field.data_size allocated in
            (then-Runs (allocate_field-Runs ctx iter.p_data field.data_size allocated')
                (pure-Runs {P = Anything} allocated' tt)).runs
              s v lt)
      ])
    ];
  }

  packed_entry-Runs :
      (k allocated : ℕ) → Runs n 1 Anything (packed_entry ctx func field iter k allocated)
  packed_entry-Runs k allocated =
      Runs-mono 1 (omega arith) (λ a _. tt)
        (bind-Runs (grow-Runs k allocated) (λ allocated' _. bind-Runs target-Runs (λ base _.
          bind-Runs (new_item-Runs (item_address base field k)) (λ _ _.
            bind-Runs (count_item-Runs iter) (λ _ _. pure-Runs {P = Anything} allocated' tt)))))

  unless_failed-Settles :
      (s parent : InStream) (r : Outcome ℕ) (more : ℕ → Step (Bool × InStream))
      → RunPost 1 Anything s r
      → ((a : ℕ) (t : Machine) → Goes 1 s t.stream → Settles parent t.stream (more a t))
      → Settles parent s (unless_failed r parent more)
  unless_failed-Settles s parent (done a t) more h g =
      Settles-Goes parent (more a t) h.1 (g a t h.1)
  unless_failed-Settles s parent (failed t) more h g = ((refl, refl), h)
  unless_failed-Settles s parent Decode.outside more h g = absurd h
  unless_failed-Settles s parent Decode.fault more h g = tt
  unless_failed-Settles s parent Decode.stuck more h g = absurd h

  packed_entries-Settles :
      (fuel : ℕ) (parent : InStream) (allocated : ℕ) (s : Machine)
      → fuel ≤ n
      → IsValid s.stream
      → s.stream.bytes_left < fuel
      → Settles parent s.stream (packed_entries ctx func field iter fuel parent allocated s)
  unfolding packed_entries
  packed_entries-Settles zero parent allocated s h v lt = absurd (omega arith)
  packed_entries-Settles (suc fuel) parent allocated s h v lt =
      let k = load s.store.memory 4 iter.p_size in
      elim (Bool-cases (s.stream.bytes_left == 0)) [
        | inl e ↦ rw e ((refl, refl), Goes-self v)
        | inr e ↦ rw e (elim (Bool-cases (k == size_max)) [
          | inl full ↦ rw full ((refl, refl), Goes-self v)
          | inr room ↦ rw room (
              unless_failed-Settles s.stream parent (packed_entry ctx func field iter k allocated s)
                (packed_entries ctx func field iter fuel parent)
                ((packed_entry-Runs k allocated).runs s v (omega arith))
                (λ a t g.
                  packed_entries-Settles fuel parent a t (omega arith) g.valid
                    (omega (arith, g.moves.takes))))
        ])
      ]

  pointer_packed-Runs : Runs n 0 Anything (pointer_packed ctx func field iter)
  unfolding pointer_packed
  pointer_packed-Runs = next-Runs (loading-Runs (λ mem. load mem 4 iter.p_size)) (λ allocated _.
      record {
        runs = λ s v lt.
            RunPost-mono 0 {k = 1} Anything Anything s.stream _ (omega arith) (λ a _. tt)
              (open_substream-Runs 1 Anything
                (λ parent. remaining >>= λ left.
                  packed_entries ctx func field iter (suc left) parent allocated >>= λ r.
                  close_substream r.1 >> give r.0)
                s v
                (λ parent substream o.
                  let t : Machine = record { stream = substream; store = s.store } in
                  closed-Runs s.stream parent substream
                    (packed_entries ctx func field iter (suc substream.bytes_left) parent allocated
                      t)
                    o
                    (packed_entries-Settles (suc substream.bytes_left) parent allocated t
                      (omega (arith, o.takes)) (substream-IsValid o) (omega arith))));
      })

  pointer_item-Runs : Runs n 0 Anything (pointer_item ctx func field iter)
  unfolding pointer_item
  pointer_item-Runs = next-Runs (loading-Runs (λ mem. load mem 4 iter.p_size)) (λ k _.
      if-Runs (k == size_max) (λ e. raise-Runs too_many_entries)
        (λ e. then-Runs (allocate_field-Runs ctx iter.p_data field.data_size ((k + 1) % 2 ^ 32)) (
          next-Runs target-Runs (λ base _.
            next-Runs (loading-Runs (λ mem. load mem 4 iter.p_size)) (λ index _.
              then-Runs (count_item-Runs iter) (new_item-Runs (item_address base field index)))))))

  pub pointer_field-Runs :
      (wire_type : WireType)
      → OnLayer ctx rank iter
      → Runs n 0 Anything (pointer_field ctx func wire_type field iter)
  unfolding pointer_field
  pointer_field-Runs wire_type on =
      let h = htype field.type in
      if-Runs (h == Htype.required || h == Htype.optional || h == Htype.oneof)
        (λ e. pointer_single-Runs on)
        (λ e.
          if-Runs (h == Htype.repeated)
            (λ e.
              if-Runs (wire_type == wt_string && leb (ltype field.type) Ltype.last_packable)
                (λ e. pointer_packed-Runs) (λ e. pointer_item-Runs))
            (λ e. raise-Runs invalid_field_type))
