-- ===== src/Nanopb/Decode/Runs/Loops.antt =====
-- The loop of `pb_decode_noinit` and its check of the required fields end.
use answrapp.Common.{
  ℕ, zero, suc, ◌+◌, ◌^◌, ◌≤◌, ◌<◌, ◌≡◌, ◌∙◌, ap, inl, inr, Bool, true, false, Bool-cases, List,
  arith, ◌==◌, length,
}
use answrapp.Nanopb.Types.{Field, missing_required}
use answrapp.Nanopb.Input.{InStream, Result, ok}
use answrapp.Nanopb.Input
use answrapp.Nanopb.Input.Safety.{Post}
use answrapp.Nanopb.Input.Takes.{TakesPost}
use answrapp.Nanopb.Scalar.{Tag, decode_tag}
use answrapp.Nanopb.Scalar.Safety.{decode_tag-Post, TagBounds}
use answrapp.Nanopb.Scalar.Takes.{decode_tag-Takes}
use answrapp.Nanopb.Iter.{FieldIter, returned, field_at, iter_next}
use answrapp.Nanopb.Iter.Start.{iter_next-Advances}
use answrapp.Nanopb.Struct.{Store}
use answrapp.Nanopb.Decode.{Machine, Step, ◌>>=◌, walking}
use answrapp.Nanopb.Decode.Required.{seek_end, required_count, all_seen, check_required}
use answrapp.Nanopb.Decode.Loop.{Progress, with_tag, fields_loop}
use answrapp.Nanopb.Decode.Runs.{
  Goes, Goes-self, RunPost, RunPost-mono, RunPost-Goes, Runs, Anything, and_then-Runs, next-Runs,
  if-Runs, raise-Runs, pure-Runs, walking-Runs, at_field-Runs,
}
use answrapp.Nanopb.Decode.Runs.Iterators.{Placed}

-- The walk to the end of the descriptor.
abbrev Further : FieldIter → Bool × FieldIter → Type 0
Further iter w =
    w.0 ≡ true → (w.1.start ≡ iter.start) × (w.1.pos ≡ iter.pos + 1) × (w.1.pos < length iter.start)

Further-Runs : {n : ℕ} (iter : FieldIter) → Runs n 0 (Further iter) (walking (iter_next iter))
Further-Runs iter =
    walking-Runs (iter_next iter) (iter_next-Advances iter).ends
      (λ b t e more. (iter_next-Advances iter).further t (e ∙ ap (λ c. returned c t) more))

seek_end-Runs :
    {n : ℕ} (fuel : ℕ) (iter : FieldIter)
    → iter.pos < length iter.start
    → length iter.start ≤ fuel + iter.pos
    → Runs n 0 Anything (seek_end fuel iter)
unfolding seek_end
seek_end-Runs zero iter lt enough = absurd (omega arith)
seek_end-Runs (suc fuel) iter lt enough = at_field-Runs (field_at iter.start iter.pos) (λ field e.
    next-Runs (Further-Runs iter) (λ w further.
      if-Runs w.0
        (λ more.
          let (start, pos, room) = further more in
          seek_end-Runs fuel w.1 (rw start room) (rw start (omega arith)))
        (λ last. pure-Runs _ tt)))

pub check_required-Runs :
    {n : ℕ} (iter : FieldIter) (seen : List ℕ)
    → iter.pos < length iter.start
    → Runs n 0 Anything (check_required iter seen)
unfolding check_required
check_required-Runs iter seen lt =
    next-Runs (seek_end-Runs (length iter.start) iter lt (omega arith)) (λ e _.
      at_field-Runs (field_at e.iter.start e.iter.pos) (λ field _.
        if-Runs (all_seen (required_count e field) seen) (λ _. pure-Runs tt tt)
          (λ _. raise-Runs missing_required)))

module _ {n : ℕ} (own : List Field) (end : Field) (round : Progress → Tag → Step Progress)
    (each : (p : Progress) (tag : Tag)
      → tag.tag < 2 ^ 29
      → Placed own end p.iter
      → Runs n 0 (λ q. Placed own end q.iter) (round p tag)) where
  abbrev pub Stays : Progress → Type 0
  Stays p = Placed own end p.iter

  -- A round begins with a tag, which takes a byte at least.
  with_tag-Runs :
      (fuel : ℕ) (p : Progress) (s : InStream) (store : Store) (r : Result Tag × Bool)
      → s.bytes_left < suc fuel
      → s.bytes_left < n
      → Stays p
      → Post TagBounds s r.0
      → TakesPost 1 s r.0
      → ((q : Progress) → Stays q → Runs fuel 0 Stays (fields_loop round fuel q))
      → RunPost 0 Stays s (with_tag r store (λ tag. round p tag >>= fields_loop round fuel) p)
  with_tag-Runs fuel p s store (ok tag t, eof) lt ltn h post takes rest =
      let g : Goes 1 s t = record { valid = post.1.valid; moves = takes } in
      let m : Machine = record { stream = t; store = store } in
      RunPost-mono 0 {k = 1} Stays Stays s ((round p tag >>= fields_loop round fuel) m)
        (omega arith) (λ q hq. hq)
        (RunPost-Goes 0 Stays ((round p tag >>= fields_loop round fuel) m) g (
          and_then-Runs 0 0 Stays Stays t (round p tag m) (fields_loop round fuel)
            ((each p tag post.0.1 h).runs m g.valid (omega (arith, g.moves.takes)))
            (λ q u hq gu.
              (rest q hq).runs u gu.valid (omega (arith, g.moves.takes, gu.moves.takes)))))
  with_tag-Runs fuel p s store (Input.failed t, true) lt ltn h post takes rest =
      (h, record { valid = post.valid; moves = takes })
  with_tag-Runs fuel p s store (Input.failed t, false) lt ltn h post takes rest = record {
    valid = post.valid;
    moves = takes;
  }
  with_tag-Runs fuel p s store (Input.fault, eof) lt ltn h post takes rest = absurd post
  with_tag-Runs fuel p s store (Input.stuck, eof) lt ltn h post takes rest = absurd post

  pub fields_loop-Runs :
      (fuel : ℕ) (p : Progress) → fuel ≤ n → Stays p → Runs fuel 0 Stays (fields_loop round fuel p)
  unfolding fields_loop
  fields_loop-Runs zero p le h = record { runs = λ s v lt. absurd (omega arith) }
  fields_loop-Runs (suc fuel) p le h = record {
    runs = λ s v lt. elim (Bool-cases (s.stream.bytes_left == 0)) [
      | inl e ↦ rw e (h, Goes-self v)
      | inr e ↦ rw e (
          with_tag-Runs fuel p s.stream s.store (decode_tag s.stream) lt (omega arith) h
            (decode_tag-Post s.stream v) (decode_tag-Takes s.stream)
            (λ q hq. fields_loop-Runs fuel q (omega arith) hq))
    ];
  }
