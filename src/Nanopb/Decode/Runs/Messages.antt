-- ===== src/Nanopb/Decode/Runs/Messages.antt =====
-- `pb_decode_noinit`, `pb_decode` and `pb_decode_delimited` end on every input.
use answrapp.Common.{
  ℕ, zero, suc, ◌≡◌, refl, sym, inl, inr, Bool, none, List, [], ◌∷◌, ◌++◌, arith, All,
}
use mathlib.Core.Path.{subst}
use answrapp.Nanopb.Types.{Field}
use answrapp.Nanopb.Input.Safety.{IsValid}
use answrapp.Nanopb.Iter.{FieldIter, returned, iter_begin}
use answrapp.Nanopb.Iter.Start.{iter_begin-first, iter_begin-ne-stuck}
use answrapp.Nanopb.Message.Ends.Defaults.{Nests}
use answrapp.Nanopb.Struct.Ends.Messages.{message_set_to_defaults-Ends}
use answrapp.Nanopb.Decode.{Machine, ◌>>=◌, remaining, Context, MessageDecoder}
use answrapp.Nanopb.Decode.Loop.{Progress, one_field, fields_loop, decode_fields}
use answrapp.Nanopb.Decode.Messages.{
  initialized, decode_noinit_at, decode_noinit, decode, decode_delimited,
}
use answrapp.Nanopb.Decode.Runs.{
  RunPost, Runs, Anything, then-Runs, next-Runs, if-Runs, pure-Runs, attempt-Runs, give-Runs,
  changing-Runs, walking-Runs,
}
use answrapp.Nanopb.Decode.Runs.Scalars.{write-Runs}
use answrapp.Nanopb.Decode.Runs.Values.{IsLayered, submessage_in-Runs}
use answrapp.Nanopb.Decode.Runs.Iterators.{Placed, Placed-bound}
use answrapp.Nanopb.Decode.Runs.Rounds.{IsMessage, one_field-Runs, check_fixed_count-Runs}
use answrapp.Nanopb.Decode.Runs.Loops.{check_required-Runs, fields_loop-Runs}

begun-Placed :
    (own : List Field) (end : Field) (a : ℕ) (b : Bool) (t : FieldIter)
    → iter_begin (own ++ end ∷ []) a ≡ returned b t
    → Placed own end t
begun-Placed [] end a b t e =
    let (start, pos, room) = iter_begin-first (end ∷ []) a e in
    record { shape = start; inside = inr (refl, pos) }
begun-Placed (f ∷ fs) end a b t e =
    let (start, pos, room) = iter_begin-first ((f ∷ fs) ++ end ∷ []) a e in
    record { shape = start; inside = inl (rw pos (omega arith)) }

module _ (ctx : Context) (rank : ℕ → ℕ) (layered : IsLayered ctx rank) where
  module _ {n : ℕ} (decode decode_noinit : MessageDecoder)
      (full : (p a : ℕ) → Runs n 0 Anything (decode (ctx.descriptor p) a))
      (partial : (p a : ℕ) → Runs n 0 Anything (decode_noinit (ctx.descriptor p) a)) where
    loop_left-Runs :
        (frame : ℕ) (own : List Field) (end : Field) (p : Progress)
        → IsMessage ctx rank own end
        → Placed own end p.iter
        → Runs
            (suc n)
            0
            (λ q. Placed own end q.iter)
            (remaining >>= λ left.
              fields_loop (one_field ctx frame decode decode_noinit) (suc left) p)
    loop_left-Runs frame own end p message h = record {
      runs = λ s v lt.
          (fields_loop-Runs {n = suc n} own end (one_field ctx frame decode decode_noinit)
              (one_field-Runs ctx rank layered decode decode_noinit full partial own end message
                frame)
              (suc s.stream.bytes_left) p (omega arith) h).runs
            s v (omega arith);
    }

    decode_fields-Runs :
        (frame : ℕ) (own : List Field) (end : Field) (a : ℕ)
        → IsMessage ctx rank own end
        → Runs (suc n) 0 Anything (decode_fields ctx frame decode decode_noinit (own ++ end ∷ []) a)
    unfolding decode_fields
    decode_fields-Runs frame own end a message =
        let fields = own ++ end ∷ [] in
        then-Runs (write-Runs frame 4 (λ i. 0)) (
          next-Runs
            (walking-Runs {P = λ begun. Placed own end begun.1} (iter_begin fields a)
              (iter_begin-ne-stuck fields a) (λ b t e. begun-Placed own end a b t e))
            (λ begun placed.
              (next-Runs (loop_left-Runs frame own end (start begun.1) message placed) (λ p hp.
                then-Runs (check_fixed_count-Runs frame fields p.fixed_count_field)
                  (check_required-Runs p.iter p.fields_seen (Placed-bound hp))))))
      where
        start : FieldIter → Progress
        start iter = record {
          iter = iter;
          fields_seen = 0 ∷ 0 ∷ [];
          extension_range_start = 0;
          fixed_count_field = none;
        }

  initialized-Runs :
      {n : ℕ} (noinit : MessageDecoder) (own : List Field) (end : Field) (a : ℕ)
      → IsMessage ctx rank own end
      → Runs n 0 Anything (noinit (own ++ end ∷ []) a)
      → Runs n 0 Anything (initialized ctx noinit (own ++ end ∷ []) a)
  unfolding initialized
  initialized-Runs noinit own end a message h =
      let fields = own ++ end ∷ [] in
      let (r, lt, nests) = message.layer in
      let (defaults, releases) =
        message_set_to_defaults-Ends ctx.descriptor rank layered.nested ctx.nesting r fields a lt
          nests in
      then-Runs (changing-Runs defaults) (
        next-Runs (attempt-Runs h) (λ status _.
          then-Runs
            (if-Runs status (λ e. pure-Runs {P = Anything} tt tt) (λ e. changing-Runs releases))
            (give-Runs status)))

  -- The message at an address.
  IsMessage-at : (p : ℕ) → IsMessage ctx rank (layered.shaped p).own (layered.shaped p).end
  IsMessage-at p =
      let d = layered.shaped p in
      record {
        tagged = d.tagged;
        ended = d.ended;
        layer =
            (rank p, layered.deep p, subst (All (Nests rank (rank p))) d.shape (layered.nested p));
      }

  -- What holds of a decoder on such messages holds at their addresses.
  at_address-Runs :
      {n : ℕ} (decoder : MessageDecoder)
      → ((own : List Field) (end : Field) (a : ℕ)
          → IsMessage ctx rank own end
          → Runs n 0 Anything (decoder (own ++ end ∷ []) a))
      → (p a : ℕ) → Runs n 0 Anything (decoder (ctx.descriptor p) a)
  at_address-Runs {n} decoder h p a =
      let d = layered.shaped p in
      subst (λ fs. Runs n 0 Anything (decoder fs a)) (sym d.shape)
        (h d.own d.end a (IsMessage-at p))

  -- With less bytes left than the fuel there is fuel enough for every submessage.
  decode_noinit_at-Runs :
      (depth : ℕ) (own : List Field) (end : Field) (a : ℕ)
      → IsMessage ctx rank own end
      → Runs depth 0 Anything (decode_noinit_at ctx depth (own ++ end ∷ []) a)
  unfolding decode_noinit_at
  decode_noinit_at-Runs zero own end a message = record { runs = λ s v lt. absurd (omega arith) }
  decode_noinit_at-Runs (suc depth) own end a message =
      let noinit = decode_noinit_at ctx depth in
      decode_fields-Runs (initialized ctx noinit) noinit
        (at_address-Runs (initialized ctx noinit) (λ own' end' a' m.
          initialized-Runs noinit own' end' a' m (decode_noinit_at-Runs depth own' end' a' m)))
        (at_address-Runs noinit (decode_noinit_at-Runs depth)) (ctx.frame depth) own end a message

  decode_noinit-Runs :
      {n : ℕ} (own : List Field) (end : Field) (a : ℕ)
      → IsMessage ctx rank own end
      → Runs n 0 Anything (decode_noinit ctx (own ++ end ∷ []) a)
  unfolding decode_noinit
  decode_noinit-Runs own end a message = record {
    runs = λ s v lt.
        (decode_noinit_at-Runs (suc s.stream.bytes_left) own end a message).runs s v (omega arith);
  }

  decode_at-Runs :
      {n : ℕ} (own : List Field) (end : Field) (a : ℕ)
      → IsMessage ctx rank own end
      → Runs n 0 Anything (decode ctx (own ++ end ∷ []) a)
  unfolding decode
  decode_at-Runs own end a message =
      initialized-Runs (decode_noinit ctx) own end a message (decode_noinit-Runs own end a message)

  delimited-Runs :
      {n : ℕ} (own : List Field) (end : Field) (a : ℕ)
      → IsMessage ctx rank own end
      → Runs (suc n) 1 Anything (decode_delimited ctx (own ++ end ∷ []) a)
  unfolding decode_delimited
  delimited-Runs own end a message = submessage_in-Runs (decode_at-Runs own end a message)

  -- On every well-formed stream, whatever its bytes and the memory hold, `pb_decode` and
  -- `pb_decode_delimited` return, unless they read through NULL or behind a descriptor, call a NULL
  -- function or divide by 0: they have fuel enough, read nothing outside the stream, and leave it well
  -- formed with no more bytes left than before; a byte less at least, if `pb_decode_delimited`
  -- succeeds. The descriptors are nested in a finite order, without extensions, and the callbacks for
  -- fields do the like and take a byte if there is one.
  pub decode-RunPost :
      (own : List Field) (end : Field) (dest_struct : ℕ) (s : Machine)
      → IsMessage ctx rank own end
      → IsValid s.stream
      → RunPost 0 Anything s.stream (decode ctx (own ++ end ∷ []) dest_struct s)
        × RunPost 1 Anything s.stream (decode_delimited ctx (own ++ end ∷ []) dest_struct s)
  decode-RunPost own end dest_struct s message v = (
    (decode_at-Runs {n = suc s.stream.bytes_left} own end dest_struct message).runs s v
        (omega arith),
    (delimited-Runs {n = s.stream.bytes_left} own end dest_struct message).runs s v (omega arith),
  )
