-- ===== src/Nanopb/Decode/Runs/Values.antt =====
-- The decoders of submessages, and with them those of all values, end.
use answrapp.Common.{
  ℕ, suc, ◌<◌, min, Bool, true, false, Option, none, some, arith, ◌==◌, if◌then◌else◌, All,
}
use answrapp.Nanopb.Types.{Field, ltype, htype, invalid_descriptor}
use answrapp.Nanopb.Types.Ltype
use answrapp.Nanopb.Types.Htype
use answrapp.Nanopb.Input.Safety.{IsValid}
use answrapp.Nanopb.Iter.Step.{Descriptor}
use answrapp.Nanopb.Message.Ends.Defaults.{Nests}
use answrapp.Nanopb.Decode.{
  Machine, Step, ◌>>=◌, ◌>>◌, give, raise, attempt, enter, open_substream, close_substream, Context,
  MessageDecoder,
}
use answrapp.Nanopb.Decode.Value.{submessage_in, dec_submessage, dec_value}
use answrapp.Nanopb.Decode.Runs.{
  Goes-mono, Goes-trans, raise-Goes, RunPost, Runs, Anything, if-Runs, fault-Runs, attempt-Runs,
}
use answrapp.Nanopb.Decode.Runs.Substreams.{
  parent-Goes, substream-IsValid, open_substream-Runs, attempted-Runs, close_and_give-Runs,
}
use answrapp.Nanopb.Decode.Runs.Scalars.{
  dec_bool-Runs, dec_bytes-Runs, dec_fixed32-Runs, dec_fixed64-Runs, dec_fixed_length_bytes-Runs,
  dec_string-Runs, dec_svarint-Runs, dec_uvarint-Runs, dec_varint-Runs,
}

-- A function of the user that reads from a substream: it ends, and takes a byte if there is one.
pub record Reads (m : Step (Unit {0})) : Type 0 where
  pub reads :
      (s : Machine) → IsValid s.stream → RunPost (min 1 s.stream.bytes_left) Anything s.stream (m s)

-- Descriptors without extensions that are nested in a finite order, and such functions.
pub record IsLayered (ctx : Context) (rank : ℕ → ℕ) : Type 0 where
  pub nested : (p : ℕ) → All (Nests rank (rank p)) (ctx.descriptor p)
  pub deep : (p : ℕ) → rank p < ctx.nesting
  pub shaped : (p : ℕ) → Descriptor (ctx.descriptor p)
  pub callbacks : (e : ℕ) (f : Field) (a : ℕ) → Reads (ctx.callback e f a)

-- A message in a substream, which is shorter than its parent.
pub submessage_in-Runs :
    {n : ℕ} {message : Step (Unit {0})}
    → Runs n 0 Anything message
    → Runs (suc n) 1 Anything (submessage_in message)
submessage_in-Runs {n} {message} h = record {
  runs = λ s v lt.
      open_substream-Runs 1 Anything
        (λ parent. attempt message >>= λ status. close_substream parent >> give status) s v
        (λ parent substream o.
          let t : Machine = record { stream = substream; store = s.store } in
          attempted-Runs 1 Anything s.stream (message t)
            (λ status. close_substream parent >> give status)
            ((attempt-Runs h).runs t (substream-IsValid o) (omega (arith, o.takes)))
            (λ status u g. close_and_give-Runs o status u g));
}

-- What `pb_dec_submessage` does without a descriptor.
abbrev missing_descriptor : Step (Unit {0})
missing_descriptor = do parent ← open_substream; enter parent; raise invalid_descriptor

module _ {n : ℕ} (ctx : Context) (decode decode_noinit : MessageDecoder) (dest : ℕ)
    (full : (p : ℕ) → Runs n 0 Anything (decode (ctx.descriptor p) dest))
    (partial : (p : ℕ) → Runs n 0 Anything (decode_noinit (ctx.descriptor p) dest)) where
  chosen-Runs :
      (b : Bool) (p : ℕ)
      → Runs n 0 Anything ((if b then decode else decode_noinit) (ctx.descriptor p) dest)
  chosen-Runs true p = full p
  chosen-Runs false p = partial p

  no_descriptor-Runs : Runs (suc n) 1 Anything missing_descriptor
  no_descriptor-Runs = record {
    runs = λ s v lt.
        open_substream-Runs 1 Anything (λ parent. enter parent >>= λ _. raise invalid_descriptor) s
          v
          (λ parent substream o.
            Goes-mono 0 (omega arith)
              (Goes-trans (parent-Goes o) (raise-Goes invalid_descriptor (parent-Goes o).valid)));
  }

  pointed-Runs :
      (o : Option ℕ) (b : Bool)
      → Runs (suc n) 1 Anything (elim o [
        | none ↦ missing_descriptor
        | some fields ↦
            submessage_in ((if b then decode else decode_noinit) (ctx.descriptor fields) dest)
      ])
  pointed-Runs none b = no_descriptor-Runs
  pointed-Runs (some p) b = submessage_in-Runs (chosen-Runs b p)

  dec_submessage-Runs :
      (field : Field) → Runs (suc n) 1 Anything (dec_submessage ctx decode decode_noinit field dest)
  unfolding dec_submessage
  dec_submessage-Runs field = pointed-Runs field.ptr (htype field.type == Htype.repeated)

  -- Every decoder of a value takes a byte at least.
  pub dec_value-Runs :
      (field : Field) → Runs (suc n) 1 Anything (dec_value ctx decode decode_noinit field dest)
  unfolding dec_value
  dec_value-Runs field =
      let t = ltype field.type in
      if-Runs (t == Ltype.bool) (λ e. dec_bool-Runs field dest)
        (λ e.
          if-Runs (t == Ltype.varint) (λ e. dec_varint-Runs field dest)
            (λ e.
              if-Runs (t == Ltype.uvarint) (λ e. dec_uvarint-Runs field dest)
                (λ e.
                  if-Runs (t == Ltype.svarint) (λ e. dec_svarint-Runs field dest)
                    (λ e.
                      if-Runs (t == Ltype.fixed32) (λ e. dec_fixed32-Runs field dest)
                        (λ e.
                          if-Runs (t == Ltype.fixed64) (λ e. dec_fixed64-Runs field dest)
                            (λ e.
                              if-Runs (t == Ltype.bytes) (λ e. dec_bytes-Runs field dest ctx)
                                (λ e.
                                  if-Runs (t == Ltype.string) (λ e. dec_string-Runs field dest ctx)
                                    (λ e.
                                      if-Runs (t == Ltype.submessage)
                                        (λ e. dec_submessage-Runs field)
                                        (λ e.
                                          if-Runs (t == Ltype.fixed_length_bytes)
                                            (λ e. dec_fixed_length_bytes-Runs field dest)
                                            (λ e. fault-Runs))))))))))
