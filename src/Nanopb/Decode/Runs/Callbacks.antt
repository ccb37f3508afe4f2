-- ===== src/Nanopb/Decode/Runs/Callbacks.antt =====
-- `decode_callback_field` ends.
use answrapp.Common.{
  ℕ, zero, suc, ◌+◌, ◌≤◌, ◌<◌, min, inl, inr, Bool, true, false, ◌||◌, Bool-cases, List, [], ◌∷◌,
  bit_and, arith, ◌==◌, if◌then◌else◌, length, All,
}
use answrapp.Nanopb.Types.{
  Field, IsByte, WireType, wt_varint, wt_64bit, wt_32bit, wt_string, callback_failed,
  invalid_wire_type,
}
use answrapp.Nanopb.Input.{InStream, Result, Decoder, istream_from_buffer, pure, read}
use answrapp.Nanopb.Input
use answrapp.Nanopb.Input.Safety.{
  IsValid, Follows-self, Post, Ensures, bind-Ensures, if-Ensures, raise-Ensures, pure-Ensures,
  read-Ensures, Post-mono, Bytes,
}
use answrapp.Nanopb.Scalar.{skip_field, raw_from, raw_varint, read_raw_value}
use answrapp.Nanopb.Scalar.Safety.{skip_field-IsSafe, read_raw_value-Ensures}
use answrapp.Nanopb.Scalar.Takes.{skip_field-Takes, read_raw_value-Takes}
use answrapp.Nanopb.Memory.{load_pointer, shifted}
use answrapp.Nanopb.Iter.{FieldIter}
use answrapp.Nanopb.Decode.{
  Machine, Outcome, done, failed, Step, ◌>>=◌, ◌>>◌, give, reading, raise, changing, loading,
  attempt, write_number, remaining, enter, open_substream, close_substream, Context, MessageDecoder,
}
use answrapp.Nanopb.Decode
use answrapp.Nanopb.Decode.Callback.{
  callback_loop, callback_string, callback_number, decode_callback_field,
}
use answrapp.Nanopb.Decode.Runs.{
  Goes, Goes-self, Goes-mono, Goes-trans, raise-Goes, RunPost, RunPost-mono, Runs, Anything,
  and_then-Runs, next-Runs, if-Runs, reading-Runs, loading-Runs, attempt-Runs,
}
use answrapp.Nanopb.Decode.Runs.Substreams.{
  Opened, parent-Goes, substream-IsValid, open_substream-Runs, attempted-Runs, close_substream-Runs,
}
use answrapp.Nanopb.Decode.Runs.Values.{Reads, IsLayered}

abbrev Bytewise : List ℕ → Type 0
Bytewise bytes = All IsByte bytes

raw_from-Bytewise :
    (bytes : List ℕ) (more : Decoder (List ℕ))
    → All IsByte bytes
    → Ensures Bytewise more
    → (0 < length bytes)
    → Ensures Bytewise (raw_from bytes more)
raw_from-Bytewise [] more h hm some_byte = absurd (omega arith)
raw_from-Bytewise (b ∷ bs) more h hm some_byte =
    if-Ensures Bytewise (bit_and b 0x80 == 0) _ _ (λ _. pure-Ensures Bytewise (b ∷ []) (h.0, tt))
      (λ _.
        bind-Ensures Bytewise Bytewise more (λ rest. pure (b ∷ rest)) hm
          (λ rest hr. pure-Ensures Bytewise (b ∷ rest) (h.0, hr)))

raw_varint-Bytewise : (room : ℕ) → Ensures Bytewise (raw_varint room)
unfolding raw_varint
raw_varint-Bytewise zero = λ s v. Follows-self v
raw_varint-Bytewise (suc room) =
    bind-Ensures (Bytes 1) Bytewise (read 1) (λ bytes. raw_from bytes (raw_varint room))
      (read-Ensures 1)
      (λ bytes hb.
        raw_from-Bytewise bytes (raw_varint room) hb.1 (raw_varint-Bytewise room)
          (omega (arith, hb.0)))

read-Bytewise : (count : ℕ) → Ensures Bytewise (read count)
read-Bytewise count s v =
    Post-mono (Bytes count) Bytewise s (read count s) (λ bytes e. e.1) (read-Ensures count s v)

read_raw_value-Bytewise :
    (wire_type max_size : ℕ) → Ensures Bytewise (read_raw_value wire_type max_size)
unfolding read_raw_value
read_raw_value-Bytewise wire_type max_size =
    if-Ensures Bytewise (wire_type == wt_varint) _ _ (λ _. raw_varint-Bytewise max_size)
      (λ _.
        if-Ensures Bytewise (wire_type == wt_64bit) _ _ (λ _. read-Bytewise 8)
          (λ _.
            if-Ensures Bytewise (wire_type == wt_32bit) _ _ (λ _. read-Bytewise 4)
              (λ _. raise-Ensures Bytewise invalid_wire_type)))

both-Post :
    (P Q : List ℕ → Type 0) (s : InStream) (r : Result (List ℕ))
    → Post P s r
    → Post Q s r
    → Post (λ a. P a × Q a) s r
both-Post P Q s (Input.ok a t) p q = ((p.0, q.0), p.1)
both-Post P Q s (Input.failed t) p q = p
both-Post P Q s Input.fault p q = p
both-Post P Q s Input.stuck p q = p

-- The bytes of a number, at most ten.
abbrev Raw : List ℕ → Type 0
Raw bytes = All IsByte bytes × (length bytes ≤ 10)

Raw-Ensures : (wire_type : ℕ) → Ensures Raw (read_raw_value wire_type 10)
Raw-Ensures wire_type s v =
    both-Post Bytewise (λ bytes. length bytes ≤ 10) s (read_raw_value wire_type 10 s)
      (read_raw_value-Bytewise wire_type 10 s v)
      (read_raw_value-Ensures wire_type 10 (omega arith) s v)

buffer-IsValid : (bytes : List ℕ) → Raw bytes → IsValid (istream_from_buffer bytes (length bytes))
buffer-IsValid bytes raw = record { serves = (omega arith, raw.0); fits = omega (arith, raw.1) }

module _ (call : Step (Unit {0})) (calls : Reads call) where
  again :
      (fuel : ℕ) (s t : Machine)
      → Runs fuel 0 Anything (callback_loop call fuel)
      → s.stream.bytes_left < suc fuel
      → Goes (min 1 s.stream.bytes_left) s.stream t.stream
      → RunPost 0 Anything t.stream
          ((if t.stream.bytes_left == 0 then Decode.pure tt else callback_loop call fuel) t)
  again fuel s t h lt g = elim (Bool-cases (t.stream.bytes_left == 0)) [
    | inl e ↦ rw e (tt, Goes-self g.valid)
    | inr e ↦ rw e (
        h.runs t g.valid
          (shorter s.stream.bytes_left t.stream.bytes_left fuel lt g.moves.takes (ground arith)))
  ]
    where
      shorter : (a b fuel : ℕ) → a < suc fuel → b + min 1 a ≤ a → 0 < b → b < fuel
      shorter a b fuel lt takes pos = ground arith

  -- The loop ends since each round takes a byte, or ends it.
  callback_loop-Runs : (fuel : ℕ) → Runs fuel 0 Anything (callback_loop call fuel)
  unfolding callback_loop
  callback_loop-Runs zero = record { runs = λ s v lt. absurd (omega arith) }
  callback_loop-Runs (suc fuel) = record {
    runs = λ s v lt.
        RunPost-mono 0 {k = min 1 s.stream.bytes_left + 0} Anything Anything s.stream _
          (omega arith) (λ a _. tt)
          (and_then-Runs (min 1 s.stream.bytes_left) 0 Anything Anything s.stream (call s) _
            (calls.reads s v) (λ a t _ g. again fuel s t (callback_loop-Runs fuel) lt g));
  }

  callback_string-Runs : {n : ℕ} → Runs n 0 Anything (callback_string call)
  unfolding callback_string
  callback_string-Runs = record {
    runs = λ s v lt.
        RunPost-mono 0 {k = 1} Anything Anything s.stream _ (omega arith) (λ a _. tt)
          (open_substream-Runs 1 Anything
            (λ parent. remaining >>= λ left. attempt (callback_loop call (suc left)) >>= λ status.
              if status then close_substream parent else (enter parent >> raise callback_failed))
            s v
            (λ parent substream o.
              let t : Machine = record { stream = substream; store = s.store } in
              attempted-Runs 1 Anything s.stream (callback_loop call (suc substream.bytes_left) t) _
                ((attempt-Runs (callback_loop-Runs (suc substream.bytes_left))).runs t
                  (substream-IsValid o) (omega arith))
                (ended s.stream parent substream o)));
  }
    where
      ended :
          (s parent substream : InStream)
          → Opened s parent substream
          → (status : Bool) (u : Machine) → Goes 0 substream u.stream
          → RunPost 1 Anything s (
              (if status then close_substream parent else (enter parent >> raise callback_failed))
                u)
      ended s parent substream o true u g = close_substream-Runs o u g
      ended s parent substream o false u g =
          Goes-mono 0 (omega arith)
            (Goes-trans (parent-Goes o) (raise-Goes callback_failed (parent-Goes o).valid))

  -- The stream of a number is put aside, and comes back.
  number_call :
      {n : ℕ} (bytes : List ℕ)
      → Raw bytes
      → Runs n 0 Anything (do
        stream ← enter (istream_from_buffer bytes (length bytes))
        status ← attempt call
        enter stream
        give status)
  number_call bytes raw = record {
    runs = λ s v lt.
        let t : Machine = record {
          stream = istream_from_buffer bytes (length bytes);
          store = s.store;
        } in
        attempted-Runs 0 Anything s.stream (call t) (λ status. enter s.stream >>= λ _. give status)
          ((attempt-Runs {n = suc (length bytes)} call-Runs).runs t (buffer-IsValid bytes raw)
            (omega arith))
          (λ status u g. back s.stream v status u);
  }
    where
      call-Runs : {k : ℕ} → Runs k 0 Anything call
      call-Runs = record {
        runs = λ s v lt.
            RunPost-mono 0 {k = min 1 s.stream.bytes_left} Anything Anything s.stream (call s)
              (omega arith) (λ a _. tt) (calls.reads s v);
      }

      back :
          (stream : InStream)
          → IsValid stream
          → (status : Bool) (u : Machine)
          → RunPost 0 Anything stream ((enter stream >>= λ _. give status) u)
      back stream v true u = (tt, Goes-self v)
      back stream v false u = Goes-self v

  callback_number-Runs :
      {n : ℕ} (wire_type : WireType) → Runs n 0 Anything (callback_number call wire_type)
  unfolding callback_number
  callback_number-Runs wire_type =
      next-Runs
        (reading-Runs 0 Raw (read_raw_value wire_type 10) (Raw-Ensures wire_type)
          (read_raw_value-Takes wire_type 10))
        number_call

pub decode_callback_field-Runs :
    {n : ℕ} (ctx : Context) (rank : ℕ → ℕ) (wire_type : WireType) (field : Field) (iter : FieldIter)
    → IsLayered ctx rank
    → Runs n 0 Anything (decode_callback_field ctx wire_type field iter)
unfolding decode_callback_field
decode_callback_field-Runs ctx rank wire_type field iter layered =
    next-Runs (loading-Runs (λ mem. load_pointer mem iter.p_data)) (λ decode _.
      let calls = layered.callbacks decode field (shifted iter.p_data 8) in
      let call = ctx.callback decode field (shifted iter.p_data 8) in
      if-Runs (iter.p_data == 0 || decode == 0)
        (λ e.
          reading-Runs 0 Anything (skip_field wire_type) (skip_field-IsSafe wire_type)
            (skip_field-Takes wire_type))
        (λ e.
          if-Runs (wire_type == wt_string) (λ e. callback_string-Runs call calls)
            (λ e. callback_number-Runs call calls wire_type)))
