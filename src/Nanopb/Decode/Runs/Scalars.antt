-- ===== src/Nanopb/Decode/Runs/Scalars.antt =====
-- The decoders of numbers, bytes and strings and the allocation of pointer fields end.
use answrapp.Common.{
  ℕ, ◌+◌, ◌-◌, ◌*◌, ◌/◌, ◌%◌, ◌^◌, ◌≤◌, not, ◌&&◌, ◌||◌, Option, none, some, get_or, arith, ltb,
  leb, ◌==◌, if◌then◌else◌,
}
use answrapp.Common.Int.{ℤ, signed, pattern_of, ◌=ℤ◌}
use answrapp.Nanopb.Types.{
  Field, IsU32, IsU64, atype, Error, size_max, integer_too_large, invalid_data_size, bytes_overflow,
  size_too_large, string_overflow, wrong_fixed_length, invalid_size, realloc_failed,
}
use answrapp.Nanopb.Types.Atype
use answrapp.Nanopb.Input.{InStream, Decoder, read}
use answrapp.Nanopb.Input
use answrapp.Nanopb.Input.Safety.{Ensures, IsSafe, bind-Ensures, pure-Ensures, read-IsSafe}
use answrapp.Nanopb.Input.Takes.{Takes, read-Takes}
use answrapp.Nanopb.Varint.{decode_varint, decode_varint32}
use answrapp.Nanopb.Varint.Safety.{decode_varint-Ensures, decode_varint32-Ensures}
use answrapp.Nanopb.Varint.Takes.{decode_varint-Takes, decode_varint32-Takes}
use answrapp.Nanopb.Scalar.{
  decode_bool, decode_svarint, decode_fixed32, decode_fixed64, unzigzag, join_bytes,
}
use answrapp.Nanopb.Scalar.Takes.{
  decode_bool-Takes, decode_svarint-Takes, decode_fixed32-Takes, decode_fixed64-Takes,
}
use answrapp.Nanopb.Field.{narrow, narrow_unsigned, bytes_alloc_size}
use answrapp.Nanopb.Memory.{load_pointer}
use answrapp.Nanopb.Struct.{write_bytes}
use answrapp.Nanopb.Struct.Ends.{plain-Ends}
use answrapp.Nanopb.Decode.{
  Machine, Outcome, fault, Step, ◌>>=◌, ◌>>◌, pure, give, reading, raise, changing, loading,
  attempt, write_number, write_list, enter, open_substream, close_substream, Context,
  MessageDecoder,
}
use answrapp.Nanopb.Decode
use answrapp.Nanopb.Decode.Allocate.{reallocate, allocate_field}
use answrapp.Nanopb.Decode.Value.{
  dec_bool, store_signed, dec_varint, store_unsigned, dec_uvarint, dec_svarint, dec_fixed32,
  dec_fixed64, room, dec_bytes, dec_string, dec_fixed_length_bytes,
}
use answrapp.Nanopb.Decode.Runs.{
  Goes-self, Runs, Anything, Runs-mono, Runs-any, bind-Runs, then-Runs, next-Runs, if-Runs,
  reading-Runs, raise-Runs, pure-Runs, loading-Runs, attempt-Runs, give-Runs, changing-Runs,
}

module _ {n : ℕ} where
  pub write-Runs :
      (a count : ℕ) (bytes : ℕ → ℕ) → Runs n 0 Anything (changing (write_bytes a count bytes))
  write-Runs a count bytes = changing-Runs (plain-Ends _)

  pub read-Runs : (count : ℕ) → Runs n 0 Anything (reading (read count))
  read-Runs count =
      Runs-any (reading-Runs count (λ _. Unit) (read count) (read-IsSafe count) (read-Takes count))

  pub reallocate-Runs : (ctx : Context) (ptr size : ℕ) → Runs n 0 Anything (reallocate ctx ptr size)
  reallocate-Runs ctx ptr size = record { runs = λ s v lt. (tt, Goes-self v) }

  pub allocate_field-Runs :
      (ctx : Context) (p_data data_size array_size : ℕ)
      → Runs n 0 Anything (allocate_field ctx p_data data_size array_size)
  unfolding allocate_field
  allocate_field-Runs ctx p_data data_size array_size =
      next-Runs (loading-Runs (λ mem. load_pointer mem p_data)) (λ ptr _.
        if-Runs (data_size == 0 || array_size == 0) (λ e. raise-Runs invalid_size)
          (λ e.
            if-Runs
              ((leb (2 ^ 32) data_size || leb (2 ^ 32) array_size)
                && ltb ((2 ^ 64 - 1) / array_size) data_size)
              (λ e. raise-Runs size_too_large)
              (λ e. next-Runs (reallocate-Runs ctx ptr (array_size * data_size % 2 ^ 64)) (λ p _.
                if-Runs (p == 0) (λ e. raise-Runs realloc_failed)
                  (λ e. write-Runs p_data 8 (Decode.byte_of p))))))

  -- The numbers: each takes a byte at least.
  pub number-Runs :
      {A : Type 0} {k : ℕ} (P : A → Type 0) {m : Decoder A} {f : A → Step (Unit {0})}
      → 1 ≤ k
      → Ensures P m
      → Takes k m
      → ((a : A) → Runs n 0 Anything (f a))
      → Runs n 1 Anything (reading m >>= f)
  number-Runs {k} P {m} h safe takes each =
      Runs-mono 1 (omega arith) (λ a _. tt)
        (bind-Runs (reading-Runs k P m safe takes) (λ a _. each a))

  store_signed-Runs :
      (o : Option ℤ) (size dest : ℕ) (v : ℤ) → Runs n 0 Anything (store_signed o size dest v)
  store_signed-Runs none size dest v = raise-Runs invalid_data_size
  store_signed-Runs (some c) size dest v =
      then-Runs (write-Runs dest size (Decode.byte_of (pattern_of (8 * size) c)))
        (if-Runs (c =ℤ v) (λ e. pure-Runs tt tt) (λ e. raise-Runs integer_too_large))

  store_unsigned-Runs :
      (o : Option ℕ) (size dest v : ℕ) → Runs n 0 Anything (store_unsigned o size dest v)
  store_unsigned-Runs none size dest v = raise-Runs invalid_data_size
  store_unsigned-Runs (some c) size dest v =
      then-Runs (write-Runs dest size (Decode.byte_of c))
        (if-Runs (c == v) (λ e. pure-Runs tt tt) (λ e. raise-Runs integer_too_large))

module _ {A B : Type 0} where
  pure-IsSafe :
      (P : A → Type 0) (m : Decoder A) (f : A → B)
      → Ensures P m
      → Ensures (λ (b : B). Unit) (λ s. Input.and_then (m s) (λ a. Input.pure (f a)))
  pure-IsSafe P m f h =
      bind-Ensures P (λ (b : B). Unit) m (λ a. Input.pure (f a)) h
        (λ a _. pure-Ensures (λ (b : B). Unit) (f a) tt)

decode_bool-IsSafe : IsSafe decode_bool
unfolding decode_bool
decode_bool-IsSafe = pure-IsSafe _ decode_varint32 (λ v. not (v == 0)) decode_varint32-Ensures

decode_svarint-IsSafe : IsSafe decode_svarint
unfolding decode_svarint
decode_svarint-IsSafe = pure-IsSafe _ decode_varint unzigzag decode_varint-Ensures

decode_fixed32-IsSafe : IsSafe decode_fixed32
unfolding decode_fixed32
decode_fixed32-IsSafe = pure-IsSafe _ (read 4) (join_bytes 32 0 0) (read-IsSafe 4)

decode_fixed64-IsSafe : IsSafe decode_fixed64
unfolding decode_fixed64
decode_fixed64-IsSafe = pure-IsSafe _ (read 8) (join_bytes 64 0 0) (read-IsSafe 8)

module _ {n : ℕ} (field : Field) (dest : ℕ) where
  pub dec_bool-Runs : Runs n 1 Anything (dec_bool dest)
  unfolding dec_bool
  dec_bool-Runs =
      number-Runs Anything (omega arith) decode_bool-IsSafe decode_bool-Takes
        (λ value. write-Runs dest 1 (Decode.byte_of (if value then 1 else 0)))

  pub dec_varint-Runs : Runs n 1 Anything (dec_varint field dest)
  unfolding dec_varint
  dec_varint-Runs =
      number-Runs IsU64 (omega arith) decode_varint-Ensures decode_varint-Takes (λ value.
        let svalue = if field.data_size == 8 then signed 64 value else signed 32 (value % 2 ^ 32) in
        store_signed-Runs (narrow field.data_size svalue) field.data_size dest svalue)

  pub dec_uvarint-Runs : Runs n 1 Anything (dec_uvarint field dest)
  unfolding dec_uvarint
  dec_uvarint-Runs =
      number-Runs IsU64 (omega arith) decode_varint-Ensures decode_varint-Takes (λ value.
        store_unsigned-Runs (narrow_unsigned field.data_size value) field.data_size dest value)

  pub dec_svarint-Runs : Runs n 1 Anything (dec_svarint field dest)
  unfolding dec_svarint
  dec_svarint-Runs =
      number-Runs Anything (omega arith) decode_svarint-IsSafe decode_svarint-Takes
        (λ value. store_signed-Runs (narrow field.data_size value) field.data_size dest value)

  pub dec_fixed32-Runs : Runs n 1 Anything (dec_fixed32 dest)
  unfolding dec_fixed32
  dec_fixed32-Runs =
      number-Runs Anything (omega arith) decode_fixed32-IsSafe decode_fixed32-Takes
        (λ value. write-Runs dest 4 (Decode.byte_of value))

  pub dec_fixed64-Runs : Runs n 1 Anything (dec_fixed64 dest)
  unfolding dec_fixed64
  dec_fixed64-Runs =
      number-Runs Anything (omega arith) decode_fixed64-IsSafe decode_fixed64-Takes
        (λ value. write-Runs dest 8 (Decode.byte_of value))

  -- What stands behind a length.
  sized-Runs :
      {f : ℕ → Step (Unit {0})}
      → ((size : ℕ) → Runs n 0 Anything (f size))
      → Runs n 1 Anything (reading decode_varint32 >>= f)
  sized-Runs each =
      number-Runs IsU32 (omega arith) decode_varint32-Ensures decode_varint32-Takes each

  room-Runs :
      (ctx : Context) (alloc_size : ℕ) (overflow : Error)
      → Runs n 0 Anything (room ctx field dest alloc_size overflow)
  unfolding room
  room-Runs ctx alloc_size overflow =
      if-Runs (atype field.type == Atype.pointer)
        (λ e.
          then-Runs (allocate_field-Runs ctx dest alloc_size 1)
            (loading-Runs (λ mem. load_pointer mem dest)))
        (λ e.
          if-Runs (ltb field.data_size alloc_size) (λ e. raise-Runs overflow)
            (λ e. pure-Runs dest tt))

  list-Runs : (a count : ℕ) → Runs n 0 Anything (reading (read count) >>= write_list a count)
  list-Runs a count =
      next-Runs (read-Runs count) (λ bytes _. write-Runs a count (λ i. get_or bytes i 0))

  pub dec_bytes-Runs : (ctx : Context) → Runs n 1 Anything (dec_bytes ctx field dest)
  unfolding dec_bytes
  dec_bytes-Runs ctx = sized-Runs (λ size.
      if-Runs (ltb size_max size) (λ e. raise-Runs bytes_overflow)
        (λ e.
          if-Runs (ltb (bytes_alloc_size size) size) (λ e. raise-Runs size_too_large)
            (λ e. next-Runs (room-Runs ctx (bytes_alloc_size size) bytes_overflow) (λ bdest _.
              then-Runs (write-Runs bdest 4 (Decode.byte_of size)) (list-Runs (bdest + 4) size)))))

  pub dec_string-Runs : (ctx : Context) → Runs n 1 Anything (dec_string ctx field dest)
  unfolding dec_string
  dec_string-Runs ctx = sized-Runs (λ size.
      if-Runs (ltb ((size + 1) % 2 ^ 32) size) (λ e. raise-Runs size_too_large)
        (λ e. next-Runs (room-Runs ctx ((size + 1) % 2 ^ 32) string_overflow) (λ p _.
          next-Runs (attempt-Runs (list-Runs p size)) (λ status _.
            then-Runs (write-Runs (p + size) 1 (Decode.byte_of 0)) (give-Runs status)))))

  pub dec_fixed_length_bytes-Runs : Runs n 1 Anything (dec_fixed_length_bytes field dest)
  unfolding dec_fixed_length_bytes
  dec_fixed_length_bytes-Runs = sized-Runs (λ size.
      if-Runs (ltb size_max size) (λ e. raise-Runs bytes_overflow)
        (λ e.
          if-Runs (size == 0) (λ e. write-Runs dest field.data_size (λ i. 0))
            (λ e.
              if-Runs (size == field.data_size) (λ e. list-Runs dest field.data_size)
                (λ e. raise-Runs wrong_fixed_length))))
