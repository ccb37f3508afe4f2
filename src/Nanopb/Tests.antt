-- ===== src/Nanopb/Tests.antt =====
-- The theorems on nanopb at concrete inputs.
use answrapp.Common.{
  ℕ, ◌+◌, ◌*◌, ◌^◌, ◌≤◌, ◌≡◌, refl, inl, inr, Bool, true, false, Option, none, some, List, [], ◌∷◌,
  ◌++◌, arith, leb, ltb, if◌then◌else◌, length,
}
use answrapp.Common.Int.{negsuc}
use answrapp.Nanopb.Types.{
  Error, Field, wt_varint, wt_64bit, wt_string, wt_32bit, bytes_overflow, string_overflow,
  integer_too_large, size_too_large, realloc_failed,
}
use answrapp.Nanopb.Types.Ltype
use answrapp.Nanopb.Input.{InStream, istream_from_buffer, ok, and_then, pure, read, raise}
use answrapp.Nanopb.Input.Buffer.{over}
use answrapp.Nanopb.Input.Safety.{IsValid, Post}
use answrapp.Nanopb.Input.Contents.{Reads, read-Reads}
use answrapp.Nanopb.Input.Parses.{Parses, read-Parses}
use answrapp.Nanopb.Substream.{make_string_substream, inside, substream_lem}
use answrapp.Nanopb.Iter.{FieldIter, iter_find}
use answrapp.Nanopb.Iter.Step.{Descriptor}
use answrapp.Nanopb.Iter.Search.{Finds, iter_find_lem}
use answrapp.Nanopb.Output.{write}
use answrapp.Nanopb.Output.Emits.{Emits, write-Emits}
use answrapp.Nanopb.Varint.{decode_varint, decode_varint32}
use answrapp.Nanopb.Varint.Format.{varint}
use answrapp.Nanopb.Scalar.{decode_tag, decode_svarint, skip_field, read_raw_value}
use answrapp.Nanopb.Scalar.Encode.{encode_varint, encode_svarint, encode_tag}
use answrapp.Nanopb.Scalar.RoundTrip.{
  RoundTrips, varint_round_trip, varint32_round_trip, svarint_round_trip,
}
use answrapp.Nanopb.Scalar.Tags.{tag_round_trip}
use answrapp.Nanopb.Scalar.Skip.{skip_field_lem}
use answrapp.Nanopb.Scalar.Safety.{
  TagBounds, skip_field-IsSafe, decode_tag-Post, read_raw_value-Ensures,
}
use answrapp.Nanopb.Field.{
  allocate_field, dec_varint, dec_uvarint, dec_svarint, dec_bytes, dec_string,
  dec_fixed_length_bytes,
}
use answrapp.Nanopb.Field.Encode.{
  enc_varint, enc_uvarint, enc_svarint, enc_bytes, enc_string, enc_fixed_length_bytes,
}
use answrapp.Nanopb.Field.Allocation.{allocate_field_lem}
use answrapp.Nanopb.Field.Integers.{
  dec_uvarint_lem, varint_field_round_trip, uvarint_field_round_trip, svarint_field_round_trip,
}
use answrapp.Nanopb.Field.Blobs.{
  dec_bytes_lem, dec_string_lem, bytes_round_trip, string_round_trip, fixed_length_round_trip,
}

-- A required field with the data type and the size given.
abbrev field_of : ℕ → ℕ → Field
field_of type data_size = record {
  tag = 1;
  type = type;
  data_offset = 0;
  size_offset = 0;
  data_size = data_size;
  array_size = 0;
  ptr = none;
}

abbrev always : ℕ → Bool
always size = true

-- The bytes of 300 and a byte behind them.
abbrev three_hundred : InStream
three_hundred = istream_from_buffer (0xac ∷ 0x02 ∷ 0x07 ∷ []) 3

three_hundred-IsValid : IsValid three_hundred
three_hundred-IsValid = record {
  serves = (omega arith, (omega arith, (omega arith, (omega arith, tt))));
  fits = omega arith;
}

varint_round_trip_example : RoundTrips (encode_varint 300) decode_varint 300
varint_round_trip_example = varint_round_trip 300 (omega arith)

varint32_round_trip_example : RoundTrips (encode_varint 300) decode_varint32 300
varint32_round_trip_example = varint32_round_trip 300 (omega arith)

svarint_round_trip_example : RoundTrips (encode_svarint (negsuc 300)) decode_svarint (negsuc 300)
svarint_round_trip_example = svarint_round_trip (negsuc 300) (omega arith)

tag_round_trip_example :
    (bytes : List ℕ) × Emits (encode_tag 2 20) bytes
    × ((rest : List ℕ) (n : ℕ) (err : Option Error)
        → decode_tag (over (bytes ++ rest) (length bytes + n) err)
          ≡ (ok (record { wire_type = 2; tag = 20 }) (over rest n err), false))
tag_round_trip_example = tag_round_trip 2 20 (omega arith) (omega arith) (omega arith)

skip_field_lem_example :
    Parses (skip_field wt_varint) (varint 9 300) tt
    × Parses (skip_field wt_64bit) (1 ∷ 2 ∷ 3 ∷ 4 ∷ 5 ∷ 6 ∷ 7 ∷ 8 ∷ []) tt
    × Parses (skip_field wt_string) (varint 9 2 ++ 65 ∷ 66 ∷ []) tt
    × Parses (skip_field wt_32bit) (1 ∷ 2 ∷ 3 ∷ 4 ∷ []) tt
skip_field_lem_example =
    skip_field_lem 300 (1 ∷ 2 ∷ 3 ∷ 4 ∷ 5 ∷ 6 ∷ 7 ∷ 8 ∷ []) (1 ∷ 2 ∷ 3 ∷ 4 ∷ []) (65 ∷ 66 ∷ [])
      (omega arith) refl refl (omega arith)

skip_field-IsSafe_example : Post (λ _. Unit) three_hundred (skip_field wt_string three_hundred)
skip_field-IsSafe_example = skip_field-IsSafe wt_string three_hundred three_hundred-IsValid

decode_tag-Post_example : Post TagBounds three_hundred (decode_tag three_hundred).0
decode_tag-Post_example = decode_tag-Post three_hundred three_hundred-IsValid

read_raw_value-Ensures_example :
    Post (λ bytes. length bytes ≤ 10) three_hundred (read_raw_value wt_varint 10 three_hundred)
read_raw_value-Ensures_example =
    read_raw_value-Ensures wt_varint 10 (omega arith) three_hundred three_hundred-IsValid

read-Reads_example : Reads 2 three_hundred (read 2 three_hundred)
read-Reads_example = read-Reads 2 three_hundred three_hundred-IsValid

write-Emits_example : Emits (write (1 ∷ 2 ∷ [])) (1 ∷ 2 ∷ [])
write-Emits_example = write-Emits (1 ∷ 2 ∷ []) (omega arith)

dec_uvarint_lem_example :
    dec_uvarint
      (field_of Ltype.uvarint 1)
      (over (varint 9 300 ++ []) (length (varint 9 300) + 0) none)
    ≡ (if ltb 300 (2 ^ (8 * 1)) then pure 300 else raise integer_too_large) (over [] 0 none)
dec_uvarint_lem_example =
    dec_uvarint_lem (field_of Ltype.uvarint 1) 300 0 [] none (inl refl) (omega arith)

varint_field_round_trip_example :
    RoundTrips
      (enc_varint (field_of Ltype.varint 2) (negsuc 300))
      (dec_varint (field_of Ltype.varint 2))
      (negsuc 300)
varint_field_round_trip_example =
    varint_field_round_trip (field_of Ltype.varint 2) (negsuc 300) (inr (inl refl)) (omega arith)

uvarint_field_round_trip_example :
    RoundTrips
      (enc_uvarint (field_of Ltype.uvarint 2) 300)
      (dec_uvarint (field_of Ltype.uvarint 2))
      300
uvarint_field_round_trip_example =
    uvarint_field_round_trip (field_of Ltype.uvarint 2) 300 (inr (inl refl)) (omega arith)

svarint_field_round_trip_example :
    RoundTrips
      (enc_svarint (field_of Ltype.svarint 2) (negsuc 300))
      (dec_svarint (field_of Ltype.svarint 2))
      (negsuc 300)
svarint_field_round_trip_example =
    svarint_field_round_trip (field_of Ltype.svarint 2) (negsuc 300) (inr (inl refl)) (omega arith)

dec_bytes_lem_example :
    dec_bytes always
      (field_of Ltype.bytes 8)
      (over (varint 9 5 ++ []) (length (varint 9 5) + 0) none)
    ≡ (if leb (5 + 4) 8 then read 5 else raise bytes_overflow) (over [] 0 none)
dec_bytes_lem_example = dec_bytes_lem always (field_of Ltype.bytes 8) 5 0 [] none refl (omega arith)

dec_string_lem_example :
    dec_string always
      (field_of Ltype.string 8)
      (over (varint 9 8 ++ []) (length (varint 9 8) + 0) none)
    ≡ (if leb (8 + 1) 8 then read 8 else raise string_overflow) (over [] 0 none)
dec_string_lem_example =
    dec_string_lem always (field_of Ltype.string 8) 8 0 [] none refl (omega arith)

bytes_round_trip_example :
    RoundTrips
      (enc_bytes (field_of Ltype.bytes 8) (some (1 ∷ 2 ∷ [])))
      (dec_bytes always (field_of Ltype.bytes 8))
      (1 ∷ 2 ∷ [])
bytes_round_trip_example =
    bytes_round_trip always (field_of Ltype.bytes 8) (1 ∷ 2 ∷ []) refl (omega arith) (omega arith)

string_round_trip_example :
    RoundTrips
      (enc_string (field_of Ltype.string 8) (some ((72 ∷ 105 ∷ []) ++ 0 ∷ 9 ∷ [])))
      (dec_string always (field_of Ltype.string 8))
      (72 ∷ 105 ∷ [])
string_round_trip_example =
    string_round_trip always (field_of Ltype.string 8) (72 ∷ 105 ∷ []) (9 ∷ []) refl (omega arith)
      ((λ h. omega arith), ((λ h. omega arith), tt)) (omega arith)

fixed_length_round_trip_example :
    RoundTrips
      (enc_fixed_length_bytes (1 ∷ 2 ∷ []))
      (dec_fixed_length_bytes (field_of Ltype.fixed_length_bytes 2))
      (1 ∷ 2 ∷ [])
fixed_length_round_trip_example =
    fixed_length_round_trip (field_of Ltype.fixed_length_bytes 2) (1 ∷ 2 ∷ []) (omega arith) refl
      (omega arith)

read_two : Parses (read 2) (1 ∷ 2 ∷ []) (1 ∷ 2 ∷ [])
read_two = read-Parses (1 ∷ 2 ∷ [])

substream_lem_example :
    Parses
      (λ s. and_then (make_string_substream s) (inside (read 2)))
      (varint 9 (length {A = ℕ} ((1 ∷ 2 ∷ []) ++ 3 ∷ [])) ++ ((1 ∷ 2 ∷ []) ++ 3 ∷ []))
      (1 ∷ 2 ∷ [])
substream_lem_example =
    substream_lem (read 2) (1 ∷ 2 ∷ []) (3 ∷ []) (1 ∷ 2 ∷ []) (omega arith) read_two

abbrev tagged_field : ℕ → Field
tagged_field tag = record {
  tag = tag;
  type = Ltype.varint;
  data_offset = 0;
  size_offset = 0;
  data_size = 4;
  array_size = 0;
  ptr = none;
}

-- Two fields and the terminator, from the second field on.
abbrev second_of_two : FieldIter
second_of_two = record {
  start = tagged_field 1 ∷ tagged_field 2 ∷ tagged_field 0 ∷ [];
  pos = 1;
  required_field_index = 1;
  dest_struct = 4096;
  p_data = 4100;
  p_size = 4100;
}

two_fields : Descriptor second_of_two.start
two_fields = record {
  own = tagged_field 1 ∷ tagged_field 2 ∷ [];
  end = tagged_field 0;
  shape = refl;
  tagged = ((λ h. omega arith), ((λ h. omega arith), tt));
  ended = refl;
}

iter_find_lem_example :
    Finds 1 second_of_two.start
      (length two_fields.own)
      second_of_two.pos
      (iter_find 1 second_of_two)
unfolding two_fields
iter_find_lem_example = iter_find_lem 1 second_of_two two_fields (omega arith)

allocate_field_lem_example :
    allocate_field always 8 4 three_hundred
    ≡ (if leb (2 ^ 64) (4 * 8)
          then raise size_too_large
          else if always (4 * 8)
          then pure tt
          else raise realloc_failed)
        three_hundred
allocate_field_lem_example = allocate_field_lem always 8 4 three_hundred (omega arith) (omega arith)
