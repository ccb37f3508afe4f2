-- ===== src/Nanopb/Decode.antt =====
-- The message decoder of pb_decode.c on streams and memory. A C function that returns a bool, reads
-- its stream and stores through its pointers is a step on both; `false` is `failed`, with the stream
-- and the memory as they are left behind. A read from the stream that fails stores nothing: the
-- bytes that a callback of the user leaves in the buffer before it fails are not kept.
pub mod Value
pub mod Allocate
pub mod Static
pub mod Pointer
pub mod Callback
pub mod One
pub mod Extension
pub mod Required
pub mod Loop
pub mod Messages
pub mod Keeps
pub mod Bounds
pub mod Runs
pub mod Missing
pub mod Stored
mod Tests
use answrapp.Common.{
  ℕ, ◌/◌, ◌%◌, ◌^◌, Bool, true, false, Option, none, some, List, get_or, if◌then◌else◌,
}
use answrapp.Nanopb.Types.{Error, Field, WireType}
use answrapp.Nanopb.Input.{InStream, Result, ok, Decoder}
use answrapp.Nanopb.Input
use answrapp.Nanopb.Substream.{make_string_substream, close_string_substream}
use answrapp.Nanopb.Memory.{Memory}
use answrapp.Nanopb.Iter.{FieldIter, Walk, returned}
use answrapp.Nanopb.Iter
use answrapp.Nanopb.Struct.{Store, Change, changed, Action, write_bytes}
use answrapp.Nanopb.Struct
use answrapp.Nanopb.Struct.Fields.{Descriptors}

pub record Machine : Type 0 where
  pub stream : InStream
  pub store : Store

-- `outside` is a read outside the caller's array of input, `fault` a read through NULL or behind a
-- descriptor or a call of a NULL function, `stuck` a loop or a recursion whose fuel has run out.
pub data Outcome {ℓ} (A : Type ℓ) : Type ℓ where
  done : A → Machine → Outcome A
  failed : Machine → Outcome A
  outside : Outcome A
  fault : Outcome A
  stuck : Outcome A

abbrev pub Step {ℓ} : Type ℓ → Type ℓ
Step A = Machine → Outcome A

abbrev pub and_then {ℓ κ} : {A : Type ℓ} {B : Type κ} → Outcome A → (A → Step B) → Outcome B
and_then (done a s) f = f a s
and_then (failed s) f = failed s
and_then outside f = outside
and_then fault f = fault
and_then stuck f = stuck

infixl 5 ◌>>=◌ ◌>>◌
abbrev pub ◌>>=◌ {ℓ κ} : {A : Type ℓ} {B : Type κ} → Step A → (A → Step B) → Step B
◌>>=◌ m f s = and_then (m s) f

abbrev pub ◌>>◌ {ℓ κ} : {A : Type ℓ} {B : Type κ} → Step A → Step B → Step B
◌>>◌ m k s = and_then (m s) (λ _ t. k t)

abbrev pub pure {ℓ} : {A : Type ℓ} → A → Step A
pure a s = done a s

-- `return status`.
abbrev pub give : Bool → Step (Unit {0})
give status s = if status then done tt s else failed s

abbrev pub with_store {ℓ} : {A : Type ℓ} → Store → Result A → Outcome A
with_store store (ok a t) = done a (record { stream = t; store = store })
with_store store (Input.failed t) = failed (record { stream = t; store = store })
with_store store Input.fault = outside
with_store store Input.stuck = stuck

-- A function of the stream alone.
abbrev pub reading {ℓ} : {A : Type ℓ} → Decoder A → Step A
reading m s = with_store s.store (m s.stream)

abbrev pub raise {ℓ} : {A : Type ℓ} → Error → Step A
raise e = reading (Input.raise e)

abbrev pub with_stream : InStream → Change → Outcome (Unit {0})
with_stream stream (changed t) = done tt (record { stream = stream; store = t })
with_stream stream Struct.fault = fault
with_stream stream Struct.stuck = stuck

-- A function of the memory alone.
abbrev pub changing : Action → Step (Unit {0})
changing m s = with_stream s.stream (m s.store)

abbrev pub loading {ℓ} : {A : Type ℓ} → (Memory → A) → Step A
loading f s = done (f s.store.memory) s

abbrev pub walking : Walk → Step (Bool × FieldIter)
walking (returned b iter) = pure (b, iter)
walking Iter.fault = λ s. fault
walking Iter.stuck = λ s. stuck

-- The returned bool as a value.
abbrev pub status_of {ℓ} : {A : Type ℓ} → Outcome A → Outcome Bool
status_of (done a s) = done true s
status_of (failed s) = done false s
status_of outside = outside
status_of fault = fault
status_of stuck = stuck

abbrev pub attempt {ℓ} : {A : Type ℓ} → Step A → Step Bool
attempt m s = status_of (m s)

-- The lowest byte of a number first.
abbrev pub byte_of : ℕ → ℕ → ℕ
byte_of v i = v / 256 ^ i % 256

abbrev pub write_number : ℕ → ℕ → ℕ → Step (Unit {0})
write_number a count v = changing (write_bytes a count (byte_of v))

abbrev pub write_list : ℕ → ℕ → List ℕ → Step (Unit {0})
write_list a count bytes = changing (write_bytes a count (λ i. get_or bytes i 0))

-- `stream->bytes_left`.
abbrev pub remaining : Step ℕ
remaining s = done s.stream.bytes_left s

-- What an iterator or another pointer to a field points at.
abbrev pub at_field {ℓ} : {A : Type ℓ} → Option Field → (Field → Step A) → Step A
at_field none k = λ s. fault
at_field (some field) k = k field

-- The stream of the functions that are called with `stream` is `stream` from here on; returns the
-- one before.
abbrev pub enter : InStream → Step InStream
enter stream s = done s.stream (record { stream = stream; store = s.store })

-- `pb_make_string_substream`: from here on the stream is the substream. Returns its parent.
unfoldable pub open_substream : Step InStream
open_substream = do substream ← reading make_string_substream; enter substream

-- `pb_close_string_substream`: from here on the stream is the parent again.
unfoldable pub close_substream : InStream → Step (Unit {0})
close_substream parent = do substream ← enter parent; reading (close_string_substream substream)

-- What the decoder takes from outside of pb_decode.c, and the fuel for `Struct`. `realloc` is
-- `pb_realloc` and returns the address, 0 for NULL. `callback` calls the function at an address with
-- the field and `&pCallback->arg`; `extension` calls the function at an address with an extension, a
-- tag and a wire type. `frame` is the address of the local variable `fixed_count_size`.
pub record Context : Type 0 where
  pub descriptor : Descriptors
  pub realloc : ℕ → ℕ → Store → ℕ × Store
  pub callback : ℕ → Field → ℕ → Step (Unit {0})
  pub extension : ℕ → ℕ → ℕ → WireType → Step (Unit {0})
  pub frame : ℕ → ℕ
  pub nesting : ℕ

-- The decoder of a message: `pb_decode`, or `pb_decode_noinit`.
abbrev pub MessageDecoder : Type 0
MessageDecoder = List Field → ℕ → Step (Unit {0})
