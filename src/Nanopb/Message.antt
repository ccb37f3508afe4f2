-- ===== src/Nanopb/Message.antt =====
-- Whole messages, pb_encode.c. What an encoder finds behind its pointers is a `Context`: the memory,
-- which encoding does not change, the descriptors by their address, and the functions of the user
-- by theirs.
pub mod Value
pub mod Array
pub mod Proto3
pub mod Basic
pub mod Extension
pub mod Submessage
pub mod Encode
pub mod Consistent
pub mod Ends
pub mod Sizes
pub mod Presence
mod Tests
use answrapp.Common.{ℕ, Bool, List}
use answrapp.Nanopb.Types.{Field}
use answrapp.Nanopb.Output.{Encoder}
use answrapp.Nanopb.Memory.{Memory}

-- `callback` takes the field and the address of `arg`, `extension` the address of the extension.
pub record Context : Type 0 where
  pub memory : Memory
  pub descriptor : ℕ → List Field
  pub callback : ℕ → Field → ℕ → Encoder
  pub extension : ℕ → ℕ → Encoder

-- `pb_encode` as its callees see it: the descriptor of a message and its address.
abbrev pub MessageEncoder : Type 0
MessageEncoder = List Field → ℕ → Encoder

-- What a test finds out; `fault` is a read behind the end of a descriptor, `stuck` a recursion whose
-- fuel has run out.
pub data Answer : Type 0 where
  answer : Bool → Answer
  fault : Answer
  stuck : Answer
