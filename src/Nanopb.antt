-- ===== src/Nanopb.antt =====
-- nanopb, the protocol buffer codec behind the app's diagnostics and transport events:
-- ANSWR/Pods/nanopb (pb.h, pb_common.c, pb_decode.c, pb_encode.c).
pub mod Types
pub mod Input
pub mod Output
pub mod Varint
pub mod Scalar
pub mod Field
pub mod Substream
pub mod Struct
pub mod Iter
pub mod Memory
pub mod Message
pub mod Decode
mod Tests
