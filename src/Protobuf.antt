-- ===== src/Protobuf.antt =====
-- internal/protobuf: the decoding of device messages.
pub mod Message
pub mod Flatten
pub mod Decoder
pub mod Packs
pub mod Order
pub mod Names
pub mod Visited
mod Tests
