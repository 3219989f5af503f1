-- ===== src/Nanopb.antt =====
-- The protobuf codec under CardPang/Pods/nanopb, as the app's build compiles it (PB_FIELD_32BIT,
-- PB_ENABLE_MALLOC, no PB_BUFFER_ONLY, 64-bit size_t, little-endian).
pub mod Types
pub mod Output
pub mod Encode
pub mod Input
pub mod Decode
pub mod Fields
pub mod Message
pub mod Defaults
pub mod RoundTrip
mod Examples
