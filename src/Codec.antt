-- ===== src/Codec.antt =====
-- src/session/packet_codec.rs: the encoding of a dissected packet in a record of bytes.
pub mod Intern
pub mod Write
pub mod Read
pub mod Varint
pub mod Decode
pub mod Encode
pub mod Local
pub mod Reads
pub mod Values
pub mod Parts
pub mod Ids
pub mod RoundTrip
pub mod Damage
pub mod Gives
pub mod Safe
pub mod Again
