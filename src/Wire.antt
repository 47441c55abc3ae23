-- ===== src/Wire.antt =====
-- The format on the wire: what the server writes, the client reads, and the other way round for the header.
pub mod Format
pub mod Encode
pub mod Decode
pub mod Header
pub mod Overflow
