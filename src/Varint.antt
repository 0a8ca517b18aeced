-- ===== src/Varint.antt =====
-- ULEB128 of src/varint.rs and src/wire_format.rs.
pub mod Codec
pub mod RoundTrip
pub mod Halves
mod Tests
