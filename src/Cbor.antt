-- ===== src/Cbor.antt =====
-- The CBOR format: include/vcodec/cbor/.
pub mod Head
pub mod Options
pub mod Write
pub mod Encode
pub mod Read
mod Examples
