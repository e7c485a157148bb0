-- ===== src/Cbor/Write.antt =====
-- The CBOR sink: class `writer` of include/vcodec/cbor/write.hpp.
pub mod State
pub mod Sort
pub mod Close
pub mod Laws
