-- ===== src/Cbor/Read.antt =====
-- The type-directed CBOR reader: class `reader` of include/vcodec/cbor/read.hpp. `pending_` is
-- never assigned by the class, so `take_pending` always succeeds and is left out.
pub mod State
pub mod Strings
pub mod Skip
pub mod Laws
pub mod Expect
pub mod RoundTrip
pub mod Whole
