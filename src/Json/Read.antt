-- ===== src/Json/Read.antt =====
-- The JSON reader: include/vcodec/json/read.hpp.
pub mod State
pub mod Strings
pub mod Expect
pub mod Skip
pub mod Whole
pub mod RoundTrip
mod Examples
