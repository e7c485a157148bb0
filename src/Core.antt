-- ===== src/Core.antt =====
-- The format-free core: include/vcodec/core/ and include/vcodec/error.hpp.
pub mod Error
pub mod Utf8
pub mod Value
pub mod Sink
pub mod Kind
pub mod Call
pub mod Hex
pub mod Base64
pub mod Suggest
pub mod ErrorPath
mod Examples
