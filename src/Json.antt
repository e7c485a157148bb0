-- ===== src/Json.antt =====
-- The JSON format: include/vcodec/json/.
pub mod Annotations
pub mod Options
pub mod Escape
pub mod Number
pub mod Read
pub mod Write
mod Examples
