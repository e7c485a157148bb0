-- ===== src/Json/Annotations.antt =====
-- The annotations of the JSON format: include/vcodec/json/annotations.hpp.

-- `bytes_encoding`
pub data BytesEncoding : Type 0 where
  base64 base64url hex : BytesEncoding
