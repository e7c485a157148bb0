-- ===== src/Core/Kind.antt =====
-- What a reader reports: include/vcodec/core/model.hpp.
use v_codec.Base.{ℕ, Bool, Bytes}

-- `kind`: what stands ahead.
pub data Kind : Type 0 where
  null boolean uint sint real text bytes array map tag undefined : Kind

-- `text_ref`: a text, whether it is borrowed from the input, and the length of the item.
pub record TextRef : Type 0 where
  pub content : Bytes
  pub borrowed : Bool
  pub extent : ℕ
