-- ===== src/Json/Options.antt =====
-- The options of the JSON format: include/vcodec/json/options.hpp.
use v_codec.Base.{ℕ, Bool, true, false}
use v_codec.Cbor.Options.{DuplicateKey, ErrorMode, last_wins, fail_fast}

pub record Options : Type 0 where
  pub pretty : Bool
  pub indent : ℕ
  pub max_depth : ℕ
  pub validate_utf8 : Bool
  pub duplicates : DuplicateKey
  pub errors : ErrorMode

-- `options{}`
abbrev pub default_options : Options
default_options = record {
  pretty = false;
  indent = 2;
  max_depth = 256;
  validate_utf8 = true;
  duplicates = last_wins;
  errors = fail_fast;
}
