-- ===== src/Cbor/Options.antt =====
-- The options of the CBOR format: include/vcodec/cbor/options.hpp and include/vcodec/options.hpp.
use v_codec.Base.{ℕ, Bool, true, false}

pub data Width : Type 0 where
  preferred half single double : Width

pub data DuplicateKey : Type 0 where
  last_wins first_wins error : DuplicateKey

pub data ErrorMode : Type 0 where
  fail_fast collect : ErrorMode

pub record Options : Type 0 where
  pub deterministic : Bool
  pub indefinite : Bool
  pub floats : Width
  pub self_describe : Bool
  pub require_deterministic : Bool
  pub ignore_unknown_tags : Bool
  pub undefined_as_null : Bool
  pub accept_typed_arrays : Bool
  pub max_depth : ℕ
  pub validate_utf8 : Bool
  pub duplicates : DuplicateKey
  pub errors : ErrorMode

-- `options{}`
abbrev pub default_options : Options
default_options = record {
  deterministic = true;
  indefinite = false;
  floats = preferred;
  self_describe = false;
  require_deterministic = false;
  ignore_unknown_tags = true;
  undefined_as_null = true;
  accept_typed_arrays = true;
  max_depth = 256;
  validate_utf8 = true;
  duplicates = last_wins;
  errors = fail_fast;
}
