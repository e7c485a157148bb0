-- ===== src/Core/Value.antt =====
-- The values that `core::encode` hands to a sink, after include/vcodec/core/traverse.hpp has
-- classified a C++ value: an optional is its content or `null`, a tuple or a range is a sequence, a
-- range whose size is not known is `unsized`, a map has text or integer keys, and a member with
-- tags is `tagged`. Floating types, structs and custom codecs are not among them.
use v_codec.Base.{ℕ, Bool, Bytes}
use v_codec.Base.Int.{ℤ}

pub data Key : Type 0 where
  text : Bytes → Key
  uint : ℕ → Key
  sint : ℤ → Key

mutual
  pub data Value : Type 0 where
    null : Value
    boolean : Bool → Value
    uint : ℕ → Value
    sint : ℤ → Value
    text : Bytes → Value
    bytes : Bytes → Value
    tagged : ℕ → Value → Value
    sequence : Values → Value
    unsized : Values → Value
    map : Entries → Value

  pub data Values : Type 0 where
    nil : Values
    cons : Value → Values → Values

  pub data Entries : Type 0 where
    end : Entries
    entry : Key → Value → Entries → Entries

-- `std::ranges::size`
unfoldable mutual
  pub values_size : Values → ℕ
  values_size nil = 0
  values_size (cons v vs) = Prim.Native.Nat.suc (values_size vs)

unfoldable mutual
  pub entries_size : Entries → ℕ
  entries_size end = 0
  entries_size (entry k v es) = Prim.Native.Nat.suc (entries_size es)
