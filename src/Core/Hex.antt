-- ===== src/Core/Hex.antt =====
-- Hexadecimal digits: `hex_encode` and `hex_decode` of include/vcodec/core/lower.hpp.
pub mod RoundTrip
use v_codec.Base.{
  ℕ, zero, suc, ◌+◌, ◌-◌, ◌*◌, ◌/◌, ◌%◌, Bool, true, false, ◌&&◌, Option, none, some, List, [], ◌∷◌,
  ◌++◌, Bytes, length, get_elem?, leb, ◌==◌, if◌then◌else◌,
}

-- "0123456789abcdef"
abbrev pub hex_digits : Bytes
hex_digits =
    0x30 ∷ 0x31 ∷ 0x32 ∷ 0x33 ∷ 0x34 ∷ 0x35 ∷ 0x36 ∷ 0x37 ∷ 0x38 ∷ 0x39 ∷ 0x61 ∷ 0x62 ∷ 0x63 ∷ 0x64
    ∷ 0x65 ∷ 0x66 ∷ []

-- `table[i]`; a table is never read past its end, where the model reads 0.
abbrev pub or_zero : Option ℕ → ℕ
or_zero none = 0
or_zero (some c) = c

unfoldable pub char_at : Bytes → ℕ → ℕ
char_at table i = or_zero (get_elem? table i)

-- `hex_value`, where `none` stands for -1.
unfoldable pub hex_value : ℕ → Option ℕ
hex_value c =
    if leb 0x30 c && leb c 0x39
    then some (c - 0x30)
    else if leb 0x61 c && leb c 0x66
    then some (c - 0x61 + 10)
    else if leb 0x41 c && leb c 0x46
    then some (c - 0x41 + 10)
    else none

unfoldable pub hex_encode : Bytes → Bytes → Bytes
hex_encode [] out = out
hex_encode (b ∷ bs) out =
    hex_encode bs (out ++ (char_at hex_digits (b / 16) ∷ char_at hex_digits (b % 16) ∷ []))

-- A byte is appended if both digits have a value.
abbrev pub hex_pair : Option ℕ → Option ℕ → Bytes → Bool × Bytes → Bool × Bytes
hex_pair (some hi) (some lo) out next = next
hex_pair _ _ out next = (false, out)

abbrev pub digits_value : Option ℕ → Option ℕ → ℕ
digits_value hi lo = or_zero hi * 16 + or_zero lo

-- The loop, over the pairs of characters; what was appended before a failure stays.
unfoldable pub hex_pairs : Bytes → Bytes → Bool × Bytes
hex_pairs (c ∷ d ∷ rest) out =
    hex_pair (hex_value c) (hex_value d) out
      (hex_pairs rest (out ++ (digits_value (hex_value c) (hex_value d) ∷ [])))
hex_pairs _ out = (true, out)

-- Whether it succeeds, and the bytes behind `out`.
unfoldable pub hex_decode : Bytes → Bytes → Bool × Bytes
unfolding hex_pairs
hex_decode in' out = if length in' % 2 == 0 then hex_pairs in' out else (false, out)
