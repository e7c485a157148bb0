-- ===== src/Json/Number.antt =====
-- JSON numbers: include/vcodec/json/number.hpp. A double is its 64 bits.
pub mod Digits
pub mod RoundTrip
pub mod Lengths
use v_codec.Base.{
  ℕ, zero, suc, ◌+◌, ◌-◌, ◌*◌, ◌/◌, ◌%◌, ◌^◌, Bool, true, false, not, ◌||◌, ◌&&◌, Option, none,
  some, List, [], ◌∷◌, ◌++◌, Bytes, length, drop, take, ltb, leb, ◌==◌, if◌then◌else◌,
}
use v_codec.Base.Int.{ℤ, pos, negsuc}
use v_codec.Core.Error.{Errc, invalid_number, out_of_range}
use v_codec.Core.Kind.{Kind}

-- `std::to_chars` for an unsigned number below 10 ^ n, digits before `acc`. The calls have n = 20,
-- for numbers of 64 bits.
unfoldable pub to_chars : ℕ → ℕ → Bytes → Bytes
to_chars zero n acc = acc
to_chars (suc k) n acc =
    let rest = to_chars k (n / 10) ((0x30 + n % 10) ∷ acc) in
    if ltb n 10 then (0x30 + n) ∷ acc else rest

unfoldable pub decimal : ℕ → Bytes
unfolding to_chars
decimal n = to_chars 20 n []

unfoldable pub write_uint : ℕ → Bytes → Bytes
unfolding decimal
write_uint u out = out ++ decimal u

unfoldable pub write_sint : ℤ → Bytes → Bytes
unfolding decimal
write_sint (pos n) out = out ++ decimal n
write_sint (negsuc n) out = out ++ (0x2D ∷ decimal (suc n))

abbrev pub is_digit : ℕ → Bool
is_digit c = leb 0x30 c && leb c 0x39

-- `while (i < n && s[i] >= '0' && s[i] <= '9') ++i`: how many.
unfoldable pub count_digits : Bytes → ℕ
count_digits [] = 0
count_digits (c ∷ cs) = if is_digit c then suc (count_digits cs) else 0

abbrev pub digit_ahead : Bytes → Bool
digit_ahead [] = false
digit_ahead (c ∷ cs) = is_digit c

-- The length of the integer part, if there is one: a zero has no digit behind it.
abbrev pub integer_part : Bytes → Option ℕ
integer_part [] = none
integer_part (c ∷ cs) =
    if c == 0x30
    then (if digit_ahead cs then none else some 1)
    else if leb 0x31 c && leb c 0x39
    then some (suc (count_digits cs))
    else none

-- Digits there must be, `before` characters behind the start of their part.
abbrev pub some_digits : ℕ → Bytes → Option ℕ
some_digits before cs = if digit_ahead cs then some (before + count_digits cs) else none

-- The length of the fraction, 0 if there is none.
abbrev pub fraction_part : Bytes → Option ℕ
fraction_part [] = some 0
fraction_part (c ∷ cs) = if c == 0x2E then some_digits 1 cs else some 0

abbrev pub sign_length : Bytes → ℕ
sign_length [] = 0
sign_length (c ∷ cs) = if (c == 0x2B) || (c == 0x2D) then 1 else 0

-- The length of the exponent, 0 if there is none.
abbrev pub exponent_part : Bytes → Option ℕ
exponent_part [] = some 0
exponent_part (c ∷ cs) =
    if (c == 0x65) || (c == 0x45)
    then some_digits (1 + sign_length cs) (drop (sign_length cs) cs)
    else some 0

-- The value of the digits, `none` if it overflows 64 bits.
unfoldable pub accumulate : ℕ → Bytes → Option ℕ
accumulate v [] = some v
accumulate v (c ∷ cs) =
    let d = c - 0x30 in
    let rest = accumulate (v * 10 + d) cs in if ltb ((2 ^ 64 - 1 - d) / 10) v then none else rest

-- `number_scan`
pub record NumberScan : Type 0 where
  pub kind : Kind
  pub length : ℕ
  pub u : ℕ
  pub i : ℤ
  pub d : ℕ
  pub error : Errc
  pub overflow : Bool

-- `number_scan r;`
abbrev pub no_number : NumberScan
no_number = record {
  kind = Kind.undefined;
  length = 0;
  u = 0;
  i = pos 0;
  d = 0;
  error = invalid_number;
  overflow = false;
}

-- What `std::from_chars` comes to for a literal: the bits of the double, or `ec`.
pub data Parsed : Type 0 where
  value : ℕ → Parsed
  too_large_or_small : Parsed
  invalid : Parsed

-- `-std::int64_t(v)`, for `v` up to 2 ^ 63.
abbrev pub negated : ℕ → ℤ
negated zero = pos 0
negated (suc n) = negsuc n

-- The significant digits in front of the point: leading zeros do not count.
abbrev pub significant : Bool → Bytes → ℕ
significant leading [] = 0
significant leading (c ∷ cs) =
    if not (is_digit c)
    then 0
    else if leading && (c == 0x30)
    then significant leading cs
    else suc (significant false cs)

-- The decimal exponent of the literal, that stops growing at 100000.
abbrev pub saturated : ℕ → Bytes → ℕ
saturated e [] = e
saturated e (c ∷ cs) =
    let rest = saturated (if ltb e 100000 then e * 10 + (c - 0x30) else e) cs in
    if is_digit c then rest else e

-- Whether the sign of the exponent is a minus.
abbrev pub minus_ahead : Bytes → Bool
minus_ahead [] = false
minus_ahead (c ∷ cs) = c == 0x2D

-- `magnitude > 0`, of the number of integer digits and the exponent.
abbrev pub magnitude_positive : ℕ → Bool → ℕ → Bool
magnitude_positive digits minus e = if minus then ltb (1 + e) digits else ltb 1 (digits + e)

abbrev pub exponent_after : Option ℕ → Bytes → Option ℕ
exponent_after none cs = none
exponent_after (some frac) cs = exponent_part (drop frac cs)

module _ (from_chars : Bytes → Parsed) where
  -- The literal as a double; `digits` is what follows the sign, `exponent` what follows the `e`.
  unfoldable pub scan_real : NumberScan → Bool → Bytes → Bytes → Bytes → NumberScan
  scan_real r neg literal digits exponent = elim (from_chars literal) [
    | value bits ↦ record r { kind = Kind.real; d = bits }
    | too_large_or_small ↦
        if magnitude_positive (significant true digits) (minus_ahead exponent)
          (saturated 0 (drop (sign_length exponent) exponent))
        then record r { kind = Kind.undefined; error = out_of_range }
        else record r { kind = Kind.real; d = if neg then 2 ^ 63 else 0 }
    | invalid ↦ record r { kind = Kind.undefined }
  ]

  -- A literal without fraction and exponent, whose value is `v` if it does not overflow.
  unfoldable pub scan_integer : NumberScan → Bool → Bytes → Bytes → Option ℕ → NumberScan
  scan_integer r neg literal digits none =
      scan_real (record r { overflow = true }) neg literal digits []
  scan_integer r neg literal digits (some v) =
      if not neg
      then record r { kind = Kind.uint; u = v }
      else if leb v (2 ^ 63)
      then record r { kind = Kind.sint; i = negated v }
      else scan_real (record r { overflow = true }) neg literal digits []

  -- The number at the front of `s`, whose parts have these lengths; `rest` is what follows the sign.
  unfoldable pub scan_parts : Bytes → Bool → Bytes → ℕ → Option ℕ → Option ℕ → NumberScan
  scan_parts s neg rest int (some frac) (some exp) =
      let sign = if neg then 1 else 0 in
      let size = sign + int + frac + exp in
      let r = record no_number { length = size } in
      if (frac == 0) && (exp == 0)
      then scan_integer r neg (take size s) (take int rest) (accumulate 0 (take int rest))
      else scan_real r neg (take size s) (take int rest)
          (if exp == 0 then [] else take (exp - 1) (drop (int + frac + 1) rest))
  scan_parts s neg rest int _ _ = no_number

  unfoldable pub scan_from : Bytes → Bool → Bytes → Option ℕ → NumberScan
  scan_from s neg rest none = no_number
  scan_from s neg rest (some int) =
      let frac = fraction_part (drop int rest) in
      scan_parts s neg rest int frac (exponent_after frac (drop int rest))

  unfoldable pub scan_signed : Bytes → Bool → Bytes → NumberScan
  unfolding scan_from
  scan_signed s neg rest = scan_from s neg rest (integer_part rest)

  -- `scan_number`
  unfoldable pub scan_number : Bytes → NumberScan
  scan_number [] = scan_signed [] false []
  scan_number (c ∷ cs) =
      if c == 0x2D then scan_signed (c ∷ cs) true cs else scan_signed (c ∷ cs) false (c ∷ cs)
