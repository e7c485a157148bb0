-- ===== src/Json/Number/Lengths.antt =====
-- A number that was scanned has a character at least.
use v_codec.Base.{
  ℕ, ◌^◌, ◌<◌, Bool, true, false, not, ◌&&◌, Option, none, some, [], ◌∷◌, Bytes, drop, leb, ◌==◌,
  if◌then◌else◌, ◌≡◌, refl, arith, ◌⊎◌, inl, inr,
}
use v_codec.Core.Error.{out_of_range}
use v_codec.Core.Kind.{Kind}
use v_codec.Json.Number.{
  Parsed, NumberScan, integer_part, fraction_part, exponent_after, magnitude_positive, significant,
  minus_ahead, saturated, sign_length, scan_real, scan_integer, scan_parts, scan_from, scan_signed,
  scan_number,
}

-- No number, or one with a length.
abbrev pub HasLength : NumberScan → Type 0
HasLength n = (n.kind ≡ Kind.undefined) ⊎ (0 < n.length)

HasLength-either :
    (b : Bool) (x y : NumberScan) → HasLength x → HasLength y → HasLength (if b then x else y)
HasLength-either true x y hx hy = hx
HasLength-either false x y hx hy = hy

integer_part_positive : (cs : Bytes) (n : ℕ) → integer_part cs ≡ some n → 0 < n
integer_part_positive [] n e = absurd cc
integer_part_positive (c ∷ cs) n e = ground (arith, e)

module _ (from_chars : Bytes → Parsed) where
  scan_real-HasLength :
      (r : NumberScan) (neg : Bool) (text digits exponent : Bytes)
      → 0 < r.length
      → HasLength (scan_real from_chars r neg text digits exponent)
  unfolding scan_real
  scan_real-HasLength r neg text digits exponent l = by_outcome (from_chars text) refl
    where
      by_outcome :
          (x : Parsed)
          → from_chars text ≡ x
          → HasLength (scan_real from_chars r neg text digits exponent)
      by_outcome (Parsed.value bits) e = rw (e, scan_real) (inr l)
      by_outcome Parsed.too_large_or_small e =
          rw (e, scan_real)
            (HasLength-either
              (magnitude_positive (significant true digits) (minus_ahead exponent)
                (saturated 0 (drop (sign_length exponent) exponent)))
              (record r { kind = Kind.undefined; error = out_of_range })
              (record r { kind = Kind.real; d = if neg then 2 ^ 63 else 0 }) (inl refl) (inr l))
      by_outcome Parsed.invalid e = rw (e, scan_real) (inl refl)

  scan_integer-HasLength :
      (r : NumberScan) (neg : Bool) (text digits : Bytes) (v : Option ℕ)
      → 0 < r.length
      → HasLength (scan_integer from_chars r neg text digits v)
  unfolding scan_integer
  scan_integer-HasLength r neg text digits none l = scan_real-HasLength _ neg text digits [] l
  scan_integer-HasLength r neg text digits (some v) l =
      HasLength-either (not neg) _ _ (inr l)
        (HasLength-either (leb v (2 ^ 63)) _ _ (inr l) (scan_real-HasLength _ neg text digits [] l))

  scan_parts-HasLength :
      (s : Bytes) (neg : Bool) (rest : Bytes) (int : ℕ) (frac exp : Option ℕ)
      → 0 < int
      → HasLength (scan_parts from_chars s neg rest int frac exp)
  unfolding scan_parts
  scan_parts-HasLength s neg rest int (some frac) (some exp) l =
      HasLength-either ((frac == 0) && (exp == 0)) _ _
        (scan_integer-HasLength _ neg _ _ _ (omega arith))
        (scan_real-HasLength _ neg _ _ _ (omega arith))
  scan_parts-HasLength s neg rest int (some frac) none l = inl refl
  scan_parts-HasLength s neg rest int none exp l = inl refl

  scan_signed-HasLength :
      (s : Bytes) (neg : Bool) (rest : Bytes) → HasLength (scan_signed from_chars s neg rest)
  unfolding scan_signed scan_from
  scan_signed-HasLength s neg rest = by_part (integer_part rest) refl
    where
      by_part :
          (x : Option ℕ) → integer_part rest ≡ x → HasLength (scan_from from_chars s neg rest x)
      by_part none e = inl refl
      by_part (some int) e =
          scan_parts-HasLength s neg rest int (fraction_part (drop int rest))
            (exponent_after (fraction_part (drop int rest)) (drop int rest))
            (integer_part_positive rest int e)

  pub scan_number-HasLength : (s : Bytes) → HasLength (scan_number from_chars s)
  unfolding scan_number
  scan_number-HasLength [] = scan_signed-HasLength [] false []
  scan_number-HasLength (c ∷ cs) =
      HasLength-either (c == 0x2D) _ _ (scan_signed-HasLength (c ∷ cs) true cs)
        (scan_signed-HasLength (c ∷ cs) false (c ∷ cs))
