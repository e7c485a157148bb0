-- ===== src/Json/Number/RoundTrip.antt =====
-- Scanning an integer that was written.
use v_codec.Base.{
  ℕ, suc, ◌+◌, ◌^◌, ◌<◌, Bool, true, false, ◌||◌, some, [], ◌∷◌, ◌++◌, Bytes, length, drop,
  drop-append, take, take-append, leb, ◌==◌, if◌then◌else◌, ◌≡◌, refl, ap, ◌∙◌, arith, All,
}
use v_codec.Base.Int.{negsuc}
use v_codec.Core.Kind.{Kind}
use v_codec.Json.Number.{
  Parsed, no_number, decimal, accumulate, integer_part, fraction_part, exponent_part,
  exponent_after, scan_integer, scan_parts, scan_from, scan_signed, scan_number,
}
use v_codec.Json.Number.Digits.{
  IsDigit, EndsNumber, decimal-IsDigit, accumulate-decimal, digit_ahead-EndsNumber,
  integer_part-decimal,
}

fraction_part-EndsNumber : (rest : Bytes) → EndsNumber rest → fraction_part rest ≡ some 0
fraction_part-EndsNumber [] h = refl
fraction_part-EndsNumber (c ∷ cs) (_, no_point, _, _) = ground arith

exponent_part-EndsNumber : (rest : Bytes) → EndsNumber rest → exponent_part rest ≡ some 0
exponent_part-EndsNumber [] h = refl
exponent_part-EndsNumber (c ∷ cs) (_, _, no_small, no_large) =
    let other : ((c == 0x65) || (c == 0x45)) ≡ false = ground arith in rw other

module _ (from_chars : Bytes → Parsed) where
  -- The digits of `n`, behind the sign if there is one.
  scan_signed-decimal :
      (s rest : Bytes) (neg : Bool) (n : ℕ)
      → n < 2 ^ 64
      → EndsNumber rest
      → scan_signed from_chars s neg (decimal n ++ rest)
        ≡ scan_integer from_chars
            (record no_number { length = (if neg then 1 else 0) + length (decimal n) + 0 + 0 })
            neg
            (take ((if neg then 1 else 0) + length (decimal n) + 0 + 0) s)
            (decimal n)
            (some n)
  unfolding scan_signed scan_from scan_parts
  scan_signed-decimal s rest neg n f h =
      let ds = decimal n in
      let sign = if neg then 1 else 0 in
      let size = sign + length ds + 0 + 0 in
      let behind : drop (length ds) (ds ++ rest) ≡ rest = drop-append ds rest in
      let no_fraction : fraction_part (drop (length ds) (ds ++ rest)) ≡ some 0 =
        ap fraction_part behind ∙ fraction_part-EndsNumber rest h in
      let no_exponent : exponent_after (some 0) (drop (length ds) (ds ++ rest)) ≡ some 0 =
        ap exponent_part behind ∙ exponent_part-EndsNumber rest h in
      ap (scan_from from_chars s neg (ds ++ rest))
        (integer_part-decimal n rest f (digit_ahead-EndsNumber rest h))
      ∙ ap
          (λ x.
            scan_parts from_chars s neg (ds ++ rest) (length ds) x
              (exponent_after x (drop (length ds) (ds ++ rest))))
          no_fraction
      ∙ ap (scan_parts from_chars s neg (ds ++ rest) (length ds) (some 0)) no_exponent
      ∙ ap
          (λ x.
            scan_integer from_chars (record no_number { length = size }) neg (take size s) x
              (accumulate 0 x))
          (take-append ds rest)
      ∙ ap (scan_integer from_chars (record no_number { length = size }) neg (take size s) ds)
          (accumulate-decimal n f)

  first_digit :
      (n : ℕ) (rest : Bytes)
      → n < 2 ^ 64
      → scan_number from_chars (decimal n ++ rest)
        ≡ scan_signed from_chars (decimal n ++ rest) false (decimal n ++ rest)
  unfolding scan_number
  first_digit n rest f =
      by_front (decimal n) (decimal-IsDigit n) _ (integer_part-decimal n [] f refl)
    where
      by_front :
          (ds : Bytes)
          → All IsDigit ds
          → (k : ℕ) → integer_part (ds ++ []) ≡ some k
          → scan_number from_chars (ds ++ rest)
            ≡ scan_signed from_chars (ds ++ rest) false (ds ++ rest)
      by_front [] h k e = absurd cc
      by_front (c ∷ cs) ((l, u), h) k e =
          let no_minus : (c == 0x2D) ≡ false = ground arith in rw no_minus

  -- For an unsigned number below 2^64, in front of something that does not go on with a number,
  -- `scan_number` of its decimal digits is that number, of the kind uint, with the number of its
  -- digits as the length.
  pub scan_number-decimal :
      (n : ℕ) (rest : Bytes)
      → n < 2 ^ 64
      → EndsNumber rest
      → scan_number from_chars (decimal n ++ rest)
        ≡ record no_number { kind = Kind.uint; length = length (decimal n); u = n }
  unfolding scan_integer
  scan_number-decimal n rest f h =
      first_digit n rest f
      ∙ scan_signed-decimal (decimal n ++ rest) rest false n f h
      ∙ ap (λ k. record no_number { kind = Kind.uint; length = k; u = n }) (omega arith)

  -- For a negative number from -2^63 on, in front of something that does not go on with a number,
  -- `scan_number` of a minus and its decimal digits is that number, of the kind sint, with their
  -- number as the length.
  pub scan_number-minus :
      (n : ℕ) (rest : Bytes)
      → n < 2 ^ 63
      → EndsNumber rest
      → scan_number from_chars ((0x2D ∷ decimal (suc n)) ++ rest) ≡ record no_number {
        kind = Kind.sint;
        length = suc (length (decimal (suc n)));
        i = negsuc n;
      }
  unfolding scan_number scan_integer
  scan_number-minus n rest f h =
      let fits : leb (suc n) (2 ^ 63) ≡ true = ground arith in
      scan_signed-decimal ((0x2D ∷ decimal (suc n)) ++ rest) rest true (suc n) (omega arith) h
      ∙ rw fits
          (ap (λ k. record no_number { kind = Kind.sint; length = k; i = negsuc n }) (omega arith))
