-- ===== src/Json/Number/Digits.antt =====
-- The decimal digits of a number, and reading them.
use v_codec.Base.{
  ℕ, zero, suc, ◌+◌, ◌-◌, ◌*◌, ◌/◌, ◌%◌, ◌^◌, ◌≤◌, ◌<◌, ◌≢◌, true, false, ◌&&◌, some, [], ◌∷◌, ◌++◌,
  Bytes, length, ltb, leb, ◌==◌, ◌≡◌, refl, ap, ◌∙◌, arith, All, Bool-cases, inl, inr,
}
use v_codec.Json.Number.{
  to_chars, decimal, is_digit, count_digits, digit_ahead, integer_part, accumulate,
}

abbrev pub IsDigit : ℕ → Type 0
IsDigit c = (0x30 ≤ c) × (c ≤ 0x39)

-- What follows a number does not go on with a digit, a fraction or an exponent.
abbrev pub EndsNumber : Bytes → Type 0
EndsNumber [] = Unit
EndsNumber (c ∷ cs) = (is_digit c ≡ false) × (c ≢ 0x2E) × (c ≢ 0x65) × (c ≢ 0x45)

to_chars-IsDigit : (k n : ℕ) (acc : Bytes) → All IsDigit acc → All IsDigit (to_chars k n acc)
unfolding to_chars
to_chars-IsDigit zero n acc h = h
to_chars-IsDigit (suc k) n acc h = elim (Bool-cases (ltb n 10)) [
  | inl e ↦ rw e ((omega arith, ground arith), h)
  | inr e ↦
      rw e (to_chars-IsDigit k (n / 10) ((0x30 + n % 10) ∷ acc) ((omega arith, omega arith), h))
]

pub decimal-IsDigit : (n : ℕ) → All IsDigit (decimal n)
unfolding decimal
decimal-IsDigit n = to_chars-IsDigit 20 n [] tt

-- The powers of ten are those that a literal exponent computes to.
abbrev tens : ℕ → ℕ
tens zero = 1
tens (suc k) = 10 * tens k

more_digits : (k n : ℕ) → n < tens (suc k) → 10 ≤ n → 0 < k
more_digits zero n h l = absurd (omega arith)
more_digits (suc k) n h l = omega arith

accumulate-to_chars :
    (k n : ℕ) (acc : Bytes)
    → n < tens k
    → 0 < k
    → n < 2 ^ 64
    → accumulate 0 (to_chars k n acc) ≡ accumulate n acc
unfolding to_chars accumulate
accumulate-to_chars zero n acc h l f = absurd (omega arith)
accumulate-to_chars (suc k) n acc h l f = elim (Bool-cases (ltb n 10)) [
  | inl e ↦
      let fits : ltb ((2 ^ 64 - 1 - (0x30 + n - 0x30)) / 10) 0 ≡ false = ground arith in
      rw (e, fits) (ap (λ v. accumulate v acc) (omega arith))
  | inr e ↦
      let ten : 10 ≤ n = ground (arith, e) in
      let fits : ltb ((2 ^ 64 - 1 - (0x30 + n % 10 - 0x30)) / 10) (n / 10) ≡ false = ground arith in
      rw e (
        accumulate-to_chars k (n / 10) ((0x30 + n % 10) ∷ acc) (omega arith) (more_digits k n h ten)
          (omega arith)
        ∙ rw fits (ap (λ v. accumulate v acc) (omega arith)))
]

-- The digits of a number of 64 bits have its value.
pub accumulate-decimal : (n : ℕ) → n < 2 ^ 64 → accumulate 0 (decimal n) ≡ some n
unfolding decimal accumulate
accumulate-decimal n f = accumulate-to_chars 20 n [] (omega arith) (omega arith) f

-- A digit that is no zero leads.
abbrev Leads : Bytes → Type 0
Leads [] = ⊥
Leads (c ∷ cs) = (0x31 ≤ c) × (c ≤ 0x39)

to_chars-Leads : (k n : ℕ) (acc : Bytes) → n < tens k → 1 ≤ n → 0 < k → Leads (to_chars k n acc)
unfolding to_chars
to_chars-Leads zero n acc h l p = absurd (omega arith)
to_chars-Leads (suc k) n acc h l p = elim (Bool-cases (ltb n 10)) [
  | inl e ↦ rw e (omega arith, ground arith)
  | inr e ↦
      let ten : 10 ≤ n = ground (arith, e) in
      rw e (
        to_chars-Leads k (n / 10) ((0x30 + n % 10) ∷ acc) (omega arith) (omega arith)
          (more_digits k n h ten))
]

is_digit_lem : (c : ℕ) → IsDigit c → is_digit c ≡ true
is_digit_lem c (l, u) = ground arith

pub digit_ahead-EndsNumber : (rest : Bytes) → EndsNumber rest → digit_ahead rest ≡ false
digit_ahead-EndsNumber [] h = refl
digit_ahead-EndsNumber (c ∷ cs) (h, _, _, _) = h

count_digits-append :
    (ds rest : Bytes)
    → All IsDigit ds
    → digit_ahead rest ≡ false
    → count_digits (ds ++ rest) ≡ length ds
unfolding count_digits
count_digits-append [] [] h e = refl
count_digits-append [] (c ∷ cs) h e = rw e
count_digits-append (d ∷ ds) rest (hd, h) e =
    rw (is_digit_lem d hd) (ap suc (count_digits-append ds rest h e))

integer_part-Leads :
    (ds rest : Bytes)
    → Leads ds
    → All IsDigit ds
    → digit_ahead rest ≡ false
    → integer_part (ds ++ rest) ≡ some (length ds)
integer_part-Leads [] rest l h e = absurd l
integer_part-Leads (c ∷ cs) rest (l, u) (hc, h) e =
    let no_zero : (c == 0x30) ≡ false = ground arith in
    let leads : (leb 0x31 c && leb c 0x39) ≡ true = ground arith in
    rw (no_zero, leads) (ap (λ k. some (suc k)) (count_digits-append cs rest h e))

pub integer_part-decimal :
    (n : ℕ) (rest : Bytes)
    → n < 2 ^ 64
    → digit_ahead rest ≡ false
    → integer_part (decimal n ++ rest) ≡ some (length (decimal n))
unfolding decimal to_chars
integer_part-decimal zero rest f e = rw e
integer_part-decimal (suc n) rest f e =
    integer_part-Leads (to_chars 20 (suc n) []) rest
      (to_chars-Leads 20 (suc n) [] (omega arith) (omega arith) (omega arith))
      (to_chars-IsDigit 20 (suc n) [] tt) e
