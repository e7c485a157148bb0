-- ===== src/Core/Base64/Digits.antt =====
-- The characters of a group of bytes, as the decoder takes them.
use v_codec.Base.{
  ℕ, ◌+◌, ◌-◌, ◌/◌, ◌%◌, ◌^◌, ◌<◌, Bool, true, false, none, some, [], ◌∷◌, ◌++◌, Bytes, leb,
  if◌then◌else◌, ◌≡◌, refl, ap, ◌∙◌, arith,
}
use v_codec.Core.Hex.{char_at}
use v_codec.Core.Hex.RoundTrip.{all_below_lem, is_some, is_some_lem}
use v_codec.Core.Base64.{b64_table, b64_value, digit, b64_loop, shift_in}

-- Every digit has its value, and is not the padding.
b64_value-digit : (url : Bool) (n : ℕ) → n < 64 → b64_value (char_at (b64_table url) n) url ≡ some n
unfolding b64_value char_at
b64_value-digit true n l =
    is_some_lem _ n
      (all_below_lem (λ n. is_some (b64_value (char_at (b64_table true) n) true) n) 64 n refl l)
b64_value-digit false n l =
    is_some_lem _ n
      (all_below_lem (λ n. is_some (b64_value (char_at (b64_table false) n) false) n) 64 n refl l)

-- One character of a digit, in the loop.
take_digit : Bool → ℕ → ℕ → ℕ → Bytes → Bytes → Bool × Bytes
take_digit url n acc bits cs out =
    if leb 8 (bits + 6)
    then b64_loop url (shift_in acc n) (bits + 6 - 8) cs
        (out ++ ((shift_in acc n / 2 ^ (bits + 6 - 8) % 256) ∷ []))
    else b64_loop url (shift_in acc n) (bits + 6) cs out

b64_loop-digit :
    (url : Bool) (n acc bits : ℕ) (cs out : Bytes)
    → n < 64
    → b64_loop url acc bits (char_at (b64_table url) n ∷ cs) out ≡ take_digit url n acc bits cs out
unfolding b64_loop take_digit
b64_loop-digit url n acc bits cs out l =
    ap
      (λ o. elim o as (λ _. Bool × Bytes) [
        | none ↦ (false, out)
        | some v ↦ take_digit url v acc bits cs out
      ])
      (b64_value-digit url n l)

-- What a byte is of the accumulator.
first_byte :
    (acc v a : ℕ)
    → v / 2 ^ 16 ≡ a
    → a < 256
    → shift_in (shift_in acc (v / 2 ^ 18 % 64)) (v / 2 ^ 12 % 64) / 2 ^ 4 % 256 ≡ a
first_byte acc v a e l = omega arith

second_byte :
    (acc v b : ℕ)
    → v / 2 ^ 8 % 256 ≡ b
    → shift_in (shift_in acc (v / 2 ^ 12 % 64)) (v / 2 ^ 6 % 64) / 2 ^ 2 % 256 ≡ b
second_byte acc v b e = omega arith

third_byte :
    (acc v c : ℕ)
    → v % 256 ≡ c
    → shift_in (shift_in acc (v / 2 ^ 6 % 64)) (v / 2 ^ 0 % 64) / 2 ^ 0 % 256 ≡ c
third_byte acc v c e = omega arith

-- The characters of the bytes of a group, one byte after the other.
pub loop-first :
    (url : Bool) (acc v a : ℕ) (cs out : Bytes)
    → v / 2 ^ 16 ≡ a
    → a < 256
    → b64_loop url acc 0 (digit url v 3 ∷ digit url v 2 ∷ cs) out
      ≡ b64_loop url
          (shift_in (shift_in acc (v / 2 ^ 18 % 64)) (v / 2 ^ 12 % 64))
          4
          cs
          (out ++ (a ∷ []))
unfolding take_digit
loop-first url acc v a cs out e l =
    b64_loop-digit url (v / 2 ^ 18 % 64) acc 0 (digit url v 2 ∷ cs) out (omega arith)
    ∙ b64_loop-digit url (v / 2 ^ 12 % 64) (shift_in acc (v / 2 ^ 18 % 64)) 6 cs out (omega arith)
    ∙ ap
        (λ x.
          b64_loop url (shift_in (shift_in acc (v / 2 ^ 18 % 64)) (v / 2 ^ 12 % 64)) 4 cs
            (out ++ (x ∷ [])))
        (first_byte acc v a e l)

pub loop-second :
    (url : Bool) (acc v b : ℕ) (cs out : Bytes)
    → v / 2 ^ 8 % 256 ≡ b
    → b64_loop url (shift_in acc (v / 2 ^ 12 % 64)) 4 (digit url v 1 ∷ cs) out
      ≡ b64_loop url
          (shift_in (shift_in acc (v / 2 ^ 12 % 64)) (v / 2 ^ 6 % 64))
          2
          cs
          (out ++ (b ∷ []))
unfolding take_digit
loop-second url acc v b cs out e =
    b64_loop-digit url (v / 2 ^ 6 % 64) (shift_in acc (v / 2 ^ 12 % 64)) 4 cs out (omega arith)
    ∙ ap
        (λ x.
          b64_loop url (shift_in (shift_in acc (v / 2 ^ 12 % 64)) (v / 2 ^ 6 % 64)) 2 cs
            (out ++ (x ∷ [])))
        (second_byte acc v b e)

pub loop-third :
    (url : Bool) (acc v c : ℕ) (cs out : Bytes)
    → v % 256 ≡ c
    → b64_loop url (shift_in acc (v / 2 ^ 6 % 64)) 2 (digit url v 0 ∷ cs) out
      ≡ b64_loop url
          (shift_in (shift_in acc (v / 2 ^ 6 % 64)) (v / 2 ^ 0 % 64))
          0
          cs
          (out ++ (c ∷ []))
unfolding take_digit
loop-third url acc v c cs out e =
    b64_loop-digit url (v / 2 ^ 0 % 64) (shift_in acc (v / 2 ^ 6 % 64)) 2 cs out (omega arith)
    ∙ ap
        (λ x.
          b64_loop url (shift_in (shift_in acc (v / 2 ^ 6 % 64)) (v / 2 ^ 0 % 64)) 0 cs
            (out ++ (x ∷ [])))
        (third_byte acc v c e)
