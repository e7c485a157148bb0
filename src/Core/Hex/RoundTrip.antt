-- ===== src/Core/Hex/RoundTrip.antt =====
-- Decoding hexadecimal digits undoes encoding.
use v_codec.Base.{
  ℕ, zero, suc, ◌+◌, ◌*◌, ◌/◌, ◌%◌, ◌<◌, Bool, true, false, ◌&&◌, Option, none, some, [], ◌∷◌, ◌++◌,
  append_assoc, append-nil, Bytes, length, ◌==◌, ◌≡◌, refl, sym, ap, ◌∙◌, arith, All, IsByte,
}
use v_codec.Core.Hex.{hex_digits, char_at, hex_value, hex_encode, hex_pairs, hex_decode}

-- A test of every number below `n`.
abbrev pub all_below : (ℕ → Bool) → ℕ → Bool
all_below test zero = true
all_below test (suc n) = test n && all_below test n

pub all_below_lem : (test : ℕ → Bool) (n i : ℕ) → all_below test n ≡ true → i < n → test i ≡ true
all_below_lem test zero i h l = absurd (omega arith)
all_below_lem test (suc n) i h l = ground (arith, all_below_lem test n i)

abbrev pub is_some : Option ℕ → ℕ → Bool
is_some none n = false
is_some (some v) n = v == n

pub is_some_lem : (o : Option ℕ) (n : ℕ) → is_some o n ≡ true → o ≡ some n
is_some_lem none n h = absurd cc
is_some_lem (some v) n h = ap some (ground (arith, h))

-- Every digit has its value.
hex_value-digit : (n : ℕ) → n < 16 → hex_value (char_at hex_digits n) ≡ some n
unfolding hex_value char_at
hex_value-digit n l =
    is_some_lem _ n (all_below_lem (λ n. is_some (hex_value (char_at hex_digits n)) n) 16 n refl l)

hex_encode-out : (bs out : Bytes) → hex_encode bs out ≡ out ++ hex_encode bs []
unfolding hex_encode
hex_encode-out [] out = sym (append-nil out)
hex_encode-out (b ∷ bs) out =
    hex_encode-out bs _
    ∙ append_assoc out _ (hex_encode bs [])
    ∙ ap (λ z. out ++ z) (sym (hex_encode-out bs _))

length-hex_encode : (bs : Bytes) → length (hex_encode bs []) ≡ length bs * 2
unfolding hex_encode
length-hex_encode [] = refl
length-hex_encode (b ∷ bs) = ap length (hex_encode-out bs _) ∙ omega (arith, length-hex_encode bs)

hex_pairs-hex_encode :
    (bs out : Bytes) → All IsByte bs → hex_pairs (hex_encode bs []) out ≡ (true, out ++ bs)
unfolding hex_encode hex_pairs
hex_pairs-hex_encode [] out h = ap (λ z. (true, z)) (sym (append-nil out))
hex_pairs-hex_encode (b ∷ bs) out (hb, h) =
    let whole : b / 16 * 16 + b % 16 ≡ b = omega arith in
    ap (λ s. hex_pairs s out) (hex_encode-out bs _)
    ∙ rw (hex_value-digit (b / 16) (omega arith), hex_value-digit (b % 16) (omega arith), whole)
        (hex_pairs-hex_encode bs (out ++ (b ∷ [])) h
          ∙ ap (λ z. (true, z)) (append_assoc out (b ∷ []) bs))

-- `hex_decode` of what `hex_encode` gives for a list of bytes succeeds and appends those bytes.
pub hex_decode-hex_encode :
    (bs out : Bytes) → All IsByte bs → hex_decode (hex_encode bs []) out ≡ (true, out ++ bs)
unfolding hex_decode
hex_decode-hex_encode bs out h =
    let even : (length (hex_encode bs []) % 2 == 0) ≡ true = ground (arith, length-hex_encode bs) in
    rw even (hex_pairs-hex_encode bs out h)
