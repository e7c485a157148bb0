-- ===== src/Json/Read/Strings/Escapes.antt =====
-- Each escape that the writer makes is read back, and escaping keeps UTF-8 text well formed.
use v_codec.Base.{
  ℕ, suc, ◌+◌, ◌*◌, ◌/◌, ◌%◌, ◌^◌, ◌<◌, Bool, true, false, ◌&&◌, Option, none, some, [], ◌∷◌, ◌++◌,
  Bytes, length, ltb, leb, ◌==◌, if◌then◌else◌, ◌≡◌, refl, ap, ◌∙◌, arith,
}
use v_codec.Core.Utf8.{utf8_bytes}
use v_codec.Core.Hex.{char_at, hex_value}
use v_codec.Core.Hex.RoundTrip.{all_below_lem, is_some, is_some_lem}
use v_codec.Json.Escape.{needs_escape, escape_of, hex_upper}
use v_codec.Json.Read.Strings.{hex4, hex_digits_value, decoded, escape_at, unicode_escape}

hex_value-upper : (n : ℕ) → n < 16 → hex_value (char_at hex_upper n) ≡ some n
unfolding hex_value char_at
hex_value-upper n l =
    is_some_lem _ n (all_below_lem (λ n. is_some (hex_value (char_at hex_upper n)) n) 16 n refl l)

-- A character of one byte.
pub utf8_bytes-ascii : (c : ℕ) → c < 0x80 → utf8_bytes c ≡ c ∷ []
unfolding utf8_bytes
utf8_bytes-ascii c l = let small : ltb c 0x80 ≡ true = ground arith in rw small

hex_step :
    (v k c d w : ℕ) (cs : Bytes)
    → hex_value c ≡ some d
    → v * 16 % 2 ^ 32 + d ≡ w
    → hex_digits_value v (suc k) (c ∷ cs) ≡ hex_digits_value w k cs
unfolding hex_digits_value
hex_step v k c d w cs e sum =
    ap
      (λ o. elim o as (λ _. Option ℕ) [
        | none ↦ none
        | some d ↦ hex_digits_value (v * 16 % 2 ^ 32 + d) k cs
      ])
      e
    ∙ ap (λ w. hex_digits_value w k cs) sum

hex4-control :
    (c : ℕ) (tail : Bytes)
    → c < 0x20
    → hex4 (0x30 ∷ 0x30 ∷ char_at hex_upper (c / 16) ∷ char_at hex_upper (c % 16) ∷ tail) ≡ some c
unfolding hex4 hex_digits_value hex_value
hex4-control c tail l =
    hex_step 0 1 (char_at hex_upper (c / 16)) (c / 16) (c / 16) (char_at hex_upper (c % 16) ∷ tail)
      (hex_value-upper (c / 16) (omega arith)) (omega arith)
    ∙ hex_step (c / 16) 0 (char_at hex_upper (c % 16)) (c % 16) c tail
        (hex_value-upper (c % 16) (omega arith)) (omega arith)

unicode-control :
    (c : ℕ) (tail : Bytes)
    → c < 0x20
    → escape_at
        (0x5C ∷ 0x75 ∷ 0x30 ∷ 0x30 ∷ char_at hex_upper (c / 16) ∷ char_at hex_upper (c % 16) ∷ tail)
      ≡ decoded (c ∷ []) 6
unfolding escape_at
unicode-control c tail l =
    let low : (leb 0xD800 c && leb c 0xDBFF) ≡ false = ground arith in
    let high : (leb 0xDC00 c && leb c 0xDFFF) ≡ false = ground arith in
    let cs =
      0x5C ∷ 0x75 ∷ 0x30 ∷ 0x30 ∷ char_at hex_upper (c / 16) ∷ char_at hex_upper (c % 16) ∷ tail in
    ap (unicode_escape cs) (hex4-control c tail l)
    ∙ rw (low, high) (ap (λ b. decoded b 6) (utf8_bytes-ascii c (omega arith)))

-- What holds of both branches, each under its condition.
pub by_test :
    (P : Bytes → Type 0) (b : Bool) (x y : Bytes)
    → (b ≡ true → P x)
    → (b ≡ false → P y)
    → P (if b then x else y)
by_test P true x y px py = px refl
by_test P false x y px py = py refl

module _ (c : ℕ) (tail : Bytes) where
  ReadBack : Bytes → Type 0
  ReadBack x = escape_at (x ++ tail) ≡ decoded (c ∷ []) (length x)

  reads : (d : ℕ) → (c == d) ≡ true → decoded (d ∷ []) 2 ≡ decoded (c ∷ []) 2
  reads d e = ap (λ x. decoded (x ∷ []) 2) (ground (arith, e))

  -- Reading the escape of a character gives the character, and takes all of the escape.
  pub escape_at-escape_of :
      needs_escape c ≡ true
      → escape_at (escape_of c ++ tail) ≡ decoded (c ∷ []) (length (escape_of c))
  unfolding escape_of needs_escape escape_at ReadBack
  escape_at-escape_of h = by_test ReadBack (c == 0x22) _ _ (reads 0x22) (λ quote.
      by_test ReadBack (c == 0x5C) _ _ (reads 0x5C) (λ backslash.
        by_test ReadBack (c == 0x08) _ _ (reads 0x08) (λ _.
          by_test ReadBack (c == 0x0C) _ _ (reads 0x0C) (λ _.
            by_test ReadBack (c == 0x0A) _ _ (reads 0x0A) (λ _.
              by_test ReadBack (c == 0x0D) _ _ (reads 0x0D) (λ _.
                by_test ReadBack (c == 0x09) _ _ (reads 0x09)
                  (λ _. unicode-control c tail (control quote backslash))))))))
    where
      control : (c == 0x22) ≡ false → (c == 0x5C) ≡ false → c < 0x20
      control quote backslash = ground (arith, h, quote, backslash)

-- An escape begins with a backslash, and is ASCII.
pub escape_of-front : (c : ℕ) → (rest : Bytes) × (escape_of c ≡ 0x5C ∷ rest)
unfolding escape_of
escape_of-front c =
    by_test Backslash (c == 0x22) _ _ (λ _. (_, refl))
      (λ _.
        by_test Backslash (c == 0x5C) _ _ (λ _. (_, refl))
          (λ _.
            by_test Backslash (c == 0x08) _ _ (λ _. (_, refl))
              (λ _.
                by_test Backslash (c == 0x0C) _ _ (λ _. (_, refl))
                  (λ _.
                    by_test Backslash (c == 0x0A) _ _ (λ _. (_, refl))
                      (λ _.
                        by_test Backslash (c == 0x0D) _ _ (λ _. (_, refl))
                          (λ _.
                            by_test Backslash (c == 0x09) _ _ (λ _. (_, refl))
                              (λ _. (_, refl))))))))
  where
    Backslash : Bytes → Type 0
    Backslash x = (rest : Bytes) × (x ≡ 0x5C ∷ rest)
