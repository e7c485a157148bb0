-- ===== src/Json/Read/Strings/Valid.antt =====
-- The escaped form of UTF-8 text is UTF-8 text.
use v_codec.Base.{
  ℕ, ◌/◌, ◌%◌, ◌≤◌, ◌<◌, true, false, none, [], ◌∷◌, ◌++◌, append_assoc, append-nil, Bytes, ltb,
  ◌==◌, if◌then◌else◌, ◌≡◌, refl, sym, ap, ◌∙◌, subst, arith, All, Bool-cases, inl, inr,
}
use v_codec.Core.Utf8.{utf8_bytes, validate_utf8}
use v_codec.Core.Utf8.WellFormed.{IsScalar, WellFormed, plain_bytes, utf8_bytes-plain}
use v_codec.Core.Utf8.Accepts.{validate_utf8-WellFormed}
use v_codec.Core.Hex.{char_at}
use v_codec.Core.Hex.RoundTrip.{all_below_lem}
use v_codec.Json.Escape.{needs_escape, escape_of, hex_upper}
use v_codec.Json.Escape.Runs.{escaped}
use v_codec.Json.Read.Strings.Escapes.{by_test, utf8_bytes-ascii}

abbrev pub IsAscii : ℕ → Type 0
IsAscii c = c < 0x80

upper-IsAscii : (n : ℕ) → n < 16 → IsAscii (char_at hex_upper n)
unfolding char_at
upper-IsAscii n l =
    below (char_at hex_upper n) (all_below_lem (λ n. ltb (char_at hex_upper n) 0x80) 16 n refl l)
  where
    below : (c : ℕ) → ltb c 0x80 ≡ true → c < 0x80
    below c e = ground arith

escape_of-IsAscii : (c : ℕ) → c < 0x80 → All IsAscii (escape_of c)
unfolding escape_of
escape_of-IsAscii c l =
    by_test (All IsAscii) (c == 0x22) _ _ (λ _. two 0x22 (omega arith))
      (λ _.
        by_test (All IsAscii) (c == 0x5C) _ _ (λ _. two 0x5C (omega arith))
          (λ _.
            by_test (All IsAscii) (c == 0x08) _ _ (λ _. two 0x62 (omega arith))
              (λ _.
                by_test (All IsAscii) (c == 0x0C) _ _ (λ _. two 0x66 (omega arith))
                  (λ _.
                    by_test (All IsAscii) (c == 0x0A) _ _ (λ _. two 0x6E (omega arith))
                      (λ _.
                        by_test (All IsAscii) (c == 0x0D) _ _ (λ _. two 0x72 (omega arith))
                          (λ _.
                            by_test (All IsAscii) (c == 0x09) _ _ (λ _. two 0x74 (omega arith))
                              (λ _. (
                                omega arith,
                                (
                                  omega arith,
                                  (
                                    omega arith,
                                    (
                                      omega arith,
                                      (
                                        upper-IsAscii (c / 16) (omega arith),
                                        (upper-IsAscii (c % 16) (omega arith), tt),
                                      ),
                                    ),
                                  ),
                                ),
                              ))))))))
  where
    two : (e : ℕ) → IsAscii e → All IsAscii (0x5C ∷ e ∷ [])
    two e h = (omega arith, (h, tt))

pub ascii-WellFormed :
    (xs rest : Bytes) → All IsAscii xs → WellFormed rest → WellFormed (xs ++ rest)
ascii-WellFormed [] rest h w = w
ascii-WellFormed (x ∷ xs) rest (hx, h) w =
    WellFormed.cons x (inl (omega arith))
      (ap (λ z. z ++ (xs ++ rest)) (sym (utf8_bytes-ascii x hx))) (ascii-WellFormed xs rest h w)

pub escaped-append : (xs ys : Bytes) → escaped (xs ++ ys) ≡ escaped xs ++ escaped ys
escaped-append [] ys = refl
escaped-append (x ∷ xs) ys =
    ap (λ z. (if needs_escape x then escape_of x else x ∷ []) ++ z) (escaped-append xs ys)
    ∙ sym (append_assoc (if needs_escape x then escape_of x else x ∷ []) (escaped xs) (escaped ys))

-- Bytes above ASCII stand for themselves.
escaped-high : (xs : Bytes) → All (λ x. 0x80 ≤ x) xs → escaped xs ≡ xs
unfolding needs_escape
escaped-high [] h = refl
escaped-high (x ∷ xs) (hx, h) =
    let clean : needs_escape x ≡ false = ground arith in
    rw clean (ap (λ z. x ∷ z) (escaped-high xs h))

plain_bytes-high : (cp : ℕ) → 0x80 ≤ cp → All (λ x. 0x80 ≤ x) (plain_bytes cp)
plain_bytes-high cp l =
    let more : ltb cp 0x80 ≡ false = ground arith in
    rw more (
      by_test Highs (ltb cp 0x800) _ _ (λ _. (omega arith, (omega arith, tt)))
        (λ _.
          by_test Highs (ltb cp 0x10000) _ _ (λ _. (omega arith, (omega arith, (omega arith, tt))))
            (λ _. (omega arith, (omega arith, (omega arith, (omega arith, tt)))))))
  where
    Highs : Bytes → Type 0
    Highs = All (λ x. 0x80 ≤ x)

IsScalar-lt : (cp : ℕ) → IsScalar cp → cp < 0x110000
IsScalar-lt cp (inl h) = omega arith
IsScalar-lt cp (inr h) = omega arith

-- One scalar value, in front of a rest.
scalar-WellFormed :
    (cp : ℕ) (tail : Bytes)
    → IsScalar cp
    → WellFormed tail
    → WellFormed (escaped (utf8_bytes cp) ++ tail)
scalar-WellFormed cp tail scalar w = elim (Bool-cases (ltb cp 0x80)) [
  | inl b ↦ small (ground (arith, b))
  | inr b ↦ large (ground (arith, b))
]
  where
    large : 0x80 ≤ cp → WellFormed (escaped (utf8_bytes cp) ++ tail)
    large l =
        let same : escaped (utf8_bytes cp) ≡ utf8_bytes cp = escaped-high (utf8_bytes cp) (
          subst (All (λ x. 0x80 ≤ x)) (sym (utf8_bytes-plain cp (IsScalar-lt cp scalar)))
            (plain_bytes-high cp l)) in
        WellFormed.cons cp scalar (ap (λ z. z ++ tail) same) w

    one : cp < 0x80 → All IsAscii (escaped (cp ∷ []))
    one l =
        subst (All IsAscii) (sym (append-nil (if needs_escape cp then escape_of cp else cp ∷ [])))
          (by_test (All IsAscii) (needs_escape cp) _ _ (λ _. escape_of-IsAscii cp l) (λ _. (l, tt)))

    small : cp < 0x80 → WellFormed (escaped (utf8_bytes cp) ++ tail)
    small l =
        subst (λ z. WellFormed (escaped z ++ tail)) (sym (utf8_bytes-ascii cp l))
          (ascii-WellFormed (escaped (cp ∷ [])) tail (one l) w)

pub escaped-WellFormed : (s : Bytes) → WellFormed s → WellFormed (escaped s)
escaped-WellFormed _ WellFormed.nil = WellFormed.nil
escaped-WellFormed _ (WellFormed.cons cp {s} {rest} scalar e w) =
    subst WellFormed (sym (ap escaped e ∙ escaped-append (utf8_bytes cp) rest))
      (scalar-WellFormed cp (escaped rest) scalar (escaped-WellFormed rest w))

-- A text that is valid is valid in its escaped form.
pub validate_utf8-escaped : (s : Bytes) → validate_utf8 s ≡ none → validate_utf8 (escaped s) ≡ none
validate_utf8-escaped s e =
    (validate_utf8-WellFormed (escaped s)).1
      (escaped-WellFormed s ((validate_utf8-WellFormed s).0 e))
