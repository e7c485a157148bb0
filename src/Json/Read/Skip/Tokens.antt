-- ===== src/Json/Read/Skip/Tokens.antt =====
-- Rounds of `skip_value` that pass a literal, a number or a string.
use v_codec.Base.{
  ℕ, suc, ◌+◌, ◌^◌, ◌<◌, Bool, true, false, ◌||◌, none, some, List, [], ◌∷◌, ◌++◌, Bytes, length,
  drop, ◌==◌, ◌≡◌, refl, ap, ◌∙◌, arith, All,
}
use v_codec.Core.Utf8.{validate_utf8}
use v_codec.Core.Kind.{Kind}
use v_codec.Json.Options.{Options}
use v_codec.Json.Number.{
  Parsed, NumberScan, no_number, is_digit, decimal, integer_part, scan_number,
}
use v_codec.Json.Number.Digits.{IsDigit, EndsNumber, decimal-IsDigit, integer_part-decimal}
use v_codec.Json.Number.RoundTrip.{scan_number-decimal, scan_number-minus}
use v_codec.Json.Escape.Runs.{literal}
use v_codec.Json.Read.State.{Reader, advance, ahead, is_space}
use v_codec.Json.Read.State
use v_codec.Json.Read.Skip.{want_value, after_value, go, value_ahead, after_number, after_scalar}
use v_codec.Json.Read.Skip.Steps.{Blank, Leads, at, behind, value_round, parse_string-ahead}

-- A digit or a sign in front of a number.
abbrev pub NumberFront : ℕ → Type 0
NumberFront c = ((c == 0x2D) || is_digit c) ≡ true

pub front_blank : (c : ℕ) → NumberFront c → is_space c ≡ false
front_blank c h = ground arith

pub number_front : (c : ℕ) → IsDigit c → NumberFront c
number_front c (l, u) = ground arith

module _ (from_chars : Bytes → Parsed) (o : Options) (in' : Bytes) (dep : ℕ) where
  -- A token that begins with `c`.
  token_round :
      (s : List Bool) (p : ℕ) (ws t rest : Bytes) (c : ℕ)
      → drop p in' ≡ ws ++ ((c ∷ t) ++ rest)
      → Blank ws
      → is_space c ≡ false
      → (drop (p + length ws) in' ≡ (c ∷ t) ++ rest
          → value_ahead from_chars o in' c s (at from_chars o in' dep (p + length ws))
            ≡ go after_value s (at from_chars o in' dep (p + length ws + length (c ∷ t))))
      → Leads from_chars o in' dep want_value s p after_value s (p + length ws + length (c ∷ t))
  token_round s p ws t rest c e h dark step =
      value_round from_chars o in' dep s p ws (t ++ rest) c after_value s
        (p + length ws + length (c ∷ t)) e h dark
        (step (behind from_chars o in' dep p ws ((c ∷ t) ++ rest) e)) (omega arith)

  pub null_round :
      (s : List Bool) (p : ℕ) (ws rest : Bytes)
      → drop p in' ≡ ws ++ (State.null_word ++ rest)
      → Blank ws
      → Leads from_chars o in' dep want_value s p after_value s (p + length ws + 4)
  unfolding value_ahead State.literal
  null_round s p ws rest e h =
      token_round s p ws (0x75 ∷ 0x6C ∷ 0x6C ∷ []) rest 0x6E e h refl (λ e. rw e refl)

  pub true_round :
      (s : List Bool) (p : ℕ) (ws rest : Bytes)
      → drop p in' ≡ ws ++ (State.true_word ++ rest)
      → Blank ws
      → Leads from_chars o in' dep want_value s p after_value s (p + length ws + 4)
  unfolding value_ahead State.literal
  true_round s p ws rest e h =
      token_round s p ws (0x72 ∷ 0x75 ∷ 0x65 ∷ []) rest 0x74 e h refl (λ e. rw e refl)

  pub false_round :
      (s : List Bool) (p : ℕ) (ws rest : Bytes)
      → drop p in' ≡ ws ++ (State.false_word ++ rest)
      → Blank ws
      → Leads from_chars o in' dep want_value s p after_value s (p + length ws + 5)
  unfolding value_ahead State.literal
  false_round s p ws rest e h =
      token_round s p ws (0x61 ∷ 0x6C ∷ 0x73 ∷ 0x65 ∷ []) rest 0x66 e h refl (λ e. rw e refl)

  pub string_round :
      (s : List Bool) (p : ℕ) (ws t rest : Bytes)
      → (o.validate_utf8 ≡ true → validate_utf8 t ≡ none)
      → drop p in' ≡ ws ++ (literal t ++ rest)
      → Blank ws
      → Leads from_chars o in' dep want_value s p after_value s (p + length ws + length (literal t))
  unfolding value_ahead
  string_round s p ws t rest valid e h = token_round s p ws _ rest 0x22 e h refl (λ e.
      ap (after_scalar s) (parse_string-ahead from_chars o in' dep (p + length ws) t rest valid e))

  value_ahead-number :
      (c : ℕ) (s : List Bool) (r : Reader)
      → NumberFront c
      → value_ahead from_chars o in' c s r
        ≡ after_number s
            (scan_number from_chars (ahead in' r))
            (scan_number from_chars (ahead in' r)).kind
            r
  unfolding value_ahead
  value_ahead-number c s r h =
      let e1 : ((c == 0x5B) || (c == 0x7B)) ≡ false = ground arith in
      let e2 : (c == 0x22) ≡ false = ground arith in
      let e3 : (c == 0x74) ≡ false = ground arith in
      let e4 : (c == 0x66) ≡ false = ground arith in
      let e5 : (c == 0x6E) ≡ false = ground arith in rw (e1, e2, e3, e4, e5, h) refl

  number_round :
      (s : List Bool) (p : ℕ) (ws t rest : Bytes) (c : ℕ) (n : NumberScan)
      → NumberFront c
      → scan_number from_chars ((c ∷ t) ++ rest) ≡ n
      → ((r : Reader) → after_number s n n.kind r ≡ go after_value s (advance (length (c ∷ t)) r))
      → drop p in' ≡ ws ++ ((c ∷ t) ++ rest)
      → Blank ws
      → Leads from_chars o in' dep want_value s p after_value s (p + length ws + length (c ∷ t))
  number_round s p ws t rest c n front scan taken e h =
      let q = at from_chars o in' dep (p + length ws) in
      token_round s p ws t rest c e h (front_blank c front) (λ e.
        value_ahead-number c s q front
        ∙ ap (λ x. after_number s x x.kind q) (ap (scan_number from_chars) e ∙ scan)
        ∙ taken q)

  pub decimal_round :
      (s : List Bool) (p : ℕ) (ws rest : Bytes) (n : ℕ)
      → n < 2 ^ 64
      → EndsNumber rest
      → drop p in' ≡ ws ++ (decimal n ++ rest)
      → Blank ws
      → Leads from_chars o in' dep want_value s p after_value s (p + length ws + length (decimal n))
  decimal_round s p ws rest n f ends e h =
      by_front (decimal n) (decimal-IsDigit n) (integer_part-decimal n [] f refl)
        (scan_number-decimal from_chars n rest f ends) e
    where
      by_front :
          (ds : Bytes)
          → All IsDigit ds
          → integer_part (ds ++ []) ≡ some (length ds)
          → scan_number from_chars (ds ++ rest)
            ≡ record no_number { kind = Kind.uint; length = length ds; u = n }
          → drop p in' ≡ ws ++ (ds ++ rest)
          → Leads from_chars o in' dep want_value s p after_value s (p + length ws + length ds)
      by_front [] _ none_there scan e = absurd cc
      by_front (c ∷ cs) ((l, u), _) _ scan e =
          number_round s p ws cs rest c _ (number_front c (l, u)) scan (λ r. refl) e h

  pub minus_round :
      (s : List Bool) (p : ℕ) (ws rest : Bytes) (n : ℕ)
      → n < 2 ^ 63
      → EndsNumber rest
      → drop p in' ≡ ws ++ ((0x2D ∷ decimal (suc n)) ++ rest)
      → Blank ws
      → Leads from_chars o in' dep want_value s p after_value s
          (p + length ws + suc (length (decimal (suc n))))
  minus_round s p ws rest n f ends e h =
      number_round s p ws (decimal (suc n)) rest 0x2D _ refl
        (scan_number-minus from_chars n rest f ends) (λ r. refl) e h
