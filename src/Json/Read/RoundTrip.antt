-- ===== src/Json/Read/RoundTrip.antt =====
-- The calls that expect a string, bytes or an integer, where the writer's form of it stands.
use v_codec.Base.{
  ℕ, suc, ◌+◌, ◌-◌, ◌^◌, ◌<◌, true, false, none, some, [], ◌∷◌, ◌++◌, Bytes, length, drop,
  drop-append, ltb, ◌==◌, ◌≡◌, refl, sym, ap, ◌∙◌, arith, All, IsByte,
}
use v_codec.Base.Int.{ℤ}
use v_codec.Core.Error.{ok}
use v_codec.Core.Utf8.{validate_utf8}
use v_codec.Core.Kind.{Kind}
use v_codec.Core.Call.{and_then, ◌>>=◌}
use v_codec.Core.Base64.{b64_groups, base64_encode}
use v_codec.Core.Base64.RoundTrip.{base64_decode-base64_encode}
use v_codec.Json.Annotations.{base64}
use v_codec.Json.Options.{Options, default_options}
use v_codec.Json.Number.{Parsed, NumberScan, no_number, decimal, integer_part, scan_number}
use v_codec.Json.Number.Digits.{IsDigit, EndsNumber, decimal-IsDigit, integer_part-decimal}
use v_codec.Json.Number.RoundTrip.{scan_number-decimal, scan_number-minus}
use v_codec.Json.Escape.Runs.{literal}
use v_codec.Json.Write.Spec.{in_quotes, int_chars}
use v_codec.Json.Write.Plain.{literal-plain, validate_utf8-plain, b64_groups-IsPlain}
use v_codec.Json.Write.Fronts.{Front, decimal_front}
use v_codec.Json.Read.State.{Reader, skip_ws, mismatch}
use v_codec.Json.Read.Strings.RoundTrip.{is_clean}
use v_codec.Json.Read.Strings.{parse_string}
use v_codec.Json.Read.Expect.{
  if_front, expect_text, decode_bytes, or_put_back, decode_with, number, number_at, scanned,
  uint_of, sint_of, expect_uint, expect_sint,
}
use v_codec.Json.Read.Skip.Steps.{Blank, at, behind, skip_ws-Blank, parse_string-ahead}
use v_codec.Json.Read.Skip.Tokens.{NumberFront, number_front}

-- A signed integer of 64 bits.
abbrev pub IsInt64 : ℤ → Type 0
IsInt64 (ℤ.pos n) = n < 2 ^ 63
IsInt64 (ℤ.negsuc n) = n < 2 ^ 63

module _ (from_chars : Bytes → Parsed) (o : Options) (in' : Bytes) (dep : ℕ) where
  abbrev here : ℕ → Reader
  here p = at from_chars o in' dep p

  mismatch-front :
      (want p : ℕ) (y : Bytes) → drop p in' ≡ want ∷ y → mismatch in' want (here p) ≡ none
  unfolding mismatch
  mismatch-front want p y e = let there : (want == want) ≡ true = ground arith in rw (e, there) refl

  text_ahead :
      (p : ℕ) (ws t rest : Bytes)
      → Blank ws
      → (o.validate_utf8 ≡ true → validate_utf8 t ≡ none)
      → drop p in' ≡ ws ++ (literal t ++ rest)
      → expect_text o in' (here p) ≡ (
        ok (record { content = t; borrowed = is_clean t; extent = length (literal t) }),
        here (p + length ws + length (literal t)),
      )
  unfolding expect_text
  text_ahead p ws t rest h valid e =
      let q = p + length ws in
      let there = behind from_chars o in' dep p ws (literal t ++ rest) e in
      ap (if_front in' 0x22 (parse_string o in'))
        (skip_ws-Blank from_chars o in' dep p ws _ 0x22 e h refl)
      ∙ rw (mismatch-front 0x22 q _ there)
          (parse_string-ahead from_chars o in' dep q t rest valid there)

  bytes_ahead :
      (p : ℕ) (ws b rest : Bytes)
      → Blank ws
      → All IsByte b
      → drop p in' ≡ ws ++ (in_quotes (b64_groups false b) ++ rest)
      → decode_bytes o base64 in' (here p)
        ≡ (ok b, here (p + length ws + length (in_quotes (b64_groups false b))))
  unfolding decode_bytes base64_encode
  bytes_ahead p ws b rest h f e =
      let t = b64_groups false b in
      let q = p + length ws in
      let plain = literal-plain t (b64_groups-IsPlain b) in
      let e' : drop p in' ≡ ws ++ (literal t ++ rest) = e ∙ ap (λ z. ws ++ (z ++ rest)) plain in
      let there = behind from_chars o in' dep p ws (literal t ++ rest) e' in
      let valid = validate_utf8-plain t (b64_groups-IsPlain b) in
      ap
        (λ r'.
          if_front in' 0x22
            (parse_string o in' >>= λ s. or_put_back (decode_with base64 s.content) r'.pos) r')
        (skip_ws-Blank from_chars o in' dep p ws _ 0x22 e' h refl)
      ∙ rw (mismatch-front 0x22 q _ there) (
          ap (λ x. and_then x (λ s. or_put_back (decode_with base64 s.content) q))
            (parse_string-ahead from_chars o in' dep q t rest (λ _. valid) there)
          ∙ ap (λ x. or_put_back x q (here (q + length (literal t))))
              (base64_decode-base64_encode false b [] f)
          ∙ ap (λ z. (ok b, here (q + length z))) (sym plain))

  number_ahead :
      (q : ℕ) (t rest : Bytes) (c : ℕ) (n : NumberScan)
      → NumberFront c
      → scan_number from_chars ((c ∷ t) ++ rest) ≡ n
      → scanned from_chars n n.kind (here q) ≡ (ok n, here q)
      → drop q in' ≡ (c ∷ t) ++ rest
      → number from_chars in' (here q) ≡ (ok n, here q)
  unfolding number
  number_ahead q t rest c n front scan defined e =
      ap (λ cs. number_at from_chars in' cs (here q)) e
      ∙ rw front (ap (λ x. scanned from_chars x x.kind (here q)) scan ∙ defined)

  decimal_ahead :
      (q n : ℕ) (rest : Bytes)
      → n < 2 ^ 64
      → EndsNumber rest
      → drop q in' ≡ decimal n ++ rest
      → number from_chars in' (here q)
        ≡ (ok (record no_number { kind = Kind.uint; length = length (decimal n); u = n }), here q)
  decimal_ahead q n rest f ends e =
      by_front (decimal n) (decimal-IsDigit n) (integer_part-decimal n [] f refl)
        (scan_number-decimal from_chars n rest f ends) e
    where
      by_front :
          (ds : Bytes)
          → All IsDigit ds
          → integer_part (ds ++ []) ≡ some (length ds)
          → scan_number from_chars (ds ++ rest)
            ≡ record no_number { kind = Kind.uint; length = length ds; u = n }
          → drop q in' ≡ ds ++ rest
          → number from_chars in' (here q)
            ≡ (ok (record no_number { kind = Kind.uint; length = length ds; u = n }), here q)
      by_front [] _ none_there scan e = absurd cc
      by_front (c ∷ cs) (h, _) _ scan e = number_ahead q cs rest c _ (number_front c h) scan refl e

  -- White space in front of a number.
  to_number :
      (p : ℕ) (ws t rest : Bytes)
      → Blank ws
      → (c : ℕ) × (t' : Bytes) × (t ≡ c ∷ t') × Front c
      → drop p in' ≡ ws ++ (t ++ rest)
      → skip_ws in' (here p) ≡ here (p + length ws)
  to_number p ws t rest h (c, t', same, front) e =
      skip_ws-Blank from_chars o in' dep p ws (t' ++ rest) c (e ∙ ap (λ z. ws ++ (z ++ rest)) same)
        h front.0

  uint_ahead :
      (p n : ℕ) (ws rest : Bytes)
      → Blank ws
      → n < 2 ^ 64
      → EndsNumber rest
      → drop p in' ≡ ws ++ (decimal n ++ rest)
      → expect_uint from_chars in' (here p) ≡ (ok n, here (p + length ws + length (decimal n)))
  unfolding expect_uint
  uint_ahead p n ws rest h f ends e =
      ap (number from_chars in' >>= λ n. uint_of from_chars n n.kind)
        (to_number p ws (decimal n) rest h (decimal_front n f) e)
      ∙ ap (λ x. and_then x (λ n. uint_of from_chars n n.kind))
          (decimal_ahead (p + length ws) n rest f ends
            (behind from_chars o in' dep p ws (decimal n ++ rest) e))

  sint_ahead :
      (p : ℕ) (i : ℤ) (ws rest : Bytes)
      → Blank ws
      → IsInt64 i
      → EndsNumber rest
      → drop p in' ≡ ws ++ (int_chars i ++ rest)
      → expect_sint from_chars in' (here p) ≡ (ok i, here (p + length ws + length (int_chars i)))
  unfolding expect_sint
  sint_ahead p (ℤ.pos n) ws rest h f ends e =
      let small : ltb (2 ^ 63 - 1) n ≡ false = ground arith in
      ap (number from_chars in' >>= λ n. sint_of from_chars n n.kind)
        (to_number p ws (decimal n) rest h (decimal_front n (omega arith)) e)
      ∙ ap (λ x. and_then x (λ n. sint_of from_chars n n.kind))
          (decimal_ahead (p + length ws) n rest (omega arith) ends
            (behind from_chars o in' dep p ws (decimal n ++ rest) e))
      ∙ rw small refl
  sint_ahead p (ℤ.negsuc n) ws rest h f ends e =
      let t = decimal (suc n) in
      ap (number from_chars in' >>= λ n. sint_of from_chars n n.kind)
        (skip_ws-Blank from_chars o in' dep p ws (t ++ rest) 0x2D e h refl)
      ∙ ap (λ x. and_then x (λ n. sint_of from_chars n n.kind))
          (number_ahead (p + length ws) t rest 0x2D _ refl
            (scan_number-minus from_chars n rest f ends) refl
            (behind from_chars o in' dep p ws ((0x2D ∷ t) ++ rest) e))

module _ (before ws : Bytes) (r : Reader) where
  -- What stands behind the bytes before and white space.
  stands :
      (t rest : Bytes)
      → r.pos ≡ length before
      → drop r.pos (before ++ (ws ++ (t ++ rest))) ≡ ws ++ (t ++ rest)
  stands t rest e =
      ap (λ n. drop n (before ++ (ws ++ (t ++ rest)))) e ∙ drop-append before (ws ++ (t ++ rest))

  -- Where the escaped and quoted form of a string stands behind white space, and the string is
  -- UTF-8 if the reader checks that, `expect_text` returns the string and ends right behind the
  -- form.
  pub expect_text-literal :
      (o : Options) (t rest : Bytes)
      → r.pos ≡ length before
      → Blank ws
      → (o.validate_utf8 ≡ true → validate_utf8 t ≡ none)
      → expect_text o (before ++ (ws ++ (literal t ++ rest))) r ≡ (
        ok (record { content = t; borrowed = is_clean t; extent = length (literal t) }),
        record r { pos = r.pos + length ws + length (literal t) },
      )
  expect_text-literal o t rest e h valid =
      text_ahead (λ _. Parsed.invalid) o (before ++ (ws ++ (literal t ++ rest))) r.depth r.pos ws t
        rest h valid (stands (literal t) rest e)

  -- Where the base64 form of a list of bytes stands in quotes behind white space, `decode_bytes`
  -- for base64 returns the bytes and ends right behind the quotes.
  pub decode_bytes-in_quotes :
      (o : Options) (b rest : Bytes)
      → r.pos ≡ length before
      → Blank ws
      → All IsByte b
      → decode_bytes o base64 (before ++ (ws ++ (in_quotes (b64_groups false b) ++ rest))) r
        ≡ (ok b, record r { pos = r.pos + length ws + length (in_quotes (b64_groups false b)) })
  decode_bytes-in_quotes o b rest e h f =
      bytes_ahead (λ _. Parsed.invalid) o
        (before ++ (ws ++ (in_quotes (b64_groups false b) ++ rest))) r.depth r.pos ws b rest h f
        (stands (in_quotes (b64_groups false b)) rest e)

  -- Where the decimal form of a number below 2^64 stands behind white space, and nothing behind it
  -- goes on with a number, `expect_uint` returns it and ends right behind it.
  pub expect_uint-decimal :
      (from_chars : Bytes → Parsed) (n : ℕ) (rest : Bytes)
      → r.pos ≡ length before
      → Blank ws
      → n < 2 ^ 64
      → EndsNumber rest
      → expect_uint from_chars (before ++ (ws ++ (decimal n ++ rest))) r
        ≡ (ok n, record r { pos = r.pos + length ws + length (decimal n) })
  expect_uint-decimal from_chars n rest e h f ends =
      uint_ahead from_chars default_options (before ++ (ws ++ (decimal n ++ rest))) r.depth r.pos n
        ws rest h f ends (stands (decimal n) rest e)

  -- Where the decimal form of a 64-bit signed integer stands behind white space, and nothing
  -- behind it goes on with a number, `expect_sint` returns it and ends right behind it.
  pub expect_sint-int_chars :
      (from_chars : Bytes → Parsed) (i : ℤ) (rest : Bytes)
      → r.pos ≡ length before
      → Blank ws
      → IsInt64 i
      → EndsNumber rest
      → expect_sint from_chars (before ++ (ws ++ (int_chars i ++ rest))) r
        ≡ (ok i, record r { pos = r.pos + length ws + length (int_chars i) })
  expect_sint-int_chars from_chars i rest e h f ends =
      sint_ahead from_chars default_options (before ++ (ws ++ (int_chars i ++ rest))) r.depth r.pos
        i ws rest h f ends (stands (int_chars i) rest e)
