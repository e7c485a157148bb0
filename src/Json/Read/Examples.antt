-- ===== src/Json/Read/Examples.antt =====
-- Runs of the JSON reader, and its theorems at such inputs.
use v_codec.Base.{suc, ◌+◌, false, [], ◌∷◌, ◌++◌, Bytes, length, ◌≡◌, refl, ap, ◌∙◌, arith}
use v_codec.Base.Int.{negsuc}
use v_codec.Core.Error.{ok, ◌>>=◌}
use v_codec.Core.Kind.{Kind}
use v_codec.Core.Value.{Value, null, sequence, nil, cons}
use v_codec.Core.Base64.{b64_groups}
use v_codec.Json.Annotations.{base64}
use v_codec.Json.Options.{Options, default_options}
use v_codec.Json.Number.{Parsed, no_number, decimal, scan_number}
use v_codec.Json.Number.RoundTrip.{scan_number-decimal, scan_number-minus}
use v_codec.Json.Escape.Runs.{literal}
use v_codec.Json.Write.{encode}
use v_codec.Json.Write.Spec.{in_quotes, int_chars, text_of}
use v_codec.Json.Write.Fits.{Fits}
use v_codec.Json.Write.Refines.{encode_append-text_of}
use v_codec.Json.Read.State.{new_reader, finish}
use v_codec.Json.Read.Strings.{parse_string}
use v_codec.Json.Read.Strings.RoundTrip.{is_clean, parse_string-literal}
use v_codec.Json.Read.Expect.{expect_text, decode_bytes, expect_uint, expect_sint}
use v_codec.Json.Read.RoundTrip.{
  expect_text-literal, decode_bytes-in_quotes, expect_uint-decimal, expect_sint-int_chars,
}
use v_codec.Json.Read.Skip.Terminates.{Ends, skip_value-Ends}
use v_codec.Json.Read.Skip.{want_value, skip_value}
use v_codec.Json.Read.Whole.{skip_value-text_of, skip_value-encode}

-- No literal of these inputs is a double.
abbrev no_doubles : Bytes → Parsed
no_doubles s = Parsed.invalid

abbrev plain_options : Options
plain_options = record default_options { validate_utf8 = false }

-- [7,null]
abbrev sample : Value
sample = sequence (cons (Value.uint 7) (cons null nil))

abbrev sample_text : Bytes
sample_text = 0x5B ∷ 0x37 ∷ 0x2C ∷ 0x6E ∷ 0x75 ∷ 0x6C ∷ 0x6C ∷ 0x5D ∷ []

sample-text_of : text_of default_options 0 sample ≡ ok sample_text
unfolding text_of decimal
sample-text_of = refl

sample-encode : encode default_options sample ≡ ok sample_text
unfolding encode
sample-encode =
    encode_append-text_of default_options sample []
    ∙ ap (λ x. x >>= λ s. ok ([] ++ s)) sample-text_of

sample-Fits : Fits sample
unfolding Fits
sample-Fits = (omega arith, (tt, tt))

skip_value-encode_example :
    (skip_value no_doubles default_options sample_text new_reader
      ≡ (ok tt, record { pos = 8; depth = 0 }))
    × (finish sample_text (record { pos = 8; depth = 0 }) ≡ (ok tt, record { pos = 8; depth = 0 }))
skip_value-encode_example =
    skip_value-encode no_doubles default_options default_options sample sample_text (omega arith)
      (λ v. v) sample-Fits sample-encode

skip_value-text_of_example :
    skip_value no_doubles default_options
      ((0x20 ∷ []) ++ (sample_text ++ (0x2C ∷ [])))
      (record { pos = 1; depth = 0 })
    ≡ (ok tt, record { pos = 9; depth = 0 })
skip_value-text_of_example =
    skip_value-text_of no_doubles default_options default_options sample (0x20 ∷ []) sample_text
      (0x2C ∷ []) (record { pos = 1; depth = 0 }) (omega arith) (λ v. v) sample-Fits sample-text_of
      refl
      (refl, (λ e. absurd (omega arith)), (λ e. absurd (omega arith)), λ e. absurd (omega arith))

-- A letter, a line feed and a letter.
abbrev two_lines : Bytes
two_lines = 0x61 ∷ 0x0A ∷ 0x62 ∷ []

parse_string-literal_example :
    parse_string plain_options
      ((0x20 ∷ []) ++ (literal two_lines ++ (0x2C ∷ [])))
      (record { pos = 1; depth = 0 })
    ≡ (
      ok (record {
        content = two_lines;
        borrowed = is_clean two_lines;
        extent = length (literal two_lines);
      }),
      record { pos = 1 + length (literal two_lines); depth = 0 },
    )
parse_string-literal_example =
    parse_string-literal plain_options two_lines (0x20 ∷ []) (0x2C ∷ [])
      (record { pos = 1; depth = 0 }) (λ v. absurd cc) refl

scan_number-decimal_example :
    scan_number no_doubles (decimal 1203 ++ [])
    ≡ record no_number { kind = Kind.uint; length = length (decimal 1203); u = 1203 }
scan_number-decimal_example = scan_number-decimal no_doubles 1203 [] (omega arith) tt

scan_number-minus_example :
    scan_number no_doubles ((0x2D ∷ decimal 41) ++ [])
    ≡ record no_number { kind = Kind.sint; length = suc (length (decimal 41)); i = negsuc 40 }
scan_number-minus_example = scan_number-minus no_doubles 40 [] (omega arith) tt

expect_text-literal_example :
    expect_text plain_options ([] ++ ((0x20 ∷ []) ++ (literal two_lines ++ []))) new_reader ≡ (
      ok (record {
        content = two_lines;
        borrowed = is_clean two_lines;
        extent = length (literal two_lines);
      }),
      record new_reader { pos = 0 + 1 + length (literal two_lines) },
    )
expect_text-literal_example =
    expect_text-literal [] (0x20 ∷ []) new_reader plain_options two_lines [] refl (refl, tt)
      (λ v. absurd cc)

decode_bytes-in_quotes_example :
    decode_bytes plain_options base64
      ([] ++ ([] ++ (in_quotes (b64_groups false (0x01 ∷ 0xFF ∷ [])) ++ [])))
      new_reader
    ≡ (
      ok (0x01 ∷ 0xFF ∷ []),
      record new_reader { pos = 0 + 0 + length (in_quotes (b64_groups false (0x01 ∷ 0xFF ∷ []))) },
    )
decode_bytes-in_quotes_example =
    decode_bytes-in_quotes [] [] new_reader plain_options (0x01 ∷ 0xFF ∷ []) [] refl tt
      (omega arith, (omega arith, tt))

expect_uint-decimal_example :
    expect_uint no_doubles ([] ++ ((0x0A ∷ []) ++ (decimal 250 ++ []))) new_reader
    ≡ (ok 250, record new_reader { pos = 0 + 1 + length (decimal 250) })
expect_uint-decimal_example =
    expect_uint-decimal [] (0x0A ∷ []) new_reader no_doubles 250 [] refl (refl, tt) (omega arith) tt

expect_sint-int_chars_example :
    expect_sint no_doubles ([] ++ ([] ++ (int_chars (negsuc 9) ++ []))) new_reader
    ≡ (ok (negsuc 9), record new_reader { pos = 0 + 0 + length (int_chars (negsuc 9)) })
expect_sint-int_chars_example =
    expect_sint-int_chars [] [] new_reader no_doubles (negsuc 9) [] refl tt (omega arith) tt

-- An array that is not closed.
skip_value-Ends_example :
    Ends no_doubles default_options
      (0x5B ∷ 0x5B ∷ [])
      want_value
      []
      new_reader
      (skip_value no_doubles default_options (0x5B ∷ 0x5B ∷ []) new_reader)
skip_value-Ends_example = skip_value-Ends no_doubles default_options (0x5B ∷ 0x5B ∷ []) new_reader
