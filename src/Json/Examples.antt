-- ===== src/Json/Examples.antt =====
-- Runs of the JSON writer, and its theorems at such inputs.
use v_codec.Base.{Bytes, true, false, [], ◌∷◌, ◌++◌, ◌≡◌, refl}
use v_codec.Base.Int.{negsuc}
use v_codec.Core.Value.{Key, Value, boolean, null, sequence, nil, cons, end, entry}
use v_codec.Core.Sink.{encode_value}
use v_codec.Json.Options.{Options, default_options}
use v_codec.Json.Number.{decimal}
use v_codec.Json.Write
use v_codec.Json.Write.{Writer, new_writer, depth, put, before_value, json_sink, encode_append}
use v_codec.Json.Write.Spec.{text_of}
use v_codec.Json.Write.Refines.{encode_value-text_of, encode_append-text_of, depth-encode_value}
use v_codec.Core.Error.{ok, ◌>>=◌}
use v_codec.Json.Escape.{write_string, prepared_key_blob, needs_escape, escape_of}
use v_codec.Json.Escape.Runs.{
  literal, accepted, write_string-literal, prepared_key_blob-write_string,
}

-- A letter, a line feed and a letter.
abbrev two_lines : Bytes
two_lines = 0x61 ∷ 0x0A ∷ 0x62 ∷ []

two_lines-literal : literal two_lines ≡ 0x22 ∷ 0x61 ∷ 0x5C ∷ 0x6E ∷ 0x62 ∷ 0x22 ∷ []
unfolding needs_escape escape_of
two_lines-literal = refl

write_string-literal_example :
    write_string true two_lines (0x5B ∷ [])
    ≡ (accepted true two_lines >>= λ _. ok ((0x5B ∷ []) ++ literal two_lines))
write_string-literal_example = write_string-literal true two_lines (0x5B ∷ [])

prepared_key_blob-write_string_example :
    (write_string false two_lines (0x7B ∷ []) >>= λ q. ok (q ++ (0x3A ∷ [])))
    ≡ ok ((0x7B ∷ []) ++ prepared_key_blob two_lines false)
prepared_key_blob-write_string_example = prepared_key_blob-write_string two_lines (0x7B ∷ [])

-- {"b": [true, null], 1: -5}
abbrev sample : Value
sample = Value.map (
    entry (Key.text (0x62 ∷ [])) (sequence (cons (boolean true) (cons null nil)))
      (entry (Key.uint 1) (Value.sint (negsuc 4)) end))

abbrev sample_text : Bytes
sample_text =
    0x7B ∷ 0x22 ∷ 0x62 ∷ 0x22 ∷ 0x3A ∷ 0x5B ∷ 0x74 ∷ 0x72 ∷ 0x75 ∷ 0x65 ∷ 0x2C ∷ 0x6E ∷ 0x75 ∷ 0x6C
    ∷ 0x6C ∷ 0x5D ∷ 0x2C ∷ 0x22 ∷ 0x31 ∷ 0x22 ∷ 0x3A ∷ 0x2D ∷ 0x35 ∷ 0x7D ∷ []

-- Without validation, which the text does not depend on.
abbrev plain_options : Options
plain_options = record default_options { validate_utf8 = false }

sample-text_of : text_of plain_options 0 sample ≡ ok sample_text
unfolding text_of decimal needs_escape
sample-text_of = refl

-- [null] in the pretty form, with an indent of two.
pretty-text_of :
    text_of (record plain_options { pretty = true }) 0 (sequence (cons null nil))
    ≡ ok (0x5B ∷ 0x0A ∷ 0x20 ∷ 0x20 ∷ 0x6E ∷ 0x75 ∷ 0x6C ∷ 0x6C ∷ 0x0A ∷ 0x5D ∷ [])
unfolding text_of Write.spaces
pretty-text_of = refl

encode_value-text_of_example :
    encode_value (json_sink plain_options) sample (new_writer (0x20 ∷ [])) ≡ (
      text_of plain_options (depth (new_writer (0x20 ∷ []))) sample >>= λ s.
      ok (put s (before_value plain_options (new_writer (0x20 ∷ [])))))
encode_value-text_of_example = encode_value-text_of plain_options sample (new_writer (0x20 ∷ []))

encode_append-text_of_example :
    encode_append plain_options sample (0x20 ∷ [])
    ≡ (text_of plain_options 0 sample >>= λ s. ok ((0x20 ∷ []) ++ s))
encode_append-text_of_example = encode_append-text_of plain_options sample (0x20 ∷ [])

-- The state behind the sample, in an array that has an element.
abbrev behind_sample : Writer
behind_sample = record {
  out = 0x5B ∷ 0x31 ∷ 0x2C ∷ sample_text;
  after_key = false;
  first = false ∷ [];
}

abbrev in_array : Writer
in_array = record { out = 0x5B ∷ 0x31 ∷ []; after_key = false; first = false ∷ [] }

sample_nested : encode_value (json_sink plain_options) sample in_array ≡ ok behind_sample
unfolding text_of decimal needs_escape before_value
sample_nested = encode_value-text_of plain_options sample in_array

depth-encode_value_example : (depth behind_sample ≡ 1) × (behind_sample.after_key ≡ false)
depth-encode_value_example =
    depth-encode_value plain_options sample in_array behind_sample sample_nested
