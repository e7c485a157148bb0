-- ===== src/Core/Examples.antt =====
-- Runs of the UTF-8 validation, and its theorems at small texts.
use v_codec.Base.{List, ◌<◌, ◌≡◌, ◌↔◌, refl, none, some, [], ◌∷◌, ◌++◌, Bytes, length, take, drop}
use v_codec.Base.{true, false, All, IsByte, arith}
use v_codec.Core.Hex.{hex_encode, hex_decode}
use v_codec.Core.Hex.RoundTrip.{hex_decode-hex_encode}
use v_codec.Core.Base64.{base64_encode, base64_decode}
use v_codec.Core.Base64.RoundTrip.{base64_decode-base64_encode}
use v_codec.Core.Suggest.{
  Field, levenshtein, next_cells, rows, first_row, last_cell, distance, suggest,
}
use v_codec.Core.Suggest.Edits.{IsLeast, levenshtein-IsLeast}
use v_codec.Core.Suggest.Nearest.{IsNearest, suggest-IsNearest}
use v_codec.Core.ErrorPath.{
  PathStep, ErrorPath, member, index, key_text, new_path, push, push_thrown, finalize,
}
use v_codec.Core.ErrorPath.Order.{push_all, finalize-push_all, push_all-finalize}
use v_codec.Core.Utf8.{validate_utf8, validate_loop, second_byte, cont, advance}
use v_codec.Core.Utf8.WellFormed.{WellFormed}
use v_codec.Core.Utf8.Accepts.{StartsNone, validate_utf8-WellFormed, validate_utf8_refuses}

validate_utf8-WellFormed_example :
    (validate_utf8 (0xC3 ∷ 0xA9 ∷ []) ≡ none) ↔ WellFormed (0xC3 ∷ 0xA9 ∷ [])
validate_utf8-WellFormed_example = validate_utf8-WellFormed (0xC3 ∷ 0xA9 ∷ [])

-- An overlong form behind a letter.
abbrev overlong : Bytes
overlong = 0x61 ∷ 0xC0 ∷ 0x80 ∷ []

overlong_refused : validate_utf8 overlong ≡ some 1
unfolding validate_utf8 validate_loop second_byte cont advance
overlong_refused = refl

validate_utf8_refuses_example :
    (1 < length overlong) × WellFormed (take 1 overlong) × StartsNone (drop 1 overlong)
validate_utf8_refuses_example = validate_utf8_refuses overlong 1 overlong_refused

abbrev four_bytes : Bytes
four_bytes = 0x00 ∷ 0xFF ∷ 0x7F ∷ 0x80 ∷ []

four_bytes-IsByte : All IsByte four_bytes
four_bytes-IsByte = (omega arith, (omega arith, (omega arith, (omega arith, tt))))

base64_decode-base64_encode_example :
    base64_decode (base64_encode four_bytes [] false) (0x01 ∷ []) false ≡ (true, 0x01 ∷ four_bytes)
base64_decode-base64_encode_example =
    base64_decode-base64_encode false four_bytes (0x01 ∷ []) four_bytes-IsByte

hex_decode-hex_encode_example :
    hex_decode (hex_encode four_bytes []) (0x01 ∷ []) ≡ (true, 0x01 ∷ four_bytes)
hex_decode-hex_encode_example = hex_decode-hex_encode four_bytes (0x01 ∷ []) four_bytes-IsByte

-- "name" and "nmae"
abbrev name : Bytes
name = 0x6E ∷ 0x61 ∷ 0x6D ∷ 0x65 ∷ []

abbrev misspelt : Bytes
misspelt = 0x6E ∷ 0x6D ∷ 0x61 ∷ 0x65 ∷ []

misspelt-levenshtein : levenshtein misspelt name ≡ 2
unfolding levenshtein distance rows next_cells first_row last_cell
misspelt-levenshtein = refl

levenshtein-IsLeast_example : IsLeast misspelt name (levenshtein misspelt name)
levenshtein-IsLeast_example = levenshtein-IsLeast misspelt name

abbrev two_fields : List Field
two_fields =
    record { wire_name = misspelt; skipped = true }
    ∷ record { wire_name = name; skipped = false }
    ∷ []

suggest-IsNearest_example : IsNearest misspelt two_fields 2 (suggest misspelt two_fields 2)
suggest-IsNearest_example = suggest-IsNearest misspelt two_fields 2

-- The path `.a[7]`, from its leaf.
abbrev two_steps : List PathStep
two_steps = index 7 ∷ member (0x61 ∷ []) ∷ []

abbrev two_steps_path : ErrorPath
two_steps_path = record {
  steps = member (0x61 ∷ []) ∷ index 7 ∷ [];
  truncated = false;
  finalized = true;
}

finalize-push_all_example :
    (finalize (push_all push two_steps new_path) ≡ two_steps_path)
    × (finalize (push_all push_thrown two_steps new_path) ≡ two_steps_path)
finalize-push_all_example = finalize-push_all two_steps

push_all-finalize_example :
    push_all push (key_text (0x62 ∷ []) ∷ []) (finalize (push_all push two_steps new_path))
    ≡ finalize (push_all push (two_steps ++ (key_text (0x62 ∷ []) ∷ [])) new_path)
push_all-finalize_example = push_all-finalize two_steps (key_text (0x62 ∷ []) ∷ []) (omega arith)
