-- ===== src/Cbor/Examples.antt =====
-- Runs of the CBOR codec on small inputs, and the theorems at such inputs.
use v_codec.Base.{◌+◌}
use v_codec.Cbor.Head.{be}
use v_codec.Base.{
  ℕ, ◌≡◌, ap, ◌∙◌, refl, arith, Bool, true, false, none, List, [], ◌∷◌, ◌++◌, Bytes, length, drop,
  All, IsByte, bytes_less, ◌↔◌,
}
use v_codec.Base.Int.{negsuc}
use v_codec.Core.Error.{ok, ◌>>=◌}
use v_codec.Core.Utf8.{validate_utf8}
use v_codec.Core.Value.{
  Key, Value, null, boolean, sequence, nil, cons, end, entry, values_size, entries_size,
}
use v_codec.Cbor.Head.{
  Major, make_head, initial_byte, shortest, parse_head, parse_front, parse_after, read_be,
}
use v_codec.Cbor.Head.RoundTrip.{plain_head, head_size, parse_head-make_head}
use v_codec.Cbor.Head.Canonical.{InBounds, IsShortest, parse_head-canonical, parse_front-InBounds}
use v_codec.Cbor.Options.{default_options}
use v_codec.Cbor.Write.State.{new_writer, append, item}
use v_codec.Cbor.Write.Sort.{insert, stable_sort, has_duplicate}
use v_codec.Cbor.Write.Sort.Order.{InKeyOrder, stable_sort-InKeyOrder, key_order_error_lem}
use v_codec.Core.Sink.{encode_value}
use v_codec.Cbor.Encode.{cbor_sink, encode_append, with_type_determinism_encode}
use v_codec.Cbor.Encode.Spec.{encoded}
use v_codec.Cbor.Encode.Refines.{
  describe_prefix, encode_value-encoded, encode_append-encoded, frames-encode_value,
}
use v_codec.Cbor.Read.State.{new_reader, save, restore, key_order_error}
use v_codec.Cbor.Read.State.{finish}
use v_codec.Cbor.Read.Whole.{reader_at, skip_value-encode_append}
use v_codec.Cbor.Read.Laws.{restore-save}
use v_codec.Cbor.Encode.Spec.{int_bytes}
use v_codec.Cbor.Read.Expect.{expect_sint, expect_text}
use v_codec.Cbor.Read.RoundTrip.{expect_sint-int_bytes, expect_text-text_bytes}
use v_codec.Cbor.Read.Skip.{skip_value}
use v_codec.Cbor.Read.Skip.Fits.{Fits}
use v_codec.Cbor.Read.Skip.Accepts.{skip_value-encoded}

-- `{"b": [true, null], 1: -5}`
abbrev sample : Value
sample = Value.map (
    entry (Key.text (0x62 ∷ [])) (sequence (cons (boolean true) (cons null nil)))
      (entry (Key.uint 1) (Value.sint (negsuc 4)) end))

-- Its deterministic encoding, with the keys in order.
abbrev sample_bytes : Bytes
sample_bytes = 0xA2 ∷ 0x01 ∷ 0x24 ∷ 0x61 ∷ 0x62 ∷ 0x82 ∷ 0xF5 ∷ 0xF6 ∷ []

sample-encoded : encoded default_options 0 sample ≡ ok sample_bytes
unfolding encoded validate_utf8 make_head initial_byte stable_sort has_duplicate insert values_size
    entries_size
sample-encoded = refl

encode_append-encoded_example : encode_append default_options false true sample [] ≡ (
    encoded (with_type_determinism_encode default_options false) 0 sample >>= λ bs.
    ok (([] ++ describe_prefix (with_type_determinism_encode default_options false) true) ++ bs))
encode_append-encoded_example = encode_append-encoded default_options false true sample []

encode_value-encoded_example :
    encode_value (cbor_sink default_options) sample (new_writer (0x00 ∷ []))
    ≡ (encoded default_options 0 sample >>= λ bs. ok (append bs (item (new_writer (0x00 ∷ [])))))
encode_value-encoded_example = encode_value-encoded default_options sample (new_writer (0x00 ∷ []))

sample_written :
    encode_value (cbor_sink default_options) sample (new_writer [])
    ≡ ok (append sample_bytes (item (new_writer [])))
sample_written =
    encode_value-encoded default_options sample (new_writer [])
    ∙ ap (λ r. r >>= λ bs. ok (append bs (item (new_writer [])))) sample-encoded

frames-encode_value_example : length (append sample_bytes (item (new_writer []))).frames ≡ 0
unfolding item
frames-encode_value_example =
    frames-encode_value default_options sample (new_writer [])
      (append sample_bytes (item (new_writer []))) sample_written

-- Every float counts as preferred: the sample has none.
abbrev any_float : ℕ → ℕ → Bool
any_float ai raw = true

sample-Fits : Fits sample
unfolding Fits entries_size values_size
sample-Fits =
    (omega arith, (omega arith, ((omega arith, (tt, (tt, tt))), (omega arith, (omega arith, tt)))))

skip_value-encoded_example :
    skip_value any_float default_options
      ((0x00 ∷ []) ++ (sample_bytes ++ (0xFF ∷ [])))
      (record { pos = 1; depth = 0; start = 0 })
    ≡ (ok tt, record { pos = 9; depth = 0; start = 0 })
skip_value-encoded_example =
    skip_value-encoded any_float default_options default_options 0 sample (0x00 ∷ []) sample_bytes
      (0xFF ∷ []) (record { pos = 1; depth = 0; start = 0 }) refl (omega arith) (λ v. v) sample-Fits
      sample-encoded refl refl

parse_head-make_head_example :
    (parse_head ((0xF6 ∷ []) ++ (make_head Major.uint 1000 ++ (0x00 ∷ []))) 1
      ≡ plain_head Major.uint 1000)
    × (shortest (parse_head ((0xF6 ∷ []) ++ (make_head Major.uint 1000 ++ (0x00 ∷ []))) 1) ≡ true)
    × (length (make_head Major.uint 1000) ≡ head_size 1000)
parse_head-make_head_example =
    parse_head-make_head Major.uint 1000 (0xF6 ∷ []) (0x00 ∷ []) (omega arith)

-- A tag of two bytes, and its content.
abbrev tagged_zero : Bytes
tagged_zero = 0xF6 ∷ 0xD8 ∷ 0x20 ∷ 0x00 ∷ []

tagged_zero-IsByte : All IsByte (drop 1 tagged_zero)
tagged_zero-IsByte = (omega arith, (omega arith, (omega arith, tt)))

tagged_zero-IsShortest : IsShortest (parse_head tagged_zero 1)
unfolding parse_head parse_front parse_after read_be shortest
tagged_zero-IsShortest = record {
  present = omega arith;
  is_short = refl;
  no_float = λ e. absurd cc;
}

parse_head-canonical_example :
    drop 1 tagged_zero
    ≡ make_head (parse_head tagged_zero 1).mt (parse_head tagged_zero 1).value
      ++ drop (parse_head tagged_zero 1).length (drop 1 tagged_zero)
parse_head-canonical_example =
    parse_head-canonical tagged_zero 1 tagged_zero-IsByte tagged_zero-IsShortest

parse_front-InBounds_example : InBounds (parse_front (0xD8 ∷ 0x20 ∷ 0x00 ∷ [])) 3
parse_front-InBounds_example = parse_front-InBounds (0xD8 ∷ 0x20 ∷ 0x00 ∷ []) tagged_zero-IsByte

restore-save_example :
    restore (save (record { pos = 7; depth = 2; start = 0 })) new_reader
    ≡ record { pos = 7; depth = 2; start = 0 }
restore-save_example =
    restore-save (record { pos = 7; depth = 2; start = 0 }) new_reader (omega arith) (omega arith)

abbrev own_key : Bytes → Bytes
own_key k = k

abbrev two_keys : List Bytes
two_keys = (0x61 ∷ 0x62 ∷ []) ∷ (0x01 ∷ []) ∷ []

two_keys-differ : has_duplicate own_key (stable_sort own_key two_keys) ≡ false
unfolding stable_sort insert has_duplicate
two_keys-differ = refl

stable_sort-InKeyOrder_example : InKeyOrder own_key (stable_sort own_key two_keys)
stable_sort-InKeyOrder_example = stable_sort-InKeyOrder own_key two_keys two_keys-differ

key_order_error_lem_example :
    (key_order_error (0x02 ∷ []) (0x01 ∷ []) 4 ≡ none) ↔ (bytes_less (0x01 ∷ []) (0x02 ∷ []) ≡ true)
key_order_error_lem_example = key_order_error_lem (0x02 ∷ []) (0x01 ∷ []) 4

expect_sint-int_bytes_example :
    expect_sint default_options
      ((0xF6 ∷ []) ++ (int_bytes (negsuc 499) ++ (0x00 ∷ [])))
      (record { pos = 1; depth = 0; start = 0 })
    ≡ (ok (negsuc 499), record { pos = 1 + length (int_bytes (negsuc 499)); depth = 0; start = 1 })
expect_sint-int_bytes_example =
    expect_sint-int_bytes default_options (negsuc 499) (0xF6 ∷ []) (0x00 ∷ [])
      (record { pos = 1; depth = 0; start = 0 }) (omega arith) refl

letter_valid : validate_utf8 (0x62 ∷ []) ≡ none
unfolding validate_utf8
letter_valid = refl

expect_text-text_bytes_example :
    let item = make_head Major.text 1 ++ (0x62 ∷ []) in
    expect_text default_options
      ((0xF6 ∷ []) ++ (item ++ (0x00 ∷ [])))
      (record { pos = 1; depth = 0; start = 0 })
    ≡ (
      ok (record { content = 0x62 ∷ []; borrowed = true; extent = length item }),
      record { pos = 1 + length item; depth = 0; start = 1 },
    )
expect_text-text_bytes_example =
    expect_text-text_bytes default_options (0x62 ∷ []) (0xF6 ∷ []) (0x00 ∷ [])
      (record { pos = 1; depth = 0; start = 0 }) (omega arith) (λ _. letter_valid) refl

-- The sample behind the self-describe tag.
abbrev described_bytes : Bytes
described_bytes = 0xD9 ∷ 0xD9 ∷ 0xF7 ∷ sample_bytes

sample-described : encode_append default_options false true sample [] ≡ ok described_bytes
unfolding encoded validate_utf8 make_head initial_byte be stable_sort has_duplicate insert
    values_size entries_size with_type_determinism_encode
sample-described = encode_append-encoded default_options false true sample []

skip_value-encode_append_example :
    (skip_value any_float default_options described_bytes (reader_at 3) ≡ (ok tt, reader_at 11))
    × (finish described_bytes (reader_at 11) ≡ (ok tt, reader_at 11))
unfolding make_head initial_byte be with_type_determinism_encode
skip_value-encode_append_example =
    skip_value-encode_append any_float default_options default_options false true sample []
      described_bytes refl (omega arith) (λ v. v) sample-Fits sample-described
