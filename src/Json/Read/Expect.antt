-- ===== src/Json/Read/Expect.antt =====
-- The typed calls of the JSON reader, and its cursors: include/vcodec/json/read.hpp.
use v_codec.Base.{
  ℕ, ◌+◌, ◌-◌, ◌^◌, Bool, true, false, not, ◌||◌, Option, none, some, [], ◌∷◌, Bytes, length, ltb,
  ◌==◌, if◌then◌else◌,
}
use v_codec.Base.Int.{ℤ, pos}
use v_codec.Core.Call.{error, ◌>>=◌}
use v_codec.Core.Error.{
  Errc, Error, ok, err, truncated, type_mismatch, out_of_range, invalid_number, non_text_key,
}
use v_codec.Core.Kind.{Kind, TextRef}
use v_codec.Core.Hex.{hex_decode}
use v_codec.Core.Base64.{base64_decode}
use v_codec.Json.Annotations.{BytesEncoding, base64, base64url, hex}
use v_codec.Json.Options.{Options}
use v_codec.Json.Number.{Parsed, NumberScan, scan_number, is_digit}
use v_codec.Json.Read.State.{
  Reader, Call, advance, ahead, skip_ws, mismatch, type_error, unexpected, literal, enter, front_is,
  true_word, false_word, null_word,
}
use v_codec.Json.Read.Strings.{parse_string}

-- `std::unexpected(*e)`, where a check found an error.
abbrev pub or_fail : {A : Type 0} → Option Error → Call A → Call A
or_fail none next r = next r
or_fail (some e) next r = (err e, r)

-- `if (auto e = mismatch(…)) return …;` and then `next`.
abbrev pub if_front : {A : Type 0} → Bytes → ℕ → Call A → Call A
if_front in' c next r = or_fail (mismatch in' c r) next r

unfoldable pub expect_null : Bytes → Call (Unit {0})
expect_null in' r = if_front in' 0x6E (literal in' null_word) (skip_ws in' r)

-- A result without its value, in place of which `a` is returned.
abbrev pub then_return : {A B : Type 0} → B → A → Call B
then_return b a r = (ok b, r)

unfoldable pub expect_boolean : Bytes → Call Bool
expect_boolean in' r =
    let r' = skip_ws in' r in
    if front_is 0x74 (ahead in' r')
    then (literal in' true_word >>= then_return true) r'
    else if front_is 0x66 (ahead in' r')
    then (literal in' false_word >>= then_return false) r'
    else (err (type_error in' r'), r')

unfoldable pub expect_text : Options → Bytes → Call TextRef
expect_text o in' r = if_front in' 0x22 (parse_string o in') (skip_ws in' r)

abbrev pub decode_with : BytesEncoding → Bytes → Bool × Bytes
decode_with base64 t = base64_decode t [] false
decode_with base64url t = base64_decode t [] true
decode_with hex t = hex_decode t []

-- Bytes that could be decoded; otherwise the string is put back.
abbrev pub or_put_back : Bool × Bytes → ℕ → Call Bytes
or_put_back (true, b) start r = (ok b, r)
or_put_back (false, b) start r = (error type_mismatch start, record r { pos = start })

unfoldable pub decode_bytes : Options → BytesEncoding → Bytes → Call Bytes
decode_bytes o enc in' r =
    let r' = skip_ws in' r in
    if_front in' 0x22 (parse_string o in' >>= λ s. or_put_back (decode_with enc s.content) r'.pos)
      r'

-- `++pos_` behind an opening bracket; a cursor begins with `first_` set.
abbrev pub open_bracket : Options → Bytes → ℕ → Call Bool
open_bracket o in' c r =
    if_front in' c (enter o >>= λ _ r'. (ok true, advance 1 r')) (skip_ws in' r)

unfoldable pub expect_array : Options → Bytes → Call Bool
expect_array o in' = open_bracket o in' 0x5B

unfoldable pub expect_map : Options → Bytes → Call Bool
expect_map o in' = open_bracket o in' 0x7B

-- Behind a comma, a closing bracket is a trailing comma.
abbrev pub after_comma : Bytes → ℕ → Call (Bool × Bool)
after_comma in' closer r =
    let r' = skip_ws in' r in
    if front_is closer (ahead in' r') then (err (unexpected in' r'), r') else (ok (true, false), r')

abbrev pub next_at : Bytes → ℕ → Bool → Bytes → Call (Bool × Bool)
next_at in' closer first [] r = (error truncated r.pos, r)
next_at in' closer first (c ∷ cs) r =
    if c == closer
    then (ok (false, first), record r { pos = r.pos + 1; depth = r.depth - 1 })
    else if first
    then (ok (true, false), r)
    else if not (c == 0x2C)
    then (err (unexpected in' r), r)
    else after_comma in' closer (advance 1 r)

-- `next` of the two cursors, whose closing bracket is `closer`: whether there is an item, and
-- `first_`.
unfoldable pub cursor_next : Bytes → ℕ → Bool → Call (Bool × Bool)
cursor_next in' closer first r =
    let r' = skip_ws in' r in next_at in' closer first (ahead in' r') r'

abbrev pub seq_next : Bytes → Bool → Call (Bool × Bool)
seq_next in' = cursor_next in' 0x5D

abbrev pub map_next : Bytes → Bool → Call (Bool × Bool)
map_next in' = cursor_next in' 0x7D

-- The character `c` must be ahead, and is passed.
abbrev pub pass : Bytes → ℕ → Call (Unit {0})
pass in' c r =
    if front_is c (ahead in' r) then (ok tt, advance 1 r) else (err (unexpected in' r), r)

-- `key_text`: the key, and the colon behind it.
unfoldable pub key_text : Options → Bytes → Call TextRef
key_text o in' r =
    let r' = skip_ws in' r in
    if front_is 0x22 (ahead in' r')
    then (parse_string o in' >>= λ k r''. (pass in' 0x3A >>= then_return k) (skip_ws in' r'')) r'
    else (err (unexpected in' r'), r')

-- `key_uint` and `key_sint`
unfoldable pub key_number : {A : Type 0} → Call A
key_number r = (error non_text_key r.pos, r)

-- The kind of what begins with `c`, if it is no number.
abbrev pub kind_at : ℕ → Kind
kind_at c =
    if c == 0x6E
    then Kind.null
    else if (c == 0x74) || (c == 0x66)
    then Kind.boolean
    else if c == 0x22
    then Kind.text
    else if c == 0x5B
    then Kind.array
    else if c == 0x7B
    then Kind.map
    else Kind.undefined

abbrev pub number_kind : Kind → Kind
number_kind Kind.undefined = Kind.real
number_kind k = k

-- The code of `number_error`: `out_of_range`, or `invalid_number`.
abbrev pub number_error : Errc → Errc
number_error Errc.out_of_range = out_of_range
number_error _ = invalid_number

module _ (from_chars : Bytes → Parsed) where
  abbrev pub peek_at : Bytes → Kind
  peek_at [] = Kind.undefined
  peek_at (c ∷ cs) =
      if (c == 0x2D) || is_digit c
      then number_kind (scan_number from_chars (c ∷ cs)).kind
      else kind_at c

  unfoldable pub peek : Bytes → Reader → Kind × Reader
  peek in' r = let r' = skip_ws in' r in (peek_at (ahead in' r'), r')

  abbrev pub scanned : NumberScan → Kind → Call NumberScan
  scanned n Kind.undefined r = (error (number_error n.error) r.pos, r)
  scanned n _ r = (ok n, r)

  abbrev pub number_at : Bytes → Bytes → Call NumberScan
  number_at in' [] r = (error truncated r.pos, r)
  number_at in' (c ∷ cs) r =
      if (c == 0x2D) || is_digit c
      then scanned (scan_number from_chars (c ∷ cs)) (scan_number from_chars (c ∷ cs)).kind r
      else (err (type_error in' r), r)

  -- `number`
  unfoldable pub number : Bytes → Call NumberScan
  number in' r = number_at in' (ahead in' r) r

  -- `pos_ += n->length; return a;`
  abbrev pub take_number : {A : Type 0} → NumberScan → A → Call A
  take_number n a r = (ok a, advance n.length r)

  abbrev pub refuse : {A : Type 0} → Errc → Call A
  refuse code r = (error code r.pos, r)

  abbrev pub uint_of : NumberScan → Kind → Call ℕ
  uint_of n Kind.uint = take_number n n.u
  uint_of n Kind.sint = refuse out_of_range
  uint_of n _ = if n.overflow then refuse out_of_range else refuse type_mismatch

  unfoldable pub expect_uint : Bytes → Call ℕ
  expect_uint in' r = (number in' >>= λ n. uint_of n n.kind) (skip_ws in' r)

  abbrev pub sint_of : NumberScan → Kind → Call ℤ
  sint_of n Kind.sint = take_number n n.i
  sint_of n Kind.uint =
      if ltb (2 ^ 63 - 1) n.u then refuse out_of_range else take_number n (pos n.u)
  sint_of n _ = if n.overflow then refuse out_of_range else refuse type_mismatch

  unfoldable pub expect_sint : Bytes → Call ℤ
  expect_sint in' r = (number in' >>= λ n. sint_of n n.kind) (skip_ws in' r)

  -- `json::as_string`: the integer in a quoted string, which is put back if it is none.
  abbrev pub quoted : {A : Type 0} → (NumberScan → Kind → ℕ → Call A) → ℕ → Bytes → Call A
  quoted of_scan start t r =
      let n = scan_number from_chars t in
      if not (n.length == length t)
      then (error type_mismatch start, record r { pos = start })
      else of_scan n n.kind start r

  abbrev pub quoted_uint_of : NumberScan → Kind → ℕ → Call ℕ
  quoted_uint_of n Kind.uint start r = (ok n.u, r)
  quoted_uint_of n Kind.sint start r = (error out_of_range (start + 1), record r { pos = start })
  quoted_uint_of n _ start r = (error type_mismatch start, record r { pos = start })

  abbrev pub quoted_sint_of : NumberScan → Kind → ℕ → Call ℤ
  quoted_sint_of n Kind.uint start r =
      if ltb (2 ^ 63 - 1) n.u
      then (error out_of_range (start + 1), record r { pos = start })
      else (ok (pos n.u), r)
  quoted_sint_of n Kind.sint start r = (ok n.i, r)
  quoted_sint_of n _ start r = (error type_mismatch start, record r { pos = start })

  unfoldable pub quoted_integer :
      {A : Type 0} → (NumberScan → Kind → ℕ → Call A) → Options → Bytes → Call A
  quoted_integer of_scan o in' r = (parse_string o in' >>= λ s. quoted of_scan r.pos s.content) r

  -- The hooks for members with `as_string`.
  unfoldable pub expect_uint_as_string : Options → Bytes → Call ℕ
  expect_uint_as_string o in' r =
      let r' = skip_ws in' r in
      if front_is 0x22 (ahead in' r')
      then quoted_integer quoted_uint_of o in' r'
      else expect_uint in' r'

  unfoldable pub expect_sint_as_string : Options → Bytes → Call ℤ
  expect_sint_as_string o in' r =
      let r' = skip_ws in' r in
      if front_is 0x22 (ahead in' r')
      then quoted_integer quoted_sint_of o in' r'
      else expect_sint in' r'
