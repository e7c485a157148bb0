-- ===== src/Json/Read/Strings.antt =====
-- Strings with their escapes: `parse_string` of include/vcodec/json/read.hpp.
pub mod Escapes
pub mod Valid
pub mod RoundTrip
use v_codec.Base.{
  ℕ, zero, suc, ◌+◌, ◌-◌, ◌*◌, ◌/◌, ◌%◌, ◌^◌, Bool, true, false, not, ◌||◌, ◌&&◌, Option, none,
  some, List, [], ◌∷◌, ◌++◌, Bytes, length, drop, take, get_elem?, ltb, leb, ◌==◌, if◌then◌else◌,
}
use v_codec.Core.Call.{error}
use v_codec.Core.Error.{
  Errc, Error, Result, ok, err, invalid_utf8, unexpected_token, unterminated_string, invalid_escape,
}
use v_codec.Core.Kind.{TextRef}
use v_codec.Core.Utf8.{validate_utf8, utf8_bytes}
use v_codec.Core.Hex.{hex_value}
use v_codec.Json.Options.{Options}
use v_codec.Json.Read.State.{Reader, Call, ahead}

-- The digit loop of `hex4`, over `k` characters; `v << 4` has a zero for each bit of the digit.
unfoldable pub hex_digits_value : ℕ → ℕ → Bytes → Option ℕ
hex_digits_value v zero cs = some v
hex_digits_value v (suc k) [] = none
hex_digits_value v (suc k) (c ∷ cs) = elim (hex_value c) [
  | none ↦ none
  | some d ↦ hex_digits_value (v * 16 % 2 ^ 32 + d) k cs
]

-- `hex4` at the front of what is ahead.
unfoldable pub hex4 : Bytes → Option ℕ
unfolding hex_digits_value
hex4 cs = hex_digits_value 0 4 cs

-- An escape: the bytes it stands for and how many it takes, or what is wrong with it.
pub data Escape : Type 0 where
  decoded : Bytes → ℕ → Escape
  bad unfinished : Escape

-- `cs[i] == c`
abbrev pub is_at : ℕ → ℕ → Bytes → Bool
is_at i c cs = front_is (drop i cs)
  where
    front_is : Bytes → Bool
    front_is [] = false
    front_is (d ∷ ds) = d == c

-- The second half of a surrogate pair.
abbrev pub low_surrogate : ℕ → Option ℕ → Escape
low_surrogate code none = bad
low_surrogate code (some lo) =
    if leb 0xDC00 lo && leb lo 0xDFFF
    then decoded (utf8_bytes (0x10000 + (code - 0xD800) * 2 ^ 10 + (lo - 0xDC00))) 12
    else bad

-- The code of `\u`; `cs` begins at the backslash.
abbrev pub unicode_escape : Bytes → Option ℕ → Escape
unicode_escape cs none = bad
unicode_escape cs (some code) =
    if leb 0xD800 code && leb code 0xDBFF
    then (if ltb 11 (length cs) && (is_at 6 0x5C cs && is_at 7 0x75 cs)
        then low_surrogate code (hex4 (drop 8 cs))
        else bad)
    else if leb 0xDC00 code && leb code 0xDFFF
    then bad
    else decoded (utf8_bytes code) 6

-- The character that stands for itself or for a control character.
abbrev pub simple_escape : ℕ → Escape
simple_escape e =
    if (e == 0x22) || ((e == 0x5C) || (e == 0x2F))
    then decoded (e ∷ []) 2
    else if e == 0x62
    then decoded (0x08 ∷ []) 2
    else if e == 0x66
    then decoded (0x0C ∷ []) 2
    else if e == 0x6E
    then decoded (0x0A ∷ []) 2
    else if e == 0x72
    then decoded (0x0D ∷ []) 2
    else if e == 0x74
    then decoded (0x09 ∷ []) 2
    else bad

-- The escape at the front of `cs`, which begins at the backslash.
unfoldable pub escape_at : Bytes → Escape
unfolding hex4
escape_at [] = unfinished
escape_at (b ∷ []) = unfinished
escape_at (b ∷ e ∷ rest) =
    if e == 0x75 then unicode_escape (b ∷ e ∷ rest) (hex4 rest) else simple_escape e

-- The bytes `[from, to)` of the input.
abbrev pub part : Bytes → ℕ → ℕ → Bytes
part in' from to = take (to - from) (drop from in')

-- At the closing quote, at `i`: the input between the quotes must be UTF-8.
abbrev pub close_string : Options → Bytes → ℕ → ℕ → Bytes → Bool → Call TextRef
close_string o in' start i content borrowed r =
    elim (if o.validate_utf8 then validate_utf8 (part in' (start + 1) i) else none) [
      | some at ↦ (error invalid_utf8 (start + 1 + at), r)
      | none ↦ (
        ok (record { content = content; borrowed = borrowed; extent = i + 1 - start }),
        record r { pos = i + 1 },
      )
    ]

-- The loop of `parse_escaped_string` at `i`, where `cs` is what is ahead; the bytes from `run` on are
-- not yet in `scratch`. Each round takes a byte at least, so that the bytes left are fuel enough.
unfoldable pub escaped_loop : Options → Bytes → ℕ → ℕ → Bytes → ℕ → ℕ → Bytes → Call TextRef
escaped_loop o in' start zero cs i run scratch r = (error unterminated_string start, r)
escaped_loop o in' start (suc fuel) [] i run scratch r = (error unterminated_string start, r)
escaped_loop o in' start (suc fuel) (c ∷ cs) i run scratch r =
    let flushed = scratch ++ part in' run i in
    if c == 0x22
    then close_string o in' start i flushed false r
    else if ltb c 0x20
    then (error unexpected_token i, r)
    else if not (c == 0x5C)
    then escaped_loop o in' start fuel cs (i + 1) run scratch r
    else (elim (escape_at (c ∷ cs)) [
      | decoded b k ↦
          escaped_loop o in' start fuel (drop k (c ∷ cs)) (i + k) (i + k) (flushed ++ b) r
      | bad ↦ (error invalid_escape i, r)
      | unfinished ↦ (error unterminated_string start, r)
    ])

-- The loop of `parse_string` at `i`, where `cs` is what is ahead.
unfoldable pub string_loop : Options → Bytes → ℕ → Bytes → ℕ → Call TextRef
unfolding escaped_loop
string_loop o in' start [] i r = (error unterminated_string start, r)
string_loop o in' start (c ∷ cs) i r =
    if c == 0x22
    then close_string o in' start i (part in' (start + 1) i) true r
    else if c == 0x5C
    then escaped_loop o in' start (length (c ∷ cs)) (c ∷ cs) i i (part in' (start + 1) i) r
    else if ltb c 0x20
    then (error unexpected_token i, r)
    else string_loop o in' start cs (i + 1) r

-- `parse_string`, at the opening quote.
unfoldable pub parse_string : Options → Bytes → Call TextRef
unfolding string_loop
parse_string o in' r = string_loop o in' r.pos (drop (r.pos + 1) in') (r.pos + 1) r
