-- ===== src/Json/Read/State.antt =====
-- The reader's state, white space, literals and errors: include/vcodec/json/read.hpp.
use v_codec.Base.{
  ℕ, suc, ◌+◌, ◌*◌, ◌/◌, ◌%◌, ◌^◌, Bool, false, not, ◌||◌, ◌&&◌, Option, none, some, [], ◌∷◌, Bytes,
  length, drop, take, ltb, leb, ◌==◌, if◌then◌else◌, bytes_equal,
}
use v_codec.Core.Call.{error}
use v_codec.Core.Error.{
  Errc, Error, Result, ok, err, truncated, unexpected_token, type_mismatch, depth_exceeded,
  trailing_content,
}
use v_codec.Json.Options.{Options}
use v_codec.Json.Number.{is_digit}

-- The members that the calls change: `pos_` and `depth_`. The input is an argument of each call,
-- and the scratch buffers are part of what a call returns.
pub record Reader : Type 0 where
  pub pos : ℕ
  pub depth : ℕ

-- `explicit reader(input)`
abbrev pub new_reader : Reader
new_reader = record { pos = 0; depth = 0 }

abbrev pub Call : Type 0 → Type 0
Call A = Reader → Result Error A × Reader

-- `pos_ += n`
abbrev pub advance : ℕ → Reader → Reader
advance n r = record r { pos = r.pos + n }

-- What is ahead: `in_.substr(pos_)`.
abbrev pub ahead : Bytes → Reader → Bytes
ahead in' r = drop r.pos in'

-- `line_col`
pub record LineCol : Type 0 where
  pub line : ℕ
  pub column : ℕ

abbrev pub next_position : ℕ → LineCol → LineCol
next_position c at =
    if c == 0x0A
    then record { line = at.line + 1; column = 1 }
    else record at { column = at.column + 1 }

-- The loop of `error`, over the bytes in front of the offset.
unfoldable pub position_loop : Bytes → LineCol → LineCol
position_loop [] at = at
position_loop (c ∷ cs) at = position_loop cs (next_position c at)

-- The line and column that `error` adds.
unfoldable pub position : Bytes → ℕ → LineCol
unfolding position_loop
position in' offset =
    position_loop (take (if ltb offset (length in') then offset else length in') in')
      (record { line = 1; column = 1 })

abbrev pub is_space : ℕ → Bool
is_space c = (c == 0x20) || ((c == 0x0A) || ((c == 0x0D) || (c == 0x09)))

unfoldable pub count_spaces : Bytes → ℕ
count_spaces [] = 0
count_spaces (c ∷ cs) = if is_space c then suc (count_spaces cs) else 0

unfoldable pub skip_ws : Bytes → Reader → Reader
skip_ws in' r = advance (count_spaces (ahead in' r)) r

-- `offset()` and `at_end()`, which skip white space first.
abbrev pub offset : Bytes → Reader → ℕ
offset in' r = (skip_ws in' r).pos

abbrev pub at_end : Bytes → Reader → Bool
at_end in' r = leb (length in') (skip_ws in' r).pos

-- `save`: the depth stands above bit 48; a position is below 2^48, so that `|` is a sum.
unfoldable pub save : Reader → ℕ
save r = (r.pos + r.depth * 2 ^ 48) % 2 ^ 64

unfoldable pub restore : ℕ → Reader → Reader
restore s r = record { pos = s % 2 ^ 48; depth = s / 2 ^ 48 }

-- `true`, `false`, `null`
abbrev pub true_word : Bytes
true_word = 0x74 ∷ 0x72 ∷ 0x75 ∷ 0x65 ∷ []

abbrev pub false_word : Bytes
false_word = 0x66 ∷ 0x61 ∷ 0x6C ∷ 0x73 ∷ 0x65 ∷ []

abbrev pub null_word : Bytes
null_word = 0x6E ∷ 0x75 ∷ 0x6C ∷ 0x6C ∷ []

-- `found_name` has a name for `c`.
abbrev pub has_name : ℕ → Bool
has_name c =
    (c == 0x6E)
    || ((c == 0x74)
        || ((c == 0x66)
            || ((c == 0x22) || ((c == 0x5B) || ((c == 0x7B) || ((c == 0x2D) || is_digit c))))))

-- `in_.substr(pos_, word.size()) == word`
abbrev pub starts_with : Bytes → Bytes → Bool
starts_with word cs = bytes_equal (take (length word) cs) word

-- `unexpected`: the error at what is ahead.
abbrev pub unexpected_code : Bytes → Errc
unexpected_code [] = truncated
unexpected_code (c ∷ cs) = unexpected_token

unfoldable pub unexpected : Bytes → Reader → Error
unexpected in' r = record { code = unexpected_code (ahead in' r); offset = r.pos }

abbrev pub literal_word : ℕ → Bytes
literal_word c = if c == 0x74 then true_word else if c == 0x66 then false_word else null_word

-- The code of `type_error`: a word that is no literal is a syntax error.
abbrev pub type_code : Bytes → Errc
type_code [] = truncated
type_code (c ∷ cs) =
    if not (has_name c)
    then unexpected_token
    else if ((c == 0x74) || ((c == 0x66) || (c == 0x6E)))
        && not (starts_with (literal_word c) (c ∷ cs))
    then unexpected_token
    else type_mismatch

unfoldable pub type_error : Bytes → Reader → Error
type_error in' r = record { code = type_code (ahead in' r); offset = r.pos }

abbrev pub front_is : ℕ → Bytes → Bool
front_is want [] = false
front_is want (c ∷ cs) = c == want

-- `mismatch`
unfoldable pub mismatch : Bytes → ℕ → Reader → Option Error
unfolding type_error
mismatch in' want r = if front_is want (ahead in' r) then none else some (type_error in' r)

-- `depth_error` and `enter`
unfoldable pub enter : Options → Call (Unit {0})
enter o r =
    if leb o.max_depth r.depth
    then (error depth_exceeded r.pos, r)
    else (ok tt, record r { depth = r.depth + 1 })

-- `literal`
unfoldable pub literal : Bytes → Bytes → Call (Unit {0})
unfolding unexpected
literal in' word r =
    let cs = ahead in' r in
    if starts_with word cs
    then (ok tt, advance (length word) r)
    else if ltb (length cs) (length word) && bytes_equal cs (take (length cs) word)
    then (error truncated (length in'), r)
    else (err (unexpected in' r), r)

-- `finish`
unfoldable pub finish : Bytes → Call (Unit {0})
unfolding skip_ws
finish in' r =
    let r' = skip_ws in' r in
    if ltb r'.pos (length in') then (error trailing_content r'.pos, r') else (ok tt, r')
