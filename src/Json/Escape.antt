-- ===== src/Json/Escape.antt =====
-- JSON strings: include/vcodec/json/escape.hpp.
pub mod Runs
use v_codec.Base.{
  ℕ, zero, suc, ◌+◌, ◌-◌, ◌/◌, ◌%◌, Bool, true, false, ◌||◌, Option, none, some, List, [], ◌∷◌,
  ◌++◌, Bytes, length, take, drop, ltb, ◌==◌, if◌then◌else◌,
}
use v_codec.Core.Error.{Errc, Result, ok, err, invalid_utf8}
use v_codec.Core.Utf8.{validate_utf8}
use v_codec.Core.Hex.{char_at}

-- "0123456789ABCDEF"
abbrev pub hex_upper : Bytes
hex_upper =
    0x30 ∷ 0x31 ∷ 0x32 ∷ 0x33 ∷ 0x34 ∷ 0x35 ∷ 0x36 ∷ 0x37 ∷ 0x38 ∷ 0x39 ∷ 0x41 ∷ 0x42 ∷ 0x43 ∷ 0x44
    ∷ 0x45 ∷ 0x46 ∷ []

unfoldable pub needs_escape : ℕ → Bool
needs_escape c = ltb c 0x20 || ((c == 0x22) || (c == 0x5C))

-- The characters that `put_escape` appends.
unfoldable pub escape_of : ℕ → Bytes
escape_of c =
    if c == 0x22
    then 0x5C ∷ 0x22 ∷ []
    else if c == 0x5C
    then 0x5C ∷ 0x5C ∷ []
    else if c == 0x08
    then 0x5C ∷ 0x62 ∷ []
    else if c == 0x0C
    then 0x5C ∷ 0x66 ∷ []
    else if c == 0x0A
    then 0x5C ∷ 0x6E ∷ []
    else if c == 0x0D
    then 0x5C ∷ 0x72 ∷ []
    else if c == 0x09
    then 0x5C ∷ 0x74 ∷ []
    else 0x5C ∷ 0x75 ∷ 0x30 ∷ 0x30 ∷ char_at hex_upper (c / 16) ∷ char_at hex_upper (c % 16) ∷ []

unfoldable pub put_escape : Bytes → ℕ → Bytes
put_escape out c = out ++ escape_of c

-- `if (i > run) out.append(s.data() + run, i - run)`
abbrev pub flush : Bytes → ℕ → ℕ → Bytes → Bytes
flush s i run out = if ltb run i then out ++ take (i - run) (drop run s) else out

-- The loop at `i`, where the rest of `s` is `cs` and the clean bytes from `run` on are not written.
unfoldable pub write_loop : Bytes → Bytes → ℕ → ℕ → Bytes → Bytes
write_loop s [] i run out = flush s (length s) run out
write_loop s (c ∷ cs) i run out =
    if needs_escape c
    then write_loop s cs (i + 1) (i + 1) (put_escape (flush s i run out) c)
    else write_loop s cs (i + 1) run out

abbrev pub quoted : Bytes → Bytes → Bytes
quoted s out = write_loop s s 0 0 (out ++ (0x22 ∷ [])) ++ (0x22 ∷ [])

-- The bytes behind `out`, or the code that is thrown.
unfoldable pub write_string : Bool → Bytes → Bytes → Result Errc Bytes
unfolding write_loop
write_string validate s out =
    if validate
    then (elim (validate_utf8 s) [ none ↦ ok (quoted s out) | some bad ↦ err invalid_utf8 ])
    else ok (quoted s out)

-- The characters of `prepared_key_blob`.
unfoldable pub blob_chars : Bytes → Bytes → Bytes
blob_chars [] b = b
blob_chars (c ∷ cs) b =
    if needs_escape c then blob_chars cs (put_escape b c) else blob_chars cs (b ++ (c ∷ []))

-- `prepared_key_blob`: the key in quotes and a colon, and a space in the pretty form.
unfoldable pub prepared_key_blob : Bytes → Bool → Bytes
unfolding blob_chars
prepared_key_blob name pretty =
    let b = blob_chars name (0x22 ∷ []) ++ (0x22 ∷ 0x3A ∷ []) in
    if pretty then b ++ (0x20 ∷ []) else b
