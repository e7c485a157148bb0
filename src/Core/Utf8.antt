-- ===== src/Core/Utf8.antt =====
-- UTF-8: `validate_utf8` of include/vcodec/core/lower.hpp, and `append_utf8` of
-- include/vcodec/json/read.hpp, which writes one code point.
pub mod WellFormed
pub mod Accepts
use v_codec.Base.{
  ℕ, zero, suc, ◌+◌, ◌/◌, ◌%◌, Bool, true, false, not, ◌||◌, ◌&&◌, Option, none, some, List, [],
  ◌∷◌, ltb, leb, ◌==◌, if◌then◌else◌, Bytes, get_elem?, length, drop, bit_or,
}

-- The lambda `cont(k)`, on the bytes from `i` on: `(b & 0xC0) == 0x80` is that the top two bits are 10.
unfoldable pub cont : Bytes → ℕ → Bool
cont s k = elim (get_elem? s k) [ none ↦ false | some b ↦ b / 64 == 2 ]

-- `c1 = s[i + 1]`, read where `cont(1)` holds.
unfoldable pub second_byte : Bytes → ℕ
second_byte s = elim (get_elem? s 1) [ none ↦ 0 | some b ↦ b ]

-- One round of the loop with the lead byte `c` at the front of `s`: how far `i` moves, or `none`
-- for `return i`.
unfoldable pub advance : ℕ → Bytes → Option ℕ
unfolding cont second_byte
advance c s =
    if ltb c 0x80
    then some 1
    else if leb 0xC2 c && leb c 0xDF
    then (if not (cont s 1) then none else some 2)
    else if leb 0xE0 c && leb c 0xEF
    then (if not (cont s 1) || not (cont s 2)
        then none
        else if (c == 0xE0) && ltb (second_byte s) 0xA0
        then none
        else if (c == 0xED) && leb 0xA0 (second_byte s)
        then none
        else some 3)
    else if leb 0xF0 c && leb c 0xF4
    then (if not (cont s 1) || (not (cont s 2) || not (cont s 3))
        then none
        else if (c == 0xF0) && ltb (second_byte s) 0x90
        then none
        else if (c == 0xF4) && leb 0x90 (second_byte s)
        then none
        else some 4)
    else none

-- The loop from offset `i`, with the bytes from there on. `none` is `utf8_npos`. A round moves by
-- a byte at least, so the length of the text is fuel enough.
unfoldable pub validate_loop : ℕ → ℕ → Bytes → Option ℕ
validate_loop fuel i [] = none
validate_loop zero i (c ∷ s) = some i
validate_loop (suc fuel) i (c ∷ s) = elim (advance c (c ∷ s)) [
  | none ↦ some i
  | some k ↦ validate_loop fuel (i + k) (drop k (c ∷ s))
]

unfoldable pub validate_utf8 : Bytes → Option ℕ
unfolding validate_loop advance
validate_utf8 s = validate_loop (length s) 0 s

-- `append_utf8(cp)`: the bytes that it pushes.
unfoldable pub utf8_bytes : ℕ → Bytes
utf8_bytes cp =
    if ltb cp 0x80
    then cp ∷ []
    else if ltb cp 0x800
    then bit_or 0xC0 (cp / 64) ∷ bit_or 0x80 (cp % 64) ∷ []
    else if ltb cp 0x10000
    then bit_or 0xE0 (cp / 4096) ∷ bit_or 0x80 (cp / 64 % 64) ∷ bit_or 0x80 (cp % 64) ∷ []
    else bit_or 0xF0 (cp / 262144)
      ∷ bit_or 0x80 (cp / 4096 % 64)
      ∷ bit_or 0x80 (cp / 64 % 64)
      ∷ bit_or 0x80 (cp % 64)
      ∷ []
