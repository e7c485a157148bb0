-- ===== src/Core/Base64.antt =====
-- Base64 and base64url: `base64_encode` and `base64_decode` of include/vcodec/core/lower.hpp.
pub mod Digits
pub mod RoundTrip
use v_codec.Base.{
  ℕ, zero, suc, ◌+◌, ◌-◌, ◌*◌, ◌/◌, ◌%◌, ◌^◌, Bool, true, false, ◌&&◌, Option, none, some, List, [],
  ◌∷◌, ◌++◌, Bytes, length, leb, ◌==◌, if◌then◌else◌,
}
use v_codec.Core.Hex.{char_at}

-- The letters and digits that the two alphabets share, in front of the last two characters.
abbrev pub alphabet : Bytes → Bytes
alphabet last =
    0x41 ∷ 0x42 ∷ 0x43 ∷ 0x44 ∷ 0x45 ∷ 0x46 ∷ 0x47 ∷ 0x48 ∷ 0x49 ∷ 0x4A ∷ 0x4B ∷ 0x4C ∷ 0x4D ∷ 0x4E
    ∷ 0x4F ∷ 0x50 ∷ 0x51 ∷ 0x52 ∷ 0x53 ∷ 0x54 ∷ 0x55 ∷ 0x56 ∷ 0x57 ∷ 0x58 ∷ 0x59 ∷ 0x5A ∷ 0x61
    ∷ 0x62 ∷ 0x63 ∷ 0x64 ∷ 0x65 ∷ 0x66 ∷ 0x67 ∷ 0x68 ∷ 0x69 ∷ 0x6A ∷ 0x6B ∷ 0x6C ∷ 0x6D ∷ 0x6E
    ∷ 0x6F ∷ 0x70 ∷ 0x71 ∷ 0x72 ∷ 0x73 ∷ 0x74 ∷ 0x75 ∷ 0x76 ∷ 0x77 ∷ 0x78 ∷ 0x79 ∷ 0x7A ∷ 0x30
    ∷ 0x31 ∷ 0x32 ∷ 0x33 ∷ 0x34 ∷ 0x35 ∷ 0x36 ∷ 0x37 ∷ 0x38 ∷ 0x39 ∷ last

-- `url ? b64_url : b64_std`
abbrev pub b64_table : Bool → Bytes
b64_table true = alphabet (0x2D ∷ 0x5F ∷ [])
b64_table false = alphabet (0x2B ∷ 0x2F ∷ [])

-- `b64_value`, where `none` stands for -1.
unfoldable pub b64_value : ℕ → Bool → Option ℕ
b64_value c url =
    if leb 0x41 c && leb c 0x5A
    then some (c - 0x41)
    else if leb 0x61 c && leb c 0x7A
    then some (c - 0x61 + 26)
    else if leb 0x30 c && leb c 0x39
    then some (c - 0x30 + 52)
    else if url
    then (if c == 0x2D then some 62 else if c == 0x5F then some 63 else none)
    else if c == 0x2B
    then some 62
    else if c == 0x2F
    then some 63
    else none

-- `tbl[(v >> (6 * k)) & 63]`
abbrev pub digit : Bool → ℕ → ℕ → ℕ
digit url v k = char_at (b64_table url) (v / 2 ^ (6 * k) % 64)

abbrev pub padding : Bool → Bytes → Bytes
padding url pad = if url then [] else pad

-- The characters for `in'`, three bytes at a time; in `v` the bytes do not overlap, so that `|` is
-- a sum.
unfoldable pub b64_groups : Bool → Bytes → Bytes
b64_groups url [] = []
b64_groups url (a ∷ []) =
    let v = a * 2 ^ 16 in digit url v 3 ∷ digit url v 2 ∷ padding url (0x3D ∷ 0x3D ∷ [])
b64_groups url (a ∷ b ∷ []) =
    let v = a * 2 ^ 16 + b * 2 ^ 8 in
    digit url v 3 ∷ digit url v 2 ∷ digit url v 1 ∷ padding url (0x3D ∷ [])
b64_groups url (a ∷ b ∷ c ∷ rest) =
    let v = a * 2 ^ 16 + b * 2 ^ 8 + c in
    digit url v 3 ∷ digit url v 2 ∷ digit url v 1 ∷ digit url v 0 ∷ b64_groups url rest

unfoldable pub base64_encode : Bytes → Bytes → Bool → Bytes
unfolding b64_groups
base64_encode in' out url = out ++ b64_groups url in'

-- The loop that takes `=` off the back: a character stays if one behind it does, or if it is none.
abbrev pub keep : ℕ → Bytes → Bytes
keep c [] = if c == 0x3D then [] else c ∷ []
keep c (d ∷ ds) = c ∷ d ∷ ds

unfoldable pub strip_padding : Bytes → Bytes
strip_padding [] = []
strip_padding (c ∷ cs) = keep c (strip_padding cs)

-- `acc` has 32 bits.
abbrev pub shift_in : ℕ → ℕ → ℕ
shift_in acc v = acc * 64 % 2 ^ 32 + v

-- The loop over the characters, with `bits` of `acc` not yet written; what was appended before a
-- failure stays.
unfoldable pub b64_loop : Bool → ℕ → ℕ → Bytes → Bytes → Bool × Bytes
b64_loop url acc bits [] out = (true, out)
b64_loop url acc bits (c ∷ cs) out = elim (b64_value c url) [
  | none ↦ (false, out)
  | some v ↦
      if leb 8 (bits + 6)
      then b64_loop url (shift_in acc v) (bits + 6 - 8) cs
          (out ++ ((shift_in acc v / 2 ^ (bits + 6 - 8) % 256) ∷ []))
      else b64_loop url (shift_in acc v) (bits + 6) cs out
]

-- Whether it succeeds, and the bytes behind `out`.
unfoldable pub base64_decode : Bytes → Bytes → Bool → Bool × Bytes
unfolding strip_padding b64_loop
base64_decode in' out url =
    let text = strip_padding in' in
    if length text % 4 == 1 then (false, out) else b64_loop url 0 0 text out
