-- ===== src/Core/Base64/RoundTrip.antt =====
-- Decoding base64 undoes encoding, with either alphabet.
use v_codec.Base.{
  ℕ, ◌+◌, ◌*◌, ◌/◌, ◌%◌, ◌^◌, ◌<◌, Bool, true, false, not, [], ◌∷◌, ◌++◌, append_assoc, append-nil,
  Bytes, length, ◌==◌, ◌≡◌, ◌≢◌, refl, sym, ap, ◌∙◌, arith, All, IsByte,
}
use v_codec.Core.Hex.{char_at}
use v_codec.Core.Hex.RoundTrip.{all_below_lem}
use v_codec.Core.Base64.{
  b64_table, digit, padding, b64_groups, base64_encode, keep, strip_padding, b64_loop,
  base64_decode, shift_in,
}
use v_codec.Core.Base64.Digits.{loop-first, loop-second, loop-third}

-- The characters without the padding, and the padding.
abbrev bare : Bool → Bytes → Bytes
bare url [] = []
bare url (a ∷ []) = digit url (a * 2 ^ 16) 3 ∷ digit url (a * 2 ^ 16) 2 ∷ []
bare url (a ∷ b ∷ []) =
    let v = a * 2 ^ 16 + b * 2 ^ 8 in digit url v 3 ∷ digit url v 2 ∷ digit url v 1 ∷ []
bare url (a ∷ b ∷ c ∷ rest) =
    let v = a * 2 ^ 16 + b * 2 ^ 8 + c in
    digit url v 3 ∷ digit url v 2 ∷ digit url v 1 ∷ digit url v 0 ∷ bare url rest

abbrev pad : Bool → Bytes → Bytes
pad url [] = []
pad url (a ∷ []) = padding url (0x3D ∷ 0x3D ∷ [])
pad url (a ∷ b ∷ []) = padding url (0x3D ∷ [])
pad url (a ∷ b ∷ c ∷ rest) = pad url rest

b64_groups-bare : (url : Bool) (bs : Bytes) → b64_groups url bs ≡ bare url bs ++ pad url bs
unfolding b64_groups
b64_groups-bare url [] = refl
b64_groups-bare url (a ∷ []) = refl
b64_groups-bare url (a ∷ b ∷ []) = refl
b64_groups-bare url (a ∷ b ∷ c ∷ rest) =
    let v = a * 2 ^ 16 + b * 2 ^ 8 + c in
    ap (λ z. digit url v 3 ∷ digit url v 2 ∷ digit url v 1 ∷ digit url v 0 ∷ z)
      (b64_groups-bare url rest)

b64_loop-end :
    (url : Bool) (acc bits : ℕ) (out : Bytes) → b64_loop url acc bits [] out ≡ (true, out)
unfolding b64_loop
b64_loop-end url acc bits out = refl

b64_loop-bare :
    (url : Bool) (bs : Bytes) (acc : ℕ) (out : Bytes)
    → All IsByte bs
    → b64_loop url acc 0 (bare url bs) out ≡ (true, out ++ bs)
b64_loop-bare url [] acc out h =
    b64_loop-end url acc 0 out ∙ ap (λ z. (true, z)) (sym (append-nil out))
b64_loop-bare url (a ∷ []) acc out (ha, h) =
    loop-first url acc (a * 2 ^ 16) a [] out (omega arith) ha
    ∙ b64_loop-end url _ 4 (out ++ (a ∷ []))
b64_loop-bare url (a ∷ b ∷ []) acc out (ha, (hb, h)) =
    let v = a * 2 ^ 16 + b * 2 ^ 8 in
    loop-first url acc v a (digit url v 1 ∷ []) out (omega arith) ha
    ∙ loop-second url (shift_in acc (v / 2 ^ 18 % 64)) v b [] (out ++ (a ∷ [])) (omega arith)
    ∙ b64_loop-end url _ 2 ((out ++ (a ∷ [])) ++ (b ∷ []))
    ∙ ap (λ z. (true, z)) (append_assoc out (a ∷ []) (b ∷ []))
b64_loop-bare url (a ∷ b ∷ c ∷ rest) acc out (ha, (hb, (hc, h))) =
    let v = a * 2 ^ 16 + b * 2 ^ 8 + c in
    let acc' = shift_in acc (v / 2 ^ 18 % 64) in
    loop-first url acc v a (digit url v 1 ∷ digit url v 0 ∷ bare url rest) out (omega arith) ha
    ∙ loop-second url acc' v b (digit url v 0 ∷ bare url rest) (out ++ (a ∷ [])) (omega arith)
    ∙ loop-third url (shift_in acc' (v / 2 ^ 12 % 64)) v c (bare url rest)
        ((out ++ (a ∷ [])) ++ (b ∷ [])) (omega arith)
    ∙ b64_loop-bare url rest _ (((out ++ (a ∷ [])) ++ (b ∷ [])) ++ (c ∷ [])) h
    ∙ ap (λ z. (true, z))
        (append_assoc ((out ++ (a ∷ [])) ++ (b ∷ [])) (c ∷ []) rest
          ∙ append_assoc (out ++ (a ∷ [])) (b ∷ []) (c ∷ rest)
          ∙ append_assoc out (a ∷ []) (b ∷ c ∷ rest))

abbrev NoPad : ℕ → Type 0
NoPad c = (c == 0x3D) ≡ false

digit-NoPad : (url : Bool) (v k : ℕ) → NoPad (digit url v k)
unfolding char_at
digit-NoPad url v k = negate _ (letter url (v / 2 ^ (6 * k) % 64) (omega arith))
  where
    negate : (b : Bool) → not b ≡ true → b ≡ false
    negate b h = ground arith

    letter : (url : Bool) (n : ℕ) → n < 64 → not (char_at (b64_table url) n == 0x3D) ≡ true
    letter true n l = all_below_lem (λ n. not (char_at (b64_table true) n == 0x3D)) 64 n refl l
    letter false n l = all_below_lem (λ n. not (char_at (b64_table false) n == 0x3D)) 64 n refl l

bare-NoPad : (url : Bool) (bs : Bytes) → All NoPad (bare url bs)
bare-NoPad url [] = tt
bare-NoPad url (a ∷ []) = (digit-NoPad url _ 3, (digit-NoPad url _ 2, tt))
bare-NoPad url (a ∷ b ∷ []) =
    (digit-NoPad url _ 3, (digit-NoPad url _ 2, (digit-NoPad url _ 1, tt)))
bare-NoPad url (a ∷ b ∷ c ∷ rest) = (
  digit-NoPad url _ 3,
  (digit-NoPad url _ 2, (digit-NoPad url _ 1, (digit-NoPad url _ 0, bare-NoPad url rest))),
)

keep-NoPad : (c : ℕ) (cs : Bytes) → NoPad c → keep c cs ≡ c ∷ cs
keep-NoPad c [] h = rw h
keep-NoPad c (d ∷ ds) h = refl

strip_padding-append :
    (cs ps : Bytes) → All NoPad cs → strip_padding ps ≡ [] → strip_padding (cs ++ ps) ≡ cs
unfolding strip_padding
strip_padding-append [] ps h e = e
strip_padding-append (c ∷ cs) ps (hc, h) e =
    ap (keep c) (strip_padding-append cs ps h e) ∙ keep-NoPad c cs hc

strip_padding-pad : (url : Bool) (bs : Bytes) → strip_padding (pad url bs) ≡ []
unfolding strip_padding
strip_padding-pad url [] = refl
strip_padding-pad true (a ∷ []) = refl
strip_padding-pad false (a ∷ []) = refl
strip_padding-pad true (a ∷ b ∷ []) = refl
strip_padding-pad false (a ∷ b ∷ []) = refl
strip_padding-pad url (a ∷ b ∷ c ∷ rest) = strip_padding-pad url rest

length-bare : (url : Bool) (bs : Bytes) → length (bare url bs) % 4 ≢ 1
length-bare url [] e = absurd (omega (arith, e))
length-bare url (a ∷ []) e = absurd (omega (arith, e))
length-bare url (a ∷ b ∷ []) e = absurd (omega (arith, e))
length-bare url (a ∷ b ∷ c ∷ rest) e = length-bare url rest (omega (arith, e))

-- With either alphabet, `base64_decode` of what `base64_encode` gives for a list of bytes succeeds
-- and appends those bytes.
pub base64_decode-base64_encode :
    (url : Bool) (bs out : Bytes)
    → All IsByte bs
    → base64_decode (base64_encode bs [] url) out url ≡ (true, out ++ bs)
unfolding base64_decode base64_encode
base64_decode-base64_encode url bs out h =
    let stripped : strip_padding (b64_groups url bs) ≡ bare url bs =
      ap strip_padding (b64_groups-bare url bs)
      ∙ strip_padding-append (bare url bs) (pad url bs) (bare-NoPad url bs)
          (strip_padding-pad url bs) in
    let possible : (length (bare url bs) % 4 == 1) ≡ false = ground (arith, length-bare url bs) in
    rw (stripped, possible) (b64_loop-bare url bs 0 out h)
