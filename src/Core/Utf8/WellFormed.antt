-- ===== src/Core/Utf8/WellFormed.antt =====
-- Which texts `validate_utf8` accepts, and what the offset of a refusal means.
use native.Mathlib.Decide.{dec_lt}
use v_codec.Base.{
  ℕ, ◌+◌, ◌-◌, ◌*◌, ◌/◌, ◌%◌, ◌≤◌, ◌<◌, ◌≡◌, ◌⊎◌, inl, inr, refl, Option, none, some, [], ◌∷◌, ◌++◌,
  ltb, if◌then◌else◌, Bytes, length, drop, bit_or, arith, drop-append,
}
use v_codec.Base.Bits.{or_is_sum, bit_or-eq-add}
use v_codec.Core.Utf8.{advance, utf8_bytes}

-- A Unicode scalar value: a code point that is no surrogate.
abbrev pub IsScalar : ℕ → Type 0
IsScalar cp = (cp < 0xD800) ⊎ ((0xE000 ≤ cp) × (cp < 0x110000))

-- Well-formed text: the code points that it stands for, written one after the other.
pub data WellFormed : Bytes → Type 0 where
  nil : WellFormed []
  cons :
      (cp : ℕ) {s rest : Bytes}
      → IsScalar cp
      → s ≡ utf8_bytes cp ++ rest
      → WellFormed rest
      → WellFormed s

lead_two : (n : ℕ) → n < 32 → bit_or 0xC0 n ≡ 0xC0 + n
unfolding or_is_sum
lead_two n = bit_or-eq-add 0xC0 32 n refl

lead_three : (n : ℕ) → n < 16 → bit_or 0xE0 n ≡ 0xE0 + n
unfolding or_is_sum
lead_three n = bit_or-eq-add 0xE0 16 n refl

lead_four : (n : ℕ) → n < 8 → bit_or 0xF0 n ≡ 0xF0 + n
unfolding or_is_sum
lead_four n = bit_or-eq-add 0xF0 8 n refl

follow : (n : ℕ) → n < 64 → bit_or 0x80 n ≡ 0x80 + n
unfolding or_is_sum
follow n = bit_or-eq-add 0x80 64 n refl

-- The bytes of a code point in plain arithmetic.
abbrev pub plain_bytes : ℕ → Bytes
plain_bytes cp =
    if ltb cp 0x80
    then cp ∷ []
    else if ltb cp 0x800
    then (0xC0 + cp / 64) ∷ (0x80 + cp % 64) ∷ []
    else if ltb cp 0x10000
    then (0xE0 + cp / 4096) ∷ (0x80 + cp / 64 % 64) ∷ (0x80 + cp % 64) ∷ []
    else (0xF0 + cp / 262144)
      ∷ (0x80 + cp / 4096 % 64)
      ∷ (0x80 + cp / 64 % 64)
      ∷ (0x80 + cp % 64)
      ∷ []

pub utf8_bytes-plain : (cp : ℕ) → cp < 0x110000 → utf8_bytes cp ≡ plain_bytes cp
unfolding utf8_bytes
utf8_bytes-plain cp h = ground (
  arith,
  lead_two (cp / 64),
  lead_three (cp / 4096),
  lead_four (cp / 262144),
  follow (cp % 64),
  follow (cp / 64 % 64),
  follow (cp / 4096 % 64),
)

abbrev pub advance_all : Bytes → Option ℕ
advance_all [] = none
advance_all (c ∷ s) = advance c (c ∷ s)

pub advance-plain :
    (cp : ℕ) (rest : Bytes)
    → IsScalar cp
    → advance_all (plain_bytes cp ++ rest) ≡ some (length (plain_bytes cp))
unfolding advance
advance-plain cp rest (inl h) = ground arith
advance-plain cp rest (inr h) = ground arith

-- The code point that a sequence of each length stands for.
abbrev code_two : ℕ → ℕ → ℕ
code_two c b1 = (c - 0xC0) * 64 + (b1 - 0x80)

abbrev code_three : ℕ → ℕ → ℕ → ℕ
code_three c b1 b2 = (c - 0xE0) * 4096 + (b1 - 0x80) * 64 + (b2 - 0x80)

abbrev code_four : ℕ → ℕ → ℕ → ℕ → ℕ
code_four c b1 b2 b3 = (c - 0xF0) * 262144 + (b1 - 0x80) * 4096 + (b2 - 0x80) * 64 + (b3 - 0x80)

plain_bytes-two :
    (c b1 : ℕ)
    → 0xC2 ≤ c
    → c ≤ 0xDF
    → b1 / 64 ≡ 2
    → IsScalar (code_two c b1) × (plain_bytes (code_two c b1) ≡ c ∷ b1 ∷ [])
plain_bytes-two c b1 lo hi h = ground arith

plain_bytes-three :
    (c b1 b2 : ℕ)
    → 0xE0 ≤ c
    → c ≤ 0xEF
    → b1 / 64 ≡ 2
    → b2 / 64 ≡ 2
    → (c ≡ 0xE0 → 0xA0 ≤ b1)
    → (c ≡ 0xED → b1 < 0xA0)
    → IsScalar (code_three c b1 b2) × (plain_bytes (code_three c b1 b2) ≡ c ∷ b1 ∷ b2 ∷ [])
plain_bytes-three c b1 b2 lo hi h1 h2 over sur = ground arith

plain_bytes-four :
    (c b1 b2 b3 : ℕ)
    → 0xF0 ≤ c
    → c ≤ 0xF4
    → b1 / 64 ≡ 2
    → b2 / 64 ≡ 2
    → b3 / 64 ≡ 2
    → (c ≡ 0xF0 → 0x90 ≤ b1)
    → (c ≡ 0xF4 → b1 < 0x90)
    → IsScalar (code_four c b1 b2 b3) × (plain_bytes (code_four c b1 b2 b3) ≡ c ∷ b1 ∷ b2 ∷ b3 ∷ [])
plain_bytes-four c b1 b2 b3 lo hi h1 h2 h3 over top = ground arith

-- What a move of the loop says of the bytes, by the range of the lead byte.
advance-two :
    (c b1 : ℕ) (s : Bytes) (k : ℕ)
    → 0x80 ≤ c
    → c < 0xE0
    → advance c (c ∷ b1 ∷ s) ≡ some k
    → (0xC2 ≤ c) × (c ≤ 0xDF) × (b1 / 64 ≡ 2) × (k ≡ 2)
unfolding advance
advance-two c b1 s k lo hi h = ground arith

advance-three :
    (c b1 b2 : ℕ) (s : Bytes) (k : ℕ)
    → 0xE0 ≤ c
    → c < 0xF0
    → advance c (c ∷ b1 ∷ b2 ∷ s) ≡ some k
    → (b1 / 64 ≡ 2) × (b2 / 64 ≡ 2) × (c ≡ 0xE0 → 0xA0 ≤ b1) × (c ≡ 0xED → b1 < 0xA0) × (k ≡ 3)
unfolding advance
advance-three c b1 b2 s k lo hi h = ground arith

advance-four :
    (c b1 b2 b3 : ℕ) (s : Bytes) (k : ℕ)
    → 0xF0 ≤ c
    → advance c (c ∷ b1 ∷ b2 ∷ b3 ∷ s) ≡ some k
    → (c ≤ 0xF4)
      × (b1 / 64 ≡ 2)
      × (b2 / 64 ≡ 2)
      × (b3 / 64 ≡ 2)
      × (c ≡ 0xF0 → 0x90 ≤ b1)
      × (c ≡ 0xF4 → b1 < 0x90)
      × (k ≡ 4)
unfolding advance
advance-four c b1 b2 b3 s k lo h = ground arith

-- The text begins with the bytes of a scalar value, and `k` of them.
pub record Starts (t : Bytes) (k : ℕ) : Type 0 where
  pub cp : ℕ
  pub scalar : IsScalar cp
  pub splits : t ≡ plain_bytes cp ++ drop k t
  pub size : k ≡ length (plain_bytes cp)

-- A sequence of a given length, once its code point is known.
Starts-of :
    (cp : ℕ) (front rest : Bytes) (k : ℕ)
    → IsScalar cp
    → plain_bytes cp ≡ front
    → k ≡ length front
    → Starts (front ++ rest) k
Starts-of cp front rest k sc e ek = record {
  cp = cp;
  scalar = sc;
  splits = rw (e, ek, drop-append front rest);
  size = rw e ek;
}

advance-Starts_two :
    (c k : ℕ) (s : Bytes) → 0x80 ≤ c → c < 0xE0 → advance c (c ∷ s) ≡ some k → Starts (c ∷ s) k
unfolding advance
advance-Starts_two c k [] lo hi h = absurd (ground arith)
advance-Starts_two c k (b1 ∷ r) lo hi h =
    let (l, u, h1, ek) = advance-two c b1 r k lo hi h in
    let (sc, e) = plain_bytes-two c b1 l u h1 in Starts-of (code_two c b1) (c ∷ b1 ∷ []) r k sc e ek

advance-Starts_three :
    (c k : ℕ) (s : Bytes) → 0xE0 ≤ c → c < 0xF0 → advance c (c ∷ s) ≡ some k → Starts (c ∷ s) k
unfolding advance
advance-Starts_three c k (b1 ∷ b2 ∷ r) lo hi h =
    let (h1, h2, over, sur, ek) = advance-three c b1 b2 r k lo hi h in
    let (sc, e) = plain_bytes-three c b1 b2 lo (omega arith) h1 h2 over sur in
    Starts-of (code_three c b1 b2) (c ∷ b1 ∷ b2 ∷ []) r k sc e ek
advance-Starts_three c k _ lo hi h = absurd (ground arith)

advance-Starts_four :
    (c k : ℕ) (s : Bytes) → 0xF0 ≤ c → advance c (c ∷ s) ≡ some k → Starts (c ∷ s) k
unfolding advance
advance-Starts_four c k (b1 ∷ b2 ∷ b3 ∷ r) lo h =
    let (hi, h1, h2, h3, over, top, ek) = advance-four c b1 b2 b3 r k lo h in
    let (sc, e) = plain_bytes-four c b1 b2 b3 lo hi h1 h2 h3 over top in
    Starts-of (code_four c b1 b2 b3) (c ∷ b1 ∷ b2 ∷ b3 ∷ []) r k sc e ek
advance-Starts_four c k _ lo h = absurd (ground arith)

pub advance-Starts : (c k : ℕ) (s : Bytes) → advance c (c ∷ s) ≡ some k → Starts (c ∷ s) k
advance-Starts c k s h = elim (dec_lt c 0x80) [
  | yes one ↦
      Starts-of c (c ∷ []) s k (inl (omega arith)) (ground arith) (unfold advance in ground arith)
  | no n1 ↦ elim (dec_lt c 0xE0) [
    | yes two ↦ advance-Starts_two c k s (omega arith) two h
    | no n2 ↦ elim (dec_lt c 0xF0) [
      | yes three ↦ advance-Starts_three c k s (omega arith) three h
      | no n3 ↦ advance-Starts_four c k s (omega arith) h
    ]
  ]
]
