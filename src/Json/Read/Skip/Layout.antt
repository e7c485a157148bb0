-- ===== src/Json/Read/Skip/Layout.antt =====
-- White space and separators of the writer, as `skip_value` meets them.
use v_codec.Base.{
  ℕ, zero, suc, ◌*◌, Bool, true, false, ◌||◌, [], ◌∷◌, ◌++◌, Bytes, ◌==◌, if◌then◌else◌, ◌≡◌, refl,
  subst, arith,
}
use v_codec.Core.Error.{Errc, Result, ok, ◌>>=◌, >>=-eq-ok}
use v_codec.Core.Value.{Values, Entries, nil, cons, end, entry}
use v_codec.Json.Options.{Options}
use v_codec.Json.Number.Digits.{EndsNumber}
use v_codec.Json.Write.{spaces, colon}
use v_codec.Json.Write.Spec.{line_break, key_chars, text_of, elements, members}
use v_codec.Json.Read.Skip.{closer}
use v_codec.Json.Read.Skip.Steps.{Blank}

spaces-Blank : (n : ℕ) → Blank (spaces n)
unfolding spaces
spaces-Blank zero = tt
spaces-Blank (suc n) = (refl, spaces-Blank n)

pub line_break-Blank : (o : Options) (d : ℕ) → Blank (line_break o d)
line_break-Blank o d = by_flag o.pretty
  where
    by_flag : (b : Bool) → Blank (if b then 0x0A ∷ spaces (d * o.indent) else [])
    by_flag true = (refl, spaces-Blank (d * o.indent))
    by_flag false = tt

-- The white space between a colon and a value.
abbrev pub gap : Options → Bytes
gap o = if o.pretty then 0x20 ∷ [] else []

pub colon-gap : (o : Options) → colon o ≡ 0x3A ∷ gap o
colon-gap o = by_flag o.pretty
  where
    by_flag :
        (b : Bool)
        → if◌then◌else◌ {A = Bytes} b (0x3A ∷ 0x20 ∷ []) (0x3A ∷ [])
          ≡ 0x3A ∷ (if b then 0x20 ∷ [] else [])
    by_flag true = refl
    by_flag false = refl

pub gap-Blank : (o : Options) → Blank (gap o)
gap-Blank o = by_flag o.pretty
  where
    by_flag : (b : Bool) → Blank (if b then 0x20 ∷ [] else [])
    by_flag true = (refl, tt)
    by_flag false = tt

ends_lem :
    (c : ℕ) (cs : Bytes)
    → ((c == 0x2C) || ((c == 0x0A) || ((c == 0x5D) || (c == 0x7D)))) ≡ true
    → EndsNumber (c ∷ cs)
ends_lem c cs h = (
  ground arith,
  (λ e. absurd (ground arith)),
  (λ e. absurd (ground arith)),
  λ e. absurd (ground arith),
)

pub closing-ends :
    (o : Options) (d : ℕ) (top : Bool) (rest : Bytes)
    → EndsNumber (line_break o d ++ (closer top ∷ rest))
closing-ends o d top rest = by_flag o.pretty top
  where
    by_flag :
        (b top : Bool)
        → EndsNumber ((if b then 0x0A ∷ spaces (d * o.indent) else []) ++ (closer top ∷ rest))
    by_flag true top = ends_lem 0x0A [] refl
    by_flag false true = ends_lem 0x7D [] refl
    by_flag false false = ends_lem 0x5D [] refl

-- The parts of the text of one more element.
pub elements-ok :
    (r rs : Result Errc Bytes) (lead t : Bytes)
    → (r >>= λ s. rs >>= λ t. ok (lead ++ (s ++ t))) ≡ ok t
    → (a : Bytes) × (b : Bytes) × (r ≡ ok a) × (rs ≡ ok b) × (lead ++ (a ++ b) ≡ t)
elements-ok r rs lead t h =
    let (a, ea, h') = >>=-eq-ok r _ h in
    let (b, eb, whole) = >>=-eq-ok rs _ h' in (a, b, ea, eb, cc whole)

pub members-ok :
    (rk r rs : Result Errc Bytes) (lead mid t : Bytes)
    → (rk >>= λ n. r >>= λ s. rs >>= λ t. ok (lead ++ (n ++ (mid ++ (s ++ t))))) ≡ ok t
    → (k : Bytes) × (a : Bytes) × (b : Bytes) × (rk ≡ ok k)
      × (r ≡ ok a)
      × (rs ≡ ok b)
      × (lead ++ (k ++ (mid ++ (a ++ b))) ≡ t)
members-ok rk r rs lead mid t h =
    let (k, ek, h') = >>=-eq-ok rk _ h in
    let (a, ea, h'') = >>=-eq-ok r _ h' in
    let (b, eb, whole) = >>=-eq-ok rs _ h'' in (k, a, b, ek, ea, eb, cc whole)

-- Behind an element comes no part of a number.
pub elements-ends :
    (o : Options) (d : ℕ) (vs : Values) (b rest : Bytes)
    → elements o d false vs ≡ ok b
    → EndsNumber rest
    → EndsNumber (b ++ rest)
unfolding elements
elements-ends o d nil b rest h ends =
    let same : [] ≡ b = cc h in subst (λ z. EndsNumber (z ++ rest)) same ends
elements-ends o d (cons v vs) b rest h ends =
    let (x, y, _, _, whole) =
      elements-ok (text_of o d v) (elements o d false vs) (0x2C ∷ line_break o d) b h in
    subst (λ z. EndsNumber (z ++ rest)) whole (ends_lem 0x2C [] refl)

pub members-ends :
    (o : Options) (d : ℕ) (es : Entries) (b rest : Bytes)
    → members o d false es ≡ ok b
    → EndsNumber rest
    → EndsNumber (b ++ rest)
unfolding members
members-ends o d end b rest h ends =
    let same : [] ≡ b = cc h in subst (λ z. EndsNumber (z ++ rest)) same ends
members-ends o d (entry k v es) b rest h ends =
    let (n, x, y, _, _, _, whole) =
      members-ok (key_chars o k) (text_of o d v) (members o d false es) (0x2C ∷ line_break o d)
        (colon o) b h in
    subst (λ z. EndsNumber (z ++ rest)) whole (ends_lem 0x2C [] refl)
