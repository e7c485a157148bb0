-- ===== src/Json/Write/Fronts.antt =====
-- How the texts of values begin, and what a text that was written says of its parts.
use v_codec.Base.{
  ℕ, suc, ◌^◌, ◌<◌, ◌≢◌, Bool, true, false, some, [], ◌∷◌, ◌++◌, Bytes, length, leb, ◌==◌, ◌≡◌,
  refl, sym, subst, arith, All, Bool-cases, inl, inr,
}
use v_codec.Base.Int.{ℤ}
use v_codec.Core.Error.{Errc, Result, ok, err, ◌>>=◌, >>=-eq-ok}
use v_codec.Core.Value.{Value, null, boolean, tagged, sequence, unsized}
use v_codec.Json.Options.{Options}
use v_codec.Json.Number.{decimal, integer_part}
use v_codec.Json.Number.Digits.{IsDigit, decimal-IsDigit, integer_part-decimal}
use v_codec.Json.Read.State.{is_space}
use v_codec.Json.Write.Spec.{within, bracketed, text_of, elements, members}
use v_codec.Json.Write.Fits.{Fits}
use v_codec.Json.Write.Plain.{string_chars-literal}

-- The first character of a value: no white space and no closing bracket.
abbrev pub Front : ℕ → Type 0
Front c = (is_space c ≡ false) × (c ≢ 0x5D) × (c ≢ 0x7D)

abbrev pub HasFront : Bytes → Type 0
HasFront s = (c : ℕ) × (s' : Bytes) × (s ≡ c ∷ s') × Front c

digit-Front : (c : ℕ) → IsDigit c → Front c
digit-Front c (l, u) = (ground arith, (λ e. absurd (omega arith)), λ e. absurd (omega arith))

pub decimal_front : (n : ℕ) → n < 2 ^ 64 → HasFront (decimal n)
decimal_front n f = by_front (decimal n) (decimal-IsDigit n) (integer_part-decimal n [] f refl)
  where
    by_front :
        (ds : Bytes) → All IsDigit ds → integer_part (ds ++ []) ≡ some (length ds) → HasFront ds
    by_front [] _ e = absurd cc
    by_front (c ∷ cs) (h, _) e = (c, cs, refl, digit-Front c h)

pub within-ok :
    (o : Options) (d : ℕ) (r : Result Errc Bytes) (s : Bytes)
    → within o d r ≡ ok s
    → (d < o.max_depth) × (r ≡ ok s)
within-ok o d r s h = elim (Bool-cases (leb o.max_depth d)) [
  | inl e ↦ absurd (refused (rw e at h))
  | inr e ↦ (ground arith, rw e at h)
]
  where
    refused : {b : Errc} → err b ≡ ok s → ⊥
    refused h = cc

-- The parts of a container's text.
pub bracketed-ok :
    (o : Options) (d from to : ℕ) (none_inside : Bool) (r : Result Errc Bytes) (s : Bytes)
    → within o d (r >>= λ t. ok (bracketed o d from to none_inside t)) ≡ ok s
    → (d < o.max_depth) × (t : Bytes) × (r ≡ ok t) × (bracketed o d from to none_inside t ≡ s)
bracketed-ok o d from to none_inside r s h =
    let (below, e) = within-ok o d _ s h in
    let (t, inside, whole) = >>=-eq-ok r _ e in (below, t, inside, cc whole)

decided : (c : ℕ) → is_space c ≡ false → (c == 0x5D) ≡ false → (c == 0x7D) ≡ false → Front c
decided c a b d = (a, (λ e. absurd (ground arith)), λ e. absurd (ground arith))

container-Front :
    (o : Options) (d from to : ℕ) (none_inside : Bool) (r : Result Errc Bytes) (s : Bytes)
    → Front from
    → within o d (r >>= λ t. ok (bracketed o d from to none_inside t)) ≡ ok s
    → HasFront s
container-Front o d from to none_inside r s f h =
    let (below, t, inside, whole) = bracketed-ok o d from to none_inside r s h in
    (from, _, sym whole, f)

begins :
    (c : ℕ) (s' s : Bytes) → Front c → ◌≡◌ {A = Result Errc Bytes} (ok (c ∷ s')) (ok s) → HasFront s
begins c s' s f h = let same : c ∷ s' ≡ s = cc h in (c, s', sym same, f)

pub text_front :
    (o : Options) (d : ℕ) (v : Value) (s : Bytes) → Fits v → text_of o d v ≡ ok s → HasFront s
unfolding text_of Fits
text_front o d null s f h = begins 0x6E _ s (decided 0x6E refl refl refl) h
text_front o d (boolean true) s f h = begins 0x74 _ s (decided 0x74 refl refl refl) h
text_front o d (boolean false) s f h = begins 0x66 _ s (decided 0x66 refl refl refl) h
text_front o d (Value.uint n) s f h =
    let same : decimal n ≡ s = cc h in subst HasFront same (decimal_front n f)
text_front o d (Value.sint (ℤ.pos n)) s f h =
    let same : decimal n ≡ s = cc h in subst HasFront same (decimal_front n f)
text_front o d (Value.sint (ℤ.negsuc n)) s f h = begins 0x2D _ s (decided 0x2D refl refl refl) h
text_front o d (Value.text t) s f h =
    let (e, valid) = string_chars-literal o t s h in (0x22, _, e, decided 0x22 refl refl refl)
text_front o d (Value.bytes b) s f h = begins 0x22 _ s (decided 0x22 refl refl refl) h
text_front o d (tagged t v) s f h = text_front o d v s f h
text_front o d (sequence vs) s f h =
    container-Front o d 0x5B 0x5D _ (elements o (suc d) true vs) s (decided 0x5B refl refl refl) h
text_front o d (unsized vs) s f h =
    container-Front o d 0x5B 0x5D _ (elements o (suc d) true vs) s (decided 0x5B refl refl refl) h
text_front o d (Value.map es) s f h =
    container-Front o d 0x7B 0x7D _ (members o (suc d) true es) s (decided 0x7B refl refl refl) h
