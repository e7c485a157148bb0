-- ===== src/Json/Write/Plain.antt =====
-- Strings of printing ASCII characters: numbers in quotes, and base64.
use v_codec.Base.{
  ℕ, suc, ◌%◌, ◌≤◌, ◌<◌, ◌≢◌, Bool, true, false, not, ◌&&◌, Option, none, some, [], ◌∷◌, ◌++◌,
  append-nil, Bytes, ltb, leb, ◌==◌, if◌then◌else◌, ◌≡◌, refl, sym, ap, ◌∙◌, subst, arith, All,
}
use v_codec.Base.Int.{ℤ}
use v_codec.Core.Error.{ok, ◌>>=◌}
use v_codec.Core.Utf8.{validate_utf8}
use v_codec.Core.Utf8.WellFormed.{WellFormed}
use v_codec.Core.Utf8.Accepts.{validate_utf8-WellFormed}
use v_codec.Core.Hex.{char_at}
use v_codec.Core.Hex.RoundTrip.{all_below_lem}
use v_codec.Core.Base64.{b64_table, b64_groups}
use v_codec.Core.Value.{Key}
use v_codec.Json.Options.{Options}
use v_codec.Json.Number.{decimal}
use v_codec.Json.Number.Digits.{IsDigit, decimal-IsDigit}
use v_codec.Json.Escape.{needs_escape}
use v_codec.Json.Escape.Runs.{escaped, literal, no_bad}
use v_codec.Json.Read.Strings.Valid.{IsAscii, ascii-WellFormed}
use v_codec.Json.Write.Spec.{string_chars, int_chars, in_quotes, key_chars}

abbrev pub IsPlain : ℕ → Type 0
IsPlain c = (0x20 ≤ c) × (c < 0x80) × (c ≢ 0x22) × (c ≢ 0x5C)

escaped-plain : (s : Bytes) → All IsPlain s → escaped s ≡ s
unfolding needs_escape
escaped-plain [] _ = refl
escaped-plain (c ∷ cs) ((low, high, quote, slash), h) =
    let clean : needs_escape c ≡ false = ground arith in
    rw clean (ap (λ z. c ∷ z) (escaped-plain cs h))

pub literal-plain : (s : Bytes) → All IsPlain s → in_quotes s ≡ literal s
literal-plain s h = ap (λ z. 0x22 ∷ z ++ (0x22 ∷ [])) (sym (escaped-plain s h))

plain-IsAscii : (s : Bytes) → All IsPlain s → All IsAscii s
plain-IsAscii [] _ = tt
plain-IsAscii (c ∷ cs) ((_, high, _, _), h) = (high, plain-IsAscii cs h)

pub validate_utf8-plain : (s : Bytes) → All IsPlain s → validate_utf8 s ≡ none
validate_utf8-plain s h =
    (validate_utf8-WellFormed s).1
      (subst WellFormed (append-nil s) (ascii-WellFormed s [] (plain-IsAscii s h) WellFormed.nil))

digits-IsPlain : (s : Bytes) → All IsDigit s → All IsPlain s
digits-IsPlain [] _ = tt
digits-IsPlain (c ∷ cs) ((l, u), h) = (
  (omega arith, omega arith, (λ e. absurd (omega arith)), λ e. absurd (omega arith)),
  digits-IsPlain cs h,
)

pub decimal-IsPlain : (n : ℕ) → All IsPlain (decimal n)
decimal-IsPlain n = digits-IsPlain (decimal n) (decimal-IsDigit n)

int_chars-IsPlain : (i : ℤ) → All IsPlain (int_chars i)
int_chars-IsPlain (ℤ.pos n) = decimal-IsPlain n
int_chars-IsPlain (ℤ.negsuc n) = (
  (omega arith, omega arith, (λ e. absurd (omega arith)), λ e. absurd (omega arith)),
  decimal-IsPlain (suc n),
)

is_plain : ℕ → Bool
is_plain c = leb 0x20 c && (ltb c 0x80 && (not (c == 0x22) && not (c == 0x5C)))

is_plain_lem : (c : ℕ) → is_plain c ≡ true → IsPlain c
unfolding is_plain
is_plain_lem c h =
    (ground arith, ground arith, (λ e. absurd (ground arith)), λ e. absurd (ground arith))

digit-IsPlain : (n : ℕ) → IsPlain (char_at (b64_table false) (n % 64))
unfolding char_at is_plain
digit-IsPlain n =
    is_plain_lem (char_at (b64_table false) (n % 64))
      (all_below_lem (λ i. is_plain (char_at (b64_table false) i)) 64 (n % 64) refl (omega arith))

equals-IsPlain : IsPlain 0x3D
unfolding is_plain
equals-IsPlain = is_plain_lem 0x3D refl

pub b64_groups-IsPlain : (b : Bytes) → All IsPlain (b64_groups false b)
unfolding b64_groups
b64_groups-IsPlain [] = tt
b64_groups-IsPlain (x ∷ []) =
    (digit-IsPlain _, (digit-IsPlain _, (equals-IsPlain, (equals-IsPlain, tt))))
b64_groups-IsPlain (x ∷ y ∷ []) =
    (digit-IsPlain _, (digit-IsPlain _, (digit-IsPlain _, (equals-IsPlain, tt))))
b64_groups-IsPlain (x ∷ y ∷ z ∷ rest) = (
  digit-IsPlain _,
  (digit-IsPlain _, (digit-IsPlain _, (digit-IsPlain _, b64_groups-IsPlain rest))),
)

-- A string that was written is a literal of valid text, if the writer validates.
pub string_chars-literal :
    (o : Options) (t s : Bytes)
    → string_chars o t ≡ ok s
    → (s ≡ literal t) × (o.validate_utf8 ≡ true → validate_utf8 t ≡ none)
string_chars-literal o t s h = by_flag o.validate_utf8 (validate_utf8 t) h
  where
    by_flag :
        (b : Bool) (v : Option ℕ)
        → ((if b then no_bad v else ok tt) >>= λ _. ok (literal t)) ≡ ok s
        → (s ≡ literal t) × (b ≡ true → v ≡ none)
    by_flag true none h = (cc, λ _. refl)
    by_flag true (some bad) h = absurd cc
    by_flag false v h = (cc, λ x. absurd cc)

pub key_chars-literal :
    (o : Options) (k : Key) (s : Bytes)
    → key_chars o k ≡ ok s
    → (t : Bytes) × (s ≡ literal t) × (o.validate_utf8 ≡ true → validate_utf8 t ≡ none)
key_chars-literal o (Key.text t) s h =
    let (e, valid) = string_chars-literal o t s h in (t, e, valid)
key_chars-literal o (Key.uint n) s h = (
  decimal n,
  cc h ∙ literal-plain (decimal n) (decimal-IsPlain n),
  λ _. validate_utf8-plain (decimal n) (decimal-IsPlain n),
)
key_chars-literal o (Key.sint i) s h = (
  int_chars i,
  cc h ∙ literal-plain (int_chars i) (int_chars-IsPlain i),
  λ _. validate_utf8-plain (int_chars i) (int_chars-IsPlain i),
)
