-- ===== src/Cbor/Read/Skip/Fits.antt =====
-- Values that 64 bits hold, and what an encoding that succeeds says of its parts.
use v_codec.Base.{
  ℕ, ◌*◌, ◌^◌, ◌<◌, Bool, true, false, Option, none, some, List, [], ◌∷◌, ◌++◌, append_assoc, Bytes,
  length, leb, if◌then◌else◌, ◌≡◌, refl, sym, ap, ◌∙◌, arith, Bool-cases, inl, inr,
}
use v_codec.Base.Int.{ℤ, pos, negsuc}
use v_codec.Core.Error.{Errc, Result, ok, err}
use v_codec.Core.Utf8.{validate_utf8}
use v_codec.Core.Value.{
  Key, Value, Values, Entries, null, boolean, tagged, sequence, unsized, nil, cons, end, entry,
  values_size, entries_size,
}
use v_codec.Cbor.Head.{Major, make_head}
use v_codec.Cbor.Options.{Options}
use v_codec.Cbor.Encode.Spec.{Pair, text_bytes, concat_pairs, within}
use v_codec.Cbor.Read.Skip.Items.{concat}

abbrev pub FitsInt : ℤ → Type 0
FitsInt (pos n) = n < 2 ^ 64
FitsInt (negsuc n) = n < 2 ^ 64

abbrev pub FitsKey : Key → Type 0
FitsKey (Key.text t) = length t < 2 ^ 64
FitsKey (Key.uint n) = n < 2 ^ 64
FitsKey (Key.sint i) = FitsInt i

-- Every number and every size is what 64 bits hold; a map has less than 2 ^ 63 entries.
unfoldable mutual
  pub Fits : Value → Type 0
  Fits null = Unit
  Fits (boolean b) = Unit
  Fits (Value.uint n) = n < 2 ^ 64
  Fits (Value.sint i) = FitsInt i
  Fits (Value.text t) = length t < 2 ^ 64
  Fits (Value.bytes b) = length b < 2 ^ 64
  Fits (tagged t v) = (t < 2 ^ 64) × Fits v
  Fits (sequence vs) = (values_size vs < 2 ^ 64) × FitsValues vs
  Fits (unsized vs) = (values_size vs < 2 ^ 64) × FitsValues vs
  Fits (Value.map es) = (entries_size es * 2 < 2 ^ 64) × FitsEntries es

  pub FitsValues : Values → Type 0
  FitsValues nil = Unit
  FitsValues (cons v vs) = Fits v × FitsValues vs

  pub FitsEntries : Entries → Type 0
  FitsEntries end = Unit
  FitsEntries (entry k v es) = FitsKey k × (Fits v × FitsEntries es)

abbrev pub flat : List Pair → List Bytes
flat [] = []
flat ((k, v) ∷ ps) = k ∷ v ∷ flat ps

pub concat-flat : (ps : List Pair) → concat (flat ps) ≡ concat_pairs ps
concat-flat [] = refl
concat-flat ((k, v) ∷ ps) =
    sym (append_assoc k v (concat (flat ps))) ∙ ap (λ z. (k ++ v) ++ z) (concat-flat ps)

pub length-flat : (ps : List Pair) → length (flat ps) ≡ length ps * 2
length-flat [] = refl
length-flat ((k, v) ∷ ps) = omega (arith, length-flat ps)

-- A container is written only below the greatest depth.
pub within-ok :
    (o : Options) (d : ℕ) (r : Result Errc Bytes) (a : Bytes)
    → within o d r ≡ ok a
    → (d < o.max_depth) × (r ≡ ok a)
within-ok o d r a h = elim (Bool-cases (leb o.max_depth d)) [
  | inl e ↦ absurd (refused (rw e at h))
  | inr e ↦ (ground arith, rw e at h)
]
  where
    refused : {b : Errc} → err b ≡ ok a → ⊥
    refused h = cc

valid_if :
    (b : Bool) (v : Option ℕ) (x bs : Bytes)
    → (if b then (elim v [ none ↦ ok x | some bad ↦ err Errc.invalid_utf8 ]) else ok x) ≡ ok bs
    → (bs ≡ x) × (b ≡ true → v ≡ none)
valid_if true none x bs h = (cc, λ _. refl)
valid_if true (some bad) x bs h = absurd cc
valid_if false v x bs h = (cc, λ e. absurd cc)

pub either {ℓ κ} :
    {A : Type ℓ} (P : A → Type κ) (b : Bool) (x y : A) → P x → P y → P (if b then x else y)
either P true x y px py = px
either P false x y px py = py

pub text_bytes-valid :
    (o : Options) (t bs : Bytes)
    → text_bytes o t ≡ ok bs
    → (bs ≡ make_head Major.text (length t) ++ t)
      × (o.validate_utf8 ≡ true → validate_utf8 t ≡ none)
text_bytes-valid o t bs h = valid_if o.validate_utf8 (validate_utf8 t) _ bs h
