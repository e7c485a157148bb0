-- ===== src/Core/Error.antt =====
-- Error codes and results: include/vcodec/error.hpp. Of an error the model keeps the code and the
-- byte offset; the texts that describe it are not modelled, and its path is in Core/ErrorPath.
use v_codec.Base.{ℕ, ◌≡◌, refl}

pub data Errc : Type 0 where
  unexpected_token unterminated_string invalid_escape invalid_utf8 : Errc
  invalid_number trailing_content depth_exceeded truncated : Errc
  type_mismatch missing_field unknown_field duplicate_key : Errc
  out_of_range unknown_enumerator no_variant_alternative missing_tag : Errc
  escape_in_borrowed_string non_text_key : Errc
  malformed_item unsupported_simple_value : Errc
  tag_mismatch : Errc
  non_deterministic indefinite_in_borrowed_string : Errc

pub record Error : Type 0 where
  pub code : Errc
  pub offset : ℕ

-- `std::expected<X, F>`, and a function that throws an `F`.
pub data Result {ℓ} (F : Type 0) (X : Type ℓ) : Type ℓ where
  err : F → Result F X
  ok : X → Result F X

infixl 5 ◌>>=◌
abbrev pub ◌>>=◌ {ℓ κ} :
    {F : Type 0} {X : Type ℓ} {Y : Type κ} (first : Result F X) (next : X → Result F Y) → Result F Y
err code >>= next = err code
ok x >>= next = next x

module _ {ℓ κ} {F : Type 0} {X : Type ℓ} {Y : Type κ} where
  -- A chain that returns had something to go on with.
  pub >>=-eq-ok :
      (first : Result F X) (next : X → Result F Y) {y : Y}
      → (first >>= next) ≡ ok y
      → (x : X) × (first ≡ ok x) × (next x ≡ ok y)
  >>=-eq-ok (err code) next returns = cc
  >>=-eq-ok (ok x) next returns = (x, refl, returns)

  pub >>=_cong :
      (first : Result F X) (next other : X → Result F Y)
      → ((x : X) → next x ≡ other x)
      → (first >>= next) ≡ (first >>= other)
  >>=_cong (err code) next other same = refl
  >>=_cong (ok x) next other same = same x

-- Chains associate.
pub >>=_assoc {ℓ κ μ} :
    {F : Type 0} {X : Type ℓ} {Y : Type κ} {Z : Type μ} (first : Result F X) (next : X → Result F Y)
    (last : Y → Result F Z)
    → ((first >>= next) >>= last) ≡ (first >>= λ x. next x >>= last)
>>=_assoc (err code) next last = refl
>>=_assoc (ok x) next last = refl
