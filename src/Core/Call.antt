-- ===== src/Core/Call.antt =====
-- The member functions of the readers: a result, and the state that they leave, after an error as
-- well.
use v_codec.Base.{ℕ}
use v_codec.Core.Error.{Errc, Error, Result, ok, err}

-- `error(code, offset)`
abbrev pub error {ℓ} : {A : Type ℓ} → Errc → ℕ → Result Error A
error code offset = err (record { code = code; offset = offset })

infixl 5 ◌>>=◌
abbrev pub and_then :
    {S A B : Type 0} → Result Error A × S → (A → S → Result Error B × S) → Result Error B × S
and_then (ok a, s) f = f a s
and_then (err e, s) f = (err e, s)

abbrev pub ◌>>=◌ :
    {S A B : Type 0}
    → (S → Result Error A × S)
    → (A → S → Result Error B × S)
    → S
    → Result Error B × S
◌>>=◌ m f s = and_then (m s) f
