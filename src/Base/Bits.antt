-- ===== src/Base/Bits.antt =====
-- `base | a` is a sum where the two share no bit; for the masks of the code this is a table.
use Prim.Native.Nat.{ℕ, zero, suc, ◌+◌, ◌<◌, bit_or}
use mathlib.Core.Path.{◌≡◌}
use mathlib.Core.Bool.{Bool, true, ◌&&◌}
use native.Mathlib.Omega.{arith}
use v_codec.Base.Tests.{◌==◌}

unfoldable pub or_is_sum : ℕ → ℕ → Bool
or_is_sum base zero = true
or_is_sum base (suc n) = (bit_or base n == base + n) && or_is_sum base n

pub bit_or-eq-add : (base n a : ℕ) → or_is_sum base n ≡ true → a < n → bit_or base a ≡ base + a
unfolding or_is_sum
bit_or-eq-add base zero a h lt = absurd (omega arith)
bit_or-eq-add base (suc n) a h lt = ground (arith, bit_or-eq-add base n a)
