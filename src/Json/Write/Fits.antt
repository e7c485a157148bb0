-- ===== src/Json/Write/Fits.antt =====
-- Values whose integers are integers of 64 bits.
use v_codec.Base.{◌^◌, ◌<◌}
use v_codec.Base.Int.{ℤ}
use v_codec.Core.Value.{Value, Values, Entries, tagged, sequence, unsized, nil, cons, end, entry}

abbrev pub FitsInt : ℤ → Type 0
FitsInt (ℤ.pos n) = n < 2 ^ 64
FitsInt (ℤ.negsuc n) = n < 2 ^ 63

-- Keys and tags have no bound.
unfoldable mutual
  pub Fits : Value → Type 0
  Fits (Value.uint n) = n < 2 ^ 64
  Fits (Value.sint i) = FitsInt i
  Fits (tagged t v) = Fits v
  Fits (sequence vs) = FitsValues vs
  Fits (unsized vs) = FitsValues vs
  Fits (Value.map es) = FitsEntries es
  Fits _ = Unit

  pub FitsValues : Values → Type 0
  FitsValues nil = Unit
  FitsValues (cons v vs) = Fits v × FitsValues vs

  pub FitsEntries : Entries → Type 0
  FitsEntries end = Unit
  FitsEntries (entry k v es) = Fits v × FitsEntries es
