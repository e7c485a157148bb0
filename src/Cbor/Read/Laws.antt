-- ===== src/Cbor/Read/Laws.antt =====
-- What the reader's small operations do to its state.
use v_codec.Base.{◌^◌, ◌<◌, ◌≡◌, ap₂, arith}
use v_codec.Cbor.Read.State.{Reader, save, restore}

-- A position below 2^48 and a depth below 2^16 that are saved are restored in any later state.
pub restore-save :
    (r later : Reader)
    → r.pos < 2 ^ 48
    → r.depth < 2 ^ 16
    → restore (save r) later ≡ record later { pos = r.pos; depth = r.depth }
unfolding restore save
restore-save r later near shallow =
    ap₂ (λ a b. record later { pos = a; depth = b }) (omega arith) (omega arith)
