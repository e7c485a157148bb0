-- ===== src/Cbor/Read/Whole.antt =====
-- From `encode_append` to `skip_value` and `finish`: a whole encoding is a valid input.
use v_codec.Base.{
  ℕ, ◌+◌, ◌≤◌, Bool, true, false, [], ◌++◌, append-nil, Bytes, length, length-append, ltb, ◌≡◌,
  refl, sym, ap, ◌∙◌, arith,
}
use v_codec.Core.Error.{ok, >>=-eq-ok}
use v_codec.Core.Value.{Value}
use v_codec.Cbor.Options.{Options}
use v_codec.Cbor.Encode.{encode_append, with_type_determinism_encode}
use v_codec.Cbor.Encode.Spec.{encoded}
use v_codec.Cbor.Encode.Refines.{describe_prefix, encode_append-encoded}
use v_codec.Cbor.Read.State.{Reader, finish}
use v_codec.Cbor.Read.Skip.{skip_value}
use v_codec.Cbor.Read.Skip.Fits.{Fits}
use v_codec.Cbor.Read.Skip.Accepts.{skip_value-encoded}

finish-end : (in' : Bytes) (r : Reader) → r.pos ≡ length in' → finish in' r ≡ (ok tt, r)
unfolding finish
finish-end in' r e = let no_more : ltb r.pos (length in') ≡ false = ground (arith, e) in rw no_more

-- A reader outside every container.
abbrev pub reader_at : ℕ → Reader
reader_at p = record { pos = p; depth = 0; start = 0 }

-- When `encode_append` returns for a value whose numbers and sizes fit 64 bits, with fewer than
-- 2^63 entries in a map, then on all the bytes it leaves, from behind those it was given and the
-- self-describe tag if it wrote one, `skip_value` succeeds, ends at the end at the depth where it
-- began, and `finish` succeeds there; if the reader does not require determinism, allows at least
-- the encoder's depth, and checks UTF-8 only if the encoder does. `p` is the check of preferred
-- floats.
pub skip_value-encode_append :
    (p : ℕ → ℕ → Bool) (opts rd : Options) (det describe : Bool) (v : Value) (out bytes : Bytes)
    → rd.require_deterministic ≡ false
    → (with_type_determinism_encode opts det).max_depth ≤ rd.max_depth
    → (rd.validate_utf8 ≡ true → (with_type_determinism_encode opts det).validate_utf8 ≡ true)
    → Fits v
    → encode_append opts det describe v out ≡ ok bytes
    → let at = length (out ++ describe_prefix (with_type_determinism_encode opts det) describe) in
      (skip_value p rd bytes (reader_at at) ≡ (ok tt, reader_at (length bytes)))
      × (finish bytes (reader_at (length bytes)) ≡ (ok tt, reader_at (length bytes)))
skip_value-encode_append p opts rd det describe v out bytes free deeper stricter fits h =
    let o = with_type_determinism_encode opts det in
    let before = out ++ describe_prefix o describe in
    let (bs, e, whole) =
      >>=-eq-ok (encoded o 0 v) _ (sym (encode_append-encoded opts det describe v out) ∙ h) in
    let bytes_are : before ++ bs ≡ bytes = cc whole in
    let size : length before + length bs ≡ length bytes =
      sym (length-append before bs) ∙ ap length bytes_are in
    (
      ap (λ x. skip_value p rd x (reader_at (length before)))
            (sym bytes_are ∙ ap (λ z. before ++ z) (sym (append-nil bs)))
          ∙ skip_value-encoded p o rd 0 v before bs [] (reader_at (length before)) free deeper
              stricter fits e refl refl
          ∙ ap (λ n. (ok tt, reader_at n)) size,
      finish-end bytes (reader_at (length bytes)) refl,
    )
