-- ===== src/Cbor/Read/RoundTrip.antt =====
-- The typed calls of the reader, at what the writer wrote.
use v_codec.Base.{
  ℕ, suc, ◌+◌, ◌-◌, ◌^◌, ◌<◌, Bool, true, false, Option, none, ◌++◌, append_assoc, Bytes, length,
  length-append, ltb, leb, ◌==◌, if◌then◌else◌, ◌≡◌, refl, sym, ap, ap₂, ◌∙◌, arith,
}
use v_codec.Base.Int.{ℤ, pos, negsuc}
use v_codec.Core.Error.{ok}
use v_codec.Core.Utf8.{validate_utf8}
use v_codec.Cbor.Head.{Major, major_eq, ParsedHead, parse_head, shortest, make_head}
use v_codec.Cbor.Head.RoundTrip.{plain_head, head_size, length-make_head, parse_head-make_head}
use v_codec.Cbor.Options.{Options}
use v_codec.Cbor.Encode.Spec.{int_bytes}
use v_codec.Cbor.Read.State.{
  Reader, item_head, item_head_loop, found_head, check_head_deterministic,
}
use v_codec.Cbor.Read.Skip.Steps.{head_size-pos}
use v_codec.Cbor.Read.Skip.Leaves.{read_string-plain}
use v_codec.Cbor.Read.Expect.{text_ref, expect_sint, expect_text}

-- A head that the writer wrote, under any options: what the reader checks of it.
plain_head-deterministic :
    (m : Major) (v at : ℕ)
    → shortest (plain_head m v) ≡ true
    → check_head_deterministic (plain_head m v) at ≡ none
unfolding check_head_deterministic
plain_head-deterministic m v at short = rw short

same_branches : {A : Type 0} (b : Bool) (x y : A) → x ≡ y → (if b then x else y) ≡ y
same_branches true x y e = e
same_branches false x y e = refl

item_head_loop-make_head :
    (o : Options) (m : Major) (v f : ℕ) (in' before rest : Bytes)
    → major_eq m Major.tag ≡ false
    → major_eq m Major.simple ≡ false
    → v < 2 ^ 64
    → in' ≡ before ++ (make_head m v ++ rest)
    → item_head_loop o in' (suc f) (length before) ≡ ok (plain_head m v, length before)
unfolding item_head_loop
item_head_loop-make_head o m v f in' before rest tag simple fits e =
    let (parsed, short, size) = parse_head-make_head m v before rest fits in
    let here : parse_head in' (length before) ≡ plain_head m v =
      ap (λ x. parse_head x (length before)) e ∙ parsed in
    let short' : shortest (plain_head m v) ≡ true = ap shortest (sym parsed) ∙ short in
    let room : leb (length in') (length before) ≡ false = ground (
      arith,
      ap length e,
      length-append before (make_head m v ++ rest),
      length-append (make_head m v) rest,
      length-make_head m v,
      head_size-pos v,
    ) in
    let not_zero : (head_size v == 0) ≡ false = ground (arith, head_size-pos v) in
    rw (room, here, not_zero, tag, simple, plain_head-deterministic m v (length before) short')
      (same_branches o.require_deterministic _ _ (ap (λ h. ok (h, length before)) here))

-- A head that the writer wrote is the head of an item, and nothing is consumed.
item_head-make_head :
    (o : Options) (m : Major) (v : ℕ) (in' before rest : Bytes) (r : Reader)
    → major_eq m Major.tag ≡ false
    → major_eq m Major.simple ≡ false
    → v < 2 ^ 64
    → in' ≡ before ++ (make_head m v ++ rest)
    → r.pos ≡ length before
    → item_head o in' r ≡ (ok (plain_head m v), record r { start = r.pos })
unfolding item_head
item_head-make_head o m v in' before rest r tag simple fits e at =
    let spare : length in' - r.pos ≡ suc (length in' - r.pos - 1) = omega (
      arith,
      ap length e,
      at,
      length-append before (make_head m v ++ rest),
      length-append (make_head m v) rest,
      length-make_head m v,
      head_size-pos v,
    ) in
    ap₂ (λ f p. found_head (item_head_loop o in' f p) r) spare at
    ∙ ap (λ x. found_head x r) (item_head_loop-make_head o m v _ in' before rest tag simple fits e)
    ∙ ap (λ p. (ok (plain_head m v), record r { pos = p; start = p })) (sym at)

-- A 64-bit signed integer.
abbrev pub IsInt64 : ℤ → Type 0
IsInt64 (pos n) = n < 2 ^ 63
IsInt64 (negsuc n) = n < 2 ^ 63

-- For every 64-bit signed integer, wherever the bytes that the encoder's specification has for it
-- stand, under any reader options, `expect_sint` returns it and ends right behind it.
pub expect_sint-int_bytes :
    (o : Options) (i : ℤ) (before rest : Bytes) (r : Reader)
    → IsInt64 i
    → r.pos ≡ length before
    → expect_sint o (before ++ (int_bytes i ++ rest)) r
      ≡ (ok i, record r { pos = r.pos + length (int_bytes i); start = r.pos })
unfolding expect_sint
expect_sint-int_bytes o (pos n) before rest r fits at =
    let small : ltb (2 ^ 63 - 1) n ≡ false = ground arith in
    rw (item_head-make_head o Major.uint n _ before rest r refl refl (omega arith) refl at, small)
      (ap (λ k. (ok (pos n), record r { pos = r.pos + k; start = r.pos }))
        (sym (length-make_head Major.uint n)))
expect_sint-int_bytes o (negsuc n) before rest r fits at =
    let small : ltb (2 ^ 63 - 1) n ≡ false = ground arith in
    rw (item_head-make_head o Major.nint n _ before rest r refl refl (omega arith) refl at, small)
      (ap (λ k. (ok (negsuc n), record r { pos = r.pos + k; start = r.pos }))
        (sym (length-make_head Major.nint n)))

unchecked : (b : Bool) (v : Option ℕ) → (b ≡ true → v ≡ none) → (if b then v else none) ≡ none
unchecked true v valid = valid refl
unchecked false v valid = refl

text_ref-valid :
    (o : Options) (h : ParsedHead) (t : Bytes) (r : Reader)
    → (o.validate_utf8 ≡ true → validate_utf8 t ≡ none)
    → text_ref o h (record { content = t; assembled = false }) r
      ≡ (ok (record { content = t; borrowed = true; extent = r.pos - r.start }), r)
text_ref-valid o h t r valid = rw (unchecked o.validate_utf8 (validate_utf8 t) valid, text_ref)

-- For a text whose length fits 64 bits, and which is valid UTF-8 if the reader checks that,
-- wherever its head and bytes stand, under any reader options, `expect_text` returns it as
-- borrowed from the input, with the length of the item, and ends right behind it.
pub expect_text-text_bytes :
    (o : Options) (t before rest : Bytes) (r : Reader)
    → length t < 2 ^ 64
    → (o.validate_utf8 ≡ true → validate_utf8 t ≡ none)
    → r.pos ≡ length before
    → let item = make_head Major.text (length t) ++ t in
      expect_text o (before ++ (item ++ rest)) r ≡ (
        ok (record { content = t; borrowed = true; extent = length item }),
        record r { pos = r.pos + length item; start = r.pos },
      )
unfolding expect_text
expect_text-text_bytes o t before rest r fits valid at =
    let h = make_head Major.text (length t) in
    let in' = before ++ ((h ++ t) ++ rest) in
    let extent : r.pos + length (h ++ t) - r.pos ≡ length (h ++ t) = omega arith in
    rw
      (
        item_head-make_head o Major.text (length t) in' before (t ++ rest) r refl refl fits
            (ap (λ z. before ++ z) (append_assoc h t rest)) at,
        read_string-plain o Major.text in' before t rest (record r { start = r.pos }) refl at,
      )
      (text_ref-valid o (plain_head Major.text (length t)) t
          (record r { pos = r.pos + length (h ++ t); start = r.pos }) valid
        ∙ ap
            (λ n. (
              ok (record { content = t; borrowed = true; extent = n }),
              record r { pos = r.pos + length (h ++ t); start = r.pos },
            ))
            extent)
