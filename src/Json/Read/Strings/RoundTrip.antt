-- ===== src/Json/Read/Strings/RoundTrip.antt =====
-- Parsing a string that the writer wrote.
use v_codec.Base.{
  ℕ, zero, suc, ◌+◌, ◌-◌, ◌≤◌, ◌<◌, Bool, true, false, not, ◌&&◌, Option, none, [], ◌∷◌, ◌++◌,
  append_assoc, append-nil, Bytes, length, length-append, drop, drop-append, take, take-append, ltb,
  ◌==◌, if◌then◌else◌, ◌≡◌, refl, sym, ap, ap₂, ◌∙◌, subst, arith, Bool-cases, inl, inr,
}
use v_codec.Core.Call.{error}
use v_codec.Core.Error.{Errc, Error, Result, ok}
use v_codec.Core.Kind.{TextRef}
use v_codec.Core.Utf8.{validate_utf8}
use v_codec.Json.Options.{Options}
use v_codec.Json.Escape.{needs_escape, escape_of}
use v_codec.Json.Escape.Runs.{escaped, literal}
use v_codec.Json.Read.State.{Reader}
use v_codec.Json.Read.Strings.{
  Escape, decoded, bad, unfinished, escape_at, part, close_string, escaped_loop, string_loop,
  parse_string,
}
use v_codec.Json.Read.Strings.Escapes.{escape_at-escape_of, escape_of-front}
use v_codec.Json.Read.Strings.Valid.{validate_utf8-escaped}

-- The part of the input between two places.
part_here :
    (in' pre mid rest : Bytes)
    → in' ≡ pre ++ (mid ++ rest)
    → part in' (length pre) (length pre + length mid) ≡ mid
part_here in' pre mid rest e =
    let size : length pre + length mid - length pre ≡ length mid = omega arith in
    ap₂ take size (ap (drop (length pre)) e ∙ drop-append pre (mid ++ rest)) ∙ take-append mid rest

-- A character that is written as it is.
clean_char :
    (c : ℕ)
    → needs_escape c ≡ false
    → ((c == 0x22) ≡ false) × (ltb c 0x20 ≡ false) × ((c == 0x5C) ≡ false)
unfolding needs_escape
clean_char c h = (ground (arith, h), ground (arith, h), ground (arith, h))

regroup :
    (pre mid : Bytes) (c : ℕ) (rest : Bytes)
    → pre ++ (mid ++ (c ∷ rest)) ≡ pre ++ ((mid ++ (c ∷ [])) ++ rest)
regroup pre mid c rest = ap (λ z. pre ++ z) (sym (append_assoc mid (c ∷ []) rest))

-- No character is escaped.
abbrev pub is_clean : Bytes → Bool
is_clean [] = true
is_clean (c ∷ cs) = not (needs_escape c) && is_clean cs

module _ (o : Options) (start : ℕ) (r : Reader) where
  clean_round :
      (in' cs scratch : Bytes) (c f i run : ℕ)
      → needs_escape c ≡ false
      → escaped_loop o in' start (suc f) (c ∷ cs) i run scratch r
        ≡ escaped_loop o in' start f cs (i + 1) run scratch r
  unfolding escaped_loop
  clean_round in' cs scratch c f i run h =
      let (no_quote, no_control, no_backslash) = clean_char c h in
      rw (no_quote, no_control, no_backslash)

  -- What a round does with an escape.
  after_escape : Bytes → Bytes → ℕ → ℕ → Bytes → Escape → Result Error TextRef × Reader
  after_escape in' cs f i flushed (decoded b k) =
      escaped_loop o in' start f (drop k cs) (i + k) (i + k) (flushed ++ b) r
  after_escape in' cs f i flushed bad = (error Errc.invalid_escape i, r)
  after_escape in' cs f i flushed unfinished = (error Errc.unterminated_string start, r)

  backslash_round :
      (in' cs scratch : Bytes) (f i run : ℕ)
      → escaped_loop o in' start (suc f) (0x5C ∷ cs) i run scratch r
        ≡ after_escape in' (0x5C ∷ cs) f i (scratch ++ part in' run i) (escape_at (0x5C ∷ cs))
  unfolding escaped_loop after_escape
  backslash_round in' cs scratch f i run = by_escape (escape_at (0x5C ∷ cs))
    where
      flushed : Bytes
      flushed = scratch ++ part in' run i

      by_escape :
          (e : Escape)
          → Path
              (Result Error TextRef × Reader)
              (elim e [
                | decoded b k ↦
                    escaped_loop o in' start f (drop k (0x5C ∷ cs)) (i + k) (i + k) (flushed ++ b) r
                | bad ↦ (error Errc.invalid_escape i, r)
                | unfinished ↦ (error Errc.unterminated_string start, r)
              ])
              (after_escape in' (0x5C ∷ cs) f i flushed e)
      by_escape (decoded b k) = refl
      by_escape bad = refl
      by_escape unfinished = refl

  escape_round :
      (in' tail scratch : Bytes) (c f i run : ℕ)
      → needs_escape c ≡ true
      → escaped_loop o in' start (suc f) (escape_of c ++ tail) i run scratch r
        ≡ escaped_loop o in' start f tail
            (i + length (escape_of c))
            (i + length (escape_of c))
            ((scratch ++ part in' run i) ++ (c ∷ []))
            r
  unfolding after_escape
  escape_round in' tail scratch c f i run h =
      let (x, front) = escape_of-front c in
      let whole : escape_of c ++ tail ≡ 0x5C ∷ (x ++ tail) = ap (λ z. z ++ tail) front in
      let flushed = scratch ++ part in' run i in
      let k = length (escape_of c) in
      ap (λ z. escaped_loop o in' start (suc f) z i run scratch r) whole
      ∙ backslash_round in' (x ++ tail) scratch f i run
      ∙ ap (after_escape in' (0x5C ∷ (x ++ tail)) f i flushed)
          (ap escape_at (sym whole) ∙ escape_at-escape_of c tail h)
      ∙ ap (λ z. escaped_loop o in' start f z (i + k) (i + k) (flushed ++ (c ∷ [])) r)
          (ap (drop k) (sym whole) ∙ drop-append (escape_of c) tail)

  -- From `i` on, with the bytes `mid` not yet written.
  escaped_loop-escaped :
      (s in' pre mid rest scratch : Bytes) (f : ℕ)
      → in' ≡ pre ++ (mid ++ (escaped s ++ (0x22 ∷ rest)))
      → length (escaped s) < f
      → escaped_loop o in' start f
          (escaped s ++ (0x22 ∷ rest))
          (length pre + length mid)
          (length pre)
          scratch
          r
        ≡ close_string o in' start
            (length pre + length mid + length (escaped s))
            (scratch ++ (mid ++ s))
            false
            r
  unfolding escaped_loop
  escaped_loop-escaped s in' pre mid rest scratch zero e l = absurd (omega arith)
  escaped_loop-escaped [] in' pre mid rest scratch (suc f) e l =
      ap₂ (λ i x. close_string o in' start i x false r) (omega arith)
        (ap (λ z. scratch ++ z) (part_here in' pre mid _ e ∙ sym (append-nil mid)))
  escaped_loop-escaped (c ∷ s) in' pre mid rest scratch (suc f) e l =
      elim (Bool-cases (needs_escape c)) [
        | inr b ↦
            let here : escaped (c ∷ s) ≡ c ∷ escaped s = rw b refl in
            ap
              (λ z.
                escaped_loop o in' start (suc f) (z ++ (0x22 ∷ rest)) (length pre + length mid)
                  (length pre) scratch r)
              here
            ∙ clean_round in' (escaped s ++ (0x22 ∷ rest)) scratch c f (length pre + length mid)
                (length pre) b
            ∙ ap
                (λ i.
                  escaped_loop o in' start f (escaped s ++ (0x22 ∷ rest)) i (length pre) scratch r)
                (omega (arith, length-append mid (c ∷ [])))
            ∙ escaped_loop-escaped s in' pre (mid ++ (c ∷ [])) rest scratch f
                (e
                  ∙ ap (λ z. pre ++ (mid ++ (z ++ (0x22 ∷ rest)))) here
                  ∙ regroup pre mid c (escaped s ++ (0x22 ∷ rest)))
                (omega (arith, ap length here))
            ∙ ap₂ (λ i x. close_string o in' start i (scratch ++ x) false r)
                (omega (arith, length-append mid (c ∷ []), ap length here))
                (append_assoc mid (c ∷ []) s)
        | inl b ↦
            let here : escaped (c ∷ s) ≡ escape_of c ++ escaped s = rw b refl in
            let tail = escaped s ++ (0x22 ∷ rest) in
            let passed = pre ++ (mid ++ escape_of c) in
            let size : length passed ≡ length pre + length mid + length (escape_of c) =
              omega
                (arith, length-append pre (mid ++ escape_of c), length-append mid (escape_of c)) in
            let whole : escaped (c ∷ s) ++ (0x22 ∷ rest) ≡ escape_of c ++ tail =
              ap (λ z. z ++ (0x22 ∷ rest)) here
              ∙ append_assoc (escape_of c) (escaped s) (0x22 ∷ rest) in
            let some_bytes : 1 ≤ length (escape_of c) =
              omega (arith, ap length (escape_of-front c).1) in
            let split : in' ≡ passed ++ tail =
              e
              ∙ ap (λ z. pre ++ (mid ++ z)) whole
              ∙ ap (λ z. pre ++ z) (sym (append_assoc mid (escape_of c) tail))
              ∙ sym (append_assoc pre (mid ++ escape_of c) tail) in
            ap
              (λ z.
                escaped_loop o in' start (suc f) z (length pre + length mid) (length pre) scratch r)
              whole
            ∙ escape_round in' tail scratch c f (length pre + length mid) (length pre) b
            ∙ ap
                (λ x.
                  escaped_loop o in' start f tail (length pre + length mid + length (escape_of c))
                    (length pre + length mid + length (escape_of c)) ((scratch ++ x) ++ (c ∷ [])) r)
                (part_here in' pre mid (escaped (c ∷ s) ++ (0x22 ∷ rest)) e)
            ∙ ap₂ (λ i run. escaped_loop o in' start f tail i run ((scratch ++ mid) ++ (c ∷ [])) r)
                (omega (arith, size)) (sym size)
            ∙ escaped_loop-escaped s in' passed [] rest ((scratch ++ mid) ++ (c ∷ [])) f split
                (omega (arith, ap length here, length-append (escape_of c) (escaped s)))
            ∙ ap₂ (λ i x. close_string o in' start i x false r)
                (omega (arith, size, ap length here, length-append (escape_of c) (escaped s)))
                (append_assoc (scratch ++ mid) (c ∷ []) s ∙ append_assoc scratch mid (c ∷ s))
      ]

  string_round_clean :
      (in' cs : Bytes) (c i : ℕ)
      → needs_escape c ≡ false
      → string_loop o in' start (c ∷ cs) i r ≡ string_loop o in' start cs (i + 1) r
  unfolding string_loop
  string_round_clean in' cs c i h =
      let (no_quote, no_control, no_backslash) = clean_char c h in
      rw (no_quote, no_backslash, no_control)

  string_round_escape :
      (in' tail : Bytes) (c i : ℕ)
      → string_loop o in' start (escape_of c ++ tail) i r
        ≡ escaped_loop o in' start
            (length (escape_of c ++ tail))
            (escape_of c ++ tail)
            i
            i
            (part in' (start + 1) i)
            r
  unfolding string_loop
  string_round_escape in' tail c i =
      let (x, front) = escape_of-front c in
      subst
        (λ e.
          string_loop o in' start (e ++ tail) i r
          ≡ escaped_loop o in' start (length (e ++ tail)) (e ++ tail) i i (part in' (start + 1) i)
              r)
        (sym front) refl

  -- From `i` on, with the bytes `mid` behind the opening quote taken.
  string_loop-escaped :
      (s in' pre mid rest : Bytes)
      → start + 1 ≡ length pre
      → in' ≡ pre ++ (mid ++ (escaped s ++ (0x22 ∷ rest)))
      → string_loop o in' start (escaped s ++ (0x22 ∷ rest)) (length pre + length mid) r
        ≡ close_string o in' start
            (length pre + length mid + length (escaped s))
            (mid ++ s)
            (is_clean s)
            r
  unfolding string_loop
  string_loop-escaped [] in' pre mid rest at e =
      ap₂ (λ i x. close_string o in' start i x true r) (omega arith)
        (ap (λ n. part in' n (length pre + length mid)) at
          ∙ part_here in' pre mid _ e
          ∙ sym (append-nil mid))
  string_loop-escaped (c ∷ s) in' pre mid rest at e = elim (Bool-cases (needs_escape c)) [
    | inr b ↦
        let here : escaped (c ∷ s) ≡ c ∷ escaped s = rw b refl in
        let flag : is_clean (c ∷ s) ≡ is_clean s = rw b refl in
        ap (λ z. string_loop o in' start (z ++ (0x22 ∷ rest)) (length pre + length mid) r) here
        ∙ string_round_clean in' (escaped s ++ (0x22 ∷ rest)) c (length pre + length mid) b
        ∙ ap (λ i. string_loop o in' start (escaped s ++ (0x22 ∷ rest)) i r)
            (omega (arith, length-append mid (c ∷ [])))
        ∙ string_loop-escaped s in' pre (mid ++ (c ∷ [])) rest at (
            e
            ∙ ap (λ z. pre ++ (mid ++ (z ++ (0x22 ∷ rest)))) here
            ∙ regroup pre mid c (escaped s ++ (0x22 ∷ rest)))
        ∙ ap₂ (λ i x. close_string o in' start i x (is_clean s) r)
            (omega (arith, length-append mid (c ∷ []), ap length here))
            (append_assoc mid (c ∷ []) s)
        ∙ ap
            (λ f.
              close_string o in' start (length pre + length mid + length (escaped (c ∷ s)))
                (mid ++ (c ∷ s)) f r)
            (sym flag)
    | inl b ↦
        let here : escaped (c ∷ s) ≡ escape_of c ++ escaped s = rw b refl in
        let flag : is_clean (c ∷ s) ≡ false = rw b refl in
        let whole : escaped (c ∷ s) ++ (0x22 ∷ rest) ≡ escape_of c ++ (escaped s ++ (0x22 ∷ rest)) =
          ap (λ z. z ++ (0x22 ∷ rest)) here
          ∙ append_assoc (escape_of c) (escaped s) (0x22 ∷ rest) in
        let all = escaped (c ∷ s) ++ (0x22 ∷ rest) in
        let i = length pre + length mid in
        ap (λ z. string_loop o in' start z i r) whole
        ∙ string_round_escape in' (escaped s ++ (0x22 ∷ rest)) c i
        ∙ ap (λ z. escaped_loop o in' start (length z) z i i (part in' (start + 1) i) r) (sym whole)
        ∙ ap (λ x. escaped_loop o in' start (length all) all i i x r)
            (ap (λ n. part in' n i) at ∙ part_here in' pre mid _ e)
        ∙ ap₂ (λ a b. escaped_loop o in' start (length all) all a b mid r)
            (omega (arith, length-append pre mid)) (sym (length-append pre mid))
        ∙ escaped_loop-escaped (c ∷ s) in' (pre ++ mid) [] rest mid (length all)
            (e ∙ sym (append_assoc pre mid all))
            (omega (arith, length-append (escaped (c ∷ s)) (0x22 ∷ rest)))
        ∙ ap₂ (λ i f. close_string o in' start i (mid ++ (c ∷ s)) f r)
            (omega (arith, length-append pre mid)) (sym flag)
  ]

valid_part : (b : Bool) (v : Option ℕ) → (b ≡ true → v ≡ none) → (if b then v else none) ≡ none
valid_part true v h = h refl
valid_part false v h = refl

close_string-valid :
    (o : Options) (in' content : Bytes) (start i : ℕ) (borrowed : Bool) (r : Reader)
    → (o.validate_utf8 ≡ true → validate_utf8 (part in' (start + 1) i) ≡ none)
    → close_string o in' start i content borrowed r ≡ (
      ok (record { content = content; borrowed = borrowed; extent = i + 1 - start }),
      record r { pos = i + 1 },
    )
close_string-valid o in' content start i borrowed r valid =
    rw (valid_part o.validate_utf8 (validate_utf8 (part in' (start + 1) i)) valid, close_string)

-- Where the escaped and quoted form of a string stands, and the string is UTF-8 if the reader
-- checks that, `parse_string` at its quote returns the string, as borrowed from the input exactly
-- if nothing in it is escaped, with the length of the form, and ends right behind it.
pub parse_string-literal :
    (o : Options) (s before rest : Bytes) (r : Reader)
    → (o.validate_utf8 ≡ true → validate_utf8 s ≡ none)
    → r.pos ≡ length before
    → parse_string o (before ++ (literal s ++ rest)) r ≡ (
      ok (record { content = s; borrowed = is_clean s; extent = length (literal s) }),
      record r { pos = r.pos + length (literal s) },
    )
unfolding parse_string
parse_string-literal o s before rest r valid at =
    let in' = before ++ (literal s ++ rest) in
    let pre = before ++ (0x22 ∷ []) in
    let tail = escaped s ++ (0x22 ∷ rest) in
    let one : length pre ≡ r.pos + 1 = omega (arith, at, length-append before (0x22 ∷ [])) in
    let split : in' ≡ pre ++ tail =
      ap (λ z. before ++ (0x22 ∷ z)) (append_assoc (escaped s) (0x22 ∷ []) rest)
      ∙ sym (append_assoc before (0x22 ∷ []) tail) in
    let size : length (literal s) ≡ length (escaped s) + 2 =
      omega (arith, length-append (escaped s) (0x22 ∷ [])) in
    let inside : part in' (r.pos + 1) (length pre + 0 + length (escaped s)) ≡ escaped s =
      ap₂ (part in') (sym one) (omega arith) ∙ part_here in' pre (escaped s) (0x22 ∷ rest) split in
    ap₂ (λ cs i. string_loop o in' r.pos cs i r) (ap₂ drop (sym one) split ∙ drop-append pre tail)
      (omega (arith, one))
    ∙ string_loop-escaped o r.pos r s in' pre [] rest (sym one) split
    ∙ close_string-valid o in' s r.pos (length pre + 0 + length (escaped s)) (is_clean s) r
        (λ v. ap validate_utf8 inside ∙ validate_utf8-escaped s (valid v))
    ∙ ap₂
        (λ a b.
          (ok (record { content = s; borrowed = is_clean s; extent = a }), record r { pos = b }))
        (omega (arith, one, size)) (omega (arith, one, size))
