-- ===== src/Json/Escape/Runs.antt =====
-- Writing a string in runs of clean bytes writes what escaping each character would.
use v_codec.Base.{
  ℕ, suc, ◌+◌, ◌-◌, Bool, true, false, Option, none, some, [], ◌∷◌, ◌++◌, append_assoc, append-nil,
  Bytes, length, length-append, take, take-append, drop, drop-append, ltb, if◌then◌else◌, ◌≡◌, refl,
  sym, ap, ap₂, ◌∙◌, arith, Bool-cases, inl, inr,
}
use v_codec.Core.Error.{Errc, Result, ok, err, ◌>>=◌, invalid_utf8}
use v_codec.Core.Utf8.{validate_utf8}
use v_codec.Json.Escape.{
  needs_escape, escape_of, put_escape, flush, write_loop, quoted, write_string, blob_chars,
  prepared_key_blob,
}

-- The escaped form of a text, character by character.
abbrev pub escaped : Bytes → Bytes
escaped [] = []
escaped (c ∷ cs) = (if needs_escape c then escape_of c else c ∷ []) ++ escaped cs

flush-run :
    (before mid rest out : Bytes) (s : Bytes)
    → s ≡ before ++ (mid ++ rest)
    → flush s (length before + length mid) (length before) out ≡ out ++ mid
flush-run before [] rest out s e =
    let still : ltb (length before) (length before + 0) ≡ false = ground arith in
    rw (still, flush) (sym (append-nil out))
flush-run before (c ∷ mid) rest out s e =
    let more : ltb (length before) (length before + suc (length mid)) ≡ true = ground arith in
    let size : length before + suc (length mid) - length before ≡ length (c ∷ mid) = omega arith in
    let part : take (length before + suc (length mid) - length before) (drop (length before) s)
        ≡ c ∷ mid =
      ap₂ take size (ap (drop (length before)) e ∙ drop-append before ((c ∷ mid) ++ rest))
      ∙ take-append (c ∷ mid) rest in
    rw (more, flush) (ap (λ z. out ++ z) part)

write_loop-escaped :
    (s before mid cs out : Bytes)
    → s ≡ before ++ (mid ++ cs)
    → write_loop s cs (length before + length mid) (length before) out ≡ out ++ (mid ++ escaped cs)
unfolding write_loop put_escape
write_loop-escaped s before mid [] out e =
    ap (λ n. flush s n (length before) out)
      (ap length e
        ∙ length-append before (mid ++ [])
        ∙ ap (λ z. length before + length z) (append-nil mid))
    ∙ flush-run before mid [] out s e
    ∙ ap (λ z. out ++ z) (sym (append-nil mid))
write_loop-escaped s before mid (c ∷ cs) out e = elim (Bool-cases (needs_escape c)) [
  | inl b ↦ rw b (
      ap₂ (λ i x. write_loop s cs i i (x ++ escape_of c)) behind
        (flush-run before mid (c ∷ cs) out s e)
      ∙ ap (λ i. write_loop s cs i (length passed) ((out ++ mid) ++ escape_of c)) (omega arith)
      ∙ write_loop-escaped s passed [] cs ((out ++ mid) ++ escape_of c)
          (e ∙ sym (regroup ∙ ap (λ z. before ++ z) one))
      ∙ append_assoc (out ++ mid) (escape_of c) (escaped cs)
      ∙ append_assoc out mid (escape_of c ++ escaped cs))
  | inr b ↦ rw b (
      ap (λ i. write_loop s cs i (length before) out) (omega (arith, length-append mid (c ∷ [])))
      ∙ write_loop-escaped s before (mid ++ (c ∷ [])) cs out (e ∙ ap (λ z. before ++ z) (sym one))
      ∙ ap (λ z. out ++ z) (append_assoc mid (c ∷ []) (escaped cs)))
]
  where
    passed : Bytes
    passed = before ++ (mid ++ (c ∷ []))

    behind : length before + length mid + 1 ≡ length passed
    behind = omega (arith, length-append before (mid ++ (c ∷ [])), length-append mid (c ∷ []))

    regroup : passed ++ cs ≡ before ++ ((mid ++ (c ∷ [])) ++ cs)
    regroup = append_assoc before (mid ++ (c ∷ [])) cs

    one : (mid ++ (c ∷ [])) ++ cs ≡ mid ++ (c ∷ cs)
    one = append_assoc mid (c ∷ []) cs

-- The form of a string that a reader can be given: in quotes, and each character escaped.
abbrev pub literal : Bytes → Bytes
literal s = 0x22 ∷ (escaped s ++ (0x22 ∷ []))

quoted-literal : (s out : Bytes) → quoted s out ≡ out ++ literal s
quoted-literal s out =
    ap (λ z. z ++ (0x22 ∷ []))
      (write_loop-escaped s [] [] s (out ++ (0x22 ∷ [])) refl
        ∙ append_assoc out (0x22 ∷ []) (escaped s))
    ∙ append_assoc out (0x22 ∷ escaped s) (0x22 ∷ [])

abbrev pub no_bad : Option ℕ → Result Errc (Unit {0})
no_bad none = ok tt
no_bad (some bad) = err invalid_utf8

-- Whether a string may be written.
abbrev pub accepted : Bool → Bytes → Result Errc (Unit {0})
accepted validate s = if validate then no_bad (validate_utf8 s) else ok tt

-- `write_string`, which appends runs of clean bytes in one go, appends the string in quotes with
-- each character escaped on its own, or, when it validates and the string is not UTF-8, throws
-- invalid_utf8.
pub write_string-literal :
    (validate : Bool) (s out : Bytes)
    → write_string validate s out ≡ (accepted validate s >>= λ _. ok (out ++ literal s))
unfolding write_string
write_string-literal false s out = ap ok (quoted-literal s out)
write_string-literal true s out = by_result (validate_utf8 s)
  where
    by_result :
        (v : Option ℕ)
        → Path
            (Result Errc Bytes)
            (elim v [ none ↦ ok (quoted s out) | some bad ↦ err invalid_utf8 ])
            (no_bad v >>= λ _. ok (out ++ literal s))
    by_result none = ap ok (quoted-literal s out)
    by_result (some bad) = refl

blob_chars-escaped : (cs b : Bytes) → blob_chars cs b ≡ b ++ escaped cs
unfolding blob_chars put_escape
blob_chars-escaped [] b = sym (append-nil b)
blob_chars-escaped (c ∷ cs) b = elim (Bool-cases (needs_escape c)) [
  | inl e ↦
      rw e (blob_chars-escaped cs (b ++ escape_of c) ∙ append_assoc b (escape_of c) (escaped cs))
  | inr e ↦ rw e (blob_chars-escaped cs (b ++ (c ∷ [])) ∙ append_assoc b (c ∷ []) (escaped cs))
]

-- The compile-time key (in the form that is not pretty) is what `write_string` without validation
-- appends for the name, and a colon behind it.
pub prepared_key_blob-write_string :
    (name out : Bytes)
    → (write_string false name out >>= λ q. ok (q ++ (0x3A ∷ [])))
      ≡ ok (out ++ prepared_key_blob name false)
unfolding prepared_key_blob
prepared_key_blob-write_string name out =
    ap (λ r. r >>= λ q. ok (q ++ (0x3A ∷ []))) (write_string-literal false name out)
    ∙ ap ok (
        append_assoc out (literal name) (0x3A ∷ [])
        ∙ ap (λ z. out ++ (0x22 ∷ z)) (append_assoc (escaped name) (0x22 ∷ []) (0x3A ∷ []))
        ∙ ap (λ z. out ++ z)
            (sym (ap (λ z. z ++ (0x22 ∷ 0x3A ∷ [])) (blob_chars-escaped name (0x22 ∷ [])))))
