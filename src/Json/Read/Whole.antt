-- ===== src/Json/Read/Whole.antt =====
-- From `encode` to `skip_value` and `finish`: a text that was written is a valid input.
use v_codec.Base.{
  ℕ, suc, ◌+◌, ◌-◌, ◌≤◌, true, false, [], ◌++◌, append-nil, Bytes, length, length-append, drop,
  drop-append, ltb, if◌then◌else◌, ◌≡◌, refl, sym, ap, ◌∙◌, arith,
}
use v_codec.Core.Error.{ok, Result, Error, trailing_content, >>=-eq-ok}
use v_codec.Core.Call.{error}
use v_codec.Core.Value.{Value}
use v_codec.Json.Options.{Options}
use v_codec.Json.Number.{Parsed}
use v_codec.Json.Number.Digits.{EndsNumber}
use v_codec.Json.Write.{encode}
use v_codec.Json.Write.Spec.{text_of}
use v_codec.Json.Write.Refines.{encode_append-text_of}
use v_codec.Json.Write.Fits.{Fits}
use v_codec.Json.Read.State.{Reader, new_reader, finish, skip_ws, count_spaces}
use v_codec.Json.Read.Skip.{want_value, after_value, skip_step, skip_loop, skip_value}
use v_codec.Json.Read.Skip.Steps.{Leads, at}
use v_codec.Json.Read.Skip.Accepts.{value-Passes}

-- The loop has rounds enough.
complete :
    (from_chars : Bytes → Parsed) (o : Options) (in' : Bytes) (dep p p' : ℕ)
    → p' ≤ length in'
    → Leads from_chars o in' dep want_value [] p after_value [] p'
    → skip_value from_chars o in' (at from_chars o in' dep p) ≡ (ok tt, at from_chars o in' dep p')
unfolding skip_value skip_loop skip_step
complete from_chars o in' dep p p' l leads =
    let enough = leads.enough in
    let fuel : suc (length in' - p) ≡ leads.rounds + suc (length in' - p - leads.rounds) =
      omega arith in
    ap (λ n. skip_loop from_chars o in' n want_value [] (at from_chars o in' dep p)) fuel
    ∙ leads.same (suc (length in' - p - leads.rounds))

-- When the writer's specification has a text for a value whose integers fit 64 bits, at the depth
-- of the reader, then wherever this text stands in an input, with nothing behind it that goes on
-- with a number, `skip_value` from its start passes just that text and leaves the depth, if the
-- reader allows at least the writer's depth and checks UTF-8 only if the writer does.
pub skip_value-text_of :
    (from_chars : Bytes → Parsed) (wo o : Options) (v : Value) (before t rest : Bytes) (r : Reader)
    → wo.max_depth ≤ o.max_depth
    → (o.validate_utf8 ≡ true → wo.validate_utf8 ≡ true)
    → Fits v
    → text_of wo r.depth v ≡ ok t
    → r.pos ≡ length before
    → EndsNumber rest
    → skip_value from_chars o (before ++ (t ++ rest)) r
      ≡ (ok tt, record r { pos = r.pos + length t })
skip_value-text_of from_chars wo o v before t rest r deeper stricter f w here ends =
    let in' = before ++ (t ++ rest) in
    let ahead : drop r.pos in' ≡ t ++ rest =
      ap (λ n. drop n in') here ∙ drop-append before (t ++ rest) in
    let size : r.pos + 0 + length t ≤ length in' =
      omega (arith, here, length-append before (t ++ rest), length-append t rest) in
    complete from_chars o in' r.depth r.pos (r.pos + 0 + length t) size (
      value-Passes from_chars wo o in' r.depth deeper stricter v r.depth t [] [] rest f w
        (omega arith) ends tt r.pos ahead)
    ∙ ap (λ n. (ok tt, record r { pos = n })) (omega arith)

finish-end :
    (in' : Bytes) (dep : ℕ)
    → finish in' (record { pos = length in'; depth = dep })
      ≡ (ok tt, record { pos = length in'; depth = dep })
unfolding finish skip_ws count_spaces
finish-end in' dep =
    let nothing : drop (length in') in' ≡ [] =
      ap (drop (length in')) (sym (append-nil in')) ∙ drop-append in' [] in
    let stays : length in' + count_spaces (drop (length in') in') ≡ length in' =
      ap (λ cs. length in' + count_spaces cs) nothing ∙ none_more (length in') in
    ap outcome stays ∙ no_trailing
  where
    at_pos : ℕ → Reader
    at_pos n = record { pos = n; depth = dep }

    none_more : (n : ℕ) → n + 0 ≡ n
    none_more n = omega arith

    outcome : ℕ → Result Error (Unit {0}) × Reader
    outcome n =
        if ltb n (length in') then (error trailing_content n, at_pos n) else (ok tt, at_pos n)

    no_trailing : outcome (length in') ≡ (ok tt, at_pos (length in'))
    no_trailing = let there : ltb (length in') (length in') ≡ false = ground arith in rw there refl

-- For every value whose integers fit 64 bits, when `encode` returns a text, compact or pretty,
-- `skip_value` on it from the start succeeds, ends at its end and leaves the depth at 0, and
-- `finish` succeeds there, if the reader allows at least the writer's depth and checks UTF-8 only
-- if the writer does; whatever `from_chars` does with doubles.
pub skip_value-encode :
    (from_chars : Bytes → Parsed) (wo o : Options) (v : Value) (t : Bytes)
    → wo.max_depth ≤ o.max_depth
    → (o.validate_utf8 ≡ true → wo.validate_utf8 ≡ true)
    → Fits v
    → encode wo v ≡ ok t
    → (skip_value from_chars o t new_reader ≡ (ok tt, record { pos = length t; depth = 0 }))
      × (finish t (record { pos = length t; depth = 0 })
          ≡ (ok tt, record { pos = length t; depth = 0 }))
unfolding encode
skip_value-encode from_chars wo o v t deeper stricter f w =
    let (t', e, whole) = >>=-eq-ok (text_of wo 0 v) _ (sym (encode_append-text_of wo v []) ∙ w) in
    let same : t' ≡ t = cc whole in
    (
      ap (λ x. skip_value from_chars o x new_reader) (sym (append-nil t))
          ∙ skip_value-text_of from_chars wo o v [] t [] new_reader deeper stricter f
              (e ∙ ap ok same) refl tt
          ∙ ap (λ n. (ok tt, record { pos = n; depth = 0 })) (omega arith),
      finish-end t 0,
    )
