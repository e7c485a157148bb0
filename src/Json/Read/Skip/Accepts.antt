-- ===== src/Json/Read/Skip/Accepts.antt =====
-- `skip_value` passes what the writer writes.
use v_codec.Base.{
  ℕ, suc, ◌+◌, ◌≤◌, ◌<◌, Bool, true, false, none, List, [], ◌∷◌, ◌++◌, Bytes, length, ◌≡◌, refl,
  sym, ap, ◌∙◌, subst, arith,
}
use v_codec.Base.Int.{ℤ}
use v_codec.Core.Error.{ok}
use v_codec.Core.Value.{
  Values, Entries, null, boolean, tagged, sequence, unsized, nil, cons, end, entry,
}
use v_codec.Core.Base64.{b64_groups}
use v_codec.Core.Utf8.{validate_utf8}
use v_codec.Json.Options.{Options}
use v_codec.Json.Number.{Parsed, decimal}
use v_codec.Json.Number.Digits.{EndsNumber}
use v_codec.Json.Escape.Runs.{literal}
use v_codec.Json.Write.{null_word, boolean_word, colon}
use v_codec.Json.Write.Spec.{
  line_break, in_quotes, key_chars, bracketed, is_nil, is_end, text_of, elements, members,
}
use v_codec.Json.Write.Plain.{
  literal-plain, validate_utf8-plain, b64_groups-IsPlain, string_chars-literal, key_chars-literal,
}
use v_codec.Json.Write.Fits.{Fits, FitsValues, FitsEntries}
use v_codec.Json.Write.Fronts.{bracketed-ok, text_front}
use v_codec.Json.Read.Skip.{State, want_key, after_value}
use v_codec.Core.Value
use v_codec.Json.Write.Fronts.{HasFront}
use v_codec.Json.Read.Skip.Steps.{Blank, no_round}
use v_codec.Json.Read.Skip.Tokens.{
  null_round, true_round, false_round, string_round, decimal_round, minus_round,
}
use v_codec.Json.Read.Skip.Groups.{
  From, Value, pair_passes, member_passes, comma_passes, container_passes, empty_passes,
}
use v_codec.Json.Read.Skip.Layout.{
  line_break-Blank, gap, colon-gap, gap-Blank, closing-ends, elements-ok, members-ok, elements-ends,
  members-ends,
}

module _ (from_chars : Bytes → Parsed) (wo o : Options) (in' : Bytes) (dep : ℕ)
    (deeper : wo.max_depth ≤ o.max_depth)
    (stricter : o.validate_utf8 ≡ true → wo.validate_utf8 ≡ true) where
  -- A text that is ahead, behind white space, is passed as a value.
  abbrev Passes : List Bool → Bytes → Bytes → Bytes → Type 0
  Passes = Value from_chars o in' dep

  abbrev Follows : State → List Bool → Bytes → Bytes → Type 0
  Follows = From from_chars o in' dep

  string-Passes :
      (s : List Bool) (ws t x rest : Bytes)
      → x ≡ literal t
      → (o.validate_utf8 ≡ true → validate_utf8 t ≡ none)
      → Blank ws
      → Passes s ws x rest
  string-Passes s ws t x rest same valid h =
      subst (λ z. Passes s ws z rest) (sym same)
        (λ p e. string_round from_chars o in' dep s p ws t rest valid e h)

  end_passes : (s : List Bool) (t rest : Bytes) → [] ≡ t → Follows after_value s t rest
  end_passes s t rest same p e =
      no_round from_chars o in' dep after_value s p (p + length t) (omega (arith, ap length same))

  append_front : (a b : Bytes) → HasFront a → HasFront (a ++ b)
  append_front a b (c, y, same, front) = (c, y ++ b, ap (λ z. z ++ b) same, front)

  key_front : (k : Value.Key) (n y : Bytes) → key_chars wo k ≡ ok n → HasFront (n ++ y)
  key_front k n y e =
      let (t, same, _) = key_chars-literal wo k n e in
      append_front n y
        (0x22, _, same, (refl, (λ e. absurd (omega arith)), λ e. absurd (omega arith)))

  -- A key that was written, and its value.
  named :
      (k : Value.Key) (n a b : Bytes) (s : List Bool) (rest : Bytes)
      → key_chars wo k ≡ ok n
      → Passes s (gap wo) a (b ++ rest)
      → Follows after_value s b rest
      → Follows want_key s (n ++ (colon wo ++ (a ++ b))) rest
  named k n a b s rest e value others =
      let (t, same, valid) = key_chars-literal wo k n e in
      subst (λ z. Follows want_key s (n ++ (z ++ (a ++ b))) rest) (sym (colon-gap wo))
        (member_passes from_chars o in' dep s n t (gap wo) a b rest same (λ on. valid (stricter on))
          value others)

  mutual
    unfolding text_of elements members Fits FitsValues FitsEntries

    pub value-Passes :
        (v : Value.Value) (d : ℕ) (t : Bytes) (s : List Bool) (ws rest : Bytes)
        → Fits v
        → text_of wo d v ≡ ok t
        → dep + length s ≡ d
        → EndsNumber rest
        → Blank ws
        → Passes s ws t rest
    value-Passes null d t s ws rest f w depth ends h =
        let same : null_word ≡ t = cc w in
        subst (λ z. Passes s ws z rest) same
          (λ p e. null_round from_chars o in' dep s p ws rest e h)
    value-Passes (boolean true) d t s ws rest f w depth ends h =
        let same : boolean_word true ≡ t = cc w in
        subst (λ z. Passes s ws z rest) same
          (λ p e. true_round from_chars o in' dep s p ws rest e h)
    value-Passes (boolean false) d t s ws rest f w depth ends h =
        let same : boolean_word false ≡ t = cc w in
        subst (λ z. Passes s ws z rest) same
          (λ p e. false_round from_chars o in' dep s p ws rest e h)
    value-Passes (Value.uint n) d t s ws rest f w depth ends h =
        let same : decimal n ≡ t = cc w in
        subst (λ z. Passes s ws z rest) same
          (λ p e. decimal_round from_chars o in' dep s p ws rest n f ends e h)
    value-Passes (Value.sint (ℤ.pos n)) d t s ws rest f w depth ends h =
        let same : decimal n ≡ t = cc w in
        subst (λ z. Passes s ws z rest) same
          (λ p e. decimal_round from_chars o in' dep s p ws rest n f ends e h)
    value-Passes (Value.sint (ℤ.negsuc n)) d t s ws rest f w depth ends h =
        let same : 0x2D ∷ decimal (suc n) ≡ t = cc w in
        subst (λ z. Passes s ws z rest) same
          (λ p e. minus_round from_chars o in' dep s p ws rest n f ends e h)
    value-Passes (Value.text x) d t s ws rest f w depth ends h =
        let (same, valid) = string_chars-literal wo x t w in
        string-Passes s ws x t rest same (λ on. valid (stricter on)) h
    value-Passes (Value.bytes b) d t s ws rest f w depth ends h =
        let chars = b64_groups false b in
        let same : in_quotes chars ≡ t = cc w in
        string-Passes s ws chars t rest (sym same ∙ literal-plain chars (b64_groups-IsPlain b))
          (λ _. validate_utf8-plain chars (b64_groups-IsPlain b)) h
    value-Passes (tagged k v) d t s ws rest f w depth ends h =
        value-Passes v d t s ws rest f w depth ends h
    value-Passes (sequence vs) d t s ws rest f w depth ends h =
        let (below, x, inside, whole) =
          bracketed-ok wo d 0x5B 0x5D (is_nil vs) (elements wo (suc d) true vs) t w in
        subst (λ z. Passes s ws z rest) whole
          (sequence-Passes vs d x s ws rest f below inside depth h)
    value-Passes (unsized vs) d t s ws rest f w depth ends h =
        let (below, x, inside, whole) =
          bracketed-ok wo d 0x5B 0x5D (is_nil vs) (elements wo (suc d) true vs) t w in
        subst (λ z. Passes s ws z rest) whole
          (sequence-Passes vs d x s ws rest f below inside depth h)
    value-Passes (Value.map es) d t s ws rest f w depth ends h =
        let (below, x, inside, whole) =
          bracketed-ok wo d 0x7B 0x7D (is_end es) (members wo (suc d) true es) t w in
        subst (λ z. Passes s ws z rest) whole (map-Passes es d x s ws rest f below inside depth h)

    sequence-Passes :
        (vs : Values) (d : ℕ) (x : Bytes) (s : List Bool) (ws rest : Bytes)
        → FitsValues vs
        → d < wo.max_depth
        → elements wo (suc d) true vs ≡ ok x
        → dep + length s ≡ d
        → Blank ws
        → Passes s ws (bracketed wo d 0x5B 0x5D (is_nil vs) x) rest
    sequence-Passes nil d x s ws rest f below w depth h =
        empty_passes from_chars o in' dep false s ws x rest (omega arith) h (cc w)
    sequence-Passes (cons v vs) d x s ws rest (f, fs) below w depth h =
        let br = line_break wo (suc d) in
        let lb = line_break wo d in
        let tail = lb ++ (0x5D ∷ rest) in
        let (a, b, ea, eb, whole) =
          elements-ok (text_of wo (suc d) v) (elements wo (suc d) false vs) br x w in
        let ends = closing-ends wo d false rest in
        let deep : dep + length (false ∷ s) ≡ suc d = omega arith in
        subst (λ z. Passes s ws (bracketed wo d 0x5B 0x5D false z) rest) whole
          (container_passes from_chars o in' dep false s ws br (a ++ b) lb rest (omega arith) h
            (line_break-Blank wo (suc d)) (line_break-Blank wo d)
            (append_front a b (text_front wo (suc d) v a f ea))
            (pair_passes from_chars o in' dep (false ∷ s) a b tail
              (value-Passes v (suc d) a (false ∷ s) [] (b ++ tail) f ea deep
                (elements-ends wo (suc d) vs b tail eb ends) tt)
              (elements-pass vs (suc d) b s tail fs eb deep ends)))

    elements-pass :
        (vs : Values) (d : ℕ) (t : Bytes) (s : List Bool) (rest : Bytes)
        → FitsValues vs
        → elements wo d false vs ≡ ok t
        → dep + length (false ∷ s) ≡ d
        → EndsNumber rest
        → Follows after_value (false ∷ s) t rest
    elements-pass nil d t s rest f w depth ends = end_passes (false ∷ s) t rest (cc w)
    elements-pass (cons v vs) d t s rest (f, fs) w depth ends =
        let br = line_break wo d in
        let (a, b, ea, eb, whole) =
          elements-ok (text_of wo d v) (elements wo d false vs) (0x2C ∷ br) t w in
        subst (λ z. Follows after_value (false ∷ s) z rest) whole
          (comma_passes from_chars o in' dep false s br (a ++ b) rest (line_break-Blank wo d)
            (append_front a b (text_front wo d v a f ea))
            (pair_passes from_chars o in' dep (false ∷ s) a b rest
              (value-Passes v d a (false ∷ s) [] (b ++ rest) f ea depth
                (elements-ends wo d vs b rest eb ends) tt)
              (elements-pass vs d b s rest fs eb depth ends)))

    map-Passes :
        (es : Entries) (d : ℕ) (x : Bytes) (s : List Bool) (ws rest : Bytes)
        → FitsEntries es
        → d < wo.max_depth
        → members wo (suc d) true es ≡ ok x
        → dep + length s ≡ d
        → Blank ws
        → Passes s ws (bracketed wo d 0x7B 0x7D (is_end es) x) rest
    map-Passes end d x s ws rest f below w depth h =
        empty_passes from_chars o in' dep true s ws x rest (omega arith) h (cc w)
    map-Passes (entry k v es) d x s ws rest (f, fs) below w depth h =
        let br = line_break wo (suc d) in
        let lb = line_break wo d in
        let tail = lb ++ (0x7D ∷ rest) in
        let (n, a, b, en, ea, eb, whole) =
          members-ok (key_chars wo k) (text_of wo (suc d) v) (members wo (suc d) false es) br
            (colon wo) x w in
        let ends = closing-ends wo d true rest in
        let deep : dep + length (true ∷ s) ≡ suc d = omega arith in
        subst (λ z. Passes s ws (bracketed wo d 0x7B 0x7D false z) rest) whole
          (container_passes from_chars o in' dep true s ws br (n ++ (colon wo ++ (a ++ b))) lb rest
            (omega arith) h (line_break-Blank wo (suc d)) (line_break-Blank wo d)
            (key_front k n _ en)
            (named k n a b (true ∷ s) tail en
              (value-Passes v (suc d) a (true ∷ s) (gap wo) (b ++ tail) f ea deep
                (members-ends wo (suc d) es b tail eb ends) (gap-Blank wo))
              (members-pass es (suc d) b s tail fs eb deep ends)))

    members-pass :
        (es : Entries) (d : ℕ) (t : Bytes) (s : List Bool) (rest : Bytes)
        → FitsEntries es
        → members wo d false es ≡ ok t
        → dep + length (true ∷ s) ≡ d
        → EndsNumber rest
        → Follows after_value (true ∷ s) t rest
    members-pass end d t s rest f w depth ends = end_passes (true ∷ s) t rest (cc w)
    members-pass (entry k v es) d t s rest (f, fs) w depth ends =
        let br = line_break wo d in
        let (n, a, b, en, ea, eb, whole) =
          members-ok (key_chars wo k) (text_of wo d v) (members wo d false es) (0x2C ∷ br)
            (colon wo) t w in
        subst (λ z. Follows after_value (true ∷ s) z rest) whole
          (comma_passes from_chars o in' dep true s br (n ++ (colon wo ++ (a ++ b))) rest
            (line_break-Blank wo d) (key_front k n _ en)
            (named k n a b (true ∷ s) rest en
              (value-Passes v d a (true ∷ s) (gap wo) (b ++ rest) f ea depth
                (members-ends wo d es b rest eb ends) (gap-Blank wo))
              (members-pass es d b s rest fs eb depth ends)))
