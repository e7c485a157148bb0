-- ===== src/Json/Read/Skip/Brackets.antt =====
-- Rounds of `skip_value` at brackets, commas and keys.
use v_codec.Base.{
  ℕ, ◌+◌, ◌<◌, Bool, true, false, ◌||◌, none, List, [], ◌∷◌, ◌++◌, Bytes, length, drop, leb, ◌==◌,
  if◌then◌else◌, ◌≡◌, refl, ap, ◌∙◌, arith,
}
use v_codec.Core.Error.{ok}
use v_codec.Core.Utf8.{validate_utf8}
use v_codec.Json.Options.{Options}
use v_codec.Json.Number.{Parsed}
use v_codec.Json.Escape.Runs.{literal}
use v_codec.Json.Read.State.{Reader, ahead, is_space, front_is, unexpected}
use v_codec.Json.Read.Expect.{pass}
use v_codec.Json.Read.Skip.{
  want_value, want_key, after_value, go, failed, closer, item_state, first_item, open_container,
  value_ahead, value_behind, key_ahead, after_key, after_colon,
}
use v_codec.Json.Read.Skip.Steps.{
  Blank, Leads, at, behind, skip_ws-Blank, value_round, key_round, behind_round, parse_string-ahead,
}

abbrev pub opener : Bool → ℕ
opener is_object = if is_object then 0x7B else 0x5B

module _ (from_chars : Bytes → Parsed) (o : Options) (in' : Bytes) (dep : ℕ) where
  abbrev here : ℕ → Reader
  here p = at from_chars o in' dep p

  -- Behind no white space at all.
  stay : (p : ℕ) → p + 0 ≡ p
  stay p = omega arith

  -- Behind a bracket, and the white space behind it.
  opened :
      (is_object : Bool) (s : List Bool) (q : ℕ) (br y : Bytes) (c : ℕ)
      → dep + length s < o.max_depth
      → drop (q + 1) in' ≡ br ++ (c ∷ y)
      → Blank br
      → is_space c ≡ false
      → open_container o in' is_object s (here q)
        ≡ first_item is_object s (c ∷ y) (here (q + 1 + length br))
  unfolding open_container
  opened is_object s q br y c below e h dark =
      let allowed : leb o.max_depth (dep + length s) ≡ false = ground arith in
      rw allowed (
        ap (λ r. first_item is_object s (ahead in' r) r)
          (skip_ws-Blank from_chars o in' dep (q + 1) br y c e h dark)
        ∙ ap (λ cs. first_item is_object s cs (here (q + 1 + length br)))
            (behind from_chars o in' dep (q + 1) br (c ∷ y) e))

  value_ahead-opener :
      (is_object : Bool) (s : List Bool) (r : Reader)
      → value_ahead from_chars o in' (opener is_object) s r ≡ open_container o in' is_object s r
  unfolding value_ahead
  value_ahead-opener true s r = refl
  value_ahead-opener false s r = refl

  opener_dark : (is_object : Bool) → is_space (opener is_object) ≡ false
  opener_dark true = refl
  opener_dark false = refl

  -- A bracket with an item behind it.
  pub open_round :
      (is_object : Bool) (s : List Bool) (p : ℕ) (ws br y : Bytes) (c : ℕ)
      → dep + length s < o.max_depth
      → drop p in' ≡ ws ++ (opener is_object ∷ (br ++ (c ∷ y)))
      → Blank ws
      → Blank br
      → is_space c ≡ false
      → (c == closer is_object) ≡ false
      → Leads from_chars o in' dep want_value s p
          (item_state is_object)
          (is_object ∷ s)
          (p + length ws + 1 + length br)
  open_round is_object s p ws br y c below e h hb dark item =
      value_round from_chars o in' dep s p ws (br ++ (c ∷ y)) (opener is_object)
        (item_state is_object) (is_object ∷ s) (p + length ws + 1 + length br) e h
        (opener_dark is_object)
        (value_ahead-opener is_object s (here (p + length ws))
          ∙ opened is_object s (p + length ws) br y c below
              (behind from_chars o in' dep (p + length ws) (opener is_object ∷ []) (br ++ (c ∷ y))
                (behind from_chars o in' dep p ws (opener is_object ∷ (br ++ (c ∷ y))) e))
              hb dark
          ∙ rw item refl)
        (omega arith)

  -- An empty container.
  pub empty_round :
      (is_object : Bool) (s : List Bool) (p : ℕ) (ws y : Bytes)
      → dep + length s < o.max_depth
      → drop p in' ≡ ws ++ (opener is_object ∷ closer is_object ∷ y)
      → Blank ws
      → Leads from_chars o in' dep want_value s p after_value s (p + length ws + 2)
  empty_round is_object s p ws y below e h =
      value_round from_chars o in' dep s p ws (closer is_object ∷ y) (opener is_object) after_value
        s (p + length ws + 2) e h (opener_dark is_object)
        (value_ahead-opener is_object s (here (p + length ws))
          ∙ opened is_object s (p + length ws) [] y (closer is_object) below
              (behind from_chars o in' dep (p + length ws) (opener is_object ∷ [])
                (closer is_object ∷ y)
                (behind from_chars o in' dep p ws (opener is_object ∷ closer is_object ∷ y) e))
              tt (closer_dark is_object)
          ∙ closed is_object)
        (omega arith)
    where
      closer_dark : (b : Bool) → is_space (closer b) ≡ false
      closer_dark true = refl
      closer_dark false = refl

      closed :
          (b : Bool)
          → first_item b s (closer b ∷ y) (here (p + length ws + 1 + 0))
            ≡ go after_value s (here (p + length ws + 2))
      closed true = ap (λ n. go after_value s (here n)) (omega arith)
      closed false = ap (λ n. go after_value s (here n)) (omega arith)

  -- The closing bracket, behind white space.
  pub close_round :
      (top : Bool) (s : List Bool) (p : ℕ) (ws y : Bytes)
      → drop p in' ≡ ws ++ (closer top ∷ y)
      → Blank ws
      → Leads from_chars o in' dep after_value (top ∷ s) p after_value s (p + length ws + 1)
  unfolding value_behind
  close_round true s p ws y e h =
      behind_round from_chars o in' dep true s p ws y 0x7D after_value s (p + length ws + 1) e h
        refl refl (omega arith)
  close_round false s p ws y e h =
      behind_round from_chars o in' dep false s p ws y 0x5D after_value s (p + length ws + 1) e h
        refl refl (omega arith)

  -- A comma, and the white space behind it.
  pub comma_round :
      (top : Bool) (s : List Bool) (p : ℕ) (br y : Bytes) (c : ℕ)
      → drop p in' ≡ 0x2C ∷ (br ++ (c ∷ y))
      → Blank br
      → is_space c ≡ false
      → ((c == 0x7D) || (c == 0x5D)) ≡ false
      → Leads from_chars o in' dep after_value
          (top ∷ s)
          p
          (item_state top)
          (top ∷ s)
          (p + 1 + length br)
  unfolding value_behind
  comma_round top s p br y c e h dark item =
      behind_round from_chars o in' dep top s p [] (br ++ (c ∷ y)) 0x2C (item_state top) (top ∷ s)
        (p + 1 + length br) e tt refl
        (ap (λ q. value_behind in' 0x2C top s (here q)) (stay p)
          ∙ ap
              (λ r.
                if front_is 0x7D (ahead in' r) || front_is 0x5D (ahead in' r)
                then failed (unexpected in' r) r
                else go (item_state top) (top ∷ s) r)
              (skip_ws-Blank from_chars o in' dep (p + 1) br y c rest h dark)
          ∙ ap
              (λ cs.
                if front_is 0x7D cs || front_is 0x5D cs
                then failed (unexpected in' r') r'
                else go (item_state top) (top ∷ s) r')
              (behind from_chars o in' dep (p + 1) br (c ∷ y) rest)
          ∙ rw item refl)
        (omega arith)
    where
      rest : drop (p + 1) in' ≡ br ++ (c ∷ y)
      rest = behind from_chars o in' dep p (0x2C ∷ []) (br ++ (c ∷ y)) e

      r' : Reader
      r' = here (p + 1 + length br)

  -- A key and the colon behind it.
  pub name_round :
      (s : List Bool) (p : ℕ) (t y : Bytes)
      → (o.validate_utf8 ≡ true → validate_utf8 t ≡ none)
      → drop p in' ≡ literal t ++ (0x3A ∷ y)
      → Leads from_chars o in' dep want_key s p want_value s (p + length (literal t) + 1)
  unfolding key_ahead
  name_round s p t y valid e =
      key_round from_chars o in' dep s p [] _ 0x22 want_value s (p + length (literal t) + 1) e tt
        refl
        (ap (λ q. key_ahead o in' 0x22 s (here q)) (stay p)
          ∙ ap (after_key in' s) (parse_string-ahead from_chars o in' dep p t (0x3A ∷ y) valid e)
          ∙ ap (λ r. after_colon s (pass in' 0x3A r))
              (skip_ws-Blank from_chars o in' dep q [] y 0x3A colon tt refl ∙ ap here (stay q))
          ∙ ap (after_colon s) passed)
        (omega arith)
    where
      q : ℕ
      q = p + length (literal t)

      colon : drop q in' ≡ 0x3A ∷ y
      colon = behind from_chars o in' dep p (literal t) (0x3A ∷ y) e

      passed : pass in' 0x3A (here q) ≡ (ok tt, here (q + 1))
      passed = rw colon refl
