-- ===== src/Json/Read/Skip/Steps.antt =====
-- Rounds of `skip_value`: white space, tokens and brackets.
use v_codec.Base.{
  ℕ, suc, ◌+◌, ◌≤◌, ◌<◌, Bool, true, false, none, List, [], ◌∷◌, ◌++◌, Bytes, length, drop,
  drop-append, take, ◌≡◌, refl, sym, ap, ap₂, ◌∙◌, arith, All, drop-drop, length-drop, length-take,
  take-drop,
}
use v_codec.Core.Error.{Error, Result, ok}
use v_codec.Core.Utf8.{validate_utf8}
use v_codec.Json.Options.{Options}
use v_codec.Json.Number.{Parsed}
use v_codec.Json.Escape.Runs.{literal}
use v_codec.Json.Read.State.{Reader, ahead, is_space, count_spaces, skip_ws}
use v_codec.Json.Read.Strings.{parse_string}
use v_codec.Json.Read.Strings.RoundTrip.{is_clean, parse_string-literal}
use v_codec.Json.Read.Skip.{
  State, want_value, want_key, after_value, go, value_ahead, value_behind, key_ahead, skip_switch,
  skip_at, skip_step, skip_loop,
}

abbrev pub Blank : Bytes → Type 0
Blank ws = All (λ c. is_space c ≡ true) ws

count_spaces-Blank :
    (ws y : Bytes) (c : ℕ)
    → Blank ws
    → is_space c ≡ false
    → count_spaces (ws ++ (c ∷ y)) ≡ length ws
unfolding count_spaces
count_spaces-Blank [] y c _ other = rw other
count_spaces-Blank (w ∷ ws) y c (h, hs) other =
    rw h (ap (λ n. suc n) (count_spaces-Blank ws y c hs other))

module _ (from_chars : Bytes → Parsed) (o : Options) (in' : Bytes) (dep : ℕ) where
  -- The reader at a position; `skip_value` leaves the depth alone.
  abbrev pub at : ℕ → Reader
  at p = record { pos = p; depth = dep }

  abbrev loop : ℕ → State → List Bool → ℕ → Result Error (Unit {0}) × Reader
  loop n st stack p = skip_loop from_chars o in' n st stack (at p)

  -- The loop comes from one state to another, in as many rounds as it takes bytes or fewer.
  pub record Leads (st : State) (s : List Bool) (p : ℕ) (st' : State) (s' : List Bool) (p' : ℕ)
      : Type 0 where
    pub rounds : ℕ
    pub enough : rounds + p ≤ p'
    pub same : (fuel : ℕ) → loop (rounds + fuel) st s p ≡ loop fuel st' s' p'

  pub and_Leads :
      {st st' st'' : State} {s s' s'' : List Bool} {p p' p'' : ℕ}
      → Leads st s p st' s' p'
      → Leads st' s' p' st'' s'' p''
      → Leads st s p st'' s'' p''
  and_Leads {st} {s = s} {p = p} a b = record {
    rounds = a.rounds + b.rounds;
    enough = let l = a.enough in let m = b.enough in omega arith;
    same = λ fuel. ap (λ n. loop n st s p) (omega arith) ∙ a.same (b.rounds + fuel) ∙ b.same fuel;
  }

  pub no_round : (st : State) (s : List Bool) (p p' : ℕ) → p ≡ p' → Leads st s p st s p'
  no_round st s p p' e = record {
    rounds = 0;
    enough = omega (arith, e);
    same = λ fuel.
        let none_more : 0 + fuel ≡ fuel = omega arith in ap₂ (λ n q. loop n st s q) none_more e;
  }

  round :
      (st st' : State) (s s' : List Bool) (p p' : ℕ)
      → skip_step from_chars o in' st s (at p) ≡ go st' s' (at p')
      → p < p'
      → Leads st s p st' s' p'
  unfolding skip_loop
  round st st' s s' p p' e l = record {
    rounds = 1;
    enough = omega arith;
    same = λ fuel.
        let one_more : 1 + fuel ≡ suc fuel = omega arith in
        ap (λ n. loop n st s p) one_more ∙ one fuel;
  }
    where
      one : (fuel : ℕ) → loop (suc fuel) st s p ≡ loop fuel st' s' p'
      one fuel = rw (e, skip_loop) refl

  pub skip_ws-Blank :
      (p : ℕ) (ws y : Bytes) (c : ℕ)
      → drop p in' ≡ ws ++ (c ∷ y)
      → Blank ws
      → is_space c ≡ false
      → skip_ws in' (at p) ≡ at (p + length ws)
  unfolding skip_ws
  skip_ws-Blank p ws y c e h other =
      ap (λ n. at (p + n)) (ap count_spaces e ∙ count_spaces-Blank ws y c h other)

  -- What is behind the front of what is ahead.
  pub behind : (p : ℕ) (xs ys : Bytes) → drop p in' ≡ xs ++ ys → drop (p + length xs) in' ≡ ys
  behind p xs ys e = sym (drop-drop (length xs) p in') ∙ ap (drop (length xs)) e ∙ drop-append xs ys

  skip_at-Blank :
      (st : State) (s : List Bool) (p : ℕ) (ws y : Bytes) (c : ℕ)
      → drop p in' ≡ ws ++ (c ∷ y)
      → Blank ws
      → is_space c ≡ false
      → skip_at from_chars o in' (ahead in' (skip_ws in' (at p))) st s (skip_ws in' (at p))
        ≡ skip_switch from_chars o in' c st s (at (p + length ws))
  skip_at-Blank st s p ws y c e h other =
      ap (λ r. skip_at from_chars o in' (ahead in' r) st s r) (skip_ws-Blank p ws y c e h other)
      ∙ ap (λ cs. skip_at from_chars o in' cs st s (at (p + length ws))) (behind p ws (c ∷ y) e)

  -- A round that begins with white space.
  pub value_round :
      (s : List Bool) (p : ℕ) (ws y : Bytes) (c : ℕ) (st' : State) (s' : List Bool) (p' : ℕ)
      → drop p in' ≡ ws ++ (c ∷ y)
      → Blank ws
      → is_space c ≡ false
      → value_ahead from_chars o in' c s (at (p + length ws)) ≡ go st' s' (at p')
      → p < p'
      → Leads want_value s p st' s' p'
  unfolding skip_step skip_switch
  value_round s p ws y c st' s' p' e h other step l =
      round want_value st' s s' p p' (skip_at-Blank want_value s p ws y c e h other ∙ step) l

  pub key_round :
      (s : List Bool) (p : ℕ) (ws y : Bytes) (c : ℕ) (st' : State) (s' : List Bool) (p' : ℕ)
      → drop p in' ≡ ws ++ (c ∷ y)
      → Blank ws
      → is_space c ≡ false
      → key_ahead o in' c s (at (p + length ws)) ≡ go st' s' (at p')
      → p < p'
      → Leads want_key s p st' s' p'
  unfolding skip_step skip_switch
  key_round s p ws y c st' s' p' e h other step l =
      round want_key st' s s' p p' (skip_at-Blank want_key s p ws y c e h other ∙ step) l

  pub behind_round :
      (top : Bool) (s : List Bool) (p : ℕ) (ws y : Bytes) (c : ℕ) (st' : State) (s' : List Bool)
      (p' : ℕ)
      → drop p in' ≡ ws ++ (c ∷ y)
      → Blank ws
      → is_space c ≡ false
      → value_behind in' c top s (at (p + length ws)) ≡ go st' s' (at p')
      → p < p'
      → Leads after_value (top ∷ s) p st' s' p'
  unfolding skip_step skip_switch
  behind_round top s p ws y c st' s' p' e h other step l =
      round after_value st' (top ∷ s) s' p p'
        (skip_at-Blank after_value (top ∷ s) p ws y c e h other ∙ step) l

  -- What is ahead stands in the input.
  position_below : (p c : ℕ) (y : Bytes) → drop p in' ≡ c ∷ y → p ≤ length in'
  position_below p c y e = let size = ap length e in omega (arith, size, length-drop p in')

  pub parse_string-ahead :
      (p : ℕ) (s rest : Bytes)
      → (o.validate_utf8 ≡ true → validate_utf8 s ≡ none)
      → drop p in' ≡ literal s ++ rest
      → parse_string o in' (at p) ≡ (
        ok (record { content = s; borrowed = is_clean s; extent = length (literal s) }),
        at (p + length (literal s)),
      )
  parse_string-ahead p s rest valid e =
      let split : in' ≡ take p in' ++ (literal s ++ rest) =
        sym (take-drop p in') ∙ ap (λ z. take p in' ++ z) e in
      let size = length-take p in' (position_below p 0x22 _ e) in
      ap (λ x. parse_string o x (at p)) split
      ∙ parse_string-literal o s (take p in') rest (at p) valid (sym size)
