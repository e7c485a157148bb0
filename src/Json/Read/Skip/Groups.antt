-- ===== src/Json/Read/Skip/Groups.antt =====
-- What `skip_value` passes in a container: an element, a member, and all of it in brackets.
use v_codec.Base.{
  ℕ, ◌+◌, ◌<◌, Bool, true, false, ◌||◌, none, List, [], ◌∷◌, ◌++◌, append_assoc, Bytes, length,
  length-append, drop, ◌==◌, ◌≡◌, sym, ap, ◌∙◌, subst, arith,
}
use v_codec.Core.Utf8.{validate_utf8}
use v_codec.Json.Options.{Options}
use v_codec.Json.Number.{Parsed}
use v_codec.Json.Escape.Runs.{literal}
use v_codec.Json.Write.Fronts.{Front, HasFront}
use v_codec.Json.Read.Skip.{State, want_value, want_key, after_value, closer, item_state}
use v_codec.Json.Read.Skip.Steps.{Blank, Leads, and_Leads, behind}
use v_codec.Json.Read.Skip.Brackets.{
  opener, open_round, empty_round, close_round, comma_round, name_round,
}

not_closer : (c : ℕ) (top : Bool) → Front c → (c == closer top) ≡ false
not_closer c true (_, _, n) = ground arith
not_closer c false (_, n, _) = ground arith

not_closers : (c : ℕ) → Front c → ((c == 0x7D) || (c == 0x5D)) ≡ false
not_closers c (_, m, n) = ground arith

module _ (from_chars : Bytes → Parsed) (o : Options) (in' : Bytes) (dep : ℕ) where
  abbrev L : State → List Bool → ℕ → State → List Bool → ℕ → Type 0
  L = Leads from_chars o in' dep

  -- From a state, a text that is ahead is passed.
  abbrev pub From : State → List Bool → Bytes → Bytes → Type 0
  From st s t rest = (p : ℕ) → drop p in' ≡ t ++ rest → L st s p after_value s (p + length t)

  -- A text behind white space is passed as a value.
  abbrev pub Value : List Bool → Bytes → Bytes → Bytes → Type 0
  Value s ws t rest =
      (p : ℕ)
      → drop p in' ≡ ws ++ (t ++ rest)
      → L want_value s p after_value s (p + length ws + length t)

  moved :
      (st : State) (s : List Bool) (p q q' : ℕ)
      → q ≡ q'
      → L st s p after_value s q
      → L st s p after_value s q'
  moved st s p q q' e l = subst (λ x. L st s p after_value s x) e l

  -- An element and the others.
  pub pair_passes :
      (s : List Bool) (a b rest : Bytes)
      → Value s [] a (b ++ rest)
      → From after_value s b rest
      → From want_value s (a ++ b) rest
  pair_passes s a b rest value others p e =
      let e' = e ∙ append_assoc a b rest in
      let q = p + 0 + length a in
      let at_b : drop q in' ≡ b ++ rest =
        ap (λ n. drop n in') (omega arith) ∙ behind from_chars o in' dep p a (b ++ rest) e' in
      moved want_value s p (q + length b) (p + length (a ++ b)) (omega (arith, length-append a b))
        (and_Leads from_chars o in' dep (value p e') (others q at_b))

  -- A member and the others; `gap` is the white space behind the colon.
  pub member_passes :
      (s : List Bool) (n t gap a b rest : Bytes)
      → n ≡ literal t
      → (o.validate_utf8 ≡ true → validate_utf8 t ≡ none)
      → Value s gap a (b ++ rest)
      → From after_value s b rest
      → From want_key s (n ++ ((0x3A ∷ gap) ++ (a ++ b))) rest
  member_passes s n t gap a b rest same valid value others p e =
      let y = gap ++ (a ++ (b ++ rest)) in
      let e' : drop p in' ≡ literal t ++ (0x3A ∷ y) =
        e
        ∙ append_assoc n _ rest
        ∙ ap (λ z. n ++ (0x3A ∷ z))
            (append_assoc gap (a ++ b) rest ∙ ap (λ z. gap ++ z) (append_assoc a b rest))
        ∙ ap (λ z. z ++ (0x3A ∷ y)) same in
      let q = p + length (literal t) + 1 in
      let at_value : drop q in' ≡ y =
        behind from_chars o in' dep (p + length (literal t)) (0x3A ∷ []) y
          (behind from_chars o in' dep p (literal t) (0x3A ∷ y) e') in
      let r = q + length gap + length a in
      let at_b : drop r in' ≡ b ++ rest =
        behind from_chars o in' dep (q + length gap) a (b ++ rest)
          (behind from_chars o in' dep q gap (a ++ (b ++ rest)) at_value) in
      moved want_key s p (r + length b) (p + length (n ++ ((0x3A ∷ gap) ++ (a ++ b))))
        (omega (
          arith,
          ap length same,
          length-append n ((0x3A ∷ gap) ++ (a ++ b)),
          length-append gap (a ++ b),
          length-append a b,
        ))
        (and_Leads from_chars o in' dep (name_round from_chars o in' dep s p t y valid e')
          (and_Leads from_chars o in' dep (value q at_value) (others r at_b)))

  -- A comma and what follows it.
  pub comma_passes :
      (top : Bool) (s : List Bool) (br body rest : Bytes)
      → Blank br
      → HasFront body
      → From (item_state top) (top ∷ s) body rest
      → From after_value (top ∷ s) ((0x2C ∷ br) ++ body) rest
  comma_passes top s br body rest h (c, y, same, front) inner p e =
      let whole : drop p in' ≡ 0x2C ∷ (br ++ (body ++ rest)) =
        e ∙ ap (λ z. 0x2C ∷ z) (append_assoc br body rest) in
      let e' : drop p in' ≡ 0x2C ∷ (br ++ (c ∷ (y ++ rest))) =
        whole ∙ ap (λ z. 0x2C ∷ (br ++ (z ++ rest))) same in
      let q = p + 1 + length br in
      let at_body : drop q in' ≡ body ++ rest =
        behind from_chars o in' dep (p + 1) br (body ++ rest)
          (behind from_chars o in' dep p (0x2C ∷ []) (br ++ (body ++ rest)) whole) in
      moved after_value (top ∷ s) p (q + length body) (p + length ((0x2C ∷ br) ++ body))
        (omega (arith, length-append br body))
        (and_Leads from_chars o in' dep
          (comma_round from_chars o in' dep top s p br (y ++ rest) c e' h front.0
            (not_closers c front))
          (inner q at_body))

  -- A container with items.
  pub container_passes :
      (top : Bool) (s : List Bool) (ws br body lb rest : Bytes)
      → dep + length s < o.max_depth
      → Blank ws
      → Blank br
      → Blank lb
      → HasFront body
      → From (item_state top) (top ∷ s) body (lb ++ (closer top ∷ rest))
      → Value s ws (opener top ∷ (br ++ body) ++ (lb ++ (closer top ∷ []))) rest
  container_passes top s ws br body lb rest below hw hb hl (c, y, same, front) inner p e =
      let tail = lb ++ (closer top ∷ rest) in
      let whole : drop p in' ≡ ws ++ (opener top ∷ (br ++ (body ++ tail))) =
        e
        ∙ ap (λ z. ws ++ (opener top ∷ z))
            (append_assoc (br ++ body) (lb ++ (closer top ∷ [])) rest
              ∙ append_assoc br body _
              ∙ ap (λ z. br ++ (body ++ z)) (append_assoc lb (closer top ∷ []) rest)) in
      let e' : drop p in' ≡ ws ++ (opener top ∷ (br ++ (c ∷ (y ++ tail)))) =
        whole ∙ ap (λ z. ws ++ (opener top ∷ (br ++ (z ++ tail)))) same in
      let q = p + length ws + 1 + length br in
      let at_body : drop q in' ≡ body ++ tail =
        behind from_chars o in' dep (p + length ws + 1) br (body ++ tail) (
          behind from_chars o in' dep (p + length ws) (opener top ∷ []) (br ++ (body ++ tail))
            (behind from_chars o in' dep p ws (opener top ∷ (br ++ (body ++ tail))) whole)) in
      moved want_value s p (q + length body + length lb + 1)
        (p + length ws + length (opener top ∷ (br ++ body) ++ (lb ++ (closer top ∷ []))))
        (omega (
          arith,
          length-append (br ++ body) (lb ++ (closer top ∷ [])),
          length-append br body,
          length-append lb (closer top ∷ []),
        ))
        (and_Leads from_chars o in' dep
          (open_round from_chars o in' dep top s p ws br (y ++ tail) c below e' hw hb front.0
            (not_closer c top front))
          (and_Leads from_chars o in' dep (inner q at_body) (
            close_round from_chars o in' dep top s (q + length body) lb rest
              (behind from_chars o in' dep q body tail at_body) hl)))

  -- An empty container.
  pub empty_passes :
      (top : Bool) (s : List Bool) (ws x rest : Bytes)
      → dep + length s < o.max_depth
      → Blank ws
      → [] ≡ x
      → Value s ws (opener top ∷ x ++ (closer top ∷ [])) rest
  empty_passes top s ws x rest below hw same p e =
      moved want_value s p (p + length ws + 2)
        (p + length ws + length (opener top ∷ x ++ (closer top ∷ [])))
        (omega (arith, ap length same, length-append x (closer top ∷ [])))
        (empty_round from_chars o in' dep top s p ws rest below
          (e ∙ ap (λ z. ws ++ ((opener top ∷ z ++ (closer top ∷ [])) ++ rest)) (sym same)) hw)
