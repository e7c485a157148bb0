-- ===== src/Cbor/Read/Skip/Brackets.antt =====
-- The writer's containers of indefinite length are passed over as one item.
use v_codec.Base.{
  ℕ, zero, suc, ◌+◌, ◌-◌, ◌*◌, ◌<◌, Bool, true, false, none, List, [], ◌∷◌, ◌++◌, append_assoc,
  Bytes, length, length-append, drop, drop-append, leb, ◌≡◌, refl, sym, ap, ap₂, ◌∙◌, subst, arith,
  All,
}
use v_codec.Cbor.Head.{
  Major, major_eq, ParsedHead, empty_head, parse_after, parse_front, parse_head, initial_byte,
  break_byte, make_indefinite_head,
}
use v_codec.Cbor.Options.{Options}
use v_codec.Cbor.Read.State.{Reader, is_break_front}
use v_codec.Cbor.Read.Skip.{
  Level, new_level, go, item_done, skip_break, skip_container, skip_major, skip_head, skip_step,
}
use v_codec.Cbor.Read.Skip.Steps.{note_key-free}
use v_codec.Cbor.Read.Skip.Items.{
  concat, Leads, Leads-append, Leads-step, Skips, total, total-le, open_items, toggles, next_part,
}

abbrev bracket : Major → List Bytes → Bytes
bracket m xs = make_indefinite_head m ++ (concat xs ++ (break_byte ∷ []))

abbrev indefinite_head : Major → ParsedHead
indefinite_head m = record empty_head { mt = m; ai = 31; indefinite = true; length = 1 }

abbrev break_head : ParsedHead
break_head = record empty_head { mt = Major.simple; ai = 31; is_break = true; length = 1 }

parse_front-array :
    (tail : Bytes)
    → parse_front (make_indefinite_head Major.array ++ tail) ≡ indefinite_head Major.array
unfolding parse_front parse_after make_indefinite_head initial_byte
parse_front-array tail = refl

parse_front-map :
    (tail : Bytes)
    → parse_front (make_indefinite_head Major.map ++ tail) ≡ indefinite_head Major.map
unfolding parse_front parse_after make_indefinite_head initial_byte
parse_front-map tail = refl

parse_front-break : (tail : Bytes) → parse_front (break_byte ∷ tail) ≡ break_head
unfolding parse_front parse_after
parse_front-break tail = refl

parse_head-front :
    (in' before tail : Bytes) (at : ℕ)
    → in' ≡ before ++ tail
    → at ≡ length before
    → parse_head in' at ≡ parse_front tail
unfolding parse_head
parse_head-front in' before tail at e here =
    ap parse_front (ap₂ drop here e ∙ drop-append before tail)

no_break_array : (tail : Bytes) → is_break_front (make_indefinite_head Major.array ++ tail) ≡ false
unfolding make_indefinite_head initial_byte
no_break_array tail = refl

no_break_map : (tail : Bytes) → is_break_front (make_indefinite_head Major.map ++ tail) ≡ false
unfolding make_indefinite_head initial_byte
no_break_map tail = refl

length-bracket : (m : Major) (xs : List Bytes) → length (bracket m xs) ≡ 2 + length (concat xs)
unfolding make_indefinite_head
length-bracket m xs = omega (arith, length-append (concat xs) (break_byte ∷ []))

module _ (p : ℕ → ℕ → Bool) (o : Options) (free : o.require_deterministic ≡ false) where
  -- A round at a head whatever it is.
  step_at :
      (in' before tail : Bytes) (b : ℕ) (h : ParsedHead) (r : Reader) (stack : List Level)
      → in' ≡ before ++ (b ∷ tail)
      → r.pos ≡ length before
      → parse_front (b ∷ tail) ≡ h
      → skip_step p o in' r stack ≡ skip_head p o in' h r stack
  unfolding skip_step
  step_at in' before tail b h r stack e at parsed =
      let room : leb (length in') r.pos ≡ false =
        ground (arith, ap length e, length-append before (b ∷ tail)) in
      rw room (
        ap₂ (λ h st. skip_head p o in' h r st)
          (parse_head-front in' before (b ∷ tail) r.pos e at ∙ parsed)
          (note_key-free p o free r stack))

  skip_head-indefinite :
      (m : Major) (in' : Bytes) (r : Reader) (stack : List Level)
      → skip_head p o in' (indefinite_head m) r stack
        ≡ skip_major p o in' (indefinite_head m) r stack m
  unfolding skip_head
  skip_head-indefinite m in' r stack = rw free

  open_bracket :
      (m : Major) (in' : Bytes) (r : Reader) (stack : List Level) (d : ℕ)
      → d < o.max_depth
      → r.depth ≡ d
      → ((in' : Bytes) (r : Reader) (stack : List Level)
          → skip_major p o in' (indefinite_head m) r stack m
            ≡ skip_container o in' (indefinite_head m) r stack)
      → skip_head p o in' (indefinite_head m) r stack
        ≡ go
            (record r { pos = r.pos + 1; depth = r.depth + 1 })
            (new_level (major_eq m Major.map) none ∷ stack)
  unfolding skip_container
  open_bracket m in' r stack d room deep dispatch =
      let depth_ok : leb o.max_depth r.depth ≡ false = ground arith in
      skip_head-indefinite m in' r stack ∙ dispatch in' r stack ∙ rw depth_ok

  close_bracket :
      (is_map : Bool) (in' : Bytes) (r : Reader) (stack : List Level)
      → skip_head p o in' break_head r (new_level is_map none ∷ stack)
        ≡ item_done o in' (record r { pos = r.pos + 1; depth = r.depth - 1 }) stack
  unfolding skip_head skip_break
  close_bracket true in' r stack = refl
  close_bracket false in' r stack = refl

  -- A container of indefinite length, whose items leave its level as it was.
  Skips-bracket :
      (m : Major) (d : ℕ) (b : ℕ) (xs : List Bytes)
      → d < o.max_depth
      → All (Skips p o (suc d)) xs
      → make_indefinite_head m ≡ b ∷ []
      → ((tail : Bytes) → parse_front (make_indefinite_head m ++ tail) ≡ indefinite_head m)
      → ((tail : Bytes) → is_break_front (make_indefinite_head m ++ tail) ≡ false)
      → ((in' : Bytes) (r : Reader) (stack : List Level)
          → skip_major p o in' (indefinite_head m) r stack m
            ≡ skip_container o in' (indefinite_head m) r stack)
      → toggles p o free (length xs) (new_level (major_eq m Major.map) none)
        ≡ new_level (major_eq m Major.map) none
      → Skips p o d (bracket m xs)
  Skips-bracket m d b xs room h byte parsed clean dispatch even = record {
    rounds = 1 + (total p o free (suc d) xs h + 1);
    some_rounds = omega arith;
    bounded = omega (arith, length-bracket m xs, total-le p o free (suc d) xs h);
    no_break = λ rest. ap is_break_front (append_assoc (make_indefinite_head m) _ rest) ∙ clean _;
    leads = λ in' before rest r stack eq at deep.
        let body = concat xs ++ (break_byte ∷ []) in
        let i = make_indefinite_head m in
        let is_map = major_eq m Major.map in
        let r1 = record r { pos = r.pos + 1; depth = r.depth + 1 } in
        let r2 = record r1 { pos = r1.pos + length (concat xs) } in
        let n = total p o free (suc d) xs h in
        let size : length i ≡ 1 = ap length byte in
        let split = next_part before i body rest eq in
        let split' : in' ≡ (before ++ i) ++ (concat xs ++ (break_byte ∷ rest)) =
          split ∙ ap (λ z. (before ++ i) ++ z) (append_assoc (concat xs) (break_byte ∷ []) rest) in
        Leads-append p o in' 1 (n + 1) r r1 stack (new_level is_map none ∷ stack) _
          (Leads-step p o free in' r stack _ (
            step_at in' before (body ++ rest) b (indefinite_head m) r stack
              (eq
                ∙ ap (λ z. before ++ z)
                    (append_assoc i body rest ∙ ap (λ z. z ++ (body ++ rest)) byte))
              at (ap (λ z. parse_front (z ++ (body ++ rest))) (sym byte) ∙ parsed (body ++ rest))
            ∙ open_bracket m in' r stack d room deep dispatch))
          (Leads-append p o in' n 1 r1 r2 (new_level is_map none ∷ stack)
            (new_level is_map none ∷ stack) _
            (subst (λ l. Leads p o in' n r1 (new_level is_map none ∷ stack) (go r2 (l ∷ stack)))
              even
              (open_items p o free (suc d) xs h in' (before ++ i) (break_byte ∷ rest) r1
                (new_level is_map none) stack refl split'
                (omega (arith, at, size, length-append before i)) (omega (arith, deep))))
            (subst (Leads p o in' 1 r2 (new_level is_map none ∷ stack))
              (ap₂ (λ a c. item_done o in' (record r { pos = a; depth = c }) stack)
                (omega (arith, length-bracket m xs)) (omega arith))
              (Leads-step p o free in' r2 (new_level is_map none ∷ stack) _ (
                step_at in' ((before ++ i) ++ concat xs) rest break_byte break_head r2
                  (new_level is_map none ∷ stack)
                  (split' ∙ sym (append_assoc (before ++ i) (concat xs) (break_byte ∷ rest)))
                  (omega (
                    arith,
                    at,
                    size,
                    length-append before i,
                    length-append (before ++ i) (concat xs),
                  ))
                  (parse_front-break rest)
                ∙ close_bracket is_map in' r2 stack))));
  }

  toggles-array : (n : ℕ) → toggles p o free n (new_level false none) ≡ new_level false none
  toggles-array zero = refl
  toggles-array (suc n) = toggles-array n

  toggles-map : (n : ℕ) → toggles p o free (n * 2) (new_level true none) ≡ new_level true none
  toggles-map zero = refl
  toggles-map (suc n) = ap (λ k. toggles p o free k (new_level true none)) (twice n) ∙ toggles-map n
    where
      twice : (n : ℕ) → suc n * 2 ≡ suc (suc (n * 2))
      twice n = omega arith

  pub Skips-array_bracket :
      (d : ℕ) (xs : List Bytes)
      → d < o.max_depth
      → All (Skips p o (suc d)) xs
      → Skips p o d (bracket Major.array xs)
  unfolding skip_major make_indefinite_head
  Skips-array_bracket d xs room h =
      Skips-bracket Major.array d _ xs room h refl parse_front-array no_break_array
        (λ in' r stack. refl) (toggles-array (length xs))

  pub Skips-map_bracket :
      (d n : ℕ) (xs : List Bytes)
      → d < o.max_depth
      → length xs ≡ n * 2
      → All (Skips p o (suc d)) xs
      → Skips p o d (bracket Major.map xs)
  unfolding skip_major make_indefinite_head
  Skips-map_bracket d n xs room size h =
      Skips-bracket Major.map d _ xs room h refl parse_front-map no_break_map (λ in' r stack. refl)
        (ap (λ k. toggles p o free k (new_level true none)) size ∙ toggles-map n)
