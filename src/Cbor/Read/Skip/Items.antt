-- ===== src/Cbor/Read/Skip/Items.antt =====
-- Byte strings that `skip_value` passes over as one item, and containers of such.
use v_codec.Base.{
  ℕ, zero, suc, ◌+◌, ◌-◌, ◌^◌, ◌≤◌, ◌<◌, Bool, false, none, some, List, [], ◌∷◌, ◌++◌, append_assoc,
  append-nil, Bytes, length, length-append, ◌≡◌, refl, sym, ap, ◌∙◌, arith, All,
}
use v_codec.Cbor.Options.{Options}
use v_codec.Cbor.Read.State.{Reader, advance, is_break_front}
use v_codec.Cbor.Read.Skip.{Level, Next, go, toggle_key, item_done, skip_step, skip_loop}
use v_codec.Cbor.Read.Skip.Steps.{
  resume, skip_loop-resume, item_done_last, item_done_more, item_done_open,
}

abbrev pub concat : List Bytes → Bytes
concat [] = []
concat (x ∷ xs) = x ++ concat xs

-- The same input, with its first part taken to what was read.
pub next_part :
    {in' : Bytes} (before x y rest : Bytes)
    → in' ≡ before ++ ((x ++ y) ++ rest)
    → in' ≡ (before ++ x) ++ (y ++ rest)
next_part before x y rest e =
    e ∙ ap (λ z. before ++ z) (append_assoc x y rest) ∙ sym (append_assoc before x (y ++ rest))

module _ (p : ℕ → ℕ → Bool) (o : Options) where
  -- From the reader `r` and the stack, some rounds lead to `next`.
  abbrev pub Leads : Bytes → ℕ → Reader → List Level → Next → Type 0
  Leads in' n r stack next =
      (f g : ℕ) → g ≡ n + f → skip_loop p o in' g r stack ≡ resume p o in' f next

  -- Wherever `bs` stands, at depth `d` the loop passes over it and ends one item behind it.
  pub record Skips (d : ℕ) (bs : Bytes) : Type 0 where
    pub rounds : ℕ
    pub some_rounds : 1 ≤ rounds
    pub bounded : rounds ≤ length bs
    pub no_break : (rest : Bytes) → is_break_front (bs ++ rest) ≡ false
    pub leads :
        (in' before rest : Bytes) (r : Reader) (stack : List Level)
        → in' ≡ before ++ (bs ++ rest)
        → r.pos ≡ length before
        → r.depth ≡ d
        → Leads in' rounds r stack (item_done o in' (advance (length bs) r) stack)

  pub Leads-append :
      (in' : Bytes) (m n : ℕ) (r r' : Reader) (stack stack' : List Level) (next : Next)
      → Leads in' m r stack (go r' stack')
      → Leads in' n r' stack' next
      → Leads in' (m + n) r stack next
  Leads-append in' m n r r' stack stack' next first second f g e =
      first (n + f) g (omega arith) ∙ second f (n + f) refl

module _ (p : ℕ → ℕ → Bool) (o : Options) (free : o.require_deterministic ≡ false) where
  -- One round.
  pub Leads-step :
      (in' : Bytes) (r : Reader) (stack : List Level) (next : Next)
      → skip_step p o in' r stack ≡ next
      → Leads p o in' 1 r stack next
  Leads-step in' r stack next e f g count =
      ap (λ k. skip_loop p o in' k r stack) (omega (arith, count))
      ∙ skip_loop-resume p o free in' f r stack
      ∙ ap (resume p o in' f) e

  abbrev pub total : (d : ℕ) (xs : List Bytes) → All (Skips p o d) xs → ℕ
  total d [] h = 0
  total d (x ∷ xs) (s, h) = s.rounds + total d xs h

  -- The items of a container whose count is known: after the last one the container is done.
  pub counted_items :
      (d : ℕ) (x : Bytes) (xs : List Bytes) (h : All (Skips p o d) (x ∷ xs))
      (in' before rest : Bytes) (r : Reader) (top : Level) (stack : List Level)
      → top.remaining ≡ some (length (x ∷ xs))
      → length (x ∷ xs) < 2 ^ 64
      → in' ≡ before ++ (concat (x ∷ xs) ++ rest)
      → r.pos ≡ length before
      → r.depth ≡ d
      → Leads p o in' (total d (x ∷ xs) h) r (top ∷ stack) (
          item_done o in'
            (record r { pos = r.pos + length (concat (x ∷ xs)); depth = r.depth - 1 })
            stack)
  counted_items d x [] (s, h) in' before rest r top stack e fits eq at deep f g count =
      s.leads in' before rest r (top ∷ stack) (eq ∙ ap (λ y. before ++ (y ++ rest)) (append-nil x))
        at deep f g (omega (arith, count))
      ∙ ap (resume p o in' f) (
          item_done_last p o free in' (advance (length x) r) top stack e
          ∙ ap (λ n. item_done o in' (record r { pos = r.pos + n; depth = r.depth - 1 }) stack)
              (ap length (sym (append-nil x))))
  counted_items d x (y ∷ ys) (s, h) in' before rest r top stack e fits eq at deep f g count =
      s.leads in' before (concat (y ∷ ys) ++ rest) r (top ∷ stack)
        (eq ∙ ap (λ z. before ++ z) (append_assoc x (concat (y ∷ ys)) rest)) at deep
        (total d (y ∷ ys) h + f) g (omega (arith, count))
      ∙ ap (resume p o in' (total d (y ∷ ys) h + f))
          (item_done_more p o free in' (advance (length x) r) top stack (length ys) e fits)
      ∙ counted_items d y ys h in' (before ++ x) rest (advance (length x) r)
          (record (toggle_key top) { remaining = some (suc (length ys)) }) stack refl (omega arith)
          (next_part before x (concat (y ∷ ys)) rest eq) (omega (arith, at, length-append before x))
          deep f (total d (y ∷ ys) h + f) refl
      ∙ ap
          (λ n.
            resume p o in' f (item_done o in' (record r { pos = n; depth = r.depth - 1 }) stack))
          (omega (arith, length-append x (concat (y ∷ ys))))

  -- What `n` items do to the level of a container whose count is not known.
  abbrev pub toggles : ℕ → Level → Level
  toggles zero top = top
  toggles (suc n) top = toggles n (toggle_key top)

  toggle_key-remaining : (top : Level) → (toggle_key top).remaining ≡ top.remaining
  toggle_key-remaining top = ground arith

  -- The items of a container whose count is not known: the container stays open.
  pub open_items :
      (d : ℕ) (xs : List Bytes) (h : All (Skips p o d) xs) (in' before rest : Bytes) (r : Reader)
      (top : Level) (stack : List Level)
      → top.remaining ≡ none
      → in' ≡ before ++ (concat xs ++ rest)
      → r.pos ≡ length before
      → r.depth ≡ d
      → Leads p o in'
          (total d xs h)
          r
          (top ∷ stack)
          (go (record r { pos = r.pos + length (concat xs) }) (toggles (length xs) top ∷ stack))
  open_items d [] h in' before rest r top stack e eq at deep f g count =
      λ i. skip_loop p o in' (omega_path count i) (record r { pos = here i }) (top ∷ stack)
    where
      omega_path : g ≡ 0 + f → g ≡ f
      omega_path c = omega (arith, c)

      here : r.pos ≡ r.pos + 0
      here = omega arith
  open_items d (x ∷ xs) (s, h) in' before rest r top stack e eq at deep f g count =
      s.leads in' before (concat xs ++ rest) r (top ∷ stack)
        (eq ∙ ap (λ z. before ++ z) (append_assoc x (concat xs) rest)) at deep (total d xs h + f) g
        (omega (arith, count))
      ∙ ap (resume p o in' (total d xs h + f))
          (item_done_open p o free in' (advance (length x) r) top stack e)
      ∙ open_items d xs h in' (before ++ x) rest (advance (length x) r) (toggle_key top) stack
          (toggle_key-remaining top ∙ e) (next_part before x (concat xs) rest eq)
          (omega (arith, at, length-append before x)) deep f (total d xs h + f) refl
      ∙ ap
          (λ n.
            resume p o in' f
              (go (record r { pos = n }) (toggles (length xs) (toggle_key top) ∷ stack)))
          (omega (arith, length-append x (concat xs)))

  pub total-le :
      (d : ℕ) (xs : List Bytes) (h : All (Skips p o d) xs) → total d xs h ≤ length (concat xs)
  total-le d [] h = omega arith
  total-le d (x ∷ xs) (s, h) =
      omega (arith, s.bounded, total-le d xs h, length-append x (concat xs))
