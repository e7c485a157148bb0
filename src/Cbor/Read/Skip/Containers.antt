-- ===== src/Cbor/Read/Skip/Containers.antt =====
-- The writer's scalars, strings, tags and containers are passed over as one item.
use v_codec.Base.{
  ℕ, suc, ◌+◌, ◌-◌, ◌*◌, ◌%◌, ◌^◌, ◌<◌, ◌≢◌, Bool, true, false, ◌&&◌, some, List, [], ◌∷◌, ◌++◌,
  append_assoc, append-nil, Bytes, length, length-append, ltb, leb, ◌==◌, if◌then◌else◌, ◌≡◌, refl,
  sym, ap, ap₂, ◌∙◌, subst, arith, All,
}
use v_codec.Cbor.Head.{Major, major_eq, make_head}
use v_codec.Cbor.Head.RoundTrip.{
  plain_head, head_size, head_ai, make_head_shape, length-make_head, initial_byte-ne-break,
}
use v_codec.Cbor.Options.{Options}
use v_codec.Cbor.Read.State.{Reader, advance, is_break_front}
use v_codec.Cbor.Read.Skip.{
  Level, new_level, go, item_done, skip_container, skip_major, skip_simple,
}
use v_codec.Cbor.Read.Skip.Steps.{head_size-pos, skip_step-make_head}
use v_codec.Cbor.Read.Skip.Items.{
  concat, Leads, Leads-append, Leads-step, Skips, total, total-le, counted_items, next_part,
}

head_ai-lt : (v : ℕ) → head_ai v < 31
head_ai-lt v = ground arith

pub make_head-no_break :
    (m : Major) (v : ℕ) (rest : Bytes) → is_break_front (make_head m v ++ rest) ≡ false
make_head-no_break m v rest =
    rw (make_head_shape m v) (initial_byte-ne-break m (head_ai v) (head_ai-lt v))

pub make_head-no_break_append :
    (m : Major) (v : ℕ) (body rest : Bytes)
    → is_break_front ((make_head m v ++ body) ++ rest) ≡ false
make_head-no_break_append m v body rest =
    ap is_break_front (append_assoc (make_head m v) body rest)
    ∙ make_head-no_break m v (body ++ rest)

module _ (p : ℕ → ℕ → Bool) (o : Options) (free : o.require_deterministic ≡ false) where
  -- A head that is an item of its own.
  pub Skips-head :
      (d v : ℕ) (m : Major)
      → v < 2 ^ 64
      → ((in' : Bytes) (r : Reader) (stack : List Level)
          → r.depth ≡ d
          → skip_major p o in' (plain_head m v) r stack m
            ≡ item_done o in' (advance (head_size v) r) stack)
      → Skips p o d (make_head m v)
  Skips-head d v m fits ends = record {
    rounds = 1;
    some_rounds = omega arith;
    bounded = omega (arith, length-make_head m v, head_size-pos v);
    no_break = make_head-no_break m v;
    leads = λ in' before rest r stack eq at deep. Leads-step p o free in' r stack _ (
        skip_step-make_head p o free m v in' before rest r stack fits eq at
        ∙ ends in' r stack deep
        ∙ ap (λ n. item_done o in' (advance n r) stack) (sym (length-make_head m v)));
  }

  pub Skips-uint : (d v : ℕ) → v < 2 ^ 64 → Skips p o d (make_head Major.uint v)
  unfolding skip_major
  Skips-uint d v fits = Skips-head d v Major.uint fits (λ in' r stack deep. refl)

  pub Skips-nint : (d v : ℕ) → v < 2 ^ 64 → Skips p o d (make_head Major.nint v)
  unfolding skip_major
  Skips-nint d v fits = Skips-head d v Major.nint fits (λ in' r stack deep. refl)

  -- `false`, `true`, `null`: simple values below 24.
  pub Skips-simple : (d v : ℕ) → v < 24 → Skips p o d (make_head Major.simple v)
  unfolding skip_major skip_simple
  Skips-simple d v small =
      Skips-head d v Major.simple (omega arith) (λ in' r stack deep. rw (not_two_bytes, free))
    where
      not_two_bytes : ((head_ai v == 24) && ltb v 32) ≡ false
      not_two_bytes = ground arith

  -- An array or a map of a known count.
  module _ (d n : ℕ) (m : Major) (room : d < o.max_depth)
      (dispatch : (in' : Bytes) (r : Reader) (stack : List Level)
        → skip_major p o in' (plain_head m n) r stack m
          ≡ skip_container o in' (plain_head m n) r stack)
      (fits : n < 2 ^ 64) where
    abbrev count : ℕ
    count = if major_eq m Major.map then n * 2 % 2 ^ 64 else n

    entered : Reader → Reader
    entered r = record r { pos = r.pos + head_size n; depth = r.depth + 1 }

    container_empty :
        (in' : Bytes) (r : Reader) (stack : List Level)
        → r.depth ≡ d
        → n ≡ 0
        → skip_container o in' (plain_head m n) r stack
          ≡ item_done o in' (advance (head_size n) r) stack
    unfolding skip_container
    container_empty in' r stack deep e =
        let depth_ok : leb o.max_depth r.depth ≡ false = ground arith in
        let is_zero : (n == 0) ≡ true = ground arith in rw (depth_ok, is_zero)

    container_items :
        (in' : Bytes) (r : Reader) (stack : List Level)
        → r.depth ≡ d
        → n ≢ 0
        → skip_container o in' (plain_head m n) r stack
          ≡ go (entered r) (new_level (major_eq m Major.map) (some count) ∷ stack)
    unfolding skip_container entered
    container_items in' r stack deep ne =
        let depth_ok : leb o.max_depth r.depth ≡ false = ground arith in
        let not_zero : (n == 0) ≡ false = ground arith in rw (depth_ok, not_zero)

    Skips-empty : n ≡ 0 → Skips p o d (make_head m n)
    Skips-empty e =
        Skips-head d n m fits
          (λ in' r stack deep. dispatch in' r stack ∙ container_empty in' r stack deep e)

    left :
        (in' : Bytes) (r : Reader) (body : Bytes) (stack : List Level)
        → item_done o in'
            (record (entered r) {
              pos = (entered r).pos + length body;
              depth = (entered r).depth - 1;
            })
            stack
          ≡ item_done o in' (advance (length (make_head m n ++ body)) r) stack
    unfolding entered
    left in' r body stack =
        ap₂ (λ a b. item_done o in' (record r { pos = a; depth = b }) stack)
          (omega (arith, length-append (make_head m n) body, length-make_head m n)) (omega arith)

    pub Skips-container :
        (xs : List Bytes)
        → All (Skips p o (suc d)) xs
        → length xs ≡ (if major_eq m Major.map then n * 2 else n)
        → length xs < 2 ^ 64
        → Skips p o d (make_head m n ++ concat xs)
    unfolding entered
    Skips-container [] h size bound =
        subst (Skips p o d) (sym (append-nil (make_head m n))) (Skips-empty (ground arith))
    Skips-container (x ∷ xs) h size bound = record {
      rounds = 1 + total p o free (suc d) (x ∷ xs) h;
      some_rounds = omega arith;
      bounded = omega (
        arith,
        total-le p o free (suc d) (x ∷ xs) h,
        length-append (make_head m n) (concat (x ∷ xs)),
        length-make_head m n,
        head_size-pos n,
      );
      no_break = make_head-no_break_append m n (concat (x ∷ xs));
      leads = λ in' before rest r stack eq at deep.
          let top = new_level (major_eq m Major.map) (some count) in
          Leads-append p o in' 1 (total p o free (suc d) (x ∷ xs) h) r (entered r) stack
            (top ∷ stack) _
            (Leads-step p o free in' r stack _ (
              skip_step-make_head p o free m n in' before (concat (x ∷ xs) ++ rest) r stack fits
                (eq ∙ ap (λ z. before ++ z) (append_assoc (make_head m n) (concat (x ∷ xs)) rest))
                at
              ∙ dispatch in' r stack
              ∙ container_items in' r stack deep (ground arith)))
            (subst (Leads p o in' (total p o free (suc d) (x ∷ xs) h) (entered r) (top ∷ stack))
              (left in' r (concat (x ∷ xs)) stack)
              (counted_items p o free (suc d) x xs h in' (before ++ make_head m n) rest (entered r)
                top stack (ap some (ground arith)) bound
                (next_part before (make_head m n) (concat (x ∷ xs)) rest eq)
                (omega (arith, at, length-append before (make_head m n), length-make_head m n))
                (omega (arith, deep))));
    }
