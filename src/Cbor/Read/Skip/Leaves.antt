-- ===== src/Cbor/Read/Skip/Leaves.antt =====
-- The writer's strings and tagged items are passed over as one item.
use v_codec.Base.{
  ℕ, ◌+◌, ◌-◌, ◌^◌, ◌<◌, Bool, true, false, none, List, ◌++◌, append_assoc, Bytes, length,
  length-append, drop, take, take-append, drop-append, ltb, leb, ◌≡◌, refl, sym, ap, ap₂, ◌∙◌,
  subst, arith, Bool-cases, inl, inr,
}
use v_codec.Core.Error.{ok}
use v_codec.Core.Utf8.{validate_utf8}
use v_codec.Cbor.Head.{Major, make_head}
use v_codec.Cbor.Head.RoundTrip.{plain_head, head_size, length-make_head}
use v_codec.Cbor.Options.{Options}
use v_codec.Cbor.Read.State.{Reader, advance, is_break_front}
use v_codec.Cbor.Read.Strings.{subspan, read_string}
use v_codec.Cbor.Read.Skip.{
  Level, go, item_done, check_skipped_text, after_string, skip_tag, skip_major,
}
use v_codec.Cbor.Read.Skip.Steps.{head_size-pos, skip_step-make_head}
use v_codec.Cbor.Read.Skip.Items.{Leads, Leads-append, Leads-step, Skips, next_part}
use v_codec.Cbor.Read.Skip.Containers.{make_head-no_break_append}

-- What a definite string comes to, where its head stands at the position.
subspan_here :
    (in' before t rest : Bytes)
    → in' ≡ before ++ (t ++ rest)
    → subspan in' (length before) (length t) ≡ t
subspan_here in' before t rest e =
    ap (λ x. take (length t) (drop (length before) x)) e
    ∙ ap (take (length t)) (drop-append before (t ++ rest))
    ∙ take-append t rest

pub read_string-plain :
    (o : Options) (m : Major) (in' before t rest : Bytes) (r : Reader)
    → in' ≡ before ++ ((make_head m (length t) ++ t) ++ rest)
    → r.pos ≡ length before
    → read_string o in' (plain_head m (length t)) m r ≡ (
      ok (record { content = t; assembled = false }),
      advance (length (make_head m (length t) ++ t)) r,
    )
unfolding read_string
read_string-plain o m in' before t rest r e at =
    let h = make_head m (length t) in
    let here : length (before ++ h) ≡ r.pos + head_size (length t) =
      omega (arith, length-append before h, length-make_head m (length t), at) in
    let fits : ltb (length in' - r.pos - head_size (length t)) (length t) ≡ false = ground (
      arith,
      ap length e,
      at,
      length-append before ((h ++ t) ++ rest),
      length-append (h ++ t) rest,
      length-append h t,
      length-make_head m (length t),
    ) in
    let part : subspan in' (r.pos + head_size (length t)) (length t) ≡ t =
      ap (λ n. subspan in' n (length t)) (sym here)
      ∙ subspan_here in' (before ++ h) t rest (next_part before h t rest e) in
    let size : head_size (length t) + length t ≡ length (h ++ t) =
      omega (arith, length-append h t, length-make_head m (length t)) in
    rw fits (ap₂ (λ b n. (ok (record { content = b; assembled = false }), advance n r)) part size)

module _ (p : ℕ → ℕ → Bool) (o : Options) (free : o.require_deterministic ≡ false) where
  Skips-string :
      (m : Major) (d : ℕ) (t : Bytes)
      → length t < 2 ^ 64
      → ((in' : Bytes) (r : Reader) (stack : List Level)
          → skip_major p o in' (plain_head m (length t)) r stack m
            ≡ after_string o in'
                (plain_head m (length t))
                r.pos
                stack
                (read_string o in' (plain_head m (length t)) m r))
      → ((at : ℕ)
          → check_skipped_text o
              (plain_head m (length t))
              at
              (record { content = t; assembled = false })
            ≡ none)
      → Skips p o d (make_head m (length t) ++ t)
  Skips-string m d t fits dispatch clean = record {
    rounds = 1;
    some_rounds = omega arith;
    bounded = omega (
      arith,
      length-append (make_head m (length t)) t,
      length-make_head m (length t),
      head_size-pos (length t),
    );
    no_break = make_head-no_break_append m (length t) t;
    leads = λ in' before rest r stack eq at deep. Leads-step p o free in' r stack _ (
        skip_step-make_head p o free m (length t) in' before (t ++ rest) r stack fits
          (eq ∙ ap (λ z. before ++ z) (append_assoc (make_head m (length t)) t rest)) at
        ∙ dispatch in' r stack
        ∙ ap (after_string o in' (plain_head m (length t)) r.pos stack)
            (read_string-plain o m in' before t rest r eq at)
        ∙ rw (clean r.pos));
  }

  pub Skips-bytes :
      (d : ℕ) (t : Bytes) → length t < 2 ^ 64 → Skips p o d (make_head Major.bytes (length t) ++ t)
  unfolding skip_major check_skipped_text
  Skips-bytes d t fits =
      Skips-string Major.bytes d t fits (λ in' r stack. refl) (λ at. ground arith)

  pub Skips-text :
      (d : ℕ) (t : Bytes)
      → length t < 2 ^ 64
      → (o.validate_utf8 ≡ true → validate_utf8 t ≡ none)
      → Skips p o d (make_head Major.text (length t) ++ t)
  unfolding skip_major check_skipped_text
  Skips-text d t fits valid =
      Skips-string Major.text d t fits (λ in' r stack. refl) (λ at. clean at)
    where
      clean :
          (at : ℕ)
          → check_skipped_text o
              (plain_head Major.text (length t))
              at
              (record { content = t; assembled = false })
            ≡ none
      clean at = elim (Bool-cases o.validate_utf8) [ inl e ↦ rw (e, valid e) | inr e ↦ rw e ]

  -- A tag and the item that it stands before.
  skip_tag-item :
      (v : ℕ) (bs : Bytes) (d : ℕ) (s : Skips p o d bs) (in' before rest : Bytes) (r : Reader)
      (stack : List Level)
      → in' ≡ (before ++ make_head Major.tag v) ++ (bs ++ rest)
      → r.pos ≡ length before
      → skip_tag in' (plain_head Major.tag v) r stack ≡ go (advance (head_size v) r) stack
  unfolding skip_tag
  skip_tag-item v bs d s in' before rest r stack e at =
      let h = make_head Major.tag v in
      let here : length (before ++ h) ≡ r.pos + head_size v =
        omega (arith, length-append before h, length-make_head Major.tag v, at) in
      let room : leb (length in') (r.pos + head_size v) ≡ false = ground (
        arith,
        ap length e,
        here,
        length-append (before ++ h) (bs ++ rest),
        length-append bs rest,
        s.bounded,
        s.some_rounds,
      ) in
      let no_end : is_break_front (drop (r.pos + head_size v) in') ≡ false =
        ap₂ (λ n x. is_break_front (drop n x)) (sym here) e
        ∙ ap is_break_front (drop-append (before ++ h) (bs ++ rest))
        ∙ s.no_break rest in
      rw (room, no_end)

  pub Skips-tag :
      (d v : ℕ) (bs : Bytes)
      → v < 2 ^ 64
      → Skips p o d bs
      → Skips p o d (make_head Major.tag v ++ bs)
  unfolding skip_major
  Skips-tag d v bs fits s = record {
    rounds = 1 + s.rounds;
    some_rounds = omega arith;
    bounded = omega (
      arith,
      s.bounded,
      length-append (make_head Major.tag v) bs,
      length-make_head Major.tag v,
      head_size-pos v,
    );
    no_break = make_head-no_break_append Major.tag v bs;
    leads = λ in' before rest r stack eq at deep.
        let h = make_head Major.tag v in
        let split = next_part before h bs rest eq in
        Leads-append p o in' 1 s.rounds r (advance (head_size v) r) stack stack _
          (Leads-step p o free in' r stack _ (
            skip_step-make_head p o free Major.tag v in' before (bs ++ rest) r stack fits
              (eq ∙ ap (λ z. before ++ z) (append_assoc h bs rest)) at
            ∙ skip_tag-item v bs d s in' before rest r stack split at))
          (subst
            (λ n.
              Leads p o in' s.rounds (advance (head_size v) r) stack
                (item_done o in' (record r { pos = n }) stack))
            (omega (arith, length-append h bs, length-make_head Major.tag v))
            (s.leads in' (before ++ h) rest (advance (head_size v) r) stack split
              (omega (arith, at, length-append before h, length-make_head Major.tag v)) deep));
  }
