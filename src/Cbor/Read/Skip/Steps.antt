-- ===== src/Cbor/Read/Skip/Steps.antt =====
-- One head of the writer, as a round of `skip_value` where determinism is not required.
use v_codec.Base.{
  ℕ, suc, ◌+◌, ◌-◌, ◌%◌, ◌^◌, ◌≤◌, ◌<◌, Bool, false, none, some, List, [], ◌∷◌, ◌++◌, Bytes, length,
  length-append, leb, ◌==◌, ◌≡◌, refl, ap, ap₂, ◌∙◌, arith,
}
use v_codec.Core.Error.{Error, Result, ok, err}
use v_codec.Cbor.Head.{Major, parse_head, make_head}
use v_codec.Cbor.Head.RoundTrip.{plain_head, head_size, parse_head-make_head}
use v_codec.Cbor.Options.{Options}
use v_codec.Cbor.Read.State.{Reader}
use v_codec.Cbor.Read.Skip.{
  Level, Next, go, done, failed, check_key, close_key, toggle_key, count_down, item_done, note_key,
  skip_major, skip_head, skip_step, skip_loop,
}

-- What the loop does with the outcome of a round.
abbrev pub resume : (ℕ → ℕ → Bool) → Options → Bytes → ℕ → Next → Result Error (Unit {0}) × Reader
resume p o in' f (go r stack) = skip_loop p o in' f r stack
resume p o in' f (done r) = (ok tt, r)
resume p o in' f (failed e r) = (err e, r)

pub head_size-pos : (v : ℕ) → 1 ≤ head_size v
head_size-pos v = ground arith

count_down_more :
    (n : ℕ) (top : Level) (rest : List Level) (r : Reader) (outer : Next)
    → suc (suc n) < 2 ^ 64
    → count_down (some (suc (suc n))) top rest r outer
      ≡ go r (record top { remaining = some (suc n) } ∷ rest)
count_down_more n top rest r outer fits =
    let counted : (suc (suc n) + 2 ^ 64 - 1) % 2 ^ 64 ≡ suc n = omega arith in
    let more : (suc n == 0) ≡ false = ground arith in rw (counted, more)

module _ (p : ℕ → ℕ → Bool) (o : Options) (free : o.require_deterministic ≡ false) where
  pub skip_loop-resume :
      (in' : Bytes) (f : ℕ) (r : Reader) (stack : List Level)
      → skip_loop p o in' (suc f) r stack ≡ resume p o in' f (skip_step p o in' r stack)
  unfolding skip_loop
  skip_loop-resume in' f r stack = cases (skip_step p o in' r stack)
    where
      cases :
          (n : Next)
          → (elim n as (λ _. Result Error (Unit {0}) × Reader) [
            | go r' stack' ↦ skip_loop p o in' f r' stack'
            | done r' ↦ (ok tt, r')
            | failed e r' ↦ (err e, r')
          ])
            ≡ resume p o in' f n
      cases (go r' stack') = refl
      cases (done r') = refl
      cases (failed e r') = refl

  pub note_key-free : (r : Reader) (stack : List Level) → note_key o r stack ≡ stack
  unfolding note_key
  note_key-free r [] = refl
  note_key-free r (top ∷ rest) = rw free

  skip_head-plain_head :
      (in' : Bytes) (m : Major) (v : ℕ) (r : Reader) (stack : List Level)
      → skip_head p o in' (plain_head m v) r stack ≡ skip_major p o in' (plain_head m v) r stack m
  unfolding skip_head
  skip_head-plain_head in' m v r stack = rw (not_zero v, free)
    where
      not_zero : (v : ℕ) → (head_size v == 0) ≡ false
      not_zero v = ground arith

  -- A head that the writer wrote is read as such.
  pub skip_step-make_head :
      (m : Major) (v : ℕ) (in' before tail : Bytes) (r : Reader) (stack : List Level)
      → v < 2 ^ 64
      → in' ≡ before ++ (make_head m v ++ tail)
      → r.pos ≡ length before
      → skip_step p o in' r stack ≡ skip_major p o in' (plain_head m v) r stack m
  unfolding skip_step
  skip_step-make_head m v in' before tail r stack fits e at =
      let (parsed, _, size) = parse_head-make_head m v before tail fits in
      let room : leb (length in') r.pos ≡ false = ground (
        arith,
        ap length e,
        length-append before (make_head m v ++ tail),
        length-append (make_head m v) tail,
        head_size-pos v,
      ) in
      let here : parse_head in' r.pos ≡ plain_head m v = ap₂ parse_head e at ∙ parsed in
      rw room (
        ap₂ (λ h st. skip_head p o in' h r st) here (note_key-free r stack)
        ∙ skip_head-plain_head in' m v r stack)

  check_key-free : (in' : Bytes) (top : Level) (r : Reader) → check_key o in' top r ≡ none
  unfolding check_key
  check_key-free in' top r = rw free

  close_key-free : (top : Level) (r : Reader) → close_key o top r ≡ top
  unfolding close_key
  close_key-free top r = rw free

  -- The end of an item, by what is left of the container around it.
  pub item_done_last :
      (in' : Bytes) (r : Reader) (top : Level) (rest : List Level)
      → top.remaining ≡ some 1
      → item_done o in' r (top ∷ rest) ≡ item_done o in' (record r { depth = r.depth - 1 }) rest
  unfolding item_done
  item_done_last in' r top rest e = rw (check_key-free in' top r, close_key-free top r, e)

  pub item_done_more :
      (in' : Bytes) (r : Reader) (top : Level) (rest : List Level) (n : ℕ)
      → top.remaining ≡ some (suc (suc n))
      → suc (suc n) < 2 ^ 64
      → item_done o in' r (top ∷ rest)
        ≡ go r (record (toggle_key top) { remaining = some (suc n) } ∷ rest)
  unfolding item_done
  item_done_more in' r top rest n e fits =
      rw (check_key-free in' top r, close_key-free top r)
        (ap (λ m. count_down m (toggle_key top) rest r outer) e
          ∙ count_down_more n (toggle_key top) rest r outer fits)
    where
      outer : Next
      outer = item_done o in' (record r { depth = r.depth - 1 }) rest

  pub item_done_open :
      (in' : Bytes) (r : Reader) (top : Level) (rest : List Level)
      → top.remaining ≡ none
      → item_done o in' r (top ∷ rest) ≡ go r (toggle_key top ∷ rest)
  unfolding item_done
  item_done_open in' r top rest e = rw (check_key-free in' top r, close_key-free top r, e)
