-- ===== src/Json/Read/Skip/Terminates.antt =====
-- The loop of `skip_value` ends on every input, in what the recursion on fuel gives.
use v_codec.Base.{
  ℕ, zero, suc, ◌-◌, ◌≤◌, ◌<◌, Bool, List, [], ◌∷◌, Bytes, length, ◌≡◌, refl, ap, arith,
  length-drop,
}
use v_codec.Core.Error.{Error, Result, ok, err}
use v_codec.Json.Options.{Options}
use v_codec.Json.Number.{Parsed}
use v_codec.Json.Read.State.{Reader, ahead, skip_ws}
use v_codec.Json.Read.Skip.{
  State, want_value, want_key, after_value, Next, go, done, failed, skip_at, skip_step, skip_loop,
  skip_value,
}
use v_codec.Json.Read.Skip.Progress.{Moves, skip_ws-forward, skip_switch-Moves}

module _ (from_chars : Bytes → Parsed) (o : Options) (in' : Bytes) where
  -- A round that goes on began inside the input, and has moved.
  abbrev Descends : Reader → Next → Type 0
  Descends r (go st s r') = (r.pos < r'.pos) × (r.pos < length in')
  Descends r (done r') = Unit
  Descends r (failed e r') = Unit

  Moves-Descends :
      (p : ℕ) (r : Reader) (x : Next) → r.pos ≤ p → p < length in' → Moves p x → Descends r x
  Moves-Descends p r (go st s r') l inside m = (omega arith, omega arith)
  Moves-Descends p r (done r') l inside m = tt
  Moves-Descends p r (failed e r') l inside m = tt

  skip_at-Descends :
      (st : State) (s : List Bool) (r : Reader)
      → Descends r (skip_at from_chars o in' (ahead in' (skip_ws in' r)) st s (skip_ws in' r))
  skip_at-Descends st s r = by_ahead (ahead in' (skip_ws in' r)) refl
    where
      by_ahead :
          (cs : Bytes)
          → ahead in' (skip_ws in' r) ≡ cs
          → Descends r (skip_at from_chars o in' cs st s (skip_ws in' r))
      by_ahead [] e = tt
      by_ahead (c ∷ cs) e =
          let r' = skip_ws in' r in
          let size = ap length e in
          Moves-Descends r'.pos r _ (skip_ws-forward in' r)
            (omega (arith, size, length-drop r'.pos in'))
            (skip_switch-Moves from_chars o in' c st s r')

  skip_step-Descends :
      (st : State) (s : List Bool) (r : Reader) → Descends r (skip_step from_chars o in' st s r)
  unfolding skip_step
  skip_step-Descends want_value s r = skip_at-Descends want_value s r
  skip_step-Descends want_key s r = skip_at-Descends want_key s r
  skip_step-Descends after_value [] r = tt
  skip_step-Descends after_value (top ∷ s) r = skip_at-Descends after_value (top ∷ s) r

  abbrev pub Outcome : Type 0
  Outcome = Result Error (Unit {0}) × Reader

  -- What the loop does after a round.
  abbrev next : (State → List Bool → Reader → Outcome) → Next → Outcome
  next again (go st s r) = again st s r
  next again (done r) = (ok tt, r)
  next again (failed e r) = (err e, r)

  -- From a state of the loop, rounds lead to a return or to an error; there is no bound on their
  -- number, and a loop that goes on for ever has no result.
  pub data Ends : State → List Bool → Reader → Outcome → Type 0 where
    returns :
        (st : State) (s : List Bool) (r r' : Reader)
        → skip_step from_chars o in' st s r ≡ done r'
        → Ends st s r (ok tt, r')
    fails :
        (st : State) (s : List Bool) (r : Reader) (e : Error) (r' : Reader)
        → skip_step from_chars o in' st s r ≡ failed e r'
        → Ends st s r (err e, r')
    round :
        (st : State) (s : List Bool) (r : Reader) (st' : State) (s' : List Bool) (r' : Reader)
        (out : Outcome)
        → skip_step from_chars o in' st s r ≡ go st' s' r'
        → Ends st' s' r' out
        → Ends st s r out

  next-Ends :
      (again : State → List Bool → Reader → Outcome) (st : State) (s : List Bool) (r : Reader)
      (x : Next)
      → skip_step from_chars o in' st s r ≡ x
      → Descends r x
      → ((st' : State) (s' : List Bool) (r' : Reader)
          → r.pos < r'.pos
          → r.pos < length in'
          → Ends st' s' r' (again st' s' r'))
      → Ends st s r (next again x)
  next-Ends again st s r (go st' s' r') e (moved, inside) ends =
      round st s r st' s' r' _ e (ends st' s' r' moved inside)
  next-Ends again st s r (done r') e d ends = returns st s r r' e
  next-Ends again st s r (failed code r') e d ends = fails st s r code r' e

  skip_loop-Ends :
      (fuel : ℕ) (st : State) (s : List Bool) (r : Reader)
      → length in' - r.pos < fuel
      → Ends st s r (skip_loop from_chars o in' fuel st s r)
  unfolding skip_loop
  skip_loop-Ends zero st s r l = absurd (omega arith)
  skip_loop-Ends (suc fuel) st s r l =
      next-Ends (skip_loop from_chars o in' fuel) st s r (skip_step from_chars o in' st s r) refl
        (skip_step-Descends st s r)
        (λ st' s' r' moved inside. skip_loop-Ends fuel st' s' r' (omega arith))

  -- For every input, all options and every state of the reader, the loop of `skip_value` ends:
  -- finitely many rounds, each as `skip_step` has it, lead from its first state to a return or an
  -- error, and that is the result and the reader of `skip_value`, so that its rounds never run
  -- out.
  pub skip_value-Ends : (r : Reader) → Ends want_value [] r (skip_value from_chars o in' r)
  unfolding skip_value
  skip_value-Ends r = skip_loop-Ends (suc (length in' - r.pos)) want_value [] r (omega arith)
