-- ===== src/Json/Read/Skip/Progress.antt =====
-- A round of `skip_value` that goes on has moved.
use v_codec.Base.{
  ℕ, zero, suc, ◌+◌, ◌≤◌, ◌<◌, Bool, true, false, not, ◌||◌, ◌&&◌, Option, none, some, List, [],
  ◌∷◌, ◌++◌, Bytes, length, drop, take, ltb, leb, ◌==◌, if◌then◌else◌, ◌≡◌, refl, arith,
  bytes_equal, Bool-cases, ◌⊎◌, inl, inr,
}
use v_codec.Core.Error.{Errc, Error, Result, ok, err, truncated}
use v_codec.Core.Call.{error}
use v_codec.Core.Utf8.{validate_utf8}
use v_codec.Core.Kind.{Kind, TextRef}
use v_codec.Json.Options.{Options}
use v_codec.Json.Number.{Parsed, NumberScan, scan_number, is_digit}
use v_codec.Json.Number.Lengths.{scan_number-HasLength}
use v_codec.Json.Read.State.{
  Reader, advance, ahead, skip_ws, literal, front_is, true_word, false_word, null_word, unexpected,
  starts_with,
}
use v_codec.Json.Read.Strings.{
  part, escape_at, close_string, escaped_loop, string_loop, parse_string, decoded, bad, unfinished,
}
use v_codec.Json.Read.Expect.{pass}
use v_codec.Json.Read.Skip.{
  State, want_value, want_key, after_value, Next, go, done, failed, closer, item_state, first_item,
  open_container, after_scalar, after_number, after_colon, after_key, key_ahead, after_comma,
  value_behind, value_ahead, skip_switch,
}

-- A call that returns has gone behind `p`.
abbrev pub Grows : {A : Type 0} → ℕ → Result Error A × Reader → Type 0
Grows p (ok a, r) = p < r.pos
Grows p (err e, r) = Unit

Grows-either :
    {A : Type 0} (p : ℕ) (b : Bool) (x y : Result Error A × Reader)
    → Grows p x
    → Grows p y
    → Grows p (if b then x else y)
Grows-either p true x y hx hy = hx
Grows-either p false x y hx hy = hy

Grows-weaker : {A : Type 0} (p q : ℕ) (x : Result Error A × Reader) → p ≤ q → Grows q x → Grows p x
Grows-weaker p q (ok a, r) l h = omega arith
Grows-weaker p q (err e, r) l h = tt

close_string-Grows :
    (o : Options) (in' : Bytes) (start i : ℕ) (content : Bytes) (borrowed : Bool) (r : Reader)
    → Grows i (close_string o in' start i content borrowed r)
close_string-Grows o in' start i content borrowed r =
    by_verdict (if o.validate_utf8 then validate_utf8 (part in' (start + 1) i) else none) refl
  where
    by_verdict :
        (v : Option ℕ)
        → (if o.validate_utf8 then validate_utf8 (part in' (start + 1) i) else none) ≡ v
        → Grows i (close_string o in' start i content borrowed r)
    by_verdict none e = rw (e, close_string) (omega arith)
    by_verdict (some at) e = rw (e, close_string) tt

escaped_loop-Grows :
    (o : Options) (in' : Bytes) (start fuel : ℕ) (cs : Bytes) (i run : ℕ) (scratch : Bytes)
    (r : Reader)
    → Grows i (escaped_loop o in' start fuel cs i run scratch r)
unfolding escaped_loop
escaped_loop-Grows o in' start zero cs i run scratch r = tt
escaped_loop-Grows o in' start (suc fuel) [] i run scratch r = tt
escaped_loop-Grows o in' start (suc fuel) (c ∷ cs) i run scratch r =
    Grows-either i (c == 0x22) _ _
      (close_string-Grows o in' start i (scratch ++ part in' run i) false r)
      (Grows-either i (ltb c 0x20) _ _ tt (
        Grows-either i (not (c == 0x5C)) _ _
          (Grows-weaker i (i + 1) _ (omega arith)
            (escaped_loop-Grows o in' start fuel cs (i + 1) run scratch r))
          (elim (escape_at (c ∷ cs))
            as (λ x. Grows i (elim x as (λ _. Result Error TextRef × Reader) [
              | decoded b k ↦
                  escaped_loop o in' start fuel (drop k (c ∷ cs)) (i + k) (i + k)
                    ((scratch ++ part in' run i) ++ b) r
              | bad ↦ (err (record { code = Errc.invalid_escape; offset = i }), r)
              | unfinished ↦ (err (record { code = Errc.unterminated_string; offset = start }), r)
            ])) [
              | decoded b k ↦ Grows-weaker i (i + k) _ (omega arith) (
                  escaped_loop-Grows o in' start fuel (drop k (c ∷ cs)) (i + k) (i + k)
                    ((scratch ++ part in' run i) ++ b) r)
              | bad ↦ tt
              | unfinished ↦ tt
            ])))

string_loop-Grows :
    (o : Options) (in' : Bytes) (start : ℕ) (cs : Bytes) (i : ℕ) (r : Reader)
    → Grows i (string_loop o in' start cs i r)
unfolding string_loop
string_loop-Grows o in' start [] i r = tt
string_loop-Grows o in' start (c ∷ cs) i r =
    Grows-either i (c == 0x22) _ _
      (close_string-Grows o in' start i (part in' (start + 1) i) true r)
      (Grows-either i (c == 0x5C) _ _
        (escaped_loop-Grows o in' start (length (c ∷ cs)) (c ∷ cs) i i (part in' (start + 1) i) r)
        (Grows-either i (ltb c 0x20) _ _ tt
          (Grows-weaker i (i + 1) _ (omega arith) (string_loop-Grows o in' start cs (i + 1) r))))

pub parse_string-Grows :
    (o : Options) (in' : Bytes) (r : Reader) → Grows r.pos (parse_string o in' r)
unfolding parse_string
parse_string-Grows o in' r =
    Grows-weaker r.pos (r.pos + 1) _ (omega arith)
      (string_loop-Grows o in' r.pos (drop (r.pos + 1) in') (r.pos + 1) r)

literal-Grows : (in' word : Bytes) (r : Reader) → 0 < length word → Grows r.pos (literal in' word r)
unfolding literal
literal-Grows in' word r l = Grows-either r.pos (starts_with word (ahead in' r)) _ _ (omega arith) (
    Grows-either r.pos
      (ltb (length (ahead in' r)) (length word)
        && bytes_equal (ahead in' r) (take (length (ahead in' r)) word))
      (error truncated (length in'), r) (err (unexpected in' r), r) tt tt)

-- A round that goes on does so behind `p`.
abbrev pub Moves : ℕ → Next → Type 0
Moves p (go st s r) = p < r.pos
Moves p (done r) = Unit
Moves p (failed e r) = Unit

Moves-either :
    (p : ℕ) (b : Bool) (x y : Next) → Moves p x → Moves p y → Moves p (if b then x else y)
Moves-either p true x y hx hy = hx
Moves-either p false x y hx hy = hy

after_scalar-Moves :
    {A : Type 0} (p : ℕ) (s : List Bool) (x : Result Error A × Reader)
    → Grows p x
    → Moves p (after_scalar s x)
after_scalar-Moves p s (ok a, r) h = h
after_scalar-Moves p s (err e, r) h = tt

after_number-Moves :
    (s : List Bool) (n : NumberScan) (k : Kind) (r : Reader)
    → (k ≡ Kind.undefined) ⊎ (0 < n.length)
    → Moves r.pos (after_number s n k r)
after_number-Moves s n Kind.undefined r h = tt
after_number-Moves s n Kind.null r (inl e) = absurd cc
after_number-Moves s n Kind.null r (inr l) = omega arith
after_number-Moves s n Kind.boolean r (inl e) = absurd cc
after_number-Moves s n Kind.boolean r (inr l) = omega arith
after_number-Moves s n Kind.uint r (inl e) = absurd cc
after_number-Moves s n Kind.uint r (inr l) = omega arith
after_number-Moves s n Kind.sint r (inl e) = absurd cc
after_number-Moves s n Kind.sint r (inr l) = omega arith
after_number-Moves s n Kind.real r (inl e) = absurd cc
after_number-Moves s n Kind.real r (inr l) = omega arith
after_number-Moves s n Kind.text r (inl e) = absurd cc
after_number-Moves s n Kind.text r (inr l) = omega arith
after_number-Moves s n Kind.bytes r (inl e) = absurd cc
after_number-Moves s n Kind.bytes r (inr l) = omega arith
after_number-Moves s n Kind.array r (inl e) = absurd cc
after_number-Moves s n Kind.array r (inr l) = omega arith
after_number-Moves s n Kind.map r (inl e) = absurd cc
after_number-Moves s n Kind.map r (inr l) = omega arith
after_number-Moves s n Kind.tag r (inl e) = absurd cc
after_number-Moves s n Kind.tag r (inr l) = omega arith

pub skip_ws-forward : (in' : Bytes) (r : Reader) → r.pos ≤ (skip_ws in' r).pos
unfolding skip_ws
skip_ws-forward in' r = omega arith

first_item-Moves :
    (p : ℕ) (b : Bool) (s : List Bool) (cs : Bytes) (r : Reader)
    → p < r.pos
    → Moves p (first_item b s cs r)
first_item-Moves p b s [] r l = tt
first_item-Moves p b s (c ∷ cs) r l =
    Moves-either p (c == closer b) (go after_value s (advance 1 r)) (go (item_state b) (b ∷ s) r)
      (omega arith) l

open_container-Moves :
    (o : Options) (in' : Bytes) (b : Bool) (s : List Bool) (r : Reader)
    → Moves r.pos (open_container o in' b s r)
unfolding open_container
open_container-Moves o in' b s r =
    let r' = skip_ws in' (advance 1 r) in
    let l = skip_ws-forward in' (advance 1 r) in
    Moves-either r.pos (leb o.max_depth (r.depth + length s)) _ (first_item b s (ahead in' r') r')
      tt (first_item-Moves r.pos b s (ahead in' r') r' (omega arith))

after_colon-Moves :
    (p : ℕ) (in' : Bytes) (s : List Bool) (r : Reader)
    → p ≤ r.pos
    → Moves p (after_colon s (pass in' 0x3A r))
after_colon-Moves p in' s r l = elim (Bool-cases (front_is 0x3A (ahead in' r))) [
  | inl e ↦ rw e (omega arith)
  | inr e ↦ rw e tt
]

after_key-Moves :
    (p : ℕ) (in' : Bytes) (s : List Bool) (x : Result Error TextRef × Reader)
    → Grows p x
    → Moves p (after_key in' s x)
after_key-Moves p in' s (ok k, r) h =
    let l = skip_ws-forward in' r in after_colon-Moves p in' s (skip_ws in' r) (omega arith)
after_key-Moves p in' s (err e, r) h = tt

key_ahead-Moves :
    (o : Options) (in' : Bytes) (c : ℕ) (s : List Bool) (r : Reader)
    → Moves r.pos (key_ahead o in' c s r)
unfolding key_ahead
key_ahead-Moves o in' c s r =
    Moves-either r.pos (c == 0x22) _ _
      (after_key-Moves r.pos in' s (parse_string o in' r) (parse_string-Grows o in' r)) tt

value_behind-Moves :
    (in' : Bytes) (c : ℕ) (top : Bool) (s : List Bool) (r : Reader)
    → Moves r.pos (value_behind in' c top s r)
unfolding value_behind
value_behind-Moves in' c top s r =
    let r' = skip_ws in' (advance 1 r) in
    let l = skip_ws-forward in' (advance 1 r) in
    Moves-either r.pos (c == 0x2C) (after_comma in' top s (advance 1 r)) _
      (Moves-either r.pos (front_is 0x7D (ahead in' r') || front_is 0x5D (ahead in' r'))
        (failed (unexpected in' r') r') (go (item_state top) (top ∷ s) r') tt (omega arith))
      (Moves-either r.pos (c == closer top) (go after_value s (advance 1 r))
        (failed (unexpected in' r) r) (omega arith) tt)

module _ (from_chars : Bytes → Parsed) (o : Options) (in' : Bytes) where
  value_ahead-Moves :
      (c : ℕ) (s : List Bool) (r : Reader) → Moves r.pos (value_ahead from_chars o in' c s r)
  unfolding value_ahead
  value_ahead-Moves c s r =
      let n = scan_number from_chars (ahead in' r) in
      Moves-either r.pos ((c == 0x5B) || (c == 0x7B)) _ _
        (open_container-Moves o in' (c == 0x7B) s r)
        (Moves-either r.pos (c == 0x22) _ _
          (after_scalar-Moves r.pos s (parse_string o in' r) (parse_string-Grows o in' r))
          (Moves-either r.pos (c == 0x74) _ _ (word true_word (omega arith)) (
            Moves-either r.pos (c == 0x66) _ _ (word false_word (omega arith)) (
              Moves-either r.pos (c == 0x6E) _ _ (word null_word (omega arith)) (
                Moves-either r.pos ((c == 0x2D) || is_digit c) _ (failed (unexpected in' r) r)
                  (after_number-Moves s n n.kind r (scan_number-HasLength from_chars (ahead in' r)))
                  tt)))))
    where
      word : (w : Bytes) → 0 < length w → Moves r.pos (after_scalar s (literal in' w r))
      word w l = after_scalar-Moves r.pos s (literal in' w r) (literal-Grows in' w r l)

  pub skip_switch-Moves :
      (c : ℕ) (st : State) (s : List Bool) (r : Reader)
      → Moves r.pos (skip_switch from_chars o in' c st s r)
  unfolding skip_switch
  skip_switch-Moves c want_value s r = value_ahead-Moves c s r
  skip_switch-Moves c want_key s r = key_ahead-Moves o in' c s r
  skip_switch-Moves c after_value [] r = tt
  skip_switch-Moves c after_value (top ∷ s) r = value_behind-Moves in' c top s r
