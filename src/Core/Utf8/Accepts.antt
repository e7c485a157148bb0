-- ===== src/Core/Utf8/Accepts.antt =====
-- `validate_utf8` decides well-formedness, and its offset is where the well-formed part ends.
use native.Mathlib.Decide.{dec_lt}
use v_codec.Base.{
  ℕ, zero, suc, ◌+◌, ◌≤◌, ◌<◌, ◌≡◌, ◌≢◌, inl, inr, ◌↔◌, refl, sym, ap, ◌∙◌, subst, none, some, [],
  ◌∷◌, ◌++◌, Bytes, length, drop, take, arith, drop-append, take-append, length-append, length-drop,
  Option-cases, drop-drop, take-add, ap₂,
}
use v_codec.Core.Utf8.{advance, validate_loop, validate_utf8, utf8_bytes}
use v_codec.Core.Utf8.WellFormed.{
  IsScalar, WellFormed, nil, cons, plain_bytes, utf8_bytes-plain, advance_all, advance-plain,
  advance-Starts,
}

IsScalar-lt : (cp : ℕ) → IsScalar cp → cp < 0x110000
IsScalar-lt cp (inl h) = omega arith
IsScalar-lt cp (inr h) = h.1

length-plain_bytes : (cp : ℕ) → 1 ≤ length (plain_bytes cp)
length-plain_bytes cp = ground arith

-- A move is at least one byte, and does not pass the end.
advance_bounds : (c k : ℕ) (s : Bytes) → advance c (c ∷ s) ≡ some k → (1 ≤ k) × (k ≤ length s + 1)
advance_bounds c k s h =
    let st = advance-Starts c k s h in
    (
      omega (arith, st.size, length-plain_bytes st.cp),
      omega
          (arith, st.size, ap length st.splits, length-append (plain_bytes st.cp) (drop k (c ∷ s))),
    )

-- One round, by what `advance` answers.
validate_loop_moves :
    (fuel i c k : ℕ) (s : Bytes)
    → advance c (c ∷ s) ≡ some k
    → validate_loop (suc fuel) i (c ∷ s) ≡ validate_loop fuel (i + k) (drop k (c ∷ s))
unfolding validate_loop
validate_loop_moves fuel i c k s e = rw (e, validate_loop)

validate_loop_stops :
    (fuel i c : ℕ) (s : Bytes)
    → advance c (c ∷ s) ≡ none
    → validate_loop (suc fuel) i (c ∷ s) ≡ some i
unfolding validate_loop
validate_loop_stops fuel i c s e = rw (e, validate_loop)

WellFormed-moves :
    (c k : ℕ) (s : Bytes)
    → advance c (c ∷ s) ≡ some k
    → WellFormed (drop k (c ∷ s))
    → WellFormed (c ∷ s)
WellFormed-moves c k s e w =
    let st = advance-Starts c k s e in
    cons st.cp st.scalar
      (st.splits
        ∙ ap (λ x. x ++ drop k (c ∷ s))
            (sym (utf8_bytes-plain st.cp (IsScalar-lt st.cp st.scalar))))
      w

drop_fuel :
    (c k fuel : ℕ) (s : Bytes)
    → advance c (c ∷ s) ≡ some k
    → length s ≤ fuel
    → length (drop k (c ∷ s)) ≤ fuel
drop_fuel c k fuel s e l = omega (arith, advance_bounds c k s e, length-drop k (c ∷ s))

validate_loop_sound :
    (fuel i : ℕ) (s : Bytes) → length s ≤ fuel → validate_loop fuel i s ≡ none → WellFormed s
validate_loop_sound fuel i [] l h = nil
validate_loop_sound zero i (c ∷ s) l h = absurd (omega arith)
validate_loop_sound (suc fuel) i (c ∷ s) l h = elim (Option-cases (advance c (c ∷ s))) [
  | inl e ↦ cc (validate_loop_stops fuel i c s e)
  | inr (k, e) ↦ WellFormed-moves c k s e (
      validate_loop_sound fuel (i + k) (drop k (c ∷ s)) (drop_fuel c k fuel s e (omega arith))
        (sym (validate_loop_moves fuel i c k s e) ∙ h))
]

-- A text that begins with a scalar value is moved over.
advance-utf8_bytes :
    (cp c : ℕ) (rest s : Bytes)
    → IsScalar cp
    → c ∷ s ≡ utf8_bytes cp ++ rest
    → (k : ℕ) × (advance c (c ∷ s) ≡ some k) × (drop k (c ∷ s) ≡ rest)
advance-utf8_bytes cp c rest s sc e =
    let plain : c ∷ s ≡ plain_bytes cp ++ rest =
      e ∙ ap (λ x. x ++ rest) (utf8_bytes-plain cp (IsScalar-lt cp sc)) in
    (
      length (plain_bytes cp),
      ap advance_all plain ∙ advance-plain cp rest sc,
      ap (drop (length (plain_bytes cp))) plain ∙ drop-append (plain_bytes cp) rest,
    )

utf8_bytes-ne-nil : (cp : ℕ) (rest : Bytes) → IsScalar cp → [] ≡ utf8_bytes cp ++ rest → ⊥
utf8_bytes-ne-nil cp rest sc e = omega (
  arith,
  ap length (e ∙ ap (λ x. x ++ rest) (utf8_bytes-plain cp (IsScalar-lt cp sc))),
  length-append (plain_bytes cp) rest,
  length-plain_bytes cp,
)

validate_loop_complete :
    (fuel i : ℕ) (s : Bytes) → WellFormed s → length s ≤ fuel → validate_loop fuel i s ≡ none
validate_loop_complete fuel i [] w l = unfold validate_loop in refl
validate_loop_complete zero i (c ∷ s) w l = absurd (omega arith)
validate_loop_complete (suc fuel) i (c ∷ s) (cons cp {rest = rest} sc e w) l =
    let (k, moves, ends) = advance-utf8_bytes cp c rest s sc e in
    validate_loop_moves fuel i c k s moves
    ∙ validate_loop_complete fuel (i + k) (drop k (c ∷ s)) (subst WellFormed (sym ends) w)
        (drop_fuel c k fuel s moves (omega arith))

-- A text is accepted exactly when it is a sequence of Unicode scalar values, each in the bytes
-- that UTF-8 has for it: no overlong form, no surrogate, nothing above U+10FFFF, nothing cut.
pub validate_utf8-WellFormed : (s : Bytes) → (validate_utf8 s ≡ none) ↔ WellFormed s
unfolding validate_utf8
validate_utf8-WellFormed s = (
  validate_loop_sound (length s) 0 s (omega arith),
  λ w. validate_loop_complete (length s) 0 s w (omega arith),
)

drop_past : (s : Bytes) (i : ℕ) → length s ≤ i → drop i s ≡ []
drop_past [] zero l = refl
drop_past [] (suc i) l = refl
drop_past (c ∷ s) zero l = absurd (omega arith)
drop_past (c ∷ s) (suc i) l = drop_past s i (omega arith)

-- No scalar value begins there, though a byte does.
abbrev pub StartsNone : Bytes → Type 0
StartsNone t = (t ≢ []) × ((cp : ℕ) (rest : Bytes) → IsScalar cp → t ≢ utf8_bytes cp ++ rest)

in_range : (s : Bytes) (i : ℕ) → StartsNone (drop i s) → i < length s
in_range s i h = elim (dec_lt i (length s)) [
  | yes l ↦ l
  | no n ↦ absurd (h.0 (drop_past s i (omega arith)))
]

-- The text from `i` on was read as far as `j`.
record Refused (s : Bytes) (i j : ℕ) : Type 0 where
  reached : ℕ
  offset_is : j ≡ i + reached
  before : WellFormed (take reached s)
  after : StartsNone (drop reached s)

stops-StartsNone : (c : ℕ) (s : Bytes) → advance c (c ∷ s) ≡ none → StartsNone (c ∷ s)
stops-StartsNone c s e = (
  (λ h. cc),
  λ cp rest sc h. let (k, moves, _) = advance-utf8_bytes cp c rest s sc h in cc (e, moves),
)

WellFormed-take :
    (c k n : ℕ) (s : Bytes)
    → advance c (c ∷ s) ≡ some k
    → WellFormed (take n (drop k (c ∷ s)))
    → WellFormed (take (k + n) (c ∷ s))
WellFormed-take c k n s e w =
    let st = advance-Starts c k s e in
    let front : take k (c ∷ s) ≡ utf8_bytes st.cp =
      ap₂ take st.size st.splits
      ∙ take-append (plain_bytes st.cp) (drop k (c ∷ s))
      ∙ sym (utf8_bytes-plain st.cp (IsScalar-lt st.cp st.scalar)) in
    cons st.cp st.scalar (take-add k n (c ∷ s) ∙ ap (λ x. x ++ take n (drop k (c ∷ s))) front) w

validate_loop_refuses :
    (fuel i j : ℕ) (s : Bytes) → length s ≤ fuel → validate_loop fuel i s ≡ some j → Refused s i j
validate_loop_refuses fuel i j [] l h = absurd (unfold validate_loop in cc h)
validate_loop_refuses zero i j (c ∷ s) l h = absurd (omega arith)
validate_loop_refuses (suc fuel) i j (c ∷ s) l h = elim (Option-cases (advance c (c ∷ s))) [
  | inl e ↦ record {
    reached = 0;
    offset_is = ground (arith, validate_loop_stops fuel i c s e);
    before = nil;
    after = stops-StartsNone c s e;
  }
  | inr (k, e) ↦
      let r =
        validate_loop_refuses fuel (i + k) j (drop k (c ∷ s)) (drop_fuel c k fuel s e (omega arith))
          (sym (validate_loop_moves fuel i c k s e) ∙ h) in
      record {
        reached = k + r.reached;
        offset_is = omega (arith, r.offset_is);
        before = WellFormed-take c k r.reached s e r.before;
        after = subst StartsNone (drop-drop r.reached k (c ∷ s)) r.after;
      }
]

-- The offset that `validate_utf8` returns for a refused text lies in the text; what stands before
-- it is well formed, and the bytes of no scalar value begin at it.
pub validate_utf8_refuses :
    (s : Bytes) (i : ℕ)
    → validate_utf8 s ≡ some i
    → (i < length s) × WellFormed (take i s) × StartsNone (drop i s)
unfolding validate_utf8
validate_utf8_refuses s i h =
    let r = validate_loop_refuses (length s) 0 i s (omega arith) h in
    let e : r.reached ≡ i = omega (arith, r.offset_is) in
    (
      in_range s i (subst (λ k. StartsNone (drop k s)) e r.after),
      subst (λ k. WellFormed (take k s)) e r.before,
      subst (λ k. StartsNone (drop k s)) e r.after,
    )
