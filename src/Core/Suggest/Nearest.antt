-- ===== src/Core/Suggest/Nearest.antt =====
-- `suggest` finds the nearest of the names that are near enough.
use v_codec.Base.{
  ℕ, ◌+◌, ◌≤◌, ◌<◌, Bool, true, false, List, [], ◌∷◌, Bytes, ltb, if◌then◌else◌, ◌≡◌, refl, sym, ap,
  subst, arith, All, ◌⊎◌, inl, inr,
}
use v_codec.Core.Suggest.{Field, levenshtein, suggest_loop, suggest}

-- A field of the schema that is not skipped has the name.
abbrev pub Offers : List Field → Bytes → Type 0
Offers [] name = ⊥
Offers (f ∷ fs) name = ((f.skipped ≡ false) × (f.wire_name ≡ name)) ⊎ Offers fs name

-- Every field that is not skipped is at the distance `d` at least.
abbrev pub NoNearer : Bytes → ℕ → List Field → Type 0
NoNearer key d fs = All (λ f. f.skipped ≡ false → d ≤ levenshtein key f.wire_name) fs

-- What the loop comes to: what it had, or a nearer name.
Outcome : Bytes → List Field → Bytes → ℕ → Bytes → Type 0
Outcome key fs best best_d r =
    ((r ≡ best) × NoNearer key best_d fs)
    ⊎ (Offers fs r × (levenshtein key r < best_d) × NoNearer key (levenshtein key r) fs)

unoffered : (key best : Bytes) (best_d : ℕ) → Outcome key [] best best_d best
unfolding Outcome
unoffered key best best_d = inl (refl, tt)

module _ (key : Bytes) (f : Field) (fs : List Field) (best : Bytes) (best_d : ℕ) where
  skipped-Outcome :
      (r : Bytes)
      → f.skipped ≡ true
      → Outcome key fs best best_d r
      → Outcome key (f ∷ fs) best best_d r
  unfolding Outcome
  skipped-Outcome r e (inl (same, far)) = inl (same, ((λ no_skip. absurd cc), far))
  skipped-Outcome r e (inr (offered, near, far)) =
      inr (inr offered, near, ((λ no_skip. absurd cc), far))

  nearer-Outcome :
      (r : Bytes)
      → f.skipped ≡ false
      → levenshtein key f.wire_name < best_d
      → Outcome key fs f.wire_name (levenshtein key f.wire_name) r
      → Outcome key (f ∷ fs) best best_d r
  unfolding Outcome
  nearer-Outcome r e near (inl (same, far)) =
      let d : levenshtein key r ≡ levenshtein key f.wire_name = ap (levenshtein key) same in
      inr (
        inl (e, sym same),
        omega (arith, d),
        ((λ _. omega (arith, d)), subst (λ n. NoNearer key n fs) (sym d) far),
      )
  nearer-Outcome r e near (inr (offered, nearer, far)) =
      inr (inr offered, omega arith, ((λ _. omega arith), far))

  farther-Outcome :
      (r : Bytes)
      → best_d ≤ levenshtein key f.wire_name
      → Outcome key fs best best_d r
      → Outcome key (f ∷ fs) best best_d r
  unfolding Outcome
  farther-Outcome r farther (inl (same, far)) = inl (same, ((λ _. farther), far))
  farther-Outcome r farther (inr (offered, near, far)) =
      inr (inr offered, near, ((λ _. omega arith), far))

choose :
    (P : Bytes → Type 0) (b : Bool) (x y : Bytes)
    → (b ≡ true → P x)
    → (b ≡ false → P y)
    → P (if b then x else y)
choose P true x y px py = px refl
choose P false x y px py = py refl

suggest_loop-Outcome :
    (key : Bytes) (fs : List Field) (best : Bytes) (best_d : ℕ)
    → Outcome key fs best best_d (suggest_loop key fs best best_d)
unfolding suggest_loop
suggest_loop-Outcome key [] best best_d = unoffered key best best_d
suggest_loop-Outcome key (f ∷ fs) best best_d =
    let d = levenshtein key f.wire_name in
    let same = suggest_loop key fs best best_d in
    let better = suggest_loop key fs f.wire_name d in
    let P = Outcome key (f ∷ fs) best best_d in
    choose P f.skipped same (if ltb d best_d then better else same)
      (λ e. skipped-Outcome key f fs best best_d same e (suggest_loop-Outcome key fs best best_d))
      (λ e.
        choose P (ltb d best_d) better same
          (λ near.
            nearer-Outcome key f fs best best_d better e (ground arith)
              (suggest_loop-Outcome key fs f.wire_name d))
          (λ far.
            farther-Outcome key f fs best best_d same (ground arith)
              (suggest_loop-Outcome key fs best best_d)))

-- No name, where none is near enough, or a name that is, and that no other is nearer than.
abbrev pub IsNearest : Bytes → List Field → ℕ → Bytes → Type 0
IsNearest key schema max_distance r =
    ((r ≡ []) × NoNearer key (max_distance + 1) schema)
    ⊎ (Offers schema r
        × (levenshtein key r ≤ max_distance)
        × NoNearer key (levenshtein key r) schema)

-- `suggest` returns the empty text, where every name that is not skipped is farther than the
-- greatest distance allowed, or the name of a field that is not skipped, within that distance,
-- that no name that is not skipped is nearer than.
pub suggest-IsNearest :
    (key : Bytes) (schema : List Field) (max_distance : ℕ)
    → IsNearest key schema max_distance (suggest key schema max_distance)
unfolding suggest Outcome
suggest-IsNearest key schema max_distance =
    elim (suggest_loop-Outcome key schema [] (max_distance + 1)) [
      | inl nothing ↦ inl nothing
      | inr (offered, near, far) ↦ inr (offered, omega arith, far)
    ]
