-- ===== src/Core/Suggest.antt =====
-- Suggestions for unknown names: `levenshtein` and `suggest` of include/vcodec/core/lookup.hpp.
pub mod Distance
pub mod Edits
pub mod Nearest
use v_codec.Base.{
  ℕ, zero, suc, ◌+◌, ◌-◌, ◌*◌, ◌/◌, ◌%◌, ◌^◌, ◌≤◌, ◌<◌, ◌≢◌, Bool, true, false, not, ◌||◌, ◌&&◌,
  Option, none, some, List, [], ◌∷◌, ◌++◌, append_assoc, append-nil, Bytes, length, length-append,
  drop, drop-append, take, take-append, ltb, leb, ◌==◌, if◌then◌else◌, ◌≡◌, refl, sym, ap, ap₂, ◌∙◌,
  subst, arith, All, Bool-cases, inl, inr,
}

-- `std::min` of three numbers.
abbrev pub min3 : ℕ → ℕ → ℕ → ℕ
min3 a b c = let m = if ltb b a then b else a in if ltb c m then c else m

abbrev pub cost : ℕ → ℕ → ℕ
cost x y = if x == y then 0 else 1

-- The cells of `cur` behind `left`, from those of `prev`, for the characters that are left of `a`.
unfoldable pub next_cells : Bytes → ℕ → List ℕ → ℕ → List ℕ
next_cells (x ∷ xs) c (p ∷ q ∷ ps) left =
    let cell = min3 (q + 1) (left + 1) (p + cost x c) in cell ∷ next_cells xs c (q ∷ ps) cell
next_cells _ _ _ _ = []

-- The rounds of the outer loop, with `prev` after `j` of them.
unfoldable pub rows : Bytes → Bytes → ℕ → List ℕ → List ℕ
unfolding next_cells
rows a [] j prev = prev
rows a (c ∷ cs) j prev = rows a cs (j + 1) ((j + 1) ∷ next_cells a c prev (j + 1))

-- `prev[i] = i`, from `i` on.
unfoldable pub first_row : ℕ → Bytes → List ℕ
first_row i [] = i ∷ []
first_row i (x ∷ xs) = i ∷ first_row (i + 1) xs

-- `prev[a.size()]`
unfoldable pub last_cell : List ℕ → ℕ
last_cell [] = 0
last_cell (c ∷ []) = c
last_cell (c ∷ d ∷ cs) = last_cell (d ∷ cs)

-- `levenshtein`, without and with the swap.
unfoldable pub distance : Bytes → Bytes → ℕ
unfolding rows first_row last_cell
distance a b = last_cell (rows a b 0 (first_row 0 a))

unfoldable pub levenshtein : Bytes → Bytes → ℕ
unfolding distance
levenshtein a b = if ltb (length b) (length a) then distance b a else distance a b

-- The name of a field, and `skip_deserializing()`.
pub record Field : Type 0 where
  pub wire_name : Bytes
  pub skipped : Bool

-- The loop of `suggest`: the best name so far and its distance.
unfoldable pub suggest_loop : Bytes → List Field → Bytes → ℕ → Bytes
unfolding levenshtein
suggest_loop key [] best best_d = best
suggest_loop key (f ∷ fs) best best_d =
    let d = levenshtein key f.wire_name in
    let same = suggest_loop key fs best best_d in
    let better = suggest_loop key fs f.wire_name d in
    if f.skipped then same else if ltb d best_d then better else same

unfoldable pub suggest : Bytes → List Field → ℕ → Bytes
unfolding suggest_loop
suggest key schema max_distance = suggest_loop key schema [] (max_distance + 1)
