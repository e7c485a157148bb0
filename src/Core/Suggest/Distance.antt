-- ===== src/Core/Suggest/Distance.antt =====
-- The table of `levenshtein`, row by row, holds the edit distances of prefixes.
use v_codec.Base.{
  ℕ, suc, ◌+◌, List, [], ◌∷◌, Bytes, length, ltb, ◌≡◌, refl, sym, ap, ap₂, ◌∙◌, arith, Bool-cases,
  inl, inr,
}
use v_codec.Core.Suggest.{min3, cost, next_cells, rows, first_row, last_cell, distance, levenshtein}

-- The distance of a text with a first character to another, from that of the text behind it.
abbrev pub behind_first : ℕ → ℕ → (Bytes → ℕ) → Bytes → ℕ
behind_first x n f [] = n
behind_first x n f (y ∷ ys) = min3 (behind_first x n f ys + 1) (f (y ∷ ys) + 1) (f ys + cost x y)

-- The recursion that the table tabulates, on the two texts.
abbrev pub edits : Bytes → Bytes → ℕ
edits [] ys = length ys
edits (x ∷ xs) ys = behind_first x (suc (length xs)) (edits xs) ys

abbrev pub reverse_onto : Bytes → Bytes → Bytes
reverse_onto [] done = done
reverse_onto (x ∷ xs) done = reverse_onto xs (x ∷ done)

-- Texts are taken from their ends.
abbrev pub edit_distance : Bytes → Bytes → ℕ
edit_distance a b = edits (reverse_onto a []) (reverse_onto b [])

min3_comm : (a b c : ℕ) → min3 a b c ≡ min3 b a c
min3_comm a b c = ground arith

cost_comm : (x y : ℕ) → cost x y ≡ cost y x
cost_comm x y = ground arith

pub edits-nil : (xs : Bytes) → edits xs [] ≡ length xs
edits-nil [] = refl
edits-nil (x ∷ xs) = refl

edits_comm_cons :
    (x : ℕ) (xs : Bytes) (before : (ys : Bytes) → edits xs ys ≡ edits ys xs) (ys : Bytes)
    → edits (x ∷ xs) ys ≡ edits ys (x ∷ xs)
edits_comm_cons x xs before [] = refl
edits_comm_cons x xs before (y ∷ ys) =
    ap₂ (λ a b. min3 (a + 1) (b + 1) (edits xs ys + cost x y)) (edits_comm_cons x xs before ys)
      (before (y ∷ ys))
    ∙ min3_comm (edits ys (x ∷ xs) + 1) (edits (y ∷ ys) xs + 1) (edits xs ys + cost x y)
    ∙ ap₂ (λ a b. min3 (edits (y ∷ ys) xs + 1) (edits ys (x ∷ xs) + 1) (a + b)) (before ys)
        (cost_comm x y)

edits_comm : (xs ys : Bytes) → edits xs ys ≡ edits ys xs
edits_comm [] ys = sym (edits-nil ys)
edits_comm (x ∷ xs) ys = edits_comm_cons x xs (edits_comm xs) ys

-- The row for a text `done` in front of the characters, and longer ones.
abbrev cells : Bytes → Bytes → Bytes → List ℕ
cells done [] rb = []
cells done (x ∷ xs) rb = edits (x ∷ done) rb ∷ cells (x ∷ done) xs rb

abbrev row : Bytes → Bytes → Bytes → List ℕ
row done xs rb = edits done rb ∷ cells done xs rb

next_cells-cells :
    (xs done : Bytes) (c : ℕ) (rb : Bytes)
    → next_cells xs c (row done xs rb) (edits done (c ∷ rb)) ≡ cells done xs (c ∷ rb)
unfolding next_cells
next_cells-cells [] done c rb = refl
next_cells-cells (x ∷ xs) done c rb =
    ap (λ z. edits (x ∷ done) (c ∷ rb) ∷ z) (next_cells-cells xs (x ∷ done) c rb)

rows-row :
    (a cs rb : Bytes) (j : ℕ)
    → j ≡ length rb
    → rows a cs j (row [] a rb) ≡ row [] a (reverse_onto cs rb)
unfolding rows
rows-row a [] rb j e = refl
rows-row a (c ∷ cs) rb j e =
    let next : j + 1 ≡ length (c ∷ rb) = omega (arith, e) in
    ap (λ n. rows a cs (j + 1) (n ∷ next_cells a c (row [] a rb) n)) next
    ∙ ap (λ z. rows a cs (j + 1) (length (c ∷ rb) ∷ z)) (next_cells-cells a [] c rb)
    ∙ rows-row a cs (c ∷ rb) (j + 1) next

first_row-row : (xs done : Bytes) (i : ℕ) → i ≡ length done → first_row i xs ≡ row done xs []
unfolding first_row
first_row-row [] done i e = ap (λ n. n ∷ []) (e ∙ sym (edits-nil done))
first_row-row (x ∷ xs) done i e =
    ap₂ (λ n z. n ∷ z) (e ∙ sym (edits-nil done))
      (first_row-row xs (x ∷ done) (i + 1) (omega (arith, e)))

last_cell-row : (xs done rb : Bytes) → last_cell (row done xs rb) ≡ edits (reverse_onto xs done) rb
unfolding last_cell
last_cell-row [] done rb = refl
last_cell-row (x ∷ xs) done rb = last_cell-row xs (x ∷ done) rb

distance_lem : (a b : Bytes) → distance a b ≡ edit_distance a b
unfolding distance
distance_lem a b =
    ap (λ r. last_cell (rows a b 0 r)) (first_row-row a [] 0 refl)
    ∙ ap last_cell (rows-row a b [] 0 refl)
    ∙ last_cell-row a [] (reverse_onto b [])

-- The numbers in the table are what the recursion gives.
pub levenshtein-edit_distance : (a b : Bytes) → levenshtein a b ≡ edit_distance a b
unfolding levenshtein
levenshtein-edit_distance a b = elim (Bool-cases (ltb (length b) (length a))) [
  | inl longer ↦ rw longer (distance_lem b a ∙ edits_comm (reverse_onto b []) (reverse_onto a []))
  | inr e ↦ rw e (distance_lem a b)
]
