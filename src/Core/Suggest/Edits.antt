-- ===== src/Core/Suggest/Edits.antt =====
-- The result of `levenshtein` against the edits that lead from one text to the other.
use v_codec.Base.{
  ℕ, suc, ◌+◌, ◌≤◌, Bool, true, false, [], ◌∷◌, ◌++◌, append-nil, Bytes, length, ltb, ◌==◌,
  if◌then◌else◌, ◌≡◌, refl, sym, ◌∙◌, subst, arith, Bool-cases, inl, inr,
}
use v_codec.Core.Suggest.{min3, cost, levenshtein}
use v_codec.Core.Suggest.Distance.{
  edits, edits-nil, reverse_onto, edit_distance, levenshtein-edit_distance,
}

-- `n` characters are inserted, removed or replaced to come from one text to the other.
pub data Edits : Bytes → Bytes → ℕ → Type 0 where
  finish : Edits [] [] 0
  keep : (x : ℕ) {xs ys : Bytes} {n : ℕ} → Edits xs ys n → Edits (x ∷ xs) (x ∷ ys) n
  replace : (x y : ℕ) {xs ys : Bytes} {n : ℕ} → Edits xs ys n → Edits (x ∷ xs) (y ∷ ys) (suc n)
  insert : (y : ℕ) {xs ys : Bytes} {n : ℕ} → Edits xs ys n → Edits xs (y ∷ ys) (suc n)
  remove : (x : ℕ) {xs ys : Bytes} {n : ℕ} → Edits xs ys n → Edits (x ∷ xs) ys (suc n)

-- The least number of edits.
abbrev pub IsLeast : Bytes → Bytes → ℕ → Type 0
IsLeast a b n = Edits a b n × ((m : ℕ) → Edits a b m → n ≤ m)

all_inserted : (ys : Bytes) → Edits [] ys (length ys)
all_inserted [] = Edits.finish
all_inserted (y ∷ ys) = Edits.insert y (all_inserted ys)

all_removed : (xs : Bytes) → Edits xs [] (length xs)
all_removed [] = Edits.finish
all_removed (x ∷ xs) = Edits.remove x (all_removed xs)

one_of : (P : ℕ → Type 0) (b : Bool) (x y : ℕ) → P x → P y → P (if b then x else y)
one_of P true x y px py = px
one_of P false x y px py = py

-- What holds of three numbers holds of the least.
min3_among : (P : ℕ → Type 0) (a b c : ℕ) → P a → P b → P c → P (min3 a b c)
min3_among P a b c pa pb pc =
    let m = if ltb b a then b else a in one_of P (ltb c m) c m pc (one_of P (ltb b a) b a pb pa)

min3_first : (a b c : ℕ) → min3 a b c ≤ a
min3_first a b c = ground arith

min3_second : (a b c : ℕ) → min3 a b c ≤ b
min3_second a b c = ground arith

min3_third : (a b c : ℕ) → min3 a b c ≤ c
min3_third a b c = ground arith

to_count : (xs ys : Bytes) (n m : ℕ) → n ≡ m → Edits xs ys n → Edits xs ys m
to_count xs ys n m e h = subst (Edits xs ys) e h

-- The first characters are kept if they are the same, and one is replaced otherwise.
kept_or_replaced :
    (x y : ℕ) (xs ys : Bytes) (n : ℕ) → Edits xs ys n → Edits (x ∷ xs) (y ∷ ys) (n + cost x y)
kept_or_replaced x y xs ys n e = elim (Bool-cases (x == y)) [
  | inl same ↦
      let equal : x ≡ y = ground (arith, same) in
      subst (λ z. Edits (x ∷ xs) (z ∷ ys) (n + cost x y)) equal
        (to_count (x ∷ xs) (x ∷ ys) n (n + cost x y) (rw same (omega arith)) (Edits.keep x e))
  | inr other ↦
      to_count (x ∷ xs) (y ∷ ys) (suc n) (n + cost x y) (rw other (omega arith))
        (Edits.replace x y e)
]

cost_same : (x : ℕ) → cost x x ≡ 0
cost_same x = ground arith

cost_bound : (x y : ℕ) → cost x y ≤ 1
cost_bound x y = ground arith

-- There are so many edits as the recursion says.
edits-Edits_cons :
    (x : ℕ) (xs : Bytes) (before : (ys : Bytes) → Edits xs ys (edits xs ys)) (ys : Bytes)
    → Edits (x ∷ xs) ys (edits (x ∷ xs) ys)
edits-Edits_cons x xs before [] = all_removed (x ∷ xs)
edits-Edits_cons x xs before (y ∷ ys) =
    min3_among (Edits (x ∷ xs) (y ∷ ys)) (edits (x ∷ xs) ys + 1) (edits xs (y ∷ ys) + 1)
      (edits xs ys + cost x y)
      (to_count (x ∷ xs) (y ∷ ys) (suc (edits (x ∷ xs) ys)) (edits (x ∷ xs) ys + 1) (omega arith)
        (Edits.insert y (edits-Edits_cons x xs before ys)))
      (to_count (x ∷ xs) (y ∷ ys) (suc (edits xs (y ∷ ys))) (edits xs (y ∷ ys) + 1) (omega arith)
        (Edits.remove x (before (y ∷ ys))))
      (kept_or_replaced x y xs ys (edits xs ys) (before ys))

edits-Edits : (xs ys : Bytes) → Edits xs ys (edits xs ys)
edits-Edits [] ys = all_inserted ys
edits-Edits (x ∷ xs) ys = edits-Edits_cons x xs (edits-Edits xs) ys

-- One more character costs one edit at most.
edits_inserted : (y : ℕ) (xs ys : Bytes) → edits xs (y ∷ ys) ≤ edits xs ys + 1
edits_inserted y [] ys = omega arith
edits_inserted y (x ∷ xs) ys =
    min3_first (edits (x ∷ xs) ys + 1) (edits xs (y ∷ ys) + 1) (edits xs ys + cost x y)

edits_removed : (x : ℕ) (xs ys : Bytes) → edits (x ∷ xs) ys ≤ edits xs ys + 1
edits_removed x xs [] = omega (arith, edits-nil xs)
edits_removed x xs (y ∷ ys) =
    min3_second (edits (x ∷ xs) ys + 1) (edits xs (y ∷ ys) + 1) (edits xs ys + cost x y)

edits_both : (x y : ℕ) (xs ys : Bytes) → edits (x ∷ xs) (y ∷ ys) ≤ edits xs ys + cost x y
edits_both x y xs ys =
    min3_third (edits (x ∷ xs) ys + 1) (edits xs (y ∷ ys) + 1) (edits xs ys + cost x y)

-- No edits are fewer.
edits_least : (xs ys : Bytes) (n : ℕ) → Edits xs ys n → edits xs ys ≤ n
edits_least _ _ _ Edits.finish = omega arith
edits_least _ _ _ (Edits.keep x {xs} {ys} {n} h) =
    omega (arith, edits_least xs ys n h, edits_both x x xs ys, cost_same x)
edits_least _ _ _ (Edits.replace x y {xs} {ys} {n} h) =
    omega (arith, edits_least xs ys n h, edits_both x y xs ys, cost_bound x y)
edits_least _ _ _ (Edits.insert y {xs} {ys} {n} h) =
    omega (arith, edits_least xs ys n h, edits_inserted y xs ys)
edits_least _ _ _ (Edits.remove x {xs} {ys} {n} h) =
    omega (arith, edits_least xs ys n h, edits_removed x xs ys)

-- Edits can be made from the ends as well.
Edits-reverse_onto :
    (xs ys us vs : Bytes) (n m : ℕ)
    → Edits xs ys n
    → Edits us vs m
    → Edits (reverse_onto xs us) (reverse_onto ys vs) (n + m)
Edits-reverse_onto _ _ us vs _ m Edits.finish h = to_count us vs m (0 + m) (omega arith) h
Edits-reverse_onto _ _ us vs _ m (Edits.keep x {xs} {ys} {n} e) h =
    Edits-reverse_onto xs ys (x ∷ us) (x ∷ vs) n m e (Edits.keep x h)
Edits-reverse_onto _ _ us vs _ m (Edits.replace x y {xs} {ys} {n} e) h =
    to_count _ _ (n + suc m) (suc n + m) (omega arith)
      (Edits-reverse_onto xs ys (x ∷ us) (y ∷ vs) n (suc m) e (Edits.replace x y h))
Edits-reverse_onto _ _ us vs _ m (Edits.insert y {xs} {ys} {n} e) h =
    to_count _ _ (n + suc m) (suc n + m) (omega arith)
      (Edits-reverse_onto xs ys us (y ∷ vs) n (suc m) e (Edits.insert y h))
Edits-reverse_onto _ _ us vs _ m (Edits.remove x {xs} {ys} {n} e) h =
    to_count _ _ (n + suc m) (suc n + m) (omega arith)
      (Edits-reverse_onto xs ys (x ∷ us) vs n (suc m) e (Edits.remove x h))

reversed : Bytes → Bytes
reversed xs = reverse_onto xs []

reverse_onto-reverse_onto :
    (xs ys zs : Bytes) → reverse_onto (reverse_onto xs ys) zs ≡ reverse_onto ys (xs ++ zs)
reverse_onto-reverse_onto [] ys zs = refl
reverse_onto-reverse_onto (x ∷ xs) ys zs = reverse_onto-reverse_onto xs (x ∷ ys) zs

reversed-reversed : (xs : Bytes) → reversed (reversed xs) ≡ xs
unfolding reversed
reversed-reversed xs = reverse_onto-reverse_onto xs [] [] ∙ append-nil xs

Edits-reversed : (xs ys : Bytes) (n : ℕ) → Edits xs ys n → Edits (reversed xs) (reversed ys) n
unfolding reversed
Edits-reversed xs ys n e =
    to_count _ _ (n + 0) n (omega arith) (Edits-reverse_onto xs ys [] [] n 0 e Edits.finish)

edit_distance-IsLeast : (a b : Bytes) → IsLeast a b (edit_distance a b)
unfolding reversed
edit_distance-IsLeast a b =
    let n = edit_distance a b in
    (
      subst (λ x. Edits x b n) (reversed-reversed a)
          (subst (λ y. Edits (reversed (reversed a)) y n) (reversed-reversed b)
            (Edits-reversed (reversed a) (reversed b) n (edits-Edits (reversed a) (reversed b)))),
      λ m e. edits_least (reversed a) (reversed b) m (Edits-reversed a b m e),
    )

-- `levenshtein` of two texts is the least number of edits that lead from one to the other, where
-- an edit inserts, removes or replaces a character: so many edits do, and no fewer.
pub levenshtein-IsLeast : (a b : Bytes) → IsLeast a b (levenshtein a b)
levenshtein-IsLeast a b =
    subst (IsLeast a b) (sym (levenshtein-edit_distance a b)) (edit_distance-IsLeast a b)
