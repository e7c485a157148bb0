-- ===== src/Core/ErrorPath/Order.antt =====
-- The order of the steps of an error's path, and which of them are kept.
use v_codec.Base.{
  ℕ, zero, suc, ◌+◌, ◌≤◌, ◌<◌, Bool, true, false, ◌||◌, List, [], ◌∷◌, ◌++◌, append_assoc,
  append-nil, length, length-append, take, take-append, ltb, le→not_ltb, lt→ltb, ltb→lt, not_ltb→le,
  ◌≡◌, refl, sym, ap, ap₂, ◌∙◌, arith, Bool-cases, inl, inr,
}
use mathlib.Core.List.{reverse, reverse-cons, reverse-append}
use v_codec.Core.ErrorPath.{PathStep, ErrorPath, new_path, push, push_thrown, finalize}

-- Pushing steps, the first one first.
unfoldable pub push_all : (PathStep → ErrorPath → ErrorPath) → List PathStep → ErrorPath → ErrorPath
push_all add [] p = p
push_all add (s ∷ ss) p = push_all add ss (add s p)

abbrev open_path : List PathStep → Bool → ErrorPath
open_path qs t = record { steps = qs; truncated = t; finalized = false }

abbrev root_first : List PathStep → Bool → ErrorPath
root_first qs t = record { steps = qs; truncated = t; finalized = true }

-- How a push changes a path that is not finalized.
abbrev Extends : (PathStep → ErrorPath → ErrorPath) → Type 0
Extends add =
    (s : PathStep) (qs : List PathStep) (t : Bool)
    → (length qs < 16 → add s (open_path qs t) ≡ open_path (qs ++ (s ∷ [])) t)
      × (length qs ≡ 16 → add s (open_path qs t) ≡ open_path qs true)

push-Extends : Extends push
unfolding push
push-Extends s qs t = (λ room. ground arith, λ full. ground arith)

push_thrown-Extends : Extends push_thrown
unfolding push_thrown
push_thrown-Extends s qs t = (λ room. ground arith, λ full. ground arith)

push-late :
    (s : PathStep) (qs : List PathStep) (t : Bool)
    → length qs < 16
    → push s (root_first qs t) ≡ root_first (s ∷ qs) t
unfolding push
push-late s qs t room = ground arith

take-all {ℓ} : {A : Type ℓ} (n : ℕ) (xs : List A) → length xs ≤ n → take n xs ≡ xs
take-all zero [] h = refl
take-all (suc n) [] h = refl
take-all zero (x ∷ xs) h = absurd (omega arith)
take-all (suc n) (x ∷ xs) h = ap (◌∷◌ x) (take-all n xs (omega arith))

take-front {ℓ} : {A : Type ℓ} (n : ℕ) (xs ys : List A) → length xs ≡ n → take n (xs ++ ys) ≡ xs
take-front n xs ys h = rw (sym h) (take-append xs ys)

length-reverse {ℓ} : {A : Type ℓ} (xs : List A) → length (reverse xs) ≡ length xs
length-reverse [] = refl
length-reverse (x ∷ xs) =
    rw (reverse-cons x xs) (omega (arith, length-append (reverse xs) (x ∷ []), length-reverse xs))

or-true : (t : Bool) → (t || true) ≡ true
or-true true = refl
or-true false = refl

or-false : (t : Bool) → (t || false) ≡ t
or-false true = refl
or-false false = refl

still-full : (t : Bool) (n : ℕ) → 16 < n → true ≡ (t || ltb 16 n)
still-full t n h = sym (ap (λ b. t || b) (lt→ltb 16 n h) ∙ or-true t)

push_all-open :
    (add : PathStep → ErrorPath → ErrorPath) (extends : Extends add) (ss qs : List PathStep)
    (t : Bool)
    → length qs ≤ 16
    → push_all add ss (open_path qs t)
      ≡ open_path (take 16 (qs ++ ss)) (t || ltb 16 (length qs + length ss))
unfolding push_all
push_all-open add extends [] qs t few =
    ap₂ open_path (sym (ap (take 16) (append-nil qs) ∙ take-all 16 qs few))
      (sym (ap (λ b. t || b) (le→not_ltb 16 (length qs + 0) (omega arith)) ∙ or-false t))
push_all-open add extends (s ∷ ss) qs t few = elim (Bool-cases (ltb (length qs) 16)) [
  | inl room ↦
      ap (push_all add ss) ((extends s qs t).0 (ltb→lt (length qs) 16 room))
      ∙ push_all-open add extends ss (qs ++ (s ∷ [])) t
          (omega (arith, length-append qs (s ∷ []), ltb→lt (length qs) 16 room))
      ∙ ap₂ open_path (ap (take 16) (append_assoc qs (s ∷ []) ss))
          (ap (λ n. t || ltb 16 n) (omega (arith, length-append qs (s ∷ []))))
  | inr full ↦
      let all : length qs ≡ 16 = omega (arith, not_ltb→le (length qs) 16 full) in
      ap (push_all add ss) ((extends s qs t).1 all)
      ∙ push_all-open add extends ss qs true few
      ∙ ap₂ open_path (take-front 16 qs ss all ∙ sym (take-front 16 qs (s ∷ ss) all))
          (still-full t (length qs + suc (length ss)) (omega arith))
]

push_all-late :
    (ls qs : List PathStep) (t : Bool)
    → length qs + length ls ≤ 16
    → push_all push ls (root_first qs t) ≡ root_first (reverse ls ++ qs) t
unfolding push_all
push_all-late [] qs t few = refl
push_all-late (s ∷ ls) qs t few =
    ap (push_all push ls) (push-late s qs t (omega arith))
    ∙ push_all-late ls (s ∷ qs) t (omega arith)
    ∙ ap (λ qs. root_first qs t)
        (sym (ap (◌++ qs) (reverse-cons s ls) ∙ append_assoc (reverse ls) (s ∷ []) qs))

finalize-open :
    (add : PathStep → ErrorPath → ErrorPath) (extends : Extends add) (ss : List PathStep)
    → finalize (push_all add ss new_path) ≡ root_first (reverse (take 16 ss)) (ltb 16 (length ss))
unfolding finalize
finalize-open add extends ss =
    ap finalize (push_all-open add extends ss [] false (omega arith))
    ∙ ap (λ n. root_first (reverse (take 16 ss)) (ltb 16 n)) (omega arith)

-- When steps are pushed leaf-first on a new path, by the `push` of `error` or of `encode_error`,
-- `finalize` leaves the first 16 of them, those next to the leaf, root-first, with the mark that
-- the path is truncated exactly if there were more.
pub finalize-push_all :
    (ss : List PathStep)
    → (finalize (push_all push ss new_path)
        ≡ root_first (reverse (take 16 ss)) (ltb 16 (length ss)))
      × (finalize (push_all push_thrown ss new_path)
          ≡ root_first (reverse (take 16 ss)) (ltb 16 (length ss)))
finalize-push_all ss =
    (finalize-open push push-Extends ss, finalize-open push_thrown push_thrown-Extends ss)

few-steps :
    (ss : List PathStep)
    → length ss ≤ 16
    → finalize (push_all push ss new_path) ≡ root_first (reverse ss) false
few-steps ss few =
    finalize-open push push-Extends ss
    ∙ ap₂ root_first (ap reverse (take-all 16 ss few)) (le→not_ltb 16 (length ss) few)

-- As long as there are at most 16 steps, those that are pushed after `finalize` come to the same
-- path as if they had been pushed before it, with `finalize` last.
pub push_all-finalize :
    (ss ls : List PathStep)
    → length ss + length ls ≤ 16
    → push_all push ls (finalize (push_all push ss new_path))
      ≡ finalize (push_all push (ss ++ ls) new_path)
push_all-finalize ss ls few =
    ap (push_all push ls) (few-steps ss (omega arith))
    ∙ push_all-late ls (reverse ss) false (omega (arith, length-reverse ss))
    ∙ ap (λ qs. root_first qs false) (sym (reverse-append ss ls))
    ∙ sym (few-steps (ss ++ ls) (omega (arith, length-append ss ls)))
