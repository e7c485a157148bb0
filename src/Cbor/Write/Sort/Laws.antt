-- ===== src/Cbor/Write/Sort/Laws.antt =====
-- The sort depends on the keys only, and keeps the items.
use mathlib.Core.List.{map}
use v_codec.Base.{
  suc, List, [], ◌∷◌, Bytes, length, bytes_less, All, ◌≡◌, refl, ap, ◌∙◌, Bool-cases, inl, inr,
}
use v_codec.Cbor.Write.Sort.{insert, stable_sort, has_duplicate}

module _ {ℓ κ} {A : Type ℓ} {B : Type κ} (key : A → Bytes) (key' : B → Bytes) (f : A → B)
    (keeps : (a : A) → key' (f a) ≡ key a) where
  insert-map : (x : A) (ys : List A) → insert key' (f x) (map f ys) ≡ map f (insert key x ys)
  unfolding insert
  insert-map x [] = refl
  insert-map x (y ∷ ys) = elim (Bool-cases (bytes_less (key y) (key x))) [
    | inl e ↦ rw (keeps, keeps, e) (ap (◌∷◌ (f y)) (insert-map x ys))
    | inr e ↦ rw (keeps, keeps, e)
  ]

  pub stable_sort-map : (xs : List A) → stable_sort key' (map f xs) ≡ map f (stable_sort key xs)
  unfolding stable_sort
  stable_sort-map [] = refl
  stable_sort-map (x ∷ xs) = rw (stable_sort-map xs) (insert-map x (stable_sort key xs))

  pub has_duplicate-map : (xs : List A) → has_duplicate key' (map f xs) ≡ has_duplicate key xs
  unfolding has_duplicate
  has_duplicate-map [] = refl
  has_duplicate-map (x ∷ []) = refl
  has_duplicate-map (x ∷ y ∷ ys) = rw (keeps, keeps, has_duplicate-map (y ∷ ys))

module _ {ℓ} {A : Type ℓ} (key : A → Bytes) where
  length-insert : (x : A) (ys : List A) → length (insert key x ys) ≡ suc (length ys)
  unfolding insert
  length-insert x [] = refl
  length-insert x (y ∷ ys) = elim (Bool-cases (bytes_less (key y) (key x))) [
    | inl e ↦ rw e (ap suc (length-insert x ys))
    | inr e ↦ rw e
  ]

  pub length-stable_sort : (xs : List A) → length (stable_sort key xs) ≡ length xs
  unfolding stable_sort
  length-stable_sort [] = refl
  length-stable_sort (x ∷ xs) =
      length-insert x (stable_sort key xs) ∙ ap suc (length-stable_sort xs)

-- Sorting keeps what every item has.
module _ {ℓ κ} {A : Type ℓ} (key : A → Bytes) (P : A → Type κ) where
  All-insert : (x : A) (ys : List A) → P x → All P ys → All P (insert key x ys)
  unfolding insert
  All-insert x [] px h = (px, tt)
  All-insert x (y ∷ ys) px (py, h) = elim (Bool-cases (bytes_less (key y) (key x))) [
    | inl e ↦ rw e (py, All-insert x ys px h)
    | inr e ↦ rw e (px, (py, h))
  ]

  pub All-stable_sort : (xs : List A) → All P xs → All P (stable_sort key xs)
  unfolding stable_sort
  All-stable_sort [] h = tt
  All-stable_sort (x ∷ xs) (px, h) = All-insert x (stable_sort key xs) px (All-stable_sort xs h)
