-- ===== src/Cbor/Write/Sort/Order.antt =====
-- The order of the map keys that `close` writes, and the check that the reader makes of it.
use v_codec.Base.{
  ℕ, Bool, true, false, not, ◌&&◌, none, some, List, [], ◌∷◌, Bytes, bytes_less, bytes_equal,
  if◌then◌else◌, ◌≡◌, ◌↔◌, refl, ◌∙◌, arith, Bool-cases, inl, inr,
}
use v_codec.Core.Error.{Error}
use v_codec.Cbor.Write.Sort.{insert, stable_sort, has_duplicate}
use v_codec.Cbor.Read.State.{key_order_error}

-- Two byte strings are equal, or one is less.
bytes_less-total :
    (x y : Bytes) → bytes_less x y ≡ false → bytes_equal y x ≡ false → bytes_less y x ≡ true
bytes_less-total [] [] h e = absurd cc
bytes_less-total [] (b ∷ y) h e = absurd cc
bytes_less-total (a ∷ x) [] h e = refl
bytes_less-total (a ∷ x) (b ∷ y) h e = ground (arith, bytes_less-total x y)

bytes_less-asym : (x y : Bytes) → bytes_less x y ≡ true → bytes_less y x ≡ false
bytes_less-asym [] [] h = refl
bytes_less-asym [] (b ∷ y) h = refl
bytes_less-asym (a ∷ x) [] h = absurd cc
bytes_less-asym (a ∷ x) (b ∷ y) h = ground (arith, bytes_less-asym x y)

bytes_equal-sym : (x y : Bytes) → bytes_equal x y ≡ bytes_equal y x
bytes_equal-sym [] [] = refl
bytes_equal-sym [] (b ∷ y) = refl
bytes_equal-sym (a ∷ x) [] = refl
bytes_equal-sym (a ∷ x) (b ∷ y) = ground (arith, bytes_equal-sym x y)

module _ {ℓ} {A : Type ℓ} (key : A → Bytes) where
  -- No item is less than the one before it.
  abbrev Weak : List A → Type 0
  Weak [] = Unit
  Weak (x ∷ []) = Unit
  Weak (x ∷ y ∷ ys) = (bytes_less (key y) (key x) ≡ false) × Weak (y ∷ ys)

  -- Behind `y`, an item that is inserted does not come before it.
  Weak-insert :
      (x y : A) (ys : List A)
      → Weak (y ∷ ys)
      → bytes_less (key x) (key y) ≡ false
      → Weak (y ∷ insert key x ys)
  unfolding insert
  Weak-insert x y [] h e = (e, tt)
  Weak-insert x y (z ∷ ys) (first, h) e = elim (Bool-cases (bytes_less (key z) (key x))) [
    | inl b ↦ rw b (first, Weak-insert x z ys h (bytes_less-asym (key z) (key x) b))
    | inr b ↦ rw b (e, (b, h))
  ]

  insert-Weak : (x : A) (ys : List A) → Weak ys → Weak (insert key x ys)
  unfolding insert
  insert-Weak x [] h = tt
  insert-Weak x (y ∷ ys) h = elim (Bool-cases (bytes_less (key y) (key x))) [
    | inl b ↦ rw b (Weak-insert x y ys h (bytes_less-asym (key y) (key x) b))
    | inr b ↦ rw b (b, h)
  ]

  stable_sort-Weak : (xs : List A) → Weak (stable_sort key xs)
  unfolding stable_sort
  stable_sort-Weak [] = tt
  stable_sort-Weak (x ∷ xs) = insert-Weak x (stable_sort key xs) (stable_sort-Weak xs)

  -- Each key passes the reader's check against the key before it, wherever it stands.
  abbrev pub InKeyOrder : List A → Type 0
  InKeyOrder [] = Unit
  InKeyOrder (x ∷ []) = Unit
  InKeyOrder (x ∷ y ∷ ys) =
      ((start : ℕ) → key_order_error (key y) (key x) start ≡ none) × InKeyOrder (y ∷ ys)

  key_order :
      (x y : A)
      → bytes_less (key y) (key x) ≡ false
      → bytes_equal (key x) (key y) ≡ false
      → (start : ℕ) → key_order_error (key y) (key x) start ≡ none
  unfolding key_order_error
  key_order x y less equal start =
      let equal' : bytes_equal (key y) (key x) ≡ false = bytes_equal-sym (key y) (key x) ∙ equal in
      rw (less, equal')

  Weak-InKeyOrder : (xs : List A) → Weak xs → has_duplicate key xs ≡ false → InKeyOrder xs
  unfolding has_duplicate
  Weak-InKeyOrder [] h e = tt
  Weak-InKeyOrder (x ∷ []) h e = tt
  Weak-InKeyOrder (x ∷ y ∷ ys) (first, h) e =
      (key_order x y first (ground arith), Weak-InKeyOrder (y ∷ ys) h (ground arith))

  -- Where the sorted entries have no two neighbours with the same key, so that `close` does not
  -- throw, each key passes the reader's `key_order_error` against the key before it.
  pub stable_sort-InKeyOrder :
      (xs : List A)
      → has_duplicate key (stable_sort key xs) ≡ false
      → InKeyOrder (stable_sort key xs)
  stable_sort-InKeyOrder xs e = Weak-InKeyOrder (stable_sort key xs) (stable_sort-Weak xs) e

bytes_equal-less : (x y : Bytes) → bytes_equal y x ≡ true → bytes_less x y ≡ false
bytes_equal-less [] [] h = refl
bytes_equal-less [] (b ∷ y) h = absurd cc
bytes_equal-less (a ∷ x) [] h = absurd cc
bytes_equal-less (a ∷ x) (b ∷ y) h = ground (arith, bytes_equal-less x y)

passes :
    (less equal before : Bool) (e : Error)
    → (less ≡ true → before ≡ false)
    → (equal ≡ true → before ≡ false)
    → (less ≡ false → equal ≡ false → before ≡ true)
    → ((if not less && not equal then none else some e) ≡ none) ↔ (before ≡ true)
passes true equal before e l q n = ((λ h. absurd cc), λ h. absurd (cc (l refl, h)))
passes false true before e l q n = ((λ h. absurd cc), λ h. absurd (cc (q refl, h)))
passes false false before e l q n = ((λ _. n refl refl), λ _. refl)

-- The reader's check of the key order lets a key pass exactly where the key before it is less,
-- bytewise.
pub key_order_error_lem :
    (cur prev : Bytes) (start : ℕ)
    → (key_order_error cur prev start ≡ none) ↔ (bytes_less prev cur ≡ true)
unfolding key_order_error
key_order_error_lem cur prev start =
    passes (bytes_less cur prev) (bytes_equal cur prev) (bytes_less prev cur) _
      (bytes_less-asym cur prev) (bytes_equal-less prev cur) (bytes_less-total' cur prev)
  where
    bytes_less-total' :
        (x y : Bytes) → bytes_less x y ≡ false → bytes_equal x y ≡ false → bytes_less y x ≡ true
    bytes_less-total' x y h e = bytes_less-total x y h (bytes_equal-sym y x ∙ e)
