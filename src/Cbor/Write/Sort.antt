-- ===== src/Cbor/Write/Sort.antt =====
-- `std::stable_sort` by a byte-string key, as `close` calls it: an insertion sort that puts an
-- item before the first one whose key is not less.
pub mod Laws
pub mod Order
use v_codec.Base.{
  List, [], ◌∷◌, Bytes, bytes_less, bytes_equal, Bool, true, false, ◌||◌, if◌then◌else◌,
}

module _ {ℓ} {A : Type ℓ} (key : A → Bytes) where
  unfoldable pub insert : A → List A → List A
  insert x [] = x ∷ []
  insert x (y ∷ ys) = if bytes_less (key y) (key x) then y ∷ insert x ys else x ∷ y ∷ ys

  unfoldable pub stable_sort : List A → List A
  unfolding insert
  stable_sort [] = []
  stable_sort (x ∷ xs) = insert x (stable_sort xs)

  -- The loop over neighbours that looks for two equal keys.
  unfoldable pub has_duplicate : List A → Bool
  has_duplicate [] = false
  has_duplicate (x ∷ []) = false
  has_duplicate (x ∷ y ∷ ys) = bytes_equal (key x) (key y) || has_duplicate (y ∷ ys)
