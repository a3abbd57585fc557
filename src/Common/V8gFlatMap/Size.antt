-- ===== src/Common/V8gFlatMap/Size.antt =====
-- How many items the flat map has after `insert` and `erase`.
use voxen.Prelude.{
  none, false, ◌<◌, ℕ, suc, ◌-◌, ◌≡◌, refl, List, [], ◌∷◌, length, arith, if◌then◌else◌, is_none,
}
use voxen.Common.V8gFlatMap.{Key, Item, insert, erase, find}
use voxen.Common.V8gFlatMap.Laws.{update-IsSorted}
use voxen.Common.V8gFlatMap.Order.{
  IsSorted, insert-cons, find-cons, erase-cons, find_below, IsSorted-of-Above,
}

module _ {ℓ κ} {K : Type ℓ} ⦃o : Key K⦄ {V : Type κ} where
  pub length-insert :
      (t : ℕ) (k : K) (v : V) (xs : List (Item K V))
      → IsSorted xs
      → length (insert t k v xs) ≡ (if is_none (find k xs) then suc (length xs) else length xs)
  unfolding insert find
  length-insert t k v [] s = refl
  length-insert t k v (x ∷ xs) s = ground (
    arith,
    insert-cons t k v x xs,
    find-cons k x xs,
    find_below (o.rank x.key) k xs s,
    length-insert t k v xs (IsSorted-of-Above (o.rank x.key) xs s),
  )

  length-erase_nil :
      (k : K) (xs : List (Item K V))
      → length xs ≡ 0
      → length (erase k xs) ≡ (if is_none (find k xs) then 0 else 0)
  unfolding erase find
  length-erase_nil k [] e = refl
  length-erase_nil k (x ∷ xs) e = absurd (omega (arith, e))

  find_nonempty : (k : K) (xs : List (Item K V)) → is_none (find k xs) ≡ false → 0 < length xs
  unfolding find
  find_nonempty k [] e = absurd (ground (arith, e))
  find_nonempty k (x ∷ xs) e = omega arith

  pub length-erase :
      (k : K) (xs : List (Item K V))
      → IsSorted xs
      → length (erase k xs) ≡ (if is_none (find k xs) then length xs else length xs - 1)
  length-erase k [] s = length-erase_nil k [] refl
  length-erase k (x ∷ xs) s = ground (
    arith,
    erase-cons k x xs,
    find-cons k x xs,
    find_nonempty k xs,
    length-erase k xs (IsSorted-of-Above (o.rank x.key) xs s),
  )

  pub erase-IsSorted : (k : K) (xs : List (Item K V)) → IsSorted xs → IsSorted (erase k xs)
  unfolding erase
  erase-IsSorted k [] s = tt
  erase-IsSorted k (x ∷ xs) s = (update-IsSorted 0 k x.value (x ∷ xs) s).1

  pub find-nil : (l : K) → find {V = V} l [] ≡ none
  unfolding find
  find-nil l = refl
