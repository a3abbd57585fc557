-- ===== src/Common/V8gFlatMap/Order.antt =====
-- Sorted item lists, and each operation of the map as a walk along them.
use voxen.Prelude.{ℕ, ◌≡◌, ◌<◌, ◌≤◌, ◌∙◌, refl, List, [], ◌∷◌, none, some, arith, if◌then◌else◌}
use voxen.Common.V8gFlatMap.{
  Key, Item, key_lt, key_eq, lower_bound, insert, erase, find_mutable, find,
}

module _ {ℓ κ} {K : Type ℓ} ⦃o : Key K⦄ {V : Type κ} where
  -- Every key lies above the rank, and the keys rise along the list.
  abbrev pub Above : ℕ → List (Item K V) → Type 0
  Above r [] = Unit {0}
  Above r (x ∷ xs) = (r < o.rank x.key) × Above (o.rank x.key) xs

  abbrev pub IsSorted : List (Item K V) → Type 0
  IsSorted [] = Unit {0}
  IsSorted (x ∷ xs) = Above (o.rank x.key) xs

  pub insert-cons :
      (t : ℕ) (k : K) (v : V) (x : Item K V) (xs : List (Item K V))
      → insert t k v (x ∷ xs) ≡ (
          if key_lt x.key k
          then x ∷ insert t k v xs
          else (if key_eq x.key k
              then record x { version = t; value = v } ∷ xs
              else record { version = t; key = k; value = v } ∷ x ∷ xs))
  unfolding insert
  insert-cons t k v x xs = step (lower_bound k xs) refl
    where
      step :
          (c : List (Item K V) × List (Item K V))
          → lower_bound k xs ≡ c
          → insert t k v (x ∷ xs) ≡ (
              if key_lt x.key k
              then x ∷ insert t k v xs
              else (if key_eq x.key k
                  then record x { version = t; value = v } ∷ xs
                  else record { version = t; key = k; value = v } ∷ x ∷ xs))
      step (b, []) e = ground arith
      step (b, y ∷ r) e = ground arith

  pub find-cons :
      (k : K) (x : Item K V) (xs : List (Item K V))
      → find k (x ∷ xs)
        ≡ (if key_lt x.key k then find k xs else (if key_eq x.key k then some x else none))
  unfolding find
  find-cons k x xs = step (lower_bound k xs) refl
    where
      step :
          (c : List (Item K V) × List (Item K V))
          → lower_bound k xs ≡ c
          → find k (x ∷ xs)
            ≡ (if key_lt x.key k then find k xs else (if key_eq x.key k then some x else none))
      step (b, []) e = ground arith
      step (b, y ∷ r) e = ground arith

  pub erase-cons :
      (k : K) (x : Item K V) (xs : List (Item K V))
      → erase k (x ∷ xs)
        ≡ (if key_lt x.key k then x ∷ erase k xs else (if key_eq x.key k then xs else x ∷ xs))
  unfolding erase
  erase-cons k x xs = step (lower_bound k xs) refl
    where
      step :
          (c : List (Item K V) × List (Item K V))
          → lower_bound k xs ≡ c
          → erase k (x ∷ xs)
            ≡ (if key_lt x.key k then x ∷ erase k xs else (if key_eq x.key k then xs else x ∷ xs))
      step (b, []) e = ground arith
      step (b, y ∷ r) e = ground arith

  pub find_mutable-cons :
      (t : ℕ) (k : K) (x : Item K V) (xs : List (Item K V))
      → find_mutable t k (x ∷ xs) ≡ (
          if key_lt x.key k
          then ((find_mutable t k xs).0, x ∷ (find_mutable t k xs).1)
          else (if key_eq x.key k
              then (some x.value, record x { version = t } ∷ xs)
              else (none, x ∷ xs)))
  unfolding find_mutable
  find_mutable-cons t k x xs = step (lower_bound k xs) refl
    where
      step :
          (c : List (Item K V) × List (Item K V))
          → lower_bound k xs ≡ c
          → find_mutable t k (x ∷ xs) ≡ (
              if key_lt x.key k
              then ((find_mutable t k xs).0, x ∷ (find_mutable t k xs).1)
              else (if key_eq x.key k
                  then (some x.value, record x { version = t } ∷ xs)
                  else (none, x ∷ xs)))
      step (b, []) e = ground arith
      step (b, y ∷ r) e = ground arith

  pub Above-mono : (r s : ℕ) (xs : List (Item K V)) → r ≤ s → Above s xs → Above r xs
  Above-mono r s [] h a = tt
  Above-mono r s (x ∷ xs) h a = (omega arith, a.1)

  pub IsSorted-of-Above : (r : ℕ) (xs : List (Item K V)) → Above r xs → IsSorted xs
  IsSorted-of-Above r [] a = tt
  IsSorted-of-Above r (x ∷ xs) a = a.1

  -- A key at or below the bound is not found.
  pub find_below :
      (r : ℕ) (k : K) (xs : List (Item K V)) → Above r xs → o.rank k ≤ r → find k xs ≡ none
  unfolding find
  find_below r k [] a h = refl
  find_below r k (x ∷ xs) a h = find-cons k x xs ∙ ground arith
