-- ===== src/Common/V8gFlatMap/Laws.antt =====
-- The mutable map as a finite map with versions: what each operation does to every key.
use voxen.Prelude.{
  ℕ, ◌≡◌, ◌<◌, refl, List, [], ◌∷◌, Option, none, some, arith, leb, leb→le, Bool-cases, inl, inr,
  if◌then◌else◌,
}
use voxen.Common.V8gFlatMap.{Key, Item, key_eq, insert, erase, find_mutable, find}
use voxen.Common.V8gFlatMap.Order.{
  Above, IsSorted, insert-cons, find-cons, erase-cons, find_mutable-cons, Above-mono, find_below,
  IsSorted-of-Above,
}

module _ {ℓ κ} {K : Type ℓ} ⦃o : Key K⦄ {V : Type κ} where
  insert-Above :
      (r t : ℕ) (k : K) (v : V) (xs : List (Item K V))
      → Above r xs
      → r < o.rank k
      → Above r (insert t k v xs)
  unfolding insert
  insert-Above r t k v [] a h = (h, tt)
  insert-Above r t k v (x ∷ xs) a h =
      ground (arith, insert-cons t k v x xs, insert-Above (o.rank x.key) t k v xs a.1)

  erase-Above : (r : ℕ) (k : K) (xs : List (Item K V)) → Above r xs → Above r (erase k xs)
  unfolding erase
  erase-Above r k [] a = tt
  erase-Above r k (x ∷ xs) a = ground (
    arith,
    erase-cons k x xs,
    erase-Above (o.rank x.key) k xs a.1,
    Above-mono r (o.rank x.key) xs,
  )

  touch-Above :
      (r t : ℕ) (k : K) (xs : List (Item K V)) → Above r xs → Above r (find_mutable t k xs).1
  unfolding find_mutable
  touch-Above r t k [] a = tt
  touch-Above r t k (x ∷ xs) a =
      ground (arith, find_mutable-cons t k x xs, touch-Above (o.rank x.key) t k xs a.1)

  -- `insert`, `erase` and the mutable `find` keep the items sorted by key, without duplicates.
  pub update-IsSorted :
      (t : ℕ) (k : K) (v : V) (xs : List (Item K V))
      → IsSorted xs
      → IsSorted (insert t k v xs) × IsSorted (erase k xs) × IsSorted (find_mutable t k xs).1
  unfolding insert erase find_mutable
  update-IsSorted t k v [] s = (tt, tt, tt)
  update-IsSorted t k v (x ∷ xs) s = (
    ground (arith, insert-cons t k v x xs, insert-Above (o.rank x.key) t k v xs s),
    ground (
      arith,
      erase-cons k x xs,
      erase-Above (o.rank x.key) k xs s,
      IsSorted-of-Above (o.rank x.key) xs s,
    ),
    ground (arith, find_mutable-cons t k x xs, touch-Above (o.rank x.key) t k xs s),
  )

  find-insert_nil :
      (t : ℕ) (k j : K) (v : V)
      → find {V = V} j (insert t k v [])
        ≡ (if key_eq k j then some (record { version = t; key = k; value = v }) else none)
  unfolding insert find
  find-insert_nil t k j v = ground arith

  find-nil : (j : K) → find {V = V} j [] ≡ none
  unfolding find
  find-nil j = refl

  -- After `insert` into sorted items the key is found with the new version and value, and every
  -- other key as before.
  pub find-insert :
      (t : ℕ) (k j : K) (v : V) (xs : List (Item K V))
      → IsSorted xs
      → find j (insert t k v xs)
        ≡ (if key_eq k j then some (record { version = t; key = k; value = v }) else find j xs)
  find-insert t k j v [] s = rw find-nil (find-insert_nil t k j v)
  find-insert t k j v (x ∷ xs) s = ground (
    arith,
    insert-cons t k v x xs,
    find-cons j x xs,
    find-cons j x (insert t k v xs),
    find-cons j (record x { version = t; value = v }) xs,
    find-cons j (record { version = t; key = k; value = v }) (x ∷ xs),
    o.rank_injective x.key k,
    find-insert t k j v xs (IsSorted-of-Above (o.rank x.key) xs s),
  )

  erase-nil : (j : K) → erase {V = V} j [] ≡ []
  unfolding erase
  erase-nil j = refl

  find_below_if :
      (r : ℕ) (j : K) (xs : List (Item K V))
      → Above r xs
      → (if leb (o.rank j) r then find j xs else none) ≡ none
  find_below_if r j xs a = elim (Bool-cases (leb (o.rank j) r)) [
    | inl e ↦ rw e (find_below r j xs a (leb→le _ _ e))
    | inr e ↦ rw e
  ]

  -- After `erase` from sorted items the key is not found, and every other key is found as before.
  pub find-erase :
      (k j : K) (xs : List (Item K V))
      → IsSorted xs
      → find j (erase k xs) ≡ (if key_eq k j then none else find j xs)
  find-erase k j [] s = rw (erase-nil, find-nil) (ground arith)
  find-erase k j (x ∷ xs) s = ground (
    arith,
    erase-cons k x xs,
    find-cons j x xs,
    find-cons j x (erase k xs),
    find_below_if (o.rank x.key) j xs s,
    find-erase k j xs (IsSorted-of-Above (o.rank x.key) xs s),
  )

  find_mutable-nil : (t : ℕ) (j : K) → find_mutable {V = V} t j [] ≡ (none, [])
  unfolding find_mutable
  find_mutable-nil t j = refl

  abbrev pub value_of : Option (Item K V) → Option V
  value_of none = none
  value_of (some x) = some x.value

  abbrev pub bump : ℕ → Option (Item K V) → Option (Item K V)
  bump t none = none
  bump t (some x) = some (record x { version = t })

  -- On sorted items, the mutable `find` returns the value that the const `find` sees, sets that
  -- item's version to the timeline, and changes no other item.
  pub find-find_mutable :
      (t : ℕ) (k j : K) (xs : List (Item K V))
      → IsSorted xs
      → ((find_mutable t k xs).0 ≡ value_of (find k xs))
        × (find j (find_mutable t k xs).1 ≡ (if key_eq k j then bump t (find j xs) else find j xs))
  find-find_mutable t k j [] s = rw (find_mutable-nil, find-nil, find-nil) (refl, ground arith)
  find-find_mutable t k j (x ∷ xs) s =
      let ih = find-find_mutable t k j xs (IsSorted-of-Above (o.rank x.key) xs s) in
      (
        ground (arith, find_mutable-cons t k x xs, find-cons k x xs, ih),
        ground (
          arith,
          find_mutable-cons t k x xs,
          find-cons j x xs,
          find-cons j x (find_mutable t k xs).1,
          find-cons j (record x { version = t }) xs,
          ih,
        ),
      )

  -- On sorted items, with every key asked for: `insert` gives its key the new value with the timeline
  -- as its version, `erase` removes its key, and the mutable `find` returns the value that the const
  -- `find` sees and sets that item's version to the timeline; each leaves the other keys as they
  -- were, and keeps the items sorted by key, without duplicates.
  pub update_lem :
      (t : ℕ) (k : K) (v : V) (xs : List (Item K V))
      → IsSorted xs
      → ((j : K)
          → find j (insert t k v xs)
            ≡ (if key_eq k j then some (record { version = t; key = k; value = v }) else find j xs))
        × ((j : K) → find j (erase k xs) ≡ (if key_eq k j then none else find j xs))
        × ((find_mutable t k xs).0 ≡ value_of (find k xs))
        × ((j : K)
            → find j (find_mutable t k xs).1
              ≡ (if key_eq k j then bump t (find j xs) else find j xs))
        × IsSorted (insert t k v xs)
        × IsSorted (erase k xs)
        × IsSorted (find_mutable t k xs).1
  update_lem t k v xs s =
      let sorted = update-IsSorted t k v xs s in
      (
        λ j. find-insert t k j v xs s,
        λ j. find-erase k j xs s,
        (find-find_mutable t k k xs s).0,
        λ j. (find-find_mutable t k j xs s).1,
        sorted.0,
        sorted.1,
        sorted.2,
      )
