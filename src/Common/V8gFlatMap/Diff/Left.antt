-- ===== src/Common/V8gFlatMap/Diff/Left.antt =====
-- `visitDiff`: what a rewind and a compared item leave of the old items.
use voxen.Prelude.{
  true, sym, ap, ◌∙◌, ℕ, ◌≡◌, ◌<◌, ◌≤◌, refl, Bool, false, List, [], ◌∷◌, Option, none, some, arith,
  ◌==◌, if◌then◌else◌, ◌||◌, leb, leb→le, Bool-cases, inl, inr,
}
use voxen.Common.V8gFlatMap.{Key, Item, Change, key_lt, key_eq, find, compare_item, rewind}
use voxen.Common.V8gFlatMap.Order.{
  Above, IsSorted, find-cons, Above-mono, find_below, IsSorted-of-Above,
}
use voxen.Common.V8gFlatMap.Diff.{removed_change, removals, emit}

module _ {ℓ κ} {K : Type ℓ} ⦃o : Key K⦄ {V : Type κ} where
  -- All changes notified for a key, in their order.
  abbrev pub changes_of : K → List (Change K V) → List (Change K V)
  changes_of k [] = []
  changes_of k (c ∷ cs) = let rest = changes_of k cs in if key_eq c.key k then c ∷ rest else rest

  -- Some item of the list has a larger key.
  abbrev pub any_above : K → List (Item K V) → Bool
  any_above k [] = false
  any_above k (m ∷ ms) = key_lt k m.key || any_above k ms

  -- What has to be notified for a key, from its items in the new and in the old map. A removal
  -- is due only if the flag is set.
  abbrev pub due : Bool → Option (Item K V) → Option (Item K V) → Option (Change K V)
  due flag none none = none
  due flag none (some x) = if flag then some (removed_change x) else none
  due flag (some m) none = some (record { key = m.key; new_value = some m.value; old_value = none })
  due flag (some m) (some x) =
      if x.version == m.version
      then none
      else some (record { key = m.key; new_value = some m.value; old_value = some x.value })

  pub find_below_if :
      (r : ℕ) (j : K) (xs : List (Item K V))
      → Above r xs
      → (if leb (o.rank j) r then find j xs else none) ≡ none
  find_below_if r j xs a = elim (Bool-cases (leb (o.rank j) r)) [
    | inl e ↦ rw e (find_below r j xs a (leb→le _ _ e))
    | inr e ↦ rw e
  ]

  pub find-nil : (j : K) → find {V = V} j [] ≡ none
  unfolding find
  find-nil j = refl

  rewind-Above : (r : ℕ) (k : K) (old : List (Item K V)) → Above r old → Above r (rewind k old)
  unfolding rewind
  rewind-Above r k [] a = tt
  rewind-Above r k (x ∷ old) a =
      ground
        (arith, rewind-Above (o.rank x.key) k old a.1, Above-mono r (o.rank x.key) (rewind k old))

  pub rewind-IsSorted : (k : K) (old : List (Item K V)) → IsSorted old → IsSorted (rewind k old)
  unfolding rewind
  rewind-IsSorted k [] s = tt
  rewind-IsSorted k (x ∷ old) s =
      ground (
        arith,
        rewind-Above (o.rank x.key) k old s,
        IsSorted-of-Above (o.rank x.key) (rewind k old),
      )

  pub find-rewind_below :
      (j k : K) (old : List (Item K V)) → o.rank j < o.rank k → find j (rewind k old) ≡ none
  unfolding rewind find
  find-rewind_below j k [] h = refl
  find-rewind_below j k (x ∷ old) h = ground (arith, find-cons j x old, find-rewind_below j k old h)

  pub find-rewind_self : (k : K) (old : List (Item K V)) → find k (rewind k old) ≡ find k old
  unfolding rewind
  find-rewind_self k [] = refl
  find-rewind_self k (x ∷ old) = ground (arith, find-cons k x old, find-rewind_self k old)

  abbrev pub removal : Option (Item K V) → Option (Change K V)
  removal none = none
  removal (some x) = some (removed_change x)

  pub changes_of-removals :
      (j k : K) (old : List (Item K V)) (cs : List (Change K V))
      → IsSorted old
      → changes_of j (removals k old cs)
        ≡ (if key_lt j k then emit (removal (find j old)) (changes_of j cs) else changes_of j cs)
  unfolding find
  changes_of-removals j k [] cs s = ground arith
  changes_of-removals j k (x ∷ old) cs s =
      let ih = changes_of-removals j k old cs (IsSorted-of-Above (o.rank x.key) old s) in
      elim (Bool-cases (key_lt x.key k)) [
        | inl low ↦ elim (Bool-cases (key_lt x.key j)) [
          | inl passed ↦
              let other : key_eq x.key j ≡ false = ground arith in
              rw (low, other, find-cons j x old, passed) ih
          | inr here ↦
              let below : key_lt j k ≡ true = ground arith in
              let first : leb (o.rank j) (o.rank x.key) ≡ true = ground arith in
              let gone : find j old ≡ none =
                ap (λ b. if b then find j old else none) (sym first)
                ∙ find_below_if (o.rank x.key) j old s in
              let later : changes_of j (removals k old cs) ≡ changes_of j cs =
                ih ∙ rw (below, gone) refl in
              elim (Bool-cases (key_eq x.key j)) [
                | inl same ↦ rw (low, same, below, find-cons j x old, here, same, later) refl
                | inr other ↦ rw (low, other, below, find-cons j x old, here, other, later) refl
              ]
        ]
        | inr high ↦ elim (Bool-cases (key_lt j k)) [
          | inl below ↦
              let here : key_lt x.key j ≡ false = ground arith in
              let other : key_eq x.key j ≡ false = ground arith in
              rw (high, below, find-cons j x old, here, other) refl
          | inr above ↦ rw (high, above) refl
        ]
      ]

  -- The first item, if any, has no lesser key.
  abbrev pub HeadFits : K → List (Item K V) → Type 0
  HeadFits k [] = Unit {0}
  HeadFits k (x ∷ xs) = o.rank k ≤ o.rank x.key

  pub rewind-HeadFits : (k : K) (old : List (Item K V)) → HeadFits k (rewind k old)
  unfolding rewind
  rewind-HeadFits k [] = tt
  rewind-HeadFits k (x ∷ old) = ground (arith, rewind-HeadFits k old)

  pub left-IsSorted :
      (m : Item K V) (rest : List (Item K V)) → IsSorted rest → IsSorted (compare_item m rest).1
  unfolding compare_item
  left-IsSorted m [] s = tt
  left-IsSorted m (x ∷ r) s = ground (arith, IsSorted-of-Above (o.rank x.key) r s)

  pub compare_item-due :
      (m : Item K V) (rest : List (Item K V)) (flag : Bool)
      → HeadFits m.key rest
      → (compare_item m rest).0 ≡ due flag (some m) (find m.key rest)
  unfolding compare_item find
  compare_item-due m [] flag h = refl
  compare_item-due m (x ∷ r) flag h = ground (arith, find-cons m.key x r)

  pub find-left_above :
      (k : K) (m : Item K V) (rest : List (Item K V))
      → o.rank m.key < o.rank k
      → find k (compare_item m rest).1 ≡ find k rest
  unfolding compare_item
  find-left_above k m [] h = refl
  find-left_above k m (x ∷ r) h = ground (arith, find-cons k x r)

  -- At or below the new item's key nothing is left, once the item under that key is taken.
  pub find-left_below :
      (k : K) (m : Item K V) (rest : List (Item K V))
      → HeadFits m.key rest
      → IsSorted rest
      → o.rank k < o.rank m.key
      → find k (compare_item m rest).1 ≡ none
  unfolding compare_item find
  find-left_below k m [] f s h = refl
  find-left_below k m (x ∷ r) f s h =
      ground (arith, find-cons k x r, find_below_if (o.rank x.key) k r s)

  -- The old item of the key is taken, whether or not a change is notified.
  pub find-left_self :
      (m : Item K V) (rest : List (Item K V))
      → HeadFits m.key rest
      → IsSorted rest
      → find m.key (compare_item m rest).1 ≡ none
  unfolding compare_item find
  find-left_self m [] f s = refl
  find-left_self m (x ∷ r) f s =
      let here : key_lt x.key m.key ≡ false = ground arith in
      elim (Bool-cases (key_eq x.key m.key)) [
        | inl same ↦
            let first : leb (o.rank m.key) (o.rank x.key) ≡ true = ground arith in
            let gone : find m.key r ≡ none =
              ap (λ b. if b then find m.key r else none) (sym first)
              ∙ find_below_if (o.rank x.key) m.key r s in
            ground (arith, same, gone)
        | inr other ↦ rw (other, find-cons m.key x r, here, other) refl
      ]

  pub changes_of-emit :
      (k : K) (m : Item K V) (rest : List (Item K V)) (cs : List (Change K V))
      → changes_of k (emit (compare_item m rest).0 cs) ≡ (
          if key_eq m.key k
          then emit (compare_item m rest).0 (changes_of k cs)
          else changes_of k cs)
  unfolding compare_item
  changes_of-emit k m [] cs = ground arith
  changes_of-emit k m (x ∷ r) cs = ground arith
