-- ===== src/Common/V8gFlatMap.antt =====
-- include/voxen/common/v8g_flat_map.hpp and v8g_flat_map_impl.hpp: the sorted, versioned map.
-- `m_items` is the list of items. An iterator is the split of that list before its element.
pub mod Order
pub mod Laws
pub mod Size
pub mod Copy
pub mod Diff
mod Tests
use voxen.Prelude.{
  ℕ, ◌≡◌, ◌<◌, Bool, true, false, List, [], ◌∷◌, ◌++◌, Option, none, some, map, ltb, ◌==◌,
  if◌then◌else◌,
}

-- A key type (`CV8gKey`): totally ordered, the order being that of its ranks.
pub record Key {ℓ} (K : Type ℓ) : Type ℓ where
  pub rank : K → ℕ
  pub rank_injective : (a b : K) → rank a ≡ rank b → a ≡ b

-- `V8gMapItem`. A value stands for the object that the value pointer owns or shares.
pub record Item {ℓ κ} (K : Type ℓ) (V : Type κ) : Type (ℓ ⊔ κ) where
  pub version : ℕ
  pub key : K
  pub value : V

module _ {ℓ} {K : Type ℓ} ⦃o : Key K⦄ where
  -- `a < b` and `a == b` on keys.
  abbrev pub key_lt : K → K → Bool
  key_lt a b = ltb (o.rank a) (o.rank b)

  abbrev pub key_eq : K → K → Bool
  key_eq a b = o.rank a == o.rank b

module _ {ℓ κ} {K : Type ℓ} ⦃o : Key K⦄ {V : Type κ} where
  -- `std::ranges::lower_bound`: the split before the first item whose key is not less.
  pub lower_bound : K → List (Item K V) → List (Item K V) × List (Item K V)
  lower_bound k [] = ([], [])
  lower_bound k (x ∷ xs) =
      let (before, rest) = lower_bound k xs in
      if key_lt x.key k then (x ∷ before, rest) else ([], x ∷ xs)

  -- What `insert` does at the iterator: replace the item there, or emplace a new one before it.
  place : ℕ → K → V → List (Item K V) × List (Item K V) → List (Item K V)
  place t k v (before, []) = before ++ record { version = t; key = k; value = v } ∷ []
  place t k v (before, x ∷ rest) =
      if key_eq x.key k
      then before ++ record x { version = t; value = v } ∷ rest
      else before ++ record { version = t; key = k; value = v } ∷ x ∷ rest

  pub insert : ℕ → K → V → List (Item K V) → List (Item K V)
  unfolding lower_bound place
  insert t k v items = place t k v (lower_bound k items)

  erase_at : K → List (Item K V) × List (Item K V) → List (Item K V)
  erase_at k (before, []) = before
  erase_at k (before, x ∷ rest) = if key_eq x.key k then before ++ rest else before ++ x ∷ rest

  pub erase : K → List (Item K V) → List (Item K V)
  unfolding lower_bound erase_at
  erase k items = erase_at k (lower_bound k items)

  -- `find(timeline, key)`: the value to alter, with its version set to the timeline.
  touch_at : ℕ → K → List (Item K V) × List (Item K V) → Option V × List (Item K V)
  touch_at t k (before, []) = (none, before)
  touch_at t k (before, x ∷ rest) =
      if key_eq x.key k
      then (some x.value, before ++ record x { version = t } ∷ rest)
      else (none, before ++ x ∷ rest)

  pub find_mutable : ℕ → K → List (Item K V) → Option V × List (Item K V)
  unfolding lower_bound touch_at
  find_mutable t k items = touch_at t k (lower_bound k items)

  item_at : K → List (Item K V) × List (Item K V) → Option (Item K V)
  item_at k (before, []) = none
  item_at k (before, x ∷ rest) = if key_eq x.key k then some x else none

  -- `find(key)`; `none` is `end()`.
  pub find : K → List (Item K V) → Option (Item K V)
  unfolding lower_bound item_at
  find k items = item_at k (lower_bound k items)

  -- The advance of the pointer into the old items: past every key less than `k`.
  pub rewind : K → List (Item K V) → List (Item K V)
  rewind k [] = []
  rewind k (x ∷ xs) = let rest = rewind k xs in if key_lt x.key k then rest else x ∷ xs

module _ {ℓ κ μ} {K : Type ℓ} ⦃o : Key K⦄ {V : Type κ} {M : Type μ}
    (make_value : M → Option V → V) where
  -- The value of one copied item, from what the pointer into the old items points to.
  pub copy_value : Item K M → List (Item K V) → V
  copy_value m [] = make_value m.value none
  copy_value m (x ∷ old) =
      if key_eq x.key m.key
      then (if x.version == m.version then x.value else make_value m.value (some x.value))
      else make_value m.value none

  -- The immutable copy of a mutable map. `make_value` is the value type's two-argument copy
  -- constructor, or its one-argument one that ignores the old value.
  pub copy : List (Item K M) → List (Item K V) → List (Item K V)
  unfolding copy_value rewind
  copy [] old = []
  copy (m ∷ ms) old =
      let rest = rewind m.key old in
      record { version = m.version; key = m.key; value = copy_value m rest } ∷ copy ms rest

-- The copy from shared storage: the pointers are copied.
pub copy_shared {ℓ κ} : {K : Type ℓ} {V : Type κ} → List (Item K V) → List (Item K V)
copy_shared items = map (λ m. record { version = m.version; key = m.key; value = m.value }) items

-- One call of the visitor: the key, the new value and the old value (`none` is a null pointer).
pub record Change {ℓ κ} (K : Type ℓ) (V : Type κ) : Type (ℓ ⊔ κ) where
  pub key : K
  pub new_value : Option V
  pub old_value : Option V

module _ {ℓ κ} {K : Type ℓ} ⦃o : Key K⦄ {V : Type κ} where
  -- What the loop's body finds for one new item: the change to notify, if any, and the old
  -- items that are left.
  pub compare_item : Item K V → List (Item K V) → Option (Change K V) × List (Item K V)
  compare_item m [] =
      (some (record { key = m.key; new_value = some m.value; old_value = none }), [])
  compare_item m (x ∷ old) =
      if key_eq x.key m.key
      then (if x.version == m.version then (none, old) else (
        some (record { key = m.key; new_value = some m.value; old_value = some x.value }),
        old,
      ))
      else (some (record { key = m.key; new_value = some m.value; old_value = none }), x ∷ old)

  module _ {σ} {S : Type σ} (visitor : S → Change K V → S × Bool) where
    -- The inner loop: notify of the old items whose key is less than `k`. The flag is false
    -- when the visitor wants to stop.
    pub visit_removed : S → K → List (Item K V) → S × Bool × List (Item K V)
    visit_removed s k [] = (s, true, [])
    visit_removed s k (x ∷ old) =
        let (s', go) =
          visitor s (record { key = x.key; new_value = none; old_value = some x.value }) in
        let rest = visit_removed s' k old in
        if key_lt x.key k then (if go then rest else (s', false, x ∷ old)) else (s, true, x ∷ old)

    -- `visitDiff`. The visitor's calls change the state `S`.
    pub visit_diff : S → List (Item K V) → List (Item K V) → S
    unfolding compare_item visit_removed
    visit_diff s [] old = s
    visit_diff s (m ∷ ms) old =
        let (s₁, go, rest) = visit_removed s m.key old in
        let (change, left) = compare_item m rest in
        elim go [
          | false ↦ s₁
          | true ↦ elim change [
            | none ↦ visit_diff s₁ ms left
            | some c ↦
                let (s₂, more) = visitor s₁ c in
                let next = visit_diff s₂ ms left in if more then next else s₂
          ]
        ]
