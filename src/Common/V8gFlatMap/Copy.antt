-- ===== src/Common/V8gFlatMap/Copy.antt =====
-- The immutable copy against a separate search of the old map for each item.
use voxen.Prelude.{
  ℕ, ◌≡◌, ◌<◌, ◌≤◌, ◌∙◌, refl, ap₂, List, [], ◌∷◌, Option, none, some, arith, ◌==◌, if◌then◌else◌,
  map, ap,
}
use voxen.Common.V8gFlatMap.{Key, Item, find, copy, copy_value, rewind}
use voxen.Common.V8gFlatMap.Order.{Above, IsSorted, find-cons, IsSorted-of-Above}

module _ {ℓ κ} {K : Type ℓ} ⦃o : Key K⦄ {V : Type κ} where
  pub find-rewind :
      (j k : K) (old : List (Item K V)) → o.rank k < o.rank j → find j (rewind k old) ≡ find j old
  unfolding rewind
  find-rewind j k [] h = refl
  find-rewind j k (x ∷ old) h = ground (arith, find-cons j x old, find-rewind j k old h)

module _ {ℓ κ μ} {K : Type ℓ} ⦃o : Key K⦄ {V : Type κ} {M : Type μ}
    (make_value : M → Option V → V) where
  -- What one copied value has to be, given the old map's item under the same key.
  abbrev pub reuse : Item K M → Option (Item K V) → V
  reuse m none = make_value m.value none
  reuse m (some x) = if x.version == m.version then x.value else make_value m.value (some x.value)

  abbrev pub copy_item : List (Item K V) → Item K M → Item K V
  copy_item old m = record { version = m.version; key = m.key; value = reuse m (find m.key old) }

  copy_value-rewind :
      (m : Item K M) (old : List (Item K V))
      → copy_value make_value m (rewind m.key old) ≡ reuse m (find m.key old)
  unfolding rewind copy_value find
  copy_value-rewind m [] = refl
  copy_value-rewind m (x ∷ old) = ground (arith, find-cons m.key x old, copy_value-rewind m old)

  map-rewind :
      (k : K) (r : ℕ) (old : List (Item K V)) (ms : List (Item K M))
      → o.rank k ≤ r
      → Above r ms
      → map (copy_item (rewind k old)) ms ≡ map (copy_item old) ms
  map-rewind k r old [] h a = refl
  map-rewind k r old (m ∷ ms) h a =
      ap₂ ◌∷◌ (rw (find-rewind m.key k old (omega arith)))
        (map-rewind k (o.rank m.key) old ms (omega arith) a.1)

  -- The copy of a sorted mutable map has its keys and versions, and each value is the one that a
  -- search of the old map by that key calls for: the old value where the versions agree,
  -- otherwise a new one made with the old value of that key, if there is one.
  pub copy-eq-map :
      (ms : List (Item K M)) (old : List (Item K V))
      → IsSorted ms
      → copy make_value ms old ≡ map (copy_item old) ms
  unfolding copy
  copy-eq-map [] old s = refl
  copy-eq-map (m ∷ ms) old s =
      ap₂ ◌∷◌
        (ap (λ v. record { version = m.version; key = m.key; value = v }) (copy_value-rewind m old))
        (copy-eq-map ms (rewind m.key old) (IsSorted-of-Above (o.rank m.key) ms s)
          ∙ map-rewind m.key (o.rank m.key) old ms (omega arith) s)
