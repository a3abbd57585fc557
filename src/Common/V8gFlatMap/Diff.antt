-- ===== src/Common/V8gFlatMap/Diff.antt =====
-- `visitDiff`: the changes as a list, in the order of the visitor's calls.
pub mod Left
pub mod Due
use voxen.Prelude.{
  ℕ, ◌≡◌, ◌<◌, ◌≤◌, ◌∙◌, refl, sym, ap₂, Bool, true, false, List, [], ◌∷◌, ◌++◌, Option, none, some,
  arith, ltb, ◌==◌, if◌then◌else◌, map, ap, ◌||◌, leb, leb→le, Bool-cases, Option-cases, inl, inr,
}
use voxen.Common.V8gFlatMap.{
  Key, Item, Change, key_lt, key_eq, find, visit_diff, visit_removed, compare_item, rewind,
}
use voxen.Common.V8gFlatMap.Copy.{find-rewind}
use native.Mathlib.Decide.{dec_lt}
use mathlib.Core.List.{append-nil, append_assoc}
use voxen.Common.V8gFlatMap.Order.{
  Above, IsSorted, find-cons, Above-mono, find_below, IsSorted-of-Above,
}

module _ {ℓ κ} {K : Type ℓ} ⦃o : Key K⦄ {V : Type κ} where
  abbrev pub removed_change : Item K V → Change K V
  removed_change x = record { key = x.key; new_value = none; old_value = some x.value }

  -- The old items whose key is less than `k`, as removals, before the rest of the changes.
  abbrev pub removals : K → List (Item K V) → List (Change K V) → List (Change K V)
  removals k [] cs = cs
  removals k (x ∷ old) cs = if key_lt x.key k then removed_change x ∷ removals k old cs else cs

  abbrev pub emit : Option (Change K V) → List (Change K V) → List (Change K V)
  emit none cs = cs
  emit (some c) cs = c ∷ cs

  -- The changes in the order of the calls, as long as the visitor goes on.
  pub changes : List (Item K V) → List (Item K V) → List (Change K V)
  unfolding rewind compare_item
  changes [] old = []
  changes (m ∷ ms) old =
      let rest = rewind m.key old in
      let (c, left) = compare_item m rest in removals m.key old (emit c (changes ms left))

  module _ {σ} {S : Type σ} (visitor : S → Change K V → S × Bool) where
    -- The visitor is called on each change in turn until it asks to stop.
    abbrev pub feed : S → List (Change K V) → S × Bool
    feed s [] = (s, true)
    feed s (c ∷ cs) =
        let (s', go) = visitor s c in let rest = feed s' cs in if go then rest else (s', false)

    visit_removed-feed :
        (s : S) (k : K) (old : List (Item K V)) (cs : List (Change K V))
        → feed s (removals k old cs) ≡ (
            if (visit_removed visitor s k old).1
            then feed (visit_removed visitor s k old).0 cs
            else ((visit_removed visitor s k old).0, false))
    unfolding visit_removed
    visit_removed-feed s k [] cs = refl
    visit_removed-feed s k (x ∷ old) cs =
        ground (arith, visit_removed-feed (visitor s (removed_change x)).0 k old cs)

    visit_removed-rewind :
        (s : S) (k : K) (old : List (Item K V))
        → (visit_removed visitor s k old).1 ≡ true
        → (visit_removed visitor s k old).2 ≡ rewind k old
    unfolding visit_removed rewind
    visit_removed-rewind s k [] h = refl
    visit_removed-rewind s k (x ∷ old) h =
        ground (arith, visit_removed-rewind (visitor s (removed_change x)).0 k old)

    pub visit_diff-feed :
        (s : S) (ms old : List (Item K V))
        → visit_diff visitor s ms old ≡ (feed s (changes ms old)).0
    unfolding visit_diff changes
    visit_diff-feed s [] old = refl
    visit_diff-feed s (m ∷ ms) old = elim (Option-cases (compare_item m (rewind m.key old)).0) [
      | inl e ↦ ground (
        arith,
        visit_removed-feed s m.key old (changes ms left),
        visit_removed-rewind s m.key old,
        visit_diff-feed (visit_removed visitor s m.key old).0 ms left,
        e,
      )
      | inr (c, e) ↦ ground (
        arith,
        visit_removed-feed s m.key old (c ∷ changes ms left),
        visit_removed-rewind s m.key old,
        visit_diff-feed (visitor (visit_removed visitor s m.key old).0 c).0 ms left,
        e,
      )
    ]
      where
        left : List (Item K V)
        left = (compare_item m (rewind m.key old)).1
