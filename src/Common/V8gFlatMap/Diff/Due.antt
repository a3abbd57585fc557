-- ===== src/Common/V8gFlatMap/Diff/Due.antt =====
-- `visitDiff`: which changes the visitor is told of, key by key.
use voxen.Prelude.{
  ◌≡◌, ◌<◌, ◌∙◌, refl, sym, Bool, true, false, List, [], ◌∷◌, ◌++◌, Option, none, some, arith, ap,
}
use voxen.Common.V8gFlatMap.{Key, Item, Change, find, visit_diff, compare_item, rewind}
use voxen.Common.V8gFlatMap.Copy.{find-rewind}
use native.Mathlib.Decide.{dec_lt}
use mathlib.Core.List.{append-nil, append_assoc}
use voxen.Common.V8gFlatMap.Order.{Above, IsSorted, find-cons, find_below, IsSorted-of-Above}
use voxen.Common.V8gFlatMap.Diff.{emit, changes, feed, visit_diff-feed}
use voxen.Common.V8gFlatMap.Diff.Left.{
  changes_of, any_above, due, find-nil, rewind-IsSorted, find-rewind_self, changes_of-removals,
  rewind-HeadFits, left-IsSorted, compare_item-due, find-left_above, find-left_below,
  find-left_self, changes_of-emit,
}

module _ {ℓ κ} {K : Type ℓ} ⦃o : Key K⦄ {V : Type κ} where
  -- The three places of a key against the next new item, given the changes that follow it.
  module _ (k : K) (m : Item K V) (ms old : List (Item K V)) (s : Above (o.rank m.key) ms)
      (t : IsSorted old)
      (ih : changes_of k (changes ms (compare_item m (rewind m.key old)).1)
        ≡ emit
            (due (any_above k ms) (find k ms) (find k (compare_item m (rewind m.key old)).1))
            []) where
    Holds : Type (ℓ ⊔ κ)
    Holds =
        changes_of k (changes (m ∷ ms) old)
        ≡ emit (due (any_above k (m ∷ ms)) (find k (m ∷ ms)) (find k old)) []

    holds_below : o.rank k < o.rank m.key → Holds
    unfolding Holds changes
    holds_below h = ground (
      arith,
      changes_of-removals k m.key old
          (emit (compare_item m (rewind m.key old)).0
            (changes ms (compare_item m (rewind m.key old)).1))
          t,
      changes_of-emit k m (rewind m.key old) (changes ms (compare_item m (rewind m.key old)).1),
      ih,
      find-cons k m ms,
      find_below (o.rank m.key) k ms s (omega arith),
      find-left_below k m (rewind m.key old) (rewind-HeadFits m.key old)
          (rewind-IsSorted m.key old t) h,
    )

    holds_above : o.rank m.key < o.rank k → Holds
    unfolding Holds changes
    holds_above h = ground (
      arith,
      changes_of-removals k m.key old
          (emit (compare_item m (rewind m.key old)).0
            (changes ms (compare_item m (rewind m.key old)).1))
          t,
      changes_of-emit k m (rewind m.key old) (changes ms (compare_item m (rewind m.key old)).1),
      ih,
      find-cons k m ms,
      find-left_above k m (rewind m.key old) h,
      find-rewind k m.key old h,
    )

    holds_self : k ≡ m.key → Holds
    unfolding Holds changes
    holds_self h = ground (
      arith,
      h,
      changes_of-removals k m.key old
          (emit (compare_item m (rewind m.key old)).0
            (changes ms (compare_item m (rewind m.key old)).1))
          t,
      changes_of-emit k m (rewind m.key old) (changes ms (compare_item m (rewind m.key old)).1),
      ih,
      find-cons k m ms,
      find_below (o.rank m.key) m.key ms s (omega arith),
      compare_item-due m (rewind m.key old) (any_above k (m ∷ ms)) (rewind-HeadFits m.key old),
      find-rewind_self m.key old,
      find-left_self m (rewind m.key old) (rewind-HeadFits m.key old) (rewind-IsSorted m.key old t),
    )

  -- For each key, the changes hold exactly what is due, and once.
  pub changes_of-changes :
      (k : K) (ms old : List (Item K V))
      → IsSorted ms
      → IsSorted old
      → changes_of k (changes ms old) ≡ emit (due (any_above k ms) (find k ms) (find k old)) []
  unfolding Holds changes
  changes_of-changes k [] old s t = rw find-nil (due-empty (find k old))
    where
      due-empty :
          (x : Option (Item K V)) → ◌≡◌ {A = List (Change K V)} [] (emit (due false none x) [])
      due-empty none = refl
      due-empty (some x) = refl
  changes_of-changes k (m ∷ ms) old s t =
      let ih =
        changes_of-changes k ms (compare_item m (rewind m.key old)).1
          (IsSorted-of-Above (o.rank m.key) ms s)
          (left-IsSorted m (rewind m.key old) (rewind-IsSorted m.key old t)) in
      elim (dec_lt (o.rank k) (o.rank m.key)) [
        | yes h ↦ holds_below k m ms old s t ih h
        | no h ↦ elim (dec_lt (o.rank m.key) (o.rank k)) [
          | yes g ↦ holds_above k m ms old s t ih g
          | no g ↦ holds_self k m ms old s t ih (o.rank_injective k m.key (omega arith))
        ]
      ]

module _ {ℓ κ} {K : Type ℓ} ⦃o : Key K⦄ {V : Type κ} where
  -- A visitor that writes down every call and never stops.
  abbrev pub record_change : List (Change K V) → Change K V → List (Change K V) × Bool
  record_change cs c = (cs ++ c ∷ [], true)

  feed-record : (cs ds : List (Change K V)) → (feed record_change cs ds).0 ≡ cs ++ ds
  feed-record cs [] = sym (append-nil cs)
  feed-record cs (d ∷ ds) = feed-record (cs ++ d ∷ []) ds ∙ append_assoc cs (d ∷ []) ds

  -- For every key, the calls that a visitor that never stops gets for it are exactly what is due from
  -- the items of that key in the two sorted maps: one update where both have it with other versions,
  -- one addition where only the new map has it, one removal where only the old map has it and the
  -- new map has a larger key, and no call otherwise.
  pub visit_diff-due :
      (k : K) (ms old : List (Item K V))
      → IsSorted ms
      → IsSorted old
      → changes_of k (visit_diff record_change [] ms old)
        ≡ emit (due (any_above k ms) (find k ms) (find k old)) []
  visit_diff-due k ms old s t =
      ap (changes_of k) (visit_diff-feed record_change [] ms old ∙ feed-record [] (changes ms old))
      ∙ changes_of-changes k ms old s t

  -- In sorted maps, a key that only the old map has, and that lies above every key of the new map,
  -- is never notified to a visitor that never stops.
  pub visit_diff_misses_tail :
      (k : K) (ms old : List (Item K V)) (x : Item K V)
      → IsSorted ms
      → IsSorted old
      → find k ms ≡ none
      → find k old ≡ some x
      → any_above k ms ≡ false
      → changes_of k (visit_diff record_change [] ms old) ≡ []
  visit_diff_misses_tail k ms old x s t new_none old_some last =
      visit_diff-due k ms old s t ∙ rw (new_none, old_some, last)
