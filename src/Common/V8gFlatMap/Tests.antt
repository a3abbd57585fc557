-- ===== src/Common/V8gFlatMap/Tests.antt =====
-- The versioned flat map at concrete items: numbers as keys and values.
use voxen.Prelude.{if◌then◌else◌, ℕ, ◌+◌, ◌≡◌, refl, List, [], ◌∷◌, Option, none, some, map, arith}
use voxen.Common.V8gFlatMap.{
  Key, Item, key_eq, insert, erase, find, find_mutable, copy, visit_diff, copy_shared,
}
use voxen.Common.V8gFlatMap.Order.{IsSorted}
use voxen.Common.V8gFlatMap.Laws.{update_lem, value_of, bump}
use voxen.Common.V8gFlatMap.Copy.{copy-eq-map, copy_item}
use voxen.Common.V8gFlatMap.Diff.Left.{changes_of}
use voxen.Common.V8gFlatMap.Diff.Due.{record_change, visit_diff-due, visit_diff_misses_tail}

instance abbrev nat_key : Key ℕ
nat_key = record { rank = λ n. n; rank_injective = λ a b e. e }

abbrev item : ℕ → ℕ → ℕ → Item ℕ ℕ
item t k v = record { version = t; key = k; value = v }

abbrev old_items : List (Item ℕ ℕ)
old_items = item 1 3 30 ∷ item 1 7 70 ∷ item 2 9 90 ∷ item 2 20 200 ∷ []

abbrev new_items : List (Item ℕ ℕ)
new_items = item 4 7 71 ∷ item 2 9 90 ∷ item 5 15 150 ∷ []

abbrev make : ℕ → Option ℕ → ℕ
make m none = m
make m (some v) = m + v

copy_shared_runs : copy_shared old_items ≡ old_items
unfolding copy_shared
copy_shared_runs = refl

insert_runs : insert 6 8 80 new_items ≡ item 4 7 71 ∷ item 6 8 80 ∷ item 2 9 90 ∷ item 5 15 150 ∷ []
unfolding insert
insert_runs = refl

copy_runs : copy make new_items old_items ≡ item 4 7 141 ∷ item 2 9 90 ∷ item 5 15 150 ∷ []
unfolding copy
copy_runs = refl

-- Key 20, which only the old map has, is not notified.
visit_diff_runs :
    visit_diff record_change [] new_items old_items
    ≡ record { key = 3; new_value = none; old_value = some 30 }
      ∷ record { key = 7; new_value = some 71; old_value = some 70 }
      ∷ record { key = 15; new_value = some 150; old_value = none }
      ∷ []
unfolding visit_diff
visit_diff_runs = refl

update_lem_example :
    ((j : ℕ)
      → find j (insert 6 7 72 new_items)
        ≡ (if key_eq 7 j then some (item 6 7 72) else find j new_items))
    × ((j : ℕ) → find j (erase 7 new_items) ≡ (if key_eq 7 j then none else find j new_items))
    × ((find_mutable 6 7 new_items).0 ≡ value_of (find 7 new_items))
    × ((j : ℕ)
        → find j (find_mutable 6 7 new_items).1
          ≡ (if key_eq 7 j then bump 6 (find j new_items) else find j new_items))
    × IsSorted (insert 6 7 72 new_items)
    × IsSorted (erase 7 new_items)
    × IsSorted (find_mutable 6 7 new_items).1
update_lem_example = update_lem 6 7 72 new_items (omega arith)

copy-eq-map_example : copy make new_items old_items ≡ map (copy_item make old_items) new_items
copy-eq-map_example = copy-eq-map make new_items old_items (omega arith)

visit_diff-due_example :
    changes_of 7 (visit_diff record_change [] new_items old_items)
    ≡ record { key = 7; new_value = some 71; old_value = some 70 } ∷ []
unfolding find
visit_diff-due_example = visit_diff-due 7 new_items old_items (omega arith) (omega arith)

visit_diff_misses_tail_example :
    changes_of 20 (visit_diff record_change [] new_items old_items) ≡ []
unfolding find
visit_diff_misses_tail_example =
    visit_diff_misses_tail 20 new_items old_items (item 2 20 200) (omega arith) (omega arith) refl
      refl refl
