-- ===== src/Util/LruVisitOrdering/Tests.antt =====
-- A queue of three keys.
use voxen.Prelude.{ℕ, ◌≡◌, refl, List, [], ◌∷◌, ltb, inr, arith}
use voxen.Util.LruVisitOrdering.{TickId, pos, Item, add_key, visit_oldest}
use voxen.Util.LruVisitOrdering.Order.{IsSorted}
use voxen.Util.LruVisitOrdering.Visits.{due, visit_oldest_lem}

abbrev queue : List (Item ℕ)
queue = (pos 1, 8) ∷ (pos 4, 2) ∷ (pos 9, 5) ∷ []

-- Records the key and puts it off until tick 100.
abbrev recorder : List ℕ → ℕ → List ℕ × TickId
recorder seen k = (k ∷ seen, pos 100)

visits_two :
    visit_oldest ltb recorder (pos 4) 2 [] queue
    ≡ (2 ∷ 8 ∷ [], (pos 9, 5) ∷ (pos 100, 2) ∷ (pos 100, 8) ∷ [])
unfolding visit_oldest
visits_two = refl

adds_in_order : add_key ltb 3 (pos 4) queue ≡ (pos 1, 8) ∷ (pos 4, 2) ∷ (pos 4, 3) ∷ (pos 9, 5) ∷ []
unfolding add_key
adds_in_order = refl

visit_oldest_lem_example :
    ((visit_oldest ltb recorder (pos 4) 2 [] queue).0 ≡ 2 ∷ 8 ∷ [])
    × (due (pos 4) (visit_oldest ltb recorder (pos 4) 2 [] queue).1 ≡ [])
    × IsSorted (visit_oldest ltb recorder (pos 4) 2 [] queue).1
visit_oldest_lem_example =
    visit_oldest_lem ltb recorder (pos 4) 2 [] queue ((refl, (refl, tt)), ((refl, tt), (tt, tt)))
      (λ s k. inr refl) (omega arith)
