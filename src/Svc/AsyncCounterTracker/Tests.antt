-- ===== src/Svc/AsyncCounterTracker/Tests.antt =====
-- The counter tracker on small histories.
use voxen.Prelude.{ℕ, ◌≡◌, ◌||◌, refl, [], ◌∷◌, ◌==◌, arith}
use voxen.Svc.AsyncCounterTracker.{
  AsyncCounterTracker, new, allocate_counter, complete_in, complete_counter, is_counter_complete,
  trim_complete_counters,
}
use voxen.Svc.AsyncCounterTracker.Complete.{IsTracker, complete_counter_lem}
use voxen.Svc.AsyncCounterTracker.History.{
  complete_all, complete_all_lem, elem, Reach, start, step, allocate, History, allocate_step,
  complete_step, complete, IsFaithful, Reach-IsFaithful, new-IsTracker,
}
use voxen.Svc.AsyncCounterTracker.Trim.{Trims, trim_complete_counters-Trims}

-- Out of order: 3 and 5 wait as segments, 4 joins them, and 2 after 1 lets all be completed.
list_runs :
    complete_in 2
      (complete_in 4 (complete_in 5 (complete_in 3 (complete_in 1 (new.completion_lists 0)))))
    ≡ record { fully_completed_value = 2; out_of_order_segments = (3, 5) ∷ [] }
unfolding new complete_in
list_runs = refl

-- The next completion out of order collapses what the fast path left.
list_collapses :
    complete_in 7 (record { fully_completed_value = 2; out_of_order_segments = (3, 5) ∷ [] })
    ≡ record { fully_completed_value = 5; out_of_order_segments = (7, 7) ∷ [] }
unfolding complete_in
list_collapses = refl

abbrev late : AsyncCounterTracker
late = complete_counter 192 new

trim_runs : (trim_complete_counters late (64 ∷ 192 ∷ 3 ∷ 128 ∷ [])).0 ≡ 2
unfolding trim_complete_counters complete_counter complete_in new is_counter_complete
trim_runs = refl

complete_counter_lem_example :
    IsTracker (complete_counter 192 new)
    × ((x : ℕ)
        → is_counter_complete (complete_counter 192 new) x
          ≡ (is_counter_complete new x || x == 192))
unfolding new is_counter_complete
complete_counter_lem_example = complete_counter_lem 192 new new-IsTracker (omega arith) refl

complete_all_lem_example :
    IsTracker (complete_all (192 ∷ 64 ∷ 65 ∷ []) new)
    × ((x : ℕ)
        → is_counter_complete (complete_all (192 ∷ 64 ∷ 65 ∷ []) new) x
          ≡ (is_counter_complete new x || elem x (192 ∷ 64 ∷ 65 ∷ [])))
unfolding new is_counter_complete
complete_all_lem_example =
    complete_all_lem (192 ∷ 64 ∷ 65 ∷ []) new new-IsTracker
      (omega arith, refl, refl, (omega arith, refl, refl, (omega arith, refl, refl, tt)))

-- Two counters are allocated, and the first is completed.
abbrev one_finished : History
one_finished =
    complete_step 64
      (allocate_step (allocate_step (record { tracker = new; returned = []; finished = [] })))

one_finished-Reach : Reach one_finished
unfolding new allocate_counter
one_finished-Reach =
    step (step (step start (allocate (omega arith))) (allocate (omega arith)))
      (complete 64 refl refl)

Reach-IsFaithful_example : IsFaithful one_finished
Reach-IsFaithful_example = Reach-IsFaithful one_finished-Reach

trim_complete_counters-Trims_example :
    Trims late (64 ∷ 192 ∷ 3 ∷ []) (trim_complete_counters late (64 ∷ 192 ∷ 3 ∷ []))
trim_complete_counters-Trims_example = trim_complete_counters-Trims late (64 ∷ 192 ∷ 3 ∷ [])
