-- ===== src/Svc/TaskQueueSet/Popping.antt =====
-- The steps of a pop in src/voxen/svc/task_queue_set.cpp that write to shared memory.
use voxen.Prelude.{ℕ, ◌+◌, ◌^◌, ◌≤◌, ◌<◌, ◌≡◌, ==_iff, subst, sym, none, arith, refl}
use native.Mathlib.Decide.{ℕ_discrete}
use voxen.Svc.TaskQueueSet.{
  stored, taking, taken, Shared, slot, update, pop_index, wait_index, reserve_pop, take_item,
  set_index,
}
use voxen.Svc.TaskQueueSet.Invariant.{Place, Slot, Queue, Frame}
use voxen.Svc.TaskQueueSet.Pushing.{≢_test, Slot-elsewhere}

module _ (i : ℕ) {m : Shared} (queue : Queue m) where
  open queue use {current, counted, running, sleepers, places, slots, reuse}

  abbrev produce : ℕ
  produce = m.current_index.produce

  abbrev consume : ℕ
  consume = m.current_index.consume

  module _ (few : produce < 2 ^ 31) (more : consume < produce)
      (ready : m.stage consume ≡ stored) where
    reserve_pop-slots :
        (q : ℕ)
        → Slot produce q (m.pushed q) (m.item (slot q)) (update m.stage consume (taking i) q)
    reserve_pop-slots q = elim (ℕ_discrete q consume) [
      | yes e ↦
          rw (e, (==_iff consume consume).1 refl)
            (subst (Slot produce consume _ _) ready (slots consume))
      | no ne ↦ rw (≢_test q consume ne) (slots q)
    ]

    pub reserve_pop-Queue : Queue (reserve_pop i m)
    unfolding reserve_pop pop_index
    reserve_pop-Queue = record {
      current = record { ordered = omega arith; window = omega (arith, current.window) };
      counted = counted;
      running = refl;
      sleepers = λ w. absurd (omega (arith, sleepers w));
      places = λ q. ground (arith, places q);
      slots = reserve_pop-slots;
      reuse = λ q h. ground (arith, reuse q, current.window);
    }

    pub reserve_pop-Frame : Frame i m (reserve_pop i m)
    unfolding reserve_pop pop_index
    reserve_pop-Frame = record {
      produced = omega arith;
      consumed = omega arith;
      tasks = λ q u. refl;
      taken_stays = λ q k e. ground arith;
      reserved_stays = λ q k ne e. ground arith;
      taking_stays = λ q k ne e. ground arith;
      stored_stays = λ q e s. ground arith;
      flag_stays = λ e w. w;
    }

  module _ (place : ℕ) (mine : m.stage place ≡ taking i) where
    passed : place < consume
    passed = subst (Place m.current_index place) mine (places place)

    not_reused : produce ≤ place + 1024
    not_reused = ground (arith, reuse place)

    take_item-slots :
        (q : ℕ)
        → Slot produce q
            (m.pushed q)
            (update m.item (slot place) none (slot q))
            (update m.stage place (taken i) q)
    take_item-slots q = elim (ℕ_discrete q place) [
      | yes e ↦
          rw (e, (==_iff place place).1 refl, (==_iff (slot place) (slot place)).1 refl)
            (λ le. refl)
      | no ne ↦ rw (≢_test q place ne) (
          Slot-elsewhere i queue place q _ _ (m.stage q) (λ e. ne (sym e))
            (omega (arith, passed, current.ordered)) not_reused (places q) (reuse q) (slots q))
    ]

    pub take_item-Queue : Queue (take_item i place m)
    unfolding take_item
    take_item-Queue = record {
      current = current;
      counted = counted;
      running = running;
      sleepers = sleepers;
      places = λ q. ground (arith, places q, passed);
      slots = take_item-slots;
      reuse = λ q h. ground (arith, reuse q);
    }

    pub take_item-Frame : Frame i m (take_item i place m)
    unfolding take_item
    take_item-Frame = record {
      produced = omega arith;
      consumed = omega arith;
      tasks = λ q u. refl;
      taken_stays = λ q k e. ground arith;
      reserved_stays = λ q k ne e. ground arith;
      taking_stays = λ q k ne e. ground arith;
      stored_stays = λ q e s. ground arith;
      flag_stays = λ e w. w;
    }

  module _ (none_left : produce ≡ consume) where
    pub wait-Queue : Queue (set_index (wait_index m.current_index) m)
    unfolding set_index wait_index
    wait-Queue = record {
      current = record { ordered = current.ordered; window = current.window };
      counted = counted;
      running = refl;
      sleepers = λ w. none_left;
      places = λ q. ground (arith, places q);
      slots = slots;
      reuse = reuse;
    }

    pub wait-Frame : Frame i m (set_index (wait_index m.current_index) m)
    unfolding set_index wait_index
    wait-Frame = record {
      produced = omega arith;
      consumed = omega arith;
      tasks = λ q u. refl;
      taken_stays = λ q k e. e;
      reserved_stays = λ q k ne e. e;
      taking_stays = λ q k ne e. e;
      stored_stays = λ q e s. s;
      flag_stays = λ e w. refl;
    }
