-- ===== src/Svc/TaskQueueSet/Pushing.antt =====
-- The two steps of a push in src/voxen/svc/task_queue_set.cpp that write to shared memory.
use voxen.Prelude.{
  ℕ, ◌+◌, ◌^◌, ◌≤◌, ◌<◌, ◌≡◌, ◌≢◌, ◌-◌, ◌==◌, ==_iff, subst, sym, ap, true, false, Option, none,
  some, arith, refl,
}
use native.Mathlib.Decide.{dec_lt, ℕ_discrete}
use voxen.Svc.TaskQueueSet.{
  count31, Stage, unused, reserved, stored, taking, taken, Shared, slot, update, push_index,
  reserve_push, store_item,
}
use voxen.Svc.TaskQueueSet.Invariant.{is_taken, Place, Slot, Queue, Frame}

-- Two positions of one window have slots of their own.
pub slot_ne : (p q : ℕ) → p ≢ q → p < q + 1024 → q < p + 1024 → slot p ≢ slot q
slot_ne p q ne lo hi = omega arith

pub same_slot : (p q : ℕ) → p + 1024 ≡ q → slot p ≡ slot q
same_slot p q e = omega arith

pub ≢_test : (p q : ℕ) → p ≢ q → (p == q) ≡ false
≢_test p q ne = ground arith

pub count31_small : (n : ℕ) → n < 2 ^ 31 → count31 n ≡ n
count31_small n lt = omega arith

module _ (i : ℕ) {m : Shared} (queue : Queue m) where
  open queue use {current, counted, running, sleepers, places, slots, reuse}

  abbrev produce : ℕ
  produce = m.current_index.produce

  abbrev consume : ℕ
  consume = m.current_index.consume

  module _ (task : ℕ) (few : produce + 1 < 2 ^ 31) (room : produce < consume + 1024)
      (before : (q : ℕ) → q + 1024 ≡ produce → is_taken (m.stage q) ≡ true) where
    -- The slot of the next position is empty.
    next_slot_low :
        (s : Stage)
        → Place m.current_index produce s
        → produce < 1024
        → Slot produce produce (m.pushed produce) (m.item (slot produce)) s
        → m.item (slot produce) ≡ none
    next_slot_low unused p low h = h low
    next_slot_low (reserved _) p low h = h
    next_slot_low stored p low h = absurd (omega arith)
    next_slot_low (taking _) p low h = absurd (omega (arith, current.ordered))
    next_slot_low (taken _) p low h = h (omega arith)

    next_slot_high :
        (q : ℕ) (s : Stage)
        → q + 1024 ≡ produce
        → is_taken s ≡ true
        → Slot produce q (m.pushed q) (m.item (slot q)) s
        → m.item (slot produce) ≡ none
    next_slot_high q (taken _) e t h =
        subst (λ k. m.item k ≡ none) (same_slot q produce e) (h (omega arith))
    next_slot_high q _ e t h = cc

    pub next_slot : m.item (slot produce) ≡ none
    next_slot = elim (dec_lt produce 1024) [
      | yes low ↦ next_slot_low (m.stage produce) (places produce) low (slots produce)
      | no high ↦
          let q = produce - 1024 in
          next_slot_high q (m.stage q) (omega arith) (before q (omega arith)) (slots q)
    ]

    Slot-more :
        (q t : ℕ) (o : Option ℕ) (s : Stage) → Slot produce q t o s → Slot (produce + 1) q t o s
    Slot-more q t o unused h = h
    Slot-more q t o (reserved _) h = h
    Slot-more q t o stored h = h
    Slot-more q t o (taking _) h = h
    Slot-more q t o (taken _) h = λ le. h (omega arith)

    reserve_push-slots :
        (q : ℕ)
        → Slot
            (produce + 1)
            q
            (update m.pushed produce task q)
            (m.item (slot q))
            (update m.stage produce (reserved i) q)
    reserve_push-slots q = elim (ℕ_discrete q produce) [
      | yes e ↦ rw (e, (==_iff produce produce).1 refl) next_slot
      | no ne ↦ rw (≢_test q produce ne) (Slot-more q _ _ (m.stage q) (slots q))
    ]

    pub reserve_push-Queue : Queue (reserve_push i task m)
    unfolding reserve_push push_index
    reserve_push-Queue = record {
      current = record {
        ordered = omega (arith, current.ordered);
        window = omega (arith, current.window);
      };
      counted = omega (arith, counted);
      running = running;
      sleepers = λ w. cc;
      places = λ q. ground (arith, places q, places produce, current.ordered);
      slots = λ q. rw (count31_small (produce + 1) few) (reserve_push-slots q);
      reuse = λ q h. ground (arith, reuse q, before q);
    }

    pub reserve_push-Frame : Frame i m (reserve_push i task m)
    unfolding reserve_push push_index
    reserve_push-Frame = record {
      produced = omega arith;
      consumed = omega arith;
      tasks = λ q u. ground (arith, places produce, current.ordered);
      taken_stays = λ q k e. ground (arith, places q, current.ordered);
      reserved_stays = λ q k ne e. ground (arith, places q);
      taking_stays = λ q k ne e. ground (arith, places q, current.ordered);
      stored_stays = λ q e s. ground (arith, places q);
      flag_stays = λ e w. absurd (omega arith);
    }

  -- A write to the slot of a live position leaves what other positions say of theirs.
  pub Slot-elsewhere :
      (place q t : ℕ) (v : Option ℕ) (s : Stage)
      → place ≢ q
      → place < produce
      → produce ≤ place + 1024
      → Place m.current_index q s
      → (q + 1024 < produce → is_taken s ≡ true)
      → Slot produce q t (m.item (slot q)) s
      → Slot produce q t (update m.item (slot place) v (slot q)) s
  Slot-elsewhere place q t v unused ne lt le p r h = λ low. ground (arith, slot_ne place q ne, h)
  Slot-elsewhere place q t v (reserved k) ne lt le p r h =
      ground (arith, slot_ne place q ne, r, current.ordered)
  Slot-elsewhere place q t v stored ne lt le p r h =
      ground (arith, slot_ne place q ne, r, current.ordered)
  Slot-elsewhere place q t v (taking k) ne lt le p r h =
      ground (arith, slot_ne place q ne, r, current.ordered)
  Slot-elsewhere place q t v (taken k) ne lt le p r h =
      λ low. ground (arith, slot_ne place q ne, r, current.ordered, h)

  module _ (task place : ℕ) (mine : m.stage place ≡ reserved i) (same : m.pushed place ≡ task) where
    live : (consume ≤ place) × (place < produce)
    live = subst (Place m.current_index place) mine (places place)

    store_item-slots :
        (q : ℕ)
        → Slot produce q
            (m.pushed q)
            (update m.item (slot place) (some task) (slot q))
            (update m.stage place stored q)
    store_item-slots q = elim (ℕ_discrete q place) [
      | yes e ↦
          rw (e, (==_iff place place).1 refl, (==_iff (slot place) (slot place)).1 refl)
            (ap some (sym same))
      | no ne ↦ rw (≢_test q place ne) (
          Slot-elsewhere place q _ _ (m.stage q) (λ e. ne (sym e)) (live.1)
            (omega (arith, live, current.window)) (places q) (reuse q) (slots q))
    ]

    pub store_item-Queue : Queue (store_item task place m)
    unfolding store_item
    store_item-Queue = record {
      current = current;
      counted = counted;
      running = running;
      sleepers = sleepers;
      places = λ q. ground (arith, places q, live);
      slots = store_item-slots;
      reuse = λ q h. ground (arith, reuse q, live, current.window);
    }

    pub store_item-Frame : Frame i m (store_item task place m)
    unfolding store_item
    store_item-Frame = record {
      produced = omega arith;
      consumed = omega arith;
      tasks = λ q u. refl;
      taken_stays = λ q k e. ground (arith, mine);
      reserved_stays = λ q k ne e. ground (arith, mine);
      taking_stays = λ q k ne e. ground (arith, mine);
      stored_stays = λ q e s. ground arith;
      flag_stays = λ e w. w;
    }
