-- ===== src/Svc/TaskQueueSet/Invariant.antt =====
-- What holds of one queue of src/voxen/svc/task_queue_set.cpp in every state of its threads.
use voxen.Prelude.{ℕ, ◌+◌, ◌≤◌, ◌<◌, ◌≡◌, ◌≢◌, Bool, true, false, Option, none, some, arith, refl}
use voxen.Svc.TaskQueueSet.{
  ProduceConsumeIndex, Stage, unused, reserved, stored, taking, taken, Shared, slot,
}
use voxen.Svc.TaskQueueSet.Threads.{
  Pc, idle, push_loop, push_item, push_cas, push_store, pop_loop, pop_item, pop_cas, pop_exchange,
  popped, wait_cas, wait_futex,
}

abbrev pub is_taken : Stage → Bool
is_taken (taken _) = true
is_taken _ = false

-- The counts and the stage of a position agree.
abbrev pub Place : ProduceConsumeIndex → ℕ → Stage → Type 0
Place index q unused = index.produce ≤ q
Place index q (reserved _) = (index.consume ≤ q) × (q < index.produce)
Place index q stored = (index.consume ≤ q) × (q < index.produce)
Place index q (taking _) = q < index.consume
Place index q (taken _) = q < index.consume

-- What the slot of a position holds, given the number of pushes.
abbrev pub Slot : ℕ → ℕ → ℕ → Option ℕ → Stage → Type 0
Slot produce q task item unused = q < 1024 → item ≡ none
Slot produce q task item (reserved _) = item ≡ none
Slot produce q task item stored = item ≡ some task
Slot produce q task item (taking _) = item ≡ some task
Slot produce q task item (taken _) = produce ≤ q + 1024 → item ≡ none

-- The two assertions of each loop.
pub record Asserted (index : ProduceConsumeIndex) : Type 0 where
  pub ordered : index.consume ≤ index.produce
  pub window : index.produce ≤ index.consume + 1024

-- An index that was loaded some time ago.
pub record Loaded (m : Shared) (index : ProduceConsumeIndex) : Type 0 where
  pub produced : index.produce ≤ m.current_index.produce
  pub consumed : index.consume ≤ m.current_index.consume
  pub asserted : Asserted index
  pub going : index.stop_flag ≡ false

-- What the locals of thread `i` say about shared memory.
abbrev pub Local : ℕ → Shared → Pc → Type 0
Local i m (push_loop _ index) = Loaded m index
Local i m (push_item _ index) = Loaded m index × (index.produce < index.consume + 1024)
Local i m (push_cas _ index) =
    Loaded m index
    × (index.produce < index.consume + 1024)
    × ((q : ℕ)
        → q + 1024 ≡ index.produce
        → index.produce ≡ m.current_index.produce
        → is_taken (m.stage q) ≡ true)
Local i m (push_store task q _) = (m.stage q ≡ reserved i) × (m.pushed q ≡ task)
Local i m (pop_loop _ index) = Loaded m index
Local i m (pop_item _ index) = Loaded m index × (index.consume < index.produce)
Local i m (pop_cas _ index) =
    Loaded m index
    × (index.consume < index.produce)
    × (index.consume ≡ m.current_index.consume → m.stage index.consume ≡ stored)
Local i m (pop_exchange q) = m.stage q ≡ taking i
Local i m (popped q task) = (m.stage q ≡ taken i) × (task ≡ some (m.pushed q))
Local i m (wait_cas index) = Loaded m index × (index.produce ≡ index.consume)
Local i m (wait_futex index) =
    (index.produce ≤ m.current_index.produce)
    × (index.produce ≡ m.current_index.produce → m.current_index.wait_flag ≡ true)
Local i m _ = Unit {0}

pub record Queue (m : Shared) : Type 0 where
  pub current : Asserted m.current_index
  pub counted : m.pushes ≡ m.current_index.produce
  pub running : m.current_index.stop_flag ≡ false
  pub sleepers :
      m.current_index.wait_flag ≡ true → m.current_index.produce ≡ m.current_index.consume
  pub places : (q : ℕ) → Place m.current_index q (m.stage q)
  pub slots : (q : ℕ) → Slot m.current_index.produce q (m.pushed q) (m.item (slot q)) (m.stage q)
  pub reuse : (q : ℕ) → q + 1024 < m.current_index.produce → is_taken (m.stage q) ≡ true

pub record Inv (m : Shared) (pc : ℕ → Pc) : Type 0 where
  pub queue : Queue m
  pub locals : (i : ℕ) → Local i m (pc i)

-- What a write of thread `i` leaves of the facts that other threads rely on.
pub record Frame (i : ℕ) (m m' : Shared) : Type 0 where
  pub produced : m.current_index.produce ≤ m'.current_index.produce
  pub consumed : m.current_index.consume ≤ m'.current_index.consume
  pub tasks : (q : ℕ) → m.stage q ≢ unused → m'.pushed q ≡ m.pushed q
  pub taken_stays : (q k : ℕ) → m.stage q ≡ taken k → m'.stage q ≡ taken k
  pub reserved_stays : (q k : ℕ) → k ≢ i → m.stage q ≡ reserved k → m'.stage q ≡ reserved k
  pub taking_stays : (q k : ℕ) → k ≢ i → m.stage q ≡ taking k → m'.stage q ≡ taking k
  pub stored_stays :
      (q : ℕ) → q ≡ m'.current_index.consume → m.stage q ≡ stored → m'.stage q ≡ stored
  pub flag_stays :
      m'.current_index.produce ≡ m.current_index.produce
      → m.current_index.wait_flag ≡ true
      → m'.current_index.wait_flag ≡ true

module _ {i : ℕ} {m m' : Shared} (f : Frame i m m') where
  open f use {
    produced, consumed, tasks, taken_stays, reserved_stays, taking_stays, stored_stays, flag_stays,
  }

  pub Loaded-Frame : {index : ProduceConsumeIndex} → Loaded m index → Loaded m' index
  Loaded-Frame l = record {
    produced = omega arith;
    consumed = omega arith;
    asserted = l.asserted;
    going = l.going;
  }

  is_taken_cases : (s : Stage) → is_taken s ≡ true → (k : ℕ) × (s ≡ taken k)
  is_taken_cases (taken k) h = (k, refl)
  is_taken_cases unused h = cc
  is_taken_cases (reserved _) h = cc
  is_taken_cases stored h = cc
  is_taken_cases (taking _) h = cc

  is_taken_stays : (q : ℕ) → is_taken (m.stage q) ≡ true → is_taken (m'.stage q) ≡ true
  is_taken_stays q h =
      let (k, e) = is_taken_cases (m.stage q) h in ground (arith, taken_stays q k e)

  pub Local-Frame : (j : ℕ) (p : Pc) → j ≢ i → Local j m p → Local j m' p
  Local-Frame j (push_loop _ index) ne l = Loaded-Frame l
  Local-Frame j (push_item _ index) ne (l, room) = (Loaded-Frame l, room)
  Local-Frame j (push_cas _ index) ne (l, room, before) =
      (Loaded-Frame l, room, λ q e now. is_taken_stays q (before q e (omega (arith, l.produced))))
  Local-Frame j (push_store task q _) ne (s, t) = (reserved_stays q j ne s, ground (arith, tasks q))
  Local-Frame j (pop_loop _ index) ne l = Loaded-Frame l
  Local-Frame j (pop_item _ index) ne (l, more) = (Loaded-Frame l, more)
  Local-Frame j (pop_cas _ index) ne (l, more, ready) = (
    Loaded-Frame l,
    more,
    λ now. stored_stays index.consume now (ready (omega (arith, l.consumed))),
  )
  Local-Frame j (pop_exchange q) ne s = taking_stays q j ne s
  Local-Frame j (popped q task) ne (s, t) = (taken_stays q j s, ground (arith, tasks q))
  Local-Frame j (wait_cas index) ne (l, e) = (Loaded-Frame l, e)
  Local-Frame j (wait_futex index) ne (old, flag) =
      (omega arith, λ now. flag_stays (omega arith) (flag (omega arith)))
  Local-Frame j idle ne l = tt
  Local-Frame j _ ne l = tt
