-- ===== src/Svc/TaskQueueSet/StopFlag.antt =====
-- Runs of src/voxen/svc/task_queue_set.cpp with calls of `requestStopAll`, and any number of pushes.
use voxen.Prelude.{ℕ, ◌≡◌, ==_iff, ap, true, false, refl}
use native.Mathlib.Decide.{ℕ_discrete}
use voxen.Svc.TaskQueueSet.{
  Shared, update, push_index, pop_index, wait_index, stop_index, reserve_push, store_item,
  reserve_pop, take_item, set_index,
}
use voxen.Svc.TaskQueueSet.Threads.{
  Pc, idle, pop_item, pop_cas, wait_cas, asleep, wake, PushMove, PopMove, WaitMove, StopMove, Move,
  System, Step, move, wake_all, push, pop, wait, empty_queue,
}
use voxen.Svc.TaskQueueSet.Pushing.{≢_test}

pub data AnyStep (s : System) : System → Type 0 where
  going_on : {t : System} → Step s t → AnyStep s t
  stopping :
      (i : ℕ) {m : Shared} {p : Pc}
      → StopMove s.mem (s.pc i) m p
      → AnyStep s (record { mem = m; pc = update s.pc i p })

pub data AnyReach : System → Type 0 where
  opened : AnyReach (record { mem = empty_queue; pc = λ _. idle })
  after : {s t : System} → AnyReach s → AnyStep s t → AnyReach t

-- A thread past the test of the stop flag has an index without it.
abbrev Going : Pc → Type 0
Going (pop_item _ index) = index.stop_flag ≡ false
Going (pop_cas _ index) = index.stop_flag ≡ false
Going (wait_cas index) = index.stop_flag ≡ false
Going _ = Unit {0}

-- What a step keeps: its thread goes on without the flag, and the flag is not cleared.
record Clears (m m' : Shared) (p' : Pc) : Type 0 where
  going : Going p'
  flag : m.current_index.stop_flag ≡ true → m'.current_index.stop_flag ≡ true

no_write : {m : Shared} (p' : Pc) → Going p' → Clears m m p'
no_write p' g = record { going = g; flag = λ up. up }

PushMove-Clears : {i : ℕ} {m m' : Shared} {p p' : Pc} → PushMove i m p m' p' → Clears m m' p'
unfolding reserve_push push_index store_item
PushMove-Clears (PushMove.win e) = record { going = tt; flag = λ up. up }
PushMove-Clears PushMove.put = record { going = tt; flag = λ up. up }
PushMove-Clears PushMove.start = no_write _ tt
PushMove-Clears _ = no_write _ tt

PopMove-Clears :
    {i : ℕ} {m m' : Shared} {p p' : Pc} → PopMove i m p m' p' → Going p → Clears m m' p'
unfolding reserve_pop pop_index take_item
PopMove-Clears (PopMove.win {waits} {index} e) g = record {
  going = tt;
  flag = λ up. cc (up, g, ap (λ x. x.stop_flag) e);
}
PopMove-Clears PopMove.take g = record { going = tt; flag = λ up. up }
PopMove-Clears (PopMove.ready {waits} {index} h ne) g = no_write (pop_item waits index) h
PopMove-Clears (PopMove.found {waits} {index} e) g = no_write (pop_cas waits index) g
PopMove-Clears PopMove.start g = no_write _ tt
PopMove-Clears _ g = no_write _ tt

WaitMove-Clears : {m m' : Shared} {p p' : Pc} → WaitMove m p m' p' → Going p → Clears m m' p'
unfolding set_index wait_index
WaitMove-Clears {m} (WaitMove.win {index} e) g = record {
  going = tt;
  flag = λ up. cc (up, g, ap (λ x. x.stop_flag) e);
}
WaitMove-Clears (WaitMove.empty {index} h e) g = no_write (wait_cas index) h
WaitMove-Clears WaitMove.lose g = no_write _ tt
WaitMove-Clears _ g = no_write _ tt

StopMove-Clears : {m m' : Shared} {p p' : Pc} → StopMove m p m' p' → Clears m m' p'
unfolding set_index stop_index
StopMove-Clears (StopMove.win e) = record { going = tt; flag = λ up. refl }
StopMove-Clears StopMove.start = no_write _ tt
StopMove-Clears StopMove.lose = no_write _ tt

Move-Clears : {i : ℕ} {m m' : Shared} {p p' : Pc} → Move i m p m' p' → Going p → Clears m m' p'
Move-Clears (push mv) g = PushMove-Clears mv
Move-Clears (pop mv) g = PopMove-Clears mv g
Move-Clears (wait mv) g = WaitMove-Clears mv g

update-Going :
    (pc : ℕ → Pc) (i : ℕ) (p : Pc)
    → ((j : ℕ) → Going (pc j))
    → Going p
    → (j : ℕ) → Going (update pc i p j)
update-Going pc i p all g j = elim (ℕ_discrete j i) [
  | yes e ↦ rw (e, (==_iff i i).1 refl) g
  | no ne ↦ rw (≢_test j i ne) (all j)
]

wake-Going : (p : Pc) → Going p → Going (wake p)
wake-Going asleep g = tt
wake-Going idle g = g
wake-Going _ g = g

AnyStep-Going : {s t : System} → AnyStep s t → ((j : ℕ) → Going (s.pc j)) → (j : ℕ) → Going (t.pc j)
AnyStep-Going {s} (going_on (move i {m} {p} mv)) all =
    update-Going s.pc i p all (Move-Clears mv (all i)).going
AnyStep-Going {s} (going_on (wake_all i e)) all =
    update-Going (λ j. wake (s.pc j)) i idle (λ j. wake-Going (s.pc j) (all j)) tt
AnyStep-Going {s} (stopping i {m} {p} mv) all = update-Going s.pc i p all (StopMove-Clears mv).going

AnyReach-Going : {s : System} → AnyReach s → (j : ℕ) → Going (s.pc j)
AnyReach-Going opened j = tt
AnyReach-Going (after r st) j = AnyStep-Going st (AnyReach-Going r) j

-- Whatever the threads do from the constructor on, stops included, and with counts that wrap: once
-- the stop flag of a queue is up, no step clears it.
pub stop_stays :
    {s t : System}
    → AnyReach s
    → AnyStep s t
    → s.mem.current_index.stop_flag ≡ true
    → t.mem.current_index.stop_flag ≡ true
stop_stays {s} r (going_on (move i mv)) up = (Move-Clears mv (AnyReach-Going r i)).flag up
stop_stays r (going_on (wake_all i e)) up = up
stop_stays r (stopping i mv) up = (StopMove-Clears mv).flag up
