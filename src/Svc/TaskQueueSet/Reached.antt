-- ===== src/Svc/TaskQueueSet/Reached.antt =====
-- Every state that the threads of a queue of src/voxen/svc/task_queue_set.cpp reach.
use voxen.Prelude.{ℕ, ◌^◌, ◌≤◌, ◌<◌, ==_iff, arith, refl}
use native.Mathlib.Decide.{ℕ_discrete}
use voxen.Svc.TaskQueueSet.{
  Shared, update, reserve_push, store_item, reserve_pop, take_item, set_index,
}
use voxen.Svc.TaskQueueSet.Threads.{
  Pc, idle, asleep, wake, PushMove, PopMove, WaitMove, System, Step, Reach, begin, later, move,
  wake_all, push, pop, wait, empty_queue,
}
use voxen.Svc.TaskQueueSet.Invariant.{Local, Inv}
use voxen.Svc.TaskQueueSet.Pushing.{≢_test}
use voxen.Svc.TaskQueueSet.Moves.{Kept, Move-Kept}

Kept-Inv :
    {i : ℕ} {m m' : Shared} {p' : Pc} {pc : ℕ → Pc}
    → Inv m pc
    → Kept i m m' p'
    → Inv m' (update pc i p')
Kept-Inv {i} {m} {m'} {p'} {pc} inv k = record { queue = k.queue; locals = others }
  where
    others : (j : ℕ) → Local j m' (update pc i p' j)
    others j = elim (ℕ_discrete j i) [
      | yes e ↦ rw (e, (==_iff i i).1 refl) k.own
      | no ne ↦ rw (≢_test j i ne) (k.others j (pc j) ne (inv.locals j))
    ]

wake-Local : (j : ℕ) (m : Shared) (p : Pc) → Local j m p → Local j m (wake p)
wake-Local j m asleep l = tt
wake-Local j m idle l = l
wake-Local j m _ l = l

wake_all-Inv :
    {m : Shared} {pc : ℕ → Pc} (i : ℕ) → Inv m pc → Inv m (update (λ j. wake (pc j)) i idle)
wake_all-Inv {m} {pc} i inv = record { queue = inv.queue; locals = others }
  where
    others : (j : ℕ) → Local j m (update (λ j. wake (pc j)) i idle j)
    others j = elim (ℕ_discrete j i) [
      | yes e ↦ rw (e, (==_iff i i).1 refl) tt
      | no ne ↦ rw (≢_test j i ne) (wake-Local j m (pc j) (inv.locals j))
    ]

Step-Inv : {s t : System} → Step s t → t.mem.pushes < 2 ^ 31 → Inv s.mem s.pc → Inv t.mem t.pc
Step-Inv (move i mv) few inv = Kept-Inv inv (Move-Kept i inv.queue mv (inv.locals i) few)
Step-Inv (wake_all i e) few inv = wake_all-Inv i inv

PushMove-pushes-le :
    {i : ℕ} {m m' : Shared} {p p' : Pc} → PushMove i m p m' p' → m.pushes ≤ m'.pushes
unfolding reserve_push store_item
PushMove-pushes-le (PushMove.win e) = omega arith
PushMove-pushes-le PushMove.put = omega arith
PushMove-pushes-le _ = omega arith

PopMove-pushes-le : {i : ℕ} {m m' : Shared} {p p' : Pc} → PopMove i m p m' p' → m.pushes ≤ m'.pushes
unfolding reserve_pop take_item
PopMove-pushes-le (PopMove.win e) = omega arith
PopMove-pushes-le PopMove.take = omega arith
PopMove-pushes-le _ = omega arith

WaitMove-pushes-le : {m m' : Shared} {p p' : Pc} → WaitMove m p m' p' → m.pushes ≤ m'.pushes
unfolding set_index
WaitMove-pushes-le (WaitMove.win e) = omega arith
WaitMove-pushes-le _ = omega arith

pub Step-pushes-le : {s t : System} → Step s t → s.mem.pushes ≤ t.mem.pushes
Step-pushes-le (move i (push mv)) = PushMove-pushes-le mv
Step-pushes-le (move i (pop mv)) = PopMove-pushes-le mv
Step-pushes-le (move i (wait mv)) = WaitMove-pushes-le mv
Step-pushes-le (wake_all i e) = omega arith

start-Inv : Inv empty_queue (λ _. idle)
start-Inv = record {
  queue = record {
    current = record { ordered = omega arith; window = omega arith };
    counted = refl;
    running = refl;
    sleepers = λ w. refl;
    places = λ q. omega arith;
    slots = λ q low. refl;
    reuse = λ q h. absurd (omega arith);
  };
  locals = λ i. tt;
}

-- While fewer than 2 ^ 31 tasks were pushed and nobody asks for a stop, whatever the threads do and
-- in whatever order: the counts keep to the window of the ring buffer; each position between them is
-- reserved by one push, with its slot empty, or stores its task in its slot; each position before
-- them is held or was taken by one pop; no position is reused before its task is taken; the wait
-- flag is raised on an empty queue only; and an index that a thread has in hand in a loop meets the
-- two assertions of the loops, has no stop flag, and counts no more than the current one.
pub Reach-Inv : {s : System} → Reach s → s.mem.pushes < 2 ^ 31 → Inv s.mem s.pc
Reach-Inv begin few = start-Inv
Reach-Inv (later r st) few = Step-Inv st few (Reach-Inv r (omega (arith, Step-pushes-le st)))
