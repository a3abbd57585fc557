-- ===== src/Svc/TaskQueueSet/Refinement.antt =====
-- The ring buffer of src/voxen/svc/task_queue_set.cpp as a bounded first-in first-out queue.
use voxen.Prelude.{
  ℕ, zero, suc, ◌+◌, ◌-◌, ◌^◌, ◌<◌, ◌≡◌, subst, sym, ap, ◌∙◌, Option, some, arith, refl, List, [],
  ◌∷◌, ◌++◌, length,
}
use voxen.Svc.TaskQueueSet.{
  Shared, update, reserve_push, push_index, pop_index, wait_index, store_item, reserve_pop,
  take_item, set_index, count31,
}
use voxen.Svc.TaskQueueSet.Threads.{
  Pc, popped, PushMove, PopMove, WaitMove, System, Step, Reach, move, wake_all, push, pop, wait,
}
use voxen.Svc.TaskQueueSet.Invariant.{Local, Queue, Inv}
use voxen.Svc.TaskQueueSet.Reached.{Step-pushes-le, Reach-Inv}

unfoldable pub segment : (ℕ → ℕ) → ℕ → ℕ → List ℕ
segment f from zero = []
segment f from (suc n) = f from ∷ segment f (from + 1) n

-- The tasks that were pushed and not popped, the oldest first.
unfoldable pub contents : Shared → List ℕ
contents m =
    segment m.pushed m.current_index.consume (m.current_index.produce - m.current_index.consume)

pub data Event : Type 0 where
  silent : Event
  enqueue : ℕ → Event
  dequeue : ℕ → Event

-- A bounded queue.
abbrev pub Fifo : Event → List ℕ → List ℕ → Type 0
Fifo silent before after = before ≡ after
Fifo (enqueue task) before after = (length before < 1024) × (after ≡ before ++ task ∷ [])
Fifo (dequeue task) before after = before ≡ task ∷ after

abbrev push_event : {i : ℕ} {m m' : Shared} {p p' : Pc} → PushMove i m p m' p' → Event
push_event (PushMove.win {task} _) = enqueue task
push_event _ = silent

abbrev pop_event : {i : ℕ} {m m' : Shared} {p p' : Pc} → PopMove i m p m' p' → Event
pop_event {m} (PopMove.win {index} _) = dequeue (m.pushed index.consume)
pop_event _ = silent

-- A push takes effect when it wins its compare-exchange, and so does a pop, with the task of the
-- place it wins.
unfoldable pub event : {s t : System} → Step s t → Event
event (move i (push mv)) = push_event mv
event (move i (pop mv)) = pop_event mv
event (move i (wait mv)) = silent
event (wake_all i e) = silent

segment-same :
    (f g : ℕ → ℕ) (from n : ℕ)
    → ((q : ℕ) → q < from + n → f q ≡ g q)
    → segment f from n ≡ segment g from n
unfolding segment
segment-same f g from zero h = refl
segment-same f g from (suc n) h =
    rw (h from (omega arith), segment-same f g (from + 1) n (λ q lt. h q (omega arith))) refl

segment-suc :
    (f : ℕ → ℕ) (from n : ℕ) → segment f from (suc n) ≡ segment f from n ++ f (from + n) ∷ []
unfolding segment
segment-suc f from zero = rw (plus_zero from) refl
  where
    plus_zero : (n : ℕ) → n + 0 ≡ n
    plus_zero n = omega arith
segment-suc f from (suc n) =
    ap (λ xs. f from ∷ xs)
      (segment-suc f (from + 1) n ∙ ap (λ k. segment f (from + 1) n ++ f k ∷ []) (shift from n))
  where
    shift : (a b : ℕ) → a + 1 + b ≡ a + suc b
    shift a b = omega arith

length-segment : (f : ℕ → ℕ) (from n : ℕ) → length (segment f from n) ≡ n
unfolding segment
length-segment f from zero = refl
length-segment f from (suc n) = omega (arith, length-segment f (from + 1) n)

segment-grown :
    (f g : ℕ → ℕ) (from n k place : ℕ)
    → k ≡ suc n
    → place ≡ from + n
    → ((q : ℕ) → q < place → g q ≡ f q)
    → segment g from k ≡ segment f from n ++ g place ∷ []
segment-grown f g from n k place more there same =
    rw (more, there)
      (segment-suc g from n
        ∙ ap (λ xs. xs ++ g (from + n) ∷ [])
            (segment-same g f from n (λ q lt. same q (omega arith))))

segment-shrunk :
    (f : ℕ → ℕ) (from next n k : ℕ)
    → k ≡ suc n
    → next ≡ from + 1
    → segment f from k ≡ f from ∷ segment f next n
unfolding segment
segment-shrunk f from next n k less after = rw (less, after) refl

module _ {m : Shared} (queue : Queue m) (i : ℕ) where
  abbrev produce : ℕ
  produce = m.current_index.produce

  abbrev consume : ℕ
  consume = m.current_index.consume

  pub reserve_push-contents :
      (task : ℕ)
      → produce + 1 < 2 ^ 31
      → produce < consume + 1024
      → Fifo (enqueue task) (contents m) (contents (reserve_push i task m))
  unfolding contents reserve_push push_index
  reserve_push-contents task few room = (
    omega (arith, length-segment m.pushed consume (produce - consume)),
    segment-grown m.pushed (update m.pushed produce task) consume (produce - consume)
          (count31 (produce + 1) - consume) produce (omega (arith, queue.current.ordered))
          (omega (arith, queue.current.ordered)) (λ q lt. ground arith)
        ∙ ap (λ x. contents m ++ x ∷ []) (ground arith),
  )

  pub reserve_pop-contents :
      consume < produce
      → produce < 2 ^ 31
      → Fifo (dequeue (m.pushed consume)) (contents m) (contents (reserve_pop i m))
  unfolding contents reserve_pop pop_index
  reserve_pop-contents more few =
      segment-shrunk m.pushed consume (count31 (consume + 1)) (produce - count31 (consume + 1))
        (produce - consume) (omega arith) (omega arith)

PushMove-Fifo :
    {i : ℕ} {m m' : Shared} {p p' : Pc} (mv : PushMove i m p m' p')
    → Queue m
    → Local i m p
    → m'.pushes < 2 ^ 31
    → Fifo (push_event mv) (contents m) (contents m')
unfolding contents store_item reserve_push
PushMove-Fifo {i} {m} (PushMove.win {task} {index} e) queue (l, room, before) few =
    let made : index.produce ≡ m.current_index.produce = sym (ap (λ x. x.produce) e) in
    let gone : index.consume ≡ m.current_index.consume = sym (ap (λ x. x.consume) e) in
    reserve_push-contents queue i task (omega (arith, queue.counted)) (omega arith)
PushMove-Fifo PushMove.put queue l few = refl
PushMove-Fifo PushMove.start queue l few = refl
PushMove-Fifo _ queue l few = refl

PopMove-Fifo :
    {i : ℕ} {m m' : Shared} {p p' : Pc} (mv : PopMove i m p m' p')
    → Queue m
    → Local i m p
    → m'.pushes < 2 ^ 31
    → Fifo (pop_event mv) (contents m) (contents m')
unfolding contents take_item reserve_pop
PopMove-Fifo {i} {m} (PopMove.win {waits} {index} e) queue (l, more, ready) few =
    let made : index.produce ≡ m.current_index.produce = sym (ap (λ x. x.produce) e) in
    let gone : index.consume ≡ m.current_index.consume = sym (ap (λ x. x.consume) e) in
    rw gone (reserve_pop-contents queue i (omega arith) (omega (arith, queue.counted)))
PopMove-Fifo PopMove.take queue l few = refl
PopMove-Fifo PopMove.start queue l few = refl
PopMove-Fifo _ queue l few = refl

WaitMove-contents : {m m' : Shared} {p p' : Pc} → WaitMove m p m' p' → contents m ≡ contents m'
unfolding contents set_index wait_index
WaitMove-contents {m} (WaitMove.win {index} e) =
    ap (λ x. segment m.pushed x.consume (x.produce - x.consume)) e
WaitMove-contents WaitMove.lose = refl
WaitMove-contents _ = refl

refines_queue :
    {s t : System}
    → Inv s.mem s.pc
    → t.mem.pushes < 2 ^ 31
    → (st : Step s t) → Fifo (event st) (contents s.mem) (contents t.mem)
unfolding event
refines_queue inv few (move i (push mv)) = PushMove-Fifo mv inv.queue (inv.locals i) few
refines_queue inv few (move i (pop mv)) = PopMove-Fifo mv inv.queue (inv.locals i) few
refines_queue inv few (move i (wait mv)) = WaitMove-contents mv
refines_queue inv few (wake_all i e) = refl

-- Each step of each thread is a step of a queue of at most 1024 tasks, first in first out: a push
-- that wins its compare-exchange finds room and appends its task, a pop that wins removes the
-- oldest task, the one that was pushed at its place, and no other step changes the tasks. This
-- holds in every state reached with no stop, with fewer than 2 ^ 31 pushes after the step.
pub Step-Fifo :
    {s t : System}
    → Reach s
    → t.mem.pushes < 2 ^ 31
    → (st : Step s t) → Fifo (event st) (contents s.mem) (contents t.mem)
Step-Fifo r few st = refines_queue (Reach-Inv r (omega (arith, Step-pushes-le st))) few st

-- In a state reached with no stop and fewer than 2 ^ 31 pushes, a thread that returns from a pop of
-- a place has the task that was pushed at this place, and no other thread returns from a pop of the
-- same place.
pub popped_once :
    {s : System}
    → Reach s
    → s.mem.pushes < 2 ^ 31
    → (i j place : ℕ) (a b : Option ℕ) → s.pc i ≡ popped place a
    → s.pc j ≡ popped place b
    → (a ≡ some (s.mem.pushed place)) × (i ≡ j)
popped_once {s} r few i j place a b e f =
    let inv = Reach-Inv r few in
    let mine : Local i s.mem (popped place a) = subst (Local i s.mem) e (inv.locals i) in
    let theirs : Local j s.mem (popped place b) = subst (Local j s.mem) f (inv.locals j) in
    (mine.1, cc)
