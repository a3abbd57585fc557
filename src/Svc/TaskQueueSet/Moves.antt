-- ===== src/Svc/TaskQueueSet/Moves.antt =====
-- The steps of the threads of one queue of src/voxen/svc/task_queue_set.cpp, one function at a time.
use voxen.Prelude.{
  ℕ, ◌+◌, ◌^◌, ◌≤◌, ◌<◌, ◌≡◌, ◌≢◌, subst, sym, ap, ◌∙◌, true, none, some, arith, refl,
}
use voxen.Svc.TaskQueueSet.{
  ProduceConsumeIndex, Stage, unused, reserved, stored, taking, taken, Shared, slot, reserve_push,
  reserve_pop, take_item, set_index, wait_index,
}
use voxen.Svc.TaskQueueSet.Threads.{
  Pc, idle, push_loop, push_reload, push_item, push_cas, push_store, waking, pop_loop, pop_reload,
  pop_item, pop_cas, pop_exchange, popped, wait_cas, wait_futex, asleep, PushMove, PopMove,
  WaitMove, Move, push, pop, wait,
}
use voxen.Svc.TaskQueueSet.Invariant.{
  is_taken, Place, Slot, Loaded, Local, Queue, Frame, Local-Frame,
}
use voxen.Svc.TaskQueueSet.Pushing.{
  same_slot, reserve_push-Queue, reserve_push-Frame, store_item-Queue, store_item-Frame,
}
use voxen.Svc.TaskQueueSet.Popping.{
  reserve_pop-Queue, reserve_pop-Frame, take_item-Queue, take_item-Frame, wait-Queue, wait-Frame,
}

module _ {m : Shared} (queue : Queue m) where
  open queue use {current, running, places, slots, sleepers}

  Loaded-current : Loaded m m.current_index
  Loaded-current = record {
    produced = omega arith;
    consumed = omega arith;
    asserted = current;
    going = running;
  }

  -- An empty slot of a position in the window is a slot whose last task is taken.
  slot_free :
      (q : ℕ) (s : Stage)
      → q < m.current_index.consume
      → Place m.current_index q s
      → Slot m.current_index.produce q (m.pushed q) (m.item (slot q)) s
      → m.item (slot q) ≡ none
      → is_taken s ≡ true
  slot_free q unused lt p h e = absurd (omega (arith, current.ordered))
  slot_free q (reserved _) lt p h e = absurd (omega arith)
  slot_free q stored lt p h e = absurd (omega arith)
  slot_free q (taking _) lt p h e = cc
  slot_free q (taken _) lt p h e = refl

  -- A task seen at the consume count is stored.
  slot_full :
      (q task : ℕ) (s : Stage)
      → m.current_index.consume ≤ q
      → q < m.current_index.produce
      → Place m.current_index q s
      → Slot m.current_index.produce q (m.pushed q) (m.item (slot q)) s
      → m.item (slot q) ≡ some task
      → s ≡ stored
  slot_full q task unused le lt p h e = absurd (omega arith)
  slot_full q task (reserved _) le lt p h e = cc
  slot_full q task stored le lt p h e = refl
  slot_full q task (taking _) le lt p h e = absurd (omega arith)
  slot_full q task (taken _) le lt p h e = absurd (omega arith)

  slot_taking : (i q : ℕ) → m.stage q ≡ taking i → m.item (slot q) ≡ some (m.pushed q)
  slot_taking i q e = subst (Slot m.current_index.produce q _ _) e (slots q)

-- What a step of thread `i` leaves behind: the queue, its own locals, and those of the others.
pub record Kept (i : ℕ) (m m' : Shared) (p' : Pc) : Type 0 where
  pub queue : Queue m'
  pub own : Local i m' p'
  pub others : (j : ℕ) (p : Pc) → j ≢ i → Local j m p → Local j m' p

module _ (i : ℕ) {m : Shared} (queue : Queue m) where
  same : (p' : Pc) → Local i m p' → Kept i m m p'
  same p' l = record { queue = queue; own = l; others = λ j p ne h. h }

  written : {m' : Shared} (p' : Pc) → Queue m' → Frame i m m' → Local i m' p' → Kept i m m' p'
  written p' q f l = record { queue = q; own = l; others = Local-Frame f }

  push_won :
      (task : ℕ) (index : ProduceConsumeIndex)
      → m.current_index ≡ index
      → Loaded m index
      → index.produce < index.consume + 1024
      → ((q : ℕ)
          → q + 1024 ≡ index.produce
          → index.produce ≡ m.current_index.produce
          → is_taken (m.stage q) ≡ true)
      → (reserve_push i task m).pushes < 2 ^ 31
      → Kept i m (reserve_push i task m) (push_store task index.produce index.wait_flag)
  unfolding reserve_push
  push_won task index e l room before few =
      let made : index.produce ≡ m.current_index.produce = sym (ap (λ x. x.produce) e) in
      let gone : index.consume ≡ m.current_index.consume = sym (ap (λ x. x.consume) e) in
      let fits : m.current_index.produce + 1 < 2 ^ 31 = omega (arith, queue.counted) in
      let space : m.current_index.produce < m.current_index.consume + 1024 = omega arith in
      let earlier : (q : ℕ) → q + 1024 ≡ m.current_index.produce → is_taken (m.stage q) ≡ true =
        λ q next. before q (omega arith) made in
      written (push_store task index.produce index.wait_flag)
        (reserve_push-Queue i queue task fits space earlier)
        (reserve_push-Frame i queue task fits space earlier) (ground arith, ground arith)

  pub PushMove-Kept :
      {p p' : Pc} {m' : Shared}
      → PushMove i m p m' p'
      → Local i m p
      → m'.pushes < 2 ^ 31
      → Kept i m m' p'
  PushMove-Kept (PushMove.start {task}) l few =
      same (push_loop task m.current_index) (Loaded-current queue)
  PushMove-Kept (PushMove.full {task} e) l few = same (push_reload task) tt
  PushMove-Kept (PushMove.room {task} {index} ne) l few =
      same (push_item task index) (l, omega (arith, l.asserted.window))
  PushMove-Kept (PushMove.reload {task}) l few =
      same (push_loop task m.current_index) (Loaded-current queue)
  PushMove-Kept (PushMove.occupied {task} e) l few = same (push_reload task) tt
  PushMove-Kept (PushMove.free {task} {index} e) (l, room) few = same (push_cas task index) (
    l,
    room,
    λ q next now.
        slot_free queue q (m.stage q) (omega (arith, l.consumed)) (queue.places q) (queue.slots q)
          (ap m.item (same_slot q index.produce next) ∙ e),
  )
  PushMove-Kept (PushMove.lose {task}) l few =
      same (push_loop task m.current_index) (Loaded-current queue)
  PushMove-Kept (PushMove.win {task} {index} e) (l, room, before) few =
      push_won task index e l room before few
  PushMove-Kept (PushMove.put {task} {place} {need_wake}) (mine, what) few =
      written (waking need_wake) (store_item-Queue i queue task place mine what)
        (store_item-Frame i queue task place mine what) tt
  PushMove-Kept PushMove.quiet l few = same idle tt

  pop_won :
      (index : ProduceConsumeIndex)
      → m.current_index ≡ index
      → index.consume < index.produce
      → (index.consume ≡ m.current_index.consume → m.stage index.consume ≡ stored)
      → m.pushes < 2 ^ 31
      → Kept i m (reserve_pop i m) (pop_exchange index.consume)
  unfolding reserve_pop
  pop_won index e more ready few =
      let made : index.produce ≡ m.current_index.produce = sym (ap (λ x. x.produce) e) in
      let gone : index.consume ≡ m.current_index.consume = sym (ap (λ x. x.consume) e) in
      let fits : m.current_index.produce < 2 ^ 31 = omega (arith, queue.counted) in
      let some_left : m.current_index.consume < m.current_index.produce = omega arith in
      let full : m.stage m.current_index.consume ≡ stored =
        subst (λ q. m.stage q ≡ stored) gone (ready gone) in
      written (pop_exchange index.consume) (reserve_pop-Queue i queue fits some_left full)
        (reserve_pop-Frame i queue fits some_left full) (ground arith)

  took :
      (place : ℕ)
      → m.stage place ≡ taking i
      → Local i (take_item i place m) (popped place (m.item (slot place)))
  unfolding take_item
  took place mine = (ground arith, slot_taking queue i place mine)

  PopMove-pushes :
      {p p' : Pc} {m' : Shared} → PopMove i m p m' p' → m'.pushes < 2 ^ 31 → m.pushes < 2 ^ 31
  unfolding reserve_pop take_item
  PopMove-pushes (PopMove.win _) few = few
  PopMove-pushes PopMove.take few = few
  PopMove-pushes _ few = few

  wait_won :
      (index : ProduceConsumeIndex)
      → m.current_index ≡ index
      → index.produce ≡ index.consume
      → Kept i m (set_index (wait_index index) m) (wait_futex index)
  unfolding set_index wait_index
  wait_won index e none_left =
      let made : index.produce ≡ m.current_index.produce = sym (ap (λ x. x.produce) e) in
      let gone : index.consume ≡ m.current_index.consume = sym (ap (λ x. x.consume) e) in
      let empty : m.current_index.produce ≡ m.current_index.consume = omega arith in
      subst (λ x. Kept i m (set_index (wait_index x) m) (wait_futex index)) e
        (written (wait_futex index) (wait-Queue i queue empty) (wait-Frame i queue empty)
          (omega arith, λ _. refl))

  pub PopMove-Kept :
      {p p' : Pc} {m' : Shared}
      → PopMove i m p m' p'
      → Local i m p
      → m.pushes < 2 ^ 31
      → Kept i m m' p'
  PopMove-Kept (PopMove.start {waits}) l few =
      same (pop_loop waits m.current_index) (Loaded-current queue)
  PopMove-Kept (PopMove.stopped _) l few = same idle tt
  PopMove-Kept (PopMove.nothing _ _) l few = same idle tt
  PopMove-Kept (PopMove.ready {waits} {index} going ne) l few =
      same (pop_item waits index) (l, omega (arith, l.asserted.ordered))
  PopMove-Kept (PopMove.gone {waits} e) l few = same (pop_reload waits) tt
  PopMove-Kept (PopMove.reload {waits}) l few =
      same (pop_loop waits m.current_index) (Loaded-current queue)
  PopMove-Kept (PopMove.found {waits} {index} {task} e) (l, more) few = same (pop_cas waits index) (
    l,
    more,
    λ now.
        slot_full queue index.consume task (m.stage index.consume) (omega arith)
          (omega (arith, l.produced)) (queue.places index.consume) (queue.slots index.consume) e,
  )
  PopMove-Kept (PopMove.lose {waits}) l few =
      same (pop_loop waits m.current_index) (Loaded-current queue)
  PopMove-Kept (PopMove.win {waits} {index} e) (l, more, ready) few = pop_won index e more ready few
  PopMove-Kept (PopMove.take {place}) mine few =
      written (popped place (m.item (slot place))) (take_item-Queue i queue place mine)
        (take_item-Frame i queue place mine) (took place mine)
  PopMove-Kept PopMove.done l few = same idle tt

  pub WaitMove-Kept : {p p' : Pc} {m' : Shared} → WaitMove m p m' p' → Local i m p → Kept i m m' p'
  WaitMove-Kept (WaitMove.empty {index} going e) l = same (wait_cas index) (l, e)
  WaitMove-Kept WaitMove.lose l = same (pop_loop true m.current_index) (Loaded-current queue)
  WaitMove-Kept (WaitMove.win {index} e) (l, none_left) = wait_won index e none_left
  WaitMove-Kept (WaitMove.sleep _ _) l = same asleep tt
  WaitMove-Kept WaitMove.skip l = same (pop_reload true) tt
  WaitMove-Kept WaitMove.interrupt l = same (pop_reload true) tt

  pub Move-Kept :
      {p p' : Pc} {m' : Shared}
      → Move i m p m' p'
      → Local i m p
      → m'.pushes < 2 ^ 31
      → Kept i m m' p'
  Move-Kept (push mv) l few = PushMove-Kept mv l few
  Move-Kept (pop mv) l few = PopMove-Kept mv l (PopMove-pushes mv few)
  Move-Kept (wait mv) l few = WaitMove-Kept mv l
