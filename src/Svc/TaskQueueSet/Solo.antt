-- ===== src/Svc/TaskQueueSet/Solo.antt =====
-- A thread of src/voxen/svc/task_queue_set.cpp that runs while the others stand still.
use voxen.Prelude.{
  ℕ, ◌+◌, ◌^◌, ◌≤◌, ◌<◌, ◌≡◌, ◌≢◌, subst, sym, ap, ◌∙◌, true, false, none, arith, refl, [], ◌∷◌,
  ◌++◌,
}
use voxen.Svc.TaskQueueSet.{
  Stage, unused, reserved, stored, taking, taken, Shared, update, slot, reserve_push, store_item,
}
use voxen.Svc.TaskQueueSet.Threads.{
  Pc, idle, waking, PushMove, Move, System, Reach, later, move, push,
}
use voxen.Svc.TaskQueueSet.Invariant.{is_taken, Place, Queue}
use voxen.Svc.TaskQueueSet.Pushing.{next_slot}
use voxen.Svc.TaskQueueSet.Reached.{Reach-Inv}
use voxen.Svc.TaskQueueSet.Refinement.{contents, reserve_push-contents}
use voxen.Svc.TaskQueueSet.Wakeups.{Alone, rest, next, mover}
use voxen.Svc.TaskQueueSet.Holders.{takes_at, Reach-Held}

data Walk (i : ℕ) : Shared → Pc → Shared → Pc → Type 0 where
  end : {m : Shared} {p : Pc} → Walk i m p m p
  more :
      {m m' m'' : Shared} {p p' p'' : Pc}
      → Move i m p m' p'
      → Walk i m' p' m'' p''
      → Walk i m p m'' p''

-- Where the moves of thread `i` lead to.
pub record Led (i : ℕ) (s : System) (m' : Shared) (p' : Pc) : Type 0 where
  pub last : System
  pub run : Alone i s last
  pub mem : last.mem ≡ m'
  pub own : last.pc i ≡ p'
  pub others : (j : ℕ) → j ≢ i → last.pc j ≡ s.pc j

update_self : (pc : ℕ → Pc) (i : ℕ) (p : Pc) → update pc i p i ≡ p
update_self pc i p = ground arith

update_ne : (pc : ℕ → Pc) (i j : ℕ) (p : Pc) → j ≢ i → update pc i p j ≡ pc j
update_ne pc i j p ne = ground arith

moves_lead :
    {i : ℕ} {m m' : Shared} {p p' : Pc}
    → Walk i m p m' p'
    → (s : System) → s.mem ≡ m
    → s.pc i ≡ p
    → Led i s m' p'
unfolding mover
moves_lead end s same e = record {
  last = s;
  run = rest;
  mem = same;
  own = e;
  others = λ j ne. refl;
}
moves_lead {i} (more {m = m} {m' = m1} {p = p} {p' = p1} mv ms) s same e =
    let mv' : Move i s.mem (s.pc i) m1 p1 =
      subst (λ x. Move i x (s.pc i) m1 p1) (sym same) (subst (λ x. Move i m x m1 p1) (sym e) mv) in
    let l =
      moves_lead ms (record { mem = m1; pc = update s.pc i p1 }) refl (update_self s.pc i p1) in
    record {
      last = l.last;
      run = next (move i mv') refl l.run;
      mem = l.mem;
      own = l.own;
      others = λ j ne. l.others j ne ∙ update_ne s.pc i j p1 ne;
    }

pub Alone-Reach : {i : ℕ} {s t : System} → Alone i s t → Reach s → Reach t
Alone-Reach rest r = r
Alone-Reach (next st e run) r = Alone-Reach run (later r st)

module _ {m : Shared} (queue : Queue m) (i : ℕ) where
  push_moves :
      (task : ℕ)
      → m.current_index.produce < m.current_index.consume + 1024
      → m.item (slot m.current_index.produce) ≡ none
      → Walk i m idle
          (store_item task m.current_index.produce (reserve_push i task m))
          (waking m.current_index.wait_flag)
  push_moves task room free = more (push (PushMove.start {task = task})) (
      more (push (PushMove.room (omega arith))) (
        more (push (PushMove.free free))
          (more (push (PushMove.win refl)) (more (push PushMove.put) end))))

module _ {s : System} (r : Reach s) (i : ℕ) (starts : s.pc i ≡ idle) where
  abbrev produce : ℕ
  produce = s.mem.current_index.produce

  abbrev consume : ℕ
  consume = s.mem.current_index.consume

  passed_taken :
      (q : ℕ) (g : Stage)
      → q < consume
      → Place s.mem.current_index q g
      → ((k : ℕ) → g ≢ taking k)
      → consume ≤ produce
      → is_taken g ≡ true
  passed_taken q unused lt p nobody le = absurd (omega arith)
  passed_taken q (reserved _) lt p nobody le = absurd (omega arith)
  passed_taken q stored lt p nobody le = absurd (omega arith)
  passed_taken q (taking k) lt p nobody le = absurd (nobody k refl)
  passed_taken q (taken _) lt p nobody le = refl

  -- In a state reached with no stop, with fewer than 2 ^ 31 pushes even after one more, with room in
  -- the buffer and no thread about to take the last task of the next slot, an idle thread has a run,
  -- alone, that appends its task and stands before its wakeup, which it makes if the wait flag was up.
  pub push_alone :
      s.mem.pushes + 1 < 2 ^ 31
      → (task : ℕ) → produce < consume + 1024
      → ((q k : ℕ) → q + 1024 ≡ produce → takes_at q (s.pc k) ≡ false)
      → (t : System) × Alone i s t
        × (contents t.mem ≡ contents s.mem ++ task ∷ [])
        × (t.pc i ≡ waking s.mem.current_index.wait_flag)
  unfolding contents store_item
  push_alone few task room nobody =
      let inv = Reach-Inv r (omega arith) in
      let fits : produce + 1 < 2 ^ 31 = omega (arith, inv.queue.counted) in
      let before : (q : ℕ) → q + 1024 ≡ produce → is_taken (s.mem.stage q) ≡ true = λ q e.
        passed_taken q (s.mem.stage q) (omega arith) (inv.queue.places q)
          (λ k f. cc ((Reach-Held r q k).1 f, nobody q k e)) inv.queue.current.ordered in
      let led =
        moves_lead (push_moves inv.queue i task room (next_slot i inv.queue task fits room before))
          s refl starts in
      (
        led.last,
        led.run,
        ap contents led.mem ∙ (reserve_push-contents inv.queue i task fits room).1,
        led.own,
      )
