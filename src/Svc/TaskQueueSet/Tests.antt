-- ===== src/Svc/TaskQueueSet/Tests.antt =====
-- Runs of src/voxen/svc/task_queue_set.cpp with two threads and one queue.
use voxen.Prelude.{List, ◌≢◌, ℕ, ◌≡◌, ◌≢◌, true, false, some, arith, refl, [], ◌∷◌, ◌++◌}
use voxen.Svc.TaskQueueSet.{
  ProduceConsumeIndex, Shared, update, push_index, pop_index, wait_index, stop_index, reserve_push,
  store_item, reserve_pop, take_item, set_index,
}
use voxen.Svc.TaskQueueSet.Threads.{
  Pc, idle, push_store, popped, pop_reload, waking, stop_cas, PushMove, PopMove, WaitMove, StopMove,
  System, Step, Reach, begin, later, move, push, pop, wait, empty_queue,
}
use voxen.Svc.TaskQueueSet.Invariant.{Inv}
use voxen.Svc.TaskQueueSet.Reached.{Reach-Inv}
use voxen.Svc.TaskQueueSet.Refinement.{
  contents, segment, event, Fifo, enqueue, Step-Fifo, popped_once,
}
use voxen.Svc.TaskQueueSet.Wakeups.{Alone, InCall, no_lost_wakeup}
use voxen.Svc.TaskQueueSet.StopFlag.{AnyReach, AnyStep, going_on, stopping, stop_stays}
use voxen.Svc.TaskQueueSet.Solo.{push_alone}
use voxen.Svc.TaskQueueSet.Draining.{Destroys, destructor_drains}
use voxen.Svc.TaskQueueSet.Stopping.{loaded, again, CanSleep, stop_writes_first_counts, stop_missed}

record Ran : Type 0 where
  last : System
  reach : Reach last

abbrev after : (r : Ran) {t : System} → Step r.last t → Ran
after r st = record { last = _; reach = later r.reach st }

abbrev opened : Ran
opened = record { last = _; reach = begin }

-- Thread 0 pushes 7, up to its compare-exchange.
abbrev about_to_push : Ran
about_to_push =
    after
      (after (after opened (move 0 (push (PushMove.start {task = 7}))))
        (move 0 (push (PushMove.room (omega arith)))))
      (move 0 (push (PushMove.free refl)))

abbrev reserving : System
reserving = record {
  mem = reserve_push 0 7 about_to_push.last.mem;
  pc = update about_to_push.last.pc 0 (push_store 7 0 false);
}

abbrev wins_push : Step about_to_push.last reserving
wins_push = move 0 (push (PushMove.win refl))

pushed_one : Ran
pushed_one =
    after (after (after about_to_push wins_push) (move 0 (push PushMove.put)))
      (move 0 (push PushMove.quiet))

-- Thread 1 pops the task.
popped_one : Ran
unfolding pushed_one reserve_push push_index store_item
popped_one =
    after
      (after
        (after
          (after (after pushed_one (move 1 (pop (PopMove.start {waits = false}))))
            (move 1 (pop (PopMove.ready refl (omega arith)))))
          (move 1 (pop (PopMove.found {task = 7} refl))))
        (move 1 (pop (PopMove.win refl))))
      (move 1 (pop PopMove.take))

-- Thread 1 finds the queue empty, and stands before its first call of the futex.
abbrev first_load : ProduceConsumeIndex
first_load = empty_queue.current_index

first_wait : Ran
first_wait =
    after
      (after (after opened (move 1 (pop (PopMove.start {waits = true}))))
        (move 1 (wait (WaitMove.empty refl refl))))
      (move 1 (wait (WaitMove.win refl)))

-- The futex turns it away, and on its second round it sleeps.
sleeping_one : Ran
unfolding first_wait set_index wait_index
sleeping_one =
    after
      (after
        (after
          (after (after first_wait (move 1 (wait WaitMove.skip))) (move 1 (pop PopMove.reload)))
          (move 1 (wait (WaitMove.empty refl refl))))
        (move 1 (wait (WaitMove.win refl))))
      (move 1 (wait (WaitMove.sleep refl refl)))

-- Then thread 0 reserves a place for 7.
called_one : Ran
unfolding first_wait sleeping_one set_index wait_index
called_one =
    after
      (after
        (after (after sleeping_one (move 0 (push (PushMove.start {task = 7}))))
          (move 0 (push (PushMove.room (omega arith)))))
        (move 0 (push (PushMove.free refl))))
      (move 0 (push (PushMove.win refl)))

popped_one_result : (popped_one.last.pc 1 ≡ popped 0 (some 7)) × (contents popped_one.last.mem ≡ [])
unfolding popped_one pushed_one reserve_push push_index store_item reserve_pop pop_index take_item
    contents segment
popped_one_result = (refl, refl)

pushed_one_result : contents pushed_one.last.mem ≡ 7 ∷ []
unfolding pushed_one reserve_push push_index store_item contents segment
pushed_one_result = refl

called_one_result : called_one.last.pc 0 ≡ push_store 7 0 true
unfolding called_one first_wait sleeping_one set_index wait_index
called_one_result = refl

Reach-Inv_example : Inv popped_one.last.mem popped_one.last.pc
unfolding popped_one pushed_one reserve_push push_index store_item reserve_pop pop_index take_item
Reach-Inv_example = Reach-Inv popped_one.reach (omega arith)

Step-Fifo_example : Fifo (enqueue 7) (contents empty_queue) (contents reserving.mem)
unfolding reserve_push push_index event
Step-Fifo_example = Step-Fifo about_to_push.reach (omega arith) wins_push

popped_once_example : (some 7 ≡ some (popped_one.last.mem.pushed 0)) × ◌≡◌ {A = ℕ} 1 1
unfolding popped_one pushed_one reserve_push push_index store_item reserve_pop pop_index take_item
popped_once_example = popped_once popped_one.reach (omega arith) 1 1 0 (some 7) (some 7) refl refl

no_lost_wakeup_example :
    (k : ℕ) × (k ≢ 1) × (t : System) × InCall k called_one.last t × (t.pc 1 ≡ pop_reload true)
unfolding called_one first_wait sleeping_one set_index wait_index reserve_push push_index
no_lost_wakeup_example = no_lost_wakeup called_one.reach (omega arith) 1 refl (omega arith)

-- A stop that loads the index of the empty queue and wins after the push of 7.
abbrev outdated : ProduceConsumeIndex
outdated = stop_index first_load

abbrev at_pushed : Pc
at_pushed = stop_cas pushed_one.last.mem.current_index outdated

abbrev stopped_one : Shared
stopped_one = set_index (stop_index outdated) pushed_one.last.mem

abbrev lost_attempt :
    StopMove pushed_one.last.mem (stop_cas first_load first_load) pushed_one.last.mem at_pushed
lost_attempt = StopMove.lose

abbrev won_attempt :
    StopMove pushed_one.last.mem at_pushed stopped_one
      (waking pushed_one.last.mem.current_index.wait_flag)
won_attempt = StopMove.win refl

abbrev loads_empty : StopMove empty_queue idle empty_queue (stop_cas first_load first_load)
loads_empty = StopMove.start

stop_writes_first_counts_example :
    (stopped_one.current_index.produce ≡ 0)
    × (stopped_one.current_index.consume ≡ 0)
    × (stopped_one.current_index.stop_flag ≡ true)
    × (stopped_one.current_index.wait_flag ≡ false)
    × (pushed_one.last.mem.current_index.wait_flag ≡ pushed_one.last.mem.current_index.wait_flag)
stop_writes_first_counts_example =
    stop_writes_first_counts (again (loaded refl loads_empty) lost_attempt) won_attempt

stop_missed_example :
    (¬ CanSleep first_wait.last.mem first_load)
    × CanSleep
        (set_index (stop_index first_wait.last.mem.current_index) first_wait.last.mem)
        first_load
unfolding first_wait set_index wait_index
stop_missed_example = stop_missed first_wait.reach (omega arith) 1 first_load refl refl refl

quiet_one : (j : ℕ) → pushed_one.last.pc j ≡ idle
unfolding pushed_one reserve_push push_index store_item
quiet_one j = ground arith

push_alone_example :
    (t : System) × Alone 1 pushed_one.last t
    × (contents t.mem ≡ contents pushed_one.last.mem ++ 8 ∷ [])
    × (t.pc 1 ≡ waking pushed_one.last.mem.current_index.wait_flag)
unfolding pushed_one reserve_push push_index store_item
push_alone_example =
    push_alone pushed_one.reach 1 refl (omega arith) 8 (omega arith) (λ q k e. absurd (omega arith))

destructor_drains_example :
    ((tasks : List ℕ) × (m' : Shared) × Destroys 2 pushed_one.last.mem tasks m')
    × ((tasks : List ℕ) (m' : Shared)
        → Destroys 2 pushed_one.last.mem tasks m'
        → (tasks ≡ contents pushed_one.last.mem) × (contents m' ≡ []))
unfolding pushed_one reserve_push push_index store_item
destructor_drains_example = destructor_drains pushed_one.reach (omega arith) 2 quiet_one

-- Thread 2 stops the empty queue, and then thread 0 pushes.
record AnyRan : Type 0 where
  last : System
  reach : AnyReach last

abbrev goes_on : (r : AnyRan) {t : System} → AnyStep r.last t → AnyRan
goes_on r st = record { last = _; reach = AnyReach.after r.reach st }

abbrev stopping_one : AnyRan
stopping_one = goes_on (record { last = _; reach = AnyReach.opened }) (stopping 2 StopMove.start)

after_stop : AnyRan
unfolding set_index stop_index
after_stop =
    goes_on
      (goes_on
        (goes_on (goes_on stopping_one (stopping 2 (StopMove.win refl)))
          (going_on (move 0 (push (PushMove.start {task = 7})))))
        (going_on (move 0 (push (PushMove.room (omega arith))))))
      (going_on (move 0 (push (PushMove.free refl))))

stop_stays_example : (reserve_push 0 7 after_stop.last.mem).current_index.stop_flag ≡ true
unfolding after_stop set_index stop_index
stop_stays_example = stop_stays after_stop.reach (going_on (move 0 (push (PushMove.win refl)))) refl
