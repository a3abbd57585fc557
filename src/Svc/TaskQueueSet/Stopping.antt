-- ===== src/Svc/TaskQueueSet/Stopping.antt =====
-- `requestStopAll` of src/voxen/svc/task_queue_set.cpp at one queue, while other threads go on.
use voxen.Prelude.{ℕ, ◌^◌, ◌<◌, ◌≡◌, subst, sym, ap, Bool, true, false, refl}
use voxen.Svc.TaskQueueSet.{ProduceConsumeIndex, Shared, stop_index, set_index}
use voxen.Svc.TaskQueueSet.Threads.{
  Pc, idle, waking, asleep, wait_futex, stop_cas, WaitMove, StopMove, System, Reach,
}
use voxen.Svc.TaskQueueSet.Invariant.{Local}
use voxen.Svc.TaskQueueSet.Reached.{Reach-Inv}

-- Where `requestStopAll` stands after it has loaded `first` and lost any number of times, with
-- any writes of other threads between its steps.
pub data Stopping (first : ProduceConsumeIndex) : Pc → Type 0 where
  loaded : {m : Shared} {p : Pc} → m.current_index ≡ first → StopMove m idle m p → Stopping first p
  again : {m : Shared} {p p' : Pc} → Stopping first p → StopMove m p m p' → Stopping first p'

-- What a stop has in hand keeps the counts of the first load.
abbrev Stale : ProduceConsumeIndex → Pc → Type 0
Stale first (stop_cas _ new_index) =
    (new_index.produce ≡ first.produce) × (new_index.consume ≡ first.consume)
Stale first idle = ⊥
Stale first _ = Unit {0}

abbrev is_idle : Pc → Bool
is_idle idle = true
is_idle _ = false

loaded-Stale :
    {m m' : Shared} {p p' : Pc} (first : ProduceConsumeIndex)
    → StopMove m p m' p'
    → is_idle p ≡ true
    → m.current_index ≡ first
    → Stale first p'
loaded-Stale first StopMove.start h e = (ap (λ x. x.produce) e, ap (λ x. x.consume) e)
loaded-Stale first StopMove.lose h e = cc
loaded-Stale first (StopMove.win _) h e = tt

again-Stale :
    {m m' : Shared} {p p' : Pc} (first : ProduceConsumeIndex)
    → StopMove m p m' p'
    → Stale first p
    → Stale first p'
unfolding stop_index
again-Stale first StopMove.start l = absurd l
again-Stale first StopMove.lose l = l
again-Stale first (StopMove.win _) l = tt

Stopping-Stale : {first : ProduceConsumeIndex} {p : Pc} → Stopping first p → Stale first p
Stopping-Stale {first} (loaded e mv) = loaded-Stale first mv refl e
Stopping-Stale {first} (again st mv) = again-Stale first mv (Stopping-Stale st)

abbrev need_wake_of : Pc → Bool
need_wake_of (waking need_wake) = need_wake
need_wake_of _ = false

-- What the winning compare-exchange has written.
abbrev Stopped : ProduceConsumeIndex → Shared → Shared → Pc → Type 0
Stopped first m m' (waking need_wake) =
    (m'.current_index.produce ≡ first.produce)
    × (m'.current_index.consume ≡ first.consume)
    × (m'.current_index.stop_flag ≡ true)
    × (m'.current_index.wait_flag ≡ false)
    × (need_wake ≡ m.current_index.wait_flag)
Stopped first m m' _ = Unit {0}

StopMove-Stopped :
    {m m' : Shared} {p p' : Pc} (first : ProduceConsumeIndex)
    → StopMove m p m' p'
    → Stale first p
    → Stopped first m m' p'
unfolding stop_index set_index
StopMove-Stopped first StopMove.start l = tt
StopMove-Stopped first StopMove.lose l = tt
StopMove-Stopped first (StopMove.win e) l = (l.0, l.1, refl, refl, sym (ap (λ x. x.wait_flag) e))

-- Whatever other threads write between the load of `requestStopAll`, its failed attempts and the
-- attempt that wins, the win raises the stop flag, clears the wait flag and wakes the threads
-- exactly when the wait flag was up; but the counts it writes are those of the first load,
-- whatever was pushed and popped since.
pub stop_writes_first_counts :
    {first : ProduceConsumeIndex} {m m' : Shared} {p : Pc} {need_wake : Bool}
    → Stopping first p
    → StopMove m p m' (waking need_wake)
    → (m'.current_index.produce ≡ first.produce)
      × (m'.current_index.consume ≡ first.consume)
      × (m'.current_index.stop_flag ≡ true)
      × (m'.current_index.wait_flag ≡ false)
      × (need_wake ≡ m.current_index.wait_flag)
stop_writes_first_counts {first} st mv = StopMove-Stopped first mv (Stopping-Stale st)

-- The condition under which the futex puts a thread to sleep.
abbrev Sleeps : Shared → Pc → Type 0
Sleeps m (wait_futex index) =
    (m.current_index.produce ≡ index.produce) × (m.current_index.wait_flag ≡ index.wait_flag)
Sleeps m _ = Unit {0}

abbrev pub CanSleep : Shared → ProduceConsumeIndex → Type 0
CanSleep m index = WaitMove m (wait_futex index) m asleep

WaitMove-Sleeps : {m m' : Shared} {p p' : Pc} → WaitMove m p m' p' → p' ≡ asleep → Sleeps m p
WaitMove-Sleeps (WaitMove.sleep e f) h = (e, f)
WaitMove-Sleeps WaitMove.skip h = cc
WaitMove-Sleeps WaitMove.interrupt h = tt
WaitMove-Sleeps (WaitMove.empty _ _) h = tt
WaitMove-Sleeps WaitMove.lose h = tt
WaitMove-Sleeps (WaitMove.win _) h = tt

-- In a state reached with no stop and fewer than 2 ^ 31 pushes, a thread of `popTaskOrWait` that won
-- its compare-exchange from an index without the wait flag, and since when nobody pushed, cannot
-- sleep in its futex call; but in the memory that a stop leaves when it wins in that state, it can.
pub stop_missed :
    {s : System}
    → Reach s
    → s.mem.pushes < 2 ^ 31
    → (i : ℕ) (index : ProduceConsumeIndex) → s.pc i ≡ wait_futex index
    → index.produce ≡ s.mem.current_index.produce
    → index.wait_flag ≡ false
    → (¬ CanSleep s.mem index) × CanSleep (set_index (stop_index s.mem.current_index) s.mem) index
unfolding set_index stop_index
stop_missed {s} r few i index e same flag =
    let up : Local i s.mem (wait_futex index) =
      subst (Local i s.mem) e ((Reach-Inv r few).locals i) in
    (
      λ mv. let asks = WaitMove-Sleeps mv refl in cc (up.1 same, asks.1, flag),
      WaitMove.sleep (sym same) (sym flag),
    )
