-- ===== src/Svc/TaskQueueSet/Draining.antt =====
-- The loop of `~TaskQueueSet` in src/voxen/svc/task_queue_set.cpp at one queue. The destructor's
-- thread is the only one left, and its calls of `tryPopTask` run to their returns one by one.
use voxen.Prelude.{
  ℕ, zero, suc, ◌-◌, ◌^◌, ◌<◌, ◌≡◌, ◌≢◌, subst, sym, ap, ◌∙◌, Option, none, some, arith, refl, List,
  [], ◌∷◌,
}
use voxen.Svc.TaskQueueSet.{
  Stage, unused, reserved, stored, taking, taken, ProduceConsumeIndex, Shared, slot, reserve_pop,
  take_item, pop_index,
}
use voxen.Svc.TaskQueueSet.Threads.{idle, popped, PopMove, System, Reach}
use voxen.Svc.TaskQueueSet.Invariant.{Place, Slot, Queue}
use voxen.Svc.TaskQueueSet.Popping.{reserve_pop-Queue, take_item-Queue}
use voxen.Svc.TaskQueueSet.Reached.{Reach-Inv}
use voxen.Svc.TaskQueueSet.Refinement.{contents, segment, reserve_pop-contents}
use voxen.Svc.TaskQueueSet.Holders.{stores_at, Reach-Held}
use voxen.Svc.TaskQueueSet.Calls.{
  Tries, returns, returns_nothing, goes_on, TryPop, after_pop, Outcome, Tries-Outcome,
}

-- The loop of the destructor, with the tasks whose handles it gets: it ends exactly with the first
-- invalid handle.
pub data Destroys (i : ℕ) : Shared → List ℕ → Shared → Type 0 where
  ends : {m m' : Shared} → TryPop i m m' none → Destroys i m [] m'
  continues :
      {m m' m'' : Shared} {task : ℕ} {tasks : List ℕ}
      → TryPop i m m' (some task)
      → Destroys i m' tasks m''
      → Destroys i m (task ∷ tasks) m''

-- A queue that nobody is pushing to.
record IsSettled (m : Shared) : Type 0 where
  queue : Queue m
  few : m.pushes < 2 ^ 31
  nobody : (q k : ℕ) → m.stage q ≢ reserved k

stage_stored :
    (index : ProduceConsumeIndex) (g : Stage)
    → index.consume < index.produce
    → Place index index.consume g
    → ((k : ℕ) → g ≢ reserved k)
    → g ≡ stored
stage_stored index unused lt p nobody = absurd (omega arith)
stage_stored index (reserved k) lt p nobody = absurd (nobody k refl)
stage_stored index stored lt p nobody = refl
stage_stored index (taking _) lt p nobody = absurd (omega arith)
stage_stored index (taken _) lt p nobody = absurd (omega arith)

module _ (i : ℕ) {m : Shared} (settled : IsSettled m) where
  open settled use {queue, few, nobody}

  abbrev produce : ℕ
  produce = m.current_index.produce

  abbrev consume : ℕ
  consume = m.current_index.consume

  module _ (lt : consume < produce) where
    oldest_stored : m.stage consume ≡ stored
    oldest_stored =
        stage_stored m.current_index (m.stage consume) lt (queue.places consume) (nobody consume)

    oldest_item : m.item (slot consume) ≡ some (m.pushed consume)
    oldest_item = subst (Slot produce consume _ _) oldest_stored (queue.slots consume)

    fits : produce < 2 ^ 31
    fits = omega (arith, queue.counted, few)

    now_taking : (reserve_pop i m).stage consume ≡ taking i
    unfolding reserve_pop
    now_taking = ground arith

    after_few : (after_pop i m).pushes < 2 ^ 31
    unfolding reserve_pop take_item
    after_few = few

    after_nobody : (q k : ℕ) → (after_pop i m).stage q ≢ reserved k
    unfolding reserve_pop take_item
    after_nobody q k = λ e. ground (arith, nobody q k)

    after_pop-IsSettled : IsSettled (after_pop i m)
    after_pop-IsSettled = record {
      queue =
          take_item-Queue i (reserve_pop-Queue i queue fits lt oldest_stored) consume now_taking;
      few = after_few;
      nobody = after_nobody;
    }

    after_pop-contents : contents m ≡ m.pushed consume ∷ contents (after_pop i m)
    unfolding contents take_item
    after_pop-contents = reserve_pop-contents queue i lt fits

    -- The call of `tryPopTask` that meets no lost compare-exchange.
    pops_oldest : TryPop i m (after_pop i m) (some (m.pushed consume))
    unfolding reserve_pop
    pops_oldest =
        goes_on (PopMove.ready queue.running (omega arith)) (λ e. cc)
          (goes_on (PopMove.found oldest_item) (λ e. cc)
            (goes_on (PopMove.win refl) (λ e. cc)
              (goes_on PopMove.take (λ e. cc)
                (subst
                  (λ o.
                    Tries i (after_pop i m) (popped consume o) (after_pop i m)
                      (some (m.pushed consume)))
                  (sym oldest_item) returns))))

  outcome : {m' : Shared} {result : Option ℕ} → TryPop i m m' result → Outcome i m m' result
  outcome call =
      Tries-Outcome i m queue.running
        (λ ne e. cc (oldest_item (omega (arith, queue.current.ordered)), e)) call (refl, refl, refl)

segment_none : (f : ℕ → ℕ) (from n : ℕ) → n ≡ 0 → segment f from n ≡ []
unfolding segment
segment_none f from n e = rw e refl

contents_none : (m : Shared) → m.current_index.produce ≡ m.current_index.consume → contents m ≡ []
unfolding contents
contents_none m e = segment_none m.pushed m.current_index.consume _ (omega arith)

-- Whatever the destructor does, it gets the tasks of the queue.
Destroys-contents :
    {i : ℕ} {m m' : Shared} {tasks : List ℕ}
    → Destroys i m tasks m'
    → IsSettled m
    → (tasks ≡ contents m) × (contents m' ≡ [])
Destroys-contents {i} {m} (ends call) settled =
    let (none_left, same) = outcome i settled call in
    (sym (contents_none m none_left), ap contents same ∙ contents_none m none_left)
Destroys-contents {i} {m} (continues {task = task} call more) settled =
    let (some_left, held, same) = outcome i settled call in
    let lt : m.current_index.consume < m.current_index.produce =
      omega (arith, settled.queue.current.ordered) in
    let (rest, empty) =
      Destroys-contents more (subst IsSettled (sym same) (after_pop-IsSettled i settled lt)) in
    let first : task ≡ m.pushed m.current_index.consume = cc (held, oldest_item i settled lt) in
    (rw (first, rest, same) (sym (after_pop-contents i settled lt)), empty)

fewer :
    (i : ℕ) (m : Shared) (n : ℕ)
    → m.current_index.produce - m.current_index.consume ≡ suc n
    → m.current_index.produce < 2 ^ 31
    → (after_pop i m).current_index.produce - (after_pop i m).current_index.consume ≡ n
unfolding reserve_pop take_item pop_index
fewer i m n e fits = omega arith

can_destroy :
    (i n : ℕ) {m : Shared}
    → IsSettled m
    → m.current_index.produce - m.current_index.consume ≡ n
    → (tasks : List ℕ) × (m' : Shared) × Destroys i m tasks m'
can_destroy i zero {m} settled e = (
  [],
  m,
  ends (
      returns_nothing
        (PopMove.nothing settled.queue.running (omega (arith, settled.queue.current.ordered)))),
)
can_destroy i (suc n) {m} settled e =
    let lt : m.current_index.consume < m.current_index.produce = omega arith in
    let (tasks, m', rest) =
      can_destroy i n (after_pop-IsSettled i settled lt) (fewer i m n e (fits i settled lt)) in
    (m.pushed m.current_index.consume ∷ tasks, m', continues (pops_oldest i settled lt) rest)

Reach-IsSettled :
    {s : System} → Reach s → s.mem.pushes < 2 ^ 31 → ((j : ℕ) → s.pc j ≡ idle) → IsSettled s.mem
Reach-IsSettled r few quiet = record {
  queue = (Reach-Inv r few).queue;
  few = few;
  nobody = λ q k e. cc ((Reach-Held r q k).0 e, ap (stores_at q) (quiet k));
}

-- If no thread is inside a call, in a state reached with no stop and fewer than 2 ^ 31 pushes: the
-- loop of the destructor has a run to its end; and every run of it to its end, lost weak
-- compare-exchanges included, gets exactly the tasks that were pushed and not popped, the oldest
-- first, and leaves none.
pub destructor_drains :
    {s : System}
    → Reach s
    → s.mem.pushes < 2 ^ 31
    → (i : ℕ) → ((j : ℕ) → s.pc j ≡ idle)
    → ((tasks : List ℕ) × (m' : Shared) × Destroys i s.mem tasks m')
      × ((tasks : List ℕ) (m' : Shared)
          → Destroys i s.mem tasks m'
          → (tasks ≡ contents s.mem) × (contents m' ≡ []))
destructor_drains r few i quiet =
    let settled = Reach-IsSettled r few quiet in
    (can_destroy i _ settled refl, λ tasks m' run. Destroys-contents run settled)
