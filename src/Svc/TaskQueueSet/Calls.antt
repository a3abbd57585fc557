-- ===== src/Svc/TaskQueueSet/Calls.antt =====
-- Whole calls of `tryPopTask` of src/voxen/svc/task_queue_set.cpp, by a thread that is alone.
use voxen.Prelude.{ℕ, ◌≡◌, ◌≢◌, subst, sym, ap, ap₂, false, Option, none, some, refl}
use voxen.Svc.TaskQueueSet.{ProduceConsumeIndex, Shared, slot, reserve_pop, take_item}
use voxen.Svc.TaskQueueSet.Threads.{
  Pc, idle, pop_loop, pop_reload, pop_item, pop_cas, pop_exchange, popped, PopMove,
}

-- The rest of a call of `tryPopTask`, to its return: the memory that it leaves and its result, where
-- `none` is the invalid handle.
pub data Tries (i : ℕ) : Shared → Pc → Shared → Option ℕ → Type 0 where
  returns :
      {m : Shared} {place : ℕ} {task_header : Option ℕ}
      → Tries i m (popped place task_header) m task_header
  returns_nothing :
      {m m' : Shared} {index : ProduceConsumeIndex}
      → PopMove i m (pop_loop false index) m' idle
      → Tries i m (pop_loop false index) m' none
  goes_on :
      {m m' m'' : Shared} {p p' : Pc} {result : Option ℕ}
      → PopMove i m p m' p'
      → p' ≢ idle
      → Tries i m' p' m'' result
      → Tries i m p m'' result

-- A call of `tryPopTask`: it starts with the load of the index.
abbrev pub TryPop : ℕ → Shared → Shared → Option ℕ → Type 0
TryPop i m m' result = Tries i m (pop_loop false m.current_index) m' result

abbrev pub after_pop : ℕ → Shared → Shared
after_pop i m = take_item i m.current_index.consume (reserve_pop i m)

-- Where a call of `tryPopTask` stands that began in the memory `first`.
abbrev pub Within : ℕ → Shared → Shared → Pc → Type 0
Within i first m (pop_loop waits index) =
    (waits ≡ false) × (m ≡ first) × (index ≡ first.current_index)
Within i first m (pop_reload waits) = (waits ≡ false) × (m ≡ first)
Within i first m (pop_item waits index) =
    (waits ≡ false) × (m ≡ first) × (index ≡ first.current_index) × (index.produce ≢ index.consume)
Within i first m (pop_cas waits index) =
    (waits ≡ false) × (m ≡ first) × (index ≡ first.current_index) × (index.produce ≢ index.consume)
Within i first m (pop_exchange place) =
    (m ≡ reserve_pop i first)
    × (place ≡ first.current_index.consume)
    × (first.current_index.produce ≢ first.current_index.consume)
Within i first m (popped place task_header) =
    (m ≡ after_pop i first)
    × (task_header ≡ first.item (slot first.current_index.consume))
    × (first.current_index.produce ≢ first.current_index.consume)
Within i first m _ = ⊥

PopMove-Within :
    {i : ℕ} {m m' : Shared} {p p' : Pc} (first : Shared)
    → PopMove i m p m' p'
    → p' ≢ idle
    → Within i first m p
    → Within i first m' p'
unfolding reserve_pop
PopMove-Within first PopMove.start ne w = absurd w
PopMove-Within first (PopMove.stopped _) ne w = absurd (ne refl)
PopMove-Within first (PopMove.nothing _ _) ne w = absurd (ne refl)
PopMove-Within first (PopMove.ready _ some_left) ne w = (w.0, w.1, w.2, some_left)
PopMove-Within first (PopMove.gone _) ne w = (w.0, w.1)
PopMove-Within first PopMove.reload ne w = (w.0, w.1, ap (λ m. m.current_index) w.1)
PopMove-Within first (PopMove.found _) ne w = w
PopMove-Within first PopMove.lose ne w = (w.0, w.1, ap (λ m. m.current_index) w.1)
PopMove-Within {i} first (PopMove.win {waits} {index} _) ne w =
    (ap (reserve_pop i) w.1, ap (λ x. x.consume) w.2, subst (λ x. x.produce ≢ x.consume) w.2 w.3)
PopMove-Within {i} {m} first (PopMove.take {place}) ne w =
    (ap₂ (λ q x. take_item i q x) w.1 w.0, ap₂ (λ q x. x.item (slot q)) w.1 w.0, w.2)
PopMove-Within first PopMove.done ne w = absurd (ne refl)

-- What a call gives: nothing, from an empty queue, or what the oldest slot holds.
abbrev pub Outcome : ℕ → Shared → Shared → Option ℕ → Type 0
Outcome i first m none = (first.current_index.produce ≡ first.current_index.consume) × (m ≡ first)
Outcome i first m (some task) =
    (first.current_index.produce ≢ first.current_index.consume)
    × (first.item (slot first.current_index.consume) ≡ some task)
    × (m ≡ after_pop i first)

abbrev IsLoop : Pc → Type 0
IsLoop (pop_loop _ _) = Unit {0}
IsLoop _ = ⊥

quits :
    {i : ℕ} {m m' : Shared} {p p' : Pc} (first : Shared)
    → first.current_index.stop_flag ≡ false
    → PopMove i m p m' p'
    → IsLoop p
    → p' ≡ idle
    → Within i first m p
    → Outcome i first m' none
quits first running (PopMove.stopped up) l e w = cc (up, ap (λ x. x.stop_flag) w.2, running)
quits first running (PopMove.nothing _ none_left) l e w =
    (subst (λ x. x.produce ≡ x.consume) w.2 none_left, w.1)
quits first running (PopMove.ready _ _) l e w = cc
quits first running PopMove.start l e w = absurd l
quits first running _ l e w = absurd l

module _ (i : ℕ) (first : Shared) (running : first.current_index.stop_flag ≡ false)
    (full : first.current_index.produce ≢ first.current_index.consume
      → first.item (slot first.current_index.consume) ≢ none) where
  popped-Outcome :
      (m : Shared) (place : ℕ) (o : Option ℕ)
      → Within i first m (popped place o)
      → Outcome i first m o
  popped-Outcome m place none w = absurd (full w.2 (sym w.1))
  popped-Outcome m place (some task) w = (w.2, sym w.1, w.0)

  pub Tries-Outcome :
      {m m' : Shared} {p : Pc} {result : Option ℕ}
      → Tries i m p m' result
      → Within i first m p
      → Outcome i first m' result
  Tries-Outcome (returns {m} {place} {task_header}) w = popped-Outcome m place task_header w
  Tries-Outcome (returns_nothing mv) w = quits first running mv tt refl w
  Tries-Outcome (goes_on mv ne rest) w = Tries-Outcome rest (PopMove-Within first mv ne w)
