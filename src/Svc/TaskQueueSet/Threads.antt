-- ===== src/Svc/TaskQueueSet/Threads.antt =====
-- The threads of one queue of src/voxen/svc/task_queue_set.cpp, one shared access at a time.
use voxen.Prelude.{ℕ, ◌+◌, ◌≡◌, ◌≢◌, Bool, true, false, Option, none, some}
use voxen.Svc.TaskQueueSet.{
  ring_buffer_size, ProduceConsumeIndex, unused, Shared, update, slot, wait_index, stop_index,
  reserve_push, store_item, reserve_pop, take_item, set_index,
}

-- Where a thread stands, with its live locals; `waits` tells `popTaskOrWait` from `tryPopTask`.
pub data Pc : Type 0 where
  idle : Pc
  push_loop : (task : ℕ) (index : ProduceConsumeIndex) → Pc
  push_reload : (task : ℕ) → Pc
  push_item : (task : ℕ) (index : ProduceConsumeIndex) → Pc
  push_cas : (task : ℕ) (index : ProduceConsumeIndex) → Pc
  push_store : (task place : ℕ) (need_wake : Bool) → Pc
  waking : (need_wake : Bool) → Pc
  pop_loop : (waits : Bool) (index : ProduceConsumeIndex) → Pc
  pop_reload : (waits : Bool) → Pc
  pop_item : (waits : Bool) (index : ProduceConsumeIndex) → Pc
  pop_cas : (waits : Bool) (index : ProduceConsumeIndex) → Pc
  pop_exchange : (place : ℕ) → Pc
  popped : (place : ℕ) (task_header : Option ℕ) → Pc
  wait_cas : (index : ProduceConsumeIndex) → Pc
  wait_futex : (index : ProduceConsumeIndex) → Pc
  asleep : Pc
  stop_cas : (index new_index : ProduceConsumeIndex) → Pc

-- `pushTask`. A weak compare-exchange may also fail with no reason.
pub data PushMove (i : ℕ) (m : Shared) : Pc → Shared → Pc → Type 0 where
  start : {task : ℕ} → PushMove i m idle m (push_loop task m.current_index)
  full :
      {task : ℕ} {index : ProduceConsumeIndex}
      → index.consume + ring_buffer_size ≡ index.produce
      → PushMove i m (push_loop task index) m (push_reload task)
  room :
      {task : ℕ} {index : ProduceConsumeIndex}
      → index.consume + ring_buffer_size ≢ index.produce
      → PushMove i m (push_loop task index) m (push_item task index)
  reload : {task : ℕ} → PushMove i m (push_reload task) m (push_loop task m.current_index)
  occupied :
      {task old : ℕ} {index : ProduceConsumeIndex}
      → m.item (slot index.produce) ≡ some old
      → PushMove i m (push_item task index) m (push_reload task)
  free :
      {task : ℕ} {index : ProduceConsumeIndex}
      → m.item (slot index.produce) ≡ none
      → PushMove i m (push_item task index) m (push_cas task index)
  lose :
      {task : ℕ} {index : ProduceConsumeIndex}
      → PushMove i m (push_cas task index) m (push_loop task m.current_index)
  win :
      {task : ℕ} {index : ProduceConsumeIndex}
      → m.current_index ≡ index
      → PushMove i m
          (push_cas task index)
          (reserve_push i task m)
          (push_store task index.produce index.wait_flag)
  put :
      {task place : ℕ} {need_wake : Bool}
      → PushMove i m (push_store task place need_wake) (store_item task place m) (waking need_wake)
  quiet : PushMove i m (waking false) m idle

-- `tryPopTask`, and what `popTaskOrWait` shares with it.
pub data PopMove (i : ℕ) (m : Shared) : Pc → Shared → Pc → Type 0 where
  start : {waits : Bool} → PopMove i m idle m (pop_loop waits m.current_index)
  stopped :
      {waits : Bool} {index : ProduceConsumeIndex}
      → index.stop_flag ≡ true
      → PopMove i m (pop_loop waits index) m idle
  nothing :
      {index : ProduceConsumeIndex}
      → index.stop_flag ≡ false
      → index.produce ≡ index.consume
      → PopMove i m (pop_loop false index) m idle
  ready :
      {waits : Bool} {index : ProduceConsumeIndex}
      → index.stop_flag ≡ false
      → index.produce ≢ index.consume
      → PopMove i m (pop_loop waits index) m (pop_item waits index)
  gone :
      {waits : Bool} {index : ProduceConsumeIndex}
      → m.item (slot index.consume) ≡ none
      → PopMove i m (pop_item waits index) m (pop_reload waits)
  reload : {waits : Bool} → PopMove i m (pop_reload waits) m (pop_loop waits m.current_index)
  found :
      {waits : Bool} {index : ProduceConsumeIndex} {task : ℕ}
      → m.item (slot index.consume) ≡ some task
      → PopMove i m (pop_item waits index) m (pop_cas waits index)
  lose :
      {waits : Bool} {index : ProduceConsumeIndex}
      → PopMove i m (pop_cas waits index) m (pop_loop waits m.current_index)
  win :
      {waits : Bool} {index : ProduceConsumeIndex}
      → m.current_index ≡ index
      → PopMove i m (pop_cas waits index) (reserve_pop i m) (pop_exchange index.consume)
  take :
      {place : ℕ}
      → PopMove i m (pop_exchange place) (take_item i place m) (popped place (m.item (slot place)))
  done : {place : ℕ} {task_header : Option ℕ} → PopMove i m (popped place task_header) m idle

-- The waiting of `popTaskOrWait`. The futex compares the first word: `produce` and the wait flag.
pub data WaitMove (m : Shared) : Pc → Shared → Pc → Type 0 where
  empty :
      {index : ProduceConsumeIndex}
      → index.stop_flag ≡ false
      → index.produce ≡ index.consume
      → WaitMove m (pop_loop true index) m (wait_cas index)
  lose :
      {index : ProduceConsumeIndex} → WaitMove m (wait_cas index) m (pop_loop true m.current_index)
  win :
      {index : ProduceConsumeIndex}
      → m.current_index ≡ index
      → WaitMove m (wait_cas index) (set_index (wait_index index) m) (wait_futex index)
  sleep :
      {index : ProduceConsumeIndex}
      → m.current_index.produce ≡ index.produce
      → m.current_index.wait_flag ≡ index.wait_flag
      → WaitMove m (wait_futex index) m asleep
  skip : {index : ProduceConsumeIndex} → WaitMove m (wait_futex index) m (pop_reload true)
  interrupt : WaitMove m asleep m (pop_reload true)

-- `requestStopAll` at this queue.
pub data StopMove (m : Shared) : Pc → Shared → Pc → Type 0 where
  start : StopMove m idle m (stop_cas m.current_index m.current_index)
  lose :
      {index new_index : ProduceConsumeIndex}
      → StopMove m (stop_cas index new_index) m (stop_cas m.current_index (stop_index new_index))
  win :
      {index new_index : ProduceConsumeIndex}
      → m.current_index ≡ index
      → StopMove m
          (stop_cas index new_index)
          (set_index (stop_index new_index) m)
          (waking index.wait_flag)

pub data Move (i : ℕ) (m : Shared) (p : Pc) (m' : Shared) (p' : Pc) : Type 0 where
  push : PushMove i m p m' p' → Move i m p m' p'
  pop : PopMove i m p m' p' → Move i m p m' p'
  wait : WaitMove m p m' p' → Move i m p m' p'

pub record System : Type 0 where
  pub mem : Shared
  pub pc : ℕ → Pc

-- `Futex::wakeAll`.
abbrev pub wake : Pc → Pc
wake asleep = pop_reload true
wake p = p

pub data Step (s : System) : System → Type 0 where
  move :
      (i : ℕ) {m : Shared} {p : Pc}
      → Move i s.mem (s.pc i) m p
      → Step s (record { mem = m; pc = update s.pc i p })
  wake_all :
      (i : ℕ)
      → s.pc i ≡ waking true
      → Step s (record { mem = s.mem; pc = update (λ j. wake (s.pc j)) i idle })

abbrev pub empty_queue : Shared
empty_queue = record {
  current_index = record { produce = 0; wait_flag = false; consume = 0; stop_flag = false };
  item = λ _. none;
  stage = λ _. unused;
  pushed = λ _. 0;
  pushes = 0;
}

-- What threads reach from the constructor of the set while nobody calls `requestStopAll`.
pub data Reach : System → Type 0 where
  begin : Reach (record { mem = empty_queue; pc = λ _. idle })
  later : {s t : System} → Reach s → Step s t → Reach t
