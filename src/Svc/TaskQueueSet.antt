-- ===== src/Svc/TaskQueueSet.antt =====
-- src/voxen/svc/task_queue_set.cpp: one queue of the set, pushed to and popped from by many threads.
-- The queues of a set share no state. Each access to shared memory is one step of its thread:
-- loads, compare-exchanges, the store and the exchange of an item, and the calls of the futex.
-- The memory is sequentially consistent; the log and the pause of a full queue are left out. A task
-- is a number, and `none` is the null pointer. The last three fields of `Shared` are history, which
-- no condition of the code reads.
pub mod Threads
pub mod Invariant
pub mod Pushing
pub mod Popping
pub mod Moves
pub mod Reached
pub mod Refinement
pub mod Wakeups
pub mod Stopping
pub mod StopFlag
pub mod Holders
pub mod Solo
pub mod Calls
pub mod Draining
mod Tests
use voxen.Prelude.{
  ℕ, ◌+◌, ◌%◌, ◌^◌, ◌≡◌, ◌≢◌, Bool, true, false, Option, none, some, ◌==◌, if◌then◌else◌,
}

abbrev pub ring_buffer_size : ℕ
ring_buffer_size = 1024

-- The bit fields of 31 bits, packed with the two flags.
pub record ProduceConsumeIndex : Type 0 where
  pub produce : ℕ
  pub wait_flag : Bool
  pub consume : ℕ
  pub stop_flag : Bool

abbrev pub count31 : ℕ → ℕ
count31 n = n % 2 ^ 31

-- What became of the task at a position, and by which thread.
pub data Stage : Type 0 where
  unused : Stage
  reserved : ℕ → Stage
  stored : Stage
  taking : ℕ → Stage
  taken : ℕ → Stage

pub record Shared : Type 0 where
  pub current_index : ProduceConsumeIndex
  pub item : ℕ → Option ℕ
  pub stage : ℕ → Stage
  pub pushed : ℕ → ℕ
  pub pushes : ℕ

abbrev pub update {ℓ} : {A : Type ℓ} → (ℕ → A) → ℕ → A → ℕ → A
update f k a n = if n == k then a else f n

abbrev pub slot : ℕ → ℕ
slot count = count % ring_buffer_size

-- The indices that the four compare-exchanges try to write.
pub push_index : ProduceConsumeIndex → ProduceConsumeIndex
push_index index = record {
  produce = count31 (index.produce + 1);
  wait_flag = false;
  consume = index.consume;
  stop_flag = index.stop_flag;
}

pub pop_index : ProduceConsumeIndex → ProduceConsumeIndex
pop_index index = record {
  produce = index.produce;
  wait_flag = index.wait_flag;
  consume = count31 (index.consume + 1);
  stop_flag = false;
}

pub wait_index : ProduceConsumeIndex → ProduceConsumeIndex
wait_index index = record {
  produce = index.produce;
  wait_flag = true;
  consume = index.consume;
  stop_flag = false;
}

pub stop_index : ProduceConsumeIndex → ProduceConsumeIndex
stop_index new_index = record new_index { wait_flag = false; stop_flag = true }

-- The effect of the steps that write.
pub reserve_push : ℕ → ℕ → Shared → Shared
reserve_push i task m =
    let place = m.current_index.produce in
    record m {
      current_index = push_index m.current_index;
      stage = update m.stage place (reserved i);
      pushed = update m.pushed place task;
      pushes = m.pushes + 1;
    }

pub store_item : ℕ → ℕ → Shared → Shared
store_item task place m = record m {
  item = update m.item (slot place) (some task);
  stage = update m.stage place stored;
}

pub reserve_pop : ℕ → Shared → Shared
reserve_pop i m = record m {
  current_index = pop_index m.current_index;
  stage = update m.stage m.current_index.consume (taking i);
}

pub take_item : ℕ → ℕ → Shared → Shared
take_item i place m = record m {
  item = update m.item (slot place) none;
  stage = update m.stage place (taken i);
}

pub set_index : ProduceConsumeIndex → Shared → Shared
set_index index m = record m { current_index = index }
