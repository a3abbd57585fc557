-- ===== src/Svc/AsyncCounterTracker.antt =====
-- src/voxen/svc/async_counter_tracker.cpp and .hpp: which asynchronous operations are complete.
-- Each call is one step here: the code's compare-exchanges do not fail by a race.
pub mod Below
pub mod Popping
pub mod Complete
pub mod History
pub mod Trim
mod Tests
use voxen.Prelude.{
  ℕ, zero, suc, ◌+◌, ◌-◌, ◌/◌, ◌%◌, ◌^◌, Bool, true, false, ◌&&◌, ◌||◌, List, [], ◌∷◌, Option, none,
  some, ltb, leb, ◌==◌, if◌then◌else◌, get_or, set, length,
}

-- Both ends inclusive.
abbrev pub ValueSegment : Type 0
ValueSegment = ℕ × ℕ

-- `out_of_order_segments` has the larger segments first, as in the vector.
pub record CompletionList : Type 0 where
  pub fully_completed_value : ℕ
  pub out_of_order_segments : List ValueSegment

abbrev pub num_completion_lists : ℕ
num_completion_lists = 64

-- The array of completion lists is a function of the index, which is always below 64.
pub record AsyncCounterTracker : Type 0 where
  pub next_allocated_counter : ℕ
  pub completion_lists : ℕ → CompletionList

pub new : AsyncCounterTracker
new = record {
  next_allocated_counter = num_completion_lists;
  completion_lists = λ i. record { fully_completed_value = 0; out_of_order_segments = [] };
}

pub allocate_counter : AsyncCounterTracker → ℕ × AsyncCounterTracker
allocate_counter t = (
  t.next_allocated_counter,
  record t { next_allocated_counter = (t.next_allocated_counter + 1) % 2 ^ 64 },
)

-- The vector whose first elements are given in reverse order.
pub rev_append : List ValueSegment → List ValueSegment → List ValueSegment
rev_append [] rest = rest
rev_append (s ∷ before) rest = rev_append before (s ∷ rest)

-- The left bound of a segment was extended: collapse it with the next segment.
pub collapse_next : ℕ → ℕ → List ValueSegment → List ValueSegment
collapse_next desired last [] = (desired, last) ∷ []
collapse_next desired last ((a, b) ∷ rest) =
    if b + 1 == desired then (a, last) ∷ rest else (desired, last) ∷ (a, b) ∷ rest

-- The right bound of a segment was extended: collapse it with the previous segment.
pub collapse_prev : ℕ → ℕ → List ValueSegment → List ValueSegment → List ValueSegment
unfolding rev_append
collapse_prev first desired [] rest = (first, desired) ∷ rest
collapse_prev first desired ((a, b) ∷ before) rest =
    if a == desired + 1
    then rev_append before ((first, b) ∷ rest)
    else rev_append ((a, b) ∷ before) ((first, desired) ∷ rest)

-- The loop that looks for a segment to append to; `before` holds the segments already passed, in
-- reverse order. `none`: not appended.
pub try_append : ℕ → List ValueSegment → List ValueSegment → Option (List ValueSegment)
unfolding rev_append collapse_next collapse_prev
try_append desired before [] = none
try_append desired before ((a, b) ∷ rest) =
    let later = try_append desired ((a, b) ∷ before) rest in
    if desired + 1 == a
    then some (rev_append before (collapse_next desired b rest))
    else (if desired == b + 1 then some (collapse_prev a desired before rest) else later)

-- A new segment, before the first one that does not lie above it.
pub emplace : ℕ → List ValueSegment → List ValueSegment
emplace desired [] = (desired, desired) ∷ []
emplace desired ((a, b) ∷ rest) =
    if ltb desired b then (a, b) ∷ emplace desired rest else (desired, desired) ∷ (a, b) ∷ rest

-- One look at the last segment, when everything behind it was popped: it is popped too if it
-- follows on the expected value, which becomes its last value.
pub pop_back : ℕ → ℕ → ℕ → List ValueSegment → CompletionList
pop_back a b expected [] =
    if a == expected + 1
    then record { fully_completed_value = b; out_of_order_segments = [] }
    else record { fully_completed_value = expected; out_of_order_segments = (a, b) ∷ [] }
pop_back a b expected (s ∷ more) = record {
  fully_completed_value = expected;
  out_of_order_segments = (a, b) ∷ s ∷ more;
}

-- The last loop, which pops segments from the back until one does not follow.
pub pop_completed : ℕ → List ValueSegment → CompletionList
unfolding pop_back
pop_completed expected [] = record { fully_completed_value = expected; out_of_order_segments = [] }
pop_completed expected ((a, b) ∷ rest) =
    let l = pop_completed expected rest in
    pop_back a b l.fully_completed_value l.out_of_order_segments

pub or_else : Option (List ValueSegment) → List ValueSegment → List ValueSegment
or_else none l = l
or_else (some l) _ = l

-- `completeCounter` on the counter's list.
pub complete_in : ℕ → CompletionList → CompletionList
unfolding try_append emplace pop_completed or_else
complete_in desired l =
    if l.fully_completed_value == (desired + 2 ^ 64 - 1) % 2 ^ 64
    then record l { fully_completed_value = desired }
    else pop_completed l.fully_completed_value (
        or_else (try_append desired [] l.out_of_order_segments)
          (emplace desired l.out_of_order_segments))

abbrev pub in_segments : List ValueSegment → ℕ → Bool
in_segments [] x = false
in_segments ((a, b) ∷ rest) x = (leb a x && leb x b) || in_segments rest x

abbrev pub is_complete_in : CompletionList → ℕ → Bool
is_complete_in l expected =
    leb expected l.fully_completed_value || in_segments l.out_of_order_segments expected

pub complete_counter : ℕ → AsyncCounterTracker → AsyncCounterTracker
complete_counter counter t = record t {
  completion_lists = λ i.
      if i == counter % num_completion_lists
      then complete_in (counter / num_completion_lists) (t.completion_lists i)
      else t.completion_lists i;
}

pub is_counter_complete : AsyncCounterTracker → ℕ → Bool
is_counter_complete t counter =
    is_complete_in (t.completion_lists (counter % num_completion_lists))
      (counter / num_completion_lists)

-- The loop of `trimCompleteCounters` on `counters[i..remaining)`, with fuel for its rounds: it
-- swaps a complete counter with the last remaining one.
pub trim_loop : AsyncCounterTracker → ℕ → ℕ → ℕ → List ℕ → ℕ × List ℕ
trim_loop t zero i remaining counters = (remaining, counters)
trim_loop t (suc fuel) i remaining counters =
    let c = get_or counters i 0 in
    let d = get_or counters (remaining - 1) 0 in
    let dropped = trim_loop t fuel i (remaining - 1) (set (set counters i d) (remaining - 1) c) in
    let kept = trim_loop t fuel (i + 1) remaining counters in
    if ltb i remaining
    then (if is_counter_complete t c then dropped else kept)
    else (remaining, counters)

pub trim_complete_counters : AsyncCounterTracker → List ℕ → ℕ × List ℕ
unfolding trim_loop
trim_complete_counters t counters = trim_loop t (length counters) 0 (length counters) counters
