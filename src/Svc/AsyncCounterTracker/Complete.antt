-- ===== src/Svc/AsyncCounterTracker/Complete.antt =====
-- `completeCounter` on a list and on the tracker.

use voxen.Prelude.{
  ℕ, ◌+◌, ◌-◌, ◌/◌, ◌%◌, ◌^◌, ◌<◌, ◌≡◌, arith, ◌∙◌, false, ◌||◌, List, [], ◌∷◌, ◌==◌, Bool-cases,
  inl, inr, ==→eq, ap,
}
use voxen.Svc.AsyncCounterTracker.{
  ValueSegment, CompletionList, AsyncCounterTracker, complete_in, in_segments, is_complete_in,
  complete_counter, is_counter_complete, or_else, try_append, emplace,
}
use voxen.Svc.AsyncCounterTracker.Below.{Below, added-Adds}
use voxen.Svc.AsyncCounterTracker.Popping.{pop_completed-Pops}

-- Counters are 64-bit words, so the values in a list are below 2^58.
abbrev pub limit : ℕ
limit = 2 ^ 58 + 1

pub record IsValid (l : CompletionList) : Type 0 where
  pub small : l.fully_completed_value < limit
  pub below : Below limit l.fully_completed_value l.out_of_order_segments

Below-next :
    (hi lo : ℕ) (segs : List ValueSegment)
    → Below hi lo segs
    → in_segments segs (lo + 1) ≡ false
    → Below hi (lo + 1) segs
Below-next hi lo [] v n = tt
Below-next hi lo ((a, b) ∷ rest) v n =
    (ground arith, v.1, v.2, Below-next a lo rest v.3 (ground arith))

-- What completing `d` does to its list.
pub record Completes (d : ℕ) (l l' : CompletionList) : Type 0 where
  pub valid : IsValid l'
  pub exact : (x : ℕ) → is_complete_in l' x ≡ (is_complete_in l x || x == d)

-- The value before, as the code computes it.
before : (d : ℕ) → 0 < d → d < 2 ^ 64 → (d + 2 ^ 64 - 1) % 2 ^ 64 ≡ d - 1
before d h k = omega arith

complete_in-Completes :
    (d : ℕ) (l : CompletionList)
    → IsValid l
    → d + 1 < limit
    → is_complete_in l d ≡ false
    → Completes d l (complete_in d l)
unfolding complete_in
complete_in-Completes d l v h n =
    let above : l.fully_completed_value < d = ground arith in
    let apart : in_segments l.out_of_order_segments d ≡ false = ground arith in
    elim (Bool-cases (l.fully_completed_value == (d + 2 ^ 64 - 1) % 2 ^ 64)) [
      | inl t ↦
          let e : d ≡ l.fully_completed_value + 1 =
            omega (arith, ==→eq _ _ t, before d (omega arith) (omega arith)) in
          rw t (record {
            valid = record {
              small = omega arith;
              below = rw e (
                  Below-next limit l.fully_completed_value l.out_of_order_segments v.below
                    (rw (← e) apart));
            };
            exact = λ x. ground arith;
          })
      | inr t ↦
          let adds =
            added-Adds limit l.fully_completed_value d l.out_of_order_segments v.below above h
              apart in
          let pops =
            pop_completed-Pops limit l.fully_completed_value
              (or_else (try_append d [] l.out_of_order_segments)
                (emplace d l.out_of_order_segments))
              v.small adds.below in
          rw t (record {
            valid = record { small = pops.under; below = pops.below };
            exact = λ x. ground (arith, pops.exact x, adds.exact x);
          })
    ]

-- Numbers with the same remainder are equal exactly if their quotients are.
quotients : (x c : ℕ) → x % 64 ≡ c % 64 → (x / 64 == c / 64) ≡ (x == c)
quotients x c e = ground arith

abbrev pub IsTracker : AsyncCounterTracker → Type 0
IsTracker t = (i : ℕ) → IsValid (t.completion_lists i)

-- Completing a 64-bit counter that is not complete keeps the segments of every list sorted, and
-- makes exactly that counter complete.
pub complete_counter_lem :
    (c : ℕ) (t : AsyncCounterTracker)
    → IsTracker t
    → c < 2 ^ 64
    → is_counter_complete t c ≡ false
    → IsTracker (complete_counter c t)
      × ((x : ℕ)
          → is_counter_complete (complete_counter c t) x ≡ (is_counter_complete t x || x == c))
unfolding complete_counter is_counter_complete
complete_counter_lem c t v small n = (valid, exact)
  where
    done :
        Completes
          (c / 64)
          (t.completion_lists (c % 64))
          (complete_in (c / 64) (t.completion_lists (c % 64)))
    done = complete_in-Completes (c / 64) (t.completion_lists (c % 64)) (v (c % 64)) (omega arith) n

    valid : IsTracker (complete_counter c t)
    valid i = elim (Bool-cases (i == c % 64)) [
      | inl e ↦ rw (e, ==→eq i (c % 64) e) done.valid
      | inr e ↦ rw e (v i)
    ]

    exact :
        (x : ℕ) → is_counter_complete (complete_counter c t) x ≡ (is_counter_complete t x || x == c)
    exact x = elim (Bool-cases (x % 64 == c % 64)) [
      | inl e ↦
          let same : x % 64 ≡ c % 64 = ==→eq (x % 64) (c % 64) e in
          rw (e, same)
            (done.exact (x / 64)
              ∙ ap (λ b. is_complete_in (t.completion_lists (c % 64)) (x / 64) || b)
                  (quotients x c same))
      | inr e ↦ rw e (ground arith)
    ]
