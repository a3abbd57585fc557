-- ===== src/Svc/AsyncCounterTracker/Popping.antt =====
-- src/voxen/svc/async_counter_tracker.cpp, the last loop of `completeCounter`.
use voxen.Prelude.{
  ℕ, ◌+◌, ◌<◌, ◌≤◌, ◌≡◌, arith, ◌||◌, List, [], ◌∷◌, leb, ◌==◌, Bool-cases, inl, inr,
}
use voxen.Svc.AsyncCounterTracker.{
  ValueSegment, CompletionList, pop_back, pop_completed, in_segments, is_complete_in,
}
use voxen.Svc.AsyncCounterTracker.Below.{Below}

-- Popping completed segments moves values from the segments to the fully completed value.
pub record Pops (hi lo : ℕ) (segs : List ValueSegment) (l : CompletionList) : Type 0 where
  pub grows : lo ≤ l.fully_completed_value
  pub under : l.fully_completed_value < hi
  pub below : Below hi l.fully_completed_value l.out_of_order_segments
  pub exact : (x : ℕ) → is_complete_in l x ≡ (leb x lo || in_segments segs x)

pop_back-Pops :
    (hi lo a b e : ℕ) (rest left : List ValueSegment)
    → Below hi lo ((a, b) ∷ rest)
    → Pops a lo rest (record { fully_completed_value = e; out_of_order_segments = left })
    → Pops hi lo ((a, b) ∷ rest) (pop_back a b e left)
unfolding pop_back
pop_back-Pops hi lo a b e rest [] v p = elim (Bool-cases (a == e + 1)) [
  | inl t ↦ rw t (record {
    grows = omega (arith, p.grows);
    under = omega (arith, v.2);
    below = tt;
    exact = λ x. ground (arith, p.exact x);
  })
  | inr t ↦ rw t (record {
    grows = p.grows;
    under = omega (arith, p.under);
    below = (p.under, v.1, v.2, tt);
    exact = λ x. ground (arith, p.exact x);
  })
]
pop_back-Pops hi lo a b e rest (s ∷ more) v p = record {
  grows = p.grows;
  under = omega (arith, p.under);
  below = (p.under, v.1, v.2, p.below);
  exact = λ x. ground (arith, p.exact x);
}

pub pop_completed-Pops :
    (hi lo : ℕ) (segs : List ValueSegment)
    → lo < hi
    → Below hi lo segs
    → Pops hi lo segs (pop_completed lo segs)
unfolding pop_completed
pop_completed-Pops hi lo [] h v = record {
  grows = omega arith;
  under = h;
  below = tt;
  exact = λ x. ground arith;
}
pop_completed-Pops hi lo ((a, b) ∷ rest) h v =
    pop_back-Pops hi lo a b (pop_completed lo rest).fully_completed_value rest
      (pop_completed lo rest).out_of_order_segments v (pop_completed-Pops a lo rest v.0 v.3)
