-- ===== src/Svc/AsyncCounterTracker/History.antt =====
-- Histories of the tracker: allocations and completions, from a new tracker on.
use voxen.Prelude.{
  ℕ, ◌+◌, ◌^◌, ◌<◌, ◌≤◌, ◌≡◌, refl, arith, ◌∙◌, Bool, true, false, ◌||◌, List, [], ◌∷◌, ltb, le→ltb,
  ◌==◌,
}
use voxen.Svc.AsyncCounterTracker.{
  AsyncCounterTracker, new, allocate_counter, complete_counter, is_counter_complete,
}
use voxen.Svc.AsyncCounterTracker.Complete.{IsTracker, complete_counter_lem}

abbrev pub elem : ℕ → List ℕ → Bool
elem x [] = false
elem x (c ∷ cs) = x == c || elem x cs

-- Completions in any order.
pub complete_all : List ℕ → AsyncCounterTracker → AsyncCounterTracker
complete_all [] t = t
complete_all (c ∷ cs) t = complete_all cs (complete_counter c t)

-- Each counter is a 64-bit word that is not complete in `t`, and stands in the list once.
abbrev pub Once : AsyncCounterTracker → List ℕ → Type 0
Once t [] = Unit {0}
Once t (c ∷ cs) = (c < 2 ^ 64) × (is_counter_complete t c ≡ false) × (elem c cs ≡ false) × Once t cs

Once-complete :
    (t : AsyncCounterTracker) (c : ℕ) (cs : List ℕ)
    → ((x : ℕ) → is_counter_complete (complete_counter c t) x ≡ (is_counter_complete t x || x == c))
    → elem c cs ≡ false
    → Once t cs
    → Once (complete_counter c t) cs
Once-complete t c [] h e o = tt
Once-complete t c (d ∷ cs) h e o =
    (o.0, ground (arith, h d), o.2, Once-complete t c cs h (ground arith) o.3)

-- From a tracker with sorted segments: whatever the order in which 64-bit counters that are not
-- complete are completed, each once, the segments stay sorted and the complete counters are then
-- those that were complete before and those of the list.
pub complete_all_lem :
    (cs : List ℕ) (t : AsyncCounterTracker)
    → IsTracker t
    → Once t cs
    → IsTracker (complete_all cs t)
      × ((x : ℕ)
          → is_counter_complete (complete_all cs t) x ≡ (is_counter_complete t x || elem x cs))
unfolding complete_all
complete_all_lem [] t v o = (v, λ x. ground arith)
complete_all_lem (c ∷ cs) t v o =
    let (w, h) = complete_counter_lem c t v o.0 o.1 in
    let (u, k) = complete_all_lem cs (complete_counter c t) w (Once-complete t c cs h o.2 o.3) in
    (u, λ x. ground (arith, h x, k x))

pub new-IsTracker : IsTracker new
unfolding new
new-IsTracker i = omega arith

complete-new : (x : ℕ) → is_counter_complete new x ≡ ltb x 64
unfolding new is_counter_complete
complete-new x = ground arith

-- A tracker with what its users have seen: the counters that `allocateCounter` returned to them, and
-- those that they completed, the newest first.
pub record History : Type 0 where
  pub tracker : AsyncCounterTracker
  pub returned : List ℕ
  pub finished : List ℕ

abbrev pub allocate_step : History → History
allocate_step h = record h {
  tracker = (allocate_counter h.tracker).1;
  returned = (allocate_counter h.tracker).0 ∷ h.returned;
}

abbrev pub complete_step : ℕ → History → History
complete_step c h = record h { tracker = complete_counter c h.tracker; finished = c ∷ h.finished }

-- One call. A user completes only a counter that was returned, and each only once.
pub data Step (h : History) : History → Type 0 where
  allocate : h.tracker.next_allocated_counter + 1 < 2 ^ 64 → Step h (allocate_step h)
  complete :
      (c : ℕ) → elem c h.returned ≡ true → elem c h.finished ≡ false → Step h (complete_step c h)

pub data Reach : History → Type 0 where
  start : Reach (record { tracker = new; returned = []; finished = [] })
  step : {h k : History} → Reach h → Step h k → Reach k

abbrev pub Distinct : List ℕ → Type 0
Distinct [] = Unit {0}
Distinct (c ∷ cs) = (elem c cs ≡ false) × Distinct cs

-- No counter from the next one on is complete.
pub record IsFresh (t : AsyncCounterTracker) : Type 0 where
  pub tracker : IsTracker t
  pub next_small : t.next_allocated_counter < 2 ^ 64
  pub next_large : 64 ≤ t.next_allocated_counter
  pub fresh : (x : ℕ) → t.next_allocated_counter ≤ x → is_counter_complete t x ≡ false

next_complete :
    (c : ℕ) (t : AsyncCounterTracker)
    → (complete_counter c t).next_allocated_counter ≡ t.next_allocated_counter
unfolding complete_counter
next_complete c t = refl

complete-allocate :
    (t : AsyncCounterTracker) (x : ℕ)
    → is_counter_complete (allocate_counter t).1 x ≡ is_counter_complete t x
unfolding allocate_counter is_counter_complete
complete-allocate t x = refl

allocate-IsFresh :
    (t : AsyncCounterTracker)
    → t.next_allocated_counter + 1 < 2 ^ 64
    → IsFresh t
    → IsFresh (allocate_counter t).1
unfolding allocate_counter
allocate-IsFresh t h f = record {
  tracker = f.tracker;
  next_small = omega arith;
  next_large = omega (arith, f.next_large);
  fresh = λ x k. complete-allocate t x ∙ f.fresh x (omega arith);
}

complete-IsFresh :
    (t : AsyncCounterTracker) (c : ℕ)
    → c < t.next_allocated_counter
    → is_counter_complete t c ≡ false
    → IsFresh t
    → IsFresh (complete_counter c t)
complete-IsFresh t c h n f =
    let (v, k) = complete_counter_lem c t f.tracker (omega (arith, f.next_small)) n in
    record {
      tracker = v;
      next_small = omega (arith, next_complete c t, f.next_small);
      next_large = omega (arith, next_complete c t, f.next_large);
      fresh = λ x p. ground (arith, k x, f.fresh x, next_complete c t);
    }

new-IsFresh : IsFresh new
unfolding new
new-IsFresh = record {
  tracker = new-IsTracker;
  next_small = omega arith;
  next_large = omega arith;
  fresh = λ x h. complete-new x ∙ le→ltb x 64 h;
}

-- What the users can rely on.
pub record IsFaithful (h : History) : Type 0 where
  pub in_order : IsFresh h.tracker
  pub range : (x : ℕ) → elem x h.returned ≡ true → x < h.tracker.next_allocated_counter
  pub distinct : Distinct h.returned
  pub answers :
      (x : ℕ) → elem x h.returned ≡ true → is_counter_complete h.tracker x ≡ elem x h.finished
  pub only : (x : ℕ) → elem x h.finished ≡ true → elem x h.returned ≡ true

allocated : (t : AsyncCounterTracker) → (allocate_counter t).0 ≡ t.next_allocated_counter
unfolding allocate_counter
allocated t = refl

next_allocate :
    (t : AsyncCounterTracker)
    → t.next_allocated_counter + 1 < 2 ^ 64
    → (allocate_counter t).1.next_allocated_counter ≡ t.next_allocated_counter + 1
unfolding allocate_counter
next_allocate t h = omega arith

Step-IsFaithful : {h k : History} → Step h k → IsFaithful h → IsFaithful k
Step-IsFaithful {h} (allocate small) f =
    let t = h.tracker in
    let is_new : elem (allocate_counter t).0 h.returned ≡ false =
      ground (arith, allocated t, f.range (allocate_counter t).0) in
    record {
      in_order = allocate-IsFresh t small f.in_order;
      range = λ x e. ground (arith, allocated t, next_allocate t small, f.range x);
      distinct = (is_new, f.distinct);
      answers = λ x e.
          complete-allocate t x
          ∙ ground (arith, allocated t, f.answers x, f.only x, is_new, f.in_order.fresh x);
      only = λ x e. ground (arith, f.only x);
    }
Step-IsFaithful {h} (complete c mine once) f =
    let t = h.tracker in
    let open_yet : is_counter_complete t c ≡ false = f.answers c mine ∙ once in
    let (v, k) =
      complete_counter_lem c t f.in_order.tracker
        (omega (arith, f.range c mine, f.in_order.next_small)) open_yet in
    record {
      in_order = complete-IsFresh t c (f.range c mine) open_yet f.in_order;
      range = λ x e. omega (arith, next_complete c t, f.range x e);
      distinct = f.distinct;
      answers = λ x e. ground (arith, k x, f.answers x e);
      only = λ x e. ground (arith, f.only x, mine);
    }

-- In every history of calls in which the next counter stays below 2 ^ 64 and users complete only
-- counters that were returned to them, each once: `allocateCounter` returns distinct counters, all
-- below the next one; a returned counter is complete exactly if it was completed; no counter from the
-- next one on is complete; and the segments stay sorted.
pub Reach-IsFaithful : {h : History} → Reach h → IsFaithful h
Reach-IsFaithful start = record {
  in_order = new-IsFresh;
  range = λ x e. cc;
  distinct = tt;
  answers = λ x e. cc;
  only = λ x e. cc;
}
Reach-IsFaithful (step r s) = Step-IsFaithful s (Reach-IsFaithful r)
