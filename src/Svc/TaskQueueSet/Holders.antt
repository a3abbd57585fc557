-- ===== src/Svc/TaskQueueSet/Holders.antt =====
-- Which thread of src/voxen/svc/task_queue_set.cpp stands behind a position that is in use.
use voxen.Prelude.{ℕ, ◌≡◌, ◌≢◌, ◌==◌, ==_iff, subst, ap, Bool, true, false, arith, refl}
use native.Mathlib.Decide.{ℕ_discrete}
use voxen.Svc.TaskQueueSet.{
  Stage, reserved, taking, Shared, reserve_push, store_item, reserve_pop, take_item, set_index,
}
use voxen.Svc.TaskQueueSet.Pushing.{≢_test}
use voxen.Svc.TaskQueueSet.Threads.{
  Pc, idle, push_store, pop_exchange, asleep, wake, PushMove, PopMove, WaitMove, Move, System, Step,
  Reach, begin, later, move, wake_all, push, pop, wait, waking,
}

abbrev pub stores_at : ℕ → Pc → Bool
stores_at q (push_store _ place _) = place == q
stores_at q _ = false

abbrev pub takes_at : ℕ → Pc → Bool
takes_at q (pop_exchange place) = place == q
takes_at q _ = false

-- A position is reserved by a thread that is about to store its task, and held by one that is
-- about to take it.
abbrev Backed : ℕ → ℕ → Stage → Pc → Type 0
Backed q k s p = (s ≡ reserved k → stores_at q p ≡ true) × (s ≡ taking k → takes_at q p ≡ true)

abbrev Held : Shared → (ℕ → Pc) → Type 0
Held m pc = (q k : ℕ) → Backed q k (m.stage q) (pc k)

-- What a step of thread `i` does to one position.
record Keeps (i : ℕ) (m m' : Shared) (p p' : Pc) (q : ℕ) : Type 0 where
  mine : Backed q i (m.stage q) p → Backed q i (m'.stage q) p'
  reserved_by : (k : ℕ) → k ≢ i → m'.stage q ≡ reserved k → m.stage q ≡ reserved k
  taking_by : (k : ℕ) → k ≢ i → m'.stage q ≡ taking k → m.stage q ≡ taking k

bare :
    {i : ℕ} {m : Shared} (p p' : Pc) (q : ℕ)
    → stores_at q p ≡ false
    → takes_at q p ≡ false
    → Keeps i m m p p' q
bare p p' q a b = record {
  mine = λ h. (λ e. cc (h.0 e), λ e. cc (h.1 e));
  reserved_by = λ k ne e. e;
  taking_by = λ k ne e. e;
}

PushMove-Keeps :
    {i : ℕ} {m m' : Shared} {p p' : Pc} → PushMove i m p m' p' → (q : ℕ) → Keeps i m m' p p' q
unfolding reserve_push store_item
PushMove-Keeps {m = m} (PushMove.win {task} {index} e) q =
    let made : m.current_index.produce ≡ index.produce = ap (λ x. x.produce) e in
    record {
      mine = λ h. (λ f. ground arith, λ f. ground arith);
      reserved_by = λ k ne f. ground arith;
      taking_by = λ k ne f. ground arith;
    }
PushMove-Keeps PushMove.put q = record {
  mine = λ h. (λ f. ground arith, λ f. ground arith);
  reserved_by = λ k ne f. ground arith;
  taking_by = λ k ne f. ground arith;
}
PushMove-Keeps PushMove.start q = bare _ _ q refl refl
PushMove-Keeps _ q = bare _ _ q refl refl

PopMove-Keeps :
    {i : ℕ} {m m' : Shared} {p p' : Pc} → PopMove i m p m' p' → (q : ℕ) → Keeps i m m' p p' q
unfolding reserve_pop take_item
PopMove-Keeps {m = m} (PopMove.win {waits} {index} e) q =
    let made : m.current_index.consume ≡ index.consume = ap (λ x. x.consume) e in
    record {
      mine = λ h. (λ f. ground arith, λ f. ground arith);
      reserved_by = λ k ne f. ground arith;
      taking_by = λ k ne f. ground arith;
    }
PopMove-Keeps PopMove.take q = record {
  mine = λ h. (λ f. ground arith, λ f. ground arith);
  reserved_by = λ k ne f. ground arith;
  taking_by = λ k ne f. ground arith;
}
PopMove-Keeps PopMove.start q = bare _ _ q refl refl
PopMove-Keeps _ q = bare _ _ q refl refl

WaitMove-Keeps :
    (i : ℕ) {m m' : Shared} {p p' : Pc} → WaitMove m p m' p' → (q : ℕ) → Keeps i m m' p p' q
unfolding set_index
WaitMove-Keeps i (WaitMove.win {index} e) q = record {
  mine = λ h. (λ f. ground arith, λ f. ground arith);
  reserved_by = λ k ne f. f;
  taking_by = λ k ne f. f;
}
WaitMove-Keeps i WaitMove.lose q = bare _ _ q refl refl
WaitMove-Keeps i _ q = bare _ _ q refl refl

Move-Keeps : {i : ℕ} {m m' : Shared} {p p' : Pc} → Move i m p m' p' → (q : ℕ) → Keeps i m m' p p' q
Move-Keeps (push mv) q = PushMove-Keeps mv q
Move-Keeps (pop mv) q = PopMove-Keeps mv q
Move-Keeps {i} (wait mv) q = WaitMove-Keeps i mv q

wake-Backed : (q k : ℕ) (s : Stage) (p : Pc) → Backed q k s p → Backed q k s (wake p)
wake-Backed q k s asleep b = (λ e. cc (b.0 e), λ e. cc (b.1 e))
wake-Backed q k s idle b = b
wake-Backed q k s _ b = b

Step-Held : {s t : System} → Step s t → Held s.mem s.pc → Held t.mem t.pc
Step-Held {s} (move i {m} {p} mv) held q k = elim (ℕ_discrete k i) [
  | yes e ↦ rw (e, (==_iff i i).1 refl) ((Move-Keeps mv q).mine (held q i))
  | no ne ↦
      let keeps = Move-Keeps mv q in
      rw (≢_test k i ne)
        (λ e. (held q k).0 (keeps.reserved_by k ne e), λ e. (held q k).1 (keeps.taking_by k ne e))
]
Step-Held {s} (wake_all i e) held q k = elim (ℕ_discrete k i) [
  | yes f ↦
      rw (f, (==_iff i i).1 refl)
        (idle-Backed q i (s.mem.stage q) (subst (Backed q i (s.mem.stage q)) e (held q i)))
  | no ne ↦ rw (≢_test k i ne) (wake-Backed q k (s.mem.stage q) (s.pc k) (held q k))
]
  where
    idle-Backed : (q i : ℕ) (s : Stage) → Backed q i s (waking true) → Backed q i s idle
    idle-Backed q i s b = b

-- In every state the threads reach, a position that is reserved is about to be stored by the thread
-- that reserved it, and one that is held is about to be taken by the thread that holds it.
pub Reach-Held :
    {s : System}
    → Reach s
    → (q k : ℕ)
    → (s.mem.stage q ≡ reserved k → stores_at q (s.pc k) ≡ true)
      × (s.mem.stage q ≡ taking k → takes_at q (s.pc k) ≡ true)
Reach-Held begin q k = (λ e. cc, λ e. cc)
Reach-Held (later r st) q k = Step-Held st (Reach-Held r) q k
