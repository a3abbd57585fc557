-- ===== src/Svc/TaskQueueSet/Wakeups.antt =====
-- The futex of a queue of src/voxen/svc/task_queue_set.cpp: who sleeps, and who will wake it.
use voxen.Prelude.{
  ◌≢◌, ℕ, ◌^◌, ◌<◌, ◌≡◌, ◌⊎◌, inl, inr, subst, sym, ap, ◌∙◌, Bool, true, false, arith, refl,
}
use native.Mathlib.Decide.{ℕ_discrete}
use voxen.Svc.TaskQueueSet.{
  Shared, update, reserve_push, push_index, pop_index, wait_index, store_item, reserve_pop,
  take_item, set_index,
}
use voxen.Svc.TaskQueueSet.Threads.{
  Pc, idle, push_store, waking, pop_reload, asleep, wake, PushMove, PopMove, WaitMove, Move, System,
  Step, Reach, begin, later, move, wake_all, push, pop, wait,
}
use voxen.Svc.TaskQueueSet.Invariant.{Local, Inv}
use voxen.Svc.TaskQueueSet.Reached.{Step-pushes-le, Reach-Inv}

abbrev pub is_asleep : Pc → Bool
is_asleep asleep = true
is_asleep _ = false

-- A thread on its way to `wakeAll`.
abbrev pub is_waker : Pc → Bool
is_waker (push_store _ _ need_wake) = need_wake
is_waker (waking need_wake) = need_wake
is_waker _ = false

abbrev Alarm : Shared → (ℕ → Pc) → Type 0
Alarm m pc = (m.current_index.wait_flag ≡ true) ⊎ ((k : ℕ) × (is_waker (pc k) ≡ true))

-- What a step keeps of the alarm, and that it goes to sleep under the flag only.
record Alert (m m' : Shared) (p p' : Pc) : Type 0 where
  caller : is_waker p ≡ true → is_waker p' ≡ true
  flag :
      m.current_index.wait_flag ≡ true → (m'.current_index.wait_flag ≡ true) ⊎ (is_waker p' ≡ true)
  sleeper : is_asleep p' ≡ true → m'.current_index.wait_flag ≡ true

still : {m : Shared} (p p' : Pc) → is_waker p ≡ false → is_asleep p' ≡ false → Alert m m p p'
still p p' a b = record { caller = λ w. cc; flag = λ w. inl w; sleeper = λ w. cc }

PushMove-Alert : {i : ℕ} {m m' : Shared} {p p' : Pc} → PushMove i m p m' p' → Alert m m' p p'
unfolding reserve_push push_index store_item
PushMove-Alert (PushMove.win {task} {index} e) = record {
  caller = λ w. cc;
  flag = λ w. inr (sym (ap (λ x. x.wait_flag) e) ∙ w);
  sleeper = λ w. cc;
}
PushMove-Alert PushMove.put = record { caller = λ w. w; flag = λ w. inl w; sleeper = λ w. cc }
PushMove-Alert (PushMove.start {task}) = still _ _ refl refl
PushMove-Alert _ = still _ _ refl refl

PopMove-Alert : {i : ℕ} {m m' : Shared} {p p' : Pc} → PopMove i m p m' p' → Alert m m' p p'
unfolding reserve_pop pop_index take_item
PopMove-Alert (PopMove.win {waits} {index} e) = record {
  caller = λ w. cc;
  flag = λ w. inl w;
  sleeper = λ w. cc;
}
PopMove-Alert PopMove.take = record { caller = λ w. cc; flag = λ w. inl w; sleeper = λ w. cc }
PopMove-Alert PopMove.start = still _ _ refl refl
PopMove-Alert _ = still _ _ refl refl

WaitMove-Alert :
    (i : ℕ) {m m' : Shared} {p p' : Pc} → WaitMove m p m' p' → Local i m p → Alert m m' p p'
unfolding set_index wait_index
WaitMove-Alert i (WaitMove.win {index} e) l = record {
  caller = λ w. cc;
  flag = λ w. inl refl;
  sleeper = λ w. cc;
}
WaitMove-Alert i (WaitMove.sleep {index} e f) (old, up) = record {
  caller = λ w. cc;
  flag = λ w. inl w;
  sleeper = λ w. up (sym e);
}
WaitMove-Alert i WaitMove.lose l = still _ _ refl refl
WaitMove-Alert i _ l = still _ _ refl refl

Move-Alert : {i : ℕ} {m m' : Shared} {p p' : Pc} → Move i m p m' p' → Local i m p → Alert m m' p p'
Move-Alert (push mv) l = PushMove-Alert mv
Move-Alert (pop mv) l = PopMove-Alert mv
Move-Alert {i} (wait mv) l = WaitMove-Alert i mv l

abbrev Watched : Shared → (ℕ → Pc) → Type 0
Watched m pc = (j : ℕ) → is_asleep (pc j) ≡ true → Alarm m pc

module _ {i : ℕ} {m m' : Shared} (pc : ℕ → Pc) {p' : Pc} (alert : Alert m m' (pc i) p') where
  by_mover : is_waker p' ≡ true → Alarm m' (update pc i p')
  by_mover w = inr (i, ground arith)

  stays_called : Alarm m pc → Alarm m' (update pc i p')
  stays_called (inl up) = elim (alert.flag up) [ inl f ↦ inl f | inr w ↦ by_mover w ]
  stays_called (inr (k, w)) = elim (ℕ_discrete k i) [
    | yes e ↦ by_mover (alert.caller (subst (λ x. is_waker (pc x) ≡ true) e w))
    | no ne ↦ inr (k, ground arith)
  ]

  stays_seen : Watched m pc → Watched m' (update pc i p')
  stays_seen watched j s = elim (ℕ_discrete j i) [
    | yes e ↦ inl (alert.sleeper (ground arith))
    | no ne ↦ stays_called (watched j (ground arith))
  ]

wake_awake : (p : Pc) → is_asleep (wake p) ≡ false
wake_awake asleep = refl
wake_awake idle = refl
wake_awake _ = refl

wake_all_awake : (pc : ℕ → Pc) (i j : ℕ) → is_asleep (update (λ k. wake (pc k)) i idle j) ≡ false
wake_all_awake pc i j = ground (arith, wake_awake (pc j))

Step-Watched : {s t : System} → Inv s.mem s.pc → Step s t → Watched s.mem s.pc → Watched t.mem t.pc
Step-Watched {s} inv (move i mv) watched = stays_seen s.pc (Move-Alert mv (inv.locals i)) watched
Step-Watched {s} inv (wake_all i e) watched = λ j w. cc (wake_all_awake s.pc i j)

Reach-Watched : {s : System} → Reach s → s.mem.pushes < 2 ^ 31 → Watched s.mem s.pc
Reach-Watched begin few = λ j w. cc
Reach-Watched (later r st) few =
    Step-Watched (Reach-Inv r (omega (arith, Step-pushes-le st))) st
      (Reach-Watched r (omega (arith, Step-pushes-le st)))

-- The thread that makes a step.
unfoldable pub mover : {s t : System} → Step s t → ℕ
mover (move i _) = i
mover (wake_all i _) = i

-- Steps of one thread.
pub data Alone (k : ℕ) : System → System → Type 0 where
  rest : {s : System} → Alone k s s
  next : {s t u : System} (st : Step s t) → mover st ≡ k → Alone k t u → Alone k s u

asleep_eq : (p : Pc) → is_asleep p ≡ true → p ≡ asleep
asleep_eq asleep h = refl
asleep_eq idle h = cc
asleep_eq _ h = cc

-- Steps of one thread that finish the call that it is in: it begins no call of its own.
pub data InCall (k : ℕ) : System → System → Type 0 where
  reached : {s : System} → InCall k s s
  continue :
      {s t u : System} (st : Step s t) → mover st ≡ k → s.pc k ≢ idle → InCall k t u → InCall k s u

module _ (j k : ℕ) where
  -- What another thread `k` does in the rest of its call so that `j` is awake. No step of `j` itself
  -- is among it, so that it is a call of `wakeAll` that wakes it.
  abbrev Awakes : System → Type 0
  Awakes s = (k ≢ j) × (t : System) × InCall k s t × (t.pc j ≡ pop_reload true)

  waking_calls : (s : System) → s.pc j ≡ asleep → s.pc k ≡ waking true → Awakes s
  unfolding mover
  waking_calls s sleeping calls =
      let other : k ≢ j = λ e. cc in
      (
        other,
        _,
        continue (wake_all k calls) refl (λ e. cc) reached,
        ground (arith, ap wake sleeping),
      )

  store_calls :
      (s : System) (task place : ℕ)
      → s.pc j ≡ asleep
      → s.pc k ≡ push_store task place true
      → Awakes s
  unfolding mover
  store_calls s task place sleeping calls =
      let other : k ≢ j = λ e. cc in
      let mv : Move k s.mem (s.pc k) (store_item task place s.mem) (waking true) =
        subst (λ p. Move k s.mem p (store_item task place s.mem) (waking true)) (sym calls)
          (push PushMove.put) in
      let (_, t, run, awake) =
        waking_calls
          (record { mem = store_item task place s.mem; pc = update s.pc k (waking true) })
          (ground arith) (ground arith) in
      (other, t, continue (move k mv) refl (λ e. cc) run, awake)

  caller_calls : (s : System) (p : Pc) → s.pc k ≡ p → is_waker p ≡ true → s.pc j ≡ asleep → Awakes s
  caller_calls s (push_store task place true) e w sleeping = store_calls s task place sleeping e
  caller_calls s (waking true) e w sleeping = waking_calls s sleeping e
  caller_calls s (push_store task place false) e w sleeping = cc
  caller_calls s (waking false) e w sleeping = cc
  caller_calls s idle e w sleeping = cc
  caller_calls s _ e w sleeping = cc

-- No wakeup is lost: in a state that the threads reach with no stop and fewer than 2 ^ 31 pushes,
-- if a thread sleeps in `popTaskOrWait` while there are tasks, then some other thread is inside a call
-- whose remaining steps, made by that thread alone, wake the sleeper.
pub no_lost_wakeup :
    {s : System}
    → Reach s
    → s.mem.pushes < 2 ^ 31
    → (j : ℕ) → s.pc j ≡ asleep
    → s.mem.current_index.consume < s.mem.current_index.produce
    → (k : ℕ) × (k ≢ j) × (t : System) × InCall k s t × (t.pc j ≡ pop_reload true)
no_lost_wakeup {s} r few j sleeping tasks = elim (Reach-Watched r few j (ground arith)) [
  | inl up ↦ absurd (omega (arith, (Reach-Inv r few).queue.sleepers up))
  | inr (k, w) ↦
      let (other, t, run, awake) = caller_calls j k s (s.pc k) refl w sleeping in
      (k, other, t, run, awake)
]
