-- ===== src/Extras/FixedPool/Tests.antt =====
-- A pool of two objects.
use voxen.Prelude.{ℕ, ◌≡◌, zero, suc, refl, true, false, [], ◌∷◌, get_or, arith}
use voxen.Extras.Bitset.{clear_all, occupy_zero, clear_at, total_popcount}
use voxen.Extras.FixedPool.{
  FixedPool, null, object, new, allocate, release_ref, clear_slot, free_space,
}
use voxen.Extras.FixedPool.Steps.{
  State, grant, allocate_step, acquire_step, start, step, allocates, acquires, IsSafe,
}
use voxen.Extras.FixedPool.Safety.{Reach-IsSafe, Gives, allocate-Gives}

abbrev empty : FixedPool
empty = new 2 (0 ∷ 0 ∷ [])

two_objects :
    let (a, p) = allocate 2 true empty in
    let (b, q) = allocate 2 true p in
    let (c, r) = allocate 2 true q in
    (a ≡ object 0) × (b ≡ object 1) × (c ≡ null) × (free_space 2 q ≡ 0)
unfolding new allocate clear_all occupy_zero free_space total_popcount
two_objects = (refl, refl, refl, refl)

freed_again :
    let q = (allocate 2 true (allocate 2 true empty).1).1 in
    let (last, r) = release_ref 0 q in
    (last ≡ true) × ((allocate 2 true (clear_slot 0 r)).0 ≡ object 0)
unfolding new allocate clear_all occupy_zero release_ref clear_slot clear_at
freed_again = (refl, refl)

all_zero : (id : ℕ) → get_or {A = ℕ} (0 ∷ 0 ∷ []) id 0 ≡ 0
all_zero zero = refl
all_zero (suc zero) = refl
all_zero (suc (suc id)) = refl

abbrev idle : State
idle = record { pool = empty; clearing = λ id. false; owners = λ id. 0 }

idle-IsSafe : IsSafe 2 idle
idle-IsSafe = Reach-IsSafe (omega arith) (start (0 ∷ 0 ∷ []) refl all_zero)

allocate-Gives_example :
    let (result, p) = allocate 2 true empty in
    Gives 2 idle result p
    × IsSafe 2 (record { pool = p; clearing = λ id. false; owners = grant result (λ id. 0) })
allocate-Gives_example = allocate-Gives 2 true idle (omega arith) idle-IsSafe

-- A slot is given out, and its pointer is copied.
abbrev given : State
given = allocate_step 2 true idle

Reach-IsSafe_example : IsSafe 2 (acquire_step 0 given)
unfolding allocate new clear_all occupy_zero
Reach-IsSafe_example = Reach-IsSafe (omega arith) (
    step (step (start (0 ∷ 0 ∷ []) refl all_zero) (allocates true))
      (acquires 0 (omega arith) (omega arith) (omega arith)))
