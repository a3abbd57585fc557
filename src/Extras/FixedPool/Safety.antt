-- ===== src/Extras/FixedPool/Safety.antt =====
-- include/extras/fixed_pool.hpp: what `allocate` gives, and the states that the users can reach.
use voxen.Prelude.{
  ℕ, ◌<◌, ◌≡◌, refl, arith, ◌∙◌, Bool, true, false, Option, none, some, ◌==◌, if◌then◌else◌, set,
  length-set,
}
use voxen.Extras.Bitset.{Bitset, test, set_at, clear_at, occupy_zero}
use voxen.Extras.Bitset.Bits.{set_clear_test, clear_all-IsValid}
use voxen.Extras.Bitset.Zero.{Occupies, occupy_zero-Occupies}
use voxen.Extras.FixedPool.{FixedPool, Allocated, null, threw, object, new, allocate, usage}
use voxen.Extras.FixedPool.Steps.{
  State, grant, Reach, IsSafe, usage-set, acquire-IsSafe, release-IsSafe, clear-IsSafe, start, step,
  allocates, acquires, releases, clears,
}

-- What `allocate` gives: a slot that nobody references and nobody is clearing, now with one
-- reference; or null, if every slot is in use; or an exception, after which the same slots are in
-- use as before.
abbrev pub Gives : (n : ℕ) → State → Allocated → FixedPool → Type 0
Gives n s null p = (p ≡ s.pool) × ((id : ℕ) → id < n → test s.pool.used_bitmap id ≡ true)
Gives n s threw p =
    (p.usage_counts ≡ s.pool.usage_counts)
    × ((id : ℕ) → id < n → test p.used_bitmap id ≡ test s.pool.used_bitmap id)
Gives n s (object slot) p =
    (slot < n)
    × (usage s.pool slot ≡ 0)
    × (s.clearing slot ≡ false)
    × ((id : ℕ) → usage p id ≡ (if slot == id then 1 else usage s.pool id))

-- In a safe state of a pool of at least one slot: `allocate` either gives a slot that nobody used,
-- with a count of 1 and every other count as before; or gives null, with every slot marked used
-- and nothing changed; or the constructor throws, with every mark and count as before. The state
-- stays safe.
pub allocate-Gives :
    (n : ℕ) (constructs : Bool) (s : State)
    → 0 < n
    → IsSafe n s
    → let (result, p) = allocate n constructs s.pool in
      Gives n s result p × IsSafe n (record s { pool = p; owners = grant result s.owners })
unfolding allocate
allocate-Gives n constructs s pos v =
    split (occupy_zero n s.pool.used_bitmap).0 (occupy_zero n s.pool.used_bitmap).1 constructs
      (occupy_zero-Occupies n s.pool.used_bitmap pos v.bitmap).1
  where
    outcome : Option ℕ → Bitset → Bool → Allocated × FixedPool
    outcome o words constructs = elim o [
      | none ↦ (null, record s.pool { used_bitmap = words })
      | some slot ↦
          if constructs
          then (
            object slot,
            record { used_bitmap = words; usage_counts = set s.pool.usage_counts slot 1 },
          )
          else (threw, record s.pool { used_bitmap = clear_at words slot })
    ]

    restored :
        {slot : ℕ} {words : Bitset}
        → Occupies n s.pool.used_bitmap (some slot) words
        → (j : ℕ) → j < n
        → test (clear_at (set_at s.pool.used_bitmap slot) slot) j ≡ test s.pool.used_bitmap j
    restored {slot} o j k =
        let set_valid = (set_clear_test n s.pool.used_bitmap slot slot v.bitmap o.0 o.0).2 in
        ground (
          arith,
          o.1,
          set_clear_test n s.pool.used_bitmap slot j v.bitmap o.0 k,
          set_clear_test n (set_at s.pool.used_bitmap slot) slot j set_valid o.0 k,
        )

    split :
        (o : Option ℕ) (words : Bitset) (c : Bool)
        → Occupies n s.pool.used_bitmap o words
        → let (result, p) = outcome o words c in
          Gives n s result p × IsSafe n (record s { pool = p; owners = grant result s.owners })
    split none words c (same, full) = rw same ((refl, full), v)
    split (some slot) words true o =
        let free : (usage s.pool slot ≡ 0) × (s.clearing slot ≡ false) =
          ground (arith, v.in_use slot o.0, o.1) in
        let at = λ (j : ℕ). usage-set s.pool.usage_counts slot j 1 (omega (arith, o.0, v.counts)) in
        (
          (o.0, free.0, free.1, at),
          record {
            bitmap = o.4;
            counts = length-set s.pool.usage_counts slot 1 ∙ v.counts;
            bytes = λ j. ground (arith, at j, v.bytes j);
            owned = λ j. ground (arith, at j, v.owned j, free);
            in_use = λ j k. ground (
              arith,
              at j,
              v.in_use j k,
              o.3,
              set_clear_test n s.pool.used_bitmap slot j v.bitmap o.0 k,
            );
            unowned = λ j c. ground (arith, at j, v.unowned j c, free);
          },
        )
    split (some slot) words false o =
        let set_valid = (set_clear_test n s.pool.used_bitmap slot slot v.bitmap o.0 o.0).2 in
        rw o.3 (
          (refl, restored o),
          record {
            bitmap =
                (set_clear_test n (set_at s.pool.used_bitmap slot) slot slot set_valid o.0 o.0).3;
            counts = v.counts;
            bytes = v.bytes;
            owned = v.owned;
            in_use = λ j k. restored o j k ∙ v.in_use j k;
            unowned = v.unowned;
          },
        )

-- In a pool of at least one slot, every state that the users can reach by any interleaving of
-- their calls, in which nobody makes a 256th pointer to an object, is safe: a slot's count is the
-- number of pointers to it that were given out or copied and not dropped, the slot is marked used
-- exactly while there are such pointers or its last owner is about to clear it, and never both.
pub Reach-IsSafe : {n : ℕ} {s : State} → 0 < n → Reach n s → IsSafe n s
unfolding new
Reach-IsSafe {n} pos (start counts sized zero) =
    let (valid, reads) = clear_all-IsValid n in
    record {
      bitmap = valid;
      counts = sized;
      bytes = λ id. omega (arith, zero id);
      owned = zero;
      in_use = λ id h. ground (arith, reads id h, zero id);
      unowned = λ id c. cc;
    }
Reach-IsSafe {n} pos (step {s = s} r (allocates c)) =
    (allocate-Gives n c s pos (Reach-IsSafe pos r)).1
Reach-IsSafe {n} pos (step {s = s} r (acquires id h p q)) =
    acquire-IsSafe n id s (Reach-IsSafe pos r) h p q
Reach-IsSafe {n} pos (step {s = s} r (releases id h p)) =
    release-IsSafe n id s (Reach-IsSafe pos r) h p
Reach-IsSafe {n} pos (step {s = s} r (clears id h c)) = clear-IsSafe n id s (Reach-IsSafe pos r) h c
