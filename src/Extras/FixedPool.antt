-- ===== src/Extras/FixedPool.antt =====
-- include/extras/fixed_pool.hpp: a pool of N objects with reference counts. Objects are their
-- slots; their own constructors and destructors are not modelled, except that a constructor may throw.
pub mod Steps
pub mod Safety
mod Tests
use voxen.Prelude.{
  ℕ, ◌+◌, ◌-◌, ◌%◌, Bool, true, false, List, Option, none, some, ◌==◌, if◌then◌else◌, get_or, set,
  replicate,
}
use voxen.Extras.Bitset.{Bitset, clear_all, clear_at, total_popcount, occupy_zero}

pub record FixedPool : Type 0 where
  pub used_bitmap : Bitset
  pub usage_counts : List ℕ

-- The result of `allocate`: the null pointer, a pointer to a slot, or the constructor's exception.
pub data Allocated : Type 0 where
  null threw : Allocated
  object : ℕ → Allocated

-- A new pool of `n` slots; the array of counts starts with unspecified values.
pub new : ℕ → List ℕ → FixedPool
new n counts = record { used_bitmap = clear_all n; usage_counts = counts }

-- `allocate` holds the lock throughout. The flag says whether the object's constructor returns;
-- for the reusable pool, which constructs nothing, it is true.
pub allocate : ℕ → Bool → FixedPool → Allocated × FixedPool
allocate n constructs p =
    let (pos, words) = occupy_zero n p.used_bitmap in
    elim pos [
      | none ↦ (null, record p { used_bitmap = words })
      | some slot ↦
          if constructs
          then (
            object slot,
            record { used_bitmap = words; usage_counts = set p.usage_counts slot 1 },
          )
          else (threw, record p { used_bitmap = clear_at words slot })
    ]

abbrev pub usage : FixedPool → ℕ → ℕ
usage p id = get_or p.usage_counts id 0

-- `acquire_ref`, on an 8-bit count.
pub acquire_ref : ℕ → FixedPool → FixedPool
acquire_ref id p = record p { usage_counts = set p.usage_counts id ((usage p id + 1) % 256) }

-- The first part of `release_ref`: the count falls, and the last owner goes on.
pub release_ref : ℕ → FixedPool → Bool × FixedPool
release_ref id p =
    (usage p id == 1, record p { usage_counts = set p.usage_counts id ((usage p id + 255) % 256) })

-- The second part, after the object is destroyed: the last owner takes the lock and clears the bit.
pub clear_slot : ℕ → FixedPool → FixedPool
clear_slot id p = record p { used_bitmap = clear_at p.used_bitmap id }

pub free_space : ℕ → FixedPool → ℕ
free_space n p = n - total_popcount p.used_bitmap
