-- ===== src/Extras/LinearAllocator/Tests.antt =====
-- The linear allocator on 32-bit offsets with granularity 64.
use voxen.Prelude.{ℕ, ◌+◌, ◌<◌, ◌≡◌, ◌↔◌, ◌||◌, refl, true, false, [], ◌∷◌, some, arith, max}
use voxen.Extras.LinearAllocator.{
  LinearAllocator, new, allocate, free, grow, align_up, reset, allocate_all,
}
use voxen.Extras.LinearAllocator.Ranges.{Within, covers, in_range}
use voxen.Extras.LinearAllocator.Allocate.{AllocateOutcome, allocate-Outcome, allocate_wraps}
use voxen.Extras.LinearAllocator.Free.{free_lem, free-allocate}
use voxen.Extras.LinearAllocator.Grow.{GrowResult, grow_lem}

-- Offsets 0 to 127 and 256 to 1023 are free.
abbrev space : LinearAllocator
space = record { free_ranges = (0, 128) ∷ (256, 1024) ∷ []; full_size = 1024 }

abbrev space_after : LinearAllocator
space_after = record { free_ranges = (0, 128) ∷ (448, 1024) ∷ []; full_size = 1024 }

allocate_runs : allocate 32 64 130 256 space ≡ some ((256, 448), space_after)
unfolding allocate
allocate_runs = refl

free_runs : free (128, 256) space ≡ (new 1024, true)
unfolding free new
free_runs = refl

grow_runs :
    grow 32 64 (128, 256) 1 space
    ≡ some ((128, 320), record space { free_ranges = (0, 128) ∷ (320, 1024) ∷ [] })
unfolding grow
grow_runs = refl

reset_runs : reset space ≡ (new 1024, true)
unfolding reset new
reset_runs = refl

allocate_all_runs :
    (free (allocate_all (new 1024)).1 (allocate_all (new 1024)).0) ≡ (new 1024, true)
unfolding allocate_all free new
allocate_all_runs = refl

oversize_runs : allocate 32 64 0xffff_fff0 1 (new 1024) ≡ some ((0, 0), new 1024)
unfolding allocate new
oversize_runs = refl

allocate-Outcome_example :
    AllocateOutcome 32 (align_up 32 130 64) (max 256 64) space (allocate 32 64 130 256 space)
allocate-Outcome_example =
    allocate-Outcome 31 8 6 130 space (omega arith) (omega arith) (omega arith) (omega arith)
      (omega arith) (omega arith)

not_free : (x : ℕ) → in_range (128, 256) x ≡ true → covers space.free_ranges x ≡ false
not_free x h = ground arith

free_lem_example :
    let (s', called) = free (128, 256) space in
    Within 0 1024 s'.free_ranges
    × ((x : ℕ) → covers s'.free_ranges x ≡ (in_range (128, 256) x || covers space.free_ranges x))
    × ((called ≡ true) ↔ ((x : ℕ) → x < 1024 → covers s'.free_ranges x ≡ true))
free_lem_example = free_lem 128 256 space (omega arith) (omega arith) (omega arith) not_free

free-allocate_example : (free (256, 448) space_after).0 ≡ space
free-allocate_example =
    free-allocate 31 8 6 130 space space_after (256, 448) (omega arith) (omega arith) (omega arith)
      (omega arith) (omega arith) (omega arith) allocate_runs

grow_lem_example :
    (grow 32 64 (128, 256) 0 space ≡ some ((128, 256), space))
    × (0 < 1 → GrowResult 128 256 (256 + align_up 32 1 64) space (grow 32 64 (128, 256) 1 space))
grow_lem_example =
    grow_lem 31 6 128 256 1 space (omega arith) (omega arith) (omega arith) (omega arith)
      (omega arith) (omega arith) not_free

allocate_wraps_example : allocate 32 64 0xffff_fff0 1 (new 1024) ≡ some ((0, 0), new 1024)
allocate_wraps_example =
    allocate_wraps 31 0 6 0xffff_fff0 1024 (omega arith) (omega arith) (omega arith) (omega arith)
      (omega arith) (omega arith)
