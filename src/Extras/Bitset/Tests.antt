-- ===== src/Extras/Bitset/Tests.antt =====
-- A bitset of 70 bits.
use voxen.Prelude.{◌+◌, ◌≡◌, refl, none, some, if◌then◌else◌, arith}
use voxen.Extras.Bitset.{
  test, set_at, clear_at, total_popcount, clear_all, set_all, first_zero, occupy_zero,
}
use voxen.Extras.Bitset.Bits.{IsValid, set_clear_test, clear_all-IsValid}
use voxen.Extras.Bitset.Zero.{Occupies, occupy_zero-Occupies}

set_all_full : (total_popcount (set_all 70) ≡ 70) × (first_zero 70 (set_all 70) ≡ none)
unfolding set_all total_popcount first_zero
set_all_full = (refl, refl)

-- The first zero may lie in the last, partly used word.
second_word : first_zero 70 (clear_at (set_all 70) 66) ≡ some 66
unfolding set_all first_zero clear_at
second_word = refl

set_clear_test_example :
    (test (set_at (clear_all 70) 65) 3 ≡ test (clear_all 70) 3)
    × (test (clear_at (clear_all 70) 65) 3 ≡ test (clear_all 70) 3)
    × IsValid 70 (set_at (clear_all 70) 65)
    × IsValid 70 (clear_at (clear_all 70) 65)
    × (total_popcount (set_at (clear_all 70) 65) + (if test (clear_all 70) 65 then 1 else 0)
        ≡ total_popcount (clear_all 70) + 1)
    × (total_popcount (clear_at (clear_all 70) 65) + (if test (clear_all 70) 65 then 1 else 0)
        ≡ total_popcount (clear_all 70))
set_clear_test_example =
    set_clear_test 70 (clear_all 70) 65 3 (clear_all-IsValid 70).0 (omega arith) (omega arith)

occupy_zero-Occupies_example :
    let (pos, words') = occupy_zero 70 (clear_all 70) in
    (pos ≡ first_zero 70 (clear_all 70)) × Occupies 70 (clear_all 70) pos words'
occupy_zero-Occupies_example =
    occupy_zero-Occupies 70 (clear_all 70) (omega arith) (clear_all-IsValid 70).0
