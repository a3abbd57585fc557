-- ===== src/Extras/Bitset.antt =====
-- include/extras/bitset.hpp: a bitset of N bits in 64-bit words, with the search for a zero bit.
pub mod Bits
pub mod Zero
mod Tests
use voxen.Prelude.{
  ℕ, zero, suc, ◌+◌, ◌-◌, ◌*◌, ◌/◌, ◌%◌, Bool, true, false, List, [], ◌∷◌, ◌++◌, Option, none, some,
  ltb, ◌==◌, if◌then◌else◌, get_or, set, replicate,
}
use voxen.Prelude.Words.{
  Word, zeros, ones, shl_one, word_or, word_and, word_not, is_nonzero, popcount, countr_one,
}

-- `m_data`.
abbrev pub Bitset : Type 0
Bitset = List Word

abbrev pub word : Bitset → ℕ → Word
word words i = get_or words i []

pub test : Bitset → ℕ → Bool
test words pos = is_nonzero (word_and (word words (pos / 64)) (shl_one 64 (pos % 64)))

pub set_at : Bitset → ℕ → Bitset
set_at words pos = set words (pos / 64) (word_or (word words (pos / 64)) (shl_one 64 (pos % 64)))

unfoldable pub clear_at : Bitset → ℕ → Bitset
clear_at words pos =
    set words (pos / 64) (word_and (word words (pos / 64)) (word_not (shl_one 64 (pos % 64))))

unfoldable pub total_popcount : Bitset → ℕ
total_popcount [] = 0
total_popcount (w ∷ words) = popcount w + total_popcount words

module _ (n : ℕ) where
  abbrev pub num_ints : ℕ
  num_ints = (n + 63) / 64

  abbrev pub all_bits_used : Bool
  all_bits_used = n % 64 == 0

  abbrev pub last_used_bits : ℕ
  last_used_bits = n % 64

  unfoldable pub clear_all : Bitset
  clear_all = replicate num_ints (zeros 64)

  -- `(1 << last_used_bits) - 1` has ones at the bits below `last_used_bits`.
  pub set_all : Bitset
  set_all =
      if all_bits_used
      then replicate num_ints (ones 64)
      else replicate (num_ints - 1) (ones 64)
        ++ (ones last_used_bits ++ zeros (64 - last_used_bits)) ∷ []

-- The search loop over the words from `i` on, for the rounds left: the word and the bit in it.
unfoldable pub find_in_words : ℕ → ℕ → Bitset → Option (ℕ × ℕ)
find_in_words zero i words = none
find_in_words (suc rounds) i words =
    let later = find_in_words rounds (i + 1) words in
    if ltb (countr_one (word words i)) 64 then some (i, countr_one (word words i)) else later

module _ (n : ℕ) where
  -- The search of `first_zero` and `occupy_zero`: all full words, then the used bits of the last.
  -- The two clauses are the two values of the compile-time constant ALL_BITS_USED.
  unfoldable pub find_zero_when : Bool → Bitset → Option (ℕ × ℕ)
  unfolding find_in_words
  find_zero_when true words = find_in_words (num_ints n) 0 words
  find_zero_when false words = elim (find_in_words (num_ints n - 1) 0 words) [
    | some p ↦ some p
    | none ↦
        if ltb (countr_one (word words (num_ints n - 1))) (last_used_bits n)
        then some (num_ints n - 1, countr_one (word words (num_ints n - 1)))
        else none
  ]

  unfoldable pub find_zero : Bitset → Option (ℕ × ℕ)
  unfolding find_zero_when
  find_zero words = find_zero_when (all_bits_used n) words

  -- `none` is SIZE_MAX, which is no index.
  pub first_zero : Bitset → Option ℕ
  unfolding find_zero
  first_zero words = elim (find_zero words) [ none ↦ none | some (i, cnt) ↦ some (i * 64 + cnt) ]

  unfoldable pub occupy_zero : Bitset → Option ℕ × Bitset
  unfolding find_zero
  occupy_zero words = elim (find_zero words) [
    | none ↦ (none, words)
    | some (i, cnt) ↦ (some (i * 64 + cnt), set words i (word_or (word words i) (shl_one 64 cnt)))
  ]
