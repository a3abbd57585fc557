-- ===== src/Prelude/Words.antt =====
-- Unsigned words that the code uses as masks: the list of their bits, the lowest first.
use Prim.Native.Nat.{ℕ, zero, suc, ◌+◌, ◌*◌, ◌<◌, ◌≤◌}
use mathlib.Core.Path.{◌≡◌, refl, ap}
use mathlib.Core.Bool.{Bool, true, false, not, ◌&&◌, ◌||◌}
use mathlib.Core.List.{List, [], ◌∷◌, map}
use native.Mathlib.Omega.{arith}
use voxen.Prelude.Tests.{if◌then◌else◌}
use voxen.Prelude.Lists.{length, get_or, set, replicate}

abbrev pub Word : Type 0
Word = List Bool

-- The number that a word stands for.
abbrev pub to_ℕ : Word → ℕ
to_ℕ [] = 0
to_ℕ (b ∷ w) = (if b then 1 else 0) + 2 * to_ℕ w

-- A word of `w` bits with every bit zero; `~0` on `w` bits.
abbrev pub zeros : ℕ → Word
zeros w = replicate w false

abbrev pub ones : ℕ → Word
ones w = replicate w true

-- `1 << i` on `w` bits, for i below w.
abbrev pub shl_one : ℕ → ℕ → Word
shl_one w i = set (zeros w) i true

abbrev pub word_or : Word → Word → Word
word_or [] v = []
word_or (a ∷ u) [] = a ∷ u
word_or (a ∷ u) (b ∷ v) = (a || b) ∷ word_or u v

abbrev pub word_and : Word → Word → Word
word_and [] v = []
word_and (a ∷ u) [] = []
word_and (a ∷ u) (b ∷ v) = (a && b) ∷ word_and u v

abbrev pub word_not : Word → Word
word_not u = map not u

abbrev pub is_nonzero : Word → Bool
is_nonzero [] = false
is_nonzero (a ∷ u) = a || is_nonzero u

-- `std::popcount` and `std::countr_one`.
abbrev pub popcount : Word → ℕ
popcount [] = 0
popcount (a ∷ u) = if a then suc (popcount u) else popcount u

abbrev pub countr_one : Word → ℕ
countr_one [] = 0
countr_one (a ∷ u) = if a then suc (countr_one u) else 0

is_nonzero-and_zeros : (u : Word) → is_nonzero (word_and u (zeros (length u))) ≡ false
is_nonzero-and_zeros [] = refl
is_nonzero-and_zeros (true ∷ u) = is_nonzero-and_zeros u
is_nonzero-and_zeros (false ∷ u) = is_nonzero-and_zeros u

word_or-zeros : (u : Word) → word_or u (zeros (length u)) ≡ u
word_or-zeros [] = refl
word_or-zeros (true ∷ u) = ap (λ v. true ∷ v) (word_or-zeros u)
word_or-zeros (false ∷ u) = ap (λ v. false ∷ v) (word_or-zeros u)

word_and-not_zeros : (u : Word) → word_and u (word_not (zeros (length u))) ≡ u
word_and-not_zeros [] = refl
word_and-not_zeros (true ∷ u) = ap (λ v. true ∷ v) (word_and-not_zeros u)
word_and-not_zeros (false ∷ u) = ap (λ v. false ∷ v) (word_and-not_zeros u)

-- The three laws at the word's own width.
test_bit_self :
    (u : Word) (i : ℕ)
    → i < length u
    → is_nonzero (word_and u (shl_one (length u) i)) ≡ get_or u i false
test_bit_self [] i h = refl
test_bit_self (true ∷ u) zero h = refl
test_bit_self (false ∷ u) zero h = is_nonzero-and_zeros u
test_bit_self (true ∷ u) (suc i) h = test_bit_self u i (omega arith)
test_bit_self (false ∷ u) (suc i) h = test_bit_self u i (omega arith)

set_bit_self : (u : Word) (i : ℕ) → i < length u → word_or u (shl_one (length u) i) ≡ set u i true
set_bit_self [] i h = refl
set_bit_self (true ∷ u) zero h = ap (λ v. true ∷ v) (word_or-zeros u)
set_bit_self (false ∷ u) zero h = ap (λ v. true ∷ v) (word_or-zeros u)
set_bit_self (true ∷ u) (suc i) h = ap (λ v. true ∷ v) (set_bit_self u i (omega arith))
set_bit_self (false ∷ u) (suc i) h = ap (λ v. false ∷ v) (set_bit_self u i (omega arith))

clear_bit_self :
    (u : Word) (i : ℕ) → i < length u → word_and u (word_not (shl_one (length u) i)) ≡ set u i false
clear_bit_self [] i h = refl
clear_bit_self (true ∷ u) zero h = ap (λ v. false ∷ v) (word_and-not_zeros u)
clear_bit_self (false ∷ u) zero h = ap (λ v. false ∷ v) (word_and-not_zeros u)
clear_bit_self (true ∷ u) (suc i) h = ap (λ v. true ∷ v) (clear_bit_self u i (omega arith))
clear_bit_self (false ∷ u) (suc i) h = ap (λ v. false ∷ v) (clear_bit_self u i (omega arith))

-- `(u & (1 << i)) != 0` reads bit i, `u | (1 << i)` sets it and `u & ~(1 << i)` clears it.
module _ (w : ℕ) (u : Word) (i : ℕ) (e : length u ≡ w) (h : i < w) where
  pub test_bit : is_nonzero (word_and u (shl_one w i)) ≡ get_or u i false
  test_bit = rw (← e) (test_bit_self u i (omega (arith, e)))

  pub set_bit : word_or u (shl_one w i) ≡ set u i true
  set_bit = rw (← e) (set_bit_self u i (omega (arith, e)))

  pub clear_bit : word_and u (word_not (shl_one w i)) ≡ set u i false
  clear_bit = rw (← e) (clear_bit_self u i (omega (arith, e)))

pub popcount-set :
    (u : Word) (i : ℕ) (b : Bool)
    → i < length u
    → popcount (set u i b) + (if get_or u i false then 1 else 0) ≡ popcount u + (if b then 1 else 0)
popcount-set [] i b h = absurd (omega arith)
popcount-set (true ∷ u) zero b h = ground arith
popcount-set (false ∷ u) zero b h = ground arith
popcount-set (true ∷ u) (suc i) b h = omega (arith, popcount-set u i b (omega arith))
popcount-set (false ∷ u) (suc i) b h = popcount-set u i b (omega arith)

-- The trailing ones end at a zero, unless they fill the word.
pub countr_one-le : (u : Word) → countr_one u ≤ length u
countr_one-le [] = omega arith
countr_one-le (true ∷ u) = omega (arith, countr_one-le u)
countr_one-le (false ∷ u) = omega arith

pub get_or-countr_one : (u : Word) → get_or u (countr_one u) false ≡ false
get_or-countr_one [] = refl
get_or-countr_one (true ∷ u) = get_or-countr_one u
get_or-countr_one (false ∷ u) = refl

pub get_or-below_countr_one : (u : Word) (j : ℕ) → j < countr_one u → get_or u j false ≡ true
get_or-below_countr_one [] j h = elim h [ ]
get_or-below_countr_one (true ∷ u) zero h = refl
get_or-below_countr_one (true ∷ u) (suc j) h = get_or-below_countr_one u j (omega arith)
get_or-below_countr_one (false ∷ u) j h = elim h [ ]
