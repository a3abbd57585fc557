-- ===== src/Prelude/Packed.antt =====
-- Arrays packed by a mask: the entry for bit i stands at the number of mask bits below i.
use Prim.Native.Nat.{ℕ, zero, suc, ◌-◌, ◌<◌}
use mathlib.Core.Path.{◌≡◌, refl, ap}
use mathlib.Core.Bool.{true, false}
use mathlib.Core.List.{List, [], ◌∷◌, ◌++◌}
use mathlib.Core.Option.{Option, none, some}
use native.Mathlib.Omega.{arith}
use mathlib.Core.Logic.{◌≢◌, inl, inr}
use voxen.Prelude.Tests.{if◌then◌else◌, ◌==◌, Bool-cases, ==→eq, ==_ne}
use voxen.Prelude.Lists.{length, get_or, get_elem?, set}
use voxen.Prelude.Words.{Word, ones, zeros, word_and, popcount, popcount-set}

-- `std::popcount(w & ((1 << i) - 1))` on 64 bits.
abbrev pub rank : Word → ℕ → ℕ
rank w i = popcount (word_and w (ones i ++ zeros (64 - i)))

-- `m & (m - 1)`.
abbrev pub clear_lowest : Word → Word
clear_lowest [] = []
clear_lowest (true ∷ w) = false ∷ w
clear_lowest (false ∷ w) = false ∷ clear_lowest w

module _ {ℓ} {A : Type ℓ} where
  -- Opening and closing a gap in an array.
  abbrev pub insert_at : ℕ → A → List A → List A
  insert_at zero a xs = a ∷ xs
  insert_at (suc n) a [] = a ∷ []
  insert_at (suc n) a (x ∷ xs) = x ∷ insert_at n a xs

  abbrev pub remove_at : ℕ → List A → List A
  remove_at n [] = []
  remove_at zero (x ∷ xs) = xs
  remove_at (suc n) (x ∷ xs) = x ∷ remove_at n xs

  -- What the array holds for bit i, by walking the mask.
  abbrev pub slot : Word → List A → ℕ → Option A
  slot [] xs i = none
  slot (false ∷ w) xs zero = none
  slot (false ∷ w) xs (suc i) = slot w xs i
  slot (true ∷ w) [] i = none
  slot (true ∷ w) (x ∷ xs) zero = some x
  slot (true ∷ w) (x ∷ xs) (suc i) = slot w xs i

abbrev below : Word → ℕ → ℕ → ℕ
below w i k = popcount (word_and w (ones i ++ zeros k))

below-zero : (w : Word) (k : ℕ) → below w zero k ≡ 0
below-zero [] k = refl
below-zero (b ∷ w) zero = refl
below-zero (true ∷ w) (suc k) = below-zero w k
below-zero (false ∷ w) (suc k) = below-zero w k

module _ {ℓ} {A : Type ℓ} where
  get_below :
      (w : Word) (xs : List A) (i k : ℕ)
      → get_or w i false ≡ true
      → get_elem? xs (below w i k) ≡ slot w xs i
  get_below [] xs i k h = absurd (ground arith)
  get_below (false ∷ w) xs zero k h = absurd (ground arith)
  get_below (false ∷ w) xs (suc i) k h = get_below w xs i k h
  get_below (true ∷ w) [] i k h = refl
  get_below (true ∷ w) (x ∷ xs) zero k h = rw (below-zero (true ∷ w) k) refl
  get_below (true ∷ w) (x ∷ xs) (suc i) k h = get_below w xs i k h

  slot_full :
      (w : Word) (xs : List A) (i : ℕ)
      → popcount w ≡ length xs
      → get_or w i false ≡ true
      → (a : A) × (slot w xs i ≡ some a)
  slot_full [] xs i p h = absurd (ground arith)
  slot_full (false ∷ w) xs zero p h = absurd (ground arith)
  slot_full (false ∷ w) xs (suc i) p h = slot_full w xs i p h
  slot_full (true ∷ w) [] i p h = absurd (omega (arith, p))
  slot_full (true ∷ w) (x ∷ xs) zero p h = (x, refl)
  slot_full (true ∷ w) (x ∷ xs) (suc i) p h = slot_full w xs i (omega (arith, p)) h

  pub slot_clear : (w : Word) (xs : List A) (i : ℕ) → get_or w i false ≡ false → slot w xs i ≡ none
  slot_clear [] xs i h = refl
  slot_clear (false ∷ w) xs zero h = refl
  slot_clear (false ∷ w) xs (suc i) h = slot_clear w xs i h
  slot_clear (true ∷ w) [] i h = refl
  slot_clear (true ∷ w) (x ∷ xs) zero h = absurd (ground arith)
  slot_clear (true ∷ w) (x ∷ xs) (suc i) h = slot_clear w xs i h

  insert_self :
      (w : Word) (xs : List A) (i k : ℕ) (a : A)
      → i < length w
      → popcount w ≡ length xs
      → get_or w i false ≡ false
      → slot (set w i true) (insert_at (below w i k) a xs) i ≡ some a
  insert_self [] xs i k a h p e = absurd (omega arith)
  insert_self (true ∷ w) xs zero k a h p e = absurd (ground arith)
  insert_self (false ∷ w) xs zero k a h p e = rw (below-zero (false ∷ w) k) refl
  insert_self (false ∷ w) xs (suc i) k a h p e = insert_self w xs i k a (omega arith) p e
  insert_self (true ∷ w) [] (suc i) k a h p e = absurd (omega (arith, p))
  insert_self (true ∷ w) (x ∷ xs) (suc i) k a h p e =
      insert_self w xs i k a (omega arith) (omega (arith, p)) e

  insert_ne :
      (w : Word) (xs : List A) (i j k : ℕ) (a : A)
      → i ≢ j
      → popcount w ≡ length xs
      → get_or w i false ≡ false
      → slot (set w i true) (insert_at (below w i k) a xs) j ≡ slot w xs j
  insert_ne [] xs i j k a n p e = refl
  insert_ne (true ∷ w) xs zero j k a n p e = absurd (ground arith)
  insert_ne (false ∷ w) xs zero zero k a n p e = absurd (n refl)
  insert_ne (false ∷ w) xs zero (suc j) k a n p e = rw (below-zero (false ∷ w) k) refl
  insert_ne (false ∷ w) xs (suc i) zero k a n p e = refl
  insert_ne (false ∷ w) xs (suc i) (suc j) k a n p e =
      insert_ne w xs i j k a (λ q. n (ap suc q)) p e
  insert_ne (true ∷ w) [] (suc i) j k a n p e = absurd (omega (arith, p))
  insert_ne (true ∷ w) (x ∷ xs) (suc i) zero k a n p e = refl
  insert_ne (true ∷ w) (x ∷ xs) (suc i) (suc j) k a n p e =
      insert_ne w xs i j k a (λ q. n (ap suc q)) (omega (arith, p)) e

  remove_self :
      (w : Word) (xs : List A) (i k : ℕ)
      → slot (set w i false) (remove_at (below w i k) xs) i ≡ none
  remove_self [] xs i k = refl
  remove_self (b ∷ w) xs zero k = refl
  remove_self (false ∷ w) xs (suc i) k = remove_self w xs i k
  remove_self (true ∷ w) [] (suc i) k = refl
  remove_self (true ∷ w) (x ∷ xs) (suc i) k = remove_self w xs i k

  remove_ne :
      (w : Word) (xs : List A) (i j k : ℕ)
      → i ≢ j
      → popcount w ≡ length xs
      → get_or w i false ≡ true
      → slot (set w i false) (remove_at (below w i k) xs) j ≡ slot w xs j
  remove_ne [] xs i j k n p e = refl
  remove_ne (false ∷ w) xs zero j k n p e = absurd (ground arith)
  remove_ne (true ∷ w) [] i j k n p e = absurd (omega (arith, p))
  remove_ne (true ∷ w) (x ∷ xs) zero zero k n p e = absurd (n refl)
  remove_ne (true ∷ w) (x ∷ xs) zero (suc j) k n p e = rw (below-zero (true ∷ w) k) refl
  remove_ne (false ∷ w) xs (suc i) zero k n p e = refl
  remove_ne (false ∷ w) xs (suc i) (suc j) k n p e = remove_ne w xs i j k (λ q. n (ap suc q)) p e
  remove_ne (true ∷ w) (x ∷ xs) (suc i) zero k n p e = refl
  remove_ne (true ∷ w) (x ∷ xs) (suc i) (suc j) k n p e =
      remove_ne w xs i j k (λ q. n (ap suc q)) (omega (arith, p)) e

  assign_self :
      (w : Word) (xs : List A) (i k : ℕ) (a : A)
      → popcount w ≡ length xs
      → get_or w i false ≡ true
      → slot w (set xs (below w i k) a) i ≡ some a
  assign_self [] xs i k a p e = absurd (ground arith)
  assign_self (false ∷ w) xs zero k a p e = absurd (ground arith)
  assign_self (true ∷ w) [] i k a p e = absurd (omega (arith, p))
  assign_self (true ∷ w) (x ∷ xs) zero k a p e = rw (below-zero (true ∷ w) k) refl
  assign_self (false ∷ w) xs (suc i) k a p e = assign_self w xs i k a p e
  assign_self (true ∷ w) (x ∷ xs) (suc i) k a p e = assign_self w xs i k a (omega (arith, p)) e

  assign_ne :
      (w : Word) (xs : List A) (i j k : ℕ) (a : A)
      → i ≢ j
      → get_or w i false ≡ true
      → slot w (set xs (below w i k) a) j ≡ slot w xs j
  assign_ne [] xs i j k a n e = refl
  assign_ne (false ∷ w) xs zero j k a n e = absurd (ground arith)
  assign_ne (true ∷ w) [] i j k a n e = refl
  assign_ne (true ∷ w) (x ∷ xs) zero zero k a n e = absurd (n refl)
  assign_ne (true ∷ w) (x ∷ xs) zero (suc j) k a n e = rw (below-zero (true ∷ w) k) refl
  assign_ne (false ∷ w) xs (suc i) zero k a n e = refl
  assign_ne (false ∷ w) xs (suc i) (suc j) k a n e = assign_ne w xs i j k a (λ q. n (ap suc q)) e
  assign_ne (true ∷ w) (x ∷ xs) (suc i) zero k a n e = refl
  assign_ne (true ∷ w) (x ∷ xs) (suc i) (suc j) k a n e =
      assign_ne w xs i j k a (λ q. n (ap suc q)) e

  pub length-insert_at : (n : ℕ) (a : A) (xs : List A) → length (insert_at n a xs) ≡ suc (length xs)
  length-insert_at zero a xs = refl
  length-insert_at (suc n) a [] = refl
  length-insert_at (suc n) a (x ∷ xs) = ap suc (length-insert_at n a xs)

  remove_length :
      (w : Word) (xs : List A) (i k : ℕ)
      → popcount w ≡ length xs
      → get_or w i false ≡ true
      → suc (length (remove_at (below w i k) xs)) ≡ length xs
  remove_length [] xs i k p e = absurd (ground arith)
  remove_length (false ∷ w) xs zero k p e = absurd (ground arith)
  remove_length (true ∷ w) [] i k p e = absurd (omega (arith, p))
  remove_length (true ∷ w) (x ∷ xs) zero k p e = rw (below-zero (true ∷ w) k) refl
  remove_length (false ∷ w) xs (suc i) k p e = remove_length w xs i k p e
  remove_length (true ∷ w) (x ∷ xs) (suc i) k p e =
      ap suc (remove_length w xs i k (omega (arith, p)) e)

module _ {ℓ} {A : Type ℓ} (w : Word) (xs : List A) (p : popcount w ≡ length xs) (i : ℕ) where
  -- Reading, inserting, removing and assigning the entry of bit i.
  pub get_rank : get_or w i false ≡ true → get_elem? xs (rank w i) ≡ slot w xs i
  get_rank h = get_below w xs i (64 - i) h

  pub slot_set : get_or w i false ≡ true → (a : A) × (slot w xs i ≡ some a)
  slot_set h = slot_full w xs i p h

  pub slot-insert_at :
      (a : A) (j : ℕ)
      → i < length w
      → get_or w i false ≡ false
      → slot (set w i true) (insert_at (rank w i) a xs) j ≡ (if i == j then some a else slot w xs j)
  slot-insert_at a j h e = elim (Bool-cases (i == j)) [
    | inl t ↦ rw (t, ← ==→eq i j t) (insert_self w xs i (64 - i) a h p e)
    | inr t ↦ rw (t) (insert_ne w xs i j (64 - i) a (==_ne i j t) p e)
  ]

  pub slot-remove_at :
      (j : ℕ)
      → get_or w i false ≡ true
      → slot (set w i false) (remove_at (rank w i) xs) j ≡ (if i == j then none else slot w xs j)
  slot-remove_at j e = elim (Bool-cases (i == j)) [
    | inl t ↦ rw (t, ← ==→eq i j t) (remove_self w xs i (64 - i))
    | inr t ↦ rw (t) (remove_ne w xs i j (64 - i) (==_ne i j t) p e)
  ]

  pub slot-assign :
      (a : A) (j : ℕ)
      → get_or w i false ≡ true
      → slot w (set xs (rank w i) a) j ≡ (if i == j then some a else slot w xs j)
  slot-assign a j e = elim (Bool-cases (i == j)) [
    | inl t ↦ rw (t, ← ==→eq i j t) (assign_self w xs i (64 - i) a p e)
    | inr t ↦ rw (t) (assign_ne w xs i j (64 - i) a (==_ne i j t) e)
  ]

  pub packed-insert_at :
      (a : A)
      → i < length w
      → get_or w i false ≡ false
      → popcount (set w i true) ≡ length (insert_at (rank w i) a xs)
  packed-insert_at a h e =
      ground (arith, popcount-set w i true h, length-insert_at (rank w i) a xs, p, e)

  pub packed-remove_at :
      i < length w
      → get_or w i false ≡ true
      → popcount (set w i false) ≡ length (remove_at (rank w i) xs)
  packed-remove_at h e =
      ground (arith, popcount-set w i false h, remove_length w xs i (64 - i) p e, p, e)
