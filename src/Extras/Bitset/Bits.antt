-- ===== src/Extras/Bitset/Bits.antt =====
-- The bitset as N Boolean values.
use voxen.Prelude.{
  ℕ, zero, suc, ◌+◌, ◌/◌, ◌%◌, ◌<◌, ◌≤◌, ◌≡◌, refl, arith, ◌∙◌, ap, sym, Bool, true, false, [], ◌∷◌,
  ◌==◌, if◌then◌else◌, get_or, set, length, length-set, get_or-set_self, get_or-set_ne, Bool-cases,
  inl, inr, length-replicate, replicate, ==→eq, ==_ne,
}
use voxen.Prelude.Words.{Word, test_bit, set_bit, clear_bit, popcount, popcount-set}
use voxen.Extras.Bitset.{
  Bitset, word, test, set_at, clear_at, total_popcount, num_ints, clear_all, clear_all,
}

-- The bit at a position.
abbrev pub bit : Bitset → ℕ → Bool
bit words p = get_or (word words (p / 64)) (p % 64) false

-- As many words as N needs, each of 64 bits, and the padding is zero.
pub record IsValid (n : ℕ) (words : Bitset) : Type 0 where
  pub sized : length words ≡ num_ints n
  pub wide : (i : ℕ) → i < num_ints n → length (word words i) ≡ 64
  pub padding : (p : ℕ) → n ≤ p → bit words p ≡ false

abbrev pub put : Bitset → ℕ → Bool → Bitset
put words p b = set words (p / 64) (set (word words (p / 64)) (p % 64) b)

module _ (n : ℕ) (words : Bitset) (v : IsValid n words) (p : ℕ) (h : p < n) where
  word_in : p / 64 < num_ints n
  word_in = omega arith

  wide_at : length (word words (p / 64)) ≡ 64
  wide_at = v.wide (p / 64) word_in

  pub test-bit : test words p ≡ bit words p
  unfolding test
  test-bit = test_bit 64 (word words (p / 64)) (p % 64) wide_at (omega arith)

  pub set_at-put : set_at words p ≡ put words p true
  unfolding set_at
  set_at-put =
      ap (set words (p / 64)) (set_bit 64 (word words (p / 64)) (p % 64) wide_at (omega arith))

  pub clear_at-put : clear_at words p ≡ put words p false
  unfolding clear_at
  clear_at-put =
      ap (set words (p / 64)) (clear_bit 64 (word words (p / 64)) (p % 64) wide_at (omega arith))

  word-put : (b : Bool) → word (put words p b) (p / 64) ≡ set (word words (p / 64)) (p % 64) b
  word-put b =
      get_or-set_self words (p / 64) (set (word words (p / 64)) (p % 64) b) []
        (omega (arith, v.sized, word_in))

  pub bit-put : (b : Bool) (q : ℕ) → bit (put words p b) q ≡ (if p == q then b else bit words q)
  bit-put b q = elim (Bool-cases (p / 64 == q / 64)) [
    | inr e ↦
        let other : word (put words p b) (q / 64) ≡ word words (q / 64) =
          get_or-set_ne words (p / 64) (q / 64) (set (word words (p / 64)) (p % 64) b) []
            (==_ne (p / 64) (q / 64) e) in
        let apart : (p == q) ≡ false = ground arith in
        rw apart (ap (λ w. get_or w (q % 64) false) other)
    | inl e ↦ elim (Bool-cases (p % 64 == q % 64)) [
      | inl f ↦
          let same : (p == q) ≡ true = ground arith in
          rw (same, ← ==→eq (p / 64) (q / 64) e, ← ==→eq (p % 64) (q % 64) f)
            (ap (λ w. get_or w (p % 64) false) (word-put b)
              ∙ get_or-set_self (word words (p / 64)) (p % 64) b false (omega (arith, wide_at)))
      | inr f ↦
          let apart : (p == q) ≡ false = ground arith in
          rw (apart, ← ==→eq (p / 64) (q / 64) e)
            (ap (λ w. get_or w (q % 64) false) (word-put b)
              ∙ get_or-set_ne (word words (p / 64)) (p % 64) (q % 64) b false
                  (==_ne (p % 64) (q % 64) f))
    ]
  ]

  pub put-IsValid : (b : Bool) → IsValid n (put words p b)
  put-IsValid b = record {
    sized = length-set words (p / 64) (set (word words (p / 64)) (p % 64) b) ∙ v.sized;
    wide = λ i k. elim (Bool-cases (p / 64 == i)) [
      | inl e ↦
          rw (← ==→eq (p / 64) i e, word-put b)
            (length-set (word words (p / 64)) (p % 64) b ∙ wide_at)
      | inr e ↦
          rw
            (get_or-set_ne words (p / 64) i (set (word words (p / 64)) (p % 64) b) []
              (==_ne (p / 64) i e))
            (v.wide i k)
    ];
    padding = λ q k. bit-put b q ∙ ground (arith, v.padding q k);
  }

total-set :
    (words : Bitset) (i : ℕ) (w : Word)
    → i < length words
    → total_popcount (set words i w) + popcount (word words i) ≡ total_popcount words + popcount w
unfolding total_popcount
total-set [] i w h = absurd (omega arith)
total-set (x ∷ words) zero w h = omega arith
total-set (x ∷ words) (suc i) w h = omega (arith, total-set words i w (omega arith))

-- Writing one bit changes the number of ones by that bit.
pub popcount-put :
    (n : ℕ) (words : Bitset) (p : ℕ) (b : Bool)
    → IsValid n words
    → p < n
    → total_popcount (put words p b) + (if bit words p then 1 else 0)
      ≡ total_popcount words + (if b then 1 else 0)
popcount-put n words p b v h = omega (
  arith,
  total-set words (p / 64) (set (word words (p / 64)) (p % 64) b) (omega (arith, v.sized)),
  popcount-set (word words (p / 64)) (p % 64) b (omega (arith, v.wide (p / 64) (omega arith))),
)

-- On a valid bitset and at a position below N: `test` reads what `set` and `clear` wrote, other
-- positions keep their bit, the bitset stays valid, and `popcount` follows.
pub set_clear_test :
    (n : ℕ) (words : Bitset) (p q : ℕ)
    → IsValid n words
    → p < n
    → q < n
    → (test (set_at words p) q ≡ (if p == q then true else test words q))
      × (test (clear_at words p) q ≡ (if p == q then false else test words q))
      × IsValid n (set_at words p)
      × IsValid n (clear_at words p)
      × (total_popcount (set_at words p) + (if test words p then 1 else 0)
          ≡ total_popcount words + 1)
      × (total_popcount (clear_at words p) + (if test words p then 1 else 0) ≡ total_popcount words)
set_clear_test n words p q v hp hq =
    let set_valid = put-IsValid n words v p hp true in
    let clear_valid = put-IsValid n words v p hp false in
    rw (set_at-put n words v p hp, clear_at-put n words v p hp)
      (
        test-bit n (put words p true) set_valid q hq
            ∙ bit-put n words v p hp true q
            ∙ ap (λ b. if p == q then true else b) (sym (test-bit n words v q hq)),
        test-bit n (put words p false) clear_valid q hq
            ∙ bit-put n words v p hp false q
            ∙ ap (λ b. if p == q then false else b) (sym (test-bit n words v q hq)),
        set_valid,
        clear_valid,
        rw (test-bit n words v p hp) (popcount-put n words p true v hp),
        rw (test-bit n words v p hp) (popcount-put n words p false v hp ∙ omega arith),
      )

word-replicate : (k i w : ℕ) → i < k → word (replicate k (replicate w false)) i ≡ replicate w false
word-replicate zero i w h = elim h [ ]
word-replicate (suc k) zero w h = refl
word-replicate (suc k) (suc i) w h = word-replicate k i w (omega arith)

bit-zeros : (w p : ℕ) → get_or (replicate w false) p false ≡ false
bit-zeros zero p = refl
bit-zeros (suc w) zero = refl
bit-zeros (suc w) (suc p) = bit-zeros w p

bit-clear : (k i p : ℕ) → get_or (word (replicate k (replicate 64 false)) i) p false ≡ false
bit-clear zero i p = refl
bit-clear (suc k) zero p = bit-zeros 64 p
bit-clear (suc k) (suc i) p = bit-clear k i p

-- The cleared bitset is valid and reads zero everywhere.
pub clear_all-IsValid :
    (n : ℕ) → IsValid n (clear_all n) × ((p : ℕ) → p < n → test (clear_all n) p ≡ false)
unfolding clear_all
clear_all-IsValid n =
    (valid, λ p h. test-bit n (clear_all n) valid p h ∙ bit-clear (num_ints n) (p / 64) (p % 64))
  where
    valid : IsValid n (clear_all n)
    valid = record {
      sized = length-replicate (num_ints n) (replicate 64 false);
      wide = λ i h. rw (word-replicate (num_ints n) i 64 h);
      padding = λ p h. bit-clear (num_ints n) (p / 64) (p % 64);
    }
