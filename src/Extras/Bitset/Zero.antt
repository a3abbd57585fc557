-- ===== src/Extras/Bitset/Zero.antt =====
-- The search for the first zero bit.
use native.Mathlib.Decide.{dec_lt}
use voxen.Prelude.{
  ℕ, zero, suc, ◌+◌, ◌-◌, ◌*◌, ◌/◌, ◌%◌, ◌<◌, ◌≤◌, ◌≡◌, ◌≢◌, refl, arith, ◌∙◌, Bool, true, false,
  ltb, if◌then◌else◌, get_or, set, length, Bool-cases, inl, inr, ==→eq, ==_ne, Option, none, some,
  ltb→lt, ltb→le,
}
use voxen.Prelude.Words.{countr_one, word_or, shl_one, get_or-countr_one, get_or-below_countr_one}
use voxen.Extras.Bitset.{
  Bitset, word, test, set_at, total_popcount, num_ints, all_bits_used, last_used_bits,
  find_in_words, find_zero, find_zero_when, first_zero, occupy_zero,
}
use voxen.Extras.Bitset.Bits.{bit, IsValid, test-bit, put-IsValid, popcount-put, set_at-put}

-- Every position below `k` has a one.
abbrev AllOnes : Bitset → ℕ → Type 0
AllOnes words k = (p : ℕ) → p < k → bit words p ≡ true

abbrev Found : Bitset → ℕ → Option (ℕ × ℕ) → Type 0
Found words k none = AllOnes words k
Found words k (some (i, cnt)) =
    (cnt < 64)
    × (i * 64 + cnt < k)
    × (get_or (word words i) cnt false ≡ false)
    × AllOnes words (i * 64 + cnt)

word-AllOnes :
    (words : Bitset) (i cnt : ℕ)
    → AllOnes words (i * 64)
    → cnt ≤ countr_one (word words i)
    → cnt ≤ 64
    → AllOnes words (i * 64 + cnt)
word-AllOnes words i cnt a h w p lt = elim (dec_lt p (i * 64)) [
  | yes q ↦ a p q
  | no q ↦
      let e : p / 64 ≡ i = omega arith in
      rw e (get_or-below_countr_one (word words i) (p % 64) (omega arith))
]

find_in_words-Found :
    (words : Bitset) (rounds i k : ℕ)
    → k ≡ (i + rounds) * 64
    → AllOnes words (i * 64)
    → ((j : ℕ) → j < i + rounds → length (word words j) ≡ 64)
    → Found words k (find_in_words rounds i words)
unfolding find_in_words
find_in_words-Found words zero i k e a w = λ p h. a p (omega arith)
find_in_words-Found words (suc rounds) i k e a w =
    elim (Bool-cases (ltb (countr_one (word words i)) 64)) [
      | inl t ↦
          let lt = ltb→lt (countr_one (word words i)) 64 t in
          rw t (
            lt,
            omega arith,
            get_or-countr_one (word words i),
            word-AllOnes words i (countr_one (word words i)) a (omega arith) (omega arith),
          )
      | inr t ↦
          let full = ltb→le (countr_one (word words i)) 64 t in
          let next : AllOnes words ((i + 1) * 64) =
            λ p h. word-AllOnes words i 64 a full (omega arith) p (omega arith) in
          rw t (
            find_in_words-Found words rounds (i + 1) k (omega arith) next
              (λ j h. w j (omega arith)))
    ]

find_zero-Found :
    (n : ℕ) (words : Bitset) → 0 < n → IsValid n words → Found words n (find_zero n words)
unfolding find_zero
find_zero-Found n words pos v = step (all_bits_used n) refl
  where
    tail :
        AllOnes words ((num_ints n - 1) * 64)
        → n % 64 ≢ 0
        → Found words n (
            if ltb (countr_one (word words (num_ints n - 1))) (last_used_bits n)
            then some (num_ints n - 1, countr_one (word words (num_ints n - 1)))
            else none)
    tail a ne =
        elim (Bool-cases (ltb (countr_one (word words (num_ints n - 1))) (last_used_bits n))) [
          | inl t ↦
              let lt = ltb→lt (countr_one (word words (num_ints n - 1))) (last_used_bits n) t in
              rw t (
                omega arith,
                omega arith,
                get_or-countr_one (word words (num_ints n - 1)),
                word-AllOnes words (num_ints n - 1) (countr_one (word words (num_ints n - 1))) a
                    (omega arith) (omega arith),
              )
          | inr t ↦
              let le = ltb→le (countr_one (word words (num_ints n - 1))) (last_used_bits n) t in
              rw t (λ p h.
                word-AllOnes words (num_ints n - 1) (n % 64) a le (omega arith) p (omega arith))
        ]

    partial :
        (o : Option (ℕ × ℕ))
        → Found words ((num_ints n - 1) * 64) o
        → n % 64 ≢ 0
        → Found words n (elim o [
          | some p ↦ some p
          | none ↦
              if ltb (countr_one (word words (num_ints n - 1))) (last_used_bits n)
              then some (num_ints n - 1, countr_one (word words (num_ints n - 1)))
              else none
        ])
    partial none f ne = tail f ne
    partial (some (i, cnt)) f ne = (f.0, omega (arith, f.1), f.2, f.3)

    step : (b : Bool) → all_bits_used n ≡ b → Found words n (find_zero_when n b words)
    step true t =
        find_in_words-Found words (num_ints n) 0 n (omega (arith, ==→eq (n % 64) 0 t))
          (λ p h. absurd (omega arith)) (λ j h. v.wide j (omega arith))
    step false t =
        partial (find_in_words (num_ints n - 1) 0 words)
          (find_in_words-Found words (num_ints n - 1) 0 ((num_ints n - 1) * 64) (omega arith)
            (λ p h. absurd (omega arith)) (λ j h. v.wide j (omega arith)))
          (==_ne (n % 64) 0 t)

-- What `occupy_zero` does, given the bits before.
abbrev pub Occupies : (n : ℕ) → Bitset → Option ℕ → Bitset → Type 0
Occupies n words none words' = (words' ≡ words) × ((p : ℕ) → p < n → test words p ≡ true)
Occupies n words (some pos) words' =
    (pos < n)
    × (test words pos ≡ false)
    × ((p : ℕ) → p < pos → test words p ≡ true)
    × (words' ≡ set_at words pos)
    × IsValid n words'
    × (total_popcount words' ≡ total_popcount words + 1)

-- On a valid bitset of N > 0 bits `occupy_zero` returns what `first_zero` returns. If that is a
-- position, it is below N, its bit was zero, all bits before it were ones, and it is set like by
-- `set`, so that `popcount` grows by one and the bitset stays valid. Otherwise all N bits were ones
-- and the bitset is unchanged.
pub occupy_zero-Occupies :
    (n : ℕ) (words : Bitset)
    → 0 < n
    → IsValid n words
    → let (pos, words') = occupy_zero n words in
      (pos ≡ first_zero n words) × Occupies n words pos words'
unfolding occupy_zero first_zero
occupy_zero-Occupies n words pos v = step (find_zero n words) (find_zero-Found n words pos v)
  where
    step :
        (o : Option (ℕ × ℕ))
        → Found words n o
        → let r : Option ℕ × Bitset = elim o [
          | none ↦ (none, words)
          | some (i, cnt) ↦
              (some (i * 64 + cnt), set words i (word_or (word words i) (shl_one 64 cnt)))
        ] in
          (r.0 ≡ elim o [ none ↦ none | some (i, cnt) ↦ some (i * 64 + cnt) ])
          × Occupies n words r.0 r.1
    step none f = (refl, (refl, λ p h. test-bit n words v p h ∙ f p h))
    step (some (i, cnt)) f =
        let p : ℕ = i * 64 + cnt in
        let word_of : p / 64 ≡ i = omega (arith, f.0) in
        let bit_of : p % 64 ≡ cnt = omega (arith, f.0) in
        let unset : bit words p ≡ false = rw (word_of, bit_of) f.2 in
        let same : set words i (word_or (word words i) (shl_one 64 cnt)) ≡ set_at words p =
          unfold set_at in rw (word_of, bit_of) in
        (
          refl,
          rw (same, set_at-put n words v p f.1)
              (
                f.1,
                test-bit n words v p f.1 ∙ unset,
                (λ q h. test-bit n words v q (omega (arith, f.1)) ∙ f.3 q h),
                refl,
                put-IsValid n words v p f.1 true,
                ground (arith, popcount-put n words p true v f.1, unset),
              ),
        )
