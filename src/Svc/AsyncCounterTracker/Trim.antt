-- ===== src/Svc/AsyncCounterTracker/Trim.antt =====
-- `trimCompleteCounters` and its loop of swaps.
use voxen.Prelude.{
  ℕ, zero, suc, ◌+◌, ◌-◌, ◌<◌, ◌≤◌, ◌≡◌, refl, arith, ◌∙◌, Bool, true, false, List, [], ◌∷◌, ltb,
  ◌==◌, if◌then◌else◌, Bool-cases, inl, inr, get_or, set, length, length-set, get_or-set_self,
  get_or-set_ne, ltb→lt, ltb→le, ==→eq, ==_ne, ap,
}
use voxen.Svc.AsyncCounterTracker.{
  AsyncCounterTracker, is_counter_complete, trim_loop, trim_complete_counters,
}

-- How often a value stands in a list.
abbrev pub count : ℕ → List ℕ → ℕ
count x [] = 0
count x (y ∷ ys) = if x == y then suc (count x ys) else count x ys

abbrev one_if : Bool → ℕ
one_if b = if b then 1 else 0

count-set :
    (x : ℕ) (xs : List ℕ) (i v : ℕ)
    → i < length xs
    → count x (set xs i v) + one_if (x == get_or xs i 0) ≡ count x xs + one_if (x == v)
count-set x [] i v h = absurd (omega arith)
count-set x (y ∷ ys) zero v h = ground arith
count-set x (y ∷ ys) (suc i) v h = ground (arith, count-set x ys i v (omega arith))

-- `std::swap(counters[i], counters[j])`.
abbrev swap : List ℕ → ℕ → ℕ → List ℕ
swap xs i j = set (set xs i (get_or xs j 0)) j (get_or xs i 0)

length-swap : (xs : List ℕ) (i j : ℕ) → length (swap xs i j) ≡ length xs
length-swap xs i j =
    length-set (set xs i (get_or xs j 0)) j (get_or xs i 0) ∙ length-set xs i (get_or xs j 0)

count-swap :
    (x : ℕ) (xs : List ℕ) (i j : ℕ)
    → i < length xs
    → j < length xs
    → count x (swap xs i j) ≡ count x xs
count-swap x xs i j h k = elim (Bool-cases (i == j)) [
  | inl e ↦
      let same : i ≡ j = ==→eq i j e in
      omega (
        arith,
        count-set x xs i (get_or xs j 0) h,
        count-set x (set xs i (get_or xs j 0)) j (get_or xs i 0)
            (omega (arith, length-set xs i (get_or xs j 0))),
        ap (λ m. one_if (x == get_or xs m 0)) same,
        ap (λ m. one_if (x == m)) (get_or-set_self xs i (get_or xs j 0) 0 h),
        ap (λ m. one_if (x == get_or (set xs i (get_or xs j 0)) m 0)) same,
      )
  | inr e ↦ omega (
    arith,
    count-set x xs i (get_or xs j 0) h,
    count-set x (set xs i (get_or xs j 0)) j (get_or xs i 0)
        (omega (arith, length-set xs i (get_or xs j 0))),
    ap (λ m. one_if (x == m)) (get_or-set_ne xs i j (get_or xs j 0) 0 (==_ne i j e)),
  )
]

-- What the loop leaves of a list: the first `out.0` counters are incomplete, the others complete,
-- and each value stands in it as often as before.
pub record Trims (t : AsyncCounterTracker) (cs : List ℕ) (out : ℕ × List ℕ) : Type 0 where
  pub short : out.0 ≤ length cs
  pub kept : (j : ℕ) → j < out.0 → is_counter_complete t (get_or out.1 j 0) ≡ false
  pub dropped :
      (j : ℕ) → out.0 ≤ j → j < length cs → is_counter_complete t (get_or out.1 j 0) ≡ true
  pub same : (x : ℕ) → count x out.1 ≡ count x cs

record Loop (t : AsyncCounterTracker) (i r : ℕ) (cs : List ℕ) : Type 0 where
  in_order : i ≤ r
  within : r ≤ length cs
  front : (j : ℕ) → j < i → is_counter_complete t (get_or cs j 0) ≡ false
  back : (j : ℕ) → r ≤ j → j < length cs → is_counter_complete t (get_or cs j 0) ≡ true

stop :
    (t : AsyncCounterTracker) (i r : ℕ) (cs : List ℕ) → Loop t i r cs → r ≤ i → Trims t cs (r, cs)
stop t i r cs l h = record {
  short = l.within;
  kept = λ j k. l.front j (omega (arith, l.in_order));
  dropped = l.back;
  same = λ x. refl;
}

drop-Loop :
    (t : AsyncCounterTracker) (i r : ℕ) (cs : List ℕ)
    → Loop t i r cs
    → i < r
    → is_counter_complete t (get_or cs i 0) ≡ true
    → Loop t i (r - 1) (swap cs i (r - 1))
drop-Loop t i r cs l h c = record {
  in_order = omega arith;
  within = omega (arith, length-swap cs i (r - 1), l.within);
  front = λ j k.
      rw
        (
          get_or-set_ne (set cs i (get_or cs (r - 1) 0)) (r - 1) j (get_or cs i 0) 0 (omega arith),
          get_or-set_ne cs i j (get_or cs (r - 1) 0) 0 (omega arith),
        )
        (l.front j k);
  back = λ j k m. elim (Bool-cases (j == r - 1)) [
    | inl e ↦
        rw
          (
            ==→eq j (r - 1) e,
            get_or-set_self (set cs i (get_or cs (r - 1) 0)) (r - 1) (get_or cs i 0) 0
                (omega (arith, length-set cs i (get_or cs (r - 1) 0), l.within)),
          )
          c
    | inr e ↦
        rw
          (
            get_or-set_ne (set cs i (get_or cs (r - 1) 0)) (r - 1) j (get_or cs i 0) 0
                (omega (arith, ==_ne j (r - 1) e)),
            get_or-set_ne cs i j (get_or cs (r - 1) 0) 0 (omega (arith, ==_ne j (r - 1) e)),
          )
          (l.back j (omega (arith, ==_ne j (r - 1) e)) (omega (arith, length-swap cs i (r - 1))))
  ];
}

keep-Loop :
    (t : AsyncCounterTracker) (i r : ℕ) (cs : List ℕ)
    → Loop t i r cs
    → i < r
    → is_counter_complete t (get_or cs i 0) ≡ false
    → Loop t (i + 1) r cs
keep-Loop t i r cs l h c = record {
  in_order = omega arith;
  within = l.within;
  front = λ j k. elim (Bool-cases (j == i)) [
    | inl e ↦ rw (==→eq j i e) c
    | inr e ↦ l.front j (omega (arith, ==_ne j i e))
  ];
  back = l.back;
}

trim_loop-Trims :
    (t : AsyncCounterTracker) (fuel i r : ℕ) (cs : List ℕ)
    → r ≤ i + fuel
    → Loop t i r cs
    → Trims t cs (trim_loop t fuel i r cs)
unfolding trim_loop
trim_loop-Trims t zero i r cs h l = stop t i r cs l (omega arith)
trim_loop-Trims t (suc fuel) i r cs h l = elim (Bool-cases (ltb i r)) [
  | inr p ↦ rw p (stop t i r cs l (ltb→le i r p))
  | inl p ↦
      let lt = ltb→lt i r p in
      elim (Bool-cases (is_counter_complete t (get_or cs i 0))) [
        | inr c ↦
            rw (p, c)
              (trim_loop-Trims t fuel (i + 1) r cs (omega arith) (keep-Loop t i r cs l lt c))
        | inl c ↦
            let ih =
              trim_loop-Trims t fuel i (r - 1) (swap cs i (r - 1)) (omega arith)
                (drop-Loop t i r cs l lt c) in
            rw (p, c)
              (record {
                short = omega (arith, ih.short, length-swap cs i (r - 1));
                kept = ih.kept;
                dropped = λ j k m. ih.dropped j k (omega (arith, length-swap cs i (r - 1)));
                same = λ x.
                    ih.same x
                    ∙ count-swap x cs i (r - 1) (omega (arith, l.within)) (omega (arith, l.within));
              })
      ]
]

-- `trimCompleteCounters` returns how many counters are incomplete and puts exactly those first; no
-- counter is lost or made up.
pub trim_complete_counters-Trims :
    (t : AsyncCounterTracker) (cs : List ℕ) → Trims t cs (trim_complete_counters t cs)
unfolding trim_complete_counters
trim_complete_counters-Trims t cs =
    trim_loop-Trims t (length cs) 0 (length cs) cs (omega arith) (record {
      in_order = omega arith;
      within = omega arith;
      front = λ j k. elim k [ ];
      back = λ j k m. absurd (omega arith);
    })
