-- ===== src/Extras/LinearAllocator/Grow.antt =====
-- `grow` into the free range right behind the grown one.
use native.Mathlib.Nat.{mod-eq_of_lt}
use mathlib.Core.Option
use voxen.Prelude.{
  ℕ, suc, ◌+◌, ◌^◌, ◌<◌, ◌≤◌, ◌≡◌, refl, arith, true, false, ◌||◌, List, [], ◌∷◌, ltb, ◌==◌,
  Bool-cases, inl, inr, Option, none, some,
}
use voxen.Prelude.BitAnd.{double-pow, pow_mono}
use voxen.Extras.LinearAllocator.{
  LinearAllocator, Range, range_lt, upper_bound, grow_into, grow, align_up, add,
}
use voxen.Extras.LinearAllocator.Ranges.{in_range, covers, Within, Within-mono, covers_below}
use voxen.Extras.LinearAllocator.Rounding.{align_up-IsRounded, align_up-le-half}
use voxen.Extras.LinearAllocator.Free.{apart}

-- The grown range ends at `n`, and the free ranges lose exactly the offsets from `e` to `n`.
pub record Grows (lo hi b e n : ℕ) (rs : List Range) (r : Range) (rs' : List Range) : Type 0 where
  pub grown : r ≡ (b, n)
  pub within : Within lo hi rs'
  pub splits : (x : ℕ) → covers rs x ≡ (in_range (e, n) x || covers rs' x)
  pub taken : (x : ℕ) → in_range (e, n) x ≡ true → covers rs' x ≡ false

abbrev pub GrowOutcome : (lo hi b e n : ℕ) → List Range → Option (Range × List Range) → Type 0
GrowOutcome lo hi b e n rs none = (x : ℕ) × (in_range (e, n) x ≡ true) × (covers rs x ≡ false)
GrowOutcome lo hi b e n rs (some (r, rs')) = Grows lo hi b e n rs r rs'

grow-cons :
    (b e c d n : ℕ) (rs : List Range)
    → range_lt (b, e) (c, d) ≡ false
    → grow_into (b, e) n (upper_bound (b, e) ((c, d) ∷ rs))
      ≡ Option.map (λ p. (p.0, (c, d) ∷ p.1)) (grow_into (b, e) n (upper_bound (b, e) rs))
unfolding grow_into upper_bound
grow-cons b e c d n rs t = step (upper_bound (b, e) rs) refl
  where
    step :
        (q : List Range × List Range)
        → upper_bound (b, e) rs ≡ q
        → grow_into (b, e) n (upper_bound (b, e) ((c, d) ∷ rs))
          ≡ Option.map (λ p. (p.0, (c, d) ∷ p.1)) (grow_into (b, e) n (upper_bound (b, e) rs))
    step (before, []) h = rw (t, h)
    step (before, y ∷ rest) h = rw (t, h) (ground arith)

grow_here :
    (lo hi b e c d n : ℕ) (rs : List Range)
    → Within lo hi ((c, d) ∷ rs)
    → e < n
    → e ≤ c
    → GrowOutcome lo hi b e n ((c, d) ∷ rs) (grow_into (b, e) n ([], (c, d) ∷ rs))
unfolding grow_into
grow_here lo hi b e c d n rs u h k = elim (Bool-cases (c == e)) [
  | inr p ↦ rw p (e, ground arith, ground (arith, covers_below (d + 1) hi e rs u.3))
  | inl p ↦ elim (Bool-cases (ltb d n)) [
    | inl q ↦ rw (p, q) (d, ground arith, ground (arith, covers_below (d + 1) hi d rs u.3))
    | inr q ↦ elim (Bool-cases (d == n)) [
      | inl t ↦
          rw (p, q, t)
            (record {
              grown = refl;
              within = Within-mono lo (d + 1) hi rs (omega arith) u.3;
              splits = λ x. ground arith;
              taken = λ x z. ground (arith, covers_below (d + 1) hi x rs u.3);
            })
      | inr t ↦
          rw (p, q, t)
            (record {
              grown = refl;
              within = ground arith;
              splits = λ x. ground (arith);
              taken = λ x z. ground (arith, covers_below (d + 1) hi x rs u.3);
            })
    ]
  ]
]

grow_later :
    (lo hi b e c d n : ℕ) (rs : List Range) (o : Option (Range × List Range))
    → Within lo hi ((c, d) ∷ rs)
    → d ≤ e
    → GrowOutcome (d + 1) hi b e n rs o
    → GrowOutcome lo hi b e n ((c, d) ∷ rs) (Option.map (λ p. (p.0, (c, d) ∷ p.1)) o)
grow_later lo hi b e c d n rs none u h (x, i, f) = (x, i, ground arith)
grow_later lo hi b e c d n rs (some (r, rs')) u h g = record {
  grown = g.grown;
  within = (u.0, u.1, u.2, g.within);
  splits = λ x. ground (arith, g.splits x);
  taken = λ x z. ground (arith, g.taken x z);
}

grow_into-Outcome :
    (lo hi b e n : ℕ) (rs : List Range)
    → b < e
    → e < n
    → Within lo hi rs
    → ((x : ℕ) → in_range (b, e) x ≡ true → covers rs x ≡ false)
    → GrowOutcome lo hi b e n rs (grow_into (b, e) n (upper_bound (b, e) rs))
unfolding upper_bound
grow_into-Outcome lo hi b e n [] h k u f = unfold grow_into in (e, ground arith, refl)
grow_into-Outcome lo hi b e n ((c, d) ∷ rs) h k u f = elim (apart b e c d rs h u.1 f) [
  | inl p ↦
      let test : range_lt (b, e) (c, d) ≡ true = ground arith in
      rw test (grow_here lo hi b e c d n rs u k p)
  | inr p ↦
      let test : range_lt (b, e) (c, d) ≡ false = ground arith in
      rw (grow-cons b e c d n rs test) (
        grow_later lo hi b e c d n rs (grow_into (b, e) n (upper_bound (b, e) rs)) u (omega arith)
          (grow_into-Outcome (d + 1) hi b e n rs h k u.3 (λ x t. ground (arith, f x t))))
]

abbrev pub GrowResult : (b e n : ℕ) → LinearAllocator → Option (Range × LinearAllocator) → Type 0
GrowResult b e n s none = (x : ℕ) × (in_range (e, n) x ≡ true) × (covers s.free_ranges x ≡ false)
GrowResult b e n s (some (r, s')) =
    Grows 0 s.full_size b e n s.free_ranges r s'.free_ranges × (s'.full_size ≡ s.full_size)

-- On words of `suc v` bits, with the space below half of them, a power of two as granularity and
-- well-formed free ranges, for a non-empty range of the space none of which is free, and an
-- addendum of at most half the words: `grow` moves the end up by the rounded addendum, and the
-- free ranges stay well-formed and lose exactly those offsets; it fails only if one of them is not
-- free. Nothing happens for addendum 0.
pub grow_lem :
    (v g b e addendum : ℕ) (s : LinearAllocator)
    → g ≤ v
    → s.full_size < 2 ^ v
    → b < e
    → e ≤ s.full_size
    → addendum ≤ 2 ^ v
    → Within 0 s.full_size s.free_ranges
    → ((x : ℕ) → in_range (b, e) x ≡ true → covers s.free_ranges x ≡ false)
    → (grow (suc v) (2 ^ g) (b, e) 0 s ≡ some ((b, e), s))
      × (0 < addendum
          → GrowResult b e
              (e + align_up (suc v) addendum (2 ^ g))
              s
              (grow (suc v) (2 ^ g) (b, e) addendum s))
unfolding grow
grow_lem v g b e addendum s hg small h k half u f = (
  refl,
  λ pos.
      let up =
        align_up-IsRounded (suc v) g addendum (omega arith)
          (omega (arith, double-pow v, pow_mono g v hg)) in
      let le = align_up-le-half v g addendum hg half in
      let test : (addendum == 0) ≡ false = ground arith in
      let desired : add (suc v) e (align_up (suc v) addendum (2 ^ g)) ≡ e + n =
        mod-eq_of_lt (omega (arith, double-pow v)) in
      rw (test, desired)
        (lift (
          grow_into-Outcome 0 s.full_size b e (e + n) s.free_ranges h (omega (arith, up.not_less)) u
            f)),
)
  where
    n : ℕ
    n = align_up (suc v) addendum (2 ^ g)

    lift :
        GrowOutcome 0 s.full_size b e
          (e + n)
          s.free_ranges
          (grow_into (b, e) (e + n) (upper_bound (b, e) s.free_ranges))
        → GrowResult b e (e + n) s (
            Option.map
              (λ p. (p.0, record s { free_ranges = p.1 }))
              (grow_into (b, e) (e + n) (upper_bound (b, e) s.free_ranges)))
    lift =
        elim (grow_into (b, e) (e + n) (upper_bound (b, e) s.free_ranges))
          as (λ q.
            GrowOutcome 0 s.full_size b e (e + n) s.free_ranges q
            → GrowResult b e (e + n) s
                (Option.map (λ p. (p.0, record s { free_ranges = p.1 })) q)) [
                  | none ↦ λ o. o
                  | some t ↦ λ o. (o, refl)
                ]
