-- ===== src/Extras/LinearAllocator/Free.antt =====
-- `free` and its merges with both neighbours.
use native.Mathlib.Decide.{dec_lt}
use voxen.Prelude.{
  ℕ, suc, ◌+◌, ◌<◌, ◌≤◌, ◌≡◌, refl, sym, subst, arith, ◌∙◌, true, false, ◌||◌, List, [], ◌∷◌, ◌++◌,
  ◌==◌, if◌then◌else◌, Bool-cases, inl, inr, ◌⊎◌, ◌↔◌, ◌^◌, max, some,
}
use voxen.Extras.LinearAllocator.{
  LinearAllocator, Range, range_lt, upper_bound, merge_next, merge_prev, free_ranges_after, free,
  allocate, align_up, is_free,
}
use voxen.Extras.LinearAllocator.Rounding.{align_up-IsRounded}
use voxen.Extras.LinearAllocator.Allocate.{AllocateOutcome, allocate-Outcome}
use voxen.Extras.LinearAllocator.Ranges.{
  in_range, covers, Within, Within-mono, Within-canonical, covers_beyond,
}

-- A range put before a list, merged with its first range if they touch.
abbrev glue : Range → List Range → List Range
glue r [] = r ∷ []
glue (c, d) ((b, e) ∷ rest) = if d == b then (c, e) ∷ rest else (c, d) ∷ (b, e) ∷ rest

glue-Within :
    (lo hi c d : ℕ) (rs : List Range)
    → lo ≤ c
    → c < d
    → d ≤ hi
    → Within d hi rs
    → Within lo hi (glue (c, d) rs)
glue-Within lo hi c d [] h₁ h₂ h₃ u = (h₁, h₂, h₃, tt)
glue-Within lo hi c d ((b, e) ∷ rs) h₁ h₂ h₃ u = elim (Bool-cases (d == b)) [
  | inl p ↦ rw p (ground arith)
  | inr p ↦ rw p (ground arith)
]

covers-glue :
    (c d x : ℕ) (hi : ℕ) (rs : List Range)
    → c < d
    → Within d hi rs
    → covers (glue (c, d) rs) x ≡ (in_range (c, d) x || covers rs x)
covers-glue c d x hi [] h u = refl
covers-glue c d x hi ((b, e) ∷ rs) h u = ground arith

merge_next-glue : (r : Range) (rs : List Range) → merge_next r rs ≡ glue r rs
unfolding merge_next
merge_next-glue r [] = refl
merge_next-glue (b, e) ((c, d) ∷ rs) = ground arith

upper_bound-append :
    (r : Range) (rs : List Range) → (upper_bound r rs).0 ++ (upper_bound r rs).1 ≡ rs
unfolding upper_bound
upper_bound-append r [] = refl
upper_bound-append r (x ∷ rs) = ground (arith, upper_bound-append r rs)

merge_prev-glue :
    (hi c d b e : ℕ) (before rest : List Range)
    → Within (d + 1) hi (before ++ rest)
    → merge_prev ((c, d) ∷ before) (merge_next (b, e) rest)
      ≡ glue (c, d) (merge_prev before (merge_next (b, e) rest))
unfolding merge_prev merge_next
merge_prev-glue hi c d b e [] [] u = refl
merge_prev-glue hi c d b e [] (y ∷ rest) u = ground arith
merge_prev-glue hi c d b e (y ∷ []) [] u = ground arith
merge_prev-glue hi c d b e (y ∷ []) (z ∷ rest) u = ground arith
merge_prev-glue hi c d b e (y ∷ z ∷ before) [] u = ground arith
merge_prev-glue hi c d b e (y ∷ z ∷ before) (x ∷ rest) u = ground arith

-- `free` as a walk along the ranges.
free-cons :
    (hi c d b e : ℕ) (rs : List Range)
    → Within (d + 1) hi rs
    → free_ranges_after (b, e) ((c, d) ∷ rs) ≡ (
        if range_lt (b, e) (c, d)
        then glue (b, e) ((c, d) ∷ rs)
        else glue (c, d) (free_ranges_after (b, e) rs))
unfolding free_ranges_after
free-cons hi c d b e rs u = ground (
  arith,
  merge_prev-glue hi c d b e (upper_bound (b, e) rs).0 (upper_bound (b, e) rs).1
      (rw (upper_bound-append (b, e) rs) u),
)

-- No offset of the range is free, in terms of one free range.
pub apart :
    (b e c d : ℕ) (rs : List Range)
    → b < e
    → c < d
    → ((x : ℕ) → in_range (b, e) x ≡ true → covers ((c, d) ∷ rs) x ≡ false)
    → (e ≤ c) ⊎ (d ≤ b)
apart b e c d rs h k f = elim (dec_lt c e) [
  | yes p ↦ elim (dec_lt b d) [
    | yes q ↦ absurd (ground (arith, f b, f c))
    | no q ↦ inr (omega arith)
  ]
  | no p ↦ inl (omega arith)
]

-- The list after `free`, from the smaller of the two starts on.
free-Within :
    (lo hi b e : ℕ) (rs : List Range)
    → b < e
    → e ≤ hi
    → lo ≤ b
    → Within lo hi rs
    → ((x : ℕ) → in_range (b, e) x ≡ true → covers rs x ≡ false)
    → Within lo hi (free_ranges_after (b, e) rs)
      × ((x : ℕ) → covers (free_ranges_after (b, e) rs) x ≡ (in_range (b, e) x || covers rs x))
unfolding free_ranges_after
free-Within lo hi b e [] h k l u f = ((l, h, k, tt), λ x. refl)
free-Within lo hi b e ((c, d) ∷ rs) h k l u f = elim (apart b e c d rs h u.1 f) [
  | inl p ↦
      let test : range_lt (b, e) (c, d) ≡ true = ground arith in
      rw (free-cons hi c d b e rs u.3, test)
        (
          glue-Within lo hi b e ((c, d) ∷ rs) l h k (p, u.1, u.2, u.3),
          λ x. covers-glue b e x hi ((c, d) ∷ rs) h (p, u.1, u.2, u.3),
        )
  | inr p ↦
      let test : range_lt (b, e) (c, d) ≡ false = ground arith in
      let ih =
        free-Within d hi b e rs h k p (Within-mono d (d + 1) hi rs (omega arith) u.3)
          (λ x t. ground (arith, f x t)) in
      rw (free-cons hi c d b e rs u.3, test)
        (
          glue-Within lo hi c d (free_ranges_after (b, e) rs) u.0 u.1 u.2 ih.0,
          λ x. ground (arith, covers-glue c d x hi (free_ranges_after (b, e) rs) u.1 ih.0, ih.1 x),
        )
]

-- Whether the whole space is free is told by the list, if that is well-formed.
pub is_free_iff :
    (s : LinearAllocator)
    → 0 < s.full_size
    → Within 0 s.full_size s.free_ranges
    → (is_free s ≡ true) ↔ ((x : ℕ) → x < s.full_size → covers s.free_ranges x ≡ true)
unfolding is_free
is_free_iff s pos u = (onto s.free_ranges, λ all. rw (whole all) (ground arith))
  where
    onto :
        (rs : List Range)
        → is_free (record s { free_ranges = rs }) ≡ true
        → (x : ℕ) → x < s.full_size
        → covers rs x ≡ true
    onto [] h x lt = cc
    onto ((b, e) ∷ []) h x lt = ground arith
    onto (r ∷ q ∷ rs) h x lt = cc

    whole :
        ((x : ℕ) → x < s.full_size → covers s.free_ranges x ≡ true)
        → s.free_ranges ≡ (0, s.full_size) ∷ []
    whole all =
        Within-canonical 0 0 s.full_size s.free_ranges ((0, s.full_size) ∷ []) u
          (omega arith, pos, omega arith, tt)
          λ x. elim (dec_lt x s.full_size) [
            | yes h ↦ ground (arith, all x h)
            | no h ↦ ground (arith, covers_beyond 0 s.full_size x s.free_ranges u (omega arith))
          ]

-- With well-formed free ranges: freeing a non-empty range of the space, none of it free, keeps the
-- free ranges well-formed, adds exactly the offsets of that range to them, and calls the callback
-- exactly if all offsets are free then.
pub free_lem :
    (b e : ℕ) (s : LinearAllocator)
    → b < e
    → e ≤ s.full_size
    → Within 0 s.full_size s.free_ranges
    → ((x : ℕ) → in_range (b, e) x ≡ true → covers s.free_ranges x ≡ false)
    → let (s', called) = free (b, e) s in
      Within 0 s.full_size s'.free_ranges
      × ((x : ℕ) → covers s'.free_ranges x ≡ (in_range (b, e) x || covers s.free_ranges x))
      × ((called ≡ true) ↔ ((x : ℕ) → x < s.full_size → covers s'.free_ranges x ≡ true))
unfolding free
free_lem b e s h k u f =
    let (within, exact) = free-Within 0 s.full_size b e s.free_ranges h k (omega arith) u f in
    (within, exact, is_free_iff (free (b, e) s).0 (omega arith) within)

-- On words of `suc v` bits, with the space below half of them, powers of two as alignment and
-- granularity, well-formed free ranges and a size above 0 that rounds up without a wrap: `free`
-- undoes a successful `allocate`, so that the free ranges are the very list that they were.
pub free-allocate :
    (v a g size : ℕ) (s s' : LinearAllocator) (r : Range)
    → a ≤ v
    → g ≤ v
    → s.full_size < 2 ^ v
    → Within 0 s.full_size s.free_ranges
    → 0 < size
    → size + 2 ^ g ≤ 2 ^ suc v
    → allocate (suc v) (2 ^ g) size (2 ^ a) s ≡ some (r, s')
    → (free r s').0 ≡ s
unfolding free
free-allocate v a g size s s' r ha hg small u pos fits e =
    let (t, same) =
      subst (AllocateOutcome (suc v) (align_up (suc v) size (2 ^ g)) (max (2 ^ a) (2 ^ g)) s) e
        (allocate-Outcome v a g size s ha hg small u pos fits) in
    let up = align_up-IsRounded (suc v) g size (omega arith) fits in
    let (within, exact) =
      free-Within 0 s.full_size r.0 r.1 s'.free_ranges (omega (arith, up.not_less, t.sized)) t.upto
        (omega arith) t.within t.taken in
    let back : free_ranges_after r s'.free_ranges ≡ s.free_ranges =
      Within-canonical 0 0 s.full_size (free_ranges_after r s'.free_ranges) s.free_ranges within u
        (λ x. exact x ∙ sym (t.splits x)) in
    λ i. record { free_ranges = back i; full_size = same i }
