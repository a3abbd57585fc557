-- ===== src/Extras/LinearAllocator/Allocate.antt =====
-- `allocate`: what a successful request takes, and when a request fails.
use native.Mathlib.Decide.{dec_lt}
use native.Mathlib.Nat.{mod-eq_of_lt}
use mathlib.Core.Option
use voxen.Prelude.{
  ℕ, suc, ◌+◌, ◌^◌, ◌<◌, ◌≤◌, ◌≡◌, refl, arith, inl, inr, Option, none, some, max, lt→ltb, le→ltb,
  ◌⊎◌,
}
use voxen.Prelude.BitAnd.{pow-pos}
use voxen.Extras.LinearAllocator.{
  LinearAllocator, Range, align_up, remainder, take_first, allocate, new,
}
use voxen.Extras.LinearAllocator.Ranges.{Within}
use voxen.Extras.LinearAllocator.Rounding.{
  align_up-IsRounded, align_up_wraps, align_up-zero, align_up_wraps, align_up-zero,
}
use voxen.Extras.LinearAllocator.FirstFit.{Takes, NoneFits, Outcome, take_first-Outcome}

-- The alignment in force, the larger of the request's and the granularity, is a power of two.
max-pow : (a g v : ℕ) → a ≤ v → g ≤ v → (k : ℕ) × (k ≤ v) × (max (2 ^ a) (2 ^ g) ≡ 2 ^ k)
max-pow a g v h i = elim (dec_lt (2 ^ a) (2 ^ g)) [
  | yes p ↦ (g, i, omega arith)
  | no p ↦ (a, h, omega arith)
]

-- A successful request takes a range of the rounded size out of the free space, at a multiple of
-- the alignment and of the granularity's maximum; a failed one had no free range for it.
abbrev pub AllocateOutcome :
    (w size p : ℕ) (s : LinearAllocator) → Option (Range × LinearAllocator) → Type 0
AllocateOutcome w size p s none = (s.full_size < size) ⊎ NoneFits w size p s.free_ranges
AllocateOutcome w size p s (some (r, s')) =
    Takes 0 s.full_size size p s.free_ranges r s'.free_ranges × (s'.full_size ≡ s.full_size)

-- On words of `suc v` bits, with the space below half of them, powers of two as alignment and
-- granularity, well-formed free ranges and a size above 0 that rounds up without a wrap:
-- `allocate` takes a range of the rounded size at a multiple of the larger alignment out of the
-- free ranges, which stay well-formed and lose exactly the offsets of that range; and it fails
-- only if the size is beyond the space or no free range fits.
pub allocate-Outcome :
    (v a g size : ℕ) (s : LinearAllocator)
    → a ≤ v
    → g ≤ v
    → s.full_size < 2 ^ v
    → Within 0 s.full_size s.free_ranges
    → 0 < size
    → size + 2 ^ g ≤ 2 ^ suc v
    → AllocateOutcome
        (suc v)
        (align_up (suc v) size (2 ^ g))
        (max (2 ^ a) (2 ^ g))
        s
        (allocate (suc v) (2 ^ g) size (2 ^ a) s)
unfolding allocate
allocate-Outcome v a g size s ha hg small u pos fits =
    let up = align_up-IsRounded (suc v) g size (omega arith) fits in
    let size' = align_up (suc v) size (2 ^ g) in
    let (k, hk, e) = max-pow a g v ha hg in
    elim (dec_lt s.full_size size') [
      | yes p ↦ rw (lt→ltb s.full_size size' p) (inl p)
      | no p ↦
          rw (le→ltb s.full_size size' (omega arith), e)
            (found k (
              take_first-Outcome v k s.full_size size' hk small (omega (arith, up.not_less))
                (omega arith) 0 s.free_ranges u))
    ]
  where
    size'' : ℕ
    size'' = align_up (suc v) size (2 ^ g)

    found :
        (k : ℕ)
        → Outcome
            (suc v)
            0
            s.full_size
            size''
            (2 ^ k)
            s.free_ranges
            (take_first (suc v) size'' (2 ^ k) s.free_ranges)
        → AllocateOutcome (suc v) size'' (2 ^ k) s (
            Option.map
              (λ p. (p.0, record s { free_ranges = p.1 }))
              (take_first (suc v) size'' (2 ^ k) s.free_ranges))
    found k =
        elim (take_first (suc v) size'' (2 ^ k) s.free_ranges)
          as (λ q.
            Outcome (suc v) 0 s.full_size size'' (2 ^ k) s.free_ranges q
            → AllocateOutcome (suc v) size'' (2 ^ k) s
                (Option.map (λ p. (p.0, record s { free_ranges = p.1 })) q)) [
                  | none ↦ λ o. inr o
                  | some t ↦ λ o. (o, refl)
                ]

-- With powers of two as alignment and granularity, and a fresh allocator of a space that is not empty
-- and below half of the words of `suc v` bits: a size so large that rounding it up wraps is not
-- rejected. The request gets the empty range at 0, and nothing is taken.
pub allocate_wraps :
    (v a g size full : ℕ)
    → a ≤ v
    → g ≤ v
    → 0 < full
    → full < 2 ^ v
    → size < 2 ^ suc v
    → 2 ^ suc v < size + 2 ^ g
    → allocate (suc v) (2 ^ g) size (2 ^ a) (new full) ≡ some ((0, 0), new full)
unfolding allocate new take_first remainder
allocate_wraps v a g size full ha hg pos small lt over =
    let (k, hk, e) = max-pow a g v ha hg in
    rw
      (
        align_up_wraps (suc v) g size (omega arith) lt over,
        e,
        align_up-zero (suc v) k (omega arith),
      )
      (ground (arith, mod-eq_of_lt {n = 0 + 0} {m = 2 ^ suc v} (pow-pos (suc v))))
