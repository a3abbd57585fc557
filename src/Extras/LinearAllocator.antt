-- ===== src/Extras/LinearAllocator.antt =====
-- include/extras/linear_allocator.hpp: the allocator over a sorted list of free ranges.
-- `S` is an unsigned type of `w` bits, `g` the granularity `G`. A range is `[first; second)`.
pub mod Ranges
pub mod Rounding
pub mod FirstFit
pub mod Allocate
pub mod Free
pub mod Grow
mod Tests
use voxen.Prelude.{
  ℕ, ◌+◌, ◌-◌, ◌^◌, ◌%◌, Bool, true, false, ◌&&◌, List, [], ◌∷◌, ◌++◌, Option, none, some, max, ltb,
  ◌==◌, if◌then◌else◌,
}
use voxen.Prelude.BitAnd.{complement}
use Prim.Native.Nat.{bit_and}
use mathlib.Core.Option

abbrev pub Range : Type 0
Range = ℕ × ℕ

pub record LinearAllocator : Type 0 where
  pub free_ranges : List Range
  pub full_size : ℕ

-- The constructor: the whole space is one free range.
pub new : ℕ → LinearAllocator
new full_size = record { free_ranges = (0, full_size) ∷ []; full_size = full_size }

abbrev pub range_eq : Range → Range → Bool
range_eq (a, b) (c, d) = a == c && b == d

pub is_free : LinearAllocator → Bool
is_free s = elim s.free_ranges [
  | [] ↦ false
  | r ∷ rs ↦ elim rs [ [] ↦ range_eq r (0, s.full_size) | _ ∷ _ ↦ false ]
]

-- Pairs are compared first by their first components.
abbrev pub range_lt : Range → Range → Bool
range_lt (a, b) (c, d) = if ltb a c then true else (a == c && ltb b d)

-- `std::upper_bound`: the split before the first range that is greater than `r`.
pub upper_bound : Range → List Range → List Range × List Range
upper_bound r [] = ([], [])
upper_bound r (x ∷ xs) =
    let (before, rest) = upper_bound r xs in
    if range_lt r x then ([], x ∷ xs) else (x ∷ before, rest)

-- The emplaced range and its merge with the next one, if that starts at its end.
pub merge_next : Range → List Range → List Range
merge_next (b, e) [] = (b, e) ∷ []
merge_next (b, e) ((c, d) ∷ rest) = if c == e then (b, d) ∷ rest else (b, e) ∷ (c, d) ∷ rest

-- The merge with the previous range, if that ends at the start of the emplaced one.
pub merge_prev : List Range → List Range → List Range
merge_prev before [] = before
merge_prev [] (r ∷ rest) = r ∷ rest
merge_prev ((a, b) ∷ []) ((c, d) ∷ rest) = if b == c then (a, d) ∷ rest else (a, b) ∷ (c, d) ∷ rest
merge_prev (x ∷ y ∷ before) (r ∷ rest) = x ∷ merge_prev (y ∷ before) (r ∷ rest)

-- The list after `free`.
pub free_ranges_after : Range → List Range → List Range
unfolding upper_bound merge_next merge_prev
free_ranges_after r ranges =
    let (before, rest) = upper_bound r ranges in merge_prev before (merge_next r rest)

-- `free`, with whether the callback `on_allocator_freed` is called.
pub free : Range → LinearAllocator → LinearAllocator × Bool
unfolding free_ranges_after is_free
free r s =
    let s' : LinearAllocator = record s { free_ranges = free_ranges_after r s.free_ranges } in
    (s', is_free s')

-- `reset`, with whether the callback is called.
pub reset : LinearAllocator → LinearAllocator × Bool
unfolding is_free
reset s = if is_free s then (s, false) else (record s { free_ranges = (0, s.full_size) ∷ [] }, true)

pub allocate_all : LinearAllocator → LinearAllocator × Range
allocate_all s = (record s { free_ranges = [] }, (0, s.full_size))

-- What is left of a free range `[b; e)` when `[ab; ae)` is taken from it.
pub remainder : ℕ → ℕ → ℕ → ℕ → List Range
remainder b ab ae e =
    if ltb ae e
    then (if ltb b ab then (b, ab) ∷ (ae, e) ∷ [] else (ae, e) ∷ [])
    else (if ltb b ab then (b, ab) ∷ [] else [])

module _ (w : ℕ) where
  -- Addition on `S`.
  abbrev pub add : ℕ → ℕ → ℕ
  add a b = (a + b) % 2 ^ w

  -- `(size + alignment - 1) & ~(alignment - 1)` on `S`.
  pub align_up : ℕ → ℕ → ℕ
  align_up size alignment =
      bit_and ((size + alignment + 2 ^ w - 1) % 2 ^ w) (complement w (alignment - 1))

  -- The loop of `allocate` over the free ranges, first fit.
  pub take_first : ℕ → ℕ → List Range → Option (Range × List Range)
  unfolding align_up remainder
  take_first size align [] = none
  take_first size align ((b, e) ∷ rest) =
      let ab = align_up b align in
      let ae = add ab size in
      let later = take_first size align rest in
      if ltb e ae
      then Option.map (λ p. (p.0, (b, e) ∷ p.1)) later
      else some ((ab, ae), remainder b ab ae e ++ rest)

-- What `grow` does at the first range greater than the grown one.
pub grow_into : Range → ℕ → List Range × List Range → Option (Range × List Range)
grow_into (b, e) desired (before, []) = none
grow_into (b, e) desired (before, (c, d) ∷ rest) =
    if c == e
    then (if ltb d desired
        then none
        else (if d == desired
            then some ((b, desired), before ++ rest)
            else some ((b, desired), before ++ (desired, d) ∷ rest)))
    else none

module _ (w g : ℕ) where
  pub allocate : ℕ → ℕ → LinearAllocator → Option (Range × LinearAllocator)
  unfolding take_first
  allocate size align s =
      let size' = align_up w size g in
      let align' = max align g in
      if ltb s.full_size size'
      then none
      else Option.map (λ p. (p.0, record s { free_ranges = p.1 }))
          (take_first w size' align' s.free_ranges)

  pub grow : Range → ℕ → LinearAllocator → Option (Range × LinearAllocator)
  unfolding grow_into upper_bound align_up
  grow r addendum s =
      if addendum == 0
      then some (r, s)
      else Option.map (λ p. (p.0, record s { free_ranges = p.1 }))
          (grow_into r (add w r.1 (align_up w addendum g)) (upper_bound r s.free_ranges))
