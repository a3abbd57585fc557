-- ===== src/Extras/LinearAllocator/Ranges.antt =====
-- Well-formed lists of free ranges, and the set of offsets that such a list stands for.

use voxen.Prelude.{
  ℕ, ◌+◌, ◌<◌, ◌≤◌, ◌≡◌, refl, ap₂, Bool, false, ◌&&◌, ◌||◌, List, [], ◌∷◌, ltb, leb, arith,
}
use voxen.Extras.LinearAllocator.{Range}

abbrev pub in_range : Range → ℕ → Bool
in_range (b, e) x = leb b x && ltb x e

abbrev pub covers : List Range → ℕ → Bool
covers [] x = false
covers (r ∷ rs) x = in_range r x || covers rs x

-- Sorted, not empty, with a gap between any two, from `lo` on and up to `hi`.
abbrev pub Within : ℕ → ℕ → List Range → Type 0
Within lo hi [] = Unit {0}
Within lo hi ((b, e) ∷ rs) = (lo ≤ b) × (b < e) × (e ≤ hi) × Within (e + 1) hi rs

pub Within-mono : (lo lo' hi : ℕ) (rs : List Range) → lo ≤ lo' → Within lo' hi rs → Within lo hi rs
Within-mono lo lo' hi [] h v = tt
Within-mono lo lo' hi ((b, e) ∷ rs) h v = (omega arith, v.1, v.2, v.3)

pub covers_below : (lo hi x : ℕ) (rs : List Range) → Within lo hi rs → x < lo → covers rs x ≡ false
covers_below lo hi x [] v h = refl
covers_below lo hi x ((b, e) ∷ rs) v h =
    ground (arith, covers_below (e + 1) hi x rs v.3 (omega arith))

pub covers_beyond : (lo hi x : ℕ) (rs : List Range) → Within lo hi rs → hi ≤ x → covers rs x ≡ false
covers_beyond lo hi x [] v h = refl
covers_beyond lo hi x ((b, e) ∷ rs) v h = ground (arith, covers_beyond (e + 1) hi x rs v.3 h)

-- Two well-formed lists that stand for the same offsets are equal.
pub Within-canonical :
    (lo lo' hi : ℕ) (rs ss : List Range)
    → Within lo hi rs
    → Within lo' hi ss
    → ((x : ℕ) → covers rs x ≡ covers ss x)
    → rs ≡ ss
Within-canonical lo lo' hi [] [] v u h = refl
Within-canonical lo lo' hi [] ((c, d) ∷ ss) v u h = absurd (ground (arith, h c))
Within-canonical lo lo' hi ((b, e) ∷ rs) [] v u h = absurd (ground (arith, h b))
Within-canonical lo lo' hi ((b, e) ∷ rs) ((c, d) ∷ ss) v u h =
    ap₂ ◌∷◌ (ground (arith, starts, ends)) (Within-canonical (e + 1) (d + 1) hi rs ss v.3 u.3 tails)
  where
    starts : b ≡ c
    starts =
        ground (arith, h b, h c, covers_below (d + 1) hi b ss u.3, covers_below (e + 1) hi c rs v.3)

    ends : e ≡ d
    ends = ground (
      arith,
      starts,
      h e,
      h d,
      covers_below (d + 1) hi e ss u.3,
      covers_below (e + 1) hi d rs v.3,
      covers_below (e + 1) hi e rs v.3,
      covers_below (d + 1) hi d ss u.3,
    )

    tails : (x : ℕ) → covers rs x ≡ covers ss x
    tails x = ground (
      arith,
      starts,
      ends,
      h x,
      covers_below (e + 1) hi x rs v.3,
      covers_below (d + 1) hi x ss u.3,
    )
