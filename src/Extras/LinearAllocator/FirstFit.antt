-- ===== src/Extras/LinearAllocator/FirstFit.antt =====
-- include/extras/linear_allocator.hpp, the loop of `allocate` over the free ranges.
use native.Mathlib.Decide.{dec_lt}
use native.Mathlib.Nat.{mod-eq_of_lt}
use mathlib.Core.Option
use voxen.Prelude.{
  ℕ, suc, ◌+◌, ◌%◌, ◌^◌, ◌<◌, ◌≤◌, ◌≡◌, refl, arith, true, false, ◌||◌, List, [], ◌∷◌, ◌++◌, ltb,
  Bool-cases, inl, inr, Option, none, some, lt→ltb, le→ltb,
}
use voxen.Prelude.BitAnd.{double-pow, pow_mono}
use voxen.Extras.LinearAllocator.{Range, align_up, add, remainder, take_first}
use voxen.Extras.LinearAllocator.Ranges.{in_range, covers, Within, Within-mono, covers_below}
use voxen.Extras.LinearAllocator.Rounding.{IsRounded, align_up-IsRounded, align_up-le-half}

-- What taking `r` out of the free ranges `rs` leaves, for a request of `size` at a multiple of `p`.
pub record Takes (lo hi size p : ℕ) (rs : List Range) (r : Range) (rs' : List Range) : Type 0 where
  pub from : lo ≤ r.0
  pub upto : r.1 ≤ hi
  pub sized : r.1 ≡ r.0 + size
  pub aligned : r.0 % p ≡ 0
  pub within : Within lo hi rs'
  pub splits : (x : ℕ) → covers rs x ≡ (in_range r x || covers rs' x)
  pub taken : (x : ℕ) → in_range r x ≡ true → covers rs' x ≡ false

-- No free range holds `size` offsets from its first multiple of the alignment on.
abbrev pub NoneFits : (w size p : ℕ) → List Range → Type 0
NoneFits w size p [] = Unit {0}
NoneFits w size p ((b, e) ∷ rs) = (e < align_up w b p + size) × NoneFits w size p rs

abbrev pub Outcome : (w lo hi size p : ℕ) → List Range → Option (Range × List Range) → Type 0
Outcome w lo hi size p rs none = NoneFits w size p rs
Outcome w lo hi size p rs (some (r, rs')) = Takes lo hi size p rs r rs'

pub remainder-Within :
    (lo b a c e hi : ℕ) (rs : List Range)
    → lo ≤ b
    → b ≤ a
    → a < c
    → c ≤ e
    → e ≤ hi
    → Within (e + 1) hi rs
    → Within lo hi (remainder b a c e ++ rs)
unfolding remainder
remainder-Within lo b a c e hi rs h₁ h₂ h₃ h₄ h₅ u = elim (Bool-cases (ltb c e)) [
  | inl p ↦ elim (Bool-cases (ltb b a)) [
    | inl q ↦ rw (p, q) (ground arith)
    | inr q ↦ rw (p, q) (ground arith)
  ]
  | inr p ↦ elim (Bool-cases (ltb b a)) [
    | inl q ↦ rw (p, q) (ground (arith, Within-mono (a + 1) (e + 1) hi rs))
    | inr q ↦ rw (p, q) (Within-mono lo (e + 1) hi rs (omega arith) u)
  ]
]

module _ (v k hi size : ℕ) (k_le : k ≤ v) (small : hi < 2 ^ v) (pos : 0 < size)
    (fits : size ≤ hi) where
  no_wrap :
      (b : ℕ)
      → b ≤ hi
      → add (suc v) (align_up (suc v) b (2 ^ k)) size ≡ align_up (suc v) b (2 ^ k) + size
  no_wrap b h =
      mod-eq_of_lt (omega (arith, double-pow v, align_up-le-half v k b k_le (omega arith)))

  rounded : (b : ℕ) → b ≤ hi → IsRounded b (2 ^ k) (align_up (suc v) b (2 ^ k))
  rounded b h =
      align_up-IsRounded (suc v) k b (omega arith) (omega (arith, double-pow v, pow_mono k v k_le))

  take_here :
      (lo b e a : ℕ) (rs : List Range)
      → Within lo hi ((b, e) ∷ rs)
      → b ≤ a
      → a % 2 ^ k ≡ 0
      → a + size ≤ e
      → Takes lo hi size (2 ^ k) ((b, e) ∷ rs) (a, a + size) (remainder b a (a + size) e ++ rs)
  unfolding remainder
  take_here lo b e a rs u h m le = record {
    from = omega arith;
    upto = omega arith;
    sized = refl;
    aligned = m;
    within = remainder-Within lo b a (a + size) e hi rs u.0 h (omega arith) le u.2 u.3;
    splits = λ x. ground (arith, covers_below (e + 1) hi x rs u.3);
    taken = λ x t. ground (arith, covers_below (e + 1) hi x rs u.3);
  }

  take_later :
      (lo b e : ℕ) (rs rs' : List Range) (r : Range)
      → Within lo hi ((b, e) ∷ rs)
      → Takes (e + 1) hi size (2 ^ k) rs r rs'
      → Takes lo hi size (2 ^ k) ((b, e) ∷ rs) r ((b, e) ∷ rs')
  take_later lo b e rs rs' r u t = record {
    from = omega (arith, t.from);
    upto = t.upto;
    sized = t.sized;
    aligned = t.aligned;
    within = (u.0, u.1, u.2, t.within);
    splits = λ x. ground (arith, t.splits x);
    taken = λ x h. ground (arith, t.taken x h, t.from);
  }

  pub take_first-Outcome :
      (lo : ℕ) (rs : List Range)
      → Within lo hi rs
      → Outcome (suc v) lo hi size (2 ^ k) rs (take_first (suc v) size (2 ^ k) rs)
  unfolding take_first
  take_first-Outcome lo [] u = tt
  take_first-Outcome lo ((b, e) ∷ rs) u =
      let b_le : b ≤ hi = omega arith in
      let up = rounded b b_le in
      let ih = take_first-Outcome (e + 1) rs u.3 in
      elim (dec_lt e (align_up (suc v) b (2 ^ k) + size)) [
        | yes p ↦ rw (no_wrap b b_le, lt→ltb _ _ p) (later p ih)
        | no p ↦
            rw (no_wrap b b_le, le→ltb e (align_up (suc v) b (2 ^ k) + size) (omega arith))
              (take_here lo b e (align_up (suc v) b (2 ^ k)) rs u up.not_less up.aligned
                (omega arith))
      ]
    where
      later :
          e < align_up (suc v) b (2 ^ k) + size
          → Outcome (suc v) (e + 1) hi size (2 ^ k) rs (take_first (suc v) size (2 ^ k) rs)
          → Outcome
              (suc v)
              lo
              hi
              size
              (2 ^ k)
              ((b, e) ∷ rs)
              (Option.map (λ p. (p.0, (b, e) ∷ p.1)) (take_first (suc v) size (2 ^ k) rs))
      later p =
          elim (take_first (suc v) size (2 ^ k) rs)
            as (λ q.
              Outcome (suc v) (e + 1) hi size (2 ^ k) rs q
              → Outcome (suc v) lo hi size (2 ^ k) ((b, e) ∷ rs)
                  (Option.map (λ p. (p.0, (b, e) ∷ p.1)) q)) [
                    | none ↦ λ o. (p, o)
                    | some t ↦ λ o. take_later lo b e rs t.1 t.0 u o
                  ]
