-- ===== src/Land/ChunkStorage/Expand/Walk.antt =====
-- src/voxen/land/compressed_chunk_storage.cpp, the loops of `expand`: what they leave at one
-- position.
use voxen.Prelude.{
  ℕ, zero, suc, ◌+◌, ◌-◌, ◌*◌, ◌<◌, ◌≤◌, ◌≡◌, ◌≢◌, refl, ◌∙◌, true, false, List, [], ◌∷◌, ◌++◌,
  if◌then◌else◌, get_or, length, ◌==◌, subst, arith,
}
use voxen.Prelude.Words.{Word, popcount, word_and, word_not, ones, zeros}
use voxen.Land.ChunkStorage.{Vec3, Expanded, leaf_base_offset, Leaf}
use voxen.Land.ChunkStorage.Rank.{popcount-and_zeros}
use voxen.Land.ChunkStorage.Expand.{in_view, fill, fill_from, advance, expand_leaves}

-- The number of set bits below bit i, with any number of zeros above.
abbrev pub below : Word → ℕ → ℕ → ℕ
below mask i k = popcount (word_and mask (ones i ++ zeros k))

pub get_or-advance {ℓ} :
    {A : Type ℓ} (xs : List A) (i : ℕ) (d : A) → get_or (advance xs) i d ≡ get_or xs (suc i) d
get_or-advance [] i d = refl
get_or-advance (x ∷ xs) i d = refl

pub ==_ne_false : (a b : ℕ) → a ≢ b → (a == b) ≡ false
==_ne_false a b h = ground arith

module _ (base p : Vec3) where
  -- No view of these leaves holds the position.
  pub expand_leaves-outside :
      (mask : Word) (j : ℕ) (leaves : List Leaf) (singles : List ℕ) (out : Expanded)
      → ((i : ℕ) → j ≤ i → i < j + length mask → in_view 2 (leaf_base_offset base i) p ≡ false)
      → expand_leaves base mask j leaves singles out p ≡ out p
  unfolding expand_leaves fill fill_from
  expand_leaves-outside [] j leaves singles out h = refl
  expand_leaves-outside (true ∷ mask) j leaves singles out h =
      expand_leaves-outside mask (j + 1) (advance leaves) singles _
        (λ i le lt. h i (omega (arith, le)) (omega (arith, lt)))
      ∙ rw (h j (omega arith) (omega arith)) refl
  expand_leaves-outside (false ∷ mask) j leaves singles out h =
      expand_leaves-outside mask (j + 1) leaves (advance singles) _
        (λ i le lt. h i (omega (arith, le)) (omega (arith, lt)))
      ∙ rw (h j (omega arith) (omega arith)) refl

  module _ (l e : ℕ) (views : (i : ℕ) → i < 64 → in_view 2 (leaf_base_offset base i) p ≡ (i == l))
      (element : (p.z - (leaf_base_offset base l).z)
          + (p.x - (leaf_base_offset base l).x) * 2
          + (p.y - (leaf_base_offset base l).y) * 4
        ≡ e) where
    here : (j : ℕ) → l ≡ j + 0 → (j == l) ≡ true
    here j eq = ground (arith, eq)

    element_at :
        (j : ℕ)
        → l ≡ j + 0
        → (p.z - (leaf_base_offset base j).z)
            + (p.x - (leaf_base_offset base j).x) * 2
            + (p.y - (leaf_base_offset base j).y) * 4
          ≡ e
    element_at j eq =
        subst
          (λ n.
            (p.z - (leaf_base_offset base n).z)
              + (p.x - (leaf_base_offset base n).x) * 2
              + (p.y - (leaf_base_offset base n).y) * 4
            ≡ e)
          (eq ∙ omega arith) element

    -- The position lies in the view of leaf l, as element e.
    pub expand_leaves-at :
        (mask : Word) (j t k : ℕ) (leaves : List Leaf) (singles : List ℕ) (out : Expanded)
        → j + length mask ≤ 64
        → l ≡ j + t
        → t < length mask
        → expand_leaves base mask j leaves singles out p ≡ (
            if get_or mask t false
            then get_or (get_or leaves (below mask t k) []) e 0
            else get_or singles (below (word_not mask) t k) 0)
    unfolding expand_leaves fill fill_from
    expand_leaves-at [] j t k leaves singles out fits eq lt = absurd (omega (arith, lt))
    expand_leaves-at (true ∷ mask) j zero k leaves singles out fits eq lt =
        expand_leaves-outside mask (j + 1) (advance leaves) singles _
          (λ i le lt. views i (omega arith) ∙ ==_ne_false i l (omega (arith, eq, le)))
        ∙ rw (views j (omega arith), here j eq, element_at j eq, popcount-and_zeros (true ∷ mask) k)
            refl
    expand_leaves-at (false ∷ mask) j zero k leaves singles out fits eq lt =
        expand_leaves-outside mask (j + 1) leaves (advance singles) _
          (λ i le lt. views i (omega arith) ∙ ==_ne_false i l (omega (arith, eq, le)))
        ∙ rw (views j (omega arith), here j eq, popcount-and_zeros (true ∷ word_not mask) k) refl
    expand_leaves-at (true ∷ mask) j (suc t) k leaves singles out fits eq lt =
        expand_leaves-at mask (j + 1) t k (advance leaves) singles _ (omega arith) (omega arith)
          (omega arith)
        ∙ rw (get_or-advance leaves (below mask t k) []) refl
    expand_leaves-at (false ∷ mask) j (suc t) k leaves singles out fits eq lt =
        expand_leaves-at mask (j + 1) t k leaves (advance singles) _ (omega arith) (omega arith)
          (omega arith)
        ∙ rw (get_or-advance singles (below (word_not mask) t k) 0) refl
