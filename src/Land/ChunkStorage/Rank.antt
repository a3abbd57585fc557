-- ===== src/Land/ChunkStorage/Rank.antt =====
-- src/voxen/land/compressed_chunk_storage.cpp: the entry of a packed array at the number of mask
-- bits below.
use voxen.Prelude.{
  ◌∙◌, ℕ, zero, suc, ◌+◌, ◌<◌, ◌≡◌, refl, ap, Bool, true, false, not, List, [], ◌∷◌, ◌++◌, Option,
  none, some, length, get_or, arith, Bool-cases, inl, inr,
}
use voxen.Prelude.Words.{Word, ones, zeros, word_and, word_not, popcount}
use voxen.Land.ChunkStorage.{
  Leaf, Node, uniform, mixed, first, leaf_uniform, nonuniform_leaves, single_values, collect_nodes,
  tabulate,
}

get_or-tabulate {ℓ} :
    {A : Type ℓ} (f : ℕ → A) (n s i : ℕ) (d : A) → i < n → get_or (tabulate f n s) i d ≡ f (s + i)
unfolding tabulate
get_or-tabulate f zero s i d h = absurd (omega arith)
get_or-tabulate f (suc n) s zero d h = ap f (omega arith)
get_or-tabulate f (suc n) s (suc i) d h =
    rw (get_or-tabulate f n (s + 1) i d (omega arith)) (ap f (omega arith))

pub get_or-tabulate_zero {ℓ} :
    {A : Type ℓ} (f : ℕ → A) (n i : ℕ) (d : A) → i < n → get_or (tabulate f n 0) i d ≡ f i
get_or-tabulate_zero f n i d h = get_or-tabulate f n 0 i d h ∙ ap f (omega arith)

pub length-tabulate {ℓ} : {A : Type ℓ} (f : ℕ → A) (n s : ℕ) → length (tabulate f n s) ≡ n
unfolding tabulate
length-tabulate f zero s = refl
length-tabulate f (suc n) s = ap suc (length-tabulate f n (s + 1))

pub popcount-and_zeros : (m : Word) (k : ℕ) → popcount (word_and m (zeros k)) ≡ 0
popcount-and_zeros [] k = refl
popcount-and_zeros (b ∷ m) zero = refl
popcount-and_zeros (true ∷ m) (suc k) = popcount-and_zeros m k
popcount-and_zeros (false ∷ m) (suc k) = popcount-and_zeros m k

-- The mask that the scan of the leaves writes.
abbrev pub nonuniform_mask : List Leaf → Word
nonuniform_mask [] = []
nonuniform_mask (leaf ∷ leaves) = not (leaf_uniform leaf) ∷ nonuniform_mask leaves

pub rank-nonuniform :
    (leaves : List Leaf) (i k : ℕ)
    → i < length leaves
    → get_or (nonuniform_mask leaves) i false ≡ true
    → get_or
        (nonuniform_leaves (nonuniform_mask leaves) leaves)
        (popcount (word_and (nonuniform_mask leaves) (ones i ++ zeros k)))
        []
      ≡ get_or leaves i []
unfolding nonuniform_leaves
rank-nonuniform [] i k h b = absurd (omega arith)
rank-nonuniform (leaf ∷ leaves) zero k h b =
    rw (popcount-and_zeros (not (leaf_uniform leaf) ∷ nonuniform_mask leaves) k) (rw (b) refl)
rank-nonuniform (leaf ∷ leaves) (suc i) k h b =
    let ih : _ = rank-nonuniform leaves i k (omega arith) b in
    elim (Bool-cases (leaf_uniform leaf)) [ inl e ↦ rw (e) ih | inr e ↦ rw (e) ih ]

pub rank-single :
    (leaves : List Leaf) (i k : ℕ)
    → i < length leaves
    → get_or (nonuniform_mask leaves) i false ≡ false
    → get_or
        (single_values (nonuniform_mask leaves) leaves)
        (popcount (word_and (word_not (nonuniform_mask leaves)) (ones i ++ zeros k)))
        0
      ≡ first (get_or leaves i [])
unfolding single_values
rank-single [] i k h b = absurd (omega arith)
rank-single (leaf ∷ leaves) zero k h b =
    rw (popcount-and_zeros (word_not (not (leaf_uniform leaf) ∷ nonuniform_mask leaves)) k)
      (rw (b) refl)
rank-single (leaf ∷ leaves) (suc i) k h b =
    let ih : _ = rank-single leaves i k (omega arith) b in
    elim (Bool-cases (leaf_uniform leaf)) [ inl e ↦ rw (e) ih | inr e ↦ rw (e) ih ]

pub mask-none :
    (results : List (Option Node)) (v : ℕ) (met whole : Bool) (i : ℕ)
    → get_or results i none ≡ none
    → get_or (collect_nodes results v met whole).mask i false ≡ false
unfolding collect_nodes
mask-none [] v met whole i e = refl
mask-none (none ∷ results) v met whole zero e = refl
mask-none (some n ∷ results) v met whole zero e = absurd (cc)
mask-none (none ∷ results) v met whole (suc i) e = mask-none results _ _ _ i e
mask-none (some (mixed m l s) ∷ results) v met whole (suc i) e = mask-none results _ _ _ i e
mask-none (some (uniform u) ∷ results) v met whole (suc i) e = mask-none results _ _ _ i e

-- The node stored for the number i is found at the number of mask bits below i.
pub rank-some :
    (results : List (Option Node)) (v : ℕ) (met whole : Bool) (i k : ℕ) (n d : Node)
    → get_or results i none ≡ some n
    → (get_or (collect_nodes results v met whole).mask i false ≡ true)
      × (get_or
            (collect_nodes results v met whole).nodes
            (popcount (word_and (collect_nodes results v met whole).mask (ones i ++ zeros k)))
            d
          ≡ n)
unfolding collect_nodes
rank-some [] v met whole i k n d e = absurd (cc)
rank-some (none ∷ results) v met whole zero k n d e = absurd (cc)
rank-some (none ∷ results) v met whole (suc i) k n d e = rank-some results _ _ _ i k n d e
rank-some (some (mixed m l s) ∷ results) v met whole zero k n d e = (
  refl,
  rw (popcount-and_zeros (collect_nodes (some (mixed m l s) ∷ results) v met whole).mask k) cc,
)
rank-some (some (mixed m l s) ∷ results) v met whole (suc i) k n d e =
    rank-some results _ _ _ i k n d e
rank-some (some (uniform u) ∷ results) v met whole zero k n d e = (
  refl,
  rw (popcount-and_zeros (collect_nodes (some (uniform u) ∷ results) v met whole).mask k) cc,
)
rank-some (some (uniform u) ∷ results) v met whole (suc i) k n d e =
    rank-some results _ _ _ i k n d e
