-- ===== src/Common/V8gHashTrie/Refines.antt =====
-- include/voxen/common/v8g_hash_trie_impl.hpp beside v8g_flat_map_impl.hpp: both maps under the same
-- commands. The flat map is ordered by the keys' hashes.
use voxen.Prelude.{
  ℕ, ◌≡◌, refl, sym, ap, ◌∙◌, List, [], ◌∷◌, length, arith, ◌==◌, Bool-cases, inl, inr, ==→eq,
}
use voxen.Common.V8gFlatMap
use voxen.Common.V8gFlatMap.{Key, Item, key_eq}
use voxen.Common.V8gFlatMap.Order.{IsSorted}
use voxen.Common.V8gFlatMap.Laws.{update-IsSorted}
use voxen.Common.V8gFlatMap.Laws
use voxen.Common.V8gFlatMap.Size
use voxen.Common.V8gHashTrie.{HashKey, Layout, Trie, find, insert, erase, empty}
use voxen.Common.V8gHashTrie.Contents.{IsTrie, insert-IsTrie, find-insert, size-insert}
use voxen.Common.V8gHashTrie.Erasure.{
  empty-IsTrie, find-empty, erase-IsTrie, find-erase, size-erase,
}

instance abbrev pub hash_order {ℓ} : {K : Type ℓ} ⦃o : HashKey K⦄ → Key K
hash_order ⦃o⦄ = record { rank = o.hash; rank_injective = o.hash_injective }

-- A call of `insert` or `erase`.
pub data Command {ℓ κ} (K : Type ℓ) (V : Type κ) : Type (ℓ ⊔ κ) where
  put : (timeline : ℕ) (key : K) (value : V) → Command K V
  remove : (timeline : ℕ) (key : K) → Command K V

-- The trie and the flat map after the commands, the last first.
pub run {ℓ κ} : {K : Type ℓ} ⦃o : HashKey K⦄ {V : Type κ} → Layout → List (Command K V) → Trie K V
run z [] = empty
run z (put t k v ∷ cs) = insert z t k v (run z cs)
run z (remove t k ∷ cs) = erase z t k (run z cs)

pub run_flat {ℓ κ} :
    {K : Type ℓ} ⦃o : HashKey K⦄ {V : Type κ} → List (Command K V) → List (Item K V)
run_flat [] = []
run_flat (put t k v ∷ cs) = V8gFlatMap.insert t k v (run_flat cs)
run_flat (remove t k ∷ cs) = V8gFlatMap.erase k (run_flat cs)

equal-key_eq {ℓ} : {K : Type ℓ} ⦃o : HashKey K⦄ (k l : K) → key_eq k l ≡ o.equal k l
equal-key_eq ⦃o⦄ k l = elim (Bool-cases (o.equal k l)) [
  | inl t ↦ rw (t, o.equal_true k l t) (ground arith)
  | inr t ↦ elim (Bool-cases (o.hash k == o.hash l)) [
    | inl u ↦ absurd (
        ground (
          arith,
          sym t ∙ ap (o.equal k) (sym (o.hash_injective k l (==→eq _ _ u))) ∙ o.equal_refl k,
        ))
    | inr u ↦ u ∙ sym t
  ]
]

module _ {ℓ κ} {K : Type ℓ} ⦃o : HashKey K⦄ {V : Type κ} (z : Layout) where
  -- The trie t stands for the flat map xs.
  pub record Stands (t : Trie K V) (xs : List (Item K V)) : Type (ℓ ⊔ κ) where
    pub trie_ok : IsTrie t
    pub sorted : IsSorted xs
    pub finds : (l : K) → find l t ≡ V8gFlatMap.find l xs
    pub sizes : t.size ≡ length xs

  put-Stands :
      (timeline : ℕ) (k : K) (v : V) (t : Trie K V) (xs : List (Item K V))
      → Stands t xs
      → Stands (insert z timeline k v t) (V8gFlatMap.insert timeline k v xs)
  put-Stands timeline k v t xs s = record {
    trie_ok = insert-IsTrie z timeline k v t s.trie_ok;
    sorted = (update-IsSorted timeline k v xs s.sorted).0;
    finds = λ l.
        find-insert z timeline k v t l s.trie_ok
        ∙ rw (Laws.find-insert timeline k l v xs s.sorted, equal-key_eq k l, s.finds l) refl;
    sizes =
        size-insert z timeline k v t s.trie_ok
        ∙ rw (Size.length-insert timeline k v xs s.sorted, s.finds k, s.sizes) refl;
  }

  remove-Stands :
      (timeline : ℕ) (k : K) (t : Trie K V) (xs : List (Item K V))
      → Stands t xs
      → Stands (erase z timeline k t) (V8gFlatMap.erase k xs)
  remove-Stands timeline k t xs s = record {
    trie_ok = erase-IsTrie z timeline k t s.trie_ok;
    sorted = Size.erase-IsSorted k xs s.sorted;
    finds = λ l.
        find-erase z timeline k t l s.trie_ok
        ∙ rw (Laws.find-erase k l xs s.sorted, equal-key_eq k l, s.finds l) refl;
    sizes =
        size-erase z timeline k t s.trie_ok
        ∙ rw (Size.length-erase k xs s.sorted, s.finds k, s.sizes) refl;
  }

  empty-Stands : Stands empty []
  unfolding empty
  empty-Stands = record {
    trie_ok = empty-IsTrie;
    sorted = tt;
    finds = λ l. find-empty l ∙ sym (Size.find-nil l);
    sizes = refl;
  }

  -- After any sequence of `insert` and `erase` from the empty maps the trie is well-formed, `find`
  -- gives the same item, with its version, in the trie and in the flat map ordered by the hashes,
  -- and the trie's size is the number of items of the flat map.
  pub run-Stands : (cs : List (Command K V)) → Stands (run z cs) (run_flat cs)
  unfolding run run_flat
  run-Stands [] = empty-Stands
  run-Stands (put t k v ∷ cs) = put-Stands t k v (run z cs) (run_flat cs) (run-Stands cs)
  run-Stands (remove t k ∷ cs) = remove-Stands t k (run z cs) (run_flat cs) (run-Stands cs)
