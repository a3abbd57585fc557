-- ===== src/Common/V8gHashTrie/Erasure.antt =====
-- include/voxen/common/v8g_hash_trie_impl.hpp: the trie as a map, `erase`.
use voxen.Prelude.{
  is_none, ℕ, zero, suc, ◌-◌, ◌≡◌, refl, sym, ap, subst, Bool, true, false, Option, none, some,
  get_or, if◌then◌else◌, not, replicate,
}
use voxen.Common.V8gFlatMap.{Item}
use voxen.Common.V8gHashTrie.{HashKey, Layout, Node}
use voxen.Common.V8gHashTrie.{Trie, find, erase, empty, root_of, find_root, root_index, erase_root}
use voxen.Common.V8gHashTrie.Erased.{erase_in-IsErased}
use voxen.Common.V8gHashTrie.Contents.{IsRoot, IsTrie, IsTrie-set, find-set, root_index-lt}

get_or-replicate {ℓ} : {A : Type ℓ} (n i : ℕ) (a : A) → get_or (replicate n a) i a ≡ a
get_or-replicate zero i a = refl
get_or-replicate (suc n) zero a = refl
get_or-replicate (suc n) (suc i) a = get_or-replicate n i a

if_same {ℓ} : {A : Type ℓ} (b : Bool) (a : A) → (if b then a else a) ≡ a
if_same true a = refl
if_same false a = refl

flip {ℓ} :
    {A : Type ℓ} (b c : Bool) (x y : A) → not b ≡ c → (if b then x else y) ≡ (if c then y else x)
flip true c x y e = ap (λ d. if d then y else x) e
flip false c x y e = ap (λ d. if d then y else x) e

module _ {ℓ κ} {K : Type ℓ} ⦃o : HashKey K⦄ {V : Type κ} where
  pub empty-IsTrie : IsTrie {V = V} (empty {K = K})
  unfolding empty
  empty-IsTrie = record {
    sixteen = refl;
    root_ok = λ r. subst (IsRoot r) (sym (get_or-replicate 16 r (0, none))) tt;
  }

  pub find-empty : (l : K) → find {V = V} l empty ≡ none
  unfolding find empty
  find-empty l =
      ap (λ (y : ℕ × Option (Node 10 (Item K V))). find_root l y.1)
        (get_or-replicate 16 (root_index l) (0, none))

  module _ (z : Layout) (timeline : ℕ) (k : K) where
    erase_root-IsRoot :
        (root : ℕ × Option (Node 10 (Item K V)))
        → IsRoot (root_index k) root
        → IsRoot (root_index k) (erase_root z timeline k root).0
          × (((l : K)
                → find_root l (erase_root z timeline k root).0.1
                  ≡ (if o.equal k l then none else find_root l root.1))
              × (not (erase_root z timeline k root).1 ≡ is_none (find_root k root.1)))
    erase_root-IsRoot (version, none) w = (tt, ((λ l. sym (if_same (o.equal k l) none)), refl))
    erase_root-IsRoot (version, some n) w =
        let e =
          erase_in-IsErased V z timeline k 10 4 (λ l. root_index l ≡ root_index k) (version, n) w in
        (e.well_formed, (e.found, e.erased))

    pub erase-IsTrie : (t : Trie K V) → IsTrie t → IsTrie (erase z timeline k t)
    unfolding erase
    erase-IsTrie t w =
        IsTrie-set t _ (root_index k) _ w
          (erase_root-IsRoot (root_of k t) (w.root_ok (root_index k))).0 (root_index-lt k)

    pub find-erase :
        (t : Trie K V) (l : K)
        → IsTrie t
        → find l (erase z timeline k t) ≡ (if o.equal k l then none else find l t)
    unfolding erase
    find-erase t l w =
        find-set t _ k _ none w (erase_root-IsRoot (root_of k t) (w.root_ok (root_index k))).1.0 l

    pub size-erase :
        (t : Trie K V)
        → IsTrie t
        → (erase z timeline k t).size ≡ (if is_none (find k t) then t.size else t.size - 1)
    unfolding erase find
    size-erase t w =
        flip (erase_root z timeline k (root_of k t)).1 _ (t.size - 1) t.size
          (erase_root-IsRoot (root_of k t) (w.root_ok (root_index k))).1.1
