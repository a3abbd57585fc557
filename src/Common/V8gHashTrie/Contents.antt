-- ===== src/Common/V8gHashTrie/Contents.antt =====
-- include/voxen/common/v8g_hash_trie_impl.hpp: the trie as a map.
use voxen.Prelude.{
  is_none, ℕ, suc, ◌<◌, ◌≡◌, refl, sym, ap, ◌∙◌, subst, false, Option, none, some, length, get_or,
  set, arith, ◌==◌, Bool-cases, inl, inr, ==_ne, ==→eq, if◌then◌else◌, length-set, get_or-set_self,
  get_or-set_ne,
}
use voxen.Common.V8gFlatMap.{Item}
use voxen.Common.V8gHashTrie.{HashKey, Layout, Node, shifted, find_in, insert_in}
use voxen.Common.V8gHashTrie.Invariant.{IsNode}
use voxen.Common.V8gHashTrie.{Trie, find, insert, root_of, find_root, root_index, start_root}
use voxen.Common.V8gHashTrie.Digits.{IsTold_root}
use voxen.Common.V8gHashTrie.Inserted.{fresh, IsInserted}
use voxen.Common.V8gHashTrie.Insertion.{insert_in-IsInserted}
use voxen.Common.V8gHashTrie.Promoted.{allocate_node-Level, find_in-allocate_node}

pub root_index-lt {ℓ} : {K : Type ℓ} ⦃o : HashKey K⦄ (k : K) → root_index k < 16
root_index-lt ⦃o⦄ k = omega (arith, o.hash_small k)

equal_roots {ℓ} :
    {K : Type ℓ} ⦃o : HashKey K⦄ (k l : K)
    → (root_index k == root_index l) ≡ false
    → o.equal k l ≡ false
equal_roots ⦃o⦄ k l e = elim (Bool-cases (o.equal k l)) [
  | inl t ↦ absurd (==_ne _ _ e (ap (λ x. root_index x) (o.equal_true k l t)))
  | inr t ↦ t
]

module _ {ℓ κ} {K : Type ℓ} ⦃o : HashKey K⦄ {V : Type κ} where
  abbrev pub IsRoot : ℕ → ℕ × Option (Node 10 (Item K V)) → Type (ℓ ⊔ κ)
  IsRoot r (version, none) = Unit
  IsRoot r (version, some n) = IsNode V 10 4 (λ k. root_index k ≡ r) n

  -- Sixteen root nodes, each null or well-formed for the keys of its index.
  pub record IsTrie (t : Trie K V) : Type (ℓ ⊔ κ) where
    pub sixteen : length t.root_nodes ≡ 16
    pub root_ok : (r : ℕ) → IsRoot r (get_or t.root_nodes r (0, none))

  pub IsTrie-set :
      (t : Trie K V) (size r : ℕ) (root : ℕ × Option (Node 10 (Item K V)))
      → IsTrie t
      → IsRoot r root
      → r < 16
      → IsTrie (record { size = size; root_nodes = set t.root_nodes r root })
  IsTrie-set t size r root w ok h = record {
    sixteen = length-set t.root_nodes r root ∙ w.sixteen;
    root_ok = λ j. elim (Bool-cases (r == j)) [
      | inl q ↦
          subst (λ i. IsRoot i (get_or (set t.root_nodes r root) i (0, none))) (==→eq r j q)
            (subst (IsRoot r)
              (sym (get_or-set_self t.root_nodes r root (0, none) (omega (arith, h, w.sixteen))))
              ok)
      | inr q ↦
          subst (IsRoot j) (sym (get_or-set_ne t.root_nodes r j root (0, none) (==_ne r j q)))
            (w.root_ok j)
    ];
  }

  -- `find` after a change of the root node of k.
  pub find-set :
      (t : Trie K V) (size : ℕ) (k : K) (root : ℕ × Option (Node 10 (Item K V)))
      (new : Option (Item K V))
      → IsTrie t
      → ((l : K) → find_root l root.1 ≡ (if o.equal k l then new else find_root l (root_of k t).1))
      → (l : K)
      → find l (record { size = size; root_nodes = set t.root_nodes (root_index k) root })
        ≡ (if o.equal k l then new else find l t)
  unfolding find
  find-set t size k root new w at l = elim (Bool-cases (root_index k == root_index l)) [
    | inl q ↦
        ap (λ y. find_root l y.1)
          (ap (λ i. get_or (set t.root_nodes (root_index k) root) i (0, none)) (sym (==→eq _ _ q))
            ∙ get_or-set_self t.root_nodes (root_index k) root (0, none)
                (omega (arith, root_index-lt k, w.sixteen)))
        ∙ at l
        ∙ ap (λ i. if o.equal k l then new else find_root l (get_or t.root_nodes i (0, none)).1)
            (==→eq _ _ q)
    | inr q ↦
        ap (λ y. find_root l y.1)
          (get_or-set_ne t.root_nodes (root_index k) (root_index l) root (0, none) (==_ne _ _ q))
        ∙ ap (λ b. if b then new else find l t) (sym (equal_roots k l q))
  ]

  module _ (z : Layout) where
    pub start_root-IsNode :
        (timeline r : ℕ) (root : ℕ × Option (Node 10 (Item K V)))
        → IsRoot r root
        → IsNode V 10 4 (λ k. root_index k ≡ r) (start_root z timeline root).1
          × ((l : K)
              → find_in V 10 (shifted 4 l) l (start_root z timeline root).1 ≡ find_root l root.1)
    start_root-IsNode timeline r (version, none) w = (
      allocate_node-Level V z 9 4 (λ k. root_index k ≡ r),
      λ l. find_in-allocate_node V z 9 4 (shifted 4 l) l,
    )
    start_root-IsNode timeline r (version, some n) w = (w, λ l. refl)

    insert_root :
        (timeline : ℕ) (k : K) (v : V) (t : Trie K V)
        → IsTrie t
        → IsInserted V z timeline k v 10 4
            (λ l. root_index l ≡ root_index k)
            (λ l. find_in V 10 (shifted 4 l) l (start_root z timeline (root_of k t)).1)
            (insert_in V z 10 timeline k v (shifted 4 k) (start_root z timeline (root_of k t)))
    insert_root timeline k v t w =
        insert_in-IsInserted V z timeline k v 10 4 (λ l. root_index l ≡ root_index k) refl
          (IsTold_root (root_index k)) refl (start_root z timeline (root_of k t))
          (start_root-IsNode timeline (root_index k) (root_of k t) (w.root_ok (root_index k))).0

    pub insert-IsTrie :
        (timeline : ℕ) (k : K) (v : V) (t : Trie K V) → IsTrie t → IsTrie (insert z timeline k v t)
    unfolding insert
    insert-IsTrie timeline k v t w =
        IsTrie-set t _ (root_index k) _ w (insert_root timeline k v t w).well_formed
          (root_index-lt k)

    pub find-insert :
        (timeline : ℕ) (k : K) (v : V) (t : Trie K V) (l : K)
        → IsTrie t
        → find l (insert z timeline k v t) ≡ (
            if o.equal k l
            then some (record { version = timeline; key = k; value = v })
            else find l t)
    unfolding insert
    find-insert timeline k v t l w =
        find-set t _ k _ (some (fresh V z timeline k v)) w
          (λ y.
            (insert_root timeline k v t w).found y
            ∙ ap (λ u. if o.equal k y then some (fresh V z timeline k v) else u)
                ((start_root-IsNode timeline (root_index k) (root_of k t)
                    (w.root_ok (root_index k))).1
                  y))
          l

    pub size-insert :
        (timeline : ℕ) (k : K) (v : V) (t : Trie K V)
        → IsTrie t
        → (insert z timeline k v t).size ≡ (if is_none (find k t) then suc t.size else t.size)
    unfolding insert find
    size-insert timeline k v t w =
        ap (λ b. if b then suc t.size else t.size)
          ((insert_root timeline k v t w).grown
            ∙ ap is_none (
                (start_root-IsNode timeline (root_index k) (root_of k t)
                    (w.root_ok (root_index k))).1
                  k))
