-- ===== src/Common/V8gHashTrie/Inserted.antt =====
-- include/voxen/common/v8g_hash_trie_impl.hpp: `insert` below a root node.
use voxen.Prelude.{
  is_none, ℕ, suc, ◌≡◌, refl, Bool, true, false, Option, some, get_or, if◌then◌else◌,
}
use voxen.Common.V8gFlatMap.{Item}
use voxen.Common.V8gHashTrie.{
  HashKey, Layout, Node, digit, consume, shifted, find_in, insert_item, promoted_child, insert_in,
  promote, write_node, write_item, ref_node, ref_item, make_room,
}
use voxen.Common.V8gHashTrie.Invariant.{IsNode}

module _ {ℓ κ} {K : Type ℓ} ⦃o : HashKey K⦄ (V : Type κ) (z : Layout) (timeline : ℕ) (k : K)
    (v : V) where
  abbrev pub fresh : Item K V
  fresh = record { version = timeline; key = k; value = v }

  abbrev pub revalued : Item K V → Item K V
  revalued x = record x { version = timeline; value = v }

  -- What `insert` promises of a node in which `find` gave `old`.
  pub record IsInserted (h c : ℕ) (P : K → Type 0) (old : K → Option (Item K V))
      (r : (ℕ × Node h (Item K V)) × Bool) : Type (ℓ ⊔ κ) where
    pub stamped : r.0.0 ≡ timeline
    pub well_formed : IsNode V h c P r.0.1
    pub found :
        (l : K) → find_in V h (shifted c l) l r.0.1 ≡ (if o.equal k l then some fresh else old l)
    pub grown : r.1 ≡ is_none (old k)

  module _ (h c version : ℕ) (n : Node (suc h) (Item K V)) where
    pub insert_in-child :
        (m : ℕ × Node h (Item K V))
        → get_or n.node_bitmap (digit (shifted c k)) false ≡ true
        → ref_node (digit (shifted c k)) n ≡ some m
        → insert_in V z (suc h) timeline k v (shifted c k) (version, n) ≡ (
            let r = insert_in V z h timeline k v (consume (shifted c k)) m in
            ((timeline, write_node (digit (shifted c k)) r.0 n), r.1))
    unfolding insert_in
    insert_in-child m t e = rw (t, e) refl

    pub insert_in-same :
        (x : Item K V)
        → get_or n.node_bitmap (digit (shifted c k)) false ≡ false
        → get_or n.item_bitmap (digit (shifted c k)) false ≡ true
        → ref_item (digit (shifted c k)) n ≡ some x
        → o.equal x.key k ≡ true
        → insert_in V z (suc h) timeline k v (shifted c k) (version, n)
          ≡ ((timeline, write_item (digit (shifted c k)) (revalued x) n), false)
    unfolding insert_in
    insert_in-same x t u e q = rw (t, u, e, q) refl

    pub insert_in-clash :
        (x : Item K V)
        → get_or n.node_bitmap (digit (shifted c k)) false ≡ false
        → get_or n.item_bitmap (digit (shifted c k)) false ≡ true
        → ref_item (digit (shifted c k)) n ≡ some x
        → o.equal x.key k ≡ false
        → n.consumed_hash_bits ≡ c
        → insert_in V z (suc h) timeline k v (shifted c k) (version, n) ≡ (
            let r =
              insert_in V z h timeline k v (consume (shifted c k)) (promoted_child V z h c x) in
            (
              (
                timeline,
                write_node (digit (shifted c k)) r.0 (promote V z h (digit (shifted c k)) x n),
              ),
              r.1,
            ))
    unfolding insert_in
    insert_in-clash x t u e q d = rw (t, u, e, q, d) refl

    pub insert_in-free :
        get_or n.node_bitmap (digit (shifted c k)) false ≡ false
        → get_or n.item_bitmap (digit (shifted c k)) false ≡ false
        → insert_in V z (suc h) timeline k v (shifted c k) (version, n)
          ≡ ((timeline, insert_item z (digit (shifted c k)) fresh (make_room z n)), true)
    unfolding insert_in
    insert_in-free t u = rw (t, u) refl
