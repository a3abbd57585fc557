-- ===== src/Common/V8gHashTrie/Clash.antt =====
-- include/voxen/common/v8g_hash_trie_impl.hpp: `insert` of a key whose digit has an item of another key.
use voxen.Prelude.{
  is_none, ℕ, suc, ◌+◌, ◌≡◌, refl, sym, ap, ◌∙◌, Bool, true, false, Option, none, some, get_or, set,
  arith, ◌==◌, if◌then◌else◌, get_or-set_self,
}
use voxen.Prelude.Packed.{
  slot, slot-insert_at, slot-assign, slot-remove_at, insert_at, rank, packed-insert_at,
}
use voxen.Common.V8gFlatMap.{Item}
use voxen.Common.V8gHashTrie.{
  HashKey, Layout, Node, digit, shifted, find_in, match_item, promoted_child, promote, write_node,
  erase_item,
}
use voxen.Common.V8gHashTrie.Invariant.{IsNode}
use voxen.Common.V8gHashTrie.Digits.{consume-shifted, digit-shifted_lt}
use voxen.Common.V8gHashTrie.Entries.{read, find_in-read}
use voxen.Common.V8gHashTrie.Levels.{insert_node-Level, erase_item-Level, write_node-Level}
use voxen.Common.V8gHashTrie.Lookup.{find_in-update}
use voxen.Common.V8gHashTrie.Inserted.{fresh, IsInserted}

twice {ℓ} :
    {A : Type ℓ} (b : Bool) (x y s : A)
    → (if b then x else (if b then y else s)) ≡ (if b then x else s)
twice true x y s = refl
twice false x y s = refl

module _ {ℓ κ} {K : Type ℓ} ⦃o : HashKey K⦄ (V : Type κ) (z : Layout) (timeline : ℕ) (k : K) (v : V)
    (h c : ℕ) (P : K → Type 0) (n : Node (suc h) (Item K V)) (w : IsNode V (suc h) c P n)
    (p : P k) where
  abbrev bit : ℕ
  bit = digit (shifted c k)

  abbrev old : K → Option (Item K V)
  old l = find_in V (suc h) (shifted c l) l n

  abbrev InChild : K → Type 0
  InChild l = P l × (digit (shifted c l) ≡ digit (shifted c k))

  abbrev promoted : Item K V → ℕ × Node h (Item K V) → Node (suc h) (Item K V)
  promoted x m = write_node bit m (promote V z h bit x n)

  promoted-Level :
      (x : Item K V) (m : ℕ × Node h (Item K V))
      → get_or n.node_bitmap bit false ≡ false
      → get_or n.item_bitmap bit false ≡ true
      → IsNode V h (c + 6) InChild (promoted_child V z h n.consumed_hash_bits x).1
      → IsNode V h (c + 6) InChild m.1
      → IsNode V (suc h) c P (promoted x m)
  promoted-Level x m t u okc ok =
      write_node-Level V z (Node h (Item K V)) (IsNode V h (c + 6)) c P (promote V z h bit x n)
        (insert_node-Level V z (Node h (Item K V)) (IsNode V h (c + 6)) c P (erase_item z bit n)
          (erase_item-Level V z (Node h (Item K V)) (IsNode V h (c + 6)) c P n w bit
            (digit-shifted_lt c k) u)
          bit (digit-shifted_lt c k) (promoted_child V z h n.consumed_hash_bits x) t
          (get_or-set_self n.item_bitmap bit false false
            (omega (arith, digit-shifted_lt c k, w.items_packed.0)))
          okc)
        bit (digit-shifted_lt c k) m
        (get_or-set_self n.node_bitmap bit true false
          (omega (arith, digit-shifted_lt c k, w.nodes_packed.0)))
        ok

  promoted-slot :
      (x : Item K V) (m : ℕ × Node h (Item K V)) (j : ℕ)
      → get_or n.node_bitmap bit false ≡ false
      → slot (promoted x m).node_bitmap (promoted x m).nodes j
        ≡ (if bit == j then some m else slot n.node_bitmap n.nodes j)
  promoted-slot x m j t =
      slot-assign (set n.node_bitmap bit true)
        (insert_at (rank n.node_bitmap bit) (promoted_child V z h n.consumed_hash_bits x) n.nodes)
        (packed-insert_at n.node_bitmap n.nodes w.nodes_packed.1 bit
          (promoted_child V z h n.consumed_hash_bits x)
          (omega (arith, digit-shifted_lt c k, w.nodes_packed.0)) t)
        bit m j
        (get_or-set_self n.node_bitmap bit true false
          (omega (arith, digit-shifted_lt c k, w.nodes_packed.0)))
      ∙ rw
          (slot-insert_at n.node_bitmap n.nodes w.nodes_packed.1 bit
            (promoted_child V z h n.consumed_hash_bits x) j
            (omega (arith, digit-shifted_lt c k, w.nodes_packed.0)) t)
          (twice (bit == j) (some m) (some (promoted_child V z h n.consumed_hash_bits x))
            (slot n.node_bitmap n.nodes j))

  pub insert-clash :
      (x : Item K V)
      → get_or n.node_bitmap bit false ≡ false
      → get_or n.item_bitmap bit false ≡ true
      → slot n.item_bitmap n.items bit ≡ some x
      → IsNode V h (c + 6) InChild (promoted_child V z h c x).1
      → ((l : K)
          → find_in V h (shifted (c + 6) l) l (promoted_child V z h c x).1
            ≡ match_item V l (some x))
      → (r : (ℕ × Node h (Item K V)) × Bool)
      → IsInserted V z timeline k v h
          (c + 6)
          InChild
          (λ l. find_in V h (shifted (c + 6) l) l (promoted_child V z h c x).1)
          r
      → IsInserted V z timeline k v (suc h) c P old ((timeline, promoted x r.0), r.1)
  insert-clash x t u s okc one r a = record {
    stamped = refl;
    well_formed = w';
    found = λ l.
        find_in-update V h c k n (promoted x r.0) w.nodes_packed w.items_packed w'.nodes_packed
          w'.items_packed none (some r.0)
          (λ j. slot-remove_at n.item_bitmap n.items w.items_packed.1 bit j u)
          (λ j. promoted-slot x r.0 j t) (some (fresh V z timeline k v)) l
          (λ q.
            rw (s, consume-shifted c l)
              (a.found l
                ∙ ap (λ y. if o.equal k l then some (fresh V z timeline k v) else y) (one l)));
    grown =
        a.grown
        ∙ ap is_none (
            one k
            ∙ sym (
                find_in-read V h (shifted c k) k n w.nodes_packed w.items_packed
                ∙ ap (λ y. read V h (shifted c k) k y (slot n.node_bitmap n.nodes bit)) s));
  }
    where
      w' : IsNode V (suc h) c P (promoted x r.0)
      w' = promoted-Level x r.0 t u (rw (w.here) okc) a.well_formed
