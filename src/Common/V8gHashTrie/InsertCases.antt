-- ===== src/Common/V8gHashTrie/InsertCases.antt =====
-- include/voxen/common/v8g_hash_trie_impl.hpp: the cases of `insert` below a root node.
use voxen.Prelude.{
  is_none, ℕ, suc, ◌+◌, ◌≡◌, refl, sym, ap, ◌∙◌, Bool, true, false, Option, none, some, get_or,
  arith, Bool-cases, inl, inr, if◌then◌else◌,
}
use voxen.Prelude.Packed.{slot, slot_clear, slot-insert_at, slot-assign}
use voxen.Common.V8gFlatMap.{Item}
use voxen.Common.V8gHashTrie.{
  HashKey, Layout, Node, digit, shifted, find_in, insert_item, write_node, write_item,
}
use voxen.Common.V8gHashTrie.Invariant.{IsNode}
use voxen.Common.V8gHashTrie.Digits.{consume-shifted, digit-shifted_lt}
use voxen.Common.V8gHashTrie.Entries.{read, find_in-read}
use voxen.Common.V8gHashTrie.Levels.{insert_item-Level, write_node-Level, write_item-Level}
use voxen.Common.V8gHashTrie.Lookup.{same_at, find_in-update}
use voxen.Common.V8gHashTrie.Inserted.{fresh, revalued, IsInserted}

module _ {ℓ κ} {K : Type ℓ} ⦃o : HashKey K⦄ (V : Type κ) (z : Layout) (timeline : ℕ) (k : K) (v : V)
    (h c : ℕ) (P : K → Type 0) (n : Node (suc h) (Item K V)) (w : IsNode V (suc h) c P n)
    (p : P k) where
  abbrev bit : ℕ
  bit = digit (shifted c k)

  abbrev pub old : K → Option (Item K V)
  old l = find_in V (suc h) (shifted c l) l n

  abbrev pub InChild : K → Type 0
  InChild l = P l × (digit (shifted c l) ≡ digit (shifted c k))

  pub insert-child :
      (m : ℕ × Node h (Item K V))
      → get_or n.node_bitmap bit false ≡ true
      → slot n.node_bitmap n.nodes bit ≡ some m
      → (r : (ℕ × Node h (Item K V)) × Bool)
      → IsInserted V z timeline k v h (c + 6) InChild (λ l. find_in V h (shifted (c + 6) l) l m.1) r
      → IsInserted V z timeline k v (suc h) c P old ((timeline, write_node bit r.0 n), r.1)
  insert-child m t s r a = record {
    stamped = refl;
    well_formed = w';
    found = λ l.
        find_in-update V h c k n (write_node bit r.0 n) w.nodes_packed w.items_packed
          w'.nodes_packed w.items_packed (slot n.item_bitmap n.items bit) (some r.0)
          (λ j. same_at (slot n.item_bitmap n.items) bit j)
          (λ j. slot-assign n.node_bitmap n.nodes w.nodes_packed.1 bit r.0 j t)
          (some (fresh V z timeline k v)) l
          (λ q.
            rw (slot_clear n.item_bitmap n.items bit (w.apart bit t), s, consume-shifted c l)
              (a.found l));
    grown =
        a.grown
        ∙ ap is_none (
            sym (
              find_in-read V h (shifted c k) k n w.nodes_packed w.items_packed
              ∙ rw (slot_clear n.item_bitmap n.items bit (w.apart bit t), s, consume-shifted c k)
                  refl));
  }
    where
      w' : IsNode V (suc h) c P (write_node bit r.0 n)
      w' =
          write_node-Level V z (Node h (Item K V)) (IsNode V h (c + 6)) c P n w bit
            (digit-shifted_lt c k) r.0 t a.well_formed

  pub insert-same :
      (x : Item K V)
      → get_or n.item_bitmap bit false ≡ true
      → slot n.item_bitmap n.items bit ≡ some x
      → o.equal x.key k ≡ true
      → IsInserted V z timeline k v
          (suc h)
          c
          P
          old
          ((timeline, write_item bit (revalued V z timeline k v x) n), false)
  insert-same x u s q = record {
    stamped = refl;
    well_formed = w';
    found = λ l.
        find_in-update V h c k n (write_item bit (revalued V z timeline k v x) n) w.nodes_packed
          w.items_packed w.nodes_packed w'.items_packed (some (revalued V z timeline k v x))
          (slot n.node_bitmap n.nodes bit)
          (λ j.
            slot-assign n.item_bitmap n.items w.items_packed.1 bit (revalued V z timeline k v x) j
              u)
          (λ j. same_at (slot n.node_bitmap n.nodes) bit j) (some (fresh V z timeline k v)) l
          (λ _. at l);
    grown = ap is_none (
        sym (
          find_in-read V h (shifted c k) k n w.nodes_packed w.items_packed
          ∙ ap (λ y. read V h (shifted c k) k y (slot n.node_bitmap n.nodes bit)) s
          ∙ ap (λ b. if b then some x else none) q));
  }
    where
      e : x.key ≡ k
      e = o.equal_true x.key k q

      w' : IsNode V (suc h) c P (write_item bit (revalued V z timeline k v x) n)
      w' =
          write_item-Level V z (Node h (Item K V)) (IsNode V h (c + 6)) c P n w bit
            (digit-shifted_lt c k) (revalued V z timeline k v x) u (w.item_ok bit x s).0
            (w.item_ok bit x s).1

      at :
          (l : K)
          → read V h
              (shifted c l)
              l
              (some (revalued V z timeline k v x))
              (slot n.node_bitmap n.nodes bit)
            ≡ (if o.equal k l
                then some (fresh V z timeline k v)
                else read V h
                    (shifted c l)
                    l
                    (slot n.item_bitmap n.items bit)
                    (slot n.node_bitmap n.nodes bit))
      at l = elim (Bool-cases (o.equal k l)) [
        | inl t ↦ rw (s, e, t) refl
        | inr t ↦ rw (s, e, t) refl
      ]

  pub insert-free :
      get_or n.node_bitmap bit false ≡ false
      → get_or n.item_bitmap bit false ≡ false
      → IsInserted V z timeline k v
          (suc h)
          c
          P
          old
          ((timeline, insert_item z bit (fresh V z timeline k v) n), true)
  insert-free t u = record {
    stamped = refl;
    well_formed = w';
    found = λ l.
        find_in-update V h c k n (insert_item z bit (fresh V z timeline k v) n) w.nodes_packed
          w.items_packed w.nodes_packed w'.items_packed (some (fresh V z timeline k v))
          (slot n.node_bitmap n.nodes bit)
          (λ j.
            slot-insert_at n.item_bitmap n.items w.items_packed.1 bit (fresh V z timeline k v) j
              (omega (arith, digit-shifted_lt c k, w.items_packed.0)) u)
          (λ j. same_at (slot n.node_bitmap n.nodes) bit j) (some (fresh V z timeline k v)) l
          (λ _.
            rw (slot_clear n.item_bitmap n.items bit u, slot_clear n.node_bitmap n.nodes bit t)
              refl);
    grown = ap is_none (
        sym (
          find_in-read V h (shifted c k) k n w.nodes_packed w.items_packed
          ∙ ap (λ y. read V h (shifted c k) k y (slot n.node_bitmap n.nodes bit))
              (slot_clear n.item_bitmap n.items bit u)
          ∙ ap (λ y. read V h (shifted c k) k none y) (slot_clear n.node_bitmap n.nodes bit t)));
  }
    where
      w' : IsNode V (suc h) c P (insert_item z bit (fresh V z timeline k v) n)
      w' =
          insert_item-Level V z (Node h (Item K V)) (IsNode V h (c + 6)) c P n w bit
            (digit-shifted_lt c k) (fresh V z timeline k v) t u p refl
