-- ===== src/Common/V8gHashTrie/Visit/NextItem.antt =====
-- include/voxen/common/v8g_hash_trie_impl.hpp: `findNextItem` at one node.
use voxen.Prelude.{
  ℕ, zero, suc, ◌+◌, ◌≡◌, refl, sym, ap, ◌∙◌, false, Option, none, some, get_or, arith, Bool-cases,
  inl, inr, if◌then◌else◌,
}
use voxen.Prelude.Packed.{slot, slot_clear}
use voxen.Common.V8gFlatMap.{Item}
use voxen.Common.V8gHashTrie.{HashKey, Node, digit, consume, shifted, ref_node, ref_item}
use voxen.Common.V8gHashTrie.Invariant.{IsNode}
use voxen.Common.V8gHashTrie.Digits.{consume-shifted}
use voxen.Common.V8gHashTrie.Entries.{ref-slot}
use voxen.Common.V8gHashTrie.Visit.{
  list_items, or_else, first_entry, find_first_item, find_next_item, skip, after_hash,
}
use voxen.Common.V8gHashTrie.Visit.Items.{node-IsEntries, list_items-Rising}
use voxen.Common.V8gHashTrie.Visit.First.{find_first_item-head}
use voxen.Common.V8gHashTrie.Visit.Next.{next_in, in_node, entries-next}

module _ {ℓ κ} {K : Type ℓ} ⦃o : HashKey K⦄ {V : Type κ} where
  module _ (h c : ℕ) (P : K → Type 0) (n : Node (suc h) (Item K V)) (w : IsNode V (suc h) c P n)
      (k : K) where
    abbrev bit : ℕ
    bit = digit (shifted c k)

    abbrev later : Option (Item K V)
    later =
        first_entry (find_first_item h) (skip (suc bit) n.node_bitmap n.nodes).0
          (skip (suc bit) n.item_bitmap n.items).0 (skip (suc bit) n.node_bitmap n.nodes).1
          (skip (suc bit) n.item_bitmap n.items).1

    abbrev child_of : Option (ℕ × Node h (Item K V)) → Option (Item K V)
    child_of m = elim m [
      | none ↦ none
      | some (version, child) ↦ find_next_item h (consume (shifted c k)) child
    ]

    abbrev child_part : Option (Item K V)
    child_part = child_of (ref_node bit n)

    next-child :
        ((m : ℕ × Node h (Item K V))
          → slot n.node_bitmap n.nodes bit ≡ some m
          → find_next_item h (consume (shifted c k)) m.1 ≡ next_in (c + 6) k (list_items h m.1))
        → (if get_or n.node_bitmap bit false then child_part else none)
          ≡ in_node c 0 k h (slot n.node_bitmap n.nodes bit)
    next-child below = elim (Bool-cases (get_or n.node_bitmap bit false)) [
      | inl t ↦
          let (m, r, s) = ref-slot n.node_bitmap n.nodes w.nodes_packed bit t in
          ap (λ b. if b then child_part else none) t
          ∙ ap child_of r
          ∙ below m s
          ∙ sym (ap (in_node c 0 k h) s)
      | inr t ↦ rw (t, slot_clear n.node_bitmap n.nodes bit t) refl
    ]

    next-item :
        (if get_or n.item_bitmap bit false
          then after_hash n.consumed_hash_bits (shifted c k) (ref_item bit n)
          else none)
        ≡ after_hash c (shifted c k) (slot n.item_bitmap n.items bit)
    next-item = elim (Bool-cases (get_or n.item_bitmap bit false)) [
      | inl t ↦
          let (x, r, s) = ref-slot n.item_bitmap n.items w.items_packed bit t in
          rw (t, r, s, w.here) refl
      | inr t ↦ rw (t, slot_clear n.item_bitmap n.items bit t) refl
    ]

    next-step :
        ((m : ℕ × Node h (Item K V))
          → slot n.node_bitmap n.nodes bit ≡ some m
          → find_next_item h (consume (shifted c k)) m.1 ≡ next_in (c + 6) k (list_items h m.1))
        → find_next_item (suc h) (shifted c k) n ≡ next_in c k (list_items (suc h) n)
    unfolding find_next_item list_items
    next-step below =
        ap
          (λ y. or_else y (
            or_else
              (if get_or n.item_bitmap bit false
                then after_hash n.consumed_hash_bits (shifted c k) (ref_item bit n)
                else none)
              later))
          (next-child below)
        ∙ ap (λ y. or_else (in_node c 0 k h (slot n.node_bitmap n.nodes bit)) (or_else y later))
            next-item
        ∙ sym (
            entries-next h c 0 bit P n.node_bitmap n.item_bitmap n.nodes n.items
              (node-IsEntries V h c P n (list_items-Rising V h (c + 6)) w) k (omega arith)
              (λ q m e.
                find_first_item-head h (c + 6) (λ l. P l × (digit (shifted c l) ≡ q)) m.1
                  (w.node_ok q m e)))

  pub find_next_item-next :
      (h c : ℕ) (P : K → Type 0) (n : Node h (Item K V)) (k : K)
      → IsNode V h c P n
      → find_next_item h (shifted c k) n ≡ next_in c k (list_items h n)
  find_next_item-next zero c P n k w = absurd (ground (arith, w.0))
  find_next_item-next (suc h) c P n k w = next-step h c P n w k (λ m e.
      ap (λ y. find_next_item h y m.1) (consume-shifted c k)
      ∙ find_next_item-next h (c + 6) (λ l. P l × (digit (shifted c l) ≡ digit (shifted c k))) m.1 k
          (w.node_ok (digit (shifted c k)) m e))
