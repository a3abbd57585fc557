-- ===== src/Common/V8gHashTrie/Promoted.antt =====
-- include/voxen/common/v8g_hash_trie_impl.hpp: new nodes, and the node of a promoted item.
use voxen.Prelude.{
  ℕ, zero, suc, ◌+◌, ◌≡◌, refl, sym, ap, ◌∙◌, false, none, some, List, [], get_or, arith, ◌==◌,
  if◌then◌else◌,
}
use voxen.Prelude.Words.{zeros}
use voxen.Prelude.Packed.{slot, slot-insert_at}
use voxen.Common.V8gFlatMap.{Item}
use voxen.Common.V8gHashTrie.{
  HashKey, Layout, Node, digit, shifted, find_in, match_item, allocate_node, insert_item_in,
  promoted_child,
}
use voxen.Common.V8gHashTrie.Invariant.{IsNode}
use voxen.Common.V8gHashTrie.Digits.{digit-shifted_lt}
use voxen.Common.V8gHashTrie.Entries.{find_in-read}
use voxen.Common.V8gHashTrie.Levels.{insert_item-Level}
use voxen.Common.V8gHashTrie.Lookup.{same_at, find_in-update}

slot-zeros {ℓ} : {A : Type ℓ} (n i : ℕ) (xs : List A) → slot (zeros n) xs i ≡ none
slot-zeros zero i xs = refl
slot-zeros (suc n) zero xs = refl
slot-zeros (suc n) (suc i) xs = slot-zeros n i xs

get_or-zeros : (n i : ℕ) → get_or (zeros n) i false ≡ false
get_or-zeros zero i = refl
get_or-zeros (suc n) zero = refl
get_or-zeros (suc n) (suc i) = get_or-zeros n i

module _ {ℓ κ} {K : Type ℓ} ⦃o : HashKey K⦄ (V : Type κ) (z : Layout) where
  pub allocate_node-Level :
      (h c : ℕ) (P : K → Type 0) → IsNode V (suc h) c P (allocate_node (Item K V) z (suc h) c)
  unfolding allocate_node
  allocate_node-Level h c P = record {
    here = refl;
    nodes_packed = (refl, refl);
    items_packed = (refl, refl);
    apart = λ i e. get_or-zeros 64 i;
    item_ok = λ i x e. absurd (ground (arith, sym (slot-zeros 64 i []) ∙ e));
    node_ok = λ i x e. absurd (ground (arith, sym (slot-zeros 64 i []) ∙ e));
  }

  pub promoted_child-IsNode :
      (h c : ℕ) (P : K → Type 0) (x : Item K V)
      → P x.key
      → IsNode V (suc h) (c + 6) P (promoted_child V z (suc h) c x).1
  unfolding allocate_node insert_item_in
  promoted_child-IsNode h c P x p =
      insert_item-Level V z (Node h (Item K V)) (IsNode V h (c + 6 + 6)) (c + 6) P
        (allocate_node (Item K V) z (suc h) (c + 6)) (allocate_node-Level h (c + 6) P)
        (digit (shifted (c + 6) x.key)) (digit-shifted_lt (c + 6) x.key) x
        (get_or-zeros 64 (digit (shifted (c + 6) x.key)))
        (get_or-zeros 64 (digit (shifted (c + 6) x.key))) p refl

  pub find_in-allocate_node :
      (h c hash_bits : ℕ) (l : K)
      → find_in V (suc h) hash_bits l (allocate_node (Item K V) z (suc h) c) ≡ none
  unfolding allocate_node
  find_in-allocate_node h c hash_bits l =
      find_in-read V h hash_bits l (allocate_node (Item K V) z (suc h) c) (refl, refl) (refl, refl)
      ∙ rw
          (
            slot-zeros {A = Item K V} 64 (digit hash_bits) [],
            slot-zeros {A = ℕ × Node h (Item K V)} 64 (digit hash_bits) [],
          )
          refl

  pub find_in-promoted_child :
      (h c : ℕ) (x : Item K V) (l : K)
      → find_in V (suc h) (shifted (c + 6) l) l (promoted_child V z (suc h) c x).1
        ≡ match_item V l (some x)
  unfolding allocate_node insert_item_in
  find_in-promoted_child h c x l =
      find_in-update V h (c + 6) x.key (allocate_node (Item K V) z (suc h) (c + 6))
        (promoted_child V z (suc h) c x).1 (refl, refl) (refl, refl)
        (promoted_child-IsNode h c (λ k. Unit) x tt).nodes_packed
        (promoted_child-IsNode h c (λ k. Unit) x tt).items_packed (some x) none
        (λ j.
          slot-insert_at (zeros 64) [] refl (digit (shifted (c + 6) x.key)) x j
            (digit-shifted_lt (c + 6) x.key) (get_or-zeros 64 (digit (shifted (c + 6) x.key))))
        (λ j.
          same_at (slot (zeros 64) []) (digit (shifted (c + 6) x.key)) j
          ∙ ap
              (λ y.
                if digit (shifted (c + 6) x.key) == j
                then y
                else slot {A = ℕ × Node h (Item K V)} (zeros 64) [] j)
              (slot-zeros 64 (digit (shifted (c + 6) x.key)) []))
        (some x) l
        (λ q.
          rw
            (
              slot-zeros {A = Item K V} 64 (digit (shifted (c + 6) x.key)) [],
              slot-zeros {A = ℕ × Node h (Item K V)} 64 (digit (shifted (c + 6) x.key)) [],
            )
            refl)
      ∙ ap (λ y. if o.equal x.key l then some x else y)
          (find_in-allocate_node h (c + 6) (shifted (c + 6) l) l)
