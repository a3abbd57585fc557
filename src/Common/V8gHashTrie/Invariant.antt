-- ===== src/Common/V8gHashTrie/Invariant.antt =====
-- include/voxen/common/v8g_hash_trie_impl.hpp: well-formed nodes, and the digits of hashes.
use voxen.Prelude.{ℕ, zero, suc, ◌+◌, ◌≡◌, true, false, some, List, length, get_or}
use voxen.Prelude.Words.{Word, popcount}
use voxen.Prelude.Packed.{slot}
use voxen.Common.V8gFlatMap.{Item}
use voxen.Common.V8gHashTrie.{HashKey, Node, NodeOf, digit, shifted}

-- A mask of 64 bits and the array that it packs.
abbrev pub IsPacked {ℓ} : {A : Type ℓ} → Word → List A → Type 0
IsPacked w xs = (length w ≡ 64) × (popcount w ≡ length xs)

module _ {ℓ κ} {K : Type ℓ} ⦃o : HashKey K⦄ (V : Type κ) where
  -- A node below which the keys of P belong: both arrays are packed, no bit is in both masks, the
  -- items of P stand at the bit of their digit, and the children are for the keys of P with it.
  pub record Level (C : Type (ℓ ⊔ κ)) (IsChild : (K → Type 0) → C → Type (ℓ ⊔ κ)) (consumed : ℕ)
      (P : K → Type 0) (n : NodeOf C (Item K V)) : Type (ℓ ⊔ κ) where
    pub here : n.consumed_hash_bits ≡ consumed
    pub nodes_packed : IsPacked n.node_bitmap n.nodes
    pub items_packed : IsPacked n.item_bitmap n.items
    pub apart : (i : ℕ) → get_or n.node_bitmap i false ≡ true → get_or n.item_bitmap i false ≡ false
    pub item_ok :
        (i : ℕ) (x : Item K V)
        → slot n.item_bitmap n.items i ≡ some x
        → P x.key × (digit (shifted consumed x.key) ≡ i)
    pub node_ok :
        (i : ℕ) (c : ℕ × C)
        → slot n.node_bitmap n.nodes i ≡ some c
        → IsChild (λ k. P k × (digit (shifted consumed k) ≡ i)) c.1

  abbrev pub IsNode : (h : ℕ) → ℕ → (K → Type 0) → Node h (Item K V) → Type (ℓ ⊔ κ)
  IsNode zero consumed P n = (true ≡ false) × Unit {ℓ ⊔ κ}
  IsNode (suc h) consumed P n = Level (Node h (Item K V)) (IsNode h (consumed + 6)) consumed P n
