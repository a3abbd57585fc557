-- ===== src/Common/V8gHashTrie.antt =====
-- include/voxen/common/v8g_hash_trie_impl.hpp: the versioned map indexed by 6-bit digits of hashes.
-- A node's type carries how many digits are left below it; nodes are values, so that the copy on
-- write only sets the version. A `bit` of a mask is given by its number.
mod Nodes
pub mod Invariant
pub mod Digits
pub mod Entries
pub mod Levels
pub mod Lookup
pub mod Promoted
pub mod Inserted
pub mod InsertCases
pub mod Clash
pub mod Insertion
pub mod Shrink
pub mod Erased
pub mod Contents
pub mod Erasure
pub mod Visit
pub mod Refines
pub mod Laws
pub mod Tests
pub use Nodes.*
use voxen.Prelude.{
  ℕ, zero, suc, ◌+◌, ◌-◌, ◌*◌, ◌/◌, ◌%◌, ◌^◌, ◌<◌, min, Bool, true, false, not, List, [], ◌∷◌,
  Option, none, some, ltb, ◌==◌, ◌≡◌, if◌then◌else◌, get_or, get_elem?, set, replicate, length,
}
use voxen.Prelude.Words.{Word, zeros, is_nonzero}
use voxen.Prelude.Packed.{rank, clear_lowest, insert_at, remove_at}
use voxen.Common.V8gFlatMap.{Item}

-- A key type (`CV8gUniqueHashableKey`): no two keys have the same 64-bit hash.
pub record HashKey {ℓ} (K : Type ℓ) : Type ℓ where
  pub hash : K → ℕ
  pub equal : K → K → Bool
  pub hash_small : (k : K) → hash k < 2 ^ 64
  pub hash_injective : (k l : K) → hash k ≡ hash l → k ≡ l
  pub equal_true : (k l : K) → equal k l ≡ true → k ≡ l
  pub equal_refl : (k : K) → equal k k ≡ true

-- A node with h digits left. With none left there are no nodes.
abbrev pub Node {ℓ} : ℕ → Type ℓ → Type ℓ
Node zero I = Unit
Node (suc h) I = NodeOf (Node h I) I

module _ {ℓ} (I : Type ℓ) (z : Layout) where
  pub allocate_node : (h : ℕ) → ℕ → Node h I
  allocate_node zero consumed = tt
  allocate_node (suc h) consumed = record {
    node_bitmap = zeros 64;
    nodes = [];
    item_bitmap = zeros 64;
    items = [];
    used_bytes = 0;
    capacity_bytes = initial_capacity z;
    consumed_hash_bits = consumed;
  }

  pub insert_item_in : (h : ℕ) → ℕ → I → Node h I → Node h I
  insert_item_in zero bit x n = n
  insert_item_in (suc h) bit x n = insert_item z bit x n

  -- What `tryShrinkChildNode` does: an empty child is dropped, and the only item of a child without
  -- nodes takes the child's place, if there is room for it.
  pub try_shrink : (h : ℕ) → ℕ → NodeOf (Node h I) I → NodeOf (Node h I) I
  try_shrink zero bit n = n
  try_shrink (suc h) bit n = elim (ref_node bit n) [
    | none ↦ n
    | some (version, child) ↦
        if is_nonzero child.node_bitmap
        then n
        else (if is_nonzero child.item_bitmap
            then (if ltb (n.capacity_bytes - n.used_bytes + z.node_size) z.item_size
                then n
                else (if is_nonzero (clear_lowest child.item_bitmap)
                    then n
                    else elim (get_elem? child.items 0) [
                      | none ↦ n
                      | some x ↦ insert_item z bit x (erase_node z bit n)
                    ]))
            else erase_node z bit n)
  ]

-- `hash << consumed`.
abbrev pub shifted {ℓ} : {K : Type ℓ} ⦃o : HashKey K⦄ → ℕ → K → ℕ
shifted ⦃o⦄ consumed k = o.hash k * 2 ^ consumed % 2 ^ 64

module _ {ℓ κ} {K : Type ℓ} ⦃o : HashKey K⦄ (V : Type κ) where
  abbrev pub match_item : K → Option (Item K V) → Option (Item K V)
  match_item k none = none
  match_item k (some x) = if o.equal x.key k then some x else none

  -- The loop of `find` below a root node.
  pub find_in : (h : ℕ) → ℕ → K → Node h (Item K V) → Option (Item K V)
  find_in zero hash_bits k n = none
  find_in (suc h) hash_bits k n =
      let bit = digit hash_bits in
      let in_child : Option (Item K V) = elim (ref_node bit n) [
        | none ↦ none
        | some (version, child) ↦ find_in h (consume hash_bits) k child
      ] in
      if get_or n.item_bitmap bit false
      then match_item k (ref_item bit n)
      else (if get_or n.node_bitmap bit false then in_child else none)

  module _ (z : Layout) where
    -- `promoteItemToNode`, for the item x of the bit: the new child, and the node with it.
    abbrev pub promoted_child : (h : ℕ) → ℕ → Item K V → ℕ × Node h (Item K V)
    promoted_child h consumed x = (
      x.version,
      insert_item_in (Item K V) z h (digit (shifted (consumed + 6) x.key)) x
          (allocate_node (Item K V) z h (consumed + 6)),
    )

    abbrev pub promote :
        (h : ℕ)
        → ℕ
        → Item K V
        → NodeOf (Node h (Item K V)) (Item K V)
        → NodeOf (Node h (Item K V)) (Item K V)
    promote h bit x n =
        insert_node z bit (promoted_child h n.consumed_hash_bits x) (erase_item z bit n)

    -- The loop of `insert` below a root node, on a `NodeItem`; with whether the size grows. The node
    -- is copied unless its version is the timeline already, and has it from then on.
    pub insert_in :
        (h timeline : ℕ) → K → V → ℕ → ℕ × Node h (Item K V) → (ℕ × Node h (Item K V)) × Bool
    unfolding insert_item_in allocate_node expanded
    insert_in zero timeline k v hash_bits ni = (ni, false)
    insert_in (suc h) timeline k v hash_bits (version, n) =
        let bit = digit hash_bits in
        let fresh : Item K V = record { version = timeline; key = k; value = v } in
        if get_or n.node_bitmap bit false
        then elim (ref_node bit n) [
          | none ↦ ((timeline, n), false)
          | some c ↦
              let (c', added) = insert_in h timeline k v (consume hash_bits) c in
              ((timeline, write_node bit c' n), added)
        ]
        else (if get_or n.item_bitmap bit false
            then elim (ref_item bit n) [
              | none ↦ ((timeline, n), false)
              | some x ↦
                  let (c', added) =
                    insert_in h timeline k v (consume hash_bits)
                      (promoted_child h n.consumed_hash_bits x) in
                  if o.equal x.key k
                  then (
                    (timeline, write_item bit (record x { version = timeline; value = v }) n),
                    false,
                  )
                  else ((timeline, write_node bit c' (promote h bit x n)), added)
            ]
            else ((timeline, insert_item z bit fresh (make_room z n)), true))

    -- `Node::erase`, with whether an item was erased.
    pub erase_in : (h timeline : ℕ) → K → ℕ → ℕ × Node h (Item K V) → (ℕ × Node h (Item K V)) × Bool
    unfolding try_shrink
    erase_in zero timeline k hash_bits ni = (ni, false)
    erase_in (suc h) timeline k hash_bits (version, n) =
        let bit = digit hash_bits in
        if get_or n.item_bitmap bit false
        then elim (ref_item bit n) [
          | none ↦ ((version, n), false)
          | some x ↦
              if o.equal x.key k
              then ((timeline, erase_item z bit n), true)
              else ((version, n), false)
        ]
        else (if get_or n.node_bitmap bit false
            then elim (ref_node bit n) [
              | none ↦ ((version, n), false)
              | some c ↦
                  let (c', erased) = erase_in h timeline k (consume hash_bits) c in
                  let n' = write_node bit c' n in
                  ((timeline, if erased then try_shrink (Item K V) z h bit n' else n'), erased)
            ]
            else ((version, n), false))

abbrev pub root_index {ℓ} : {K : Type ℓ} ⦃o : HashKey K⦄ → K → ℕ
root_index ⦃o⦄ k = o.hash k / 2 ^ 60

-- `m_root_nodes` and `m_size`. A root node may be null.
pub record Trie {ℓ κ} (K : Type ℓ) (V : Type κ) : Type (ℓ ⊔ κ) where
  pub size : ℕ
  pub root_nodes : List (ℕ × Option (Node 10 (Item K V)))

module _ {ℓ κ} {K : Type ℓ} ⦃o : HashKey K⦄ {V : Type κ} where
  abbrev pub root_of : K → Trie K V → ℕ × Option (Node 10 (Item K V))
  root_of k t = get_or t.root_nodes (root_index k) (0, none)

  abbrev pub find_root : K → Option (Node 10 (Item K V)) → Option (Item K V)
  find_root k none = none
  find_root k (some n) = find_in V 10 (shifted 4 k) k n

  pub find : K → Trie K V → Option (Item K V)
  unfolding find_in
  find k t = find_root k (root_of k t).1

  module _ (z : Layout) where
    -- The root node, allocated if it is null.
    abbrev pub start_root : ℕ → ℕ × Option (Node 10 (Item K V)) → ℕ × Node 10 (Item K V)
    start_root timeline (version, none) = (timeline, allocate_node (Item K V) z 10 4)
    start_root timeline (version, some n) = (version, n)

    pub insert : ℕ → K → V → Trie K V → Trie K V
    unfolding insert_in allocate_node
    insert timeline k v t =
        let ((version, n), added) =
          insert_in V z 10 timeline k v (shifted 4 k) (start_root timeline (root_of k t)) in
        record {
          size = if added then suc t.size else t.size;
          root_nodes = set t.root_nodes (root_index k) (version, some n);
        }

    abbrev pub erase_root :
        ℕ → K → ℕ × Option (Node 10 (Item K V)) → (ℕ × Option (Node 10 (Item K V))) × Bool
    erase_root timeline k (version, none) = ((version, none), false)
    erase_root timeline k (version, some n) =
        let ((version', n'), erased) = erase_in V z 10 timeline k (shifted 4 k) (version, n) in
        ((version', some n'), erased)

    pub erase : ℕ → K → Trie K V → Trie K V
    unfolding erase_in
    erase timeline k t =
        let (root, erased) = erase_root timeline k (root_of k t) in
        record {
          size = if erased then t.size - 1 else t.size;
          root_nodes = set t.root_nodes (root_index k) root;
        }

pub empty {ℓ κ} : {K : Type ℓ} {V : Type κ} → Trie K V
empty = record { size = 0; root_nodes = replicate 16 (0, none) }
