-- ===== src/Common/V8gHashTrie/Nodes.antt =====
-- include/voxen/common/v8g_hash_trie_impl.hpp: the fields of a node, and the changes of one node.
use voxen.Prelude.{
  ℕ, ◌+◌, ◌-◌, ◌*◌, ◌/◌, ◌%◌, ◌^◌, min, true, false, List, Option, ltb, ◌==◌, if◌then◌else◌,
  get_elem?, set,
}
use voxen.Prelude.Words.{Word}
use voxen.Prelude.Packed.{rank, insert_at, remove_at}

-- The fields of a node with children of type C and items of type I. The two arrays grow towards
-- each other in the node's bytes.
pub record NodeOf {ℓ} (C I : Type ℓ) : Type ℓ where
  pub node_bitmap : Word
  pub nodes : List (ℕ × C)
  pub item_bitmap : Word
  pub items : List I
  pub used_bytes : ℕ
  pub capacity_bytes : ℕ
  pub consumed_hash_bits : ℕ

-- The first digit of the hash bits that are left, and the bits after it.
abbrev pub digit : ℕ → ℕ
digit hash_bits = hash_bits / 2 ^ 58

abbrev pub consume : ℕ → ℕ
consume hash_bits = hash_bits * 2 ^ 6 % 2 ^ 64

-- `sizeof(NodeItem)`, `sizeof(Item)` and `alignof(Item)`.
pub record Layout : Type 0 where
  pub node_size : ℕ
  pub item_size : ℕ
  pub item_align : ℕ

abbrev pub initial_capacity : Layout → ℕ
initial_capacity z = 2 * z.item_size

abbrev pub max_capacity : Layout → ℕ
max_capacity z = 64 * z.item_size

-- The capacity that `expandNode` allocates.
unfoldable pub expanded : Layout → ℕ → ℕ
expanded z capacity =
    let c = min (capacity + capacity / 2) (max_capacity z) in
    if c % z.item_align == 0 then c else c + (z.item_align - c % z.item_align)

module _ {ℓ} {C I : Type ℓ} where
  abbrev pub ref_node : ℕ → NodeOf C I → Option (ℕ × C)
  ref_node bit n = get_elem? n.nodes (rank n.node_bitmap bit)

  abbrev pub ref_item : ℕ → NodeOf C I → Option I
  ref_item bit n = get_elem? n.items (rank n.item_bitmap bit)

  -- Writing through such a reference.
  abbrev pub write_node : ℕ → ℕ × C → NodeOf C I → NodeOf C I
  write_node bit c n = record n { nodes = set n.nodes (rank n.node_bitmap bit) c }

  abbrev pub write_item : ℕ → I → NodeOf C I → NodeOf C I
  write_item bit x n = record n { items = set n.items (rank n.item_bitmap bit) x }

  module _ (z : Layout) where
    abbrev pub insert_node : ℕ → ℕ × C → NodeOf C I → NodeOf C I
    insert_node bit c n = record n {
      node_bitmap = set n.node_bitmap bit true;
      nodes = insert_at (rank n.node_bitmap bit) c n.nodes;
      used_bytes = n.used_bytes + z.node_size;
    }

    abbrev pub erase_node : ℕ → NodeOf C I → NodeOf C I
    erase_node bit n = record n {
      node_bitmap = set n.node_bitmap bit false;
      nodes = remove_at (rank n.node_bitmap bit) n.nodes;
      used_bytes = n.used_bytes - z.node_size;
    }

    abbrev pub insert_item : ℕ → I → NodeOf C I → NodeOf C I
    insert_item bit x n = record n {
      item_bitmap = set n.item_bitmap bit true;
      items = insert_at (rank n.item_bitmap bit) x n.items;
      used_bytes = n.used_bytes + z.item_size;
    }

    abbrev pub erase_item : ℕ → NodeOf C I → NodeOf C I
    erase_item bit n = record n {
      item_bitmap = set n.item_bitmap bit false;
      items = remove_at (rank n.item_bitmap bit) n.items;
      used_bytes = n.used_bytes - z.item_size;
    }

    abbrev pub expand_node : NodeOf C I → NodeOf C I
    expand_node n = record n { capacity_bytes = expanded z n.capacity_bytes }

    -- The node with room for an item.
    abbrev pub make_room : NodeOf C I → NodeOf C I
    make_room n = if ltb n.capacity_bytes (n.used_bytes + z.item_size) then expand_node n else n
