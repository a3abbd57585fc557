-- ===== src/Common/V8gHashTrie/Visit.antt =====
-- include/voxen/common/v8g_hash_trie_impl.hpp: `visitUnary`, `findFirst` and `findNext`, which go
-- through the items in the order of their hashes. The loops take the lowest bit of both masks.
pub mod Rising
pub mod Items
pub mod Search
pub mod First
pub mod Roots
pub mod Next
pub mod NextItem
pub mod Following
mod Tests
use voxen.Prelude.{
  ℕ, zero, suc, ◌+◌, ◌*◌, ◌/◌, ◌^◌, ◌<◌, ◌≡◌, refl, ap, ◌∙◌, Bool, true, false, List, [], ◌∷◌, ◌++◌,
  Option, none, some, if◌then◌else◌, get_elem?, get_or, ltb,
}
use voxen.Prelude.Words.{Word}
use voxen.Common.V8gFlatMap.{Item}
use voxen.Common.V8gHashTrie.{
  HashKey, Node, NodeOf, Trie, digit, consume, shifted, ref_node, ref_item, root_index,
}

abbrev pub or_else {ℓ} : {A : Type ℓ} → Option A → Option A → Option A
or_else (some x) y = some x
or_else none y = y

module _ {ℓ} {C I : Type ℓ} where
  -- The loop of `visitUnary`. A visitor with state tells whether to go on.
  pub visit_entries {κ} :
      {S : Type κ}
      → (C → S → Bool × S)
      → (I → S → Bool × S)
      → Word
      → Word
      → List (ℕ × C)
      → List I
      → S
      → Bool × S
  visit_entries child item [] iw ns is s = (true, s)
  visit_entries child item (b ∷ nw) [] ns is s = (true, s)
  visit_entries child item (true ∷ nw) (b ∷ iw) [] is s = (true, s)
  visit_entries child item (true ∷ nw) (b ∷ iw) ((version, c) ∷ ns) is s =
      let (go, s') = child c s in
      if go then visit_entries child item nw iw ns is s' else (false, s')
  visit_entries child item (false ∷ nw) (true ∷ iw) ns [] s = (true, s)
  visit_entries child item (false ∷ nw) (true ∷ iw) ns (x ∷ is) s =
      let (go, s') = item x s in if go then visit_entries child item nw iw ns is s' else (false, s')
  visit_entries child item (false ∷ nw) (false ∷ iw) ns is s =
      visit_entries child item nw iw ns is s

  -- The loop of `findFirstItem`.
  pub first_entry : (C → Option I) → Word → Word → List (ℕ × C) → List I → Option I
  first_entry first [] iw ns is = none
  first_entry first (b ∷ nw) [] ns is = none
  first_entry first (b ∷ nw) (true ∷ iw) ns is = get_elem? is 0
  first_entry first (true ∷ nw) (false ∷ iw) [] is = none
  first_entry first (true ∷ nw) (false ∷ iw) ((version, c) ∷ ns) is =
      or_else (first c) (first_entry first nw iw ns is)
  first_entry first (false ∷ nw) (false ∷ iw) ns is = first_entry first nw iw ns is

-- What is left of a mask and of its array after some bits.
abbrev pub skip {ℓ} : {A : Type ℓ} → ℕ → Word → List A → Word × List A
skip zero w xs = (w, xs)
skip (suc i) [] xs = ([], xs)
skip (suc i) (false ∷ w) xs = skip i w xs
skip (suc i) (true ∷ w) [] = skip i w []
skip (suc i) (true ∷ w) (x ∷ xs) = skip i w xs

module _ {ℓ} {I : Type ℓ} where
  pub visit_unary {κ} : {S : Type κ} → (I → S → Bool × S) → (h : ℕ) → Node h I → S → Bool × S
  unfolding visit_entries
  visit_unary visitor zero n s = (true, s)
  visit_unary visitor (suc h) n s =
      visit_entries (visit_unary visitor h) visitor n.node_bitmap n.item_bitmap n.nodes n.items s

  pub find_first_item : (h : ℕ) → Node h I → Option I
  unfolding first_entry
  find_first_item zero n = none
  find_first_item (suc h) n =
      first_entry (find_first_item h) n.node_bitmap n.item_bitmap n.nodes n.items

  -- The items in the order of the digits.
  pub list_entries {κ} : {C : Type κ} → (C → List I) → Word → Word → List (ℕ × C) → List I → List I
  list_entries child [] iw ns is = []
  list_entries child (b ∷ nw) [] ns is = []
  list_entries child (true ∷ nw) (b ∷ iw) [] is = []
  list_entries child (true ∷ nw) (b ∷ iw) ((version, c) ∷ ns) is =
      child c ++ list_entries child nw iw ns is
  list_entries child (false ∷ nw) (true ∷ iw) ns [] = []
  list_entries child (false ∷ nw) (true ∷ iw) ns (x ∷ is) = x ∷ list_entries child nw iw ns is
  list_entries child (false ∷ nw) (false ∷ iw) ns is = list_entries child nw iw ns is

  pub list_items : (h : ℕ) → Node h I → List I
  unfolding list_entries
  list_items zero n = []
  list_items (suc h) n = list_entries (list_items h) n.node_bitmap n.item_bitmap n.nodes n.items

module _ {ℓ κ} {K : Type ℓ} ⦃o : HashKey K⦄ {V : Type κ} where
  abbrev pub after_hash : ℕ → ℕ → Option (Item K V) → Option (Item K V)
  after_hash consumed hash_bits none = none
  after_hash consumed hash_bits (some x) =
      if ltb hash_bits (shifted consumed x.key) then some x else none

  pub find_next_item : (h : ℕ) → ℕ → Node h (Item K V) → Option (Item K V)
  unfolding first_entry find_first_item
  find_next_item zero hash_bits n = none
  find_next_item (suc h) hash_bits n =
      let bit = digit hash_bits in
      let in_child : Option (Item K V) = elim (ref_node bit n) [
        | none ↦ none
        | some (version, child) ↦ find_next_item h (consume hash_bits) child
      ] in
      let (nodes_mask, nodes) = skip (suc bit) n.node_bitmap n.nodes in
      let (items_mask, items) = skip (suc bit) n.item_bitmap n.items in
      or_else (if get_or n.node_bitmap bit false then in_child else none) (
        or_else
          (if get_or n.item_bitmap bit false
            then after_hash n.consumed_hash_bits hash_bits (ref_item bit n)
            else none)
          (first_entry (find_first_item h) nodes_mask items_mask nodes items))

  abbrev first_of_root : Option (Node 10 (Item K V)) → Option (Item K V)
  first_of_root none = none
  first_of_root (some n) = find_first_item 10 n

  pub first_of_roots : List (ℕ × Option (Node 10 (Item K V))) → Option (Item K V)
  first_of_roots [] = none
  first_of_roots ((version, root) ∷ roots) = or_else (first_of_root root) (first_of_roots roots)

  pub find_first : Trie K V → Option (Item K V)
  unfolding first_of_roots find_first_item
  find_first t = first_of_roots t.root_nodes

  abbrev pub next_of_root : ℕ → Option (Node 10 (Item K V)) → Option (Item K V)
  next_of_root hash_bits none = none
  next_of_root hash_bits (some n) = find_next_item 10 hash_bits n

  -- The loops of `findNext` from the root node of the index on.
  pub next_of_roots : ℕ → ℕ → List (ℕ × Option (Node 10 (Item K V))) → Option (Item K V)
  unfolding find_next_item first_of_roots
  next_of_roots index hash_bits [] = none
  next_of_roots zero hash_bits ((version, root) ∷ roots) =
      or_else (next_of_root hash_bits root) (first_of_roots roots)
  next_of_roots (suc index) hash_bits (root ∷ roots) = next_of_roots index hash_bits roots

  pub find_next : K → Trie K V → Option (Item K V)
  unfolding next_of_roots
  find_next k t = next_of_roots (root_index k) (shifted 4 k) t.root_nodes

  abbrev list_root : Option (Node 10 (Item K V)) → List (Item K V)
  list_root none = []
  list_root (some n) = list_items 10 n

  pub list_roots : List (ℕ × Option (Node 10 (Item K V))) → List (Item K V)
  unfolding list_items
  list_roots [] = []
  list_roots ((version, root) ∷ roots) = list_root root ++ list_roots roots
