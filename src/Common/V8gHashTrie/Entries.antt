-- ===== src/Common/V8gHashTrie/Entries.antt =====
-- include/voxen/common/v8g_hash_trie_impl.hpp: what the changes of one node do to its entries.
use voxen.Prelude.{
  ℕ, suc, ◌<◌, ◌≡◌, refl, sym, ◌∙◌, Bool, true, false, Option, none, some, List, length, get_or,
  set, get_elem?, get_or-set_self, get_or-set_ne, arith, ◌==◌, Bool-cases, inl, inr, ==_ne, ==→eq,
  if◌then◌else◌, length-set,
}
use voxen.Prelude.Words.{Word}
use voxen.Prelude.Packed.{
  slot, rank, slot_set, get_rank, packed-insert_at, packed-remove_at, insert_at, remove_at,
  slot_clear,
}
use voxen.Common.V8gFlatMap.{Item}
use voxen.Common.V8gHashTrie.{HashKey, Node, digit, consume, match_item, find_in}
use voxen.Common.V8gHashTrie.Invariant.{IsPacked}

module _ {ℓ} {A : Type ℓ} (w : Word) (xs : List A) (p : IsPacked w xs) (i : ℕ) where
  pub IsPacked-insert_at :
      (a : A)
      → i < 64
      → get_or w i false ≡ false
      → IsPacked (set w i true) (insert_at (rank w i) a xs)
  IsPacked-insert_at a h e =
      (length-set w i true ∙ p.0, packed-insert_at w xs p.1 i a (omega (arith, h, p.0)) e)

  pub IsPacked-remove_at :
      i < 64 → get_or w i false ≡ true → IsPacked (set w i false) (remove_at (rank w i) xs)
  IsPacked-remove_at h e =
      (length-set w i false ∙ p.0, packed-remove_at w xs p.1 i (omega (arith, h, p.0)) e)

  pub IsPacked-set : (a : A) → IsPacked w (set xs (rank w i) a)
  IsPacked-set a = (p.0, p.1 ∙ sym (length-set xs (rank w i) a))

  -- The entry that a reference reads.
  pub ref-slot :
      get_or w i false ≡ true
      → (a : A) × (get_elem? xs (rank w i) ≡ some a) × (slot w xs i ≡ some a)
  ref-slot h = let (a, e) = slot_set w xs p.1 i h in (a, get_rank w xs p.1 i h ∙ e, e)

-- Bits of a changed mask.
pub get_or-set_bit :
    (w : Word) (i j : ℕ) (b : Bool)
    → i < length w
    → get_or (set w i b) j false ≡ (if i == j then b else get_or w j false)
get_or-set_bit w i j b h = elim (Bool-cases (i == j)) [
  | inl t ↦ rw (t, ← ==→eq i j t) (get_or-set_self w i b false h)
  | inr t ↦ rw (t) (get_or-set_ne w i j b false (==_ne i j t))
]

module _ {ℓ κ} {K : Type ℓ} ⦃o : HashKey K⦄ (V : Type κ) where
  -- What `find` makes of the entries of the digit.
  abbrev pub read :
      (h hash_bits : ℕ) → K → Option (Item K V) → Option (ℕ × Node h (Item K V)) → Option (Item K V)
  read h hash_bits k (some x) c = match_item V k (some x)
  read h hash_bits k none none = none
  read h hash_bits k none (some c) = find_in V h (consume hash_bits) k c.1

  pub find_in-read :
      (h hash_bits : ℕ) (k : K) (n : Node (suc h) (Item K V))
      → IsPacked n.node_bitmap n.nodes
      → IsPacked n.item_bitmap n.items
      → find_in V (suc h) hash_bits k n
        ≡ read h hash_bits k
            (slot n.item_bitmap n.items (digit hash_bits))
            (slot n.node_bitmap n.nodes (digit hash_bits))
  unfolding find_in
  find_in-read h hash_bits k n pn pi =
      elim (Bool-cases (get_or n.item_bitmap (digit hash_bits) false)) [
        | inl t ↦
            let (x, r, s) = ref-slot n.item_bitmap n.items pi (digit hash_bits) t in
            rw (t, r, s) refl
        | inr t ↦ elim (Bool-cases (get_or n.node_bitmap (digit hash_bits) false)) [
          | inl u ↦
              let (c, r, s) = ref-slot n.node_bitmap n.nodes pn (digit hash_bits) u in
              rw (t, u, r, s, slot_clear n.item_bitmap n.items (digit hash_bits) t) refl
          | inr u ↦
              rw
                (
                  t,
                  u,
                  slot_clear n.item_bitmap n.items (digit hash_bits) t,
                  slot_clear n.node_bitmap n.nodes (digit hash_bits) u,
                )
                refl
        ]
      ]
