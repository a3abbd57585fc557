-- ===== src/Common/V8gHashTrie/Levels.antt =====
-- include/voxen/common/v8g_hash_trie_impl.hpp: what the changes of one node do to its entries.
use voxen.Prelude.{
  ℕ, ◌<◌, ◌≡◌, refl, sym, ap, ◌∙◌, subst, true, false, Option, none, some, List, [], ◌∷◌, length,
  get_or, set, get_or-set_ne, arith, ◌==◌, Bool-cases, inl, inr, ==_ne, ==→eq, if◌then◌else◌,
}
use voxen.Prelude.Words.{Word}
use voxen.Prelude.Packed.{
  slot, rank, slot-insert_at, slot-remove_at, slot-assign, insert_at, remove_at,
}
use voxen.Common.V8gFlatMap.{Item}
use voxen.Common.V8gHashTrie.{
  HashKey, NodeOf, digit, shifted, write_node, write_item, insert_node, insert_item, erase_node,
  erase_item, Layout,
}
use voxen.Common.V8gHashTrie.Invariant.{Level}
use voxen.Common.V8gHashTrie.Entries.{
  IsPacked-insert_at, IsPacked-remove_at, IsPacked-set, get_or-set_bit,
}

module _ {ℓ κ} {A : Type ℓ} where
  some_injective : (a b : A) → some a ≡ some b → a ≡ b
  some_injective a b e = ap (λ o. get_or (unwrap o) 0 a) e
    where
      unwrap : Option A → List A
      unwrap none = []
      unwrap (some x) = x ∷ []

  -- What holds of the entries of an updated array.
  All_update :
      (Q : ℕ → A → Type κ) (s s' : ℕ → Option A) (bit : ℕ) (t : Option A)
      → ((j : ℕ) → s' j ≡ (if bit == j then t else s j))
      → ((a : A) → t ≡ some a → Q bit a)
      → ((i : ℕ) (a : A) → s i ≡ some a → Q i a)
      → (i : ℕ) (a : A) → s' i ≡ some a
      → Q i a
  All_update Q s s' bit t upd new old i a e = elim (Bool-cases (bit == i)) [
    | inl q ↦
        subst (λ j. Q j a) (==→eq bit i q)
          (new a (sym (upd i ∙ ap (λ b. if b then t else s i) q) ∙ e))
    | inr q ↦ old i a (sym (upd i ∙ ap (λ b. if b then t else s i) q) ∙ e)
  ]

  only_some : (Q : A → Type κ) (m : A) → Q m → (a : A) → some m ≡ some a → Q a
  only_some Q m q a e = subst Q (some_injective m a e) q

  none_some : (Q : A → Type κ) (a : A) → none ≡ some a → Q a
  none_some Q a e = absurd (ground (arith, e))

bit_update :
    (w u : Word) (bit i : ℕ)
    → get_or u bit false ≡ false
    → bit < length w
    → ((j : ℕ) → get_or w j false ≡ true → get_or u j false ≡ false)
    → get_or (set w bit true) i false ≡ true
    → get_or u i false ≡ false
bit_update w u bit i c h apart e = elim (Bool-cases (bit == i)) [
  | inl t ↦ subst (λ j. get_or u j false ≡ false) (==→eq bit i t) c
  | inr t ↦ apart i (sym (get_or-set_ne w bit i true false (==_ne bit i t)) ∙ e)
]

bit_drop :
    (w : Word) (bit i : ℕ)
    → bit < length w
    → get_or (set w bit false) i false ≡ true
    → get_or w i false ≡ true
bit_drop w bit i h e = elim (Bool-cases (bit == i)) [
  | inl t ↦ absurd (ground (arith, e, get_or-set_bit w bit i false h, t))
  | inr t ↦ sym (get_or-set_ne w bit i false false (==_ne bit i t)) ∙ e
]

bit_raise :
    (w u : Word) (bit i : ℕ)
    → get_or w bit false ≡ false
    → bit < length u
    → ((j : ℕ) → get_or w j false ≡ true → get_or u j false ≡ false)
    → get_or w i false ≡ true
    → get_or (set u bit true) i false ≡ false
bit_raise w u bit i c h apart e = elim (Bool-cases (bit == i)) [
  | inl t ↦ absurd (ground (arith, sym c ∙ ap (λ j. get_or w j false) (==→eq bit i t) ∙ e))
  | inr t ↦ get_or-set_ne u bit i true false (==_ne bit i t) ∙ apart i e
]

bit_clear :
    (u : Word) (bit i : ℕ)
    → bit < length u
    → get_or u i false ≡ false
    → get_or (set u bit false) i false ≡ false
bit_clear u bit i h e = elim (Bool-cases (bit == i)) [
  | inl t ↦ rw (get_or-set_bit u bit i false h, t) refl
  | inr t ↦ get_or-set_ne u bit i false false (==_ne bit i t) ∙ e
]

module _ {ℓ κ} {K : Type ℓ} ⦃o : HashKey K⦄ (V : Type κ) where
  module _ (z : Layout) (C : Type (ℓ ⊔ κ)) (IsChild : (K → Type 0) → C → Type (ℓ ⊔ κ)) (c : ℕ)
      (P : K → Type 0) (n : NodeOf C (Item K V)) (v : Level V C IsChild c P n) (bit : ℕ)
      (small : bit < 64) where
    -- The changes keep a node well-formed.
    pub write_node-Level :
        (m : ℕ × C)
        → get_or n.node_bitmap bit false ≡ true
        → IsChild (λ k. P k × (digit (shifted c k) ≡ bit)) m.1
        → Level V C IsChild c P (write_node bit m n)
    write_node-Level m t ok = record {
      here = v.here;
      nodes_packed = IsPacked-set n.node_bitmap n.nodes v.nodes_packed bit m;
      items_packed = v.items_packed;
      apart = v.apart;
      item_ok = v.item_ok;
      node_ok =
          All_update (λ i d. IsChild (λ k. P k × (digit (shifted c k) ≡ i)) d.1)
            (slot n.node_bitmap n.nodes)
            (slot n.node_bitmap (set n.nodes (rank n.node_bitmap bit) m)) bit (some m)
            (λ j. slot-assign n.node_bitmap n.nodes v.nodes_packed.1 bit m j t) (only_some _ m ok)
            v.node_ok;
    }

    pub write_item-Level :
        (x : Item K V)
        → get_or n.item_bitmap bit false ≡ true
        → P x.key
        → digit (shifted c x.key) ≡ bit
        → Level V C IsChild c P (write_item bit x n)
    write_item-Level x t p d = record {
      here = v.here;
      nodes_packed = v.nodes_packed;
      items_packed = IsPacked-set n.item_bitmap n.items v.items_packed bit x;
      apart = v.apart;
      item_ok =
          All_update (λ i y. P y.key × (digit (shifted c y.key) ≡ i)) (slot n.item_bitmap n.items)
            (slot n.item_bitmap (set n.items (rank n.item_bitmap bit) x)) bit (some x)
            (λ j. slot-assign n.item_bitmap n.items v.items_packed.1 bit x j t)
            (only_some _ x (p, d)) v.item_ok;
      node_ok = v.node_ok;
    }

    pub insert_node-Level :
        (m : ℕ × C)
        → get_or n.node_bitmap bit false ≡ false
        → get_or n.item_bitmap bit false ≡ false
        → IsChild (λ k. P k × (digit (shifted c k) ≡ bit)) m.1
        → Level V C IsChild c P (insert_node z bit m n)
    insert_node-Level m t u ok = record {
      here = v.here;
      nodes_packed = IsPacked-insert_at n.node_bitmap n.nodes v.nodes_packed bit m small t;
      items_packed = v.items_packed;
      apart = λ i e.
          bit_update n.node_bitmap n.item_bitmap bit i u (omega (arith, small, v.nodes_packed.0))
            v.apart e;
      item_ok = v.item_ok;
      node_ok =
          All_update (λ i d. IsChild (λ k. P k × (digit (shifted c k) ≡ i)) d.1)
            (slot n.node_bitmap n.nodes)
            (slot (set n.node_bitmap bit true) (insert_at (rank n.node_bitmap bit) m n.nodes)) bit
            (some m)
            (λ j.
              slot-insert_at n.node_bitmap n.nodes v.nodes_packed.1 bit m j
                (omega (arith, small, v.nodes_packed.0)) t)
            (only_some _ m ok) v.node_ok;
    }

    pub erase_node-Level :
        get_or n.node_bitmap bit false ≡ true → Level V C IsChild c P (erase_node z bit n)
    erase_node-Level t = record {
      here = v.here;
      nodes_packed = IsPacked-remove_at n.node_bitmap n.nodes v.nodes_packed bit small t;
      items_packed = v.items_packed;
      apart = λ i e.
          v.apart i (bit_drop n.node_bitmap bit i (omega (arith, small, v.nodes_packed.0)) e);
      item_ok = v.item_ok;
      node_ok =
          All_update (λ i d. IsChild (λ k. P k × (digit (shifted c k) ≡ i)) d.1)
            (slot n.node_bitmap n.nodes)
            (slot (set n.node_bitmap bit false) (remove_at (rank n.node_bitmap bit) n.nodes)) bit
            none (λ j. slot-remove_at n.node_bitmap n.nodes v.nodes_packed.1 bit j t) (none_some _)
            v.node_ok;
    }

    pub insert_item-Level :
        (x : Item K V)
        → get_or n.node_bitmap bit false ≡ false
        → get_or n.item_bitmap bit false ≡ false
        → P x.key
        → digit (shifted c x.key) ≡ bit
        → Level V C IsChild c P (insert_item z bit x n)
    insert_item-Level x u t p d = record {
      here = v.here;
      nodes_packed = v.nodes_packed;
      items_packed = IsPacked-insert_at n.item_bitmap n.items v.items_packed bit x small t;
      apart = λ i e.
          bit_raise n.node_bitmap n.item_bitmap bit i u (omega (arith, small, v.items_packed.0))
            v.apart e;
      item_ok =
          All_update (λ i y. P y.key × (digit (shifted c y.key) ≡ i)) (slot n.item_bitmap n.items)
            (slot (set n.item_bitmap bit true) (insert_at (rank n.item_bitmap bit) x n.items)) bit
            (some x)
            (λ j.
              slot-insert_at n.item_bitmap n.items v.items_packed.1 bit x j
                (omega (arith, small, v.items_packed.0)) t)
            (only_some _ x (p, d)) v.item_ok;
      node_ok = v.node_ok;
    }

    pub erase_item-Level :
        get_or n.item_bitmap bit false ≡ true → Level V C IsChild c P (erase_item z bit n)
    erase_item-Level t = record {
      here = v.here;
      nodes_packed = v.nodes_packed;
      items_packed = IsPacked-remove_at n.item_bitmap n.items v.items_packed bit small t;
      apart = λ i e.
          bit_clear n.item_bitmap bit i (omega (arith, small, v.items_packed.0)) (v.apart i e);
      item_ok =
          All_update (λ i y. P y.key × (digit (shifted c y.key) ≡ i)) (slot n.item_bitmap n.items)
            (slot (set n.item_bitmap bit false) (remove_at (rank n.item_bitmap bit) n.items)) bit
            none (λ j. slot-remove_at n.item_bitmap n.items v.items_packed.1 bit j t) (none_some _)
            v.item_ok;
      node_ok = v.node_ok;
    }
