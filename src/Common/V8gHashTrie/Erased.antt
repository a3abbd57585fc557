-- ===== src/Common/V8gHashTrie/Erased.antt =====
-- include/voxen/common/v8g_hash_trie_impl.hpp: `Node::erase`.
use voxen.Prelude.{
  is_none, ℕ, zero, suc, ◌+◌, ◌≡◌, refl, sym, ap, ◌∙◌, subst, Bool, true, false, Option, none, some,
  get_or, arith, ◌==◌, Bool-cases, inl, inr, if◌then◌else◌, not,
}
use voxen.Prelude.Packed.{slot, slot_clear, slot-assign, slot-remove_at}
use voxen.Common.V8gFlatMap.{Item}
use voxen.Common.V8gHashTrie.{
  HashKey, Layout, Node, digit, consume, shifted, find_in, write_node, erase_item, erase_in,
  try_shrink,
}
use voxen.Common.V8gHashTrie.Invariant.{IsNode}
use voxen.Common.V8gHashTrie.Digits.{consume-shifted, digit-shifted_lt}
use voxen.Common.V8gHashTrie.Entries.{read, find_in-read, ref-slot}
use voxen.Common.V8gHashTrie.Levels.{erase_item-Level, write_node-Level}
use voxen.Common.V8gHashTrie.Lookup.{same_at, find_in-update}
use voxen.Common.V8gHashTrie.Shrink.{IsShrunk, try_shrink-IsShrunk}

module _ {ℓ κ} {K : Type ℓ} ⦃o : HashKey K⦄ (V : Type κ) (z : Layout) (timeline : ℕ) (k : K) where
  -- What `erase` promises of a node in which `find` gave `old`.
  pub record IsErased (h c : ℕ) (P : K → Type 0) (old : K → Option (Item K V))
      (r : (ℕ × Node h (Item K V)) × Bool) : Type (ℓ ⊔ κ) where
    pub well_formed : IsNode V h c P r.0.1
    pub found : (l : K) → find_in V h (shifted c l) l r.0.1 ≡ (if o.equal k l then none else old l)
    pub erased : not r.1 ≡ is_none (old k)

  -- Nothing is erased where there is no such key.
  absent :
      (h c version : ℕ) (P : K → Type 0) (n : Node h (Item K V))
      → IsNode V h c P n
      → find_in V h (shifted c k) k n ≡ none
      → IsErased h c P (λ l. find_in V h (shifted c l) l n) ((version, n), false)
  absent h c version P n w e = record {
    well_formed = w;
    found = λ l. elim (Bool-cases (o.equal k l)) [
      | inl t ↦ rw (t) (subst (λ y. find_in V h (shifted c y) y n ≡ none) (o.equal_true k l t) e)
      | inr t ↦ rw (t) refl
    ];
    erased = sym (ap is_none e);
  }

  module _ (h c : ℕ) (P : K → Type 0) (n : Node (suc h) (Item K V))
      (w : IsNode V (suc h) c P n) where
    abbrev bit : ℕ
    bit = digit (shifted c k)

    erase-item :
        (x : Item K V)
        → get_or n.item_bitmap bit false ≡ true
        → slot n.item_bitmap n.items bit ≡ some x
        → o.equal x.key k ≡ true
        → IsErased
            (suc h)
            c
            P
            (λ l. find_in V (suc h) (shifted c l) l n)
            ((timeline, erase_item z bit n), true)
    erase-item x u s q = record {
      well_formed = w';
      found = λ l.
          find_in-update V h c k n (erase_item z bit n) w.nodes_packed w.items_packed w.nodes_packed
            w'.items_packed none none
            (λ j. slot-remove_at n.item_bitmap n.items w.items_packed.1 bit j u)
            (λ j.
              same_at (slot n.node_bitmap n.nodes) bit j
              ∙ ap (λ y. if bit == j then y else slot n.node_bitmap n.nodes j) free)
            none l
            (λ _. elim (Bool-cases (o.equal k l)) [
              | inl t ↦ rw (t) refl
              | inr t ↦ rw (t, s, ap (λ y. o.equal y l) (o.equal_true x.key k q) ∙ t) refl
            ]);
      erased = ap is_none (
          sym (
            find_in-read V h (shifted c k) k n w.nodes_packed w.items_packed
            ∙ ap (λ y. read V h (shifted c k) k y (slot n.node_bitmap n.nodes bit)) s
            ∙ ap (λ b. if b then some x else none) q));
    }
      where
        w' : IsNode V (suc h) c P (erase_item z bit n)
        w' =
            erase_item-Level V z (Node h (Item K V)) (IsNode V h (c + 6)) c P n w bit
              (digit-shifted_lt c k) u

        free : slot n.node_bitmap n.nodes bit ≡ none
        free = elim (Bool-cases (get_or n.node_bitmap bit false)) [
          | inl t ↦ absurd (ground (arith, sym u ∙ w.apart bit t))
          | inr t ↦ slot_clear n.node_bitmap n.nodes bit t
        ]

    erase-child :
        (m : ℕ × Node h (Item K V))
        → get_or n.node_bitmap bit false ≡ true
        → slot n.node_bitmap n.nodes bit ≡ some m
        → (r : (ℕ × Node h (Item K V)) × Bool)
        → IsErased h
            (c + 6)
            (λ l. P l × (digit (shifted c l) ≡ digit (shifted c k)))
            (λ l. find_in V h (shifted (c + 6) l) l m.1)
            r
        → IsErased
            (suc h)
            c
            P
            (λ l. find_in V (suc h) (shifted c l) l n)
            (
              (
                timeline,
                if r.1
                    then try_shrink (Item K V) z h bit (write_node bit r.0 n)
                    else write_node bit r.0 n,
              ),
              r.1,
            )
    erase-child m t s r a = record {
      well_formed = shrunk.0;
      found = λ l. shrunk.1 l ∙ found l;
      erased =
          a.erased
          ∙ ap is_none (
              sym (
                find_in-read V h (shifted c k) k n w.nodes_packed w.items_packed
                ∙ rw (slot_clear n.item_bitmap n.items bit (w.apart bit t), s, consume-shifted c k)
                    refl));
    }
      where
        w' : IsNode V (suc h) c P (write_node bit r.0 n)
        w' =
            write_node-Level V z (Node h (Item K V)) (IsNode V h (c + 6)) c P n w bit
              (digit-shifted_lt c k) r.0 t a.well_formed

        shrunk : IsShrunk V h c P (write_node bit r.0 n) (
            if r.1
            then try_shrink (Item K V) z h bit (write_node bit r.0 n)
            else write_node bit r.0 n)
        shrunk = elim (Bool-cases r.1) [
          | inl q ↦ rw (q) (try_shrink-IsShrunk V z k h c P (write_node bit r.0 n) w' t)
          | inr q ↦ rw (q) (w', λ l. refl)
        ]

        found :
            (l : K)
            → find_in V (suc h) (shifted c l) l (write_node bit r.0 n)
              ≡ (if o.equal k l then none else find_in V (suc h) (shifted c l) l n)
        found l =
            find_in-update V h c k n (write_node bit r.0 n) w.nodes_packed w.items_packed
              w'.nodes_packed w.items_packed (slot n.item_bitmap n.items bit) (some r.0)
              (λ j. same_at (slot n.item_bitmap n.items) bit j)
              (λ j. slot-assign n.node_bitmap n.nodes w.nodes_packed.1 bit r.0 j t) none l
              (λ q.
                rw (slot_clear n.item_bitmap n.items bit (w.apart bit t), s, consume-shifted c l)
                  (a.found l))

    find_in-absent_item :
        (x : Item K V)
        → slot n.item_bitmap n.items bit ≡ some x
        → o.equal x.key k ≡ false
        → find_in V (suc h) (shifted c k) k n ≡ none
    find_in-absent_item x s q =
        find_in-read V h (shifted c k) k n w.nodes_packed w.items_packed
        ∙ ap (λ y. read V h (shifted c k) k y (slot n.node_bitmap n.nodes bit)) s
        ∙ ap (λ b. if b then some x else none) q

    find_in-absent :
        get_or n.item_bitmap bit false ≡ false
        → get_or n.node_bitmap bit false ≡ false
        → find_in V (suc h) (shifted c k) k n ≡ none
    find_in-absent u t =
        find_in-read V h (shifted c k) k n w.nodes_packed w.items_packed
        ∙ ap (λ y. read V h (shifted c k) k y (slot n.node_bitmap n.nodes bit))
            (slot_clear n.item_bitmap n.items bit u)
        ∙ ap (λ y. read V h (shifted c k) k none y) (slot_clear n.node_bitmap n.nodes bit t)

    erase-step :
        (version : ℕ)
        → ((m : ℕ × Node h (Item K V))
            → IsNode V h (c + 6) (λ l. P l × (digit (shifted c l) ≡ digit (shifted c k))) m.1
            → IsErased h
                (c + 6)
                (λ l. P l × (digit (shifted c l) ≡ digit (shifted c k)))
                (λ l. find_in V h (shifted (c + 6) l) l m.1)
                (erase_in V z h timeline k (consume (shifted c k)) m))
        → IsErased
            (suc h)
            c
            P
            (λ l. find_in V (suc h) (shifted c l) l n)
            (erase_in V z (suc h) timeline k (shifted c k) (version, n))
    unfolding erase_in
    erase-step version below = elim (Bool-cases (get_or n.item_bitmap bit false)) [
      | inl u ↦
          let (x, r, s) = ref-slot n.item_bitmap n.items w.items_packed bit u in
          elim (Bool-cases (o.equal x.key k)) [
            | inl q ↦ rw (u, r, q) (erase-item x u s q)
            | inr q ↦ rw (u, r, q) (absent (suc h) c version P n w (find_in-absent_item x s q))
          ]
      | inr u ↦ elim (Bool-cases (get_or n.node_bitmap bit false)) [
        | inl t ↦
            let (m, r, s) = ref-slot n.node_bitmap n.nodes w.nodes_packed bit t in
            rw (u, t, r)
              (erase-child m t s (erase_in V z h timeline k (consume (shifted c k)) m)
                (below m (w.node_ok bit m s)))
        | inr t ↦ rw (u, t) (absent (suc h) c version P n w (find_in-absent u t))
      ]
    ]

  pub erase_in-IsErased :
      (h c : ℕ) (P : K → Type 0) (ni : ℕ × Node h (Item K V))
      → IsNode V h c P ni.1
      → IsErased h c P
          (λ l. find_in V h (shifted c l) l ni.1)
          (erase_in V z h timeline k (shifted c k) ni)
  erase_in-IsErased zero c P ni w = absurd (ground (arith, w.0))
  erase_in-IsErased (suc h) c P (version, n) w = erase-step h c P n w version (λ m wm.
      rw (consume-shifted c k)
        (erase_in-IsErased h (c + 6) (λ l. P l × (digit (shifted c l) ≡ digit (shifted c k))) m wm))
