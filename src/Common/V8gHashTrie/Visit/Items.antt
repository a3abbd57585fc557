-- ===== src/Common/V8gHashTrie/Visit/Items.antt =====
-- include/voxen/common/v8g_hash_trie_impl.hpp: the items of a node, digit by digit.
use voxen.Prelude.{
  ℕ, zero, suc, ◌+◌, ◌*◌, ◌^◌, ◌≡◌, refl, sym, ◌∙◌, subst, true, false, List, [], ◌∷◌, some, get_or,
  arith, length,
}
use voxen.Prelude.Words.{Word, popcount}
use voxen.Prelude.Packed.{slot}
use voxen.Common.V8gFlatMap.{Item}
use voxen.Common.V8gHashTrie.{HashKey, Node, digit, shifted}
use voxen.Common.V8gHashTrie.Invariant.{IsNode}
use voxen.Common.V8gHashTrie.Visit.{list_entries, list_items}
use voxen.Common.V8gHashTrie.Visit.Rising.{
  Rising, AllKeys, Rising-weaken, AllKeys-append, AllKeys-map, Rising-append, upper_bound,
}

module _ {ℓ κ} {K : Type ℓ} ⦃o : HashKey K⦄ (V : Type κ) where
  -- What the entries of two masks from digit i on are.
  pub record IsEntries (h c i : ℕ) (P : K → Type 0) (nw iw : Word)
      (ns : List (ℕ × Node h (Item K V))) (is : List (Item K V)) : Type (ℓ ⊔ κ) where
    pub same_length : length nw ≡ length iw
    pub nodes_packed : popcount nw ≡ length ns
    pub items_packed : popcount iw ≡ length is
    pub apart : (j : ℕ) → get_or nw j false ≡ true → get_or iw j false ≡ false
    pub item :
        (j : ℕ) (x : Item K V) → slot iw is j ≡ some x → P x.key × (digit (shifted c x.key) ≡ i + j)
    pub node :
        (j : ℕ) (m : ℕ × Node h (Item K V))
        → slot nw ns j ≡ some m
        → Rising (c + 6) 0 (list_items h m.1)
          × AllKeys (λ k. P k × (digit (shifted c k) ≡ i + j)) (list_items h m.1)

  module _ (h c i : ℕ) (P : K → Type 0) (nw iw : Word) where
    later_node :
        (ns : List (ℕ × Node h (Item K V)))
        → ((j : ℕ) (m : ℕ × Node h (Item K V))
            → slot nw ns j ≡ some m
            → Rising (c + 6) 0 (list_items h m.1)
              × AllKeys (λ k. P k × (digit (shifted c k) ≡ i + suc j)) (list_items h m.1))
        → (j : ℕ) (m : ℕ × Node h (Item K V)) → slot nw ns j ≡ some m
        → Rising (c + 6) 0 (list_items h m.1)
          × AllKeys (λ k. P k × (digit (shifted c k) ≡ suc i + j)) (list_items h m.1)
    later_node ns node j m e =
        let (r, a) = node j m e in
        let q : i + suc j ≡ suc i + j = omega arith in
        (r, subst (λ y. AllKeys (λ k. P k × (digit (shifted c k) ≡ y)) (list_items h m.1)) q a)

    pub IsEntries-node :
        (m : ℕ × Node h (Item K V)) (ns : List (ℕ × Node h (Item K V))) (is : List (Item K V))
        → IsEntries h c i P (true ∷ nw) (false ∷ iw) (m ∷ ns) is
        → IsEntries h c (suc i) P nw iw ns is
    IsEntries-node m ns is e = record {
      same_length = omega (arith, e.same_length);
      nodes_packed = omega (arith, e.nodes_packed);
      items_packed = omega (arith, e.items_packed);
      apart = λ j. e.apart (suc j);
      item = λ j x q. let (p, d) = e.item (suc j) x q in (p, omega (arith, d));
      node = later_node ns (λ j. e.node (suc j));
    }

    pub IsEntries-item :
        (ns : List (ℕ × Node h (Item K V))) (x : Item K V) (is : List (Item K V))
        → IsEntries h c i P (false ∷ nw) (true ∷ iw) ns (x ∷ is)
        → IsEntries h c (suc i) P nw iw ns is
    IsEntries-item ns x is e = record {
      same_length = omega (arith, e.same_length);
      nodes_packed = omega (arith, e.nodes_packed);
      items_packed = omega (arith, e.items_packed);
      apart = λ j. e.apart (suc j);
      item = λ j x q. let (p, d) = e.item (suc j) x q in (p, omega (arith, d));
      node = later_node ns (λ j. e.node (suc j));
    }

    pub IsEntries-none :
        (ns : List (ℕ × Node h (Item K V))) (is : List (Item K V))
        → IsEntries h c i P (false ∷ nw) (false ∷ iw) ns is
        → IsEntries h c (suc i) P nw iw ns is
    IsEntries-none ns is e = record {
      same_length = omega (arith, e.same_length);
      nodes_packed = omega (arith, e.nodes_packed);
      items_packed = omega (arith, e.items_packed);
      apart = λ j. e.apart (suc j);
      item = λ j x q. let (p, d) = e.item (suc j) x q in (p, omega (arith, d));
      node = later_node ns (λ j. e.node (suc j));
    }

  pub first_node :
      (h c i : ℕ) (P : K → Type 0) (nw iw : Word) (m : ℕ × Node h (Item K V))
      (ns : List (ℕ × Node h (Item K V))) (is : List (Item K V))
      → IsEntries h c i P (true ∷ nw) (false ∷ iw) (m ∷ ns) is
      → Rising (c + 6) 0 (list_items h m.1)
        × AllKeys (λ k. P k × (digit (shifted c k) ≡ i)) (list_items h m.1)
  first_node h c i P nw iw m ns is e =
      let (r, a) = e.node 0 m refl in
      let q : i + 0 ≡ i = omega arith in
      (r, subst (λ y. AllKeys (λ k. P k × (digit (shifted c k) ≡ y)) (list_items h m.1)) q a)

  pub entries-Rising :
      (h c i : ℕ) (P : K → Type 0) (nw iw : Word) (ns : List (ℕ × Node h (Item K V)))
      (is : List (Item K V))
      → IsEntries h c i P nw iw ns is
      → Rising c (i * 2 ^ 58) (list_entries (list_items h) nw iw ns is)
        × AllKeys P (list_entries (list_items h) nw iw ns is)
  unfolding list_entries
  entries-Rising h c i P [] iw ns is e = (tt, tt)
  entries-Rising h c i P (b ∷ nw) [] ns is e = (tt, tt)
  entries-Rising h c i P (true ∷ nw) (true ∷ iw) ns is e = absurd (ground (arith, e.apart 0 refl))
  entries-Rising h c i P (true ∷ nw) (false ∷ iw) [] is e = (tt, tt)
  entries-Rising h c i P (true ∷ nw) (false ∷ iw) (m ∷ ns) is e =
      let rest =
        entries-Rising h c (suc i) P nw iw ns is (IsEntries-node h c i P nw iw m ns is e) in
      let (r, a) = first_node h c i P nw iw m ns is e in
      (
        Rising-append c i (i * 2 ^ 58) 0 P (list_items h m.1) _ (λ q b. omega arith) (omega arith) a
            r rest.0,
        AllKeys-append P (list_items h m.1) _
            (AllKeys-map (λ k. P k × (digit (shifted c k) ≡ i)) P (list_items h m.1) (λ k p. p.0) a)
            rest.1,
      )
  entries-Rising h c i P (false ∷ nw) (true ∷ iw) ns [] e = (tt, tt)
  entries-Rising h c i P (false ∷ nw) (true ∷ iw) ns (x ∷ is) e =
      let rest =
        entries-Rising h c (suc i) P nw iw ns is (IsEntries-item h c i P nw iw ns x is e) in
      let (p, d) = e.item 0 x refl in
      let d0 : digit (shifted c x.key) ≡ i = omega (arith, d) in
      (
        (
          omega (arith, d0),
          Rising-weaken c (suc (shifted c x.key)) (suc i * 2 ^ 58) _ rest.0
              (upper_bound (shifted c x.key) i d0),
        ),
        (p, rest.1),
      )
  entries-Rising h c i P (false ∷ nw) (false ∷ iw) ns is e =
      let rest = entries-Rising h c (suc i) P nw iw ns is (IsEntries-none h c i P nw iw ns is e) in
      (Rising-weaken c (i * 2 ^ 58) (suc i * 2 ^ 58) _ rest.0 (omega arith), rest.1)

  pub node-IsEntries :
      (h c : ℕ) (P : K → Type 0) (n : Node (suc h) (Item K V))
      → ((Q : K → Type 0) (m : Node h (Item K V))
          → IsNode V h (c + 6) Q m
          → Rising (c + 6) 0 (list_items h m) × AllKeys Q (list_items h m))
      → IsNode V (suc h) c P n
      → IsEntries h c 0 P n.node_bitmap n.item_bitmap n.nodes n.items
  node-IsEntries h c P n below w = record {
    same_length = w.nodes_packed.0 ∙ sym w.items_packed.0;
    nodes_packed = w.nodes_packed.1;
    items_packed = w.items_packed.1;
    apart = w.apart;
    item = λ j x e. let (p, d) = w.item_ok j x e in (p, omega (arith, d));
    node = λ j m e.
        let (r, a) = below (λ k. P k × (digit (shifted c k) ≡ j)) m.1 (w.node_ok j m e) in
        let q : j ≡ 0 + j = omega arith in
        (r, subst (λ y. AllKeys (λ k. P k × (digit (shifted c k) ≡ y)) (list_items h m.1)) q a);
  }

  pub list_items-Rising :
      (h c : ℕ) (P : K → Type 0) (n : Node h (Item K V))
      → IsNode V h c P n
      → Rising c 0 (list_items h n) × AllKeys P (list_items h n)
  unfolding list_items
  list_items-Rising zero c P n w = absurd (ground (arith, w.0))
  list_items-Rising (suc h) c P n w =
      let (r, a) =
        entries-Rising h c 0 P n.node_bitmap n.item_bitmap n.nodes n.items
          (node-IsEntries h c P n (list_items-Rising h (c + 6)) w) in
      (Rising-weaken c 0 (0 * 2 ^ 58) _ r (omega arith), a)
