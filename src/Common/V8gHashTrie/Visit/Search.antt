-- ===== src/Common/V8gHashTrie/Visit/Search.antt =====
-- include/voxen/common/v8g_hash_trie_impl.hpp: `find` as a search among the items of a node.
use voxen.Prelude.{
  ℕ, zero, suc, ◌+◌, ◌*◌, ◌^◌, ◌<◌, ◌≤◌, ◌≡◌, refl, sym, ap, ◌∙◌, subst, true, false, List, [], ◌∷◌,
  ◌++◌, Option, none, some, Bool-cases, inl, inr, if◌then◌else◌, arith,
}
use voxen.Prelude.Words.{Word}
use voxen.Prelude.Packed.{slot}
use voxen.Common.V8gFlatMap.{Item}
use voxen.Common.V8gHashTrie.{HashKey, Node, digit, shifted}
use voxen.Common.V8gHashTrie.Invariant.{IsNode}
use voxen.Common.V8gHashTrie.Digits.{consume-shifted, equal_digits}
use voxen.Common.V8gHashTrie.Visit.{list_entries, list_items, or_else}
use voxen.Common.V8gHashTrie.{find_in}
use voxen.Common.V8gHashTrie.Entries.{read, find_in-read}
use voxen.Common.V8gHashTrie.Visit.Rising.{Rising, AllKeys}
use voxen.Common.V8gHashTrie.Visit.Items.{
  IsEntries, IsEntries-node, IsEntries-item, IsEntries-none, first_node, entries-Rising,
  node-IsEntries, list_items-Rising,
}

lt_irrefl : (a b : ℕ) → a < b → b ≤ a → true ≡ false
lt_irrefl a b h k = absurd (omega (arith, h, k))

equal_other {ℓ} :
    {K : Type ℓ} ⦃o : HashKey K⦄ (c : ℕ) (k l : K) (i j : ℕ)
    → digit (shifted c k) ≡ i + 0
    → digit (shifted c l) ≡ i + suc j
    → o.equal k l ≡ false
equal_other c k l i j d e = equal_digits c k l (ground (arith, d, e))

module _ {ℓ κ} {K : Type ℓ} ⦃o : HashKey K⦄ {V : Type κ} where
  -- The first item of the key.
  abbrev pub search : K → List (Item K V) → Option (Item K V)
  search k [] = none
  search k (x ∷ xs) = if o.equal x.key k then some x else search k xs

  pub search-append :
      (k : K) (xs ys : List (Item K V)) → search k (xs ++ ys) ≡ or_else (search k xs) (search k ys)
  search-append k [] ys = refl
  search-append k (x ∷ xs) ys = elim (Bool-cases (o.equal x.key k)) [
    | inl t ↦ rw (t) refl
    | inr t ↦ rw (t) (search-append k xs ys)
  ]

  -- A key whose bits are below those of the items, or with another digit, is not among them.
  search_below :
      (c low : ℕ) (k : K) (xs : List (Item K V))
      → Rising c low xs
      → shifted c k < low
      → search k xs ≡ none
  search_below c low k [] r h = refl
  search_below c low k (x ∷ xs) r h = elim (Bool-cases (o.equal x.key k)) [
    | inl t ↦ absurd (
        ground (
          arith,
          lt_irrefl (shifted c k) low h
              (subst (λ y. low ≤ shifted c y) (o.equal_true x.key k t) r.0),
        ))
    | inr t ↦ rw (t) (search_below c (suc (shifted c x.key)) k xs r.1 (omega (arith, h, r.0)))
  ]

  pub search_absent :
      (Q : K → Type 0) (k : K) (xs : List (Item K V))
      → AllKeys Q xs
      → (Q k → true ≡ false)
      → search k xs ≡ none
  search_absent Q k [] a n = refl
  search_absent Q k (x ∷ xs) a n = elim (Bool-cases (o.equal x.key k)) [
    | inl t ↦ absurd (ground (arith, n (subst Q (o.equal_true x.key k t) a.0)))
    | inr t ↦ rw (t) (search_absent Q k xs a.1 n)
  ]

  pub or_else-none : (a : Option (Item K V)) → or_else a none ≡ a
  or_else-none none = refl
  or_else-none (some x) = refl

  entries-search :
      (h c i j : ℕ) (P : K → Type 0) (nw iw : Word) (ns : List (ℕ × Node h (Item K V)))
      (is : List (Item K V))
      → IsEntries V h c i P nw iw ns is
      → (k : K) → digit (shifted c k) ≡ i + j
      → ((q : ℕ) (m : ℕ × Node h (Item K V))
          → slot nw ns q ≡ some m
          → find_in V h (shifted (c + 6) k) k m.1 ≡ search k (list_items h m.1))
      → search k (list_entries (list_items h) nw iw ns is)
        ≡ read V h (shifted c k) k (slot iw is j) (slot nw ns j)
  unfolding list_entries
  entries-search h c i j P [] [] ns is e k d found = refl
  entries-search h c i j P [] (b ∷ iw) ns is e k d found = absurd (omega (arith, e.same_length))
  entries-search h c i j P (b ∷ nw) [] ns is e k d found = absurd (omega (arith, e.same_length))
  entries-search h c i j P (true ∷ nw) (true ∷ iw) ns is e k d found =
      absurd (ground (arith, e.apart 0 refl))
  entries-search h c i j P (true ∷ nw) (false ∷ iw) [] is e k d found =
      absurd (omega (arith, e.nodes_packed))
  entries-search h c i zero P (true ∷ nw) (false ∷ iw) (m ∷ ns) is e k d found =
      search-append k (list_items h m.1) (list_entries (list_items h) nw iw ns is)
      ∙ ap (or_else (search k (list_items h m.1))) (
          search_below c (suc i * 2 ^ 58) k _
            (entries-Rising V h c (suc i) P nw iw ns is
              (IsEntries-node V h c i P nw iw m ns is e)).0
            (omega (arith, d)))
      ∙ or_else-none (search k (list_items h m.1))
      ∙ sym (ap (λ y. find_in V h y k m.1) (consume-shifted c k) ∙ found 0 m refl)
  entries-search h c i (suc j) P (true ∷ nw) (false ∷ iw) (m ∷ ns) is e k d found =
      search-append k (list_items h m.1) (list_entries (list_items h) nw iw ns is)
      ∙ ap (λ y. or_else y (search k (list_entries (list_items h) nw iw ns is)))
          (search_absent (λ l. P l × (digit (shifted c l) ≡ i)) k (list_items h m.1)
            (first_node V h c i P nw iw m ns is e).1 (λ q. absurd (omega (arith, q.1, d))))
      ∙ entries-search h c (suc i) j P nw iw ns is (IsEntries-node V h c i P nw iw m ns is e) k
          (omega (arith, d)) (λ q. found (suc q))
  entries-search h c i j P (false ∷ nw) (true ∷ iw) ns [] e k d found =
      absurd (omega (arith, e.items_packed))
  entries-search h c i zero P (false ∷ nw) (true ∷ iw) ns (x ∷ is) e k d found =
      ap (λ y. if o.equal x.key k then some x else y)
        (search_below c (suc i * 2 ^ 58) k _
          (entries-Rising V h c (suc i) P nw iw ns is (IsEntries-item V h c i P nw iw ns x is e)).0
          (omega (arith, d)))
  entries-search h c i (suc j) P (false ∷ nw) (true ∷ iw) ns (x ∷ is) e k d found =
      ap (λ b. if b then some x else search k (list_entries (list_items h) nw iw ns is))
        (equal_other c x.key k i j (e.item 0 x refl).1 d)
      ∙ entries-search h c (suc i) j P nw iw ns is (IsEntries-item V h c i P nw iw ns x is e) k
          (omega (arith, d)) (λ q. found (suc q))
  entries-search h c i zero P (false ∷ nw) (false ∷ iw) ns is e k d found =
      search_below c (suc i * 2 ^ 58) k _
        (entries-Rising V h c (suc i) P nw iw ns is (IsEntries-none V h c i P nw iw ns is e)).0
        (omega (arith, d))
  entries-search h c i (suc j) P (false ∷ nw) (false ∷ iw) ns is e k d found =
      entries-search h c (suc i) j P nw iw ns is (IsEntries-none V h c i P nw iw ns is e) k
        (omega (arith, d)) (λ q. found (suc q))

  pub find_in-search :
      (h c : ℕ) (P : K → Type 0) (n : Node h (Item K V)) (k : K)
      → IsNode V h c P n
      → find_in V h (shifted c k) k n ≡ search k (list_items h n)
  unfolding list_items
  find_in-search zero c P n k w = absurd (ground (arith, w.0))
  find_in-search (suc h) c P n k w =
      find_in-read V h (shifted c k) k n w.nodes_packed w.items_packed
      ∙ sym (
          entries-search h c 0 (digit (shifted c k)) P n.node_bitmap n.item_bitmap n.nodes n.items
            (node-IsEntries V h c P n (list_items-Rising V h (c + 6)) w) k (omega arith)
            (λ q m e.
              find_in-search h (c + 6) (λ l. P l × (digit (shifted c l) ≡ q)) m.1 k
                (w.node_ok q m e)))
