-- ===== src/Common/V8gHashTrie/Visit/First.antt =====
-- include/voxen/common/v8g_hash_trie_impl.hpp: `visitUnary`, `findFirst` and the list of the items.
use voxen.Prelude.{
  ℕ, zero, suc, ◌+◌, ◌≡◌, refl, sym, ap, ◌∙◌, Bool, true, false, List, [], ◌∷◌, ◌++◌, Option, none,
  some, get_or, if◌then◌else◌, arith, length,
}
use voxen.Prelude.Words.{Word, popcount}
use voxen.Prelude.Packed.{slot}
use voxen.Common.V8gFlatMap.{Item}
use voxen.Common.V8gHashTrie.{HashKey, Node, digit, shifted}
use voxen.Common.V8gHashTrie.Invariant.{IsNode}
use voxen.Common.V8gHashTrie.Visit.{
  list_entries, list_items, or_else, visit_entries, visit_unary, first_entry, find_first_item,
}

module _ {ℓ κ} {I : Type ℓ} {S : Type κ} (visitor : I → S → Bool × S) where
  -- The visitor called for the items of a list until it stops.
  pub visit_list : List I → S → Bool × S
  visit_list [] s = (true, s)
  visit_list (x ∷ xs) s = let (go, s') = visitor x s in if go then visit_list xs s' else (false, s')

  abbrev and_then : Bool × S → List I → Bool × S
  and_then (true, s) ys = visit_list ys s
  and_then (false, s) ys = (false, s)

  and_then-nil : (r : Bool × S) → and_then r [] ≡ r
  unfolding visit_list
  and_then-nil (true, s) = refl
  and_then-nil (false, s) = refl

  go_on :
      (r : Bool × S) (ys : List I) (f : S → Bool × S)
      → ((u : S) → f u ≡ visit_list ys u)
      → (if r.0 then f r.1 else (false, r.1)) ≡ and_then r ys
  go_on (true, u) ys f e = e u
  go_on (false, u) ys f e = refl

  go_through :
      (r : Bool × S) (ys : List I) (f g : S → Bool × S)
      → ((u : S) → f u ≡ and_then (g u) ys)
      → (if r.0 then f r.1 else (false, r.1)) ≡ and_then (if r.0 then g r.1 else (false, r.1)) ys
  go_through (true, u) ys f g e = e u
  go_through (false, u) ys f g e = refl

  visit_list-append :
      (xs ys : List I) (s : S) → visit_list (xs ++ ys) s ≡ and_then (visit_list xs s) ys
  unfolding visit_list
  visit_list-append [] ys s = refl
  visit_list-append (x ∷ xs) ys s =
      go_through (visitor x s) ys (visit_list (xs ++ ys)) (visit_list xs) (visit_list-append xs ys)

  visit_entries-list :
      (h : ℕ) (nw iw : Word) (ns : List (ℕ × Node h I)) (is : List I) (s : S)
      → ((m : Node h I) (u : S) → visit_unary visitor h m u ≡ visit_list (list_items h m) u)
      → visit_entries (visit_unary visitor h) visitor nw iw ns is s
        ≡ visit_list (list_entries (list_items h) nw iw ns is) s
  unfolding visit_entries list_entries visit_list
  visit_entries-list h [] iw ns is s below = refl
  visit_entries-list h (b ∷ nw) [] ns is s below = refl
  visit_entries-list h (true ∷ nw) (b ∷ iw) [] is s below = refl
  visit_entries-list h (true ∷ nw) (b ∷ iw) ((version, m) ∷ ns) is s below =
      go_on (visit_unary visitor h m s) (list_entries (list_items h) nw iw ns is)
        (visit_entries (visit_unary visitor h) visitor nw iw ns is)
        (λ u. visit_entries-list h nw iw ns is u below)
      ∙ ap (λ r. and_then r (list_entries (list_items h) nw iw ns is)) (below m s)
      ∙ sym (visit_list-append (list_items h m) (list_entries (list_items h) nw iw ns is) s)
  visit_entries-list h (false ∷ nw) (true ∷ iw) ns [] s below = refl
  visit_entries-list h (false ∷ nw) (true ∷ iw) ns (x ∷ is) s below =
      go_through (visitor x s) [] (visit_entries (visit_unary visitor h) visitor nw iw ns is)
        (visit_list (list_entries (list_items h) nw iw ns is))
        (λ u. visit_entries-list h nw iw ns is u below ∙ sym (and_then-nil _))
      ∙ and_then-nil _
  visit_entries-list h (false ∷ nw) (false ∷ iw) ns is s below =
      visit_entries-list h nw iw ns is s below

  -- `visitUnary` calls the visitor for the items of the node in the order of their digits, until the
  -- visitor asks to stop.
  pub visit_unary-list_items :
      (h : ℕ) (n : Node h I) (s : S) → visit_unary visitor h n s ≡ visit_list (list_items h n) s
  unfolding visit_unary list_items visit_list
  visit_unary-list_items zero n s = refl
  visit_unary-list_items (suc h) n s =
      visit_entries-list h n.node_bitmap n.item_bitmap n.nodes n.items s (visit_unary-list_items h)

module _ {ℓ} {I : Type ℓ} where
  abbrev pub head : List I → Option I
  head [] = none
  head (x ∷ xs) = some x

  pub head-append : (xs ys : List I) → head (xs ++ ys) ≡ or_else (head xs) (head ys)
  head-append [] ys = refl
  head-append (x ∷ xs) ys = refl

  pub first_entry-head :
      (h : ℕ) (nw iw : Word) (ns : List (ℕ × Node h I)) (is : List I)
      → ((j : ℕ) → get_or nw j false ≡ true → get_or iw j false ≡ false)
      → ((j : ℕ) (m : ℕ × Node h I)
          → slot nw ns j ≡ some m
          → find_first_item h m.1 ≡ head (list_items h m.1))
      → popcount iw ≡ length is
      → first_entry (find_first_item h) nw iw ns is ≡ head (list_entries (list_items h) nw iw ns is)
  unfolding first_entry list_entries
  first_entry-head h [] iw ns is apart below p = refl
  first_entry-head h (b ∷ nw) [] ns is apart below p = refl
  first_entry-head h (true ∷ nw) (true ∷ iw) ns is apart below p =
      absurd (ground (arith, apart 0 refl))
  first_entry-head h (false ∷ nw) (true ∷ iw) ns [] apart below p = refl
  first_entry-head h (false ∷ nw) (true ∷ iw) ns (x ∷ is) apart below p = refl
  first_entry-head h (true ∷ nw) (false ∷ iw) [] is apart below p = refl
  first_entry-head h (true ∷ nw) (false ∷ iw) ((version, m) ∷ ns) is apart below p =
      ap (λ y. or_else y (first_entry (find_first_item h) nw iw ns is)) (below 0 (version, m) refl)
      ∙ ap (or_else (head (list_items h m)))
          (first_entry-head h nw iw ns is (λ j. apart (suc j)) (λ j. below (suc j)) p)
      ∙ sym (head-append (list_items h m) (list_entries (list_items h) nw iw ns is))
  first_entry-head h (false ∷ nw) (false ∷ iw) ns is apart below p =
      first_entry-head h nw iw ns is (λ j. apart (suc j)) (λ j. below (suc j)) p

module _ {ℓ κ} {K : Type ℓ} ⦃o : HashKey K⦄ {V : Type κ} where
  pub find_first_item-head :
      (h c : ℕ) (P : K → Type 0) (n : Node h (Item K V))
      → IsNode V h c P n
      → find_first_item h n ≡ head (list_items h n)
  unfolding find_first_item list_items
  find_first_item-head zero c P n w = refl
  find_first_item-head (suc h) c P n w =
      first_entry-head h n.node_bitmap n.item_bitmap n.nodes n.items w.apart
        (λ j m e.
          find_first_item-head h (c + 6) (λ k. P k × (digit (shifted c k) ≡ j)) m.1
            (w.node_ok j m e))
        w.items_packed.1
