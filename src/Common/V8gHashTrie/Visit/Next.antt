-- ===== src/Common/V8gHashTrie/Visit/Next.antt =====
-- include/voxen/common/v8g_hash_trie_impl.hpp: `findNextItem` among the items of a node.
use voxen.Prelude.{
  ℕ, zero, suc, ◌+◌, ◌*◌, ◌^◌, ◌<◌, ◌≤◌, ◌≡◌, refl, sym, ap, ◌∙◌, Bool, true, false, List, [], ◌∷◌,
  ◌++◌, Option, none, some, arith, Bool-cases, inl, inr, if◌then◌else◌, ltb,
}
use voxen.Prelude.Words.{Word}
use voxen.Prelude.Packed.{slot}
use voxen.Common.V8gFlatMap.{Item}
use voxen.Common.V8gHashTrie.{HashKey, Node, digit, consume, shifted}
use voxen.Common.V8gHashTrie.Digits.{consume-shifted}
use voxen.Common.V8gHashTrie.Visit.{
  list_entries, list_items, or_else, first_entry, find_first_item, skip, after_hash,
}
use voxen.Common.V8gHashTrie.Visit.Rising.{Rising, AllKeys}
use voxen.Common.V8gHashTrie.Visit.Items.{
  IsEntries, IsEntries-node, IsEntries-item, IsEntries-none, first_node, entries-Rising,
}
use voxen.Common.V8gHashTrie.Visit.First.{head, first_entry-head}

above : (a low b : ℕ) → a < low → low ≤ b → ltb a b ≡ true
above a low b h k = ground arith

below_le : (a b i : ℕ) → digit b ≡ i → i < digit a → b ≤ a
below_le a b i d h = omega arith

below_digit : (a b i : ℕ) → digit b ≡ i → i < digit a → ltb a b ≡ false
below_digit a b i d h = ground (arith, below_le a b i d h)

pub test_lt : (a b : ℕ) → a < b → ltb a b ≡ true
test_lt a b h = ground arith

pub test_le : (a b : ℕ) → b ≤ a → ltb a b ≡ false
test_le a b h = ground arith

pub ltb_lt : (a b : ℕ) → ltb a b ≡ true → a < b
ltb_lt a b t = ground (arith, t)

pub ltb_le : (a b : ℕ) → ltb a b ≡ false → b ≤ a
ltb_le a b t = ground (arith, t)

same_digit :
    (a b i : ℕ)
    → digit a ≡ i
    → digit b ≡ i
    → a < 2 ^ 64
    → b < 2 ^ 64
    → ltb a b ≡ ltb (consume a) (consume b)
same_digit a b i d e h k = elim (Bool-cases (ltb a b)) [
  | inl t ↦ t ∙ sym (test_lt (consume a) (consume b) (omega (arith, d, e, h, k, ltb_lt a b t)))
  | inr t ↦ t ∙ sym (test_le (consume a) (consume b) (omega (arith, d, e, h, k, ltb_le a b t)))
]

module _ {ℓ κ} {K : Type ℓ} ⦃o : HashKey K⦄ {V : Type κ} where
  -- The first item whose bits are above those of the key.
  abbrev pub next_in : ℕ → K → List (Item K V) → Option (Item K V)
  next_in c k [] = none
  next_in c k (x ∷ xs) = if ltb (shifted c k) (shifted c x.key) then some x else next_in c k xs

  pub next_in-append :
      (c : ℕ) (k : K) (xs ys : List (Item K V))
      → next_in c k (xs ++ ys) ≡ or_else (next_in c k xs) (next_in c k ys)
  next_in-append c k [] ys = refl
  next_in-append c k (x ∷ xs) ys = elim (Bool-cases (ltb (shifted c k) (shifted c x.key))) [
    | inl t ↦ rw (t) refl
    | inr t ↦ rw (t) (next_in-append c k xs ys)
  ]

  -- Items that are all above the key, or all below it.
  next_in_above :
      (c low : ℕ) (k : K) (xs : List (Item K V))
      → Rising c low xs
      → shifted c k < low
      → next_in c k xs ≡ head xs
  next_in_above c low k [] r h = refl
  next_in_above c low k (x ∷ xs) r h =
      ap (λ b. if b then some x else next_in c k xs)
        (above (shifted c k) low (shifted c x.key) h r.0)

  next_in_below :
      (c i : ℕ) (P : K → Type 0) (k : K) (xs : List (Item K V))
      → AllKeys (λ l. P l × (digit (shifted c l) ≡ i)) xs
      → i < digit (shifted c k)
      → next_in c k xs ≡ none
  next_in_below c i P k [] a h = refl
  next_in_below c i P k (x ∷ xs) a h =
      ap (λ b. if b then some x else next_in c k xs)
        (below_digit (shifted c k) (shifted c x.key) i a.0.1 h)
      ∙ next_in_below c i P k xs a.1 h

  next_in_same :
      (c i : ℕ) (P : K → Type 0) (k : K) (xs : List (Item K V))
      → AllKeys (λ l. P l × (digit (shifted c l) ≡ i)) xs
      → digit (shifted c k) ≡ i
      → next_in c k xs ≡ next_in (c + 6) k xs
  next_in_same c i P k [] a d = refl
  next_in_same c i P k (x ∷ xs) a d =
      ap (λ b. if b then some x else next_in c k xs)
        (same_digit (shifted c k) (shifted c x.key) i d a.0.1 (omega arith) (omega arith)
          ∙ ap (λ y. ltb y (consume (shifted c x.key))) (consume-shifted c k)
          ∙ ap (ltb (shifted (c + 6) k)) (consume-shifted c x.key))
      ∙ ap (λ y. if ltb (shifted (c + 6) k) (shifted (c + 6) x.key) then some x else y)
          (next_in_same c i P k xs a.1 d)

  -- What `findNextItem` takes from the entries of the key's digit.
  abbrev pub in_node : ℕ → ℕ → K → (h : ℕ) → Option (ℕ × Node h (Item K V)) → Option (Item K V)
  in_node c i k h none = none
  in_node c i k h (some m) = next_in (c + 6) k (list_items h m.1)

  rest_first :
      (h c i : ℕ) (P : K → Type 0) (nw iw : Word) (ns : List (ℕ × Node h (Item K V)))
      (is : List (Item K V))
      → IsEntries V h c (suc i) P nw iw ns is
      → (k : K) → digit (shifted c k) ≡ i
      → ((q : ℕ) (m : ℕ × Node h (Item K V))
          → slot nw ns q ≡ some m
          → find_first_item h m.1 ≡ head (list_items h m.1))
      → next_in c k (list_entries (list_items h) nw iw ns is)
        ≡ first_entry (find_first_item h) nw iw ns is
  rest_first h c i P nw iw ns is e k d f =
      next_in_above c (suc i * 2 ^ 58) k (list_entries (list_items h) nw iw ns is)
        (entries-Rising V h c (suc i) P nw iw ns is e).0 (omega (arith, d))
      ∙ sym (first_entry-head h nw iw ns is e.apart f e.items_packed)

  split_or :
      (b : Bool) (x : Item K V) (y : Option (Item K V))
      → (if b then some x else y) ≡ or_else (if b then some x else none) y
  split_or true x y = refl
  split_or false x y = refl

  pub entries-next :
      (h c i j : ℕ) (P : K → Type 0) (nw iw : Word) (ns : List (ℕ × Node h (Item K V)))
      (is : List (Item K V))
      → IsEntries V h c i P nw iw ns is
      → (k : K) → digit (shifted c k) ≡ i + j
      → ((q : ℕ) (m : ℕ × Node h (Item K V))
          → slot nw ns q ≡ some m
          → find_first_item h m.1 ≡ head (list_items h m.1))
      → next_in c k (list_entries (list_items h) nw iw ns is)
        ≡ or_else (in_node c i k h (slot nw ns j)) (
            or_else (after_hash c (shifted c k) (slot iw is j)) (
              first_entry
                (find_first_item h)
                (skip (suc j) nw ns).0
                (skip (suc j) iw is).0
                (skip (suc j) nw ns).1
                (skip (suc j) iw is).1))
  unfolding list_entries first_entry
  entries-next h c i j P [] [] ns is e k d f = refl
  entries-next h c i j P [] (b ∷ iw) ns is e k d f = absurd (omega (arith, e.same_length))
  entries-next h c i j P (b ∷ nw) [] ns is e k d f = absurd (omega (arith, e.same_length))
  entries-next h c i j P (true ∷ nw) (true ∷ iw) ns is e k d f =
      absurd (ground (arith, e.apart 0 refl))
  entries-next h c i j P (true ∷ nw) (false ∷ iw) [] is e k d f =
      absurd (omega (arith, e.nodes_packed))
  entries-next h c i zero P (true ∷ nw) (false ∷ iw) (m ∷ ns) is e k d f =
      next_in-append c k (list_items h m.1) (list_entries (list_items h) nw iw ns is)
      ∙ ap (λ y. or_else y (next_in c k (list_entries (list_items h) nw iw ns is)))
          (next_in_same c i P k (list_items h m.1) (first_node V h c i P nw iw m ns is e).1
            (omega (arith, d)))
      ∙ ap (or_else (next_in (c + 6) k (list_items h m.1))) (
          rest_first h c i P nw iw ns is (IsEntries-node V h c i P nw iw m ns is e) k
            (omega (arith, d)) (λ q. f (suc q)))
  entries-next h c i (suc j) P (true ∷ nw) (false ∷ iw) (m ∷ ns) is e k d f =
      next_in-append c k (list_items h m.1) (list_entries (list_items h) nw iw ns is)
      ∙ ap (λ y. or_else y (next_in c k (list_entries (list_items h) nw iw ns is)))
          (next_in_below c i P k (list_items h m.1) (first_node V h c i P nw iw m ns is e).1
            (omega (arith, d)))
      ∙ entries-next h c (suc i) j P nw iw ns is (IsEntries-node V h c i P nw iw m ns is e) k
          (omega (arith, d)) (λ q. f (suc q))
  entries-next h c i j P (false ∷ nw) (true ∷ iw) ns [] e k d f =
      absurd (omega (arith, e.items_packed))
  entries-next h c i zero P (false ∷ nw) (true ∷ iw) ns (x ∷ is) e k d f =
      ap (λ y. if ltb (shifted c k) (shifted c x.key) then some x else y)
        (rest_first h c i P nw iw ns is (IsEntries-item V h c i P nw iw ns x is e) k
          (omega (arith, d)) (λ q. f (suc q)))
      ∙ split_or (ltb (shifted c k) (shifted c x.key)) x _
  entries-next h c i (suc j) P (false ∷ nw) (true ∷ iw) ns (x ∷ is) e k d f =
      ap (λ b. if b then some x else next_in c k (list_entries (list_items h) nw iw ns is))
        (below_digit (shifted c k) (shifted c x.key) (i + 0) (e.item 0 x refl).1 (omega (arith, d)))
      ∙ entries-next h c (suc i) j P nw iw ns is (IsEntries-item V h c i P nw iw ns x is e) k
          (omega (arith, d)) (λ q. f (suc q))
  entries-next h c i zero P (false ∷ nw) (false ∷ iw) ns is e k d f =
      rest_first h c i P nw iw ns is (IsEntries-none V h c i P nw iw ns is e) k (omega (arith, d))
        (λ q. f (suc q))
  entries-next h c i (suc j) P (false ∷ nw) (false ∷ iw) ns is e k d f =
      entries-next h c (suc i) j P nw iw ns is (IsEntries-none V h c i P nw iw ns is e) k
        (omega (arith, d)) (λ q. f (suc q))
