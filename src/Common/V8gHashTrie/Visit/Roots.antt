-- ===== src/Common/V8gHashTrie/Visit/Roots.antt =====
-- include/voxen/common/v8g_hash_trie_impl.hpp: the items of a trie, in the order of their hashes.
use voxen.Prelude.{
  ℕ, zero, suc, ◌+◌, ◌*◌, ◌/◌, ◌%◌, ◌^◌, ◌≤◌, ◌≡◌, refl, sym, ap, ◌∙◌, subst, List, [], ◌∷◌, ◌++◌,
  Option, none, some, get_or, arith,
}
use voxen.Common.V8gFlatMap.{Item}
use voxen.Common.V8gHashTrie.{HashKey, Node, shifted}
use voxen.Common.V8gHashTrie.{Trie, find, find_root, root_index}
use voxen.Common.V8gHashTrie.Contents.{IsTrie, IsRoot}
use voxen.Common.V8gHashTrie.Visit.{
  or_else, find_first, first_of_roots, list_roots, list_root, first_of_root,
}
use voxen.Common.V8gHashTrie.Visit.Rising.{AllKeys, AllKeys-map, AllKeys-append}
use voxen.Common.V8gHashTrie.Visit.Items.{list_items-Rising}
use voxen.Common.V8gHashTrie.Visit.Search.{
  search, search-append, search_absent, find_in-search, or_else-none,
}
use voxen.Common.V8gHashTrie.Visit.Rising.{Rising}
use voxen.Common.V8gHashTrie.Visit.First.{head, head-append, find_first_item-head}

suc_shift : (i j : ℕ) → i + suc j ≡ suc i + j
suc_shift i j = omega arith

-- Arithmetic of a root's index.
root_first_bound : (a i low : ℕ) → low ≤ i * 2 ^ 60 + a % 2 ^ 60 → a / 2 ^ 60 ≡ i → low ≤ a
root_first_bound a i low h d = omega arith

root_next_bound :
    (a i q : ℕ) → a / 2 ^ 60 ≡ i → suc (a * 2 ^ 4 % 2 ^ 64) ≤ q * 2 ^ 4 → suc a ≤ i * 2 ^ 60 + q
root_next_bound a i q d h = omega arith

root_upper_bound : (a i : ℕ) → a / 2 ^ 60 ≡ i → suc a ≤ suc i * 2 ^ 60
root_upper_bound a i d = omega arith

root_low_bound : (a low : ℕ) → low ≤ a * 2 ^ 4 % 2 ^ 64 → low ≤ a % 2 ^ 60 * 2 ^ 4
root_low_bound a low l = omega arith

module _ {ℓ κ} {K : Type ℓ} ⦃o : HashKey K⦄ {V : Type κ} where
  -- The hashes rise along the list, from the bound on.
  abbrev pub HashesRise : ℕ → List (Item K V) → Type 0
  HashesRise low [] = Unit {0}
  HashesRise low (x ∷ xs) = (low ≤ o.hash x.key) × HashesRise (suc (o.hash x.key)) xs

  HashesRise-weaken :
      (low low' : ℕ) (xs : List (Item K V)) → HashesRise low' xs → low ≤ low' → HashesRise low xs
  HashesRise-weaken low low' [] r h = tt
  HashesRise-weaken low low' (x ∷ xs) r h = (omega (arith, r.0, h), r.1)

  HashesRise-append :
      (i low below : ℕ) (xs ys : List (Item K V))
      → ((r : ℕ) → below ≤ r * 2 ^ 4 → low ≤ i * 2 ^ 60 + r)
      → low ≤ suc i * 2 ^ 60
      → AllKeys (λ k. root_index k ≡ i) xs
      → Rising 4 below xs
      → HashesRise (suc i * 2 ^ 60) ys
      → HashesRise low (xs ++ ys)
  HashesRise-append i low below [] ys link h a r s = HashesRise-weaken low (suc i * 2 ^ 60) ys s h
  HashesRise-append i low below (x ∷ xs) ys link h a r s = (
    root_first_bound (o.hash x.key) i low
        (link (o.hash x.key % 2 ^ 60) (root_low_bound (o.hash x.key) below r.0)) a.0,
    HashesRise-append i (suc (o.hash x.key)) (suc (shifted 4 x.key)) xs ys
        (λ q b. root_next_bound (o.hash x.key) i q a.0 b) (root_upper_bound (o.hash x.key) i a.0)
        a.1 r.1 s,
  )

  root_search :
      (r : ℕ) (root : ℕ × Option (Node 10 (Item K V))) (k : K)
      → IsRoot r root
      → find_root k root.1 ≡ search k (list_root root.1)
  root_search r (version, none) k w = refl
  root_search r (version, some n) k w = find_in-search 10 4 (λ l. root_index l ≡ r) n k w

  pub root_keys :
      (r : ℕ) (root : ℕ × Option (Node 10 (Item K V)))
      → IsRoot r root
      → AllKeys (λ l. root_index l ≡ r) (list_root root.1)
  root_keys r (version, none) w = tt
  root_keys r (version, some n) w = (list_items-Rising V 10 4 (λ l. root_index l ≡ r) n w).1

  root_first :
      (r : ℕ) (root : ℕ × Option (Node 10 (Item K V)))
      → IsRoot r root
      → first_of_root root.1 ≡ head (list_root root.1)
  root_first r (version, none) w = refl
  root_first r (version, some n) w = find_first_item-head 10 4 (λ l. root_index l ≡ r) n w

  pub later_roots :
      (i : ℕ) (root : ℕ × Option (Node 10 (Item K V)))
      (roots : List (ℕ × Option (Node 10 (Item K V))))
      → ((j : ℕ) → IsRoot (i + j) (get_or (root ∷ roots) j (0, none)))
      → (j : ℕ) → IsRoot (suc i + j) (get_or roots j (0, none))
  later_roots i root roots w j =
      subst (λ q. IsRoot q (get_or roots j (0, none))) (suc_shift i j) (w (suc j))

  root_rises :
      (r : ℕ) (root : ℕ × Option (Node 10 (Item K V)))
      → IsRoot r root
      → Rising 4 0 (list_root root.1)
  root_rises r (version, none) w = tt
  root_rises r (version, some n) w = (list_items-Rising V 10 4 (λ l. root_index l ≡ r) n w).0

  pub roots_keys :
      (i : ℕ) (roots : List (ℕ × Option (Node 10 (Item K V))))
      → ((j : ℕ) → IsRoot (i + j) (get_or roots j (0, none)))
      → AllKeys (λ l. i ≤ root_index l) (list_roots roots)
  unfolding list_roots
  roots_keys i [] w = tt
  roots_keys i (root ∷ roots) w =
      AllKeys-append (λ l. i ≤ root_index l) (list_root root.1) (list_roots roots)
        (AllKeys-map (λ l. root_index l ≡ i + 0) (λ l. i ≤ root_index l) (list_root root.1)
          (λ k e. omega (arith, e)) (root_keys (i + 0) root (w 0)))
        (AllKeys-map (λ l. suc i ≤ root_index l) (λ l. i ≤ root_index l) (list_roots roots)
          (λ k e. omega (arith, e)) (roots_keys (suc i) roots (later_roots i root roots w)))

  roots_rise :
      (i : ℕ) (roots : List (ℕ × Option (Node 10 (Item K V))))
      → ((j : ℕ) → IsRoot (i + j) (get_or roots j (0, none)))
      → HashesRise (i * 2 ^ 60) (list_roots roots)
  unfolding list_roots
  roots_rise i [] w = tt
  roots_rise i (root ∷ roots) w =
      HashesRise-append i (i * 2 ^ 60) 0 (list_root root.1) (list_roots roots) (λ q b. omega arith)
        (omega arith)
        (AllKeys-map (λ l. root_index l ≡ i + 0) (λ l. root_index l ≡ i) (list_root root.1)
          (λ k e. omega (arith, e)) (root_keys (i + 0) root (w 0)))
        (root_rises (i + 0) root (w 0)) (roots_rise (suc i) roots (later_roots i root roots w))

  pub roots_first :
      (i : ℕ) (roots : List (ℕ × Option (Node 10 (Item K V))))
      → ((j : ℕ) → IsRoot (i + j) (get_or roots j (0, none)))
      → first_of_roots roots ≡ head (list_roots roots)
  unfolding list_roots first_of_roots
  roots_first i [] w = refl
  roots_first i (root ∷ roots) w =
      ap (λ y. or_else y (first_of_roots roots)) (root_first (i + 0) root (w 0))
      ∙ ap (or_else (head (list_root root.1)))
          (roots_first (suc i) roots (later_roots i root roots w))
      ∙ sym (head-append (list_root root.1) (list_roots roots))

  roots_search :
      (i j : ℕ) (roots : List (ℕ × Option (Node 10 (Item K V)))) (k : K)
      → ((q : ℕ) → IsRoot (i + q) (get_or roots q (0, none)))
      → root_index k ≡ i + j
      → find_root k (get_or roots j (0, none)).1 ≡ search k (list_roots roots)
  unfolding list_roots
  roots_search i j [] k w e = refl
  roots_search i zero (root ∷ roots) k w e =
      root_search (i + 0) root k (w 0)
      ∙ sym (
          search-append k (list_root root.1) (list_roots roots)
          ∙ ap (or_else (search k (list_root root.1))) (
              search_absent (λ l. suc i ≤ root_index l) k (list_roots roots)
                (roots_keys (suc i) roots (later_roots i root roots w))
                (λ q. absurd (omega (arith, q, e))))
          ∙ or_else-none (search k (list_root root.1)))
  roots_search i (suc j) (root ∷ roots) k w e =
      roots_search (suc i) j roots k (later_roots i root roots w) (omega (arith, e))
      ∙ sym (
          search-append k (list_root root.1) (list_roots roots)
          ∙ ap (λ y. or_else y (search k (list_roots roots)))
              (search_absent (λ l. root_index l ≡ i + 0) k (list_root root.1)
                (root_keys (i + 0) root (w 0)) (λ q. absurd (omega (arith, q, e)))))

  -- The items of a well-formed trie in the order in which they are visited have rising hashes;
  -- `find` gives what a search among them for the key gives, and `findFirst` gives the first of them.
  pub list_roots_lem :
      (t : Trie K V)
      → IsTrie t
      → HashesRise 0 (list_roots t.root_nodes)
        × ((k : K) → find k t ≡ search k (list_roots t.root_nodes))
        × (find_first t ≡ head (list_roots t.root_nodes))
  unfolding find find_first
  list_roots_lem t w = (
    HashesRise-weaken 0 (0 * 2 ^ 60) (list_roots t.root_nodes) (roots_rise 0 t.root_nodes ok)
        (omega arith),
    λ k. roots_search 0 (root_index k) t.root_nodes k ok (omega arith),
    roots_first 0 t.root_nodes ok,
  )
    where
      ok : (j : ℕ) → IsRoot (0 + j) (get_or t.root_nodes j (0, none))
      ok j =
          let q : j ≡ 0 + j = omega arith in
          subst (λ y. IsRoot y (get_or t.root_nodes j (0, none))) q (w.root_ok j)
