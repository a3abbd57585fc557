-- ===== src/Common/V8gHashTrie/Visit/Following.antt =====
-- include/voxen/common/v8g_hash_trie_impl.hpp: `findNext` among the items of the trie.
use voxen.Prelude.{
  ℕ, zero, suc, ◌+◌, ◌*◌, ◌/◌, ◌%◌, ◌^◌, ◌<◌, ◌≤◌, ◌≡◌, refl, sym, ap, ◌∙◌, subst, List, [], ◌∷◌,
  ◌++◌, Option, none, some, get_or, arith, Bool-cases, inl, inr, if◌then◌else◌, ltb,
}
use voxen.Common.V8gFlatMap.{Item}
use voxen.Common.V8gHashTrie.{HashKey, Node, Trie, shifted, root_index}
use voxen.Common.V8gHashTrie.Contents.{IsTrie, IsRoot}
use voxen.Common.V8gHashTrie.Visit.{
  list_roots, list_root, or_else, find_next, next_of_roots, next_of_root, first_of_roots,
}
use voxen.Common.V8gHashTrie.Visit.Rising.{AllKeys, AllKeys-map}
use voxen.Common.V8gHashTrie.Visit.First.{head}
use voxen.Common.V8gHashTrie.Visit.Next.{next_in, test_lt, test_le, ltb_lt, ltb_le}
use voxen.Common.V8gHashTrie.Visit.Roots.{later_roots, root_keys, roots_keys, roots_first}
use voxen.Common.V8gHashTrie.Visit.NextItem.{find_next_item-next}

same_root :
    (a b i : ℕ)
    → a / 2 ^ 60 ≡ i
    → b / 2 ^ 60 ≡ i
    → ltb a b ≡ ltb (a * 2 ^ 4 % 2 ^ 64) (b * 2 ^ 4 % 2 ^ 64)
same_root a b i d e = elim (Bool-cases (ltb a b)) [
  | inl t ↦
      t
      ∙ sym (test_lt (a * 2 ^ 4 % 2 ^ 64) (b * 2 ^ 4 % 2 ^ 64) (omega (arith, d, e, ltb_lt a b t)))
  | inr t ↦
      t
      ∙ sym (test_le (a * 2 ^ 4 % 2 ^ 64) (b * 2 ^ 4 % 2 ^ 64) (omega (arith, d, e, ltb_le a b t)))
]

module _ {ℓ κ} {K : Type ℓ} ⦃o : HashKey K⦄ {V : Type κ} where
  -- The first item with a greater hash.
  abbrev pub next_hash : K → List (Item K V) → Option (Item K V)
  next_hash k [] = none
  next_hash k (x ∷ xs) = if ltb (o.hash k) (o.hash x.key) then some x else next_hash k xs

  next_hash-append :
      (k : K) (xs ys : List (Item K V))
      → next_hash k (xs ++ ys) ≡ or_else (next_hash k xs) (next_hash k ys)
  next_hash-append k [] ys = refl
  next_hash-append k (x ∷ xs) ys = elim (Bool-cases (ltb (o.hash k) (o.hash x.key))) [
    | inl t ↦ rw (t) refl
    | inr t ↦ rw (t) (next_hash-append k xs ys)
  ]

  next_hash_above :
      (k : K) (xs : List (Item K V))
      → AllKeys (λ l. suc (root_index k) ≤ root_index l) xs
      → next_hash k xs ≡ head xs
  next_hash_above k [] a = refl
  next_hash_above k (x ∷ xs) a =
      ap (λ b. if b then some x else next_hash k xs)
        (test_lt (o.hash k) (o.hash x.key) (omega (arith, a.0)))

  next_hash_below :
      (k : K) (xs : List (Item K V))
      → AllKeys (λ l. root_index l < root_index k) xs
      → next_hash k xs ≡ none
  next_hash_below k [] a = refl
  next_hash_below k (x ∷ xs) a =
      ap (λ b. if b then some x else next_hash k xs)
        (test_le (o.hash k) (o.hash x.key) (omega (arith, a.0)))
      ∙ next_hash_below k xs a.1

  next_hash_same :
      (i : ℕ) (k : K) (xs : List (Item K V))
      → AllKeys (λ l. root_index l ≡ i) xs
      → root_index k ≡ i
      → next_hash k xs ≡ next_in 4 k xs
  next_hash_same i k [] a e = refl
  next_hash_same i k (x ∷ xs) a e =
      ap (λ b. if b then some x else next_hash k xs) (same_root (o.hash k) (o.hash x.key) i e a.0)
      ∙ ap (λ y. if ltb (shifted 4 k) (shifted 4 x.key) then some x else y)
          (next_hash_same i k xs a.1 e)

  root_next :
      (r : ℕ) (root : ℕ × Option (Node 10 (Item K V))) (k : K)
      → IsRoot r root
      → next_of_root (shifted 4 k) root.1 ≡ next_in 4 k (list_root root.1)
  root_next r (version, none) k w = refl
  root_next r (version, some n) k w = find_next_item-next 10 4 (λ l. root_index l ≡ r) n k w

  roots_next :
      (i j : ℕ) (roots : List (ℕ × Option (Node 10 (Item K V)))) (k : K)
      → ((q : ℕ) → IsRoot (i + q) (get_or roots q (0, none)))
      → root_index k ≡ i + j
      → next_of_roots j (shifted 4 k) roots ≡ next_hash k (list_roots roots)
  unfolding next_of_roots list_roots
  roots_next i j [] k w e = refl
  roots_next i zero (root ∷ roots) k w e =
      ap (λ y. or_else y (first_of_roots roots)) (root_next (i + 0) root k (w 0))
      ∙ ap (or_else (next_in 4 k (list_root root.1)))
          (roots_first (suc i) roots (later_roots i root roots w))
      ∙ sym (
          next_hash-append k (list_root root.1) (list_roots roots)
          ∙ ap (λ y. or_else y (next_hash k (list_roots roots)))
              (next_hash_same (i + 0) k (list_root root.1) (root_keys (i + 0) root (w 0)) e)
          ∙ ap (or_else (next_in 4 k (list_root root.1))) (
              next_hash_above k (list_roots roots) (
                AllKeys-map (λ l. suc i ≤ root_index l) (λ l. suc (root_index k) ≤ root_index l)
                  (list_roots roots) (λ l q. omega (arith, q, e))
                  (roots_keys (suc i) roots (later_roots i root roots w)))))
  roots_next i (suc j) (root ∷ roots) k w e =
      roots_next (suc i) j roots k (later_roots i root roots w) (omega (arith, e))
      ∙ sym (
          next_hash-append k (list_root root.1) (list_roots roots)
          ∙ ap (λ y. or_else y (next_hash k (list_roots roots)))
              (next_hash_below k (list_root root.1) (
                AllKeys-map (λ l. root_index l ≡ i + 0) (λ l. root_index l < root_index k)
                  (list_root root.1) (λ l q. omega (arith, q, e)) (root_keys (i + 0) root (w 0)))))

  -- In a well-formed trie `findNext` gives the first item, in the order of the hashes, whose hash is
  -- greater than that of the key.
  pub find_next_lem :
      (k : K) (t : Trie K V) → IsTrie t → find_next k t ≡ next_hash k (list_roots t.root_nodes)
  unfolding find_next
  find_next_lem k t w = roots_next 0 (root_index k) t.root_nodes k ok (omega arith)
    where
      ok : (j : ℕ) → IsRoot (0 + j) (get_or t.root_nodes j (0, none))
      ok j =
          let q : j ≡ 0 + j = omega arith in
          subst (λ y. IsRoot y (get_or t.root_nodes j (0, none))) q (w.root_ok j)
