-- ===== src/Common/V8gHashTrie/Lookup.antt =====
-- include/voxen/common/v8g_hash_trie_impl.hpp: `find` in a changed node.
use voxen.Prelude.{
  ℕ, suc, ◌≡◌, refl, sym, ap, ◌∙◌, false, Option, ◌==◌, Bool-cases, inl, inr, ==→eq, if◌then◌else◌,
}
use voxen.Prelude.Packed.{slot}
use voxen.Common.V8gFlatMap.{Item}
use voxen.Common.V8gHashTrie.{HashKey, Node, digit, shifted, find_in}
use voxen.Common.V8gHashTrie.Invariant.{IsPacked}
use voxen.Common.V8gHashTrie.Digits.{equal_digits}
use voxen.Common.V8gHashTrie.Entries.{read, find_in-read}

pub same_at {ℓ} :
    {A : Type ℓ} (s : ℕ → Option A) (bit j : ℕ) → s j ≡ (if bit == j then s bit else s j)
same_at s bit j = elim (Bool-cases (bit == j)) [
  | inl t ↦ rw (t, ==→eq bit j t) refl
  | inr t ↦ rw (t) refl
]

module _ {ℓ κ} {K : Type ℓ} ⦃o : HashKey K⦄ (V : Type κ) (h c : ℕ) (k : K)
    (n n' : Node (suc h) (Item K V)) (pn : IsPacked n.node_bitmap n.nodes)
    (pi : IsPacked n.item_bitmap n.items) (pn' : IsPacked n'.node_bitmap n'.nodes)
    (pi' : IsPacked n'.item_bitmap n'.items) (si : Option (Item K V))
    (sn : Option (ℕ × Node h (Item K V)))
    (ui : (j : ℕ)
      → slot n'.item_bitmap n'.items j
        ≡ (if digit (shifted c k) == j then si else slot n.item_bitmap n.items j))
    (un : (j : ℕ)
      → slot n'.node_bitmap n'.nodes j
        ≡ (if digit (shifted c k) == j then sn else slot n.node_bitmap n.nodes j)) where
  pub find_in-split :
      (new : Option (Item K V)) (l : K)
      → (digit (shifted c k) ≡ digit (shifted c l) → read V h (shifted c l) l si sn ≡ new)
      → ((digit (shifted c k) == digit (shifted c l)) ≡ false
          → find_in V (suc h) (shifted c l) l n ≡ new)
      → find_in V (suc h) (shifted c l) l n' ≡ new
  find_in-split new l at other =
      find_in-read V h (shifted c l) l n' pn' pi'
      ∙ elim (Bool-cases (digit (shifted c k) == digit (shifted c l))) [
        | inl t ↦ rw (ui (digit (shifted c l)), un (digit (shifted c l)), t) (at (==→eq _ _ t))
        | inr t ↦
            rw (ui (digit (shifted c l)), un (digit (shifted c l)), t)
              (sym (find_in-read V h (shifted c l) l n pn pi) ∙ other t)
      ]

  pub find_in-update :
      (new : Option (Item K V)) (l : K)
      → (digit (shifted c k) ≡ digit (shifted c l)
          → read V h (shifted c l) l si sn ≡ (
              if o.equal k l
              then new
              else read V h
                  (shifted c l)
                  l
                  (slot n.item_bitmap n.items (digit (shifted c k)))
                  (slot n.node_bitmap n.nodes (digit (shifted c k)))))
      → find_in V (suc h) (shifted c l) l n'
        ≡ (if o.equal k l then new else find_in V (suc h) (shifted c l) l n)
  find_in-update new l at =
      find_in-split (if o.equal k l then new else find_in V (suc h) (shifted c l) l n) l
        (λ q.
          at q
          ∙ ap (λ y. if o.equal k l then new else y)
              (ap
                  (λ i.
                    read V h (shifted c l) l (slot n.item_bitmap n.items i)
                      (slot n.node_bitmap n.nodes i))
                  q
                ∙ sym (find_in-read V h (shifted c l) l n pn pi)))
        (λ q. rw (equal_digits c k l q) refl)

  -- The same where the two entries of the digit read the same.
  pub find_in-same :
      (l : K)
      → read V h (shifted c l) l si sn
        ≡ read V h
            (shifted c l)
            l
            (slot n.item_bitmap n.items (digit (shifted c k)))
            (slot n.node_bitmap n.nodes (digit (shifted c k)))
      → find_in V (suc h) (shifted c l) l n' ≡ find_in V (suc h) (shifted c l) l n
  find_in-same l at =
      find_in-split (find_in V (suc h) (shifted c l) l n) l
        (λ q.
          at
          ∙ ap
              (λ i.
                read V h (shifted c l) l (slot n.item_bitmap n.items i)
                  (slot n.node_bitmap n.nodes i))
              q
          ∙ sym (find_in-read V h (shifted c l) l n pn pi))
        (λ q. refl)
