-- ===== src/Common/V8gHashTrie/Shrink.antt =====
-- include/voxen/common/v8g_hash_trie_impl.hpp: `tryShrinkChildNode`.
use voxen.Prelude.{
  ℕ, zero, suc, ◌+◌, ◌-◌, ◌≡◌, refl, sym, ap, ◌∙◌, true, false, none, some, List, [], ◌∷◌, get_or,
  get_elem?, arith, ◌==◌, Bool-cases, Option-cases, inl, inr, if◌then◌else◌, ltb, get_or-set_self,
}
use voxen.Prelude.Words.{Word, is_nonzero}
use voxen.Prelude.Packed.{slot, slot_clear, slot-insert_at, slot-remove_at, clear_lowest}
use voxen.Common.V8gFlatMap.{Item}
use voxen.Common.V8gHashTrie.{
  HashKey, Layout, Node, digit, shifted, find_in, match_item, insert_item, erase_node, try_shrink,
}
use voxen.Common.V8gHashTrie.Invariant.{IsNode}
use voxen.Common.V8gHashTrie.Digits.{equal_digits, consume-shifted, digit-shifted_lt}
use voxen.Common.V8gHashTrie.Entries.{read, find_in-read, ref-slot}
use voxen.Common.V8gHashTrie.Levels.{insert_item-Level, erase_node-Level}
use voxen.Common.V8gHashTrie.Lookup.{same_at, find_in-same}

==_refl : (i : ℕ) → (i == i) ≡ true
==_refl i = ground arith

==_suc_zero : (i : ℕ) → (suc i == 0) ≡ false
==_suc_zero i = ground arith

==_suc-suc : (i j : ℕ) → (suc i == suc j) ≡ (i == j)
==_suc-suc i j = ground arith

==_zero_suc : (i : ℕ) → (0 == suc i) ≡ false
==_zero_suc i = ground arith

slot_nonzero {ℓ} :
    {A : Type ℓ} (w : Word) (xs : List A) (i : ℕ) → is_nonzero w ≡ false → slot w xs i ≡ none
slot_nonzero [] xs i e = refl
slot_nonzero (true ∷ w) xs i e = absurd (ground (arith, e))
slot_nonzero (false ∷ w) xs zero e = refl
slot_nonzero (false ∷ w) xs (suc i) e = slot_nonzero w xs i e

-- A mask with one bit.
slot_only {ℓ} :
    {A : Type ℓ} (w : Word) (xs : List A) (x : A)
    → is_nonzero w ≡ true
    → is_nonzero (clear_lowest w) ≡ false
    → get_elem? xs 0 ≡ some x
    → (i : ℕ) × ((j : ℕ) → slot w xs j ≡ (if i == j then some x else none))
slot_only [] xs x t e q = absurd (ground (arith, t))
slot_only (true ∷ w) [] x t e q = absurd (ground (arith, q))
slot_only {A} (true ∷ w) (y ∷ xs) x t e q = (0, at)
  where
    at : (j : ℕ) → slot (true ∷ w) (y ∷ xs) j ≡ (if 0 == j then some x else none)
    at zero = q
    at (suc j) = rw (==_zero_suc j) (slot_nonzero w xs j e)
slot_only {A} (false ∷ w) xs x t e q = let (i, f) = slot_only w xs x t e q in (suc i, at i f)
  where
    at :
        (i : ℕ)
        → ((j : ℕ) → slot w xs j ≡ (if i == j then some x else none))
        → (j : ℕ) → slot (false ∷ w) xs j ≡ (if suc i == j then some x else none)
    at i f zero = rw (==_suc_zero i) refl
    at i f (suc j) = rw (==_suc-suc i j) (f j)

module _ {ℓ κ} {K : Type ℓ} ⦃o : HashKey K⦄ (V : Type κ) where
  -- A child with one item finds what its item matches, one without entries finds nothing.
  find_in-single :
      (h c : ℕ) (P : K → Type 0) (n : Node (suc h) (Item K V)) (x : Item K V) (l : K)
      → IsNode V (suc h) c P n
      → is_nonzero n.node_bitmap ≡ false
      → is_nonzero n.item_bitmap ≡ true
      → is_nonzero (clear_lowest n.item_bitmap) ≡ false
      → get_elem? n.items 0 ≡ some x
      → (find_in V (suc h) (shifted c l) l n ≡ match_item V l (some x)) × P x.key
  find_in-single h c P n x l w en ei one e =
      let (i, f) = slot_only n.item_bitmap n.items x ei one e in
      let at : slot n.item_bitmap n.items i ≡ some x =
        f i ∙ ap (λ b. if b then some x else none) (==_refl i) in
      let (px, d) = w.item_ok i x at in
      (
        find_in-read V h (shifted c l) l n w.nodes_packed w.items_packed
            ∙ ap
                (λ y. read V h (shifted c l) l (slot n.item_bitmap n.items (digit (shifted c l))) y)
                (slot_nonzero n.node_bitmap n.nodes (digit (shifted c l)) en)
            ∙ ap (λ y. read V h (shifted c l) l y none) (f (digit (shifted c l)))
            ∙ elim (Bool-cases (i == digit (shifted c l))) [
              | inl t ↦ rw (t) refl
              | inr t ↦
                  rw (t, equal_digits c x.key l (ap (λ y. y == digit (shifted c l)) d ∙ t)) refl
            ],
        px,
      )

  find_in-bare :
      (h c : ℕ) (P : K → Type 0) (n : Node (suc h) (Item K V)) (l : K)
      → IsNode V (suc h) c P n
      → is_nonzero n.node_bitmap ≡ false
      → is_nonzero n.item_bitmap ≡ false
      → find_in V (suc h) (shifted c l) l n ≡ none
  find_in-bare h c P n l w en ei =
      find_in-read V h (shifted c l) l n w.nodes_packed w.items_packed
      ∙ rw
          (
            slot_nonzero n.node_bitmap n.nodes (digit (shifted c l)) en,
            slot_nonzero n.item_bitmap n.items (digit (shifted c l)) ei,
          )
          refl

  -- What the shrinking keeps.
  abbrev pub IsShrunk :
      (h c : ℕ) → (K → Type 0) → Node (suc h) (Item K V) → Node (suc h) (Item K V) → Type (ℓ ⊔ κ)
  IsShrunk h c P n n' =
      IsNode V (suc h) c P n'
      × ((l : K) → find_in V (suc h) (shifted c l) l n' ≡ find_in V (suc h) (shifted c l) l n)

module _ {ℓ κ} {K : Type ℓ} ⦃o : HashKey K⦄ (V : Type κ) (z : Layout) (k : K) (h c : ℕ)
    (P : K → Type 0) (n : Node (suc (suc h)) (Item K V)) (w : IsNode V (suc (suc h)) c P n)
    (m : ℕ × Node (suc h) (Item K V)) (t : get_or n.node_bitmap (digit (shifted c k)) false ≡ true)
    (s : slot n.node_bitmap n.nodes (digit (shifted c k)) ≡ some m)
    (en : is_nonzero m.1.node_bitmap ≡ false) where
  abbrev bit : ℕ
  bit = digit (shifted c k)

  bare-IsNode : IsNode V (suc (suc h)) c P (erase_node z bit n)
  bare-IsNode =
      erase_node-Level V z (Node (suc h) (Item K V)) (IsNode V (suc h) (c + 6)) c P n w bit
        (digit-shifted_lt c k) t

  clear : get_or n.item_bitmap bit false ≡ false
  clear = w.apart bit t

  pub shrink_bare :
      is_nonzero m.1.item_bitmap ≡ false → IsShrunk V (suc h) c P n (erase_node z bit n)
  shrink_bare ei = (
    bare-IsNode,
    λ l.
        find_in-same V (suc h) c k n (erase_node z bit n) w.nodes_packed w.items_packed
          bare-IsNode.nodes_packed bare-IsNode.items_packed none none
          (λ j.
            same_at (slot n.item_bitmap n.items) bit j
            ∙ ap (λ y. if bit == j then y else slot n.item_bitmap n.items j)
                (slot_clear n.item_bitmap n.items bit clear))
          (λ j. slot-remove_at n.node_bitmap n.nodes w.nodes_packed.1 bit j t) l
          (rw (slot_clear n.item_bitmap n.items bit clear, s, consume-shifted c l)
            (sym (
              find_in-bare V h (c + 6) (λ y. P y × (digit (shifted c y) ≡ bit)) m.1 l
                (w.node_ok bit m s) en ei))),
  )

  pub shrink_single :
      (x : Item K V)
      → is_nonzero m.1.item_bitmap ≡ true
      → is_nonzero (clear_lowest m.1.item_bitmap) ≡ false
      → get_elem? m.1.items 0 ≡ some x
      → IsShrunk V (suc h) c P n (insert_item z bit x (erase_node z bit n))
  shrink_single x ei one e = (
    full-IsNode,
    λ l.
        find_in-same V (suc h) c k n (insert_item z bit x (erase_node z bit n)) w.nodes_packed
          w.items_packed full-IsNode.nodes_packed full-IsNode.items_packed (some x) none
          (λ j.
            slot-insert_at n.item_bitmap n.items w.items_packed.1 bit x j
              (omega (arith, digit-shifted_lt c k, w.items_packed.0)) clear)
          (λ j. slot-remove_at n.node_bitmap n.nodes w.nodes_packed.1 bit j t) l
          (rw (slot_clear n.item_bitmap n.items bit clear, s, consume-shifted c l)
            (sym (single l).0)),
  )
    where
      single :
          (l : K)
          → (find_in V (suc h) (shifted (c + 6) l) l m.1 ≡ match_item V l (some x))
            × (P x.key × (digit (shifted c x.key) ≡ bit))
      single l =
          find_in-single V h (c + 6) (λ y. P y × (digit (shifted c y) ≡ bit)) m.1 x l
            (w.node_ok bit m s) en ei one e

      full-IsNode : IsNode V (suc (suc h)) c P (insert_item z bit x (erase_node z bit n))
      full-IsNode =
          insert_item-Level V z (Node (suc h) (Item K V)) (IsNode V (suc h) (c + 6)) c P
            (erase_node z bit n) bare-IsNode bit (digit-shifted_lt c k) x
            (get_or-set_self n.node_bitmap bit false false
              (omega (arith, digit-shifted_lt c k, w.nodes_packed.0)))
            clear (single k).1.0 (single k).1.1

module _ {ℓ κ} {K : Type ℓ} ⦃o : HashKey K⦄ (V : Type κ) (z : Layout) (k : K) where
  pub try_shrink-IsShrunk :
      (h c : ℕ) (P : K → Type 0) (n : Node (suc h) (Item K V))
      → IsNode V (suc h) c P n
      → get_or n.node_bitmap (digit (shifted c k)) false ≡ true
      → IsShrunk V h c P n (try_shrink (Item K V) z h (digit (shifted c k)) n)
  unfolding try_shrink
  try_shrink-IsShrunk zero c P n w t = (w, λ l. refl)
  try_shrink-IsShrunk (suc h) c P n w t =
      let (m, r, s) = ref-slot n.node_bitmap n.nodes w.nodes_packed (digit (shifted c k)) t in
      (elim (Bool-cases (is_nonzero m.1.node_bitmap)) [
        | inl q ↦ rw (try_shrink, r, q) (w, λ l. refl)
        | inr q ↦ elim (Bool-cases (is_nonzero m.1.item_bitmap)) [
          | inr u ↦ rw (try_shrink, r, q, u) (shrink_bare V z k h c P n w m t s q u)
          | inl u ↦
              elim (Bool-cases (ltb (n.capacity_bytes - n.used_bytes + z.node_size) z.item_size)) [
                | inl a ↦ rw (try_shrink, r, q, u, a) (w, λ l. refl)
                | inr a ↦ elim (Bool-cases (is_nonzero (clear_lowest m.1.item_bitmap))) [
                  | inl b ↦ rw (try_shrink, r, q, u, a, b) (w, λ l. refl)
                  | inr b ↦ elim (Option-cases (get_elem? m.1.items 0)) [
                    | inl e ↦ rw (try_shrink, r, q, u, a, b, e) (w, λ l. refl)
                    | inr (x, e) ↦
                        rw (try_shrink, r, q, u, a, b, e)
                          (shrink_single V z k h c P n w m t s q x u b e)
                  ]
                ]
              ]
        ]
      ])
