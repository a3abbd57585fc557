-- ===== src/Common/V8gHashTrie/Insertion.antt =====
-- include/voxen/common/v8g_hash_trie_impl.hpp: `insert` below a root node.
use voxen.Prelude.{
  ℕ, zero, suc, ◌+◌, ◌*◌, ◌≡◌, refl, sym, ap, ◌∙◌, subst, true, false, Option, some, get_or, arith,
  Bool-cases, inl, inr, ltb,
}
use voxen.Common.V8gFlatMap.{Item}
use voxen.Common.V8gHashTrie.{
  HashKey, Layout, Node, digit, consume, shifted, find_in, match_item, insert_item, promoted_child,
  insert_in, make_room, expand_node,
}
use voxen.Common.V8gHashTrie.Invariant.{IsNode}
use voxen.Common.V8gHashTrie.Digits.{consume-shifted, IsTold, IsTold_child, IsTold_all}
use voxen.Common.V8gHashTrie.Entries.{ref-slot}
use voxen.Common.V8gHashTrie.Promoted.{promoted_child-IsNode, find_in-promoted_child}
use voxen.Common.V8gHashTrie.Inserted.{
  fresh, IsInserted, insert_in-child, insert_in-same, insert_in-clash, insert_in-free,
}
use voxen.Common.V8gHashTrie.InsertCases.{insert-child, insert-same, insert-free}
use voxen.Common.V8gHashTrie.Clash.{insert-clash}

module _ {ℓ κ} {K : Type ℓ} ⦃o : HashKey K⦄ (V : Type κ) (z : Layout) (timeline : ℕ) (k : K)
    (v : V) where
  insert-room :
      (h c : ℕ) (P : K → Type 0) (n : Node (suc h) (Item K V))
      → IsNode V (suc h) c P n
      → P k
      → get_or n.node_bitmap (digit (shifted c k)) false ≡ false
      → get_or n.item_bitmap (digit (shifted c k)) false ≡ false
      → IsInserted V z timeline k v
          (suc h)
          c
          P
          (λ l. find_in V (suc h) (shifted c l) l n)
          (
            (
              timeline,
              insert_item z (digit (shifted c k)) (fresh V z timeline k v) (make_room z n),
            ),
            true,
          )
  unfolding find_in
  insert-room h c P n w p t u =
      elim (Bool-cases (ltb n.capacity_bytes (n.used_bytes + z.item_size))) [
        | inl q ↦ rw (q) (
            insert-free V z timeline k v h c P (expand_node z n)
              (record {
                here = w.here;
                nodes_packed = w.nodes_packed;
                items_packed = w.items_packed;
                apart = w.apart;
                item_ok = w.item_ok;
                node_ok = w.node_ok;
              })
              p t u)
        | inr q ↦ rw (q) (insert-free V z timeline k v h c P n w p t u)
      ]

  promoted-IsNode :
      (h c : ℕ) (P : K → Type 0) (x : Item K V)
      → c + 6 * suc h ≡ 64
      → IsTold (c + 6) P
      → P k
      → P x.key
      → o.equal x.key k ≡ false
      → IsNode V h (c + 6) P (promoted_child V z h c x).1
        × ((l : K)
            → find_in V h (shifted (c + 6) l) l (promoted_child V z h c x).1
              ≡ match_item V l (some x))
  promoted-IsNode zero c P x e told pk px ne =
      let all : c + 6 ≡ 64 = omega (arith, e) in
      let same : o.equal x.key k ≡ o.equal k k =
        ap (λ y. o.equal y k) (IsTold_all P (subst (λ d. IsTold d P) all told) x.key k px pk) in
      absurd (ground (arith, sym ne ∙ same ∙ o.equal_refl k))
  promoted-IsNode (suc h) c P x e told pk px ne =
      (promoted_child-IsNode V z h c P x px, find_in-promoted_child V z h c x)

  insert-step :
      (h c : ℕ) (P : K → Type 0)
      → c + 6 * suc h ≡ 64
      → IsTold c P
      → P k
      → (version : ℕ) (n : Node (suc h) (Item K V)) → IsNode V (suc h) c P n
      → ((m : ℕ × Node h (Item K V))
          → IsNode V h (c + 6) (λ l. P l × (digit (shifted c l) ≡ digit (shifted c k))) m.1
          → IsInserted V z timeline k v h
              (c + 6)
              (λ l. P l × (digit (shifted c l) ≡ digit (shifted c k)))
              (λ l. find_in V h (shifted (c + 6) l) l m.1)
              (insert_in V z h timeline k v (consume (shifted c k)) m))
      → IsInserted V z timeline k v
          (suc h)
          c
          P
          (λ l. find_in V (suc h) (shifted c l) l n)
          (insert_in V z (suc h) timeline k v (shifted c k) (version, n))
  insert-step h c P e told p version n w below =
      elim (Bool-cases (get_or n.node_bitmap (digit (shifted c k)) false)) [
        | inl t ↦
            let (m, r, s) = ref-slot n.node_bitmap n.nodes w.nodes_packed (digit (shifted c k)) t in
            subst (IsInserted V z timeline k v (suc h) c P old)
              (sym (insert_in-child V z timeline k v h c version n m t r))
              (insert-child V z timeline k v h c P n w p m t s
                (insert_in V z h timeline k v (consume (shifted c k)) m)
                (below m (w.node_ok (digit (shifted c k)) m s)))
        | inr t ↦ elim (Bool-cases (get_or n.item_bitmap (digit (shifted c k)) false)) [
          | inl u ↦
              let (x, r, s) =
                ref-slot n.item_bitmap n.items w.items_packed (digit (shifted c k)) u in
              elim (Bool-cases (o.equal x.key k)) [
                | inl q ↦
                    subst (IsInserted V z timeline k v (suc h) c P old)
                      (sym (insert_in-same V z timeline k v h c version n x t u r q))
                      (insert-same V z timeline k v h c P n w p x u s q)
                | inr q ↦
                    let (okc, one) =
                      promoted-IsNode h c (λ l. P l × (digit (shifted c l) ≡ digit (shifted c k))) x
                        e (IsTold_child c (digit (shifted c k)) P told) (p, refl)
                        (w.item_ok (digit (shifted c k)) x s) q in
                    subst (IsInserted V z timeline k v (suc h) c P old)
                      (sym (insert_in-clash V z timeline k v h c version n x t u r q w.here))
                      (insert-clash V z timeline k v h c P n w p x t u s okc one
                        (insert_in V z h timeline k v (consume (shifted c k))
                          (promoted_child V z h c x))
                        (below (promoted_child V z h c x) okc))
              ]
          | inr u ↦
              subst (IsInserted V z timeline k v (suc h) c P old)
                (sym (insert_in-free V z timeline k v h c version n t u))
                (insert-room h c P n w p t u)
        ]
      ]
    where
      old : K → Option (Item K V)
      old l = find_in V (suc h) (shifted c l) l n

  pub insert_in-IsInserted :
      (h c : ℕ) (P : K → Type 0)
      → c + 6 * h ≡ 64
      → IsTold c P
      → P k
      → (ni : ℕ × Node h (Item K V)) → IsNode V h c P ni.1
      → IsInserted V z timeline k v h c P
          (λ l. find_in V h (shifted c l) l ni.1)
          (insert_in V z h timeline k v (shifted c k) ni)
  insert_in-IsInserted zero c P e told p ni w = absurd (ground (arith, w.0))
  insert_in-IsInserted (suc h) c P e told p (version, n) w =
      insert-step h c P e told p version n w (λ m wm. rw (consume-shifted c k) (
        insert_in-IsInserted h (c + 6) (λ l. P l × (digit (shifted c l) ≡ digit (shifted c k)))
          (omega (arith, e)) (IsTold_child c (digit (shifted c k)) P told) (p, refl) m wm))
