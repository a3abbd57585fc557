-- ===== src/Common/V8gHashTrie/Visit/Rising.antt =====
-- include/voxen/common/v8g_hash_trie_impl.hpp: the order of the items below a node.
use voxen.Prelude.{
  ℕ, suc, ◌+◌, ◌*◌, ◌%◌, ◌^◌, ◌<◌, ◌≤◌, ◌≡◌, sym, subst, List, [], ◌∷◌, ◌++◌, arith,
}
use voxen.Common.V8gFlatMap.{Item}
use voxen.Common.V8gHashTrie.{HashKey, digit, consume, shifted}
use voxen.Common.V8gHashTrie.Digits.{consume-shifted}

-- Arithmetic of the first digit.
first_bound : (a i low : ℕ) → low ≤ i * 2 ^ 58 + a % 2 ^ 58 → digit a ≡ i → low ≤ a
first_bound a i low h d = omega arith

next_bound : (a i q : ℕ) → digit a ≡ i → suc (consume a) ≤ q * 2 ^ 6 → suc a ≤ i * 2 ^ 58 + q
next_bound a i q d h = omega arith

pub upper_bound : (a i : ℕ) → digit a ≡ i → suc a ≤ suc i * 2 ^ 58
upper_bound a i d = omega arith

consume_bound : (a low : ℕ) → a < 2 ^ 64 → low ≤ consume a → low ≤ a % 2 ^ 58 * 2 ^ 6
consume_bound a low h l = omega arith

module _ {ℓ κ} {K : Type ℓ} ⦃o : HashKey K⦄ {V : Type κ} where
  -- The remaining hash bits rise along the list, from the bound on.
  abbrev pub Rising : ℕ → ℕ → List (Item K V) → Type 0
  Rising c low [] = Unit {0}
  Rising c low (x ∷ xs) = (low ≤ shifted c x.key) × Rising c (suc (shifted c x.key)) xs

  abbrev pub AllKeys : (K → Type 0) → List (Item K V) → Type 0
  AllKeys P [] = Unit {0}
  AllKeys P (x ∷ xs) = P x.key × AllKeys P xs

  pub Rising-weaken :
      (c low low' : ℕ) (xs : List (Item K V)) → Rising c low' xs → low ≤ low' → Rising c low xs
  Rising-weaken c low low' [] r h = tt
  Rising-weaken c low low' (x ∷ xs) r h = (omega (arith, r.0, h), r.1)

  pub AllKeys-append :
      (P : K → Type 0) (xs ys : List (Item K V))
      → AllKeys P xs
      → AllKeys P ys
      → AllKeys P (xs ++ ys)
  AllKeys-append P [] ys a b = b
  AllKeys-append P (x ∷ xs) ys a b = (a.0, AllKeys-append P xs ys a.1 b)

  pub AllKeys-map :
      (P Q : K → Type 0) (xs : List (Item K V))
      → ((k : K) → P k → Q k)
      → AllKeys P xs
      → AllKeys Q xs
  AllKeys-map P Q [] f a = tt
  AllKeys-map P Q (x ∷ xs) f a = (f x.key a.0, AllKeys-map P Q xs f a.1)

  -- The items of the child of digit i, and those of later digits.
  pub Rising-append :
      (c i low below : ℕ) (P : K → Type 0) (xs ys : List (Item K V))
      → ((r : ℕ) → below ≤ r * 2 ^ 6 → low ≤ i * 2 ^ 58 + r)
      → low ≤ suc i * 2 ^ 58
      → AllKeys (λ k. P k × (digit (shifted c k) ≡ i)) xs
      → Rising (c + 6) below xs
      → Rising c (suc i * 2 ^ 58) ys
      → Rising c low (xs ++ ys)
  Rising-append c i low below P [] ys link h a r s = Rising-weaken c low (suc i * 2 ^ 58) ys s h
  Rising-append c i low below P (x ∷ xs) ys link h a r s = (
    first_bound (shifted c x.key) i low (link (shifted c x.key % 2 ^ 58) bound) a.0.1,
    Rising-append c i (suc (shifted c x.key)) (suc (shifted (c + 6) x.key)) P xs ys
        (λ q b.
          next_bound (shifted c x.key) i q a.0.1
            (subst (λ y. suc y ≤ q * 2 ^ 6) (sym (consume-shifted c x.key)) b))
        (upper_bound (shifted c x.key) i a.0.1) a.1 r.1 s,
  )
    where
      bound : below ≤ shifted c x.key % 2 ^ 58 * 2 ^ 6
      bound =
          consume_bound (shifted c x.key) below (omega arith)
            (subst (λ y. below ≤ y) (sym (consume-shifted c x.key)) r.0)
