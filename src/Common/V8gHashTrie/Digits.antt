-- ===== src/Common/V8gHashTrie/Digits.antt =====
-- include/voxen/common/v8g_hash_trie_impl.hpp: the digits of a hash, and the keys that share them.
use voxen.Prelude.{
  ℕ, suc, ◌+◌, ◌*◌, ◌%◌, ◌^◌, ◌<◌, ◌≡◌, sym, ap, ◌∙◌, false, arith, ◌==◌, Bool-cases, inl, inr,
  ==_ne,
}
use native.Mathlib.Nat.{mul_assoc}
use voxen.Prelude.BitAnd.{double-pow}
use voxen.Common.V8gHashTrie.{HashKey, digit, consume, shifted, root_index}

consume_mod : (a : ℕ) → consume (a % 2 ^ 64) ≡ a * 2 ^ 6 % 2 ^ 64
consume_mod a = omega arith

-- A word is its first digit and the rest.
digit-consume :
    (a b : ℕ) → a < 2 ^ 64 → b < 2 ^ 64 → digit a ≡ digit b → consume a ≡ consume b → a ≡ b
digit-consume a b ha hb d c = omega arith

pow_six : (c : ℕ) → 2 ^ (c + 6) ≡ 2 ^ c * 2 ^ 6
pow_six c =
    ap (λ n. 2 ^ n) six
    ∙ omega (
      arith,
      double-pow c,
      double-pow (suc c),
      double-pow (suc (suc c)),
      double-pow (suc (suc (suc c))),
      double-pow (suc (suc (suc (suc c)))),
      double-pow (suc (suc (suc (suc (suc c))))),
    )
  where
    six : c + 6 ≡ suc (suc (suc (suc (suc (suc c)))))
    six = omega arith

digit-lt : (a : ℕ) → digit (a % 2 ^ 64) < 64
digit-lt a = omega arith

module _ {ℓ} {K : Type ℓ} ⦃o : HashKey K⦄ where
  pub consume-shifted : (c : ℕ) (k : K) → consume (shifted c k) ≡ shifted (c + 6) k
  consume-shifted c k =
      consume_mod (o.hash k * 2 ^ c)
      ∙ ap (λ x. x % 2 ^ 64)
          (mul_assoc (o.hash k) (2 ^ c) (2 ^ 6) ∙ ap (λ x. o.hash k * x) (sym (pow_six c)))

  pub digit-shifted_lt : (c : ℕ) (k : K) → digit (shifted c k) < 64
  digit-shifted_lt c k = digit-lt (o.hash k * 2 ^ c)

  -- Among the keys of P, the bits after the first c tell which key it is.
  abbrev pub IsTold : ℕ → (K → Type 0) → Type ℓ
  IsTold c P = (k l : K) → P k → P l → shifted c k ≡ shifted c l → k ≡ l

  pub IsTold_child :
      (c i : ℕ) (P : K → Type 0)
      → IsTold c P
      → IsTold (c + 6) (λ k. P k × (digit (shifted c k) ≡ i))
  IsTold_child c i P told k l p q e = told k l p.0 q.0 (
      digit-consume (shifted c k) (shifted c l) (omega arith) (omega arith) (p.1 ∙ sym q.1)
        (consume-shifted c k ∙ e ∙ sym (consume-shifted c l)))

  pub IsTold_all : (P : K → Type 0) → IsTold 64 P → (k l : K) → P k → P l → k ≡ l
  IsTold_all P told k l p q = told k l p q (omega arith)

  pub IsTold_root : (r : ℕ) → IsTold 4 (λ k. root_index k ≡ r)
  IsTold_root r k l p q e =
      o.hash_injective k l (omega (arith, p, q, e, o.hash_small k, o.hash_small l))

  -- Keys with other digits are other keys.
  pub equal_digits :
      (c : ℕ) (k l : K) → (digit (shifted c k) == digit (shifted c l)) ≡ false → o.equal k l ≡ false
  equal_digits c k l e = elim (Bool-cases (o.equal k l)) [
    | inl t ↦ absurd (==_ne _ _ e (ap (λ x. digit (shifted c x)) (o.equal_true k l t)))
    | inr t ↦ t
  ]
