-- ===== src/Util/LruVisitOrdering/Visits.antt =====
-- include/voxen/util/lru_visit_ordering.hpp: which keys `visitOldest` visits.
use voxen.Prelude.{
  ℕ, zero, suc, ◌≡◌, ◌≤◌, ◌⊎◌, ◌∙◌, refl, ap, sym, ◌≢◌, Bool, true, false, List, [], ◌∷◌,
  if◌then◌else◌, arith, Bool-cases, inl, inr, length,
}
use voxen.Util.LruVisitOrdering.{TickId, tick_lt, invalid, Item, item_lt, push, visit_oldest}
use voxen.Util.LruVisitOrdering.Order.{IsSorted, Above, push-IsSorted, tick_between}

false_ne : false ≢ true
false_ne e = absurd (ground arith)

shorter {ℓ} :
    {A : Type ℓ} {n : ℕ} (xs : List A) (x : A) (b : Bool)
    → b ≡ false
    → length (if b then xs else x ∷ xs) ≤ suc n
    → length xs ≤ n
shorter xs x true e h = absurd (ground arith)
shorter xs x false e h = omega (arith, h)

no_elements {ℓ} : {A : Type ℓ} (xs : List A) → length xs ≤ 0 → xs ≡ []
no_elements [] h = refl
no_elements (x ∷ xs) h = absurd (omega arith)

module _ {ℓ} {K : Type ℓ} (cutoff : TickId) where
  -- The keys of the items whose tick is not beyond the cutoff.
  abbrev pub due : List (Item K) → List K
  due [] = []
  due ((t, k) ∷ q) = if tick_lt cutoff t then due q else k ∷ due q

  due-push :
      (key_lt : K → K → Bool) (t : TickId) (k : K) (q : List (Item K))
      → tick_lt cutoff t ≡ true
      → due (push key_lt (t, k) q) ≡ due q
  unfolding push
  due-push key_lt t k [] h = rw (h) refl
  due-push key_lt t k ((u, l) ∷ q) h = elim (Bool-cases (item_lt key_lt (u, l) (t, k))) [
    | inl e ↦ rw (e, due-push key_lt t k q h) refl
    | inr e ↦ rw (e, h) refl
  ]

  due-Above : (t : TickId) (q : List (Item K)) → tick_lt cutoff t ≡ true → Above t q → due q ≡ []
  due-Above t [] h a = refl
  due-Above t ((u, k) ∷ q) h a = elim (Bool-cases (tick_lt cutoff u)) [
    | inl e ↦ rw (e) (due-Above t q h a.1)
    | inr e ↦ absurd (false_ne (sym e ∙ tick_between cutoff t u h a.0))
  ]

module _ {ℓ σ} {K : Type ℓ} {S : Type σ} (key_lt : K → K → Bool) (visitor : S → K → S × TickId)
    (cutoff : TickId) where
  -- The visitor called on each key in order.
  abbrev pub visit_all : S → List K → S
  visit_all s [] = s
  visit_all s (k ∷ ks) = visit_all (visitor s k).0 ks

  -- The queue after one visit.
  abbrev requeue : TickId → K → List (Item K) → List (Item K)
  requeue t k q = if invalid t then q else push key_lt (t, k) q

  requeue-due :
      (t : TickId) (k : K) (q : List (Item K))
      → IsSorted q
      → (invalid t ≡ true) ⊎ (tick_lt cutoff t ≡ true)
      → (due cutoff (requeue t k q) ≡ due cutoff q) × IsSorted (requeue t k q)
  requeue-due t k q s h = elim (Bool-cases (invalid t)) [
    | inl e ↦ rw (e) (refl, s)
    | inr e ↦ elim h [
      | inl i ↦ absurd (ground arith)
      | inr c ↦ rw (e) (due-push cutoff key_lt t k q c, push-IsSorted key_lt t k q s)
    ]
  ]

  -- Let the queue be sorted by tick, let the visitor always return an invalid tick or one beyond the
  -- cutoff, and let `count` be at least the number of items due. Then `visitOldest` visits exactly
  -- the keys of the items due, each once, the oldest first; after it none is due and the queue is
  -- sorted.
  pub visit_oldest_lem :
      (count : ℕ) (s : S) (q : List (Item K))
      → IsSorted q
      → ((s : S) (k : K)
          → (invalid (visitor s k).1 ≡ true) ⊎ (tick_lt cutoff (visitor s k).1 ≡ true))
      → length (due cutoff q) ≤ count
      → ((visit_oldest key_lt visitor cutoff count s q).0 ≡ visit_all s (due cutoff q))
        × (due cutoff (visit_oldest key_lt visitor cutoff count s q).1 ≡ [])
        × IsSorted (visit_oldest key_lt visitor cutoff count s q).1
  unfolding visit_oldest
  visit_oldest_lem zero s q sorted later enough =
      let empty = no_elements (due cutoff q) enough in rw (empty) (refl, refl, sorted)
  visit_oldest_lem (suc count) s [] sorted later enough = (refl, refl, tt)
  visit_oldest_lem (suc count) s ((t, k) ∷ q) sorted later enough =
      elim (Bool-cases (tick_lt cutoff t)) [
        | inl e ↦
            let none_due = due-Above cutoff t q e sorted.0 in
            rw (e) (ap (visit_all s) (sym none_due), rw (e) none_due, sorted)
        | inr e ↦
            let (same, sorted') = requeue-due (visitor s k).1 k q sorted.1 (later s k) in
            let (visits, left, kept) =
              visit_oldest_lem count (visitor s k).0 (requeue (visitor s k).1 k q) sorted' later
                (rw (same) (shorter (due cutoff q) k (tick_lt cutoff t) e enough)) in
            rw (e) (visits ∙ ap (visit_all (visitor s k).0) same, left, kept)
      ]
