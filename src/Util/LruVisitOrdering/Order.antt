-- ===== src/Util/LruVisitOrdering/Order.antt =====
-- include/voxen/util/lru_visit_ordering.hpp: the order of the queue's items.
use voxen.Prelude.{
  ◌≡◌, refl, Bool, true, false, List, [], ◌∷◌, ◌&&◌, if◌then◌else◌, arith, Bool-cases, inl, inr,
}
use voxen.Util.LruVisitOrdering.{TickId, pos, negsuc, tick_lt, tick_eq, Item, item_lt, push}

tick_lt_trans : (t u v : TickId) → tick_lt u t ≡ false → tick_lt v u ≡ false → tick_lt v t ≡ false
tick_lt_trans (pos a) (pos b) (pos c) h g = ground arith
tick_lt_trans (pos a) (pos b) (negsuc c) h g = absurd (ground arith)
tick_lt_trans (pos a) (negsuc b) v h g = absurd (ground arith)
tick_lt_trans (negsuc a) u (pos c) h g = refl
tick_lt_trans (negsuc a) (pos b) (negsuc c) h g = absurd (ground arith)
tick_lt_trans (negsuc a) (negsuc b) (negsuc c) h g = ground arith

-- Of two ticks one is not less.
tick_lt-total : (t u : TickId) → tick_lt t u ≡ true → tick_lt u t ≡ false
tick_lt-total (pos a) (pos b) h = ground arith
tick_lt-total (pos a) (negsuc b) h = absurd (ground arith)
tick_lt-total (negsuc a) (pos b) h = refl
tick_lt-total (negsuc a) (negsuc b) h = ground arith

tick_eq-lt : (t u : TickId) → tick_eq t u ≡ true → tick_lt u t ≡ false
tick_eq-lt (pos a) (pos b) h = ground arith
tick_eq-lt (pos a) (negsuc b) h = absurd (ground arith)
tick_eq-lt (negsuc a) (pos b) h = absurd (ground arith)
tick_eq-lt (negsuc a) (negsuc b) h = ground arith

-- Nothing not less than t is within the cutoff if t is beyond it.
pub tick_between : (c t u : TickId) → tick_lt c t ≡ true → tick_lt u t ≡ false → tick_lt c u ≡ true
tick_between (pos a) (pos b) (pos c) h g = ground arith
tick_between (pos a) (pos b) (negsuc c) h g = absurd (ground arith)
tick_between (pos a) (negsuc b) u h g = absurd (ground arith)
tick_between (negsuc a) t (pos c) h g = refl
tick_between (negsuc a) (pos b) (negsuc c) h g = absurd (ground arith)
tick_between (negsuc a) (negsuc b) (negsuc c) h g = ground arith

both : (a b c : Bool) → a ≡ false → (if a then true else (b && c)) ≡ true → b ≡ true
both true b c h e = absurd (ground arith)
both false true c h e = refl
both false false c h e = absurd (ground arith)

neither : (a b : Bool) → (if a then true else b) ≡ false → a ≡ false
neither true b e = e
neither false b e = refl

module _ {ℓ} {K : Type ℓ} where
  -- No tick of the queue is less than t.
  abbrev pub Above : TickId → List (Item K) → Type 0
  Above t [] = Unit {0}
  Above t ((u, k) ∷ q) = (tick_lt u t ≡ false) × Above t q

  abbrev pub IsSorted : List (Item K) → Type 0
  IsSorted [] = Unit {0}
  IsSorted ((t, k) ∷ q) = Above t q × IsSorted q

  Above-mono : (t u : TickId) (q : List (Item K)) → tick_lt u t ≡ false → Above u q → Above t q
  Above-mono t u [] h a = tt
  Above-mono t u ((v, k) ∷ q) h a = (tick_lt_trans t u v h a.0, Above-mono t u q h a.1)

  module _ (key_lt : K → K → Bool) where
    -- What the order of items says of their ticks.
    item_lt-true :
        (v : TickId) (l : K) (u : TickId) (k : K)
        → item_lt key_lt (v, l) (u, k) ≡ true
        → tick_lt u v ≡ false
    item_lt-true v l u k e = elim (Bool-cases (tick_lt v u)) [
      | inl t ↦ tick_lt-total v u t
      | inr t ↦ tick_eq-lt v u (both (tick_lt v u) (tick_eq v u) (key_lt l k) t e)
    ]

    item_lt-false :
        (v : TickId) (l : K) (u : TickId) (k : K)
        → item_lt key_lt (v, l) (u, k) ≡ false
        → tick_lt v u ≡ false
    item_lt-false v l u k e = neither (tick_lt v u) (tick_eq v u && key_lt l k) e

    push-Above :
        (t u : TickId) (k : K) (q : List (Item K))
        → tick_lt u t ≡ false
        → Above t q
        → Above t (push key_lt (u, k) q)
    unfolding push
    push-Above t u k [] h a = (h, tt)
    push-Above t u k ((v, l) ∷ q) h a = elim (Bool-cases (item_lt key_lt (v, l) (u, k))) [
      | inl e ↦ rw (e) (a.0, push-Above t u k q h a.1)
      | inr e ↦ rw (e) (h, a)
    ]

    pub push-IsSorted :
        (u : TickId) (k : K) (q : List (Item K)) → IsSorted q → IsSorted (push key_lt (u, k) q)
    unfolding push
    push-IsSorted u k [] s = (tt, tt)
    push-IsSorted u k ((v, l) ∷ q) s = elim (Bool-cases (item_lt key_lt (v, l) (u, k))) [
      | inl e ↦ rw (e) (push-Above v u k q (item_lt-true v l u k e) s.0, push-IsSorted u k q s.1)
      | inr e ↦
          rw (e) ((item_lt-false v l u k e, Above-mono u v q (item_lt-false v l u k e) s.0), s)
    ]
