-- ===== src/Util/LruVisitOrdering.antt =====
-- include/voxen/util/lru_visit_ordering.hpp and tagged_tick_id.hpp: keys visited in the order of
-- the ticks on which they are due.
pub mod Order
pub mod Visits
mod Tests
use voxen.Prelude.{
  ℕ, zero, suc, Bool, true, false, not, ◌&&◌, List, [], ◌∷◌, ltb, ◌==◌, if◌then◌else◌,
}

-- `TickId`: a signed number; n, and -(n + 1).
pub data TickId : Type 0 where
  pos negsuc : ℕ → TickId

-- `<` and `==` of ticks.
abbrev pub tick_lt : TickId → TickId → Bool
tick_lt (pos a) (pos b) = ltb a b
tick_lt (pos a) (negsuc b) = false
tick_lt (negsuc a) (pos b) = true
tick_lt (negsuc a) (negsuc b) = ltb b a

abbrev pub tick_eq : TickId → TickId → Bool
tick_eq (pos a) (pos b) = a == b
tick_eq (pos a) (negsuc b) = false
tick_eq (negsuc a) (pos b) = false
tick_eq (negsuc a) (negsuc b) = a == b

abbrev pub invalid : TickId → Bool
invalid (pos a) = false
invalid (negsuc a) = true

abbrev pub Item {ℓ} : Type ℓ → Type ℓ
Item K = TickId × K

module _ {ℓ} {K : Type ℓ} where
  module _ (key_lt : K → K → Bool) where
    -- `<` of pairs, given that of keys.
    abbrev pub item_lt : Item K → Item K → Bool
    item_lt (t, k) (u, l) = if tick_lt t u then true else (tick_eq t u && key_lt k l)

    -- The priority queue, in the order in which its items come to the top. Adding an item.
    pub push : Item K → List (Item K) → List (Item K)
    push i [] = i ∷ []
    push i (x ∷ q) = if item_lt x i then x ∷ push i q else i ∷ x ∷ q

    pub add_key : K → TickId → List (Item K) → List (Item K)
    unfolding push
    add_key k t q = push (t, k) q

    -- `visitOldest`. The visitor's calls change the state `S`.
    module _ {σ} {S : Type σ} (visitor : S → K → S × TickId) (cutoff : TickId) where
      pub visit_oldest : ℕ → S → List (Item K) → S × List (Item K)
      unfolding push
      visit_oldest zero s q = (s, q)
      visit_oldest (suc count) s [] = (s, [])
      visit_oldest (suc count) s ((t, k) ∷ q) =
          let (s', new_tick) = visitor s k in
          let rest = visit_oldest count s' (if invalid new_tick then q else push (new_tick, k) q) in
          if tick_lt cutoff t then (s, (t, k) ∷ q) else rest
