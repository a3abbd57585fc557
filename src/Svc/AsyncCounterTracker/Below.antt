-- ===== src/Svc/AsyncCounterTracker/Below.antt =====
-- The out-of-order segments: sorted, disjoint, never adjacent; and the set that they stand for.
use mathlib.Core.Option
use native.Mathlib.Decide.{dec_lt}
use voxen.Prelude.{
  ℕ, ◌+◌, ◌<◌, ◌≤◌, ◌≡◌, ◌≢◌, refl, arith, false, ◌||◌, List, [], ◌∷◌, Option, none, some, ltb,
  ◌==◌, if◌then◌else◌, Bool-cases, inl, inr, subst, ==_ne, ==→eq,
}
use voxen.Svc.AsyncCounterTracker.{
  ValueSegment, rev_append, collapse_next, collapse_prev, try_append, emplace, in_segments, or_else,
}

-- Segments above `lo` and below `hi`, largest first, with a gap between any two and below `hi`.
abbrev pub Below : ℕ → ℕ → List ValueSegment → Type 0
Below hi lo [] = Unit {0}
Below hi lo ((a, b) ∷ rest) = (lo < a) × (a ≤ b) × (b + 1 < hi) × Below a lo rest

pub in_segments_above :
    (hi lo x : ℕ) (segs : List ValueSegment)
    → Below hi lo segs
    → hi ≤ x + 1
    → in_segments segs x ≡ false
in_segments_above hi lo x [] v h = refl
in_segments_above hi lo x ((a, b) ∷ rest) v h =
    ground (arith, in_segments_above a lo x rest v.3 (omega arith))

pub in_segments-Below :
    (hi lo x : ℕ) (segs : List ValueSegment)
    → Below hi lo segs
    → x ≤ lo
    → in_segments segs x ≡ false
in_segments-Below hi lo x [] v h = refl
in_segments-Below hi lo x ((a, b) ∷ rest) v h = ground (arith, in_segments-Below a lo x rest v.3 h)

pub Below-raise :
    (hi hi' lo : ℕ) (segs : List ValueSegment) → hi ≤ hi' → Below hi lo segs → Below hi' lo segs
Below-raise hi hi' lo [] h v = tt
Below-raise hi hi' lo ((a, b) ∷ rest) h v = (v.0, v.1, omega arith, v.3)

-- The loop of `completeCounter` as a walk, without the segments already passed.
pub append_walk : ℕ → List ValueSegment → Option (List ValueSegment)
append_walk d [] = none
append_walk d ((a, b) ∷ rest) =
    if d + 1 == a
    then some (collapse_next d b rest)
    else (if d == b + 1
        then some ((a, d) ∷ rest)
        else Option.map (λ l. (a, b) ∷ l) (append_walk d rest))

-- The last segment passed does not start right above `d`: it would have been extended.
abbrev pub PassedBy : ℕ → List ValueSegment → Type 0
PassedBy d [] = Unit {0}
PassedBy d ((a, b) ∷ before) = (d + 1 == a) ≡ false

pub try_append-walk :
    (d : ℕ) (before segs : List ValueSegment)
    → PassedBy d before
    → try_append d before segs ≡ Option.map (rev_append before) (append_walk d segs)
unfolding try_append append_walk collapse_prev
try_append-walk d before [] p = refl
try_append-walk d [] ((a, b) ∷ rest) p = elim (Bool-cases (d + 1 == a)) [
  | inl t ↦ rw t
  | inr t ↦ elim (Bool-cases (d == b + 1)) [
    | inl u ↦ rw (t, u)
    | inr u ↦ rw (t, u, try_append-walk d ((a, b) ∷ []) rest t) (ground arith)
  ]
]
try_append-walk d ((c, e) ∷ before) ((a, b) ∷ rest) p = elim (Bool-cases (d + 1 == a)) [
  | inl t ↦ rw t
  | inr t ↦ elim (Bool-cases (d == b + 1)) [
    | inl u ↦ rw (t, u) (ground arith)
    | inr u ↦ rw (t, u, try_append-walk d ((a, b) ∷ (c, e) ∷ before) rest t) (ground arith)
  ]
]

-- No segment touches `d`.
abbrev pub Clear : ℕ → List ValueSegment → Type 0
Clear d [] = Unit {0}
Clear d ((a, b) ∷ rest) = (d + 1 ≢ a) × (d ≢ b + 1) × Clear d rest

-- The segments with `d` added.
pub record Adds (hi lo d : ℕ) (segs segs' : List ValueSegment) : Type 0 where
  pub below : Below hi lo segs'
  pub exact : (x : ℕ) → in_segments segs' x ≡ (in_segments segs x || x == d)

abbrev pub WalkOutcome : (hi lo d : ℕ) → List ValueSegment → Option (List ValueSegment) → Type 0
WalkOutcome hi lo d segs none = Clear d segs
WalkOutcome hi lo d segs (some l) = Adds hi lo d segs l

pub walk_beyond :
    (hi lo d : ℕ) (segs : List ValueSegment)
    → Below hi lo segs
    → hi ≤ d
    → (append_walk d segs ≡ none) × Clear d segs
unfolding append_walk
walk_beyond hi lo d [] v h = (refl, tt)
walk_beyond hi lo d ((a, b) ∷ rest) v h =
    let (w, c) = walk_beyond a lo d rest v.3 (omega arith) in
    (ground arith, (omega arith, omega arith, c))

pub collapse_next-Adds :
    (hi lo d b : ℕ) (rest : List ValueSegment)
    → lo < d
    → d + 1 ≤ b
    → b + 1 < hi
    → Below (d + 1) lo rest
    → in_segments rest d ≡ false
    → Adds hi lo d ((d + 1, b) ∷ rest) (collapse_next d b rest)
unfolding collapse_next
collapse_next-Adds hi lo d b [] h₁ h₂ h₃ v n = record {
  below = (h₁, omega arith, h₃, tt);
  exact = λ x. ground arith;
}
collapse_next-Adds hi lo d b ((c, e) ∷ rest) h₁ h₂ h₃ v n = elim (Bool-cases (e + 1 == d)) [
  | inl t ↦ rw t (record { below = ground arith; exact = λ x. ground arith })
  | inr t ↦ rw t (record { below = ground arith; exact = λ x. ground arith })
]

pub Adds-cons :
    (hi lo d a b : ℕ) (rest rest' : List ValueSegment)
    → Below hi lo ((a, b) ∷ rest)
    → Adds a lo d rest rest'
    → Adds hi lo d ((a, b) ∷ rest) ((a, b) ∷ rest')
Adds-cons hi lo d a b rest rest' v s = record {
  below = (v.0, v.1, v.2, s.below);
  exact = λ x. ground (arith, s.exact x);
}

pub walk-Outcome :
    (hi lo d : ℕ) (segs : List ValueSegment)
    → Below hi lo segs
    → lo < d
    → d + 1 < hi
    → in_segments segs d ≡ false
    → WalkOutcome hi lo d segs (append_walk d segs)
unfolding append_walk
walk-Outcome hi lo d [] v l h n = tt
walk-Outcome hi lo d ((a, b) ∷ rest) v l h n = elim (Bool-cases (d + 1 == a)) [
  | inl t ↦
      let e : a ≡ d + 1 = ground arith in
      rw (t, e)
        (collapse_next-Adds hi lo d b rest l (omega arith) v.2 (subst (λ m. Below m lo rest) e v.3)
          (ground arith))
  | inr t ↦ elim (Bool-cases (d == b + 1)) [
    | inl u ↦
        rw (t, u)
          (record {
            below = (v.0, omega (arith, ==→eq d (b + 1) u), h, v.3);
            exact = λ x. ground arith;
          })
    | inr u ↦
        rw (t, u) (further (dec_lt d a) (λ q. walk-Outcome a lo d rest v.3 l q (ground arith)) t u)
  ]
]
  where
    lift :
        WalkOutcome a lo d rest (append_walk d rest)
        → (d + 1 == a) ≡ false
        → (d == b + 1) ≡ false
        → WalkOutcome hi lo d ((a, b) ∷ rest) (Option.map (λ q. (a, b) ∷ q) (append_walk d rest))
    lift =
        elim (append_walk d rest)
          as (λ o.
            WalkOutcome a lo d rest o
            → (d + 1 == a) ≡ false
            → (d == b + 1) ≡ false
            → WalkOutcome hi lo d ((a, b) ∷ rest) (Option.map (λ q. (a, b) ∷ q) o)) [
              | none ↦ λ c t u. (==_ne (d + 1) a t, ==_ne d (b + 1) u, c)
              | some q ↦ λ w t u. Adds-cons hi lo d a b rest q v w
            ]

    further :
        Dec (d < a)
        → (d + 1 < a → WalkOutcome a lo d rest (append_walk d rest))
        → (d + 1 == a) ≡ false
        → (d == b + 1) ≡ false
        → WalkOutcome hi lo d ((a, b) ∷ rest) (Option.map (λ q. (a, b) ∷ q) (append_walk d rest))
    further (yes p) ih t u = lift (ih (omega (arith, ==_ne (d + 1) a t))) t u
    further (no p) ih t u =
        let (w, c) = walk_beyond a lo d rest v.3 (omega arith) in
        rw w (==_ne (d + 1) a t, ==_ne d (b + 1) u, c)

pub emplace-Adds :
    (hi lo d : ℕ) (segs : List ValueSegment)
    → Below hi lo segs
    → lo < d
    → d + 1 < hi
    → in_segments segs d ≡ false
    → Clear d segs
    → Adds hi lo d segs (emplace d segs)
unfolding emplace
emplace-Adds hi lo d [] v l h n c = record {
  below = (l, omega arith, h, tt);
  exact = λ x. ground arith;
}
emplace-Adds hi lo d ((a, b) ∷ rest) v l h n c = elim (Bool-cases (ltb d b)) [
  | inl t ↦ rw t (
      Adds-cons hi lo d a b rest (emplace d rest) v
        (emplace-Adds a lo d rest v.3 l (ground arith) (ground arith) c.2))
  | inr t ↦ rw t (record { below = ground arith; exact = λ x. ground arith })
]

-- Whether it is appended to a segment or starts a new one, `d` joins the segments.
pub added-Adds :
    (hi lo d : ℕ) (segs : List ValueSegment)
    → Below hi lo segs
    → lo < d
    → d + 1 < hi
    → in_segments segs d ≡ false
    → Adds hi lo d segs (or_else (try_append d [] segs) (emplace d segs))
unfolding or_else rev_append
added-Adds hi lo d segs v l h n =
    rw (try_append-walk d [] segs tt) (pick (walk-Outcome hi lo d segs v l h n))
  where
    pick :
        WalkOutcome hi lo d segs (append_walk d segs)
        → Adds hi lo d segs
            (or_else (Option.map (rev_append []) (append_walk d segs)) (emplace d segs))
    pick =
        elim (append_walk d segs)
          as (λ o.
            WalkOutcome hi lo d segs o
            → Adds hi lo d segs (or_else (Option.map (rev_append []) o) (emplace d segs))) [
              | none ↦ λ c. emplace-Adds hi lo d segs v l h n c
              | some q ↦ λ w. w
            ]
