-- ===== src/Land/ChunkStorage/Whole.antt =====
-- src/voxen/land/compressed_chunk_storage.cpp, the loop over a chunk's nodes: when the chunk is
-- taken for uniform.
use voxen.Prelude.{
  ℕ, zero, suc, ◌<◌, ◌≡◌, ◌≢◌, refl, sym, Bool, true, false, List, [], ◌∷◌, Option, none, some,
  length, get_or, if◌then◌else◌, arith, ◌==◌, ==→eq,
}
use voxen.Prelude.Words.{Word}
use voxen.Land.ChunkStorage.{Leaf, Node, uniform, mixed, collect_nodes}

abbrev pub NoZeroNode : List (Option Node) → Type 0
NoZeroNode results = (i u : ℕ) → get_or results i none ≡ some (uniform u) → u ≢ 0

false_ne : false ≢ true
false_ne e = absurd (ground arith)

absent_cons :
    (results : List (Option Node))
    → ((i : ℕ) → i < length results → get_or results i none ≡ none)
    → (i : ℕ) → i < length (none ∷ results)
    → get_or (none ∷ results) i none ≡ none
absent_cons results all zero lt = refl
absent_cons results all (suc i) lt = all i (omega arith)

if_test : (b w : Bool) → (if b then w else false) ≡ true → b ≡ true
if_test true w h = refl
if_test false w h = absurd (false_ne h)

if_true : (b w : Bool) → (if b then w else false) ≡ true → w ≡ true
if_true true w h = h
if_true false w h = absurd (false_ne h)

-- The flag is never set again.
collect_nodes-kept :
    (results : List (Option Node)) (v : ℕ) (met whole : Bool)
    → (collect_nodes results v met whole).whole ≡ true
    → whole ≡ true
unfolding collect_nodes
collect_nodes-kept [] v met whole h = h
collect_nodes-kept (none ∷ results) v met whole h =
    if_true (v == 0) whole (collect_nodes-kept results _ _ _ h)
collect_nodes-kept (some (mixed m l s) ∷ results) v met whole h =
    absurd (false_ne (collect_nodes-kept results _ _ _ h))
collect_nodes-kept (some (uniform u) ∷ results) v true whole h =
    if_true (v == u) whole (collect_nodes-kept results _ _ _ h)
collect_nodes-kept (some (uniform u) ∷ results) v false whole h = collect_nodes-kept results _ _ _ h

-- With the value 0 met, only absent nodes keep the chunk uniform.
collect_nodes-met :
    (results : List (Option Node)) (whole : Bool)
    → NoZeroNode results
    → (collect_nodes results 0 true whole).whole ≡ true
    → (whole ≡ true)
      × ((collect_nodes results 0 true whole).value ≡ 0)
      × ((i : ℕ) → i < length results → get_or results i none ≡ none)
unfolding collect_nodes
collect_nodes-met [] whole z h = (h, refl, λ i lt. absurd (omega arith))
collect_nodes-met (none ∷ results) whole z h =
    let (w, e, all) = collect_nodes-met results whole (λ i. z (suc i)) h in
    (w, e, absent_cons results all)
collect_nodes-met (some (mixed m l s) ∷ results) whole z h =
    absurd (false_ne (collect_nodes-met results false (λ i. z (suc i)) h).0)
collect_nodes-met (some (uniform u) ∷ results) whole z h =
    absurd
      (z 0 u refl (sym (==→eq 0 u (if_test (0 == u) whole (collect_nodes-kept results _ _ _ h)))))

-- A chunk that is taken for uniform has no mixed node, and if a node of it is absent, all are.
pub collect_nodes-absent :
    (results : List (Option Node)) (v n : ℕ) (whole : Bool)
    → NoZeroNode results
    → n < length results
    → ((u : ℕ) → get_or results n none ≢ some (uniform u))
    → (collect_nodes results v false whole).whole ≡ true
    → (whole ≡ true)
      × (v ≡ 0)
      × ((collect_nodes results v false whole).value ≡ 0)
      × ((i : ℕ) → i < length results → get_or results i none ≡ none)
unfolding collect_nodes
collect_nodes-absent [] v n whole z lt b h = absurd (omega arith)
collect_nodes-absent (none ∷ results) zero n whole z lt b h =
    let (w, e, all) = collect_nodes-met results whole (λ i. z (suc i)) h in
    (w, refl, e, absent_cons results all)
collect_nodes-absent (none ∷ results) (suc v) n whole z lt b h = absurd (
    omega
      (arith, ==→eq (suc v) 0 (if_test (suc v == 0) whole (collect_nodes-kept results _ _ _ h))))
collect_nodes-absent (some (mixed m l s) ∷ results) v n whole z lt b h =
    absurd (false_ne (collect_nodes-kept results v false false h))
collect_nodes-absent (some (uniform u) ∷ results) v zero whole z lt b h = absurd (b u refl)
collect_nodes-absent (some (uniform u) ∷ results) v (suc n) whole z lt b h =
    absurd
      (z 0 u refl (collect_nodes-absent results u n whole (λ i. z (suc i)) (omega arith) b h).1)

none_ne : {n : Node} → none ≢ some n
none_ne e = absurd (cc)

mixed_ne : {m : Word} {l : List Leaf} {s : List ℕ} {v : ℕ} → some (mixed m l s) ≢ some (uniform v)
mixed_ne e = absurd (cc)

uniform_inj : {u v : ℕ} → some (uniform u) ≡ some (uniform v) → u ≡ v
uniform_inj e = cc

-- With no absent and no mixed node the values are never compared, and the last one is kept.
pub collect_nodes-last :
    (results : List (Option Node)) (f : ℕ → ℕ) (v n : ℕ)
    → length results ≡ suc n
    → ((i : ℕ) → i < length results → get_or results i none ≡ some (uniform (f i)))
    → ((collect_nodes results v false true).whole ≡ true)
      × ((collect_nodes results v false true).value ≡ f n)
unfolding collect_nodes
collect_nodes-last [] f v n len all = absurd (omega (arith, len))
collect_nodes-last (none ∷ results) f v n len all = absurd (none_ne (all 0 (omega arith)))
collect_nodes-last (some (mixed m l s) ∷ results) f v n len all =
    absurd (mixed_ne (all 0 (omega arith)))
collect_nodes-last (some (uniform u) ∷ []) f v zero len all =
    (refl, uniform_inj (all 0 (omega arith)))
collect_nodes-last (some (uniform u) ∷ r ∷ results) f v zero len all = absurd (omega (arith, len))
collect_nodes-last (some (uniform u) ∷ results) f v (suc n) len all =
    collect_nodes-last results (λ i. f (suc i)) u n (omega (arith, len))
      (λ i lt. all (suc i) (omega arith))
