-- ===== src/Land/ChunkStorage/Nodes.antt =====
-- src/voxen/land/compressed_chunk_storage.cpp, `construct_node` against the part of `load` that
-- reads a node.
use voxen.Prelude.{
  ℕ, zero, suc, ◌-◌, ◌<◌, ◌≡◌, ◌≢◌, refl, ap, sym, ◌∙◌, Bool, true, false, not, List, [], ◌∷◌,
  Option, none, some, length, get_or, if◌then◌else◌, arith, Bool-cases, inl, inr, ◌&&◌, ◌==◌, ==→eq,
  ◌⊎◌,
}
use voxen.Prelude.Words.{word_not}
use voxen.Land.ChunkStorage.{
  Leaf, Node, uniform, first, leaf_uniform, all_equal, nonuniform_leaves, single_values,
  scan_leaves, finish_node, construct_node, load_node, rank,
}
use voxen.Land.ChunkStorage.Rank.{nonuniform_mask, rank-nonuniform, rank-single}

pub scan_leaves-mask :
    (leaves : List Leaf) (v : ℕ) (met whole : Bool)
    → (scan_leaves leaves v met whole).mask ≡ nonuniform_mask leaves
unfolding scan_leaves
scan_leaves-mask [] v met whole = refl
scan_leaves-mask (leaf ∷ leaves) v met whole =
    ap (λ m. not (leaf_uniform leaf) ∷ m) (scan_leaves-mask leaves _ _ _)

-- One leaf of the scan, by its tests.
scan_step :
    (u met whole : Bool) (v f value : ℕ)
    → (if u then (if met then (if v == f then whole else false) else whole) else false) ≡ true
    → ((if u then true else met) ≡ true → value ≡ (if u then (if met then v else f) else v))
    → (u ≡ true) × (whole ≡ true) × (met ≡ true → value ≡ v) × (f ≡ value)
scan_step true true whole v f value w kept =
    (refl, ground arith, (λ _. kept refl), ground (arith, kept refl))
scan_step true false whole v f value w kept =
    (refl, w, (λ e. absurd (ground arith)), sym (kept refl))
scan_step false met whole v f value w kept = absurd (ground arith)

-- A scan that stays `whole` saw only uniform leaves, all with the value that it ends with, which
-- is the value it started with if it had met one.
scan_leaves-whole :
    (leaves : List Leaf) (v : ℕ) (met whole : Bool)
    → (scan_leaves leaves v met whole).whole ≡ true
    → (whole ≡ true)
      × (met ≡ true → (scan_leaves leaves v met whole).value ≡ v)
      × ((i : ℕ)
          → i < length leaves
          → (leaf_uniform (get_or leaves i []) ≡ true)
            × (first (get_or leaves i []) ≡ (scan_leaves leaves v met whole).value))
unfolding scan_leaves
scan_leaves-whole [] v met whole h = (h, (λ _. refl), λ i lt. absurd (omega arith))
scan_leaves-whole (leaf ∷ leaves) v met whole h =
    let (w, kept, all) = scan_leaves-whole leaves _ _ _ h in
    let (u, m, keeps, here) = scan_step (leaf_uniform leaf) met whole v (first leaf) _ w kept in
    (m, keeps, λ i lt. at i lt u here all)
  where
    at :
        {x : ℕ} (i : ℕ)
        → i < length (leaf ∷ leaves)
        → leaf_uniform leaf ≡ true
        → first leaf ≡ x
        → ((j : ℕ)
            → j < length leaves
            → (leaf_uniform (get_or leaves j []) ≡ true) × (first (get_or leaves j []) ≡ x))
        → (leaf_uniform (get_or (leaf ∷ leaves) i []) ≡ true)
          × (first (get_or (leaf ∷ leaves) i []) ≡ x)
    at zero lt u e all = (u, e)
    at (suc i) lt u e all = all i (omega arith)

&&-true : (a b : Bool) → a && b ≡ true → (a ≡ true) × (b ≡ true)
&&-true true b h = (refl, h)
&&-true false b h = absurd (ground arith)

all_equal-get :
    (v : ℕ) (ds : List ℕ) (e : ℕ) → all_equal v ds ≡ true → e < length ds → get_or ds e 0 ≡ v
all_equal-get v [] e h lt = absurd (omega arith)
all_equal-get v (d ∷ ds) zero h lt = ==→eq d v (&&-true (d == v) (all_equal v ds) h).0
all_equal-get v (d ∷ ds) (suc e) h lt =
    all_equal-get v ds e (&&-true (d == v) (all_equal v ds) h).1 (omega arith)

-- A uniform leaf has its first value throughout.
pub leaf_uniform-first :
    (leaf : Leaf) (e : ℕ)
    → leaf_uniform leaf ≡ true
    → e < length leaf
    → get_or leaf e 0 ≡ first leaf
leaf_uniform-first [] e h lt = absurd (omega arith)
leaf_uniform-first (d ∷ ds) zero h lt = refl
leaf_uniform-first (d ∷ ds) (suc e) h lt = all_equal-get d ds e h (omega arith)

eq→== : (v : ℕ) → (v == v) ≡ true
eq→== v = ground arith

all_equal-same :
    (v : ℕ) (ds : List ℕ) → ((e : ℕ) → e < length ds → get_or ds e 0 ≡ v) → all_equal v ds ≡ true
all_equal-same v [] h = refl
all_equal-same v (d ∷ ds) h =
    rw (h 0 (omega arith), eq→== v) (all_equal-same v ds (λ e lt. h (suc e) (omega arith)))

pub leaf_uniform-same :
    (leaf : Leaf) (v : ℕ)
    → ((e : ℕ) → e < length leaf → get_or leaf e 0 ≡ v)
    → leaf_uniform leaf ≡ true
leaf_uniform-same [] v h = refl
leaf_uniform-same (d ∷ ds) v h =
    rw (h 0 (omega arith)) (all_equal-same v ds (λ e lt. h (suc e) (omega arith)))

get_or-nonuniform_mask :
    (leaves : List Leaf) (i : ℕ)
    → i < length leaves
    → get_or (nonuniform_mask leaves) i false ≡ not (leaf_uniform (get_or leaves i []))
get_or-nonuniform_mask [] i lt = absurd (omega arith)
get_or-nonuniform_mask (leaf ∷ leaves) zero lt = refl
get_or-nonuniform_mask (leaf ∷ leaves) (suc i) lt = get_or-nonuniform_mask leaves i (omega arith)

==_ne_false : (a b : ℕ) → a ≢ b → (a == b) ≡ false
==_ne_false a b h = ground arith

-- What `load` makes of a node that may be absent.
abbrev pub read_node : Option Node → ℕ → ℕ → ℕ
read_node none leaf_id element_id = 0
read_node (some n) leaf_id element_id = load_node n leaf_id element_id

-- A node with one value that is stored has a value other than 0.
pub construct_node-nonzero :
    (leaves : List Leaf) (v : ℕ) → construct_node leaves ≡ some (uniform v) → v ≢ 0
unfolding construct_node finish_node
construct_node-nonzero leaves v e z = elim (Bool-cases (scan_leaves leaves 0 false true).whole) [
  | inl w ↦ elim (Bool-cases ((scan_leaves leaves 0 false true).value == 0)) [
    | inl t ↦ absurd (ground arith)
    | inr t ↦ absurd (ground arith)
  ]
  | inr w ↦ absurd (ground arith)
]

-- A constructed node reads, at each of its places, the value it was built from.
pub read_node-construct_node :
    (leaves : List Leaf) (i e : ℕ)
    → i < length leaves
    → e < length (get_or leaves i [])
    → read_node (construct_node leaves) i e ≡ get_or (get_or leaves i []) e 0
unfolding construct_node finish_node load_node
read_node-construct_node leaves i e lt le =
    elim (Bool-cases (scan_leaves leaves 0 false true).whole) [
      | inl w ↦
          let (t, k, all) = scan_leaves-whole leaves 0 false true w in
          let same : get_or (get_or leaves i []) e 0 ≡ (scan_leaves leaves 0 false true).value =
            leaf_uniform-first (get_or leaves i []) e (all i lt).0 le ∙ (all i lt).1 in
          elim (Bool-cases ((scan_leaves leaves 0 false true).value == 0)) [
            | inl z ↦ rw (w, z) (sym (same ∙ ==→eq (scan_leaves leaves 0 false true).value 0 z))
            | inr z ↦ rw (w, z) (sym same)
          ]
      | inr w ↦
          rw (w, scan_leaves-mask leaves 0 false true)
            (mixed_case (Bool-cases (leaf_uniform (get_or leaves i []))))
    ]
  where
    mixed_case :
        (leaf_uniform (get_or leaves i []) ≡ true) ⊎ (leaf_uniform (get_or leaves i []) ≡ false)
        → (if get_or (nonuniform_mask leaves) i false
            then get_or
                (get_or
                  (nonuniform_leaves (nonuniform_mask leaves) leaves)
                  (rank (nonuniform_mask leaves) i)
                  [])
                e
                0
            else get_or
                (single_values (nonuniform_mask leaves) leaves)
                (rank (word_not (nonuniform_mask leaves)) i)
                0)
          ≡ get_or (get_or leaves i []) e 0
    mixed_case (inl u) =
        let bit : get_or (nonuniform_mask leaves) i false ≡ false =
          get_or-nonuniform_mask leaves i lt ∙ ap not u in
        rw (bit, rank-single leaves i (64 - i) lt bit)
          (sym (leaf_uniform-first (get_or leaves i []) e u le))
    mixed_case (inr u) =
        let bit : get_or (nonuniform_mask leaves) i false ≡ true =
          get_or-nonuniform_mask leaves i lt ∙ ap not u in
        rw (bit, rank-nonuniform leaves i (64 - i) lt bit) refl

-- Leaves that all hold one value other than 0 make a node of that value.
scan_leaves-same :
    (leaves : List Leaf) (v : ℕ) (met : Bool)
    → ((i : ℕ)
        → i < length leaves
        → (leaf_uniform (get_or leaves i []) ≡ true) × (first (get_or leaves i []) ≡ v))
    → (w : ℕ) → (met ≡ true → w ≡ v)
    → (met ≡ false → 0 < length leaves)
    → ((scan_leaves leaves w met true).whole ≡ true) × ((scan_leaves leaves w met true).value ≡ v)
unfolding scan_leaves
scan_leaves-same [] v true all w k n = (refl, k refl)
scan_leaves-same [] v false all w k n = absurd (omega (arith, n refl))
scan_leaves-same (leaf ∷ leaves) v true all w k n =
    let (u, f) = all 0 (omega arith) in
    rw (u, f, k refl, eq→== v)
      (scan_leaves-same leaves v true (λ i lt. all (suc i) (omega arith)) v (λ _. refl)
        (λ e. absurd (ground arith)))
scan_leaves-same (leaf ∷ leaves) v false all w k n =
    let (u, f) = all 0 (omega arith) in
    rw (u, f)
      (scan_leaves-same leaves v true (λ i lt. all (suc i) (omega arith)) v (λ _. refl)
        (λ e. absurd (ground arith)))

pub construct_node-same :
    (leaves : List Leaf) (v : ℕ)
    → 0 < length leaves
    → v ≢ 0
    → ((i : ℕ)
        → i < length leaves
        → (leaf_uniform (get_or leaves i []) ≡ true) × (first (get_or leaves i []) ≡ v))
    → construct_node leaves ≡ some (uniform v)
unfolding construct_node finish_node
construct_node-same leaves v n z all =
    let (w, e) = scan_leaves-same leaves v false all 0 (λ e. absurd (ground arith)) (λ _. n) in
    rw (w, e, ==_ne_false v 0 z) refl
