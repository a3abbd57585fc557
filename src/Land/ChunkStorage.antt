-- ===== src/Land/ChunkStorage.antt =====
-- src/voxen/land/compressed_chunk_storage.cpp, the template for numbers: 32x32x32 values as 64
-- nodes of 64 leaves of 8 values. The number i of a node and of a leaf has the place in Y above
-- that in X above that in Z.
pub mod Rank
pub mod Nodes
pub mod Whole
pub mod Places
pub mod RoundTrip
pub mod Expand
mod Tests
use voxen.Prelude.{
  ℕ, zero, suc, ◌+◌, ◌-◌, ◌*◌, ◌/◌, ◌%◌, Bool, true, false, not, ◌&&◌, List, [], ◌∷◌, ◌++◌, Option,
  none, some, ◌==◌, if◌then◌else◌, get_or,
}
use voxen.Prelude.Words.{Word, ones, zeros, word_and, word_not, popcount}

pub record Vec3 : Type 0 where
  pub x : ℕ
  pub y : ℕ
  pub z : ℕ

-- The plain 3D array that is compressed.
abbrev pub Expanded : Type 0
Expanded = Vec3 → ℕ

-- `(i & 0b001100) << 1`, `(i & 0b110000) >> 1` and `(i & 0b000011) << 3`.
pub node_base_offset : ℕ → Vec3
node_base_offset i = record { x = i / 4 % 4 * 8; y = i / 16 % 4 * 8; z = i % 4 * 8 }

-- The same two binary places lower, added to the node's base.
pub leaf_base_offset : Vec3 → ℕ → Vec3
leaf_base_offset base i = record {
  x = base.x + i / 4 % 4 * 2;
  y = base.y + i / 16 % 4 * 2;
  z = base.z + i % 4 * 2;
}

-- Eight values, in the order of `CubeArray<T, 2>`.
abbrev pub Leaf : Type 0
Leaf = List ℕ

abbrev pub value_at : Expanded → Vec3 → ℕ → ℕ
value_at expanded base e =
    expanded (record { x = base.x + e / 2 % 2; y = base.y + e / 4 % 2; z = base.z + e % 2 })

-- `extractTo` of a cube of edge 2.
pub extract_leaf : Expanded → Vec3 → Leaf
extract_leaf expanded base =
    value_at expanded base 0
    ∷ value_at expanded base 1
    ∷ value_at expanded base 2
    ∷ value_at expanded base 3
    ∷ value_at expanded base 4
    ∷ value_at expanded base 5
    ∷ value_at expanded base 6
    ∷ value_at expanded base 7
    ∷ []

-- `count` applied to the numbers from `i` on, `n` of them.
pub tabulate {ℓ} : {A : Type ℓ} → (ℕ → A) → ℕ → ℕ → List A
tabulate f zero i = []
tabulate f (suc n) i = f i ∷ tabulate f n (i + 1)

pub leaves_of : Expanded → ℕ → List Leaf
unfolding tabulate extract_leaf node_base_offset leaf_base_offset
leaves_of expanded index =
    tabulate (λ i. extract_leaf expanded (leaf_base_offset (node_base_offset index) i)) 64 0

abbrev pub all_equal : ℕ → List ℕ → Bool
all_equal v [] = true
all_equal v (d ∷ ds) = d == v && all_equal v ds

abbrev pub first : Leaf → ℕ
first leaf = get_or leaf 0 0

abbrev pub leaf_uniform : Leaf → Bool
leaf_uniform [] = true
leaf_uniform (d ∷ ds) = all_equal d ds

-- A node without leaves has one value. Otherwise the mask tells the non-uniform leaves; they stand
-- first, and the values of the uniform leaves, packed eight to a leaf behind them, are `singles`.
pub data Node : Type 0 where
  uniform : ℕ → Node
  mixed : Word → List Leaf → List ℕ → Node

-- The variables of the loop over a node's leaves: `nonuniform_leaf_mask`, whose bits come in
-- ascending order, `node_uniform_value`, `met_uniform_leaf` and `whole_node_uniform`.
pub record Scan : Type 0 where
  pub mask : Word
  pub value : ℕ
  pub met : Bool
  pub whole : Bool

pub scan_leaves : List Leaf → ℕ → Bool → Bool → Scan
scan_leaves [] value met whole = record { mask = []; value = value; met = met; whole = whole }
scan_leaves (leaf ∷ leaves) value met whole =
    let rest : Scan =
      scan_leaves leaves (if leaf_uniform leaf then (if met then value else first leaf) else value)
        (if leaf_uniform leaf then true else met)
        (if leaf_uniform leaf
          then (if met then (if value == first leaf then whole else false) else whole)
          else false) in
    record rest { mask = not (leaf_uniform leaf) ∷ rest.mask }

-- The second loop: the leaves whose bit is set, and the values of the others.
pub nonuniform_leaves : Word → List Leaf → List Leaf
nonuniform_leaves [] leaves = []
nonuniform_leaves (b ∷ mask) [] = []
nonuniform_leaves (b ∷ mask) (leaf ∷ leaves) =
    if b then leaf ∷ nonuniform_leaves mask leaves else nonuniform_leaves mask leaves

pub single_values : Word → List Leaf → List ℕ
single_values [] leaves = []
single_values (b ∷ mask) [] = []
single_values (b ∷ mask) (leaf ∷ leaves) =
    if b then single_values mask leaves else first leaf ∷ single_values mask leaves

-- What `construct_node` makes of the scanned leaves; `none` is a node of zeros.
pub finish_node : Scan → List Leaf → Option Node
unfolding nonuniform_leaves single_values
finish_node s leaves =
    if s.whole
    then (if s.value == 0 then none else some (uniform s.value))
    else some (mixed s.mask (nonuniform_leaves s.mask leaves) (single_values s.mask leaves))

pub construct_node : List Leaf → Option Node
unfolding scan_leaves finish_node
construct_node leaves = finish_node (scan_leaves leaves 0 false true) leaves

-- A chunk without nodes has one value; otherwise the mask tells the nodes that are stored.
pub data CompressedChunkStorage : Type 0 where
  uniform_chunk : ℕ → CompressedChunkStorage
  sparse : Word → List Node → CompressedChunkStorage

-- The variables of the loop over the nodes: `m_nonzero_node_mask`, the used nodes,
-- `chunk_uniform_value`, `met_uniform_node` and `whole_chunk_uniform`.
pub record Collected : Type 0 where
  pub mask : Word
  pub nodes : List Node
  pub value : ℕ
  pub met : Bool
  pub whole : Bool

pub collect_nodes : List (Option Node) → ℕ → Bool → Bool → Collected
collect_nodes [] value met whole = record {
  mask = [];
  nodes = [];
  value = value;
  met = met;
  whole = whole;
}
collect_nodes (none ∷ results) value met whole =
    let rest : Collected = collect_nodes results value true (if value == 0 then whole else false) in
    record rest { mask = false ∷ rest.mask }
collect_nodes (some (mixed mask leaves singles) ∷ results) value met whole =
    let rest : Collected = collect_nodes results value met false in
    record rest { mask = true ∷ rest.mask; nodes = mixed mask leaves singles ∷ rest.nodes }
collect_nodes (some (uniform v) ∷ results) value met whole =
    let rest : Collected =
      collect_nodes results (if met then value else v) met
        (if met then (if value == v then whole else false) else whole) in
    record rest { mask = true ∷ rest.mask; nodes = uniform v ∷ rest.nodes }

abbrev finish_chunk : Collected → CompressedChunkStorage
finish_chunk c = if c.whole then uniform_chunk c.value else sparse c.mask c.nodes

pub compress : Expanded → CompressedChunkStorage
unfolding leaves_of construct_node collect_nodes
compress expanded =
    finish_chunk
      (collect_nodes (tabulate (λ i. construct_node (leaves_of expanded i)) 64 0) 0 false true)

pub set_uniform : ℕ → CompressedChunkStorage → CompressedChunkStorage
set_uniform value s = uniform_chunk value

-- `(1 << i) - 1` on 64 bits.
abbrev pub tail_mask : ℕ → Word
tail_mask i = ones i ++ zeros (64 - i)

-- The number of set bits below bit i.
abbrev pub rank : Word → ℕ → ℕ
rank mask i = popcount (word_and mask (tail_mask i))

pub load_node : Node → ℕ → ℕ → ℕ
load_node (uniform v) leaf_id element_id = v
load_node (mixed mask leaves singles) leaf_id element_id =
    if get_or mask leaf_id false
    then get_or (get_or leaves (rank mask leaf_id) []) element_id 0
    else get_or singles (rank (word_not mask) leaf_id) 0

pub load : CompressedChunkStorage → ℕ → ℕ → ℕ → ℕ
unfolding load_node
load (uniform_chunk v) x y z = v
load (sparse mask nodes) x y z =
    let node_id = z / 8 + x / 8 * 4 + y / 8 * 16 in
    let leaf_id = z % 8 / 2 + x % 8 / 2 * 4 + y % 8 / 2 * 16 in
    let element_id = z % 2 + x % 2 * 2 + y % 2 * 4 in
    if get_or mask node_id false
    then load_node (get_or nodes (rank mask node_id) (uniform 0)) leaf_id element_id
    else 0
