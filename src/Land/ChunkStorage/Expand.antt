-- ===== src/Land/ChunkStorage/Expand.antt =====
-- src/voxen/land/compressed_chunk_storage.cpp, `expand`: writing the chunk into a plain 3D array.
pub mod Walk
pub mod Load
pub mod Compress
use voxen.Prelude.{
  ℕ, zero, suc, ◌+◌, ◌-◌, ◌*◌, Bool, true, false, ◌&&◌, List, [], ◌∷◌, leb, ltb, if◌then◌else◌,
  get_or,
}
use voxen.Prelude.Words.{Word}
use voxen.Land.ChunkStorage.{
  Vec3, Expanded, node_base_offset, leaf_base_offset, Leaf, Node, uniform, mixed,
  CompressedChunkStorage, uniform_chunk, sparse,
}

-- The positions of a view of the given edge.
abbrev pub in_view : ℕ → Vec3 → Vec3 → Bool
in_view edge base p =
    (leb (base.x) (p.x) && ltb (p.x) (base.x + edge))
    && ((leb (base.y) (p.y) && ltb (p.y) (base.y + edge))
        && (leb (base.z) (p.z) && ltb (p.z) (base.z + edge)))

-- `fill` on a view of the given edge.
pub fill : ℕ → Vec3 → ℕ → Expanded → Expanded
fill edge base v out p = if in_view edge base p then v else out p

-- `fillFrom` on a view of edge 2.
pub fill_from : Vec3 → Leaf → Expanded → Expanded
fill_from base leaf out p =
    if in_view 2 base p
    then get_or leaf ((p.z - base.z) + (p.x - base.x) * 2 + (p.y - base.y) * 4) 0
    else out p

-- The pointers into the array of leaves and into the uniform values advance past what they read.
abbrev pub advance {ℓ} : {A : Type ℓ} → List A → List A
advance [] = []
advance (a ∷ rest) = rest

pub expand_leaves : Vec3 → Word → ℕ → List Leaf → List ℕ → Expanded → Expanded
unfolding leaf_base_offset fill fill_from
expand_leaves base [] j leaves singles out = out
expand_leaves base (b ∷ mask) j leaves singles out =
    let next_full =
      expand_leaves base mask (j + 1) (advance leaves) singles
        (fill_from (leaf_base_offset base j) (get_or leaves 0 []) out) in
    let next_single =
      expand_leaves base mask (j + 1) leaves (advance singles)
        (fill 2 (leaf_base_offset base j) (get_or singles 0 0) out) in
    if b then next_full else next_single

pub expand_node : Vec3 → Node → Expanded → Expanded
unfolding expand_leaves fill
expand_node base (uniform v) out = fill 8 base v out
expand_node base (mixed mask leaves singles) out = expand_leaves base mask 0 leaves singles out

pub expand_nodes : Word → ℕ → List Node → Expanded → Expanded
unfolding expand_node node_base_offset fill
expand_nodes [] i nodes out = out
expand_nodes (b ∷ mask) i nodes out =
    let next_node =
      expand_nodes mask (i + 1) (advance nodes)
        (expand_node (node_base_offset i) (get_or nodes 0 (uniform 0)) out) in
    let next_zero = expand_nodes mask (i + 1) nodes (fill 8 (node_base_offset i) 0 out) in
    if b then next_node else next_zero

pub expand : CompressedChunkStorage → Expanded → Expanded
unfolding expand_nodes
expand (uniform_chunk v) out p = v
expand (sparse mask nodes) out p = expand_nodes mask 0 nodes out p
