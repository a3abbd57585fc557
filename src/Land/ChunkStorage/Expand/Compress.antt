-- ===== src/Land/ChunkStorage/Expand/Compress.antt =====
-- src/voxen/land/compressed_chunk_storage.cpp: expanding what was compressed.
use voxen.Prelude.{
  ℕ, zero, suc, ◌<◌, ◌≡◌, refl, ap, sym, ◌∙◌, Bool, true, false, List, [], ◌∷◌, Option, none, some,
  get_or, length, Bool-cases, inl, inr, arith, subst, ◌==◌,
}
use voxen.Land.ChunkStorage.{
  Expanded, Leaf, Node, uniform, mixed, collect_nodes, compress, construct_node, leaves_of,
  scan_leaves, finish_node,
}
use voxen.Land.ChunkStorage.Rank.{nonuniform_mask}
use voxen.Land.ChunkStorage.Nodes.{scan_leaves-mask}
use voxen.Land.ChunkStorage.Places.{vec3, length-leaves}
use voxen.Land.ChunkStorage.RoundTrip.{
  nodes_of, get_or-nodes_of, length-nodes_of, compress-finish_chunk, finish_chunk-whole,
  finish_chunk-sparse, load-compress,
}
use voxen.Land.ChunkStorage.Expand.{expand}
use voxen.Land.ChunkStorage.Expand.Load.{IsNode, IsChunk, expand-load}

abbrev pub IsResult : Option Node → Type 0
IsResult none = Unit {0}
IsResult (some n) = IsNode n

length-nonuniform_mask : (leaves : List Leaf) → length (nonuniform_mask leaves) ≡ length leaves
length-nonuniform_mask [] = refl
length-nonuniform_mask (leaf ∷ leaves) = ap suc (length-nonuniform_mask leaves)

construct_node-IsResult :
    (leaves : List Leaf) → length leaves ≡ 64 → IsResult (construct_node leaves)
unfolding construct_node finish_node
construct_node-IsResult leaves h = elim (Bool-cases (scan_leaves leaves 0 false true).whole) [
  | inl w ↦ elim (Bool-cases ((scan_leaves leaves 0 false true).value == 0)) [
    | inl t ↦ rw (w, t) tt
    | inr t ↦ rw (w, t) tt
  ]
  | inr w ↦
      rw (w) (ap length (scan_leaves-mask leaves 0 false true) ∙ length-nonuniform_mask leaves ∙ h)
]

node_cons :
    (n : Node) (nodes : List Node)
    → IsNode n
    → ((i : ℕ) → IsNode (get_or nodes i (uniform 0)))
    → (i : ℕ) → IsNode (get_or (n ∷ nodes) i (uniform 0))
node_cons n nodes h all zero = h
node_cons n nodes h all (suc i) = all i

collect_nodes-valid :
    (results : List (Option Node)) (v : ℕ) (met whole : Bool)
    → ((i : ℕ) → i < length results → IsResult (get_or results i none))
    → (length (collect_nodes results v met whole).mask ≡ length results)
      × ((i : ℕ) → IsNode (get_or (collect_nodes results v met whole).nodes i (uniform 0)))
unfolding collect_nodes
collect_nodes-valid [] v met whole h = (refl, λ i. tt)
collect_nodes-valid (none ∷ results) v met whole h =
    let (l, n) = collect_nodes-valid results _ _ _ (λ i lt. h (suc i) (omega arith)) in
    (ap suc l, n)
collect_nodes-valid (some (mixed m l s) ∷ results) v met whole h =
    let (len, n) = collect_nodes-valid results _ _ _ (λ i lt. h (suc i) (omega arith)) in
    (ap suc len, node_cons (mixed m l s) _ (h 0 (omega arith)) n)
collect_nodes-valid (some (uniform u) ∷ results) v met whole h =
    let (len, n) = collect_nodes-valid results _ _ _ (λ i lt. h (suc i) (omega arith)) in
    (ap suc len, node_cons (uniform u) _ tt n)

-- The constructor makes masks of 64 bits.
pub compress-IsChunk : (expanded : Expanded) → IsChunk (compress expanded)
compress-IsChunk expanded =
    let (l, n) = collect_nodes-valid (nodes_of expanded) 0 false true each in
    subst IsChunk (sym (compress-finish_chunk expanded))
      (elim (Bool-cases (collect_nodes (nodes_of expanded) 0 false true).whole) [
        | inl w ↦
            subst IsChunk
              (sym (finish_chunk-whole (collect_nodes (nodes_of expanded) 0 false true) w)) tt
        | inr w ↦
            subst IsChunk
              (sym (finish_chunk-sparse (collect_nodes (nodes_of expanded) 0 false true) w))
              (l ∙ length-nodes_of expanded, n)
      ])
  where
    each : (i : ℕ) → i < length (nodes_of expanded) → IsResult (get_or (nodes_of expanded) i none)
    each i lt =
        subst IsResult
          (sym (get_or-nodes_of expanded i (omega (arith, lt, length-nodes_of expanded))))
          (construct_node-IsResult (leaves_of expanded i) (length-leaves expanded i))

-- If some position (a, b, c) of the array holds 0, then `expand` on the compressed chunk writes the
-- array back, at every position of the chunk.
pub expand-compress :
    (expanded out : Expanded) (a b c x y z : ℕ)
    → a < 32
    → b < 32
    → c < 32
    → expanded (vec3 a b c) ≡ 0
    → x < 32
    → y < 32
    → z < 32
    → expand (compress expanded) out (vec3 x y z) ≡ expanded (vec3 x y z)
expand-compress expanded out a b c x y z ha hb hc e hx hy hz =
    expand-load (compress expanded) x y z out (compress-IsChunk expanded) hx hy hz
    ∙ load-compress expanded a b c a b c x y z ha hb hc ha hb hc refl (inl e) hx hy hz
