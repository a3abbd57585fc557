-- ===== src/Land/ChunkStorage/RoundTrip.antt =====
-- src/voxen/land/compressed_chunk_storage.cpp: what `load` reads from a chunk that the
-- constructor compressed.
use voxen.Prelude.{
  ◌⊎◌, ℕ, ◌-◌, ◌<◌, ◌≡◌, ◌≢◌, refl, ap, sym, ◌∙◌, true, false, List, Option, none, some, length,
  get_or, arith, Bool-cases, Option-cases, inl, inr, ltb, ltb→lt, ltb→le,
}
use voxen.Land.ChunkStorage.{
  Vec3, Expanded, leaves_of, tabulate, Node, uniform, construct_node, Collected, collect_nodes,
  uniform_chunk, sparse, finish_chunk, compress, load, load_node,
}
use voxen.Land.ChunkStorage.Rank.{get_or-tabulate_zero, length-tabulate, mask-none, rank-some}
use voxen.Land.ChunkStorage.Nodes.{read_node, construct_node-nonzero, construct_node-same}
use voxen.Land.ChunkStorage.Places.{
  node_of, leaf_of, element_of, vec3, node_lt, read_node_at, length-leaves, leaf-same, none_ne,
  get_or-out,
}
use voxen.Land.ChunkStorage.Whole.{NoZeroNode, collect_nodes-absent, collect_nodes-last}

-- The nodes before they are packed.
abbrev pub nodes_of : Expanded → List (Option Node)
nodes_of expanded = tabulate (λ i. construct_node (leaves_of expanded i)) 64 0

pub get_or-nodes_of :
    (expanded : Expanded) (i : ℕ)
    → i < 64
    → get_or (nodes_of expanded) i none ≡ construct_node (leaves_of expanded i)
get_or-nodes_of expanded i h =
    get_or-tabulate_zero (λ i. construct_node (leaves_of expanded i)) 64 i none h

pub length-nodes_of : (expanded : Expanded) → length (nodes_of expanded) ≡ 64
length-nodes_of expanded = length-tabulate (λ i. construct_node (leaves_of expanded i)) 64 0

nodes_of-NoZeroNode : (expanded : Expanded) → NoZeroNode (nodes_of expanded)
nodes_of-NoZeroNode expanded i u e = elim (Bool-cases (ltb i 64)) [
  | inl t ↦
      construct_node-nonzero (leaves_of expanded i) u
        (sym (get_or-nodes_of expanded i (ltb→lt i 64 t)) ∙ e)
  | inr t ↦ absurd (
      none_ne (
        sym (
          get_or-out (nodes_of expanded) i none
            (omega (arith, length-nodes_of expanded, ltb→le i 64 t)))
        ∙ e))
]

-- A chunk that keeps its nodes reads every position back.
load-sparse :
    (expanded : Expanded) (x y z : ℕ) (hx : x < 32) (hy : y < 32) (hz : z < 32)
    → load
        (sparse
          (collect_nodes (nodes_of expanded) 0 false true).mask
          (collect_nodes (nodes_of expanded) 0 false true).nodes)
        x
        y
        z
      ≡ expanded (vec3 x y z)
unfolding load
load-sparse expanded x y z hx hy hz =
    elim (Option-cases (construct_node (leaves_of expanded (node_of x y z)))) [
      | inl e ↦ rw (mask-none (nodes_of expanded) 0 false true (node_of x y z) (at ∙ e)) (
          ap (λ o. read_node o (leaf_of x y z) (element_of x y z)) (sym e)
          ∙ read_node_at x y z hx hy hz expanded)
      | inr (n, e) ↦
          let (bit, stored) =
            rank-some (nodes_of expanded) 0 false true (node_of x y z) (64 - node_of x y z) n
              (uniform 0) (at ∙ e) in
          rw (bit, stored)
            (ap (λ o. read_node o (leaf_of x y z) (element_of x y z)) (sym e)
              ∙ read_node_at x y z hx hy hz expanded)
    ]
  where
    at :
        get_or (nodes_of expanded) (node_of x y z) none
        ≡ construct_node (leaves_of expanded (node_of x y z))
    at = get_or-nodes_of expanded (node_of x y z) (node_lt x y z hx hy hz)

pub compress-finish_chunk :
    (expanded : Expanded)
    → compress expanded ≡ finish_chunk (collect_nodes (nodes_of expanded) 0 false true)
unfolding compress
compress-finish_chunk expanded = refl

pub finish_chunk-whole : (c : Collected) → c.whole ≡ true → finish_chunk c ≡ uniform_chunk c.value
finish_chunk-whole c w = rw (w) refl

load-finish_chunk_whole :
    (c : Collected) (x y z : ℕ) → c.whole ≡ true → load (finish_chunk c) x y z ≡ c.value
unfolding load
load-finish_chunk_whole c x y z w = rw (w) refl

pub finish_chunk-sparse : (c : Collected) → c.whole ≡ false → finish_chunk c ≡ sparse c.mask c.nodes
finish_chunk-sparse c w = rw (w) refl

-- With a node that has not one value other than 0, every position is read back.
load-compress_break :
    (expanded : Expanded) (n x y z : ℕ)
    → n < 64
    → ((u : ℕ) → construct_node (leaves_of expanded n) ≢ some (uniform u))
    → (hx : x < 32) (hy : y < 32) (hz : z < 32)
    → load (compress expanded) x y z ≡ expanded (vec3 x y z)
load-compress_break expanded n x y z hn b hx hy hz =
    elim (Bool-cases (collect_nodes (nodes_of expanded) 0 false true).whole) [
      | inl w ↦
          let (t, o, v, absent) =
            collect_nodes-absent (nodes_of expanded) 0 n true (nodes_of-NoZeroNode expanded)
              (omega (arith, hn, length-nodes_of expanded))
              (λ u e. b u (sym (get_or-nodes_of expanded n hn) ∙ e)) w in
          let here : construct_node (leaves_of expanded (node_of x y z)) ≡ none =
            sym (get_or-nodes_of expanded (node_of x y z) (node_lt x y z hx hy hz))
            ∙ absent (node_of x y z)
                (omega (arith, node_lt x y z hx hy hz, length-nodes_of expanded)) in
          at_load (
            load-finish_chunk_whole (collect_nodes (nodes_of expanded) 0 false true) x y z w
            ∙ v
            ∙ ap (λ o. read_node o (leaf_of x y z) (element_of x y z)) (sym here)
            ∙ read_node_at x y z hx hy hz expanded)
      | inr w ↦ at_load (
          ap (λ s. load s x y z)
            (finish_chunk-sparse (collect_nodes (nodes_of expanded) 0 false true) w)
          ∙ load-sparse expanded x y z hx hy hz)
    ]
  where
    at_load :
        load (finish_chunk (collect_nodes (nodes_of expanded) 0 false true)) x y z
          ≡ expanded (vec3 x y z)
        → load (compress expanded) x y z ≡ expanded (vec3 x y z)
    at_load e = ap (λ s. load s x y z) (compress-finish_chunk expanded) ∙ e

-- Let position (a, b, c) hold 0, or let it differ from a position (a', b', c') of the same node.
-- Then `load` on the compressed chunk gives, at every position of the chunk, the value of the
-- array that was compressed.
pub load-compress :
    (expanded : Expanded) (a b c a' b' c' x y z : ℕ)
    → a < 32
    → b < 32
    → c < 32
    → a' < 32
    → b' < 32
    → c' < 32
    → node_of a b c ≡ node_of a' b' c'
    → (expanded (vec3 a b c) ≡ 0) ⊎ (expanded (vec3 a b c) ≢ expanded (vec3 a' b' c'))
    → x < 32
    → y < 32
    → z < 32
    → load (compress expanded) x y z ≡ expanded (vec3 x y z)
unfolding load_node
load-compress expanded a b c a' b' c' x y z ha hb hc ha' hb' hc' same differ hx hy hz =
    load-compress_break expanded (node_of a b c) x y z (node_lt a b c ha hb hc) broken hx hy hz
  where
    broken : (u : ℕ) → construct_node (leaves_of expanded (node_of a b c)) ≢ some (uniform u)
    broken u e =
        let one : u ≡ expanded (vec3 a b c) =
          ap (λ o. read_node o (leaf_of a b c) (element_of a b c)) (sym e)
          ∙ read_node_at a b c ha hb hc expanded in
        let other : u ≡ expanded (vec3 a' b' c') =
          ap (λ o. read_node o (leaf_of a' b' c') (element_of a' b' c')) (sym e)
          ∙ ap
              (λ n.
                read_node (construct_node (leaves_of expanded n)) (leaf_of a' b' c')
                  (element_of a' b' c'))
              same
          ∙ read_node_at a' b' c' ha' hb' hc' expanded in
        elim differ [
          | inl zero_here ↦
              construct_node-nonzero (leaves_of expanded (node_of a b c)) u e (one ∙ zero_here)
          | inr ne ↦ ne (sym one ∙ other)
        ]

-- If every node has one value, f i for the node of number i, and no value is 0, the constructor
-- takes the whole chunk for uniform with the value of the last node, whatever the others hold.
pub compress-last :
    (expanded : Expanded) (f : ℕ → ℕ)
    → ((i : ℕ) → i < 64 → f i ≢ 0)
    → ((p : Vec3) → expanded p ≡ f (node_of (p.x) (p.y) (p.z)))
    → compress expanded ≡ uniform_chunk (f 63)
compress-last expanded f nonzero same =
    let (w, v) = collect_nodes-last (nodes_of expanded) f 0 63 (length-nodes_of expanded) each in
    compress-finish_chunk expanded
    ∙ finish_chunk-whole (collect_nodes (nodes_of expanded) 0 false true) w
    ∙ ap uniform_chunk v
  where
    each :
        (i : ℕ)
        → i < length (nodes_of expanded)
        → get_or (nodes_of expanded) i none ≡ some (uniform (f i))
    each i lt =
        let below : i < 64 = omega (arith, lt, length-nodes_of expanded) in
        get_or-nodes_of expanded i below
        ∙ construct_node-same (leaves_of expanded i) (f i) (omega (arith, length-leaves expanded i))
            (nonzero i below) (leaf-same expanded f same i below)
