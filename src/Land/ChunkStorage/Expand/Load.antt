-- ===== src/Land/ChunkStorage/Expand/Load.antt =====
-- src/voxen/land/compressed_chunk_storage.cpp: `expand` against `load`.
use voxen.Prelude.{
  ℕ, zero, suc, ◌+◌, ◌-◌, ◌*◌, ◌/◌, ◌%◌, ◌<◌, ◌≤◌, ◌≡◌, ◌≢◌, refl, sym, ◌∙◌, Bool, true, false,
  ◌&&◌, List, [], ◌∷◌, leb, ltb, if◌then◌else◌, get_or, length, ◌==◌, arith, subst,
}
use voxen.Prelude.Words.{Word}
use voxen.Land.ChunkStorage.{
  Vec3, Expanded, node_base_offset, leaf_base_offset, Node, uniform, mixed, CompressedChunkStorage,
  uniform_chunk, sparse, load_node, load,
}
use voxen.Land.ChunkStorage.Rank.{popcount-and_zeros}
use voxen.Land.ChunkStorage.Places.{
  node_of, leaf_of, element_of, vec3, node_lt, leaf_lt, node_x, node_y, node_z, leaf_x, leaf_y,
  leaf_z,
}
use voxen.Land.ChunkStorage.Expand.{in_view, fill, expand_node, expand_nodes, expand, advance}
use voxen.Land.ChunkStorage.Expand.Walk.{
  below, get_or-advance, ==_ne_false, expand_leaves-outside, expand_leaves-at,
}

-- The range of one coordinate in a node, and in a leaf of it.
node_axis : (a x : ℕ) → (leb (a * 8) x && ltb x (a * 8 + 8)) ≡ (a == x / 8)
node_axis a x = ground arith

leaf_axis :
    (b x : ℕ)
    → b < 4
    → (leb (x / 8 * 8 + b * 2) x && ltb x (x / 8 * 8 + b * 2 + 2)) ≡ (b == x % 8 / 2)
leaf_axis b x h = ground arith

-- Three digits of base 4 against a number below 64.
digits_eq :
    (i x y z : ℕ)
    → i < 64
    → x < 4
    → y < 4
    → z < 4
    → ((i / 4 % 4 == x) && ((i / 16 % 4 == y) && (i % 4 == z))) ≡ (i == z + x * 4 + y * 16)
digits_eq i x y z h hx hy hz = ground arith

==_self : (n : ℕ) → (n == n) ≡ true
==_self n = ground arith

axis_in :
    (b d x : ℕ)
    → d < 4
    → (leb (b + d * 2) x && ltb x (b + d * 2 + 2)) ≡ true
    → (leb b x && ltb x (b + 8)) ≡ true
axis_in b d x h e = ground arith

and_true :
    (a b c a' b' c' : Bool)
    → (a ≡ true → a' ≡ true)
    → (b ≡ true → b' ≡ true)
    → (c ≡ true → c' ≡ true)
    → (a' && (b' && c')) ≡ false
    → (a && (b && c)) ≡ false
and_true false b c a' b' c' f g h e = refl
and_true true false c a' b' c' f g h e = refl
and_true true true false a' b' c' f g h e = refl
and_true true true true a' b' c' f g h e = absurd (ground (arith, f refl, g refl, h refl))

-- The views of a node's leaves lie in the node's.
leaf_outside :
    (base p : Vec3) (j : ℕ)
    → in_view 8 base p ≡ false
    → in_view 2 (leaf_base_offset base j) p ≡ false
unfolding leaf_base_offset
leaf_outside base p j e =
    and_true _ _ _ _ _ _ (axis_in (base.x) (j / 4 % 4) (p.x) (omega arith))
      (axis_in (base.y) (j / 16 % 4) (p.y) (omega arith))
      (axis_in (base.z) (j % 4) (p.z) (omega arith)) e

-- The masks have 64 bits.
abbrev pub IsNode : Node → Type 0
IsNode (uniform v) = Unit {0}
IsNode (mixed mask leaves singles) = length mask ≡ 64

abbrev pub IsChunk : CompressedChunkStorage → Type 0
IsChunk (uniform_chunk v) = Unit {0}
IsChunk (sparse mask nodes) = (length mask ≡ 64) × ((i : ℕ) → IsNode (get_or nodes i (uniform 0)))

module _ (x y z : ℕ) (hx : x < 32) (hy : y < 32) (hz : z < 32) where
  node_view : (i : ℕ) → i < 64 → in_view 8 (node_base_offset i) (vec3 x y z) ≡ (i == node_of x y z)
  unfolding node_base_offset
  node_view i h =
      rw (node_axis (i / 4 % 4) x, node_axis (i / 16 % 4) y, node_axis (i % 4) z)
        (digits_eq i (x / 8) (y / 8) (z / 8) h (omega arith) (omega arith) (omega arith))

  leaf_view :
      (j : ℕ)
      → j < 64
      → in_view 2 (leaf_base_offset (node_base_offset (node_of x y z)) j) (vec3 x y z)
        ≡ (j == leaf_of x y z)
  unfolding node_base_offset leaf_base_offset
  leaf_view j h =
      rw (node_x x y z hx hy hz, node_y x y z hx hy hz, node_z x y z hx hy hz)
        (rw
          (
            leaf_axis (j / 4 % 4) x (omega arith),
            leaf_axis (j / 16 % 4) y (omega arith),
            leaf_axis (j % 4) z (omega arith),
          )
          (digits_eq j (x % 8 / 2) (y % 8 / 2) (z % 8 / 2) h (omega arith) (omega arith)
            (omega arith)))

  leaf_element :
      (z - (leaf_base_offset (node_base_offset (node_of x y z)) (leaf_of x y z)).z)
        + (x - (leaf_base_offset (node_base_offset (node_of x y z)) (leaf_of x y z)).x) * 2
        + (y - (leaf_base_offset (node_base_offset (node_of x y z)) (leaf_of x y z)).y) * 4
      ≡ element_of x y z
  unfolding node_base_offset leaf_base_offset
  leaf_element =
      rw
        (
          node_x x y z hx hy hz,
          node_y x y z hx hy hz,
          node_z x y z hx hy hz,
          leaf_x x y z hx hy hz,
          leaf_y x y z hx hy hz,
          leaf_z x y z hx hy hz,
        )
        (omega arith)

  expand_node-at :
      (n : Node) (out : Expanded)
      → IsNode n
      → expand_node (node_base_offset (node_of x y z)) n out (vec3 x y z)
        ≡ load_node n (leaf_of x y z) (element_of x y z)
  unfolding expand_node load_node fill
  expand_node-at (uniform v) out h =
      rw (node_view (node_of x y z) (node_lt x y z hx hy hz), ==_self (node_of x y z)) refl
  expand_node-at (mixed mask leaves singles) out h =
      expand_leaves-at (node_base_offset (node_of x y z)) (vec3 x y z) (leaf_of x y z)
        (element_of x y z) leaf_view leaf_element mask 0 (leaf_of x y z) (64 - leaf_of x y z) leaves
        singles out (omega (arith, h)) (omega arith) (omega (arith, h, leaf_lt x y z hx hy hz))

  expand_node-outside :
      (i : ℕ) (n : Node) (out : Expanded)
      → i < 64
      → i ≢ node_of x y z
      → expand_node (node_base_offset i) n out (vec3 x y z) ≡ out (vec3 x y z)
  unfolding expand_node fill
  expand_node-outside i (uniform v) out h ne =
      rw (node_view i h, ==_ne_false i (node_of x y z) ne) refl
  expand_node-outside i (mixed mask leaves singles) out h ne =
      expand_leaves-outside (node_base_offset i) (vec3 x y z) mask 0 leaves singles out (λ j _ _.
        leaf_outside (node_base_offset i) (vec3 x y z) j
          (node_view i h ∙ ==_ne_false i (node_of x y z) ne))

  at_number :
      (i : ℕ)
      → node_of x y z ≡ i
      → (n : Node) (out : Expanded) → IsNode n
      → expand_node (node_base_offset i) n out (vec3 x y z)
        ≡ load_node n (leaf_of x y z) (element_of x y z)
  at_number i e n out h =
      subst
        (λ i.
          expand_node (node_base_offset i) n out (vec3 x y z)
          ≡ load_node n (leaf_of x y z) (element_of x y z))
        e (expand_node-at n out h)

  here : (i : ℕ) → node_of x y z ≡ i + 0 → (i == node_of x y z) ≡ true
  here i eq = ground (arith, eq)

  expand_nodes-outside :
      (mask : Word) (i : ℕ) (nodes : List Node) (out : Expanded)
      → i + length mask ≤ 64
      → node_of x y z < i
      → expand_nodes mask i nodes out (vec3 x y z) ≡ out (vec3 x y z)
  unfolding expand_nodes fill
  expand_nodes-outside [] i nodes out fits lt = refl
  expand_nodes-outside (true ∷ mask) i nodes out fits lt =
      expand_nodes-outside mask (i + 1) (advance nodes) _ (omega arith) (omega arith)
      ∙ expand_node-outside i (get_or nodes 0 (uniform 0)) out (omega arith) (omega (arith, lt))
  expand_nodes-outside (false ∷ mask) i nodes out fits lt =
      expand_nodes-outside mask (i + 1) nodes _ (omega arith) (omega arith)
      ∙ rw (node_view i (omega arith), ==_ne_false i (node_of x y z) (omega (arith, lt))) refl

  expand_nodes-at :
      (mask : Word) (i t k : ℕ) (nodes : List Node) (out : Expanded)
      → i + length mask ≤ 64
      → node_of x y z ≡ i + t
      → t < length mask
      → ((j : ℕ) → IsNode (get_or nodes j (uniform 0)))
      → expand_nodes mask i nodes out (vec3 x y z) ≡ (
          if get_or mask t false
          then load_node
              (get_or nodes (below mask t k) (uniform 0))
              (leaf_of x y z)
              (element_of x y z)
          else 0)
  unfolding expand_nodes fill
  expand_nodes-at [] i t k nodes out fits eq lt valid = absurd (omega (arith, lt))
  expand_nodes-at (true ∷ mask) i zero k nodes out fits eq lt valid =
      expand_nodes-outside mask (i + 1) (advance nodes) _ (omega arith) (omega (arith, eq))
      ∙ at_number i (eq ∙ omega arith) (get_or nodes 0 (uniform 0)) out (valid 0)
      ∙ rw (popcount-and_zeros (true ∷ mask) k) refl
  expand_nodes-at (false ∷ mask) i zero k nodes out fits eq lt valid =
      expand_nodes-outside mask (i + 1) nodes _ (omega arith) (omega (arith, eq))
      ∙ rw (node_view i (omega arith), here i eq) refl
  expand_nodes-at (true ∷ mask) i (suc t) k nodes out fits eq lt valid =
      expand_nodes-at mask (i + 1) t k (advance nodes) _ (omega arith) (omega (arith, eq))
        (omega arith) (λ j. subst IsNode (sym (get_or-advance nodes j (uniform 0))) (valid (suc j)))
      ∙ rw (get_or-advance nodes (below mask t k) (uniform 0)) refl
  expand_nodes-at (false ∷ mask) i (suc t) k nodes out fits eq lt valid =
      expand_nodes-at mask (i + 1) t k nodes _ (omega arith) (omega (arith, eq)) (omega arith) valid

-- On a chunk whose masks have 64 bits, `expand` writes at every position of the chunk, whatever the
-- array held there, the value that `load` reads.
pub expand-load :
    (s : CompressedChunkStorage) (x y z : ℕ) (out : Expanded)
    → IsChunk s
    → x < 32
    → y < 32
    → z < 32
    → expand s out (vec3 x y z) ≡ load s x y z
unfolding expand load
expand-load (uniform_chunk v) x y z out h hx hy hz = refl
expand-load (sparse mask nodes) x y z out h hx hy hz =
    expand_nodes-at x y z hx hy hz mask 0 (node_of x y z) (64 - node_of x y z) nodes out
      (omega (arith, h.0)) (omega arith) (omega (arith, h.0, node_lt x y z hx hy hz)) h.1
