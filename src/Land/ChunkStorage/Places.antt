-- ===== src/Land/ChunkStorage/Places.antt =====
-- src/voxen/land/compressed_chunk_storage.cpp: the numbers of a position's node, leaf and element,
-- and what the constructed node holds there.
use voxen.Prelude.{
  ℕ, zero, suc, ◌+◌, ◌*◌, ◌/◌, ◌%◌, ◌<◌, ◌≡◌, ◌≢◌, refl, ap, ◌∙◌, true, List, [], ◌∷◌, none, some,
  length, get_or, arith, ◌≤◌,
}
use voxen.Land.ChunkStorage.{
  Vec3, Expanded, node_base_offset, leaf_base_offset, value_at, extract_leaf, leaves_of, first,
  leaf_uniform, Node, construct_node,
}
use voxen.Land.ChunkStorage.Rank.{get_or-tabulate_zero, length-tabulate}
use voxen.Land.ChunkStorage.Nodes.{read_node, read_node-construct_node, leaf_uniform-same}

-- The numbers of the node, of the leaf in it and of the element in that.
abbrev pub node_of : ℕ → ℕ → ℕ → ℕ
node_of x y z = z / 8 + x / 8 * 4 + y / 8 * 16

abbrev pub leaf_of : ℕ → ℕ → ℕ → ℕ
leaf_of x y z = z % 8 / 2 + x % 8 / 2 * 4 + y % 8 / 2 * 16

abbrev pub element_of : ℕ → ℕ → ℕ → ℕ
element_of x y z = z % 2 + x % 2 * 2 + y % 2 * 4

pub none_ne : {n : Node} → none ≢ some n
none_ne e = absurd (cc)

pub get_or-out {ℓ} : {A : Type ℓ} (xs : List A) (i : ℕ) (d : A) → length xs ≤ i → get_or xs i d ≡ d
get_or-out [] i d h = refl
get_or-out (x ∷ xs) zero d h = absurd (omega arith)
get_or-out (x ∷ xs) (suc i) d h = get_or-out xs i d (omega arith)

abbrev pub vec3 : ℕ → ℕ → ℕ → Vec3
vec3 a b c = record { x = a; y = b; z = c }

vec3_eq : {a b c x y z : ℕ} → a ≡ x → b ≡ y → c ≡ z → vec3 a b c ≡ vec3 x y z
vec3_eq p q r = rw (p, q, r) refl

get_or-extract_leaf :
    (expanded : Expanded) (base : Vec3) (e : ℕ)
    → e < 8
    → get_or (extract_leaf expanded base) e 0 ≡ value_at expanded base e
unfolding extract_leaf
get_or-extract_leaf expanded base zero h = refl
get_or-extract_leaf expanded base (suc zero) h = refl
get_or-extract_leaf expanded base (suc (suc zero)) h = refl
get_or-extract_leaf expanded base (suc (suc (suc zero))) h = refl
get_or-extract_leaf expanded base (suc (suc (suc (suc zero)))) h = refl
get_or-extract_leaf expanded base (suc (suc (suc (suc (suc zero))))) h = refl
get_or-extract_leaf expanded base (suc (suc (suc (suc (suc (suc zero)))))) h = refl
get_or-extract_leaf expanded base (suc (suc (suc (suc (suc (suc (suc zero))))))) h = refl
get_or-extract_leaf expanded base (suc (suc (suc (suc (suc (suc (suc (suc e)))))))) h =
    absurd (omega arith)

module _ (x y z : ℕ) (hx : x < 32) (hy : y < 32) (hz : z < 32) where
  pub node_lt : node_of x y z < 64
  node_lt = omega (arith, hx, hy, hz)

  pub leaf_lt : leaf_of x y z < 64
  leaf_lt = omega (arith, hx, hy, hz)

  pub element_lt : element_of x y z < 8
  element_lt = omega (arith, hx, hy, hz)

  pub node_y : node_of x y z / 16 % 4 ≡ y / 8
  node_y = omega (arith, hx, hy, hz)

  pub node_x : node_of x y z / 4 % 4 ≡ x / 8
  node_x = omega (arith, hx, hy, hz)

  pub node_z : node_of x y z % 4 ≡ z / 8
  node_z = omega (arith, hx, hy, hz)

  pub leaf_y : leaf_of x y z / 16 % 4 ≡ y % 8 / 2
  leaf_y = omega (arith, hx, hy, hz)

  pub leaf_x : leaf_of x y z / 4 % 4 ≡ x % 8 / 2
  leaf_x = omega (arith, hx, hy, hz)

  pub leaf_z : leaf_of x y z % 4 ≡ z % 8 / 2
  leaf_z = omega (arith, hx, hy, hz)

  element_y : element_of x y z / 4 % 2 ≡ y % 2
  element_y = omega arith

  element_x : element_of x y z / 2 % 2 ≡ x % 2
  element_x = omega arith

  element_z : element_of x y z % 2 ≡ z % 2
  element_z = omega arith

  -- The three numbers lead back to the position.
  get_or-leaves_of :
      (expanded : Expanded)
      → get_or (get_or (leaves_of expanded (node_of x y z)) (leaf_of x y z) []) (element_of x y z) 0
        ≡ expanded (vec3 x y z)
  unfolding leaves_of node_base_offset leaf_base_offset
  get_or-leaves_of expanded =
      rw
        (get_or-tabulate_zero
          (λ i. extract_leaf expanded (leaf_base_offset (node_base_offset (node_of x y z)) i)) 64
          (leaf_of x y z) [] leaf_lt)
        (get_or-extract_leaf expanded _ (element_of x y z) element_lt
          ∙ ap expanded (
              vec3_eq (rw (node_x, leaf_x, element_x) (omega arith))
                (rw (node_y, leaf_y, element_y) (omega arith))
                (rw (node_z, leaf_z, element_z) (omega arith))))

  pub length-leaves_of : (expanded : Expanded) → length (leaves_of expanded (node_of x y z)) ≡ 64
  unfolding leaves_of
  length-leaves_of expanded =
      length-tabulate
        (λ i. extract_leaf expanded (leaf_base_offset (node_base_offset (node_of x y z)) i)) 64 0

  length-leaf :
      (expanded : Expanded)
      → length (get_or (leaves_of expanded (node_of x y z)) (leaf_of x y z) []) ≡ 8
  unfolding leaves_of extract_leaf
  length-leaf expanded =
      rw
        (get_or-tabulate_zero
          (λ i. extract_leaf expanded (leaf_base_offset (node_base_offset (node_of x y z)) i)) 64
          (leaf_of x y z) [] leaf_lt)
        refl

  -- A node reads the values of the positions in it.
  pub read_node_at :
      (expanded : Expanded)
      → read_node
          (construct_node (leaves_of expanded (node_of x y z)))
          (leaf_of x y z)
          (element_of x y z)
        ≡ expanded (vec3 x y z)
  read_node_at expanded =
      read_node-construct_node (leaves_of expanded (node_of x y z)) (leaf_of x y z)
        (element_of x y z) (omega (arith, leaf_lt, length-leaves_of expanded))
        (omega (arith, element_lt, length-leaf expanded))
      ∙ get_or-leaves_of expanded

-- A leaf whose eight values are v.
extract_leaf-same :
    (expanded : Expanded) (base : Vec3) (v : ℕ)
    → ((e : ℕ) → e < 8 → value_at expanded base e ≡ v)
    → (leaf_uniform (extract_leaf expanded base) ≡ true) × (first (extract_leaf expanded base) ≡ v)
unfolding extract_leaf
extract_leaf-same expanded base v h = (
  leaf_uniform-same (extract_leaf expanded base) v
      (λ e lt. get_or-extract_leaf expanded base e lt ∙ h e lt),
  h 0 (omega arith),
)

-- The positions of a node have its number.
leaf_in_node :
    (i j e : ℕ)
    → i < 64
    → node_of
        (i / 4 % 4 * 8 + j / 4 % 4 * 2 + e / 2 % 2)
        (i / 16 % 4 * 8 + j / 16 % 4 * 2 + e / 4 % 2)
        (i % 4 * 8 + j % 4 * 2 + e % 2)
      ≡ i
leaf_in_node i j e h = omega arith

pub length-leaves : (expanded : Expanded) (i : ℕ) → length (leaves_of expanded i) ≡ 64
unfolding leaves_of
length-leaves expanded i =
    length-tabulate (λ j. extract_leaf expanded (leaf_base_offset (node_base_offset i) j)) 64 0

pub leaf-same :
    (expanded : Expanded) (f : ℕ → ℕ)
    → ((p : Vec3) → expanded p ≡ f (node_of (p.x) (p.y) (p.z)))
    → (i : ℕ) → i < 64
    → (j : ℕ) → j < length (leaves_of expanded i)
    → (leaf_uniform (get_or (leaves_of expanded i) j []) ≡ true)
      × (first (get_or (leaves_of expanded i) j []) ≡ f i)
unfolding leaves_of node_base_offset leaf_base_offset
leaf-same expanded f same i below j h =
    rw
      (get_or-tabulate_zero (λ j. extract_leaf expanded (leaf_base_offset (node_base_offset i) j))
        64 j [] (omega (arith, h, length-leaves expanded i)))
      (extract_leaf-same expanded (leaf_base_offset (node_base_offset i) j) (f i)
        (λ e _. same _ ∙ ap f (leaf_in_node i j e below)))
