-- ===== src/Land/ChunkStorage/Tests.antt =====
-- Chunks on concrete values.
use voxen.Prelude.{ℕ, ◌≡◌, refl, inl, arith, ◌==◌, if◌then◌else◌, ◌&&◌}
use voxen.Land.ChunkStorage.{Expanded, uniform_chunk, compress, load, set_uniform}
use voxen.Land.ChunkStorage.Places.{node_of}
use voxen.Land.ChunkStorage.RoundTrip.{load-compress, compress-last}
use voxen.Land.ChunkStorage.Places.{vec3}
use voxen.Land.ChunkStorage.Expand.{expand}
use voxen.Land.ChunkStorage.Expand.Load.{expand-load}
use voxen.Land.ChunkStorage.Expand.Compress.{compress-IsChunk, expand-compress}

-- One voxel of value 7 at (3, 3, 3), nothing elsewhere.
abbrev one_voxel : Expanded
one_voxel p = if p.x == 3 && (p.y == 3 && p.z == 3) then 7 else 0

load-compress_example : load (compress one_voxel) 3 3 3 ≡ 7
load-compress_example =
    load-compress one_voxel 0 0 0 0 0 0 3 3 3 (omega arith) (omega arith) (omega arith)
      (omega arith) (omega arith) (omega arith) refl (inl refl) (omega arith) (omega arith)
      (omega arith)

set_uniform_runs : load (set_uniform 9 (compress one_voxel)) 3 3 3 ≡ 9
unfolding set_uniform load
set_uniform_runs = refl

-- Two values, 5 in the last node and 4 elsewhere: 5 is read everywhere.
abbrev halves : ℕ → ℕ
halves i = if i == 63 then 5 else 4

compress-last_example : compress (λ p. halves (node_of (p.x) (p.y) (p.z))) ≡ uniform_chunk 5
compress-last_example =
    compress-last (λ p. halves (node_of (p.x) (p.y) (p.z))) halves (λ i _. ground arith) (λ p. refl)

expand-load_example :
    expand (compress one_voxel) (λ p. 1) (vec3 3 3 3) ≡ load (compress one_voxel) 3 3 3
expand-load_example =
    expand-load (compress one_voxel) 3 3 3 (λ p. 1) (compress-IsChunk one_voxel) (omega arith)
      (omega arith) (omega arith)

expand-compress_example : expand (compress one_voxel) (λ p. 1) (vec3 3 3 3) ≡ 7
expand-compress_example =
    expand-compress one_voxel (λ p. 1) 0 0 0 3 3 3 (omega arith) (omega arith) (omega arith) refl
      (omega arith) (omega arith) (omega arith)
