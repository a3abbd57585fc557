-- ===== src/Common/V8gHashTrie/Laws.antt =====
-- include/voxen/common/v8g_hash_trie_impl.hpp: what each operation of the trie does.
use voxen.Prelude.{ℕ, suc, ◌-◌, ◌≡◌, none, some, if◌then◌else◌, is_none}
use voxen.Common.V8gHashTrie.{HashKey, Layout, Trie, find, insert, erase}
use voxen.Common.V8gHashTrie.Contents.{IsTrie, insert-IsTrie, find-insert, size-insert}
use voxen.Common.V8gHashTrie.Erasure.{erase-IsTrie, find-erase, size-erase}

module _ {ℓ κ} {K : Type ℓ} ⦃o : HashKey K⦄ {V : Type κ} (z : Layout) (timeline : ℕ) (k : K) where
  -- After `insert` into a well-formed trie the trie is well-formed, `find` gives for the key the new
  -- value with the timeline as its version and for every other key what it gave before, and the size
  -- is one more exactly if the key was not found before.
  pub insert_lem :
      (v : V) (t : Trie K V)
      → IsTrie t
      → IsTrie (insert z timeline k v t)
        × ((l : K)
            → find l (insert z timeline k v t) ≡ (
                if o.equal k l
                then some (record { version = timeline; key = k; value = v })
                else find l t))
        × ((insert z timeline k v t).size ≡ (if is_none (find k t) then suc t.size else t.size))
  insert_lem v t w = (
    insert-IsTrie z timeline k v t w,
    λ l. find-insert z timeline k v t l w,
    size-insert z timeline k v t w,
  )

  -- After `erase` from a well-formed trie the trie is well-formed, `find` gives nothing for the key
  -- and for every other key what it gave before, and the size is one less exactly if the key was
  -- found before.
  pub erase_lem :
      (t : Trie K V)
      → IsTrie t
      → IsTrie (erase z timeline k t)
        × ((l : K) → find l (erase z timeline k t) ≡ (if o.equal k l then none else find l t))
        × ((erase z timeline k t).size ≡ (if is_none (find k t) then t.size else t.size - 1))
  erase_lem t w = (
    erase-IsTrie z timeline k t w,
    λ l. find-erase z timeline k t l w,
    size-erase z timeline k t w,
  )
