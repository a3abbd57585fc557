-- ===== src/Common/V8gHashTrie/Tests.antt =====
-- The versioned hash trie with three keys, two of which share the first digits of their hashes.
use voxen.Prelude.{
  suc, ◌-◌, if◌then◌else◌, is_none, List, [], ◌∷◌, ℕ, ◌+◌, ◌*◌, ◌^◌, ◌<◌, ◌≡◌, refl, Bool, true,
  false, none, some, arith,
}
use voxen.Common.V8gHashTrie.{HashKey, Layout, Trie, find, insert, erase, empty}
use voxen.Common.V8gHashTrie.Contents.{IsTrie, insert-IsTrie}
use voxen.Common.V8gHashTrie.Laws.{insert_lem, erase_lem}
use voxen.Common.V8gHashTrie.Refines.{Command, put, remove, run, run_flat, Stands, run-Stands}
use voxen.Common.V8gHashTrie.Erasure.{empty-IsTrie}

pub data Name : Type 0 where
  alpha beta gamma : Name

abbrev pub name_hash : Name → ℕ
name_hash alpha = 5 * 2 ^ 54
name_hash beta = 5 * 2 ^ 54 + 2 ^ 48
name_hash gamma = 3 * 2 ^ 60

abbrev pub same_name : Name → Name → Bool
same_name alpha alpha = true
same_name beta beta = true
same_name gamma gamma = true
same_name _ _ = false

pub name_hash_small : (k : Name) → name_hash k < 2 ^ 64
name_hash_small alpha = omega arith
name_hash_small beta = omega arith
name_hash_small gamma = omega arith

pub name_hash_injective : (k l : Name) → name_hash k ≡ name_hash l → k ≡ l
name_hash_injective alpha alpha e = refl
name_hash_injective beta beta e = refl
name_hash_injective gamma gamma e = refl
name_hash_injective alpha beta e = absurd (omega (arith, e))
name_hash_injective alpha gamma e = absurd (omega (arith, e))
name_hash_injective beta alpha e = absurd (omega (arith, e))
name_hash_injective beta gamma e = absurd (omega (arith, e))
name_hash_injective gamma alpha e = absurd (omega (arith, e))
name_hash_injective gamma beta e = absurd (omega (arith, e))

pub same_name-true : (k l : Name) → same_name k l ≡ true → k ≡ l
same_name-true alpha alpha e = refl
same_name-true beta beta e = refl
same_name-true gamma gamma e = refl
same_name-true alpha beta e = absurd (ground (arith, e))
same_name-true alpha gamma e = absurd (ground (arith, e))
same_name-true beta alpha e = absurd (ground (arith, e))
same_name-true beta gamma e = absurd (ground (arith, e))
same_name-true gamma alpha e = absurd (ground (arith, e))
same_name-true gamma beta e = absurd (ground (arith, e))

pub same_name_refl : (k : Name) → same_name k k ≡ true
same_name_refl alpha = refl
same_name_refl beta = refl
same_name_refl gamma = refl

instance abbrev pub name_key : HashKey Name
name_key = record {
  hash = name_hash;
  equal = same_name;
  hash_small = name_hash_small;
  hash_injective = name_hash_injective;
  equal_true = same_name-true;
  equal_refl = same_name_refl;
}

abbrev pub layout : Layout
layout = record { node_size = 16; item_size = 24; item_align = 8 }

abbrev one_name : Trie Name ℕ
one_name = insert layout 1 alpha 10 empty

abbrev pub two_names : Trie Name ℕ
two_names = insert layout 2 beta 20 one_name

one_name-IsTrie : IsTrie one_name
one_name-IsTrie = insert-IsTrie layout 1 alpha 10 empty empty-IsTrie

pub two_names-IsTrie : IsTrie two_names
two_names-IsTrie = insert-IsTrie layout 2 beta 20 one_name one_name-IsTrie

-- Both keys are in a second node; erasing one of them moves the other back.
find_runs : find alpha two_names ≡ some (record { version = 1; key = alpha; value = 10 })
unfolding find insert empty
find_runs = refl

size_runs : two_names.size ≡ 2
unfolding insert empty
size_runs = refl

erase_runs :
    find alpha (erase layout 3 beta two_names)
    ≡ some (record { version = 1; key = alpha; value = 10 })
unfolding find insert empty erase
erase_runs = refl

insert_lem_example :
    IsTrie (insert layout 2 beta 20 one_name)
    × ((l : Name)
        → find l (insert layout 2 beta 20 one_name) ≡ (
            if same_name beta l
            then some (record { version = 2; key = beta; value = 20 })
            else find l one_name))
    × ((insert layout 2 beta 20 one_name).size
        ≡ (if is_none (find beta one_name) then suc one_name.size else one_name.size))
insert_lem_example = insert_lem layout 2 beta 20 one_name one_name-IsTrie

erase_lem_example :
    IsTrie (erase layout 3 alpha two_names)
    × ((l : Name)
        → find l (erase layout 3 alpha two_names)
          ≡ (if same_name alpha l then none else find l two_names))
    × ((erase layout 3 alpha two_names).size
        ≡ (if is_none (find alpha two_names) then two_names.size else two_names.size - 1))
erase_lem_example = erase_lem layout 3 alpha two_names two_names-IsTrie

abbrev commands : List (Command Name ℕ)
commands = remove 4 alpha ∷ put 3 gamma 30 ∷ put 2 beta 20 ∷ put 1 alpha 10 ∷ []

run-Stands_example : Stands layout (run layout commands) (run_flat commands)
run-Stands_example = run-Stands layout commands
