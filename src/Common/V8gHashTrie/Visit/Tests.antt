-- ===== src/Common/V8gHashTrie/Visit/Tests.antt =====
-- The visits of a trie with three keys.
use voxen.Prelude.{ℕ, ◌≡◌, refl, Bool, false, List, [], ◌∷◌, none, some, not, ◌==◌, ◌^◌}
use voxen.Common.V8gFlatMap.{Item}
use voxen.Common.V8gHashTrie.{Node, Trie, find, insert, empty, insert_in, allocate_node}
use voxen.Common.V8gHashTrie.Contents.{IsTrie, insert-IsTrie}
use voxen.Common.V8gHashTrie.Tests.{
  Name, alpha, beta, gamma, name_key, layout, two_names, two_names-IsTrie,
}
use voxen.Common.V8gHashTrie.Visit.{visit_unary, find_first, find_next, list_items, list_roots}
use voxen.Common.V8gHashTrie.Visit.First.{visit_list, visit_unary-list_items, head}
use voxen.Common.V8gHashTrie.Visit.Following.{find_next_lem, next_hash}
use voxen.Common.V8gHashTrie.Visit.Roots.{HashesRise, list_roots_lem}
use voxen.Common.V8gHashTrie.Visit.Search.{search}

abbrev three_names : Trie Name ℕ
three_names = insert layout 3 gamma 30 two_names

three_names-IsTrie : IsTrie three_names
three_names-IsTrie = insert-IsTrie layout 3 gamma 30 two_names two_names-IsTrie

find_first_runs : find_first three_names ≡ some (record { version = 1; key = alpha; value = 10 })
unfolding find_first insert empty
find_first_runs = refl

find_next_runs : find_next alpha three_names ≡ some (record { version = 2; key = beta; value = 20 })
unfolding find_next insert empty
find_next_runs = refl

find_next_root_runs :
    find_next beta three_names ≡ some (record { version = 3; key = gamma; value = 30 })
unfolding find_next insert empty
find_next_root_runs = refl

find_next_last_runs : find_next gamma three_names ≡ none
unfolding find_next insert empty
find_next_last_runs = refl

-- A node with two items, and a visitor that collects values and stops at 20.
abbrev small_node : Node 1 (Item Name ℕ)
small_node =
    (insert_in ℕ layout 1 2 beta 20 (2 ^ 58)
      (insert_in ℕ layout 1 1 alpha 10 0 (1, allocate_node (Item Name ℕ) layout 1 58)).0).0.1

abbrev collect : Item Name ℕ → List ℕ → Bool × List ℕ
collect x values = (not (x.value == 20), x.value ∷ values)

visit_unary-list_items_example :
    visit_unary collect 1 small_node [] ≡ visit_list collect (list_items 1 small_node) []
visit_unary-list_items_example = visit_unary-list_items collect 1 small_node []

visit_unary_runs : visit_unary collect 1 small_node [] ≡ (false, 20 ∷ 10 ∷ [])
unfolding visit_unary insert_in allocate_node
visit_unary_runs = refl

list_roots_lem_example :
    HashesRise 0 (list_roots three_names.root_nodes)
    × ((k : Name) → find k three_names ≡ search k (list_roots three_names.root_nodes))
    × (find_first three_names ≡ head (list_roots three_names.root_nodes))
list_roots_lem_example = list_roots_lem three_names three_names-IsTrie

find_next_lem_example :
    find_next alpha three_names ≡ next_hash alpha (list_roots three_names.root_nodes)
find_next_lem_example = find_next_lem alpha three_names three_names-IsTrie
