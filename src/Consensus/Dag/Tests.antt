-- ===== src/Consensus/Dag/Tests.antt =====
-- The DAG ordering on small graphs.
use protonchain.Base.{arith, ◌↔◌, ℕ, ◌≡◌, refl, true, none, some, List, [], ◌∷◌, map}
use protonchain.Base.HashMap
use protonchain.Types.{Hash, hash_key}
use protonchain.Consensus.Dag.Sets.{IsDistinct}
use protonchain.Consensus.Dag.Ancestors.{get_ancestors_lem, Reaches}
use protonchain.Consensus.Dag.Order.{IsOrdered, Grounded}
use protonchain.Consensus.Dag.Degrees.{HasCountableParents}
use protonchain.Consensus.Mempool.Buckets.{elem}
use protonchain.Consensus.Dag.{
  DagOrdering, DagVertex, new_dag, add_vertex, get_ancestors, topological_sort,
}
use protonchain.Consensus.Dag.Result.{topological_sort_lem}
use protonchain.Consensus.Dag.History.{
  new_dag-IsConsistent, ancestors_first, add_vertex-IsConsistent, IsConsistent,
}

abbrev hash : ℕ → Hash
hash n = record { bytes = n ∷ [] }

abbrev vertex : ℕ → List ℕ → DagVertex
vertex n parents = record {
  hash = hash n;
  parents = map hash parents;
  timestamp = 0;
  round = 0;
  is_block = true;
}

-- a diamond, added from its tip
abbrev diamond : DagOrdering
diamond =
    add_vertex
      (add_vertex (add_vertex (add_vertex new_dag (vertex 4 (2 ∷ 3 ∷ []))) (vertex 3 (1 ∷ [])))
        (vertex 2 (1 ∷ [])))
      (vertex 1 [])

diamond_ancestors : get_ancestors diamond (hash 4) ≡ some (map hash (4 ∷ 3 ∷ 1 ∷ 2 ∷ []))
unfolding get_ancestors add_vertex HashMap.contains_key HashMap.insert
diamond_ancestors = refl

diamond_sorted : topological_sort diamond ≡ some (map hash (1 ∷ 3 ∷ 2 ∷ 4 ∷ []))
unfolding topological_sort add_vertex HashMap.get HashMap.insert
diamond_sorted = refl

-- a vertex whose parent is not in the graph
abbrev dangling : DagOrdering
dangling = add_vertex diamond (vertex 5 (1 ∷ 9 ∷ []))

dangling_sorted : topological_sort dangling ≡ some (map hash (1 ∷ 3 ∷ 2 ∷ 4 ∷ []))
unfolding topological_sort add_vertex HashMap.get HashMap.insert
dangling_sorted = refl

diamond-IsConsistent : IsConsistent diamond
diamond-IsConsistent = add_vertex-IsConsistent _ (vertex 1 []) (
    add_vertex-IsConsistent _ (vertex 2 (1 ∷ [])) (
      add_vertex-IsConsistent _ (vertex 3 (1 ∷ []))
        (add_vertex-IsConsistent _ (vertex 4 (2 ∷ 3 ∷ [])) new_dag-IsConsistent)))

dangling-IsConsistent : IsConsistent dangling
dangling-IsConsistent = add_vertex-IsConsistent diamond (vertex 5 (1 ∷ 9 ∷ [])) diamond-IsConsistent

dangling-HasCountableParents : HasCountableParents dangling.vertices
unfolding add_vertex HashMap.insert
dangling-HasCountableParents = ground arith

get_ancestors_lem_example :
    (r : List Hash) × (get_ancestors dangling (hash 5) ≡ some r)
    × IsDistinct r
    × ((elem (hash 9) r ≡ true) ↔ Reaches dangling.edges (hash 5) (hash 9))
get_ancestors_lem_example = get_ancestors_lem dangling (hash 5) (hash 9)

topological_sort_lem_example :
    (r : List Hash) × (topological_sort dangling ≡ some r)
    × IsDistinct r
    × IsOrdered dangling.vertices [] r
    × ((elem (hash 4) r ≡ true) ↔ Grounded dangling.vertices (hash 4))
topological_sort_lem_example =
    topological_sort_lem dangling (hash 4) dangling-IsConsistent.keys dangling-HasCountableParents

dangling_above_4 : get_ancestors dangling (hash 4) ≡ some (map hash (4 ∷ 3 ∷ 1 ∷ 2 ∷ []))
unfolding get_ancestors add_vertex HashMap.contains_key HashMap.insert
dangling_above_4 = refl

ancestors_first_example : elem (hash 3) (map hash (1 ∷ 3 ∷ 2 ∷ 4 ∷ [])) ≡ true
ancestors_first_example =
    ancestors_first dangling (hash 4) (hash 3) (map hash (1 ∷ 3 ∷ 2 ∷ [])) []
      (map hash (4 ∷ 3 ∷ 1 ∷ 2 ∷ [])) dangling-IsConsistent dangling-HasCountableParents
      dangling_sorted dangling_above_4 refl

dangling_above_5 : get_ancestors dangling (hash 5) ≡ some (map hash (5 ∷ 9 ∷ 1 ∷ []))
unfolding get_ancestors add_vertex HashMap.contains_key HashMap.insert
dangling_above_5 = refl

no_vertex_9 : HashMap.get (hash 9) dangling.vertices ≡ none
unfolding add_vertex HashMap.get HashMap.insert
no_vertex_9 = refl
