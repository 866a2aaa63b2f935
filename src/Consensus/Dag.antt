-- ===== src/Consensus/Dag.antt =====
-- `DagOrdering` of src/consensus/mod.rs. Each method takes its two locks once, so it is one step on
-- the record. The two `while` loops run on fuel: the sum of the parents for the ancestors, the
-- number of vertices for the sort.
pub mod Sets
pub mod Ancestors
pub mod Degrees
pub mod Order
pub mod Sort
pub mod Result
pub mod History
mod Tests
use protonchain.Base.{
  ℕ, zero, suc, ◌+◌, ◌-◌, ◌%◌, ◌^◌, Bool, true, false, Option, none, some, List, [], ◌∷◌, ◌++◌, eqb,
  if◌then◌else◌, length,
}
use protonchain.Base.HashMap
use protonchain.Base.HashMap.{HashMap}
use protonchain.Base.HashMap.Sum.{sum}
use protonchain.Types.{Hash, hash_key}

pub record DagVertex : Type 0 where
  pub hash : Hash
  pub parents : List Hash
  pub timestamp : ℕ
  pub round : ℕ
  pub is_block : Bool

pub record DagOrdering : Type 0 where
  pub vertices : HashMap Hash DagVertex
  pub edges : HashMap Hash (List Hash)

-- `DagOrdering::new`
abbrev pub new_dag : DagOrdering
new_dag = record { vertices = []; edges = [] }

unfoldable pub add_vertex : DagOrdering → DagVertex → DagOrdering
add_vertex dag vertex = record {
  vertices = HashMap.insert vertex.hash vertex dag.vertices;
  edges = HashMap.insert vertex.hash vertex.parents dag.edges;
}

-- `if let Some(list) = map.get(&current)`: the list to go through, empty if there is none
abbrev pub list_at : Hash → HashMap Hash (List Hash) → List Hash
list_at current m = elim (HashMap.get current m) [ none ↦ [] | some hs ↦ hs ]

-- `for parent in parents { stack.push(parent.clone()) }`; the top of the stack is the head
unfoldable pub push_all : List Hash → List Hash → List Hash
push_all [] stack = stack
push_all (parent ∷ parents) stack = push_all parents (parent ∷ stack)

-- the `while let Some(current) = stack.pop()` of `get_ancestors`
unfoldable pub walk :
    HashMap Hash (List Hash) → ℕ → HashMap Hash Bool → List Hash → List Hash → Option (List Hash)
unfolding push_all
walk edges fuel visited result [] = some result
walk edges zero visited result (current ∷ stack) = none
walk edges (suc fuel) visited result (current ∷ stack) =
    elim (HashMap.contains_key current visited) [
      | true ↦ walk edges fuel visited result stack
      | false ↦
          walk edges fuel (HashMap.insert current true visited) (result ++ current ∷ [])
            (push_all (list_at current edges) stack)
    ]

unfoldable pub get_ancestors : DagOrdering → Hash → Option (List Hash)
unfolding walk
get_ancestors dag hash = walk dag.edges (suc (sum length dag.edges)) [] [] (hash ∷ [])

-- the two maps that `topological_sort` builds
pub record Tables : Type 0 where
  pub in_degree : HashMap Hash ℕ
  pub adj : HashMap Hash (List Hash)

-- `in_degree.entry(hash).or_insert(0)`, the value with it
abbrev pub degree_at : Hash → HashMap Hash ℕ → ℕ
degree_at hash in_degree = elim (HashMap.get hash in_degree) [ none ↦ 0 | some d ↦ d ]

unfoldable pub touch : Hash → HashMap Hash ℕ → HashMap Hash ℕ
touch hash in_degree = elim (HashMap.get hash in_degree) [
  | none ↦ HashMap.insert hash 0 in_degree
  | some _ ↦ in_degree
]

-- `for parent in &vertex.parents`
unfoldable pub link : Hash → List Hash → Tables → Tables
link hash [] s = s
link hash (parent ∷ parents) s = link hash parents (record {
  in_degree = HashMap.insert hash ((degree_at hash s.in_degree + 1) % 2 ^ 64) s.in_degree;
  adj = HashMap.insert parent (list_at parent s.adj ++ hash ∷ []) s.adj;
})

-- `for (hash, vertex) in vertices.iter()`
unfoldable pub build : HashMap Hash DagVertex → Tables → Tables
unfolding touch link
build [] s = s
build ((hash, vertex) ∷ rest) s =
    build rest (link hash vertex.parents (record s { in_degree = touch hash s.in_degree }))

-- `in_degree.iter().filter(|(_, &deg)| deg == 0).map(|(h, _)| h.clone())`
unfoldable pub ready : HashMap Hash ℕ → List Hash
ready [] = []
ready ((hash, deg) ∷ rest) = if eqb deg 0 then hash ∷ ready rest else ready rest

-- `for neighbor in neighbors`: the degrees and the queue after it
unfoldable pub release : List Hash → HashMap Hash ℕ → List Hash → HashMap Hash ℕ × List Hash
release [] in_degree queue = (in_degree, queue)
release (neighbor ∷ neighbors) in_degree queue = elim (HashMap.get neighbor in_degree) [
  | none ↦ release neighbors in_degree queue
  | some deg ↦
      let less = (deg + (2 ^ 64 - 1)) % 2 ^ 64 in
      release neighbors (HashMap.insert neighbor less in_degree)
        (if eqb less 0 then queue ++ neighbor ∷ [] else queue)
]

-- the `while let Some(current) = queue.pop_front()` of `topological_sort`
unfoldable pub drain :
    HashMap Hash (List Hash) → ℕ → HashMap Hash ℕ → List Hash → List Hash → Option (List Hash)
unfolding release
drain adj fuel in_degree [] result = some result
drain adj zero in_degree (current ∷ queue) result = none
drain adj (suc fuel) in_degree (current ∷ queue) result =
    let next = release (list_at current adj) in_degree queue in
    drain adj fuel next.0 next.1 (result ++ current ∷ [])

unfoldable pub topological_sort : DagOrdering → Option (List Hash)
unfolding build ready drain
topological_sort dag =
    let s = build dag.vertices (record { in_degree = []; adj = [] }) in
    drain s.adj (length s.in_degree) s.in_degree (ready s.in_degree) []
