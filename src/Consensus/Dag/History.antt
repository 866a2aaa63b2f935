-- ===== src/Consensus/Dag/History.antt =====
-- `DagOrdering` of src/consensus/mod.rs as a whole: what `add_vertex` keeps, and how the ancestors
-- of a hash stand in the sorted list.
use protonchain.Base.{
  ◌≡◌, refl, true, false, List, [], ◌∷◌, ◌++◌, arith, ◌==◌, none, some, Option, ◌∙◌, sym, subst,
  Bool-cases, inl, inr, ◌≢◌, append_assoc,
}
use protonchain.Base.HashMap
use protonchain.Base.HashMap.{HashMap, get-insert}
use protonchain.Base.HashMap.Sum.{HasDistinctKeys, insert-HasDistinctKeys}
use protonchain.Types.{Hash, hash_key, same_hash_iff}
use protonchain.Consensus.Mempool.Buckets.{elem, elem-append}
use protonchain.Consensus.Dag.{
  DagOrdering, DagVertex, list_at, add_vertex, new_dag, get_ancestors, topological_sort,
}
use protonchain.Consensus.Dag.Sets.{subset-elem, elem-++}
use protonchain.Consensus.Dag.Degrees.{parents_in, HasCountableParents}
use protonchain.Consensus.Dag.Order.{Grounded, grounded, IsOrdered}
use protonchain.Consensus.Dag.Ancestors.{Reaches, itself, parent, get_ancestors_lem}
use protonchain.Consensus.Dag.Result.{topological_sort_lem}

-- the parents of an entry that may be absent
abbrev pub parents_of : Option DagVertex → Option (List Hash)
parents_of none = none
parents_of (some v) = some v.parents

-- The two tables agree: one vertex for each hash, under its own hash, and its parents as the edges.
pub record IsConsistent (dag : DagOrdering) : Type 0 where
  pub keys : HasDistinctKeys dag.vertices
  pub named : (h : Hash) (v : DagVertex) → HashMap.get h dag.vertices ≡ some v → v.hash ≡ h
  pub agree : (h : Hash) → HashMap.get h dag.edges ≡ parents_of (HashMap.get h dag.vertices)

pub new_dag-IsConsistent : IsConsistent new_dag
unfolding HashMap.get
new_dag-IsConsistent = record { keys = tt; named = λ h v e. ground arith; agree = λ h. refl }

-- `add_vertex` keeps a graph consistent, also where it replaces a vertex.
pub add_vertex-IsConsistent :
    (dag : DagOrdering) (vertex : DagVertex)
    → IsConsistent dag
    → IsConsistent (add_vertex dag vertex)
unfolding add_vertex
add_vertex-IsConsistent dag vertex inv = record {
  keys = insert-HasDistinctKeys vertex.hash vertex dag.vertices inv.keys;
  named = λ h v e. ground (
    arith,
    get-insert vertex.hash h vertex dag.vertices,
    inv.named h v,
    same_hash_iff vertex.hash h,
  );
  agree = λ h. ground (
    arith,
    get-insert vertex.hash h vertex dag.vertices,
    get-insert vertex.hash h vertex.parents dag.edges,
    inv.agree h,
  );
}

module _ (dag : DagOrdering) (inv : IsConsistent dag) where
  list_at-edges : (h : Hash) → list_at h dag.edges ≡ parents_in h dag.vertices
  list_at-edges h = ground (arith, inv.agree h)

  -- The parents of a listed vertex are listed, or in `done`.
  IsOrdered-parent :
      (done hs : List Hash) (h p : Hash)
      → IsOrdered dag.vertices done hs
      → elem h hs ≡ true
      → elem p (list_at h dag.edges) ≡ true
      → elem p (done ++ hs) ≡ true
  IsOrdered-parent done [] h p o m e = absurd (ground arith)
  IsOrdered-parent done (x ∷ hs) h p o m e =
      let (v, found, within) = o.0 in
      elim (Bool-cases (x == h)) [
        | inl same ↦
            let up : elem p v.parents ≡ true = ground (arith, list_at-edges h, same_hash_iff x h) in
            ground (arith, subset-elem v.parents done p within up, elem-++ p done (x ∷ hs))
        | inr ne ↦
            rw (append_assoc done (x ∷ []) hs) at
              (IsOrdered-parent (done ++ x ∷ []) hs h p o.1 (ground arith) e)
      ]

  IsOrdered-prefix :
      (done xs ys : List Hash)
      → IsOrdered dag.vertices done (xs ++ ys)
      → IsOrdered dag.vertices done xs
  IsOrdered-prefix done [] ys o = tt
  IsOrdered-prefix done (x ∷ xs) ys o = (o.0, IsOrdered-prefix (done ++ x ∷ []) xs ys o.1)

  Reaches-ordered :
      (hs : List Hash) (h a : Hash)
      → IsOrdered dag.vertices [] hs
      → elem h hs ≡ true
      → Reaches dag.edges h a
      → elem a hs ≡ true
  Reaches-ordered hs h _ o m itself = m
  Reaches-ordered hs h _ o m (parent b p up e) =
      IsOrdered-parent [] hs b p o (Reaches-ordered hs h b o m up) e

  Grounded-parent :
      (h p : Hash)
      → Grounded dag.vertices h
      → elem p (list_at h dag.edges) ≡ true
      → Grounded dag.vertices p
  Grounded-parent h p (grounded _ v found ups) e = ups p (ground (arith, list_at-edges h))

  Grounded-Reaches :
      (h a : Hash) → Grounded dag.vertices h → Reaches dag.edges h a → Grounded dag.vertices a
  Grounded-Reaches h _ g itself = g
  Grounded-Reaches h _ g (parent b p up e) = Grounded-parent b p (Grounded-Reaches h b g up) e

  Grounded-found : (h : Hash) → Grounded dag.vertices h → HashMap.get h dag.vertices ≢ none
  Grounded-found h (grounded _ v found ups) = ground arith

-- In a consistent graph, whatever `get_ancestors` gives for a sorted vertex stands in the sorted
-- list at the vertex or before it.
pub ancestors_first :
    (dag : DagOrdering) (hash a : Hash) (before after ancestors : List Hash)
    → IsConsistent dag
    → HasCountableParents dag.vertices
    → topological_sort dag ≡ some (before ++ hash ∷ after)
    → get_ancestors dag hash ≡ some ancestors
    → elem a ancestors ≡ true
    → elem a (before ++ hash ∷ []) ≡ true
ancestors_first dag hash a before after ancestors inv c sorted found m =
    let (r, e, _, ordered, _) = topological_sort_lem dag hash inv.keys c in
    let (above, e', _, reach) = get_ancestors_lem dag hash a in
    let eq : before ++ hash ∷ after ≡ r = ground arith in
    let eq' : ancestors ≡ above = ground arith in
    let up = reach.0 (rw (sym eq') m) in
    let split : (before ++ hash ∷ []) ++ after ≡ r = append_assoc before (hash ∷ []) after ∙ eq in
    let o = subst (IsOrdered dag.vertices []) (sym split) ordered in
    Reaches-ordered dag inv (before ++ hash ∷ []) hash a
      (IsOrdered-prefix dag inv [] (before ++ hash ∷ []) after o)
      (ground (arith, elem-append hash hash before, same_hash_iff hash hash)) up

-- A vertex that has an ancestor without a vertex of its own is never in the sorted list.
pub missing_ancestor :
    (dag : DagOrdering) (hash a : Hash) (ancestors sorted : List Hash)
    → IsConsistent dag
    → HasCountableParents dag.vertices
    → get_ancestors dag hash ≡ some ancestors
    → elem a ancestors ≡ true
    → HashMap.get a dag.vertices ≡ none
    → topological_sort dag ≡ some sorted
    → elem hash sorted ≡ false
missing_ancestor dag hash a ancestors sorted inv c found m none_there e =
    let (r, e', _, _, exact) = topological_sort_lem dag hash inv.keys c in
    let (above, e'', _, reach) = get_ancestors_lem dag hash a in
    let eq : sorted ≡ r = ground arith in
    let eq' : ancestors ≡ above = ground arith in
    let up = reach.0 (rw (sym eq') m) in
    elim (Bool-cases (elem hash sorted)) [
      | inl listed ↦ absurd (
          Grounded-found dag inv a
            (Grounded-Reaches dag inv hash a (exact.0 (rw (sym eq) listed)) up) none_there)
      | inr out ↦ out
    ]
