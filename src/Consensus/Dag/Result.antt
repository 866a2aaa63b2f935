-- ===== src/Consensus/Dag/Result.antt =====
-- `topological_sort` of src/consensus/mod.rs: the queue it starts from, and its result.
use protonchain.Base.{
  ℕ, ◌+◌, ◌≡◌, refl, true, List, [], ◌∷◌, ◌++◌, arith, ◌==◌, length, some, ◌∙◌, ap, subst, ◌↔◌,
  Bool-cases, Option-cases, inl, inr, append-nil,
}
use protonchain.Base.HashMap
use protonchain.Base.HashMap.{HashMap}
use protonchain.Base.HashMap.Sum.{sum, HasDistinctKeys}
use protonchain.Types.{Hash, hash_key, same_hash_iff}
use protonchain.Consensus.Mempool.Buckets.{elem, elem-append}
use protonchain.Consensus.Dag.{
  DagOrdering, DagVertex, Tables, list_at, ready, build, topological_sort,
}
use protonchain.Consensus.Dag.Sets.{
  IsDistinct, count, missing-nil, subset-missing, elem-subset, subset-elem,
}
use protonchain.Consensus.Dag.Degrees.{
  parents_in, HasCountableParents, get-build, get-build_absent, count-build, build-HasDistinctKeys,
  get-HasCountableParents,
}
use protonchain.Consensus.Dag.Order.{Grounded, grounded, IsOrdered, owed, is_zero, positive, Inv}
use protonchain.Consensus.Dag.Sort.{drain_ends}

elem-ready :
    (h : Hash) (m : HashMap Hash ℕ)
    → HasDistinctKeys m
    → elem h (ready m) ≡ is_zero (HashMap.get h m)
unfolding ready HashMap.get
elem-ready h [] d = refl
elem-ready h ((j, n) ∷ m) d = ground (arith, elem-ready h m, same_hash_iff j h)

ready-IsDistinct : (m : HashMap Hash ℕ) → HasDistinctKeys m → IsDistinct (ready m)
unfolding ready
ready-IsDistinct [] d = tt
ready-IsDistinct ((j, n) ∷ m) d = ground (arith, elem-ready j m, ready-IsDistinct m)

ready_work : (m : HashMap Hash ℕ) → sum positive m + length (ready m) ≡ length m
unfolding ready
ready_work [] = omega arith
ready_work ((j, n) ∷ m) = ground (arith, ready_work m)

module _ (vertices : HashMap Hash DagVertex) where
  abbrev tables : Tables
  tables = build vertices (record { in_degree = []; adj = [] })

  tables-degree :
      (h : Hash)
      → HasDistinctKeys vertices
      → HasCountableParents vertices
      → HashMap.get h tables.in_degree ≡ owed (HashMap.get h vertices) [] 0
  unfolding HashMap.get
  tables-degree h d c = elim (Option-cases (HashMap.get h vertices)) [
    | inl e ↦ rw e (get-build_absent h vertices (record { in_degree = []; adj = [] }) e)
    | inr (v, e) ↦ rw e (
        get-build h vertices (record { in_degree = []; adj = [] }) v d c e refl
        ∙ ap some (omega (arith, missing-nil v.parents)))
  ]

  tables-near :
      (h p : Hash)
      → HasDistinctKeys vertices
      → count h (list_at p tables.adj) ≡ count p (parents_in h vertices)
  unfolding HashMap.get
  tables-near h p d =
      omega (arith, count-build h p vertices (record { in_degree = []; adj = [] }) d)

  Inv-start :
      HasDistinctKeys vertices
      → HasCountableParents vertices
      → Inv vertices [] [] tables.in_degree (ready tables.in_degree)
  Inv-start d c =
      let keys = build-HasDistinctKeys vertices (record { in_degree = []; adj = [] }) tt in
      record {
        degree = λ h. tables-degree h d c;
        small = λ h n e. elim (Option-cases (HashMap.get h vertices)) [
          | inl a ↦ absurd (ground (arith, tables-degree h d c))
          | inr (v, a) ↦ ground (
            arith,
            tables-degree h d c,
            missing-nil v.parents,
            get-HasCountableParents h v vertices c a,
          )
        ];
        zeros = λ h. elem-ready h tables.in_degree keys;
        distinct = ready-IsDistinct tables.in_degree keys;
        ordered = tt;
      }

  IsOrdered-Grounded :
      (done hs : List Hash) (h : Hash)
      → IsOrdered vertices done hs
      → ((p : Hash) → elem p done ≡ true → Grounded vertices p)
      → elem h hs ≡ true
      → Grounded vertices h
  IsOrdered-Grounded done [] h o base e = absurd (ground arith)
  IsOrdered-Grounded done (x ∷ hs) h o base e =
      let (v, found, within) = o.0 in
      let here : Grounded vertices x =
        grounded x v found (λ p m. base p (subset-elem v.parents done p within m)) in
      elim (Bool-cases (x == h)) [
        | inl same ↦ subst (Grounded vertices) ((same_hash_iff x h).0 same) here
        | inr ne ↦
            IsOrdered-Grounded (done ++ x ∷ []) hs h o.1
              (λ p m. elim (Bool-cases (x == p)) [
                | inl same ↦ subst (Grounded vertices) ((same_hash_iff x p).0 same) here
                | inr other ↦ base p (ground (arith, elem-append p x done))
              ])
              (ground arith)
      ]

  -- Once no degree is 0 outside the result, all grounded vertices are in it.
  Grounded-elem :
      (r : List Hash) (final : HashMap Hash ℕ) (h : Hash)
      → Inv vertices r [] final []
      → Grounded vertices h
      → elem h r ≡ true
  Grounded-elem r final _ inv (grounded h v e up) =
      let all =
        subset-missing v.parents r
          (elem-subset v.parents r (λ p m. Grounded-elem r final p inv (up p m))) in
      let degree : HashMap.get h final ≡ owed (some v) r 0 =
        inv.degree h ∙ ap (λ o. owed o r 0) e in
      ground (arith, inv.zeros h, append-nil r)

-- For a table with one vertex for each hash and fewer parents of each than `usize` counts, the sort
-- ends. Its result has no hash twice, lists every vertex after all its parents, and holds just the
-- vertices that rest, parent by parent, on vertices of the table without a cycle.
pub topological_sort_lem :
    (dag : DagOrdering) (h : Hash)
    → HasDistinctKeys dag.vertices
    → HasCountableParents dag.vertices
    → (r : List Hash) × (topological_sort dag ≡ some r)
      × IsDistinct r
      × IsOrdered dag.vertices [] r
      × ((elem h r ≡ true) ↔ Grounded dag.vertices h)
unfolding topological_sort
topological_sort_lem dag h d c =
    let s = tables dag.vertices in
    let (r, e, (final, inv)) =
      drain_ends dag.vertices s.adj (length s.in_degree) s.in_degree (ready s.in_degree) []
        (λ g p. tables-near dag.vertices g p d) (Inv-start dag.vertices d c)
        (omega (arith, ready_work s.in_degree)) in
    let once : IsDistinct r = rw append-nil at inv.distinct in
    (
      r,
      e,
      once,
      inv.ordered,
      (
        (λ m. IsOrdered-Grounded dag.vertices [] r h inv.ordered (λ p no. absurd (ground arith)) m),
        (λ g. Grounded-elem dag.vertices r final h inv g),
      ),
    )
