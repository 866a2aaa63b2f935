-- ===== src/Consensus/Dag/Sort.antt =====
-- `topological_sort` of src/consensus/mod.rs: its loops end, and its result is in order.
use protonchain.Base.{
  ℕ, zero, suc, ◌+◌, ◌≤◌, ◌≡◌, refl, true, false, List, [], ◌∷◌, ◌++◌, arith, length, some, ◌∙◌,
  Option-cases, inl, inr, append_assoc, append-nil, length-append,
}
use protonchain.Base.HashMap
use protonchain.Base.HashMap.{HashMap, get-insert}
use protonchain.Base.HashMap.Sum.{sum, sum-insert}
use protonchain.Types.{Hash, hash_key, same_hash_iff}
use protonchain.Consensus.Mempool.Buckets.{elem}
use protonchain.Consensus.Dag.{DagVertex, list_at, release, drain}
use protonchain.Consensus.Dag.Sets.{
  count, missing-append, subset, missing-subset, elem-++, IsDistinct-middle,
}
use protonchain.Consensus.Dag.Degrees.{parents_in}
use protonchain.Consensus.Dag.Order.{
  IsOrdered, positive, Inv, Inv-absent, Inv-lower, lower, lower-suc,
}

module _ (vertices : HashMap Hash DagVertex) where
  release-Inv :
      (done ns : List Hash) (in_degree : HashMap Hash ℕ) (queue : List Hash)
      → Inv vertices done ns in_degree queue
      → Inv vertices done [] (release ns in_degree queue).0 (release ns in_degree queue).1
  unfolding release
  release-Inv done [] in_degree queue inv = inv
  release-Inv done (n ∷ ns) in_degree queue inv = elim (Option-cases (HashMap.get n in_degree)) [
    | inl e ↦
        rw (e, release)
          (release-Inv done ns in_degree queue
            (Inv-absent vertices done n ns in_degree queue e inv))
    | inr (deg, e) ↦
        rw (e, release)
          (release-Inv done ns _ _ (Inv-lower vertices done n ns in_degree queue deg e inv))
  ]

  -- A degree that falls to 0 adds one to the queue.
  release_work :
      (done ns : List Hash) (in_degree : HashMap Hash ℕ) (queue : List Hash)
      → Inv vertices done ns in_degree queue
      → sum positive (release ns in_degree queue).0 + length (release ns in_degree queue).1
        ≡ sum positive in_degree + length queue
  unfolding release
  release_work done [] in_degree queue inv = refl
  release_work done (n ∷ ns) in_degree queue inv = elim (Option-cases (HashMap.get n in_degree)) [
    | inl e ↦
        rw (e, release)
          (release_work done ns in_degree queue
            (Inv-absent vertices done n ns in_degree queue e inv))
    | inr (deg, e) ↦
        rw (e, release)
          (release_work done ns _ _ (Inv-lower vertices done n ns in_degree queue deg e inv)
            ∙ ground (
              arith,
              lower-suc vertices done n ns in_degree queue deg e inv,
              sum-insert positive n (lower vertices deg) in_degree,
              length-append queue (n ∷ []),
            ))
  ]

  append-IsOrdered :
      (done hs : List Hash) (h : Hash) (v : DagVertex)
      → IsOrdered vertices done hs
      → HashMap.get h vertices ≡ some v
      → subset v.parents (done ++ hs) ≡ true
      → IsOrdered vertices done (hs ++ h ∷ [])
  append-IsOrdered done [] h v o e s = ((v, e, rw append-nil at s), tt)
  append-IsOrdered done (x ∷ hs) h v o e s =
      (o.0, append-IsOrdered (done ++ x ∷ []) hs h v o.1 e (rw (append_assoc done (x ∷ []) hs) s))

  -- The first hash of the queue is sorted, and its neighbours are due.
  Inv-pop :
      (adj : HashMap Hash (List Hash)) (done : List Hash) (in_degree : HashMap Hash ℕ) (c : Hash)
      (queue : List Hash)
      → ((h : Hash) → count h (list_at c adj) ≡ count c (parents_in h vertices))
      → Inv vertices done [] in_degree (c ∷ queue)
      → Inv vertices (done ++ c ∷ []) (list_at c adj) in_degree queue
  Inv-pop adj done in_degree c queue near inv =
      let new : elem c done ≡ false = IsDistinct-middle done queue c inv.distinct in
      record {
        degree = λ h. elim (Option-cases (HashMap.get h vertices)) [
          | inl e ↦ ground (arith, inv.degree h)
          | inr (v, e) ↦ ground (arith, inv.degree h, near h, missing-append v.parents done c new)
        ];
        small = inv.small;
        zeros = λ h. rw append_assoc (inv.zeros h);
        distinct = rw append_assoc inv.distinct;
        ordered = elim (Option-cases (HashMap.get c vertices)) [
          | inl e ↦ absurd (
              ground
                (arith, inv.degree c, inv.zeros c, elem-++ c done (c ∷ queue), same_hash_iff c c))
          | inr (v, e) ↦ append-IsOrdered [] done c v inv.ordered e (
              missing-subset v.parents done (
                ground (
                  arith,
                  inv.degree c,
                  inv.zeros c,
                  elem-++ c done (c ∷ queue),
                  same_hash_iff c c,
                )))
        ];
      }

  pub drain_ends :
      (adj : HashMap Hash (List Hash)) (fuel : ℕ) (in_degree : HashMap Hash ℕ)
      (queue done : List Hash)
      → ((h c : Hash) → count h (list_at c adj) ≡ count c (parents_in h vertices))
      → Inv vertices done [] in_degree queue
      → sum positive in_degree + length queue ≤ fuel
      → (r : List Hash) × (drain adj fuel in_degree queue done ≡ some r)
        × ((final : HashMap Hash ℕ) × Inv vertices r [] final [])
  unfolding drain
  drain_ends adj fuel in_degree [] done near inv enough = (done, refl, (in_degree, inv))
  drain_ends adj zero in_degree (c ∷ queue) done near inv enough = absurd (omega arith)
  drain_ends adj (suc fuel) in_degree (c ∷ queue) done near inv enough =
      let popped = Inv-pop adj done in_degree c queue (λ h. near h c) inv in
      drain_ends adj fuel (release (list_at c adj) in_degree queue).0
        (release (list_at c adj) in_degree queue).1 (done ++ c ∷ []) near
        (release-Inv (done ++ c ∷ []) (list_at c adj) in_degree queue popped)
        (omega (arith, release_work (done ++ c ∷ []) (list_at c adj) in_degree queue popped))
