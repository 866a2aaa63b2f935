-- ===== src/Consensus/Dag/Order.antt =====
-- `topological_sort` of src/consensus/mod.rs: what one vertex taken from the queue keeps, and the
-- order that comes of it.
use protonchain.Base.{
  ℕ, ◌-◌, suc, ◌+◌, ◌≤◌, ◌<◌, ◌%◌, ◌^◌, ◌≡◌, Bool, true, false, List, [], ◌∷◌, ◌++◌, arith,
  if◌then◌else◌, none, some, Option, sym, Bool-cases, inl, inr, eqb, append_assoc,
}
use protonchain.Base.HashMap
use protonchain.Base.HashMap.{HashMap, get-insert}
use protonchain.Types.{Hash, hash_key, same_hash_iff}
use protonchain.Consensus.Mempool.Buckets.{elem, elem-append}
use protonchain.Consensus.Dag.{DagVertex}
use protonchain.Consensus.Dag.Sets.{IsDistinct, append-IsDistinct, count, missing, subset, elem-++}

-- The vertex, with all its parents, exists, and so do their parents, without end and without a cycle.
pub data Grounded (vertices : HashMap Hash DagVertex) : Hash → Type 0 where
  grounded :
      (h : Hash) (v : DagVertex)
      → HashMap.get h vertices ≡ some v
      → ((p : Hash) → elem p v.parents ≡ true → Grounded vertices p)
      → Grounded vertices h

-- Every hash is that of a vertex whose parents are in `done` or stand before it.
abbrev pub IsOrdered : HashMap Hash DagVertex → List Hash → List Hash → Type 0
IsOrdered vertices done [] = Unit
IsOrdered vertices done (h ∷ hs) =
    ((v : DagVertex) × (HashMap.get h vertices ≡ some v) × (subset v.parents done ≡ true))
    × IsOrdered vertices (done ++ h ∷ []) hs

-- the degree of a hash once the vertices `done` are sorted, and `due` of their edges not counted off
abbrev pub owed : Option DagVertex → List Hash → ℕ → Option ℕ
owed none done due = none
owed (some v) done due = some (missing v.parents done + due)

abbrev pub is_zero : Option ℕ → Bool
is_zero none = false
is_zero (some d) = eqb d 0

-- the degrees that are not 0
abbrev pub positive : ℕ → ℕ
positive d = if eqb d 0 then 0 else 1

module _ (vertices : HashMap Hash DagVertex) where
  -- What holds while the neighbours `due` of the last vertex of `done` wait for their turn.
  pub record Inv (done due : List Hash) (in_degree : HashMap Hash ℕ) (queue : List Hash)
      : Type 0 where
    pub degree :
        (h : Hash) → HashMap.get h in_degree ≡ owed (HashMap.get h vertices) done (count h due)
    pub small : (h : Hash) (d : ℕ) → HashMap.get h in_degree ≡ some d → d < 2 ^ 64
    pub zeros : (h : Hash) → elem h (done ++ queue) ≡ is_zero (HashMap.get h in_degree)
    pub distinct : IsDistinct (done ++ queue)
    pub ordered : IsOrdered vertices [] done

  pub Inv-absent :
      (done : List Hash) (n : Hash) (due : List Hash) (in_degree : HashMap Hash ℕ)
      (queue : List Hash)
      → HashMap.get n in_degree ≡ none
      → Inv done (n ∷ due) in_degree queue
      → Inv done due in_degree queue
  Inv-absent done n due in_degree queue e inv = record {
    degree = λ h. ground (arith, inv.degree h, same_hash_iff n h);
    small = inv.small;
    zeros = inv.zeros;
    distinct = inv.distinct;
    ordered = inv.ordered;
  }

  -- the degree after one neighbour
  abbrev pub lower : ℕ → ℕ
  lower deg = (deg + (2 ^ 64 - 1)) % 2 ^ 64

  -- A neighbour that is due has a degree of 1 or more, so the subtraction does not wrap.
  pub lower-suc :
      (done : List Hash) (n : Hash) (due : List Hash) (in_degree : HashMap Hash ℕ)
      (queue : List Hash) (deg : ℕ)
      → HashMap.get n in_degree ≡ some deg
      → Inv done (n ∷ due) in_degree queue
      → suc (lower deg) ≡ deg
  lower-suc done n due in_degree queue deg e inv =
      let used : 1 ≤ deg = ground (arith, inv.degree n, same_hash_iff n n) in
      omega (arith, inv.small n deg e)

  pub Inv-lower :
      (done : List Hash) (n : Hash) (due : List Hash) (in_degree : HashMap Hash ℕ)
      (queue : List Hash) (deg : ℕ)
      → HashMap.get n in_degree ≡ some deg
      → Inv done (n ∷ due) in_degree queue
      → Inv done due
          (HashMap.insert n (lower deg) in_degree)
          (if eqb (lower deg) 0 then queue ++ n ∷ [] else queue)
  Inv-lower done n due in_degree queue deg e inv =
      let low = lower-suc done n due in_degree queue deg e inv in
      let absent : elem n (done ++ queue) ≡ false = ground (arith, inv.zeros n) in
      record {
        degree = λ h.
            ground (arith, inv.degree h, same_hash_iff n h, get-insert n h (lower deg) in_degree);
        small = λ h d f. ground (arith, inv.small h d, get-insert n h (lower deg) in_degree);
        zeros = λ h. ground (
          arith,
          inv.zeros h,
          elem-++ h done queue,
          elem-++ h done (queue ++ n ∷ []),
          elem-append h n queue,
          same_hash_iff n h,
          get-insert n h (lower deg) in_degree,
        );
        distinct = elim (Bool-cases (eqb (lower deg) 0)) [
          | inl z ↦
              rw (z, sym (append_assoc done queue (n ∷ [])))
                (append-IsDistinct (done ++ queue) n inv.distinct absent)
          | inr z ↦ rw z inv.distinct
        ];
        ordered = inv.ordered;
      }
