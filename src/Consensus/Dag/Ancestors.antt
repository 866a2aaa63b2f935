-- ===== src/Consensus/Dag/Ancestors.antt =====
-- `get_ancestors` of src/consensus/mod.rs: the loop ends, and finds what the edges reach.
use protonchain.Base.{
  ℕ, zero, suc, ◌+◌, ◌≤◌, ◌≡◌, refl, Bool, true, false, List, [], ◌∷◌, ◌++◌, ◌||◌, arith, ◌==◌,
  if◌then◌else◌, length, some, subst, ◌↔◌, Bool-cases, inl, inr,
}
use protonchain.Base.HashMap
use protonchain.Base.HashMap.{HashMap, get-insert, contains_key}
use protonchain.Base.HashMap.Sum.{sum}
use protonchain.Types.{Hash, hash_key, same_hash_iff}
use protonchain.Consensus.Mempool.Buckets.{elem, elem-append}
use protonchain.Consensus.Dag.{DagOrdering, list_at, push_all, walk, get_ancestors}
use protonchain.Consensus.Dag.Sets.{IsDistinct, append-IsDistinct}

-- `src` is the hash itself, or a parent of a hash that it reaches.
pub data Reaches (edges : HashMap Hash (List Hash)) (src : Hash) : Hash → Type 0 where
  itself : Reaches edges src src
  parent :
      (h p : Hash) → Reaches edges src h → elem p (list_at h edges) ≡ true → Reaches edges src p

elem-push_all :
    (h : Hash) (ps stack : List Hash) → elem h (push_all ps stack) ≡ (elem h ps || elem h stack)
unfolding push_all
elem-push_all h [] stack = refl
elem-push_all h (p ∷ ps) stack = ground (arith, elem-push_all h ps (p ∷ stack))

length-push_all : (ps stack : List Hash) → length (push_all ps stack) ≡ length ps + length stack
unfolding push_all
length-push_all [] stack = omega arith
length-push_all (p ∷ ps) stack = omega (arith, length-push_all ps (p ∷ stack))

-- the parents that the loop has not pushed yet
abbrev unpushed : HashMap Hash Bool → HashMap Hash (List Hash) → ℕ
unpushed visited [] = 0
unpushed visited ((j, ps) ∷ edges) =
    if contains_key j visited then unpushed visited edges else length ps + unpushed visited edges

contains-insert :
    (j c : Hash) (visited : HashMap Hash Bool)
    → contains_key j (HashMap.insert c true visited) ≡ (c == j || contains_key j visited)
unfolding contains_key
contains-insert j c visited = ground (arith, get-insert c j true visited)

unpushed_mono :
    (c : Hash) (visited : HashMap Hash Bool) (edges : HashMap Hash (List Hash))
    → unpushed (HashMap.insert c true visited) edges ≤ unpushed visited edges
unpushed_mono c visited [] = omega arith
unpushed_mono c visited ((j, ps) ∷ edges) =
    ground (arith, unpushed_mono c visited edges, contains-insert j c visited)

unpushed-visit :
    (c : Hash) (visited : HashMap Hash Bool) (edges : HashMap Hash (List Hash))
    → contains_key c visited ≡ false
    → unpushed (HashMap.insert c true visited) edges + length (list_at c edges)
      ≤ unpushed visited edges
unfolding HashMap.get
unpushed-visit c visited [] new = omega arith
unpushed-visit c visited ((j, ps) ∷ edges) new = ground (
  arith,
  unpushed_mono c visited edges,
  unpushed-visit c visited edges new,
  contains-insert j c visited,
  same_hash_iff j c,
)

unpushed-nil : (edges : HashMap Hash (List Hash)) → unpushed [] edges ≡ sum length edges
unfolding contains_key HashMap.get
unpushed-nil [] = refl
unpushed-nil ((j, ps) ∷ edges) = omega (arith, unpushed-nil edges)

walk_ends :
    (edges : HashMap Hash (List Hash)) (fuel : ℕ) (visited : HashMap Hash Bool)
    (result stack : List Hash)
    → length stack + unpushed visited edges ≤ fuel
    → (r : List Hash) × (walk edges fuel visited result stack ≡ some r)
unfolding walk
walk_ends edges fuel visited result [] h = (result, refl)
walk_ends edges zero visited result (c ∷ stack) h = absurd (omega arith)
walk_ends edges (suc fuel) visited result (c ∷ stack) h =
    elim (Bool-cases (contains_key c visited)) [
      | inl old ↦
          let (r, e) = walk_ends edges fuel visited result stack (omega arith) in
          (r, rw (old, walk) e)
      | inr new ↦
          let (r, e) =
            walk_ends edges fuel (HashMap.insert c true visited) (result ++ c ∷ [])
              (push_all (list_at c edges) stack)
              (omega (
                arith,
                length-push_all (list_at c edges) stack,
                unpushed-visit c visited edges new,
              )) in
          (r, rw (new, walk) e)
    ]

module _ (edges : HashMap Hash (List Hash)) (src : Hash) where
  -- What one pass of the loop keeps.
  record Inv (visited : HashMap Hash Bool) (result stack : List Hash) : Type 0 where
    agree : (h : Hash) → contains_key h visited ≡ elem h result
    distinct : IsDistinct result
    source : (elem src result || elem src stack) ≡ true
    closed :
        (h p : Hash)
        → elem h result ≡ true
        → elem p (list_at h edges) ≡ true
        → (elem p result || elem p stack) ≡ true
    sound : (h : Hash) → (elem h result || elem h stack) ≡ true → Reaches edges src h

  Inv-skip :
      (c : Hash) (visited : HashMap Hash Bool) (result stack : List Hash)
      → contains_key c visited ≡ true
      → Inv visited result (c ∷ stack)
      → Inv visited result stack
  Inv-skip c visited result stack old inv = record {
    agree = inv.agree;
    distinct = inv.distinct;
    source = ground (arith, inv.source, inv.agree c, same_hash_iff c src);
    closed = λ h p m e. ground (arith, inv.closed h p m e, inv.agree c, same_hash_iff c p);
    sound = λ h m. inv.sound h (ground arith);
  }

  Inv-visit :
      (c : Hash) (visited : HashMap Hash Bool) (result stack : List Hash)
      → contains_key c visited ≡ false
      → Inv visited result (c ∷ stack)
      → Inv (HashMap.insert c true visited) (result ++ c ∷ []) (push_all (list_at c edges) stack)
  Inv-visit c visited result stack new inv = record {
    agree = λ h. ground (arith, contains-insert h c visited, elem-append h c result, inv.agree h);
    distinct = append-IsDistinct result c inv.distinct (ground (arith, inv.agree c));
    source =
        ground
          (arith, inv.source, elem-append src c result, elem-push_all src (list_at c edges) stack);
    closed = λ h p m e. ground (
      arith,
      inv.closed h p,
      elem-append h c result,
      elem-append p c result,
      elem-push_all p (list_at c edges) stack,
      same_hash_iff c h,
    );
    sound = λ h m. elim (Bool-cases (elem h (list_at c edges))) [
      | inl up ↦ parent c h (inv.sound c (ground (arith, same_hash_iff c c))) up
      | inr not_up ↦
          inv.sound h
            (ground (arith, elem-append h c result, elem-push_all h (list_at c edges) stack))
    ];
  }

  walk-Inv :
      (fuel : ℕ) (visited : HashMap Hash Bool) (result stack r : List Hash)
      → Inv visited result stack
      → walk edges fuel visited result stack ≡ some r
      → (final : HashMap Hash Bool) × Inv final r []
  unfolding walk
  walk-Inv fuel visited result [] r inv e =
      let eq : result ≡ r = ground arith in (visited, subst (λ l. Inv visited l []) eq inv)
  walk-Inv zero visited result (c ∷ stack) r inv e = ground arith
  walk-Inv (suc fuel) visited result (c ∷ stack) r inv e =
      elim (Bool-cases (contains_key c visited)) [
        | inl old ↦
            walk-Inv fuel visited result stack r (Inv-skip c visited result stack old inv)
              (rw (old, walk) at e)
        | inr new ↦
            walk-Inv fuel (HashMap.insert c true visited) (result ++ c ∷ [])
              (push_all (list_at c edges) stack) r (Inv-visit c visited result stack new inv)
              (rw (new, walk) at e)
      ]

  Inv-start : Inv [] [] (src ∷ [])
  unfolding contains_key HashMap.get
  Inv-start = record {
    agree = λ h. refl;
    distinct = tt;
    source = ground (arith, same_hash_iff src src);
    closed = λ h p m e. ground arith;
    sound = λ h m.
        let eq : src ≡ h = (same_hash_iff src h).0 (ground arith) in
        subst (Reaches edges src) eq itself;
  }

  -- At the end everything reached is in the result.
  Reaches-elem :
      (visited : HashMap Hash Bool) (r : List Hash) (h : Hash)
      → Inv visited r []
      → Reaches edges src h
      → elem h r ≡ true
  Reaches-elem visited r _ inv itself = ground (arith, inv.source)
  Reaches-elem visited r _ inv (parent h p up e) =
      ground (arith, inv.closed h p (Reaches-elem visited r h inv up) e)

-- Whatever the edges are, the loop of `get_ancestors` ends. Its result lists the hash itself, and
-- all that parents of parents lead to, each once and nothing else.
pub get_ancestors_lem :
    (dag : DagOrdering) (hash h : Hash)
    → (r : List Hash) × (get_ancestors dag hash ≡ some r)
      × IsDistinct r
      × ((elem h r ≡ true) ↔ Reaches dag.edges hash h)
unfolding get_ancestors
get_ancestors_lem dag hash h =
    let (r, e) =
      walk_ends dag.edges (suc (sum length dag.edges)) [] [] (hash ∷ [])
        (omega (arith, unpushed-nil dag.edges)) in
    let (final, inv) =
      walk-Inv dag.edges hash (suc (sum length dag.edges)) [] [] (hash ∷ []) r
        (Inv-start dag.edges hash) e in
    (
      r,
      e,
      inv.distinct,
      ((λ m. inv.sound h (ground arith)), (λ up. Reaches-elem dag.edges hash final r h inv up)),
    )
