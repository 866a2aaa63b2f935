-- ===== src/Consensus/Dag/Degrees.antt =====
-- The two maps that `topological_sort` of src/consensus/mod.rs builds from the vertices.
use protonchain.Base.{
  inr, inl, Bool-cases, ℕ, ◌+◌, ◌<◌, ◌%◌, ◌^◌, ◌≡◌, refl, false, List, [], ◌∷◌, ◌++◌, arith, ◌==◌,
  if◌then◌else◌, length, none, some, All, ◌∙◌, ap, subst, Bool-cases, inl, inr,
}
use protonchain.Base.HashMap
use protonchain.Base.HashMap.{HashMap, get-insert}
use protonchain.Base.HashMap.Sum.{HasDistinctKeys, insert-HasDistinctKeys}
use protonchain.Types.{Hash, hash_key, same_hash_iff}
use protonchain.Consensus.Dag.{DagVertex, Tables, list_at, degree_at, touch, link, build}
use protonchain.Consensus.Dag.Sets.{count, count-append}

-- The parents that the table gives for a hash.
abbrev pub parents_in : Hash → HashMap Hash DagVertex → List Hash
parents_in h vertices = elim (HashMap.get h vertices) [ none ↦ [] | some v ↦ v.parents ]

-- The lists of parents are shorter than `usize` can count.
abbrev pub HasCountableParents : HashMap Hash DagVertex → Type 0
HasCountableParents = All (λ e. length e.1.parents < 2 ^ 64)

pub get-touch_ne :
    (h j : Hash) (m : HashMap Hash ℕ)
    → (j == h) ≡ false
    → HashMap.get h (touch j m) ≡ HashMap.get h m
unfolding touch
get-touch_ne h j m ne = ground (arith, get-insert j h 0 m)

pub get-touch_self :
    (h : Hash) (m : HashMap Hash ℕ) → HashMap.get h m ≡ none → HashMap.get h (touch h m) ≡ some 0
unfolding touch
get-touch_self h m e = ground (arith, get-insert h h 0 m, same_hash_iff h h)

pub get-link_ne :
    (h j : Hash) (ps : List Hash) (s : Tables)
    → (j == h) ≡ false
    → HashMap.get h (link j ps s).in_degree ≡ HashMap.get h s.in_degree
unfolding link
get-link_ne h j [] s ne = refl
get-link_ne h j (p ∷ ps) s ne =
    get-link_ne h j ps _ ne
    ∙ ground (arith, get-insert j h ((degree_at j s.in_degree + 1) % 2 ^ 64) s.in_degree)

pub get-link_self :
    (h : Hash) (ps : List Hash) (s : Tables) (d : ℕ)
    → HashMap.get h s.in_degree ≡ some d
    → d + length ps < 2 ^ 64
    → HashMap.get h (link h ps s).in_degree ≡ some (d + length ps)
unfolding link
get-link_self h [] s d e lt = e ∙ ap some (omega arith)
get-link_self h (p ∷ ps) s d e lt =
    get-link_self h ps _ (d + 1)
      (ground (
        arith,
        get-insert h h ((degree_at h s.in_degree + 1) % 2 ^ 64) s.in_degree,
        same_hash_iff h h,
      ))
      (omega arith)
    ∙ ap some (omega arith)

count-link :
    (h p j : Hash) (ps : List Hash) (s : Tables)
    → count h (list_at p (link j ps s).adj)
      ≡ count h (list_at p s.adj) + (if j == h then count p ps else 0)
unfolding link
count-link h p j [] s = ground arith
count-link h p j (q ∷ ps) s = ground (
  arith,
  count-link h p j ps (record {
    in_degree = HashMap.insert j ((degree_at j s.in_degree + 1) % 2 ^ 64) s.in_degree;
    adj = HashMap.insert q (list_at q s.adj ++ j ∷ []) s.adj;
  }),
  get-insert q p (list_at q s.adj ++ j ∷ []) s.adj,
  count-append h j (list_at q s.adj),
  same_hash_iff q p,
)

pub get-build_absent :
    (h : Hash) (m : HashMap Hash DagVertex) (s : Tables)
    → HashMap.get h m ≡ none
    → HashMap.get h (build m s).in_degree ≡ HashMap.get h s.in_degree
unfolding build HashMap.get
get-build_absent h [] s e = refl
get-build_absent h ((j, v) ∷ m) s e =
    let ne : (j == h) ≡ false = ground arith in
    get-build_absent h m _ (ground arith)
    ∙ get-link_ne h j v.parents _ ne
    ∙ get-touch_ne h j s.in_degree ne

-- A vertex has the number of its parents as its degree.
pub get-build :
    (h : Hash) (m : HashMap Hash DagVertex) (s : Tables) (v : DagVertex)
    → HasDistinctKeys m
    → HasCountableParents m
    → HashMap.get h m ≡ some v
    → HashMap.get h s.in_degree ≡ none
    → HashMap.get h (build m s).in_degree ≡ some (length v.parents)
unfolding build HashMap.get
get-build h [] s v w c e a = ground arith
get-build h ((j, x) ∷ m) s v w c e a = elim (Bool-cases (j == h)) [
  | inl same ↦
      let eq : j ≡ h = (same_hash_iff j h).0 same in
      let xv : x ≡ v = ground arith in
      let absent : HashMap.get h m ≡ none = subst (λ k. HashMap.get k m ≡ none) eq w.0 in
      rw (eq, xv)
        (get-build_absent h m _ absent
          ∙ get-link_self h v.parents (record s { in_degree = touch h s.in_degree }) 0
              (get-touch_self h s.in_degree a) (omega (arith, rw xv at c.0))
          ∙ ap some (omega arith))
  | inr ne ↦
      get-build h m _ v w.1 c.1 (ground arith)
        (get-link_ne h j x.parents _ ne ∙ get-touch_ne h j s.in_degree ne ∙ a)
]

count-build_absent :
    (h p : Hash) (m : HashMap Hash DagVertex) (s : Tables)
    → HashMap.get h m ≡ none
    → count h (list_at p (build m s).adj) ≡ count h (list_at p s.adj)
unfolding build HashMap.get
count-build_absent h p [] s e = refl
count-build_absent h p ((j, v) ∷ m) s e = ground (
  arith,
  count-build_absent h p m (link j v.parents (record s { in_degree = touch j s.in_degree })),
  count-link h p j v.parents (record s { in_degree = touch j s.in_degree }),
)

-- A vertex is a neighbour of a hash as often as the hash stands among its parents.
pub count-build :
    (h p : Hash) (m : HashMap Hash DagVertex) (s : Tables)
    → HasDistinctKeys m
    → count h (list_at p (build m s).adj) ≡ count h (list_at p s.adj) + count p (parents_in h m)
unfolding build HashMap.get
count-build h p [] s w = omega arith
count-build h p ((j, v) ∷ m) s w =
    let s' = link j v.parents (record s { in_degree = touch j s.in_degree }) in
    ground (
      arith,
      count-build h p m s',
      count-build_absent h p m s',
      same_hash_iff j h,
      count-link h p j v.parents (record s { in_degree = touch j s.in_degree }),
    )

touch-HasDistinctKeys :
    (h : Hash) (m : HashMap Hash ℕ) → HasDistinctKeys m → HasDistinctKeys (touch h m)
unfolding touch
touch-HasDistinctKeys h m d = ground (arith, insert-HasDistinctKeys h 0 m)

link-HasDistinctKeys :
    (h : Hash) (ps : List Hash) (s : Tables)
    → HasDistinctKeys s.in_degree
    → HasDistinctKeys (link h ps s).in_degree
unfolding link
link-HasDistinctKeys h [] s d = d
link-HasDistinctKeys h (p ∷ ps) s d =
    link-HasDistinctKeys h ps _ (insert-HasDistinctKeys h _ s.in_degree d)

pub build-HasDistinctKeys :
    (m : HashMap Hash DagVertex) (s : Tables)
    → HasDistinctKeys s.in_degree
    → HasDistinctKeys (build m s).in_degree
unfolding build
build-HasDistinctKeys [] s d = d
build-HasDistinctKeys ((h, v) ∷ m) s d =
    build-HasDistinctKeys m _
      (link-HasDistinctKeys h v.parents _ (touch-HasDistinctKeys h s.in_degree d))

pub get-HasCountableParents :
    (h : Hash) (v : DagVertex) (m : HashMap Hash DagVertex)
    → HasCountableParents m
    → HashMap.get h m ≡ some v
    → length v.parents < 2 ^ 64
unfolding HashMap.get
get-HasCountableParents h v [] c e = ground arith
get-HasCountableParents h v ((j, x) ∷ m) c e = ground (arith, get-HasCountableParents h v m)
