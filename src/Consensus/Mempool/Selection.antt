-- ===== src/Consensus/Mempool/Selection.antt =====
-- What `get_transactions` selects from the pool.
use protonchain.Base.{
  ℕ, max, suc, ◌<◌, ◌≤◌, ◌≡◌, ◌⊎◌, inl, inr, refl, true, some, List, [], ◌∷◌, ◌++◌, arith, eqb_iff,
  leb, ltb, Bool-cases, Option-cases, length, length-append, All, append_assoc, append-nil, sym, ap,
  ◌∙◌,
}
use protonchain.Base.HashMap
use protonchain.Base.HashMap.{HashMap}
use protonchain.Types.{Hash, Transaction, hash_key, same_hash_iff}
use protonchain.Consensus.Mempool.{Mempool, Buckets, take_hashes, take_buckets, get_transactions}
use protonchain.Consensus.Mempool.Buckets.{elem, listed, Below, IsFalling}
use protonchain.Consensus.Mempool.Consistency.{IsConsistent}

-- The gas prices do not rise along the list, and start at or below the bound.
abbrev pub FallsFrom : ℕ → List Transaction → Type 0
FallsFrom bound [] = Unit
FallsFrom bound (t ∷ ts) = (t.gas_price ≤ bound) × FallsFrom t.gas_price ts

abbrev pub NeverRises : List Transaction → Type 0
NeverRises [] = Unit
NeverRises (t ∷ ts) = FallsFrom t.gas_price ts

abbrev pub Occurs : Transaction → List Transaction → Type 0
Occurs t [] = ⊥
Occurs t (x ∷ xs) = (t ≡ x) ⊎ Occurs t xs

Occurs-left : (t : Transaction) (xs ys : List Transaction) → Occurs t xs → Occurs t (xs ++ ys)
Occurs-left t [] ys o = absurd o
Occurs-left t (x ∷ xs) ys (inl e) = inl e
Occurs-left t (x ∷ xs) ys (inr o) = inr (Occurs-left t xs ys o)

Occurs-last : (t : Transaction) (xs : List Transaction) → Occurs t (xs ++ t ∷ [])
Occurs-last t [] = inl refl
Occurs-last t (x ∷ xs) = inr (Occurs-last t xs)

FallsFrom-mono : (p q : ℕ) (ts : List Transaction) → p ≤ q → FallsFrom p ts → FallsFrom q ts
FallsFrom-mono p q [] le f = tt
FallsFrom-mono p q (t ∷ ts) le f = (omega arith, f.1)

FallsFrom-append :
    (p q : ℕ) (xs ys : List Transaction)
    → p ≤ q
    → All (λ t. t.gas_price ≡ p) xs
    → FallsFrom p ys
    → FallsFrom q (xs ++ ys)
FallsFrom-append p q [] ys le all f = FallsFrom-mono p q ys le f
FallsFrom-append p q (x ∷ xs) ys le all f =
    (omega arith, FallsFrom-append p x.gas_price xs ys (omega arith) all.1 f)

All-FallsFrom :
    (p q : ℕ) (xs : List Transaction) → p ≤ q → All (λ t. t.gas_price ≡ p) xs → FallsFrom q xs
All-FallsFrom p q [] le all = tt
All-FallsFrom p q (x ∷ xs) le all =
    (omega arith, All-FallsFrom p x.gas_price xs (omega arith) all.1)

All-append {ℓ} :
    (P : Transaction → Type ℓ) (xs ys : List Transaction) → All P xs → All P ys → All P (xs ++ ys)
All-append P [] ys a b = b
All-append P (x ∷ xs) ys a b = (a.0, All-append P xs ys a.1 b)

module _ (txs : HashMap Hash Transaction) (limit : ℕ) where
  -- A stored transaction that a selection with price at least `least` may hold.
  abbrev pub IsPending : ℕ → Transaction → Type 0
  IsPending least t = (least ≤ t.gas_price) × ((h : Hash) × (HashMap.get h txs ≡ some t))

  -- Every hash of the bucket names a transaction of the bucket's price.
  abbrev AtPrice : ℕ → List Hash → Type 0
  AtPrice p hs =
      (h : Hash) (t : Transaction) → elem h hs ≡ true → HashMap.get h txs ≡ some t → t.gas_price ≡ p

  abbrev pub Selects : ℕ → ℕ → List Transaction → List Transaction → Type 0
  Selects p least result out =
      (new : List Transaction) × (out ≡ result ++ new)
      × All (λ t. t.gas_price ≡ p) new
      × All (IsPending least) new

  take_hashes-Selects :
      (p least : ℕ) (hs : List Hash) (result : List Transaction)
      → least ≤ p
      → AtPrice p hs
      → Selects p least result (take_hashes txs limit hs result).0
  unfolding take_hashes
  take_hashes-Selects p least [] result le at = ([], sym (append-nil result), tt, tt)
  take_hashes-Selects p least (h ∷ hs) result le at = elim (Option-cases (HashMap.get h txs)) [
    | inl missing ↦
        rw (missing, take_hashes)
          (take_hashes-Selects p least hs result le (λ g t e. at g t (ground arith)))
    | inr (t, here) ↦
        let price = at h t (ground (arith, same_hash_iff h h)) here in
        let pending : IsPending least t = (omega arith, (h, here)) in
        let (new, eq, prices, pendings) =
          take_hashes-Selects p least hs (result ++ t ∷ []) le (λ g u e. at g u (ground arith)) in
        elim (Bool-cases (leb limit (length (result ++ t ∷ [])))) [
          | inl full ↦ (t ∷ [], rw (here, take_hashes, full), (price, tt), (pending, tt))
          | inr more ↦ (
            t ∷ new,
            rw (here, take_hashes, more) (eq ∙ append_assoc result (t ∷ []) new),
            (price, prices),
            (pending, pendings),
          )
        ]
  ]

  -- What the loop over the prices adds to its accumulator.
  take_buckets-Selects :
      (bound least : ℕ) (b : Buckets) (result : List Transaction)
      → Below bound b
      → ((h : Hash) (p : ℕ) (t : Transaction)
          → listed h p b ≡ true
          → HashMap.get h txs ≡ some t
          → t.gas_price ≡ p)
      → (new : List Transaction) × (take_buckets txs limit least b result ≡ result ++ new)
        × FallsFrom bound new
        × All (IsPending least) new
  unfolding take_buckets
  take_buckets-Selects bound least [] result s at = ([], sym (append-nil result), tt, tt)
  take_buckets-Selects bound least ((p, hs) ∷ rest) result s at = elim (Bool-cases (ltb p least)) [
    | inl low ↦ ([], rw (low, take_buckets) (sym (append-nil result)), tt, tt)
    | inr high ↦
        let (new, eq, prices, pendings) =
          take_hashes-Selects p least hs result (ground arith)
            (λ h t e. at h p t (ground (arith, eqb_iff p p))) in
        let (more, eq', falls, pendings') =
          take_buckets-Selects p least rest (take_hashes txs limit hs result).0 s.1
            (λ h q t e. at h q t (ground arith)) in
        elim (Bool-cases (take_hashes txs limit hs result).1) [
          | inl full ↦ (
            new,
            rw (high, take_buckets, full) eq,
            All-FallsFrom p bound new (omega arith) prices,
            pendings,
          )
          | inr open_end ↦ (
            new ++ more,
            rw (high, take_buckets, open_end)
                (eq' ∙ ap (λ l. l ++ more) eq ∙ append_assoc result new more),
            FallsFrom-append p bound new more (omega arith) prices falls,
            All-append (IsPending least) new more pendings pendings',
          )
        ]
  ]

  abbrev cap_of : ℕ
  cap_of = max limit 1

  -- The selection of one bucket stops at the limit, and says so.
  take_hashes-length :
      (hs : List Hash) (result : List Transaction)
      → length result < cap_of
      → let (out, full) = take_hashes txs limit hs result in
        (length out ≤ cap_of) × ((full ≡ true) ⊎ (length out < cap_of))
  unfolding take_hashes
  take_hashes-length [] result lt = (omega arith, inr lt)
  take_hashes-length (h ∷ hs) result lt = elim (Option-cases (HashMap.get h txs)) [
    | inl missing ↦ rw (missing, take_hashes) (take_hashes-length hs result lt)
    | inr (t, here) ↦
        rw (here, take_hashes)
          (ground (arith, length-append result (t ∷ []), take_hashes-length hs (result ++ t ∷ [])))
  ]

  take_buckets-length :
      (least : ℕ) (b : Buckets) (result : List Transaction)
      → length result < cap_of
      → length (take_buckets txs limit least b result) ≤ cap_of
  unfolding take_buckets
  take_buckets-length least [] result lt = omega arith
  take_buckets-length least ((p, hs) ∷ rest) result lt = ground (
    arith,
    take_hashes-length hs result lt,
    take_buckets-length least rest (take_hashes txs limit hs result).0,
  )

FallsFrom-NeverRises : (bound : ℕ) (ts : List Transaction) → FallsFrom bound ts → NeverRises ts
FallsFrom-NeverRises bound [] f = tt
FallsFrom-NeverRises bound (t ∷ ts) f = f.1

IsFalling-Below : (b : Buckets) → IsFalling b → (bound : ℕ) × Below bound b
IsFalling-Below [] s = (0, tt)
IsFalling-Below ((p, hs) ∷ rest) s = (suc p, (omega arith, s))

-- The price under which a hash of a consistent pool is listed is that of its transaction.
listed-gas_price :
    (pool : Mempool)
    → IsConsistent pool
    → (h : Hash) (p : ℕ) (t : Transaction) → listed h p pool.by_gas_price ≡ true
    → HashMap.get h pool.transactions ≡ some t
    → t.gas_price ≡ p
listed-gas_price pool c h p t l here = let (u, found, price) = c.stored h p l in ground arith

-- From a consistent pool `get_transactions` selects stored transactions with at least the minimum
-- gas price, in the order of falling gas prices, and at most `limit` of them (one, if the limit
-- is 0).
pub get_transactions_lem :
    (pool : Mempool) (limit least : ℕ)
    → IsConsistent pool
    → let out = get_transactions pool limit least in
      NeverRises out
      × All (IsPending pool.transactions limit least) out
      × (length out ≤ max limit 1)
unfolding get_transactions
get_transactions_lem pool limit least c =
    let (bound, s) = IsFalling-Below pool.by_gas_price c.falling in
    let (new, eq, falls, pendings) =
      take_buckets-Selects pool.transactions limit bound least pool.by_gas_price [] s
        (listed-gas_price pool c) in
    (
      rw eq (FallsFrom-NeverRises bound new falls),
      rw eq pendings,
      take_buckets-length pool.transactions limit least pool.by_gas_price [] (omega arith),
    )
