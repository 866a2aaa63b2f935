-- ===== src/Consensus/Dag/Sets.antt =====
-- Lists of hashes as sets: membership, repetition and the number of occurrences.
use protonchain.Base.{
  ℕ, suc, ◌+◌, ◌≡◌, refl, Bool, true, false, List, [], ◌∷◌, ◌++◌, ◌||◌, arith, ◌==◌, if◌then◌else◌,
  length, ◌&&◌,
}
use protonchain.Types.{Hash, hash_key, same_hash_iff}
use protonchain.Consensus.Mempool.Buckets.{elem, elem-append}

-- No hash stands in the list twice.
abbrev pub IsDistinct : List Hash → Type 0
IsDistinct [] = Unit
IsDistinct (x ∷ xs) = (elem x xs ≡ false) × IsDistinct xs

-- how often the hash stands in the list
abbrev pub count : Hash → List Hash → ℕ
count h [] = 0
count h (x ∷ xs) = if x == h then suc (count h xs) else count h xs

-- how many entries of the first list are not in the second one
abbrev pub missing : List Hash → List Hash → ℕ
missing [] done = 0
missing (p ∷ ps) done = if elem p done then missing ps done else suc (missing ps done)

pub elem-++ : (h : Hash) (xs ys : List Hash) → elem h (xs ++ ys) ≡ (elem h xs || elem h ys)
elem-++ h [] ys = refl
elem-++ h (x ∷ xs) ys = ground (arith, elem-++ h xs ys)

pub append-IsDistinct :
    (xs : List Hash) (h : Hash) → IsDistinct xs → elem h xs ≡ false → IsDistinct (xs ++ h ∷ [])
append-IsDistinct [] h d e = (refl, tt)
append-IsDistinct (x ∷ xs) h d e =
    ground (arith, elem-append x h xs, append-IsDistinct xs h, same_hash_iff x h, same_hash_iff h x)

pub IsDistinct-prefix : (xs ys : List Hash) → IsDistinct (xs ++ ys) → IsDistinct xs
IsDistinct-prefix [] ys d = tt
IsDistinct-prefix (x ∷ xs) ys d = ground (arith, IsDistinct-prefix xs ys, elem-++ x xs ys)

pub count-append :
    (h g : Hash) (xs : List Hash) → count h (xs ++ g ∷ []) ≡ count h xs + (if g == h then 1 else 0)
count-append h g [] = ground arith
count-append h g (x ∷ xs) = ground (arith, count-append h g xs)

pub missing-nil : (ps : List Hash) → missing ps [] ≡ length ps
missing-nil [] = refl
missing-nil (p ∷ ps) = omega (arith, missing-nil ps)

-- A hash that is added for the first time is missing as often as it stands in the list.
pub missing-append :
    (ps done : List Hash) (c : Hash)
    → elem c done ≡ false
    → missing ps done ≡ missing ps (done ++ c ∷ []) + count c ps
missing-append [] done c e = refl
missing-append (p ∷ ps) done c e =
    ground (
      arith,
      missing-append ps done c e,
      elem-append p c done,
      same_hash_iff p c,
      same_hash_iff c p,
    )

-- All of the first list is in the second one.
abbrev pub subset : List Hash → List Hash → Bool
subset [] done = true
subset (p ∷ ps) done = elem p done && subset ps done

pub subset-elem :
    (ps done : List Hash) (p : Hash) → subset ps done ≡ true → elem p ps ≡ true → elem p done ≡ true
subset-elem [] done p s e = ground arith
subset-elem (q ∷ ps) done p s e = ground (arith, subset-elem ps done p, same_hash_iff q p)

pub elem-subset :
    (ps done : List Hash)
    → ((p : Hash) → elem p ps ≡ true → elem p done ≡ true)
    → subset ps done ≡ true
elem-subset [] done h = refl
elem-subset (q ∷ ps) done h =
    ground (arith, elem-subset ps done (λ p e. h p (ground arith)), h q, same_hash_iff q q)

pub missing-subset : (ps done : List Hash) → missing ps done ≡ 0 → subset ps done ≡ true
missing-subset [] done e = refl
missing-subset (p ∷ ps) done e = ground (arith, missing-subset ps done)

pub subset-missing : (ps done : List Hash) → subset ps done ≡ true → missing ps done ≡ 0
subset-missing [] done e = refl
subset-missing (p ∷ ps) done e = ground (arith, subset-missing ps done)

pub IsDistinct-middle :
    (xs ys : List Hash) (h : Hash) → IsDistinct (xs ++ h ∷ ys) → elem h xs ≡ false
IsDistinct-middle [] ys h d = refl
IsDistinct-middle (x ∷ xs) ys h d =
    ground (
      arith,
      IsDistinct-middle xs ys h,
      elem-++ x xs (h ∷ ys),
      same_hash_iff x h,
      same_hash_iff h x,
    )
