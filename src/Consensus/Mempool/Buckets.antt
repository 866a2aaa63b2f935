-- ===== src/Consensus/Mempool/Buckets.antt =====
-- The price buckets as a relation between hashes and prices.
use protonchain.Base.{
  ℕ, suc, ◌<◌, ◌≤◌, ◌≡◌, refl, Bool, false, not, List, [], ◌∷◌, ◌++◌, ◌||◌, ◌&&◌, arith, ◌==◌, eqb,
}
use protonchain.Types.{Hash, hash_key, same_hash_iff}
use protonchain.Consensus.Mempool.{Buckets, push_hash, retain_ne, keep_bucket, drop_hash}

abbrev pub elem : Hash → List Hash → Bool
elem h [] = false
elem h (x ∷ xs) = x == h || elem h xs

-- Whether the hash is in the bucket of the price.
abbrev pub listed : Hash → ℕ → Buckets → Bool
listed h p [] = false
listed h p ((q, hs) ∷ rest) = (eqb q p && elem h hs) || listed h p rest

-- The prices fall along the list, and stay below the bound.
abbrev pub Below : ℕ → Buckets → Type 0
Below bound [] = Unit
Below bound ((p, hs) ∷ rest) = (p < bound) × Below p rest

abbrev pub IsFalling : Buckets → Type 0
IsFalling [] = Unit
IsFalling ((p, hs) ∷ rest) = Below p rest

pub elem-append : (h g : Hash) (hs : List Hash) → elem h (hs ++ g ∷ []) ≡ (elem h hs || g == h)
elem-append h g [] = ground arith
elem-append h g (x ∷ hs) = ground (arith, elem-append h g hs)

pub listed-push_hash :
    (h g : Hash) (p q : ℕ) (b : Buckets)
    → listed h p (push_hash q g b) ≡ ((eqb q p && g == h) || listed h p b)
unfolding push_hash
listed-push_hash h g p q [] = ground arith
listed-push_hash h g p q ((r, hs) ∷ rest) =
    ground (arith, elem-append h g hs, listed-push_hash h g p q rest)

push_hash-Below :
    (q bound : ℕ) (g : Hash) (b : Buckets)
    → q < bound
    → Below bound b
    → Below bound (push_hash q g b)
unfolding push_hash
push_hash-Below q bound g [] lt s = ground arith
push_hash-Below q bound g ((r, hs) ∷ rest) lt s = ground (arith, push_hash-Below q r g rest)

pub push_hash-IsFalling :
    (q : ℕ) (g : Hash) (b : Buckets) → IsFalling b → IsFalling (push_hash q g b)
unfolding push_hash
push_hash-IsFalling q g [] s = tt
push_hash-IsFalling q g ((r, hs) ∷ rest) s = ground (arith, push_hash-Below q r g rest)

Below-mono : (p bound : ℕ) (b : Buckets) → p ≤ bound → Below p b → Below bound b
Below-mono p bound [] le s = tt
Below-mono p bound ((r, hs) ∷ rest) le s = (omega arith, s.1)

-- A price at or above the bound has no bucket.
listed_above :
    (h : Hash) (p bound : ℕ) (b : Buckets) → bound ≤ p → Below bound b → listed h p b ≡ false
listed_above h p bound [] le s = refl
listed_above h p bound ((r, hs) ∷ rest) le s = ground (arith, listed_above h p r rest)

elem-retain_ne :
    (h g : Hash) (hs : List Hash) → elem h (retain_ne g hs) ≡ (elem h hs && not (g == h))
unfolding retain_ne
elem-retain_ne h g [] = refl
elem-retain_ne h g (x ∷ hs) =
    ground (arith, elem-retain_ne h g hs, same_hash_iff x g, same_hash_iff x h, same_hash_iff g h)

listed-keep_bucket :
    (h : Hash) (p q : ℕ) (hs : List Hash) (rest : Buckets)
    → listed h p (keep_bucket q hs rest) ≡ ((eqb q p && elem h hs) || listed h p rest)
unfolding keep_bucket
listed-keep_bucket h p q [] rest = ground arith
listed-keep_bucket h p q (x ∷ hs) rest = refl

keep_bucket-Below :
    (p bound : ℕ) (hs : List Hash) (rest : Buckets)
    → p < bound
    → Below p rest
    → Below bound (keep_bucket p hs rest)
unfolding keep_bucket
keep_bucket-Below p bound [] rest lt s = Below-mono p bound rest (omega arith) s
keep_bucket-Below p bound (x ∷ hs) rest lt s = (lt, s)

drop_hash-Below :
    (q bound : ℕ) (g : Hash) (b : Buckets) → Below bound b → Below bound (drop_hash q g b)
unfolding drop_hash
drop_hash-Below q bound g [] s = tt
drop_hash-Below q bound g ((r, hs) ∷ rest) s =
    ground (arith, keep_bucket-Below r bound (retain_ne g hs) rest, drop_hash-Below q r g rest)

Below-IsFalling : (bound : ℕ) (b : Buckets) → Below bound b → IsFalling b
Below-IsFalling bound [] s = tt
Below-IsFalling bound ((r, hs) ∷ rest) s = s.1

pub drop_hash-IsFalling :
    (q : ℕ) (g : Hash) (b : Buckets) → IsFalling b → IsFalling (drop_hash q g b)
unfolding drop_hash
drop_hash-IsFalling q g [] s = tt
drop_hash-IsFalling q g ((r, hs) ∷ rest) s =
    Below-IsFalling (suc r) _ (drop_hash-Below q (suc r) g ((r, hs) ∷ rest) (omega arith, s))

pub listed-drop_hash :
    (h g : Hash) (p q : ℕ) (b : Buckets)
    → IsFalling b
    → listed h p (drop_hash q g b) ≡ (listed h p b && not (eqb q p && g == h))
unfolding drop_hash
listed-drop_hash h g p q [] s = refl
listed-drop_hash h g p q ((r, hs) ∷ rest) s = ground (
  arith,
  listed-keep_bucket h p r (retain_ne g hs) rest,
  elem-retain_ne h g hs,
  listed_above h p r rest,
  Below-IsFalling r rest,
  listed-drop_hash h g p q rest,
)
