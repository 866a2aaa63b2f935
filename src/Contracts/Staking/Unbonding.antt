-- ===== src/Contracts/Staking/Unbonding.antt =====
-- The two loops of `process_unbonding` against their meaning.
use protonchain.Base.{
  map, ℕ, ◌≡◌, refl, List, [], ◌∷◌, ◌++◌, arith, leb, if◌then◌else◌, length, append_assoc, ap,
  length-append,
}
use protonchain.Contracts.Staking.{
  UnbondingEntry, Effect, ProtonStaking, matured_indices, matured_transfers, remove_at,
  remove_indices, process_unbonding,
}
use protonchain.Sdk.Host.{Host}

-- the entries that are, and that are not, unlocked at a height
abbrev pub unlocked : ℕ → List UnbondingEntry → List UnbondingEntry
unlocked height [] = []
unlocked height (e ∷ es) =
    if leb e.unlock_height height then e ∷ unlocked height es else unlocked height es

abbrev pub locked : ℕ → List UnbondingEntry → List UnbondingEntry
locked height [] = []
locked height (e ∷ es) =
    if leb e.unlock_height height then locked height es else e ∷ locked height es

remove_at-append :
    {A : Type 0} (front : List A) (x : A) (back : List A)
    → remove_at (length front) (front ++ x ∷ back) ≡ front ++ back
unfolding remove_at
remove_at-append [] x back = refl
remove_at-append (y ∷ front) x back = ap (λ zs. y ∷ zs) (remove_at-append front x back)

-- Behind a part that stays, removing the collected indices leaves the locked entries.
remove_indices-matured :
    (height : ℕ) (front back : List UnbondingEntry)
    → remove_indices (matured_indices height (length front) back) (front ++ back)
      ≡ front ++ locked height back
unfolding remove_indices matured_indices
remove_indices-matured height front [] = refl
remove_indices-matured height front (e ∷ back) =
    let step = remove_indices-matured height (front ++ e ∷ []) back in
    ground (
      arith,
      step,
      append_assoc front (e ∷ []) back,
      append_assoc front (e ∷ []) (locked height back),
      length-append front (e ∷ []),
      remove_at-append front e (locked height back),
    )

matured_transfers-unlocked :
    (height : ℕ) (queue : List UnbondingEntry)
    → matured_transfers height queue
      ≡ map (λ e. Effect.transfer e.delegator e.amount) (unlocked height queue)
unfolding matured_transfers
matured_transfers-unlocked height [] = refl
matured_transfers-unlocked height (e ∷ queue) =
    ground (arith, matured_transfers-unlocked height queue)

-- `process_unbonding` pays out every entry whose unlock height is reached, in the order of the
-- queue, and keeps exactly the others, in their order; nothing else of the contract changes.
pub process_unbonding_lem :
    ⦃host : Host⦄ (height : ℕ) (c : ProtonStaking)
    → process_unbonding height c ≡ (
      record c { unbonding_queue = locked height c.unbonding_queue },
      map (λ e. Effect.transfer e.delegator e.amount) (unlocked height c.unbonding_queue),
    )
unfolding process_unbonding
process_unbonding_lem height c = rw (remove_indices-matured height [] c.unbonding_queue) (
    ap (λ ts. (record c { unbonding_queue = locked height c.unbonding_queue }, ts))
      (matured_transfers-unlocked height c.unbonding_queue))
