-- ===== src/Vm/Gas.antt =====
-- The gas that an execution uses against the estimate.
use protonchain.Base.{ℕ, ◌+◌, ◌≡◌, true, some, List, arith, ◌⊎◌, inl, inr}
use protonchain.Types.{Hasher, Transaction}
use protonchain.Types.TransactionType.{transfer, private_transfer}
use protonchain.Vm.{
  VmState, default_schedule, execute_transfer, execute_private_transfer, dispatch,
  execute_transaction, estimate_gas, estimate_by_type,
}

module _ ⦃h : Hasher⦄ where
  -- With the default schedule, a transfer that succeeds, and a private transfer with a proof that
  -- succeeds, uses 21,000 gas more than `estimate_gas` says: the base cost is charged twice.
  pub transfer-gas_used :
      (tx : Transaction) (state : VmState)
      → (tx.tx_type ≡ transfer)
        ⊎ ((tx.tx_type ≡ private_transfer) × ((proof : List ℕ) × (tx.zk_proof ≡ some proof)))
      → (execute_transaction default_schedule tx state).0.success ≡ true
      → (execute_transaction default_schedule tx state).0.gas_used ≡ estimate_gas tx + 21_000
  unfolding execute_transaction dispatch execute_transfer execute_private_transfer estimate_gas
      estimate_by_type
  transfer-gas_used tx state (inl t) ok = ground arith
  transfer-gas_used tx state (inr (t, (proof, z))) ok = ground arith
