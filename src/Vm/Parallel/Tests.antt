-- ===== src/Vm/Parallel/Tests.antt =====
-- The parallel executor on two payments that the sender cannot both make.
use protonchain.Base.{
  ◌≡◌, ◌+◌, refl, some, Option, List, [], ◌∷◌, map, arith, length, true, false, Bool, none,
}
use protonchain.Base.HashMap
use protonchain.Types.{Transaction, gas_cost}
use protonchain.Fixtures.{low_hasher, address, transaction, vm_state}
use protonchain.Vm.{
  ExecutionResult, VmState, default_schedule, account_at, apply_change, apply_changes,
  transfer_changes, total_cost, execute_transfer, dispatch, execute_transaction,
}
use protonchain.Vm.Supply.{total_balance, fees}
use protonchain.Vm.Parallel.{execute_block_parallel}
use protonchain.Vm.Parallel.Orders.{execute_block_parallel-total_balance}

-- What the tests compute with.
machine : Unit {0}
unfolding HashMap.get HashMap.insert account_at gas_cost apply_change apply_changes transfer_changes
    total_cost execute_transfer dispatch execute_transaction execute_block_parallel
machine = tt

abbrev block : List Transaction
block = transaction 0 700 ∷ transaction 0 600 ∷ []

-- which of the transactions succeed
abbrev outcomes : Option (List ExecutionResult × VmState) → List Bool
outcomes none = []
outcomes (some r) = map (λ result. result.success) r.0

-- The order of the threads decides which of the two payments is made.
first_succeeds :
    outcomes (execute_block_parallel default_schedule (0 ∷ 1 ∷ []) block vm_state)
    ≡ true ∷ false ∷ []
unfolding machine
first_succeeds = refl

second_succeeds :
    outcomes (execute_block_parallel default_schedule (1 ∷ 0 ∷ []) block vm_state)
    ≡ false ∷ true ∷ []
unfolding machine
second_succeeds = refl

execute_block_parallel-total_balance_example :
    (results : List ExecutionResult) × (state' : VmState) × (execute_block_parallel default_schedule
        (1 ∷ 0 ∷ [])
        block
        vm_state
      ≡ some (results, state'))
    × (length results ≡ 2)
    × (total_balance state'.accounts + fees block results ≡ 1_007)
unfolding machine
execute_block_parallel-total_balance_example =
    execute_block_parallel-total_balance default_schedule (1 ∷ 0 ∷ []) block vm_state
      (
        (refl, (address 2, refl, λ e. cc), omega arith),
        ((refl, (address 2, refl, λ e. cc), omega arith), tt),
      )
      (omega arith) (refl, (omega arith, (omega arith, tt)), (refl, (refl, tt)))
