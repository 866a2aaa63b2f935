-- ===== src/Vm/Tests.antt =====
-- The virtual machine on concrete transactions, and the theorems at such inputs.
use protonchain.Base.{◌+◌, ◌-◌, ◌^◌, ◌≡◌, refl, some, List, [], ◌∷◌, arith}
use protonchain.Base.HashMap
use protonchain.Types.{
  Transaction, TransactionType, gas_cost, digest, address_of, le_bytes, from_le_bytes,
}
use protonchain.Fixtures.{low_hasher, address, account, transaction, vm_state}
use protonchain.Vm.{
  default_schedule, account_at, apply_change, apply_changes, transfer_changes, total_cost,
  execute_transfer, execute_contract_deploy, dispatch, execute_transaction,
  execute_block_sequential, contract_address, contract_account, estimate_gas, estimate_by_type,
}
use protonchain.Vm.Transfer.{execute_transfer_lem}
use protonchain.Vm.Supply.{
  total_balance, fees, execute_transaction-failed, execute_block_sequential-total_balance,
}

-- What the tests compute with.
machine : Unit {0}
unfolding HashMap.get HashMap.insert account_at gas_cost apply_change apply_changes transfer_changes
    total_cost execute_transfer execute_contract_deploy dispatch execute_transaction
    execute_block_sequential contract_address contract_account digest address_of le_bytes
    from_le_bytes estimate_gas estimate_by_type
machine = tt

abbrev payment : Transaction
payment = transaction 0 100

abbrev to_self : Transaction
to_self = record payment { to = some (address 1) }

abbrev greedy : Transaction
greedy = record payment { value = 2 ^ 128 - 50 }

abbrev deployment : Transaction
deployment = record payment { tx_type = TransactionType.contract_deploy; payload = 9 ∷ [] }

payment_runs :
    (execute_transaction default_schedule payment vm_state).1.accounts
    ≡ (address 1, account 850 1) ∷ (address 2, account 107 3) ∷ []
unfolding machine
payment_runs = refl

execute_transfer_lem_example :
    account_at (address 2) (execute_transfer default_schedule payment 21_000 vm_state).1.accounts
    ≡ account 107 3
unfolding machine
execute_transfer_lem_example =
    (execute_transfer_lem default_schedule payment 21_000 vm_state (address 2) refl (λ e. cc)
      (omega arith) (omega arith) (omega arith) (omega arith)).2

execute_transaction-failed_example :
    (execute_transaction default_schedule (record payment { value = 2000 }) vm_state).1 ≡ vm_state
unfolding machine
execute_transaction-failed_example =
    execute_transaction-failed default_schedule (record payment { value = 2000 }) vm_state refl

-- The second payment fails, for want of funds.
abbrev batch : List Transaction
batch = payment ∷ transaction 1 900 ∷ transaction 1 300 ∷ []

execute_block_sequential-total_balance_example :
    let (results, state') = execute_block_sequential default_schedule batch vm_state in
    total_balance state'.accounts + fees batch results ≡ 1007
unfolding machine
execute_block_sequential-total_balance_example =
    execute_block_sequential-total_balance default_schedule batch vm_state
      (
        (refl, (address 2, refl, λ e. cc), omega arith),
        (
          (refl, (address 2, refl, λ e. cc), omega arith),
          ((refl, (address 2, refl, λ e. cc), omega arith), tt),
        ),
      )
      (omega arith)
