-- ===== src/Vm/Parallel.antt =====
-- `ParallelExecutor::execute_block_parallel` of src/vm/mod.rs. Each execution holds the lock on the
-- state, so the threads of the pool execute the transactions one by one, in the order in which they
-- get the lock; rayon collects the results in the order of the block. The order is an argument.
pub mod Schedule
pub mod Orders
mod Tests
use protonchain.Base.{ℕ, zero, suc, ◌+◌, Option, none, some, List, [], ◌∷◌, map, ◌>>=◌}
use protonchain.Types.{Hasher, Transaction}
use protonchain.Vm.{ExecutionResult, VmState, GasSchedule, execute_transaction}

-- the transactions of the block, with the results that are there
abbrev pub Slots : Type 0
Slots = List (Transaction × Option ExecutionResult)

-- the results, once all are there
unfoldable pub collected : Slots → Option (List ExecutionResult)
collected [] = some []
collected ((tx, none) ∷ slots) = none
collected ((tx, some result) ∷ slots) = collected slots >>= λ results. some (result ∷ results)

module _ (schedule : GasSchedule) ⦃h : Hasher⦄ where
  -- A thread executes the transaction at a place of the block; `none` if that is done already.
  unfoldable pub execute_at : ℕ → Slots → VmState → Option (Slots × VmState)
  execute_at i [] state = none
  execute_at zero ((tx, some result) ∷ slots) state = none
  execute_at zero ((tx, none) ∷ slots) state =
      let (result, state') = execute_transaction schedule tx state in
      some ((tx, some result) ∷ slots, state')
  execute_at (suc i) (slot ∷ slots) state = execute_at i slots state >>= λ r. some (slot ∷ r.0, r.1)

  unfoldable pub execute_order : List ℕ → Slots → VmState → Option (Slots × VmState)
  unfolding execute_at
  execute_order [] slots state = some (slots, state)
  execute_order (i ∷ order) slots state =
      execute_at i slots state >>= λ r. execute_order order r.0 r.1

  -- `execute_block_parallel`, for the order of the executions; `none` if that leaves one out, or
  -- names one twice
  unfoldable pub execute_block_parallel :
      List ℕ → List Transaction → VmState → Option (List ExecutionResult × VmState)
  unfolding execute_order collected
  execute_block_parallel order txs state =
      execute_order order (map (λ tx. (tx, none)) txs) state >>= λ r.
      (collected r.0 >>= λ results. some (results, r.1))
