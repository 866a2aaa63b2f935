-- ===== src/Vm/Supply.antt =====
-- The sum of all balances under the operations of the virtual machine.
use protonchain.Base.{
  ℕ, ◌+◌, ◌^◌, ◌<◌, ◌≤◌, ◌≡◌, ◌≢◌, inl, inr, refl, true, false, some, List, [], ◌∷◌, arith, ltb,
  if◌then◌else◌, Bool-cases, sym, All, ap,
}
use protonchain.Base.HashMap
use protonchain.Base.HashMap.{HashMap}
use protonchain.Types.{
  Hasher, Address, Account, Transaction, TransactionType, default_account, address_key,
  same_address_iff, gas_cost,
}
use protonchain.Vm.{
  ExecutionResult, VmState, GasSchedule, account_at, plain_change, neg128, apply_change,
  apply_changes, total_cost, transfer_changes, execute_transfer, execute_private_transfer,
  execute_contract_call, execute_contract_deploy, execute_code, contract_address, contract_account,
  dispatch, execute_transaction, execute_block_sequential,
}
use protonchain.Vm.Transfer.{
  debit, account_at-insert, transfer_changes_apart, execute_transfer-paid,
  execute_transfer-insufficient, total_cost-debit,
}

abbrev pub total_balance : HashMap Address Account → ℕ
total_balance [] = 0
total_balance ((_, account) ∷ rest) = account.balance + total_balance rest

pub total_balance-insert :
    (a : Address) (x : Account) (m : HashMap Address Account)
    → total_balance (HashMap.insert a x m) + (account_at a m).balance ≡ total_balance m + x.balance
unfolding HashMap.insert HashMap.get account_at
total_balance-insert a x [] = omega arith
total_balance-insert a x ((b, y) ∷ m) = ground (arith, total_balance-insert a x m)

-- Two accounts together hold at most what all hold.
two_balances :
    (a b : Address) (m : HashMap Address Account)
    → a ≢ b
    → (account_at a m).balance + (account_at b m).balance ≤ total_balance m
two_balances a b m ne =
    let other : account_at b (HashMap.insert a default_account m) ≡ account_at b m =
      ground (arith, account_at-insert a b default_account m, same_address_iff a b) in
    omega (
      arith,
      total_balance-insert a default_account m,
      total_balance-insert b default_account (HashMap.insert a default_account m),
      ap (λ x. x.balance) other,
    )

-- A transfer to another account whose cost does not overflow.
abbrev pub IsPayment : Transaction → Type 0
IsPayment tx =
    (tx.tx_type ≡ TransactionType.transfer)
    × ((b : Address) × (tx.to ≡ some b) × (b ≢ tx.from))
    × (debit tx < 2 ^ 128)

-- The gas costs of the transactions that succeeded.
abbrev pub fees : List Transaction → List ExecutionResult → ℕ
fees [] results = 0
fees (tx ∷ txs) [] = 0
fees (tx ∷ txs) (r ∷ rs) = (if r.success then gas_cost tx else 0) + fees txs rs

module _ (schedule : GasSchedule) where
  payment_paid :
      (tx : Transaction) (gas : ℕ) (state : VmState) (b : Address)
      → tx.to ≡ some b
      → b ≢ tx.from
      → debit tx < 2 ^ 128
      → total_balance state.accounts < 2 ^ 128
      → debit tx ≤ (account_at tx.from state.accounts).balance
      → total_balance (apply_changes (transfer_changes tx) state.accounts) + gas_cost tx
        ≡ total_balance state.accounts
  unfolding apply_changes apply_change
  payment_paid tx gas state b to ne fits small paid =
      let m = state.accounts in
      let cost : total_cost tx ≡ debit tx = total_cost-debit tx fits in
      let sender = apply_change (plain_change (neg128 (total_cost tx)) 1) (account_at tx.from m) in
      let m' = HashMap.insert tx.from sender m in
      let same : account_at b m' ≡ account_at b m =
        ground (arith, account_at-insert tx.from b sender m, same_address_iff tx.from b) in
      let receiver = apply_change (plain_change tx.value 0) (account_at b m') in
      rw (transfer_changes_apart tx b to ne) (
        omega (
          arith,
          cost,
          ap (λ a. a.balance) same,
          total_balance-insert tx.from sender m,
          total_balance-insert b receiver m',
          two_balances tx.from b m (λ e. ne (sym e)),
        ))

  -- A transfer that is a payment, whatever its outcome: the sum of the balances falls by the gas
  -- cost if it succeeds, and stays if not.
  execute_transfer-total_balance :
      (tx : Transaction) (gas : ℕ) (state : VmState)
      → IsPayment tx
      → total_balance state.accounts < 2 ^ 128
      → let (result, state') = execute_transfer schedule tx gas state in
        total_balance state'.accounts + (if result.success then gas_cost tx else 0)
        ≡ total_balance state.accounts
  execute_transfer-total_balance tx gas state (t, (b, to, ne), fits) small =
      let cost = total_cost-debit tx fits in
      elim (Bool-cases (ltb (account_at tx.from state.accounts).balance (total_cost tx))) [
        | inl short ↦
            rw (execute_transfer-insufficient schedule tx gas state (ground arith)) (omega arith)
        | inr enough ↦
            rw (execute_transfer-paid schedule tx gas state (ground arith))
              (payment_paid tx gas state b to ne fits small (ground (arith, cost)))
      ]

  module _ ⦃h : Hasher⦄ where
    -- A transaction that does not succeed leaves the state as it was.
    pub execute_transaction-failed :
        (tx : Transaction) (state : VmState)
        → (execute_transaction schedule tx state).0.success ≡ false
        → (execute_transaction schedule tx state).1 ≡ state
    unfolding execute_transaction dispatch execute_transfer execute_private_transfer
        execute_contract_call execute_contract_deploy execute_code
    execute_transaction-failed tx state e = ground arith

    dispatch_lem :
        (tx : Transaction) (state : VmState) (type : TransactionType)
        → tx.tx_type ≡ type
        → execute_transaction schedule tx state
          ≡ dispatch schedule type tx schedule.base_tx_cost state
    unfolding execute_transaction
    dispatch_lem tx state type t = ap (λ k. dispatch schedule k tx schedule.base_tx_cost state) t

    pub payment-total_balance :
        (tx : Transaction) (state : VmState)
        → IsPayment tx
        → total_balance state.accounts < 2 ^ 128
        → let (result, state') = execute_transaction schedule tx state in
          total_balance state'.accounts + (if result.success then gas_cost tx else 0)
          ≡ total_balance state.accounts
    unfolding dispatch
    payment-total_balance tx state pay small =
        rw (dispatch_lem tx state TransactionType.transfer pay.0)
          (execute_transfer-total_balance tx schedule.base_tx_cost state pay small)

    -- Over a block of payments, executed one after the other, the sum of the balances falls by
    -- exactly the gas costs of those that succeed. (A payment is a transfer to another account than
    -- the sender's whose value and gas cost together are below 2 ^ 128, and the sum of the balances
    -- is below 2 ^ 128 at the start.)
    pub execute_block_sequential-total_balance :
        (txs : List Transaction) (state : VmState)
        → All IsPayment txs
        → total_balance state.accounts < 2 ^ 128
        → let (results, state') = execute_block_sequential schedule txs state in
          total_balance state'.accounts + fees txs results ≡ total_balance state.accounts
    unfolding execute_block_sequential
    execute_block_sequential-total_balance [] state all small = omega arith
    execute_block_sequential-total_balance (tx ∷ txs) state (pay, all) small =
        let step = payment-total_balance tx state pay small in
        omega (
          arith,
          step,
          execute_block_sequential-total_balance txs (execute_transaction schedule tx state).1 all
              (omega (arith, step)),
        )

    -- A deployment succeeds and credits the value to the contract's account without taking it, or
    -- the gas cost, from anyone: the sum of the balances rises by the value, less what the account
    -- at that address held before, and every other account stays as it is.
    pub execute_contract_deploy-total_balance :
        (tx : Transaction) (state : VmState)
        → tx.tx_type ≡ TransactionType.contract_deploy
        → let (result, state') = execute_transaction schedule tx state in
          (result.success ≡ true)
          × (total_balance state'.accounts
                + (account_at (contract_address schedule tx) state.accounts).balance
              ≡ total_balance state.accounts + tx.value)
          × ((c : Address)
              → c ≢ contract_address schedule tx
              → account_at c state'.accounts ≡ account_at c state.accounts)
    unfolding dispatch execute_contract_deploy
    execute_contract_deploy-total_balance tx state t =
        let addr = contract_address schedule tx in
        rw (dispatch_lem tx state TransactionType.contract_deploy t) (
          refl,
          total_balance-insert addr (contract_account schedule tx) state.accounts,
          λ c ne. ground (
            arith,
            account_at-insert addr c (contract_account schedule tx) state.accounts,
            same_address_iff addr c,
          ),
        )
