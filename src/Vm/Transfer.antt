-- ===== src/Vm/Transfer.antt =====
-- What `execute_transfer` does to the accounts.
use protonchain.Base.{
  ℕ, ◌+◌, ◌-◌, ◌%◌, ◌^◌, ◌<◌, ◌≤◌, ◌≡◌, ◌≢◌, refl, true, some, [], ◌∷◌, arith, ◌==◌, if◌then◌else◌,
}
use protonchain.Base.HashMap
use protonchain.Base.HashMap.{HashMap}
use protonchain.Types.{Address, Account, Transaction, address_key, same_address_iff, gas_cost}
use protonchain.Vm.{
  AccountChange, VmState, GasSchedule, insufficient_balance, failed, succeeded, account_at,
  address_or, plain_change, neg128, apply_change, apply_changes, total_cost, transfer_changes,
  execute_transfer,
}

pub account_at-insert :
    (a c : Address) (x : Account) (m : HashMap Address Account)
    → account_at c (HashMap.insert a x m) ≡ (if a == c then x else account_at c m)
unfolding account_at
account_at-insert a c x m = ground (arith, HashMap.get-insert a c x m)

-- The amount that a transfer takes from its sender, if it fits into 128 bits.
abbrev pub debit : Transaction → ℕ
debit tx = tx.value + gas_cost tx

pub total_cost-debit : (tx : Transaction) → debit tx < 2 ^ 128 → total_cost tx ≡ debit tx
unfolding total_cost
total_cost-debit tx fits = omega arith

total_cost-overflow :
    (tx : Transaction)
    → tx.value < 2 ^ 128
    → 2 ^ 128 ≤ debit tx
    → total_cost tx ≡ debit tx - 2 ^ 128
unfolding total_cost gas_cost
total_cost-overflow tx narrow over = omega arith

-- The two changes, where sender and receiver differ, and where they are the same.
pub transfer_changes_apart :
    (tx : Transaction) (b : Address)
    → tx.to ≡ some b
    → b ≢ tx.from
    → transfer_changes tx
      ≡ (tx.from, plain_change (neg128 (total_cost tx)) 1) ∷ (b, plain_change tx.value 0) ∷ []
unfolding transfer_changes HashMap.insert
transfer_changes_apart tx b to ne = rw to (ground (arith, same_address_iff tx.from b))

transfer_changes_same :
    (tx : Transaction)
    → address_or tx.to tx.from ≡ tx.from
    → transfer_changes tx ≡ (tx.from, plain_change tx.value 0) ∷ []
unfolding transfer_changes HashMap.insert
transfer_changes_same tx same = rw same (ground (arith, same_address_iff tx.from tx.from))

apply_changes_two :
    (a b c : Address) (x y : AccountChange) (m : HashMap Address Account)
    → b ≢ a
    → account_at c (apply_changes ((a, x) ∷ (b, y) ∷ []) m) ≡ (
        if b == c
        then apply_change y (account_at b m)
        else (if a == c then apply_change x (account_at a m) else account_at c m))
unfolding apply_changes
apply_changes_two a b c x y m ne =
    let m' = HashMap.insert a (apply_change x (account_at a m)) m in
    ground (
      arith,
      account_at-insert b c (apply_change y (account_at b m')) m',
      account_at-insert a c (apply_change x (account_at a m)) m,
      account_at-insert a b (apply_change x (account_at a m)) m,
      same_address_iff a b,
    )

-- An account that may serve as a summand: its numbers are below the bounds of their types.
pub record IsBounded (account : Account) : Type 0 where
  pub balance : account.balance < 2 ^ 128
  pub nonce : account.nonce < 2 ^ 64

module _ (schedule : GasSchedule) (tx : Transaction) (gas : ℕ) (state : VmState) where
  -- A transfer that the sender cannot pay for is refused, and changes nothing.
  pub execute_transfer-insufficient :
      (account_at tx.from state.accounts).balance < total_cost tx
      → execute_transfer schedule tx gas state ≡ (failed gas insufficient_balance, state)
  unfolding execute_transfer
  execute_transfer-insufficient short = ground arith

  pub execute_transfer-paid :
      total_cost tx ≤ (account_at tx.from state.accounts).balance
      → execute_transfer schedule tx gas state ≡ (
        succeeded ((gas + schedule.base_tx_cost) % 2 ^ 64) [] (transfer_changes tx),
        record state { accounts = apply_changes (transfer_changes tx) state.accounts },
      )
  unfolding execute_transfer
  execute_transfer-paid paid = ground arith

  -- The accounts after a transfer to another account.
  accounts_apart :
      (b c : Address)
      → tx.to ≡ some b
      → b ≢ tx.from
      → account_at c (apply_changes (transfer_changes tx) state.accounts) ≡ (
          if b == c
          then apply_change (plain_change tx.value 0) (account_at b state.accounts)
          else (if tx.from == c
              then apply_change
                  (plain_change (neg128 (total_cost tx)) 1)
                  (account_at tx.from state.accounts)
              else account_at c state.accounts))
  accounts_apart b c to ne = rw (transfer_changes_apart tx b to ne) (
      apply_changes_two tx.from b c (plain_change (neg128 (total_cost tx)) 1)
        (plain_change tx.value 0) state.accounts ne)

  -- A transfer to another account that the sender can pay for succeeds. The sender's balance falls
  -- by the value and the gas cost and its nonce rises by one; the receiver's balance rises by the
  -- value; every other account stays as it is. (The sums must fit into their types.)
  pub execute_transfer_lem :
      (b : Address)
      → tx.to ≡ some b
      → b ≢ tx.from
      → IsBounded (account_at tx.from state.accounts)
      → IsBounded (account_at b state.accounts)
      → debit tx ≤ (account_at tx.from state.accounts).balance
      → (account_at b state.accounts).balance + tx.value < 2 ^ 128
      → let (result, state') = execute_transfer schedule tx gas state in
        let sender = account_at tx.from state.accounts in
        let receiver = account_at b state.accounts in
        (result.success ≡ true)
        × (account_at tx.from state'.accounts ≡ record sender {
          balance = sender.balance - debit tx;
          nonce = (sender.nonce + 1) % 2 ^ 64;
        })
        × (account_at b state'.accounts ≡ record receiver { balance = receiver.balance + tx.value })
        × ((c : Address)
            → c ≢ tx.from
            → c ≢ b
            → account_at c state'.accounts ≡ account_at c state.accounts)
  unfolding apply_change
  execute_transfer_lem b to ne sok rok paid room =
      let cost : total_cost tx ≡ debit tx = total_cost-debit tx (omega arith) in
      rw (execute_transfer-paid (omega (arith, cost))) (
        refl,
        ground (
          arith,
          cost,
          accounts_apart b tx.from to ne,
          same_address_iff b tx.from,
          same_address_iff tx.from tx.from,
        ),
        ground (arith, accounts_apart b b to ne, same_address_iff b b),
        λ c nf nb.
            ground
              (arith, accounts_apart b c to ne, same_address_iff b c, same_address_iff tx.from c),
      )

  -- A transfer to the sender itself, or without a receiver, succeeds if the sender could pay for
  -- it. It takes nothing and adds the value to the sender's balance; the nonce stays.
  pub execute_transfer_self :
      address_or tx.to tx.from ≡ tx.from
      → IsBounded (account_at tx.from state.accounts)
      → debit tx ≤ (account_at tx.from state.accounts).balance
      → (account_at tx.from state.accounts).balance + tx.value < 2 ^ 128
      → let (result, state') = execute_transfer schedule tx gas state in
        let sender = account_at tx.from state.accounts in
        (result.success ≡ true)
        × (account_at tx.from state'.accounts
            ≡ record sender { balance = sender.balance + tx.value })
  unfolding apply_change apply_changes
  execute_transfer_self same ok paid room =
      let cost : total_cost tx ≡ debit tx = total_cost-debit tx (omega arith) in
      rw (execute_transfer-paid (omega (arith, cost)), transfer_changes_same tx same)
        (
          refl,
          ground (
            arith,
            account_at-insert tx.from tx.from
                (apply_change (plain_change tx.value 0) (account_at tx.from state.accounts))
                state.accounts,
            same_address_iff tx.from tx.from,
          ),
        )

  -- If the value and the gas cost together reach 2 ^ 128, a transfer to another account costs its
  -- sender 2 ^ 128 less than that, while the receiver gets the whole value.
  pub execute_transfer_overflow :
      (b : Address)
      → tx.to ≡ some b
      → b ≢ tx.from
      → IsBounded (account_at tx.from state.accounts)
      → IsBounded (account_at b state.accounts)
      → tx.value < 2 ^ 128
      → 2 ^ 128 ≤ debit tx
      → debit tx - 2 ^ 128 ≤ (account_at tx.from state.accounts).balance
      → (account_at b state.accounts).balance + tx.value < 2 ^ 128
      → let (result, state') = execute_transfer schedule tx gas state in
        (result.success ≡ true)
        × ((account_at tx.from state'.accounts).balance
            ≡ (account_at tx.from state.accounts).balance - (debit tx - 2 ^ 128))
        × ((account_at b state'.accounts).balance
            ≡ (account_at b state.accounts).balance + tx.value)
  unfolding apply_change
  execute_transfer_overflow b to ne sok rok narrow over paid room =
      let cost = total_cost-overflow tx narrow over in
      rw (execute_transfer-paid (omega (arith, cost))) (
        refl,
        ground (
          arith,
          cost,
          accounts_apart b tx.from to ne,
          same_address_iff b tx.from,
          same_address_iff tx.from tx.from,
        ),
        ground (arith, accounts_apart b b to ne, same_address_iff b b),
      )
