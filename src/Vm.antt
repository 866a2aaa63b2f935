-- ===== src/Vm.antt =====
-- src/vm/mod.rs: the state of the virtual machine and the execution of a transaction. The lock on
-- the state is held for the whole of each execution, so an execution is one step on the state. An
-- `i128` or `i64` is its bit pattern, a natural number below 2 ^ 128 or 2 ^ 64, so the `as` casts
-- change nothing and sums are taken modulo the power.
pub mod Transfer
pub mod Supply
pub mod Gas
pub mod Parallel
mod Tests
use protonchain.Base.{
  pair_key, ℕ, ◌+◌, ◌-◌, ◌*◌, ◌%◌, ◌^◌, Bool, true, false, Option, none, some, List, [], ◌∷◌, ◌++◌,
  length, ltb, if◌then◌else◌, Key,
}
use protonchain.Base.HashMap
use protonchain.Base.HashMap.{HashMap}
use protonchain.Types.{
  Hash, Hasher, Address, Account, Transaction, TransactionType, default_account, hash_key,
  address_key, digest, address_of, le_bytes, gas_cost,
}
use protonchain.Types.TransactionType.{
  transfer, contract_deploy, contract_call, stake, unstake, cross_chain, private_transfer,
}

pub record AccountChange : Type 0 where
  pub balance_delta : ℕ
  pub nonce_delta : ℕ
  pub storage_changes : HashMap Hash (List ℕ)
  pub code : Option (List ℕ)

pub record LogEntry : Type 0 where
  pub address : Address
  pub topics : List Hash
  pub payload : List ℕ

-- the messages of `ExecutionResult::error`
pub data VmError : Type 0 where
  unsupported_type insufficient_balance contract_not_found : VmError

pub record ExecutionResult : Type 0 where
  pub success : Bool
  pub gas_used : ℕ
  pub return_data : List ℕ
  pub logs : List LogEntry
  pub state_changes : HashMap Address AccountChange
  pub error : Option VmError

pub data VmType : Type 0 where
  wasm evm native : VmType

pub record ContractCode : Type 0 where
  pub code : List ℕ
  pub abi : List ℕ
  pub vm_type : VmType

pub record BlockContext : Type 0 where
  pub height : ℕ
  pub timestamp : ℕ
  pub coinbase : Address
  pub difficulty : ℕ
  pub gas_limit : ℕ

pub record VmState : Type 0 where
  pub accounts : HashMap Address Account
  pub contracts : HashMap Address ContractCode
  pub storage : HashMap (Address × Hash) (List ℕ)
  pub block_context : BlockContext

pub record GasSchedule : Type 0 where
  pub base_tx_cost : ℕ
  pub storage_load : ℕ
  pub storage_store : ℕ
  pub memory_page : ℕ
  pub call_cost : ℕ
  pub log_cost : ℕ
  pub wasm_instruction : ℕ
  pub evm_instruction : ℕ

-- `GasSchedule::default()`
abbrev pub default_schedule : GasSchedule
default_schedule = record {
  base_tx_cost = 21_000;
  storage_load = 200;
  storage_store = 20_000;
  memory_page = 100;
  call_cost = 700;
  log_cost = 375;
  wasm_instruction = 1;
  evm_instruction = 1;
}

-- `unwrap_or` and `unwrap_or_default` on the kinds of values that the machine looks up
abbrev pub account_or_default : Option Account → Account
account_or_default none = default_account
account_or_default (some account) = account

abbrev pub address_or : Option Address → Address → Address
address_or none other = other
address_or (some address) other = address

-- `accounts.get(addr).cloned().unwrap_or_default()`
unfoldable pub account_at : Address → HashMap Address Account → Account
account_at addr accounts = account_or_default (HashMap.get addr accounts)

abbrev pub failed : ℕ → VmError → ExecutionResult
failed gas error = record {
  success = false;
  gas_used = gas;
  return_data = [];
  logs = [];
  state_changes = [];
  error = some error;
}

abbrev pub succeeded : ℕ → List ℕ → HashMap Address AccountChange → ExecutionResult
succeeded gas return_data changes = record {
  success = true;
  gas_used = gas;
  return_data = return_data;
  logs = [];
  state_changes = changes;
  error = none;
}

abbrev pub plain_change : ℕ → ℕ → AccountChange
plain_change balance_delta nonce_delta = record {
  balance_delta = balance_delta;
  nonce_delta = nonce_delta;
  storage_changes = [];
  code = none;
}

-- `-x` on `i128`
abbrev pub neg128 : ℕ → ℕ
neg128 x = (2 ^ 128 - x) % 2 ^ 128

-- one entry of the loop that applies the changes
unfoldable pub apply_change : AccountChange → Account → Account
apply_change change account = record account {
  balance = (account.balance + change.balance_delta) % 2 ^ 128;
  nonce = (account.nonce + change.nonce_delta) % 2 ^ 64;
}

-- the loop `for (addr, change) in &changes`
unfoldable pub apply_changes :
    HashMap Address AccountChange → HashMap Address Account → HashMap Address Account
apply_changes [] accounts = accounts
apply_changes ((addr, change) ∷ rest) accounts =
    apply_changes rest
      (HashMap.insert addr (apply_change change (account_at addr accounts)) accounts)

-- `tx.value + tx.gas_cost()` on `u128`
unfoldable pub total_cost : Transaction → ℕ
unfolding gas_cost
total_cost tx = (tx.value + gas_cost tx) % 2 ^ 128

-- the map of the two changes: the receiver's is put in second
unfoldable pub transfer_changes : Transaction → HashMap Address AccountChange
unfolding total_cost
transfer_changes tx =
    HashMap.insert (address_or tx.to tx.from) (plain_change tx.value 0)
      (HashMap.insert tx.from (plain_change (neg128 (total_cost tx)) 1) [])

module _ (schedule : GasSchedule) where
  -- `execute_transfer`
  unfoldable pub execute_transfer : Transaction → ℕ → VmState → ExecutionResult × VmState
  execute_transfer tx gas state =
      if ltb (account_at tx.from state.accounts).balance (total_cost tx)
      then (failed gas insufficient_balance, state)
      else (
        succeeded ((gas + schedule.base_tx_cost) % 2 ^ 64) [] (transfer_changes tx),
        record state { accounts = apply_changes (transfer_changes tx) state.accounts },
      )

  -- `execute_private_transfer`
  unfoldable pub execute_private_transfer : Transaction → ℕ → VmState → ExecutionResult × VmState
  execute_private_transfer tx gas state = elim tx.zk_proof [
    | none ↦ execute_transfer tx gas state
    | some proof ↦ execute_transfer tx ((gas + 100_000) % 2 ^ 64) state
  ]

  -- `execute_wasm`, `execute_evm` and `execute_native`
  unfoldable pub execute_code : VmType → List ℕ → ℕ → ExecutionResult
  execute_code wasm code gas =
      succeeded ((gas + length code * schedule.wasm_instruction) % 2 ^ 64) (1 ∷ []) []
  execute_code evm code gas =
      succeeded ((gas + length code * schedule.evm_instruction) % 2 ^ 64) (1 ∷ []) []
  execute_code native code gas = succeeded gas (1 ∷ []) []

  -- `execute_contract_call`
  unfoldable pub execute_contract_call : Transaction → ℕ → VmState → ExecutionResult × VmState
  unfolding execute_code
  execute_contract_call tx gas state =
      elim (HashMap.get (address_or tx.to tx.from) state.contracts) [
        | none ↦ (failed gas contract_not_found, state)
        | some contract ↦ (execute_code contract.vm_type contract.code gas, state)
      ]

  module _ ⦃h : Hasher⦄ where
    -- the address of a new contract, from the sender and its nonce
    unfoldable pub contract_address : Transaction → Address
    contract_address tx = address_of (tx.from.bytes ++ le_bytes 8 tx.nonce)

    -- the account of a new contract
    unfoldable pub contract_account : Transaction → Account
    contract_account tx = record default_account {
      is_contract = true;
      code_hash = some (digest tx.payload);
      balance = tx.value;
    }

    -- `execute_contract_deploy`
    unfoldable pub execute_contract_deploy : Transaction → ℕ → VmState → ExecutionResult × VmState
    unfolding contract_account
    execute_contract_deploy tx gas state =
        let addr = contract_address tx in
        (
          succeeded ((gas + schedule.base_tx_cost + length tx.payload * 200) % 2 ^ 64) [] (
              HashMap.insert addr (record (plain_change tx.value 0) { code = some tx.payload })
                (HashMap.insert tx.from
                  (plain_change (neg128 ((tx.value + gas_cost tx) % 2 ^ 128)) 1) [])),
          record state {
            contracts =
                HashMap.insert addr (record { code = tx.payload; abi = []; vm_type = wasm })
                  state.contracts;
            accounts = HashMap.insert addr (contract_account tx) state.accounts;
          },
        )

    -- the dispatch on the type, after the base cost
    unfoldable pub dispatch :
        TransactionType → Transaction → ℕ → VmState → ExecutionResult × VmState
    dispatch transfer tx gas state = execute_transfer tx gas state
    dispatch contract_deploy tx gas state = execute_contract_deploy tx gas state
    dispatch contract_call tx gas state = execute_contract_call tx gas state
    dispatch private_transfer tx gas state = execute_private_transfer tx gas state
    dispatch stake tx gas state = (failed gas unsupported_type, state)
    dispatch unstake tx gas state = (failed gas unsupported_type, state)
    dispatch cross_chain tx gas state = (failed gas unsupported_type, state)

    -- `execute_transaction`
    unfoldable pub execute_transaction : Transaction → VmState → ExecutionResult × VmState
    execute_transaction tx state = dispatch tx.tx_type tx schedule.base_tx_cost state

    -- `ParallelExecutor::execute_block_sequential`
    unfoldable pub execute_block_sequential :
        List Transaction → VmState → List ExecutionResult × VmState
    execute_block_sequential [] state = ([], state)
    execute_block_sequential (tx ∷ txs) state =
        let (result, state') = execute_transaction tx state in
        let (results, state'') = execute_block_sequential txs state' in (result ∷ results, state'')

-- the number by type that `GasEstimator::estimate_gas` returns
estimate_by_type : TransactionType → ℕ → ℕ
estimate_by_type transfer len = 21_000
estimate_by_type contract_deploy len = (53_000 + len * 200) % 2 ^ 64
estimate_by_type contract_call len = (21_000 + len * 100) % 2 ^ 64
estimate_by_type private_transfer len = 121_000
estimate_by_type stake len = 21_000
estimate_by_type unstake len = 21_000
estimate_by_type cross_chain len = 21_000

-- `GasEstimator::estimate_gas`
unfoldable pub estimate_gas : Transaction → ℕ
unfolding estimate_by_type
estimate_gas tx = estimate_by_type tx.tx_type (length tx.payload)

-- `get_account`, `get_contract`, `get_storage`
unfoldable pub get_account : VmState → Address → Option Account
get_account state address = HashMap.get address state.accounts

unfoldable pub get_contract : VmState → Address → Option ContractCode
get_contract state address = HashMap.get address state.contracts

unfoldable pub get_storage : VmState → Address → Hash → Option (List ℕ)
get_storage state address key = HashMap.get (address, key) state.storage

-- the bytes that `state_root` hashes
root_bytes : HashMap Address Account → List ℕ
root_bytes [] = []
root_bytes ((addr, account) ∷ rest) =
    addr.bytes ++ le_bytes 16 account.balance ++ le_bytes 8 account.nonce ++ root_bytes rest

-- `state_root`
unfoldable pub state_root : ⦃h : Hasher⦄ → VmState → Hash
unfolding root_bytes
state_root state = digest (root_bytes state.accounts)
