-- ===== src/Storage/State/Tests.antt =====
-- The state storage over the database in memory, with a cache of one list and a short form of accounts.
use protonchain.Base.{ℕ, ◌≡◌, ◌≢◌, ◌⊎◌, refl, inr, Option, none, some, List, [], ◌∷◌, arith}
use protonchain.Base.HashMap
use protonchain.Base.HashMap.{HashMap}
use protonchain.Types.{digest, zero_hash, from_le_bytes, le_bytes, Hash, Account, hash_key}
use protonchain.Fixtures.{flag, read_flag, read_flag-flag, low_hasher, address, account, hash}
use protonchain.Storage.Interface.{LruCache, Codec}
use protonchain.Storage.Memory.{get, write_entries, batch_write, MemoryDb}
use protonchain.Storage.Memory.Batch.{memory_database}
use protonchain.Storage.Keys.{account_key, Name, key_of, key_of_injective}
use protonchain.Storage.State.{
  put_accounts, load_account, write_batch, push_change, StateStorage, StateSnapshot, put_account,
  get_account, commit, rollback, apply_snapshot,
}
use protonchain.Storage.State.Durable.{stored, put_account-commit, apply_snapshot-stored}

-- a cache that evicts nothing
pub table_put_other :
    (k j : Hash) (x : Account) (c : HashMap Hash Account)
    → k ≢ j
    → (HashMap.get j (HashMap.insert k x c) ≡ none)
      ⊎ (HashMap.get j (HashMap.insert k x c) ≡ HashMap.get j c)
table_put_other k j x c ne = inr (HashMap.get-insert_ne k j x c ne)

instance abbrev table_cache : LruCache (HashMap Hash Account)
table_cache = record {
  get = λ k c. (HashMap.get k c, c);
  put = λ k x c. HashMap.insert k x c;
  get-put_self = λ k x c. HashMap.get-insert_self k x c;
  get-put_other = table_put_other;
  get-get = λ k j c. refl;
}

-- only accounts with neither code nor keys have a form
abbrev keyless : Option Hash → Option (List ℕ) → Option (List ℕ) → List ℕ → Option (List ℕ)
keyless none none none bytes = some bytes
keyless none none (some _) bytes = none
keyless none (some _) spend bytes = none
keyless (some _) view spend bytes = none

abbrev account_vec : Account → Option (List ℕ)
account_vec a =
    keyless a.code_hash a.view_key a.spend_key
      (a.nonce ∷ a.balance ∷ a.validator_stake ∷ flag a.is_contract ∷ a.storage_root.bytes)

abbrev read_account : List ℕ → Option Account
read_account (nonce ∷ balance ∷ stake ∷ contract ∷ root) = some (record {
  nonce = nonce;
  balance = balance;
  code_hash = none;
  storage_root = record { bytes = root };
  validator_stake = stake;
  is_contract = read_flag contract;
  view_key = none;
  spend_key = none;
})
read_account _ = none

keyless-some :
    (code : Option Hash) (view spend : Option (List ℕ)) (bytes out : List ℕ)
    → keyless code view spend bytes ≡ some out
    → (code ≡ none) × (view ≡ none) × (spend ≡ none) × (bytes ≡ out)
keyless-some none none none bytes out e = (refl, refl, refl, cc)
keyless-some none none (some _) bytes out e = cc
keyless-some none (some _) spend bytes out e = cc
keyless-some (some _) view spend bytes out e = cc

pub read_account-account_vec :
    (a : Account) (out : List ℕ) → account_vec a ≡ some out → read_account out ≡ some a
read_account-account_vec a out e =
    let (code, view, spend, same) = keyless-some a.code_hash a.view_key a.spend_key _ out e in
    rw (← same) (ground (arith, code, view, spend, read_flag-flag a.is_contract))

instance abbrev account_codec : Codec Account
account_codec = record {
  serialize = account_vec;
  deserialize = read_account;
  deserialize-serialize = read_account-account_vec;
}

-- account 1 with 40 in the database, and a change of it to 90 pending
abbrev storage : StateStorage MemoryDb (HashMap Hash Account)
storage = record {
  db = record { entries = (key_of (Name.account (address 1)), 0 ∷ 40 ∷ 0 ∷ 0 ∷ []) ∷ [] };
  cache = [];
  pending_changes = (key_of (Name.account (address 1)), some (0 ∷ 90 ∷ 0 ∷ 0 ∷ [])) ∷ [];
}

abbrev snapshot : StateSnapshot
snapshot = record {
  block_height = 3;
  state_root = hash 0;
  accounts = (address 1, account 4 0) ∷ (address 2, account 6 0) ∷ (address 1, account 5 0) ∷ [];
  timestamp = 0;
}

-- what the runs unfold
storing : Unit {0}
unfolding put_account push_change commit write_batch rollback get_account load_account batch_write
    write_entries get apply_snapshot put_accounts account_key HashMap.get HashMap.insert
    HashMap.remove le_bytes from_le_bytes digest zero_hash
storing = tt

put_account-commit_example :
    let s' = (commit (put_account (address 2) (account 7 0) storage).1).1 in
    (get_account (address 2) (record s' { cache = [] })).0 ≡ some (account 7 0)
unfolding storing
put_account-commit_example =
    put_account-commit (address 2) (address 2) (account 7 0) [] storage refl refl refl

apply_snapshot-stored_example :
    stored (address 1) (apply_snapshot snapshot storage).1 ≡ some (account 5 0)
unfolding storing
apply_snapshot-stored_example = apply_snapshot-stored (address 1) snapshot storage refl

key_of_injective_example : Name.block 300 ≡ Name.block 300
key_of_injective_example =
    key_of_injective (Name.block 300) (Name.block 300) (omega arith) (omega arith) refl
