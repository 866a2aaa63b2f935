-- ===== src/Cli.antt =====
-- src/bin/cli.rs: the commands, and what they compute; most print fixed text. A string is the list of
-- its bytes. Hexadecimal, base 58 and the keys of secp256k1 are libraries'. Where `expect`, `unwrap`
-- or `copy_from_slice` panics, the result is `none`. The program text ends inside `Benchmark`.
pub mod Answers
mod Tests
use protonchain.Base.{
  zero, suc, ◌%◌, ◌^◌, ℕ, ◌-◌, ◌+◌, ◌*◌, ◌<◌, ◌≡◌, Bool, true, false, Option, none, some, List, [],
  ◌∷◌, ◌++◌, ◌>>=◌, eqb, ◌&&◌, length, replicate, All, if◌then◌else◌,
}
use protonchain.Types.{Hasher, StealthAddress, ChainConfig, default_config, digest, le_bytes}
use protonchain.Privacy.Stealth.{new_generator, generate}

pub data NetworkType : Type 0 where
  mainnet testnet devnet : NetworkType

pub data ContractType : Type 0 where
  wasm evm : ContractType

pub data KeyType : Type 0 where
  ed25519 secp256k1 : KeyType

pub data BenchmarkType : Type 0 where
  tps latency zk_proof consensus : BenchmarkType

pub data CrossChainCommands : Type 0 where
  transfer :
      (target_chain : ℕ) (receiver asset : List ℕ) (amount : ℕ) (private : Bool)
      → CrossChainCommands
  status : (transfer_id : List ℕ) → CrossChainCommands
  chains : CrossChainCommands

pub data ValidatorCommands : Type 0 where
  register : (commission stake : ℕ) → ValidatorCommands
  info : (address : List ℕ) → ValidatorCommands
  list : ValidatorCommands
  rewards : (address : List ℕ) → ValidatorCommands

pub data Commands : Type 0 where
  node : (validator : Bool) (shard_id : ℕ) (listen : List ℕ) (bootstrap : List (List ℕ)) → Commands
  send : (to : List ℕ) (amount gas_price : ℕ) (private : Bool) (shard_id : ℕ) → Commands
  deploy : (file : List ℕ) (contract_type : ContractType) (value gas_limit : ℕ) → Commands
  call : (contract function args : List ℕ) (value : ℕ) → Commands
  stake : (validator : List ℕ) (amount : ℕ) (private : Bool) → Commands
  unstake : (validator : List ℕ) (amount : ℕ) → Commands
  balance : (address : List ℕ) (private : Bool) → Commands
  info : (detailed : Bool) → Commands
  block : (height : Option ℕ) (hash : Option (List ℕ)) → Commands
  tx : (hash : List ℕ) → Commands
  cross_chain : CrossChainCommands → Commands
  validator : ValidatorCommands → Commands
  keygen : (output : List ℕ) (key_type : KeyType) → Commands
  stealth : (view_key spend_key : List ℕ) → Commands
  benchmark : (bench_type : BenchmarkType) (duration transactions : ℕ) → Commands

pub record Cli : Type 0 where
  pub command : Commands
  pub data_dir : List ℕ
  pub log_level : List ℕ
  pub network : NetworkType

-- the configuration that `Node` starts a node with
unfoldable pub config_of : NetworkType → ChainConfig
config_of NetworkType.mainnet = default_config
config_of NetworkType.testnet = record default_config { chain_id = 1338 }
config_of NetworkType.devnet = record default_config {
  chain_id = 1339;
  shard_count = 4;
  block_time_ms = 300;
}

-- "proton_"
abbrev pub prefix : List ℕ
prefix = 112 ∷ 114 ∷ 111 ∷ 116 ∷ 111 ∷ 110 ∷ 95 ∷ []

-- `starts_with`
unfoldable pub starts_with : List ℕ → List ℕ → Bool
starts_with [] s = true
starts_with (c ∷ p) [] = false
starts_with (c ∷ p) (d ∷ s) = eqb c d && starts_with p s

-- the address that `Balance` shows
unfoldable pub balance_address : List ℕ → List ℕ
unfolding starts_with
balance_address address = if starts_with prefix address then address else prefix ++ address

-- The hexadecimal text of the `hex` library, and the base 58 text of `bs58`.
pub record Encodings : Type 0 where
  pub encode : List ℕ → List ℕ
  pub decode : List ℕ → Option (List ℕ)
  pub bs58 : List ℕ → List ℕ
  pub decode-encode :
      (bytes : List ℕ) → All (λ b. b < 256) bytes → decode (encode bytes) ≡ some bytes

-- the three values of the file that `Keygen` writes
pub record KeyFile : Type 0 where
  pub public : List ℕ
  pub private : List ℕ
  pub address : List ℕ

module _ ⦃h : Hasher⦄ ⦃text : Encodings⦄ where
  -- the hashes that `Send`, `Transfer` and `Block` show
  abbrev pub send_hash : List ℕ
  send_hash = text.encode (digest (116 ∷ 120 ∷ [])).bytes

  abbrev pub transfer_id : List ℕ
  transfer_id = text.encode (digest (99 ∷ 114 ∷ 111 ∷ 115 ∷ 115 ∷ [])).bytes

  unfoldable pub block_hash : ℕ → List ℕ
  unfolding le_bytes
  block_hash height = text.encode (digest (le_bytes 8 height)).bytes

  -- the address that `Deploy` shows, for the bytes of the file
  unfoldable pub deploy_address : List ℕ → List ℕ
  deploy_address code = prefix ++ text.bs58 (digest code).bytes

  -- the strings of the public and the private key; `public_of` is the public key of a secret one
  unfoldable pub key_strings :
      (List ℕ → Option (List ℕ)) → KeyType → List ℕ → Option (List ℕ × List ℕ)
  key_strings public_of KeyType.ed25519 random = some (text.encode random, text.encode random)
  key_strings public_of KeyType.secp256k1 random = public_of (replicate 32 1) >>= λ public.
      some (text.encode public, text.encode (replicate 32 1))

  -- `Keygen`, with the 32 random bytes
  unfoldable pub keygen_file : (List ℕ → Option (List ℕ)) → KeyType → List ℕ → Option KeyFile
  unfolding key_strings
  keygen_file public_of kind random = do
    keys ← key_strings public_of kind random
    bytes ← text.decode keys.0
    some (record {
      public = keys.0;
      private = keys.1;
      address = prefix ++ text.bs58 (digest bytes).bytes;
    })

  -- `copy_from_slice` into an array of 32 bytes
  unfoldable pub copied : List ℕ → Option (List ℕ)
  copied bytes = if eqb (length bytes) 32 then some bytes else none

  -- `Stealth`
  unfoldable pub stealth_pair : List ℕ → List ℕ → Option (StealthAddress × List ℕ)
  unfolding copied generate
  stealth_pair view_key spend_key = do
    view_bytes ← text.decode view_key
    spend_bytes ← text.decode spend_key
    view_arr ← copied view_bytes
    spend_arr ← copied spend_bytes
    some (generate (new_generator view_arr spend_arr)).0

  -- the lines of `List`: the number, the bytes of the address in hexadecimal, the stake, the commission
  unfoldable pub validator_lines : ℕ → ℕ → List (ℕ × List ℕ × ℕ × ℕ)
  validator_lines zero i = []
  validator_lines (suc left) i =
      (i, text.encode (replicate 4 (i % 2 ^ 8)), 100_000 - i * 1000, (5 + i) % 2 ^ 16)
      ∷ validator_lines left (suc i)

  -- the ten lines of `List`
  abbrev pub listed_validators : List (ℕ × List ℕ × ℕ × ℕ)
  listed_validators = validator_lines 10 1
