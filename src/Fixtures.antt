-- ===== src/Fixtures.antt =====
-- Concrete values for the tests: stand-ins for the libraries, addresses, accounts, transactions.
use protonchain.Base.{
  true, false, Bool, ℕ, zero, suc, ◌≡◌, refl, none, some, List, [], ◌∷◌, ◌++◌, length, eqb, ap, ◌*◌,
}
use protonchain.Types.{
  Hasher, Hash, Address, Account, Transaction, TransactionType, Bincode, default_account, le_bytes,
  from_le_bytes,
}
use protonchain.Privacy.Circuit.{PrimeField}
use protonchain.Privacy.Proofs.{Groth16}
use protonchain.Node.{Surroundings}
use native.Mathlib.Nat.{mul-one}
use protonchain.Consensus.Validators.{Shuffle, Secp, Validator, ValidatorSet}
use protonchain.Vm.{VmState}

length-le_bytes : (w n : ℕ) → length (le_bytes w n) ≡ w
unfolding le_bytes
length-le_bytes zero n = refl
length-le_bytes (suc w) n = ap suc (length-le_bytes w _)

-- a Boolean as a number
abbrev pub flag : Bool → ℕ
flag false = 0
flag true = 1

abbrev pub read_flag : ℕ → Bool
read_flag zero = false
read_flag (suc _) = true

pub read_flag-flag : (b : Bool) → read_flag (flag b) ≡ b
read_flag-flag true = refl
read_flag-flag false = refl

-- A hash that keeps the first 32 bytes of its input, read as one number.
abbrev pub low_bytes : List ℕ → List ℕ
low_bytes input = le_bytes 32 (from_le_bytes input)

pub length-low_bytes : (input : List ℕ) → length (low_bytes input) ≡ 32
length-low_bytes input = length-le_bytes 32 (from_le_bytes input)

instance abbrev pub low_hasher : Hasher
low_hasher = record { sha3 = low_bytes; sha3_length = length-low_bytes }

-- Encodings that keep the fields by which the tests tell their values apart.
instance abbrev pub short_bincode : Bincode
short_bincode = record {
  serialize_transaction = λ tx. some (le_bytes 8 tx.nonce ++ le_bytes 16 tx.value);
  serialize_header = λ header. some (le_bytes 8 header.height);
}

-- A curve on which a signature is valid if it repeats the public key.
instance abbrev pub echo_secp : Secp
echo_secp = record {
  PublicKey = ℕ;
  Message = List ℕ;
  Signature = ℕ;
  public_key_from_slice = λ bytes. some (from_le_bytes bytes);
  message_from_slice = λ bytes. some bytes;
  signature_from_compact = λ bytes. some (from_le_bytes bytes);
  verify_ecdsa = λ msg sig key. eqb sig key;
}

-- The whole numbers stand in for the field.
instance abbrev pub numbers : PrimeField
numbers = record {
  F = ℕ;
  from = λ n. n;
  mul = λ a b. a * b;
  from-mul = λ a b. refl;
  mul_one = λ a. mul-one a;
}

-- a proof system that proves nothing and accepts everything
instance abbrev pub trusting : Groth16
trusting = record {
  ProvingKey = ℕ;
  VerifyingKey = ℕ;
  Proof = ℕ;
  circuit_specific_setup = λ circuit. some (1, 2);
  prove = λ seed key circuit. some 0;
  verify = λ key inputs proof. some true;
}

-- What a node is started with: everything is there.
abbrev pub around : Surroundings ℕ ℕ ℕ
around = record {
  runtime = true;
  database = some 0;
  cache = λ size. size;
  key = true;
  peer = some 9;
}

-- a shuffle that leaves the order as it is
instance abbrev pub unshuffled : Shuffle
unshuffled = record { shuffle = λ seed addresses. addresses }

abbrev pub address : ℕ → Address
address n = record { bytes = n ∷ [] }

abbrev pub hash : ℕ → Hash
hash n = record { bytes = le_bytes 32 n }

abbrev pub account : ℕ → ℕ → Account
account balance nonce = record default_account { balance = balance; nonce = nonce }

-- A transfer of `value` from account 1 to account 2, with gas cost 10 * 5.
abbrev pub transaction : ℕ → ℕ → Transaction
transaction nonce value = record {
  tx_type = TransactionType.transfer;
  nonce = nonce;
  from = address 1;
  to = some (address 2);
  value = value;
  gas_price = 10;
  gas_limit = 5;
  payload = [];
  shard_id = 0;
  timestamp = 0;
  signature = [];
  stealth_address = none;
  zk_proof = none;
  encrypted_amount = none;
}

abbrev pub validator : ℕ → ℕ → Validator
validator n stake = record {
  address = address n;
  public_key = n ∷ [];
  stake = stake;
  commission = 0;
  uptime = 0;
  last_active = 0;
}

-- Four validators with a stake of 10 each.
abbrev pub four_validators : ValidatorSet
four_validators = record {
  validators =
      (address 1, validator 1 10)
      ∷ (address 2, validator 2 10)
      ∷ (address 3, validator 3 10)
      ∷ (address 4, validator 4 10)
      ∷ [];
  total_stake = 40;
}

-- Account 1 has 1000 and account 2 has 7.
abbrev pub vm_state : VmState
vm_state = record {
  accounts = (address 1, account 1000 0) ∷ (address 2, account 7 3) ∷ [];
  contracts = [];
  storage = [];
  block_context = record {
    height = 0;
    timestamp = 0;
    coinbase = address 0;
    difficulty = 1;
    gas_limit = 50_000_000;
  };
}
