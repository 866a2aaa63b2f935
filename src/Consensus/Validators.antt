-- ===== src/Consensus/Validators.antt =====
-- `Validator` and `ValidatorSet` of src/consensus/mod.rs. The curve library and the seeded
-- shuffle of `rand` are parameters. The two locks of a set are taken and released inside each
-- method, so a method is one step on the record.
pub mod Stake
use protonchain.Base.{
  ℕ, ◌+◌, ◌*◌, ◌/◌, ◌%◌, ◌^◌, ◌≡◌, Bool, true, false, Option, none, some, List, [], ◌∷◌, map, ltb,
  eqb, if◌then◌else◌, ◌||◌, ◌&&◌, take, length, get_elem?,
}
use protonchain.Base.HashMap
use protonchain.Base.HashMap.{HashMap}
use protonchain.Types.{Hash, Address, address_key, same_address, le_bytes}

-- What is used of `secp256k1`. Each parser has `none` for its error.
pub record Secp : Type 1 where
  pub PublicKey : Type 0
  pub Message : Type 0
  pub Signature : Type 0
  pub public_key_from_slice : List ℕ → Option PublicKey
  pub message_from_slice : List ℕ → Option Message
  pub signature_from_compact : List ℕ → Option Signature
  pub verify_ecdsa : Message → Signature → PublicKey → Bool

-- `uptime` holds the bits of the `f64`, which nothing computes with.
pub record Validator : Type 0 where
  pub address : Address
  pub public_key : List ℕ
  pub stake : ℕ
  pub commission : ℕ
  pub uptime : ℕ
  pub last_active : ℕ

-- `Validator::verify_signature`
unfoldable pub verify_signature : ⦃s : Secp⦄ → Validator → Hash → List ℕ → Bool
verify_signature ⦃s⦄ v hash signature = elim (s.public_key_from_slice v.public_key) [
  | none ↦ false
  | some pubkey ↦ elim (s.message_from_slice hash.bytes) [
    | none ↦ false
    | some msg ↦ elim (s.signature_from_compact signature) [
      | none ↦ false
      | some sig ↦ s.verify_ecdsa msg sig pubkey
    ]
  ]
]

pub record ValidatorSet : Type 0 where
  pub validators : HashMap Address Validator
  pub total_stake : ℕ

-- `ValidatorSet::new`
unfoldable pub new_set : ValidatorSet
new_set = record { validators = []; total_stake = 0 }

-- `ValidatorSet::add_validator`, the sum on `u128`
unfoldable pub add_validator : Validator → ValidatorSet → ValidatorSet
add_validator v set = record {
  validators = HashMap.insert v.address v set.validators;
  total_stake = (set.total_stake + v.stake) % 2 ^ 128;
}

unfoldable pub get_validator : ValidatorSet → Address → Option Validator
get_validator set address = HashMap.get address set.validators

-- The order of byte arrays.
unfoldable pub bytes_lt : List ℕ → List ℕ → Bool
bytes_lt [] [] = false
bytes_lt [] (_ ∷ _) = true
bytes_lt (_ ∷ _) [] = false
bytes_lt (x ∷ xs) (y ∷ ys) = ltb x y || (eqb x y && bytes_lt xs ys)

-- `sort_by_key(|v| v.address)`, a stable sort
unfoldable pub insert_sorted : Validator → List Validator → List Validator
unfolding bytes_lt
insert_sorted v [] = v ∷ []
insert_sorted v (w ∷ ws) =
    if bytes_lt w.address.bytes v.address.bytes then w ∷ insert_sorted v ws else v ∷ w ∷ ws

unfoldable pub sort_by_address : List Validator → List Validator
unfolding insert_sorted
sort_by_address [] = []
sort_by_address (v ∷ vs) = insert_sorted v (sort_by_address vs)

-- `sorted[round % sorted.len()].address`
leader_of : ℕ → List Validator → Option Address
leader_of round [] = none
leader_of round (v ∷ vs) = elim (get_elem? (v ∷ vs) (round % length (v ∷ vs))) [
  | none ↦ none
  | some w ↦ some w.address
]

-- `ValidatorSet::get_leader`
unfoldable pub get_leader : ValidatorSet → ℕ → Option Address
unfolding leader_of sort_by_address
get_leader set round = leader_of round (sort_by_address (HashMap.values set.validators))

-- `shuffle` with the generator that `StdRng::from_seed` makes of the seed
pub record Shuffle : Type 0 where
  pub shuffle : List ℕ → List Address → List Address

-- `ValidatorSet::get_random_committee`
unfoldable pub get_random_committee : ⦃r : Shuffle⦄ → ValidatorSet → ℕ → ℕ → List Address
unfolding le_bytes
get_random_committee ⦃r⦄ set round size =
    take size (r.shuffle (le_bytes 32 round) (HashMap.keys set.validators))

unfoldable pub validator_count : ValidatorSet → ℕ
validator_count set = length set.validators

unfoldable pub total_stake : ValidatorSet → ℕ
total_stake set = set.total_stake
