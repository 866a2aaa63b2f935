-- ===== src/Contracts/PrivateToken.antt =====
-- contracts/private_token.rs. A failed `require!` reverts the call: the result is `none`. The owner's
-- check and the check of the proof, which the host makes, are arguments; the events are results.
-- Names are byte lists. Arithmetic wraps.
pub mod Spending
pub mod Balances
mod Tests
use protonchain.Base.{
  ℕ, ◌+◌, ◌%◌, ◌^◌, Bool, true, false, not, Option, none, some, List, [], ◌∷◌, ◌++◌, ◌==◌, ◌||◌,
  leb, length, take, if◌then◌else◌,
}
use protonchain.Types.{
  Hash, Hasher, Address, StealthAddress, hash_key, le_bytes, from_le_bytes, zero_hash,
}
use protonchain.Sdk.Host.{Host, Json}
use protonchain.Sdk.Set
use protonchain.Sdk.Commitments.{update_merkle_root}

pub data Event : Type 0 where
  private_transferred : Hash → Hash → List ℕ → Event
  public_minted : Address → ℕ → Event

-- `balance_key`, the address behind `bal:`
unfoldable pub balance_key : Address → List ℕ
balance_key a = b'b' ∷ b'a' ∷ b'l' ∷ b':' ∷ a.bytes

-- the balance in the bytes of the storage, if there are any
unfoldable pub read_balance : Option (List ℕ) → ℕ
unfolding from_le_bytes
read_balance none = 0
read_balance (some bytes) = if leb 16 (length bytes) then from_le_bytes (take 16 bytes) else 0

module _ ⦃host : Host⦄ where
  pub record PrivateToken : Type 0 where
    pub storage : host.Storage
    pub name : List ℕ
    pub symbol : List ℕ
    pub decimals : ℕ
    pub total_supply : ℕ
    pub merkle_root : Hash
    pub view_key : List ℕ

  -- `new`, on the storage as the contract finds it
  unfoldable pub new_token : host.Storage → List ℕ → List ℕ → ℕ → PrivateToken
  unfolding zero_hash
  new_token storage name symbol decimals = record {
    storage = storage;
    name = name;
    symbol = symbol;
    decimals = decimals;
    total_supply = 0;
    merkle_root = zero_hash;
    view_key = [];
  }

  -- `get_public_balance`
  unfoldable pub get_public_balance : Address → PrivateToken → ℕ
  unfolding balance_key read_balance
  get_public_balance account c = read_balance (host.read (balance_key account) c.storage)

  -- `mint`
  unfoldable pub mint : Bool → Address → ℕ → PrivateToken → Option (PrivateToken × List Event)
  unfolding get_public_balance le_bytes
  mint is_owner to amount c =
      if not is_owner
      then none
      else some (
        record c {
          total_supply = (c.total_supply + amount) % 2 ^ 128;
          storage =
              host.write (balance_key to)
                (le_bytes 16 ((get_public_balance to c + amount) % 2 ^ 128)) c.storage;
        },
        Event.public_minted to amount ∷ [],
      )

  -- `private_transfer`
  unfoldable pub private_transfer :
      {Proof : Type 0} ⦃h : Hasher⦄ ⦃json_hash : Json Hash⦄
      → (Proof → Hash → Hash → Hash → Bool)
      → Proof
      → Hash
      → Hash
      → Hash
      → List ℕ
      → PrivateToken
      → Option (PrivateToken × List Event)
  unfolding update_merkle_root
  private_transfer verify_zk_proof proof nullifier commitment root encrypted_amount c =
      if not (verify_zk_proof proof nullifier commitment root)
        || Set.contains nullifier c.storage
        || not (root == c.merkle_root)
      then none
      else some (
        record c {
          storage = Set.insert nullifier c.storage;
          merkle_root = update_merkle_root c.merkle_root commitment;
        },
        Event.private_transferred nullifier commitment encrypted_amount ∷ [],
      )
