-- ===== src/Contracts/Nft.antt =====
-- contracts/nft.rs. A failed `require!` or `expect` reverts the call: the result is `none`. The
-- caller, the owner's check, the clock and the checks of proofs, which the host makes, are
-- arguments; the events are results. Names and public metadata are byte lists.
pub mod Ownership
mod Tests
use protonchain.Base.{
  ℕ, Bool, true, false, not, Option, none, some, List, [], ◌∷◌, ◌==◌, ◌||◌, replicate,
  if◌then◌else◌,
}
use protonchain.Types.{
  Hasher, address_of, Hash, Address, StealthAddress, address_key, same_address, zero_hash,
}
use protonchain.Sdk.Host.{Host, Json}
use protonchain.Sdk.Map
use protonchain.Sdk.Set
use protonchain.Sdk.U256.{U256, add, zero_u256, one_u256}

pub record TokenData : Type 0 where
  pub token_id : U256
  pub public_metadata : List ℕ
  pub encrypted_metadata_hash : Hash
  pub is_private : Bool
  pub created_at : ℕ

pub data Event : Type 0 where
  transferred : Option Address → Option Address → U256 → Event
  private_transferred : U256 → Hash → StealthAddress → Event
  minted : U256 → Address → Bool → Event
  approval : Address → Address → U256 → Event

-- `== Some(spender)`
abbrev pub is_address : Address → Option Address → Bool
is_address spender none = false
is_address spender (some a) = a == spender

-- `unwrap_or(Address::new(&[0u8; 32]))`
abbrev pub or_zero_address : ⦃h : Hasher⦄ → Option Address → Address
or_zero_address none = address_of (replicate 32 0)
or_zero_address (some a) = a

-- `unwrap_or(false)`
abbrev pub or_false : Option Bool → Bool
or_false none = false
or_false (some b) = b

module _ ⦃host : Host⦄ where
  pub record ProtonNft : Type 0 where
    pub storage : host.Storage
    pub name : List ℕ
    pub symbol : List ℕ
    pub total_supply : U256

  -- `new`, on the storage as the contract finds it
  unfoldable pub new_nft : host.Storage → List ℕ → List ℕ → ProtonNft
  new_nft storage name symbol = record {
    storage = storage;
    name = name;
    symbol = symbol;
    total_supply = zero_u256;
  }

  module _ ⦃json_id : Json U256⦄ ⦃json_token : Json TokenData⦄ where
    -- the token with the given number
    abbrev pub token : U256 → ProtonNft → Option TokenData
    token token_id c = Map.get token_id c.storage

    -- `get_metadata`
    unfoldable pub get_metadata : U256 → ProtonNft → Option (List ℕ)
    get_metadata token_id c = elim (token token_id c) [
      | none ↦ none
      | some t ↦ some t.public_metadata
    ]

    -- `is_private`
    unfoldable pub is_private : U256 → ProtonNft → Bool
    is_private token_id c = elim (token token_id c) [ none ↦ false | some t ↦ t.is_private ]

    -- `mint`
    unfoldable pub mint :
        ⦃json_address : Json Address⦄
        → Bool
        → ℕ
        → Address
        → List ℕ
        → ProtonNft
        → Option (U256 × ProtonNft × List Event)
    unfolding add zero_hash
    mint is_owner now to metadata c =
        let token_id = add c.total_supply one_u256 in
        let t : TokenData = record {
          token_id = token_id;
          public_metadata = metadata;
          encrypted_metadata_hash = zero_hash;
          is_private = false;
          created_at = now;
        } in
        if not is_owner
        then none
        else some (
          token_id,
          record c {
            total_supply = token_id;
            storage = Map.insert token_id to (Map.insert token_id t c.storage);
          },
          Event.minted token_id to false ∷ [],
        )

    -- `mint_private`
    unfoldable pub mint_private :
        ⦃h : Hasher⦄ ⦃json_stealth : Json StealthAddress⦄ ⦃json_bytes : Json (List ℕ)⦄
        → (List ℕ → Hash → List ℕ → Bool)
        → Bool
        → ℕ
        → StealthAddress
        → List ℕ
        → Hash
        → List ℕ
        → ProtonNft
        → Option (U256 × ProtonNft × List Event)
    unfolding add
    mint_private verify_metadata_proof is_owner now to_stealth encrypted_metadata metadata_hash
          zk_proof c =
        let token_id = add c.total_supply one_u256 in
        let t : TokenData = record {
          token_id = token_id;
          public_metadata = [];
          encrypted_metadata_hash = metadata_hash;
          is_private = true;
          created_at = now;
        } in
        if not is_owner || not (verify_metadata_proof zk_proof metadata_hash encrypted_metadata)
        then none
        else some (
          token_id,
          record c {
            total_supply = token_id;
            storage =
                Map.insert token_id encrypted_metadata
                  (Map.insert token_id to_stealth (Map.insert token_id t c.storage));
          },
          Event.minted token_id (or_zero_address none) true ∷ [],
        )

    -- `private_transfer`
    unfoldable pub private_transfer :
        {Proof : Type 0} ⦃json_stealth : Json StealthAddress⦄ ⦃json_hash : Json Hash⦄
        → (Proof → U256 → StealthAddress → Hash → Bool)
        → U256
        → StealthAddress
        → Proof
        → Hash
        → ProtonNft
        → Option (ProtonNft × List Event)
    private_transfer verify_ownership_proof token_id to_stealth proof nullifier c =
        elim (token token_id c) [
          | none ↦ none
          | some t ↦ elim (Map.get {V = StealthAddress} token_id c.storage) [
            | none ↦ none
            | some current ↦
                if not t.is_private
                  || not (verify_ownership_proof proof token_id current nullifier)
                  || Set.contains nullifier c.storage
                then none
                else some (
                  record c {
                    storage = Map.insert token_id to_stealth (Set.insert nullifier c.storage);
                  },
                  Event.private_transferred token_id nullifier to_stealth ∷ [],
                )
          ]
        ]

  -- `get_encrypted_metadata`
  unfoldable pub get_encrypted_metadata :
      ⦃json_id : Json U256⦄ ⦃json_bytes : Json (List ℕ)⦄ → U256 → ProtonNft → Option (List ℕ)
  get_encrypted_metadata token_id c = Map.get token_id c.storage

  -- `set_approval_for_all`
  unfoldable pub set_approval_for_all :
      ⦃json_pair : Json (Address × Address)⦄ ⦃json_bool : Json Bool⦄
      → Address
      → Address
      → Bool
      → ProtonNft
      → ProtonNft
  set_approval_for_all caller operator approved c = record c {
    storage = Map.insert {K = Address × Address} (caller, operator) approved c.storage;
  }

  module _ ⦃json_id : Json U256⦄ ⦃json_address : Json Address⦄ where
    -- `owner_of`
    unfoldable pub owner_of : U256 → ProtonNft → Option Address
    owner_of token_id c = Map.get token_id c.storage

    -- `approve`
    unfoldable pub approve : Address → Address → U256 → ProtonNft → Option (ProtonNft × List Event)
    unfolding owner_of
    approve caller to token_id c = elim (owner_of token_id c) [
      | none ↦ none
      | some owner ↦
          if owner == caller
          then some (
            record c { storage = Map.insert token_id to c.storage },
            Event.approval owner to token_id ∷ [],
          )
          else none
    ]

    -- `is_approved_or_owner`
    unfoldable pub is_approved_or_owner :
        ⦃h : Hasher⦄ ⦃json_pair : Json (Address × Address)⦄ ⦃json_bool : Json Bool⦄
        → Address
        → U256
        → ProtonNft
        → Bool
    unfolding owner_of
    is_approved_or_owner spender token_id c =
        is_address spender (owner_of token_id c)
        || is_address spender (Map.get {V = Address} token_id c.storage)
        || or_false (
            Map.get {K = Address × Address} (or_zero_address (owner_of token_id c), spender)
              c.storage)

    -- `transfer`
    unfoldable pub transfer :
        ⦃h : Hasher⦄ ⦃json_token : Json TokenData⦄ ⦃json_pair : Json (Address × Address)⦄
        ⦃json_bool : Json Bool⦄
        → Address
        → Address
        → U256
        → ProtonNft
        → Option (ProtonNft × List Event)
    unfolding is_approved_or_owner
    transfer from to token_id c = elim (token token_id c) [
      | none ↦ none
      | some t ↦
          if not (is_approved_or_owner from token_id c) || t.is_private
          then none
          else some (
            record c { storage = Map.remove token_id (Map.insert token_id to c.storage) },
            Event.transferred (some from) (some to) token_id ∷ [],
          )
    ]
