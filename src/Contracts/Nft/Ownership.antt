-- ===== src/Contracts/Nft/Ownership.antt =====
-- Who owns a token of contracts/nft.rs. The tokens, their owners, the private owners, the encrypted
-- metadata and the approvals share their keys, the numbers of the tokens.
use protonchain.Base.{
  subst, arith, ◌∙◌, ℕ, ◌≡◌, refl, Bool, true, false, none, some, List, ◌==◌, inl, inr, Bool-cases,
  Option-cases, ap,
}
use protonchain.Types.{Hasher, Address, address_key, same_address_iff, zero_hash}
use protonchain.Sdk.Host.{Host, Json}
use protonchain.Sdk.Map
use protonchain.Sdk.U256.{U256, add, one_u256}
use protonchain.Contracts.Nft.{TokenData, Event, ProtonNft, mint, owner_of, approve, transfer}

module _ ⦃host : Host⦄ ⦃json_id : Json U256⦄ ⦃json_address : Json Address⦄ where
  -- An approval succeeds exactly for the owner, and makes the approved address the owner: the
  -- approvals and the owners have the same keys.
  pub owner_of-approve :
      (caller to : Address) (token_id : U256) (c c' : ProtonNft) (es : List Event)
      → approve caller to token_id c ≡ some (c', es)
      → (owner_of token_id c ≡ some caller) × (owner_of token_id c' ≡ some to)
  unfolding approve owner_of
  owner_of-approve caller to token_id c c' es e = elim (Option-cases (owner_of token_id c)) [
    | inl nobody ↦ cc
    | inr (owner, owned) ↦ elim (Bool-cases (owner == caller)) [
      | inl same ↦
          let is : owner ≡ caller = ground (arith, same_address_iff owner caller) in
          let made : c' ≡ record c { storage = Map.insert token_id to c.storage } = cc in
          (owned ∙ ap some is, rw (made, owner_of) (Map.get-insert_self token_id to c.storage))
      | inr other ↦ cc
    ]
  ]

  module _ ⦃json_token : Json TokenData⦄ where
    -- A token that was minted cannot be transferred: the entry of its owner takes the place of the
    -- token's own. (The form of an address is not read as a token.)
    pub transfer-mint :
        ⦃h : Hasher⦄ ⦃json_pair : Json (Address × Address)⦄ ⦃json_bool : Json Bool⦄
        → (to : Address) → json_token.from_slice (json_address.to_vec to) ≡ none
        → (now : ℕ) (metadata : List ℕ) (c : ProtonNft) (token_id : U256) (c' : ProtonNft)
          (es : List Event)
        → mint true now to metadata c ≡ some (token_id, c', es)
        → (from next : Address)
        → (owner_of token_id c' ≡ some to) × (transfer from next token_id c' ≡ none)
    unfolding mint owner_of transfer
    transfer-mint to unread now metadata c token_id c' es e from next =
        let id : U256 = add c.total_supply one_u256 in
        let t : TokenData = record {
          token_id = id;
          public_metadata = metadata;
          encrypted_metadata_hash = zero_hash;
          is_private = false;
          created_at = now;
        } in
        let is : id ≡ token_id = cc in
        let stored = Map.insert id to (Map.insert id t c.storage) in
        let made : c' ≡ record c { total_supply = id; storage = stored } = cc in
        let kept : c'.storage ≡ stored = ap (λ d. d.storage) made in
        let overwritten : Map.get {V = TokenData} id c'.storage ≡ none =
          rw kept (Map.get-insert_unread id to (Map.insert id t c.storage) unread) in
        subst (λ n. (owner_of n c' ≡ some to) × (transfer from next n c' ≡ none)) is
          (
            rw (owner_of, kept) (Map.get-insert_self id to (Map.insert id t c.storage)),
            rw (transfer, overwritten) refl,
          )
