-- ===== src/Contracts/Bridge/Chains.antt =====
-- The chains and the assets of contracts/bridge.rs. The configurations of the chains and the Merkle
-- roots share their keys, and so do the wrapped and the locked assets.
use protonchain.Base.{
  ap, ◌∙◌, ℕ, ◌+◌, ◌%◌, ◌^◌, ◌≡◌, ◌≢◌, refl, Bool, none, some, List, ◌||◌, not, inl, inr,
  Bool-cases, Option-cases,
}
use protonchain.Types.{Hash, Hasher, Address}
use protonchain.Sdk.Host.{Host, Json}
use protonchain.Sdk.Map
use protonchain.Sdk.Set
use protonchain.Contracts.Staking.{or_zero}
use protonchain.Contracts.Bridge.{
  generate_transfer_id, ChainConfig, PendingTransfer, TransferStatus, Effect, ProtonBridge,
  update_merkle_root, get_locked_amount,
}
use protonchain.Contracts.Bridge.Transfers.{new_transfer, initiate_transfer, get_transfer_status}

module _ ⦃host : Host⦄ ⦃json_number : Json ℕ⦄ ⦃json_hash : Json Hash⦄
    ⦃json_chain : Json ChainConfig⦄ ⦃json_transfer : Json PendingTransfer⦄
    ⦃json_asset : Json (ℕ × Address)⦄ where
  initiate_transfer-some :
      ⦃h : Hasher⦄ (this_chain now : ℕ) (random : List ℕ) (caller : Address) (target_chain : ℕ)
      (receiver asset : Address) (amount : ℕ) (c : ProtonBridge) (id : Hash) (c' : ProtonBridge)
      (es : List Effect)
      → initiate_transfer this_chain now random caller target_chain receiver asset amount c
        ≡ some (id, c', es)
      → (t : PendingTransfer) × (t.status ≡ TransferStatus.pending)
        × (c' ≡ record c {
          storage = Map.insert id t (
              Map.insert {K = ℕ × Address}
                (target_chain, asset)
                ((get_locked_amount target_chain asset c + amount) % 2 ^ 128)
                c.storage);
        })
  unfolding initiate_transfer get_locked_amount
  initiate_transfer-some this_chain now random caller target_chain receiver asset amount c id c' es
        e =
      elim (Option-cases (Map.get {V = ChainConfig} target_chain c.storage)) [
        | inl unknown ↦ cc
        | inr (chain, known) ↦
            elim (Bool-cases (
              not chain.is_active
              || Set.contains
                  (generate_transfer_id target_chain caller receiver asset amount now random)
                  c.storage)) [
                    | inl refused ↦ cc
                    | inr taken ↦ (
                      new_transfer id this_chain target_chain caller receiver asset amount now,
                      refl,
                      cc,
                    )
                  ]
      ]

  -- A transfer that is initiated adds its amount to what is locked for its target chain and its
  -- asset, and is pending.
  pub initiate_transfer_lem :
      ⦃h : Hasher⦄
      → ((id : Hash) (key : ℕ × Address) → json_hash.to_vec id ≢ json_asset.to_vec key)
      → (this_chain now : ℕ) (random : List ℕ) (caller : Address) (target_chain : ℕ)
        (receiver asset : Address) (amount : ℕ) (c : ProtonBridge) (id : Hash) (c' : ProtonBridge)
        (es : List Effect)
      → initiate_transfer this_chain now random caller target_chain receiver asset amount c
        ≡ some (id, c', es)
      → (get_locked_amount target_chain asset c'
          ≡ (get_locked_amount target_chain asset c + amount) % 2 ^ 128)
        × (get_transfer_status id c' ≡ some TransferStatus.pending)
  unfolding get_locked_amount get_transfer_status
  initiate_transfer_lem apart this_chain now random caller target_chain receiver asset amount c id
        c' es e =
      let (t, is_pending, made) =
        initiate_transfer-some this_chain now random caller target_chain receiver asset amount c id
          c' es e in
      (
        rw made (
            ap or_zero (
              Map.get-insert_other id (target_chain, asset) (apart id (target_chain, asset)) _ t
              ∙ Map.get-insert_self {K = ℕ × Address} (target_chain, asset) _ c.storage)),
        let found : Map.get id c'.storage ≡ some t = rw made (Map.get-insert_self id t _) in
            rw (get_transfer_status, found) (ap some is_pending),
      )

  -- Once the root of a chain is updated, no transfer to that chain can be initiated: the root
  -- takes the place of the chain's configuration. (A hash is not read as a configuration.)
  pub initiate_transfer-update_merkle_root :
      ⦃h : Hasher⦄
      → (root : Hash) → json_chain.from_slice (json_hash.to_vec root) ≡ none
      → (verify : List ℕ → ℕ → Hash → Bool) (chain_id : ℕ) (proof : List ℕ) (c c' : ProtonBridge)
      → update_merkle_root verify chain_id root proof c ≡ some c'
      → (this_chain now : ℕ) (random : List ℕ) (caller receiver asset : Address) (amount : ℕ)
      → initiate_transfer this_chain now random caller chain_id receiver asset amount c' ≡ none
  unfolding update_merkle_root initiate_transfer
  initiate_transfer-update_merkle_root root unread verify chain_id proof c c' e this_chain now
        random caller receiver asset amount =
      elim (Bool-cases (verify proof chain_id root)) [
        | inl valid ↦
            let made : c' ≡ record c { storage = Map.insert chain_id root c.storage } = cc in
            let overwritten : Map.get {V = ChainConfig} chain_id c'.storage ≡ none =
              rw made (Map.get-insert_unread chain_id root c.storage unread) in
            rw (initiate_transfer, overwritten) refl
        | inr refused ↦ cc
      ]
