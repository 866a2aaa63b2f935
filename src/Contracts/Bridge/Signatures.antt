-- ===== src/Contracts/Bridge/Signatures.antt =====
-- The signatures of `sign_transfer` in contracts/bridge.rs.
use protonchain.Base.{
  ◌∷◌, [], false, refl, ◌∙◌, ◌+◌, ◌<◌, ◌^◌, ◌%◌, length-append, length, arith, ◌∙◌, length, zero,
  ◌≢◌, ◌≢◌, ℕ, suc, ◌%◌, ◌^◌, ◌≡◌, Bool, true, Option, none, some, List, ltb,
}
use protonchain.Types.{Hash, Address}
use protonchain.Sdk.Host.{Host, Json}
use protonchain.Sdk.Map
use protonchain.Contracts.Bridge.{
  signed, signable, PendingTransfer, TransferStatus, ValidatorInfo, Effect, ProtonBridge,
}
use protonchain.Contracts.Bridge.Transfers.{get_transfer_status, sign_transfer}

module _ ⦃host : Host⦄ ⦃json_number : Json ℕ⦄ ⦃json_hash : Json Hash⦄
    ⦃json_transfer : Json PendingTransfer⦄ ⦃json_address : Json Address⦄
    ⦃json_validator : Json ValidatorInfo⦄ (verify_signature : Address → Hash → List ℕ → Bool)
    (verify_merkle : List ℕ → Hash → Bool) (caller : Address) (id : Hash)
    (signature merkle_proof : List ℕ) where
  -- `count` calls of one validator with the same signature
  unfoldable pub sign_times : ℕ → ProtonBridge → Option ProtonBridge
  sign_times zero c = some c
  sign_times (suc count) c =
      elim (sign_transfer verify_signature verify_merkle caller id signature merkle_proof c) [
        | none ↦ none
        | some (c', _) ↦ sign_times count c'
      ]

  module _ (apart : json_hash.to_vec id ≢ json_address.to_vec caller)
      (valid : verify_signature caller id signature ≡ true)
      (proved : verify_merkle merkle_proof id ≡ true) where
    -- A valid signature of an active validator is taken and kept, whoever signed before, and the
    -- validator stays as it is.
    pub sign_transfer_lem :
        (info : ValidatorInfo) (transfer : PendingTransfer) (c : ProtonBridge)
        → info.is_active ≡ true
        → signable transfer.status ≡ true
        → Map.get caller c.storage ≡ some info
        → Map.get id c.storage ≡ some transfer
        → (c' : ProtonBridge) × (es : List Effect) × (sign_transfer verify_signature verify_merkle
              caller id signature merkle_proof c
            ≡ some (c', es))
          × (Map.get id c'.storage ≡ some (signed c.validator_threshold caller signature transfer))
          × (Map.get caller c'.storage ≡ some info)
          × (c'.validator_threshold ≡ c.validator_threshold)
    unfolding sign_transfer
    sign_transfer_lem info transfer c active taking here found =
        let after = signed c.validator_threshold caller signature transfer in
        (
          record c { storage = Map.insert id after c.storage },
          Effect.transfer_signed id caller (length after.signatures % 2 ^ 16) ∷ [],
          rw (sign_transfer, here, found, active, taking, valid, proved) refl,
          Map.get-insert_self id after c.storage,
          Map.get-insert_other id caller apart c.storage after ∙ here,
          refl,
        )

    length-signed :
        (threshold : ℕ) (transfer : PendingTransfer)
        → length (signed threshold caller signature transfer).signatures
          ≡ length transfer.signatures + 1
    unfolding signed
    length-signed threshold transfer = length-append transfer.signatures ((caller, signature) ∷ [])

    signed-source_confirmed :
        (threshold : ℕ) (transfer : PendingTransfer)
        → length transfer.signatures + 1 < threshold
        → threshold < 2 ^ 16
        → signable (signed threshold caller signature transfer).status ≡ true
    unfolding signed
    signed-source_confirmed threshold transfer few fits =
        let low : ltb ((length transfer.signatures + 1) % 2 ^ 16) threshold ≡ true = ground arith in
        rw (length-append transfer.signatures ((caller, signature) ∷ []), low) refl

    signed-signatures_complete :
        (threshold : ℕ) (transfer : PendingTransfer)
        → length transfer.signatures + 1 ≡ threshold
        → threshold < 2 ^ 16
        → (signed threshold caller signature transfer).status ≡ TransferStatus.signatures_complete
    unfolding signed
    signed-signatures_complete threshold transfer last fits =
        let low : ltb ((length transfer.signatures + 1) % 2 ^ 16) threshold ≡ false =
          ground arith in
        rw (length-append transfer.signatures ((caller, signature) ∷ []), low) refl

    -- One validator completes a transfer alone, by as many calls with the same signature as the
    -- threshold lacks signatures.
    pub sign_times_lem :
        (count : ℕ) (info : ValidatorInfo) (transfer : PendingTransfer) (c : ProtonBridge)
        → info.is_active ≡ true
        → signable transfer.status ≡ true
        → Map.get caller c.storage ≡ some info
        → Map.get id c.storage ≡ some transfer
        → length transfer.signatures + suc count ≡ c.validator_threshold
        → c.validator_threshold < 2 ^ 16
        → (c' : ProtonBridge) × (sign_times (suc count) c ≡ some c')
          × (get_transfer_status id c' ≡ some TransferStatus.signatures_complete)
    unfolding sign_times get_transfer_status
    sign_times_lem zero info transfer c active taking here found lacking fits =
        let (c', es, runs, kept, _, _) =
          sign_transfer_lem info transfer c active taking here found in
        let last = signed-signatures_complete c.validator_threshold transfer (omega arith) fits in
        (c', rw (sign_times, runs) refl, rw (get_transfer_status, kept, last) refl)
    sign_times_lem (suc count) info transfer c active taking here found lacking fits =
        let after = signed c.validator_threshold caller signature transfer in
        let (c', es, runs, kept, still, same) =
          sign_transfer_lem info transfer c active taking here found in
        let (c'', rest, complete) =
          sign_times_lem count info after c' active
            (signed-source_confirmed c.validator_threshold transfer (omega arith) fits) still kept
            (rw (same, length-signed c.validator_threshold transfer) (omega arith))
            (rw same fits) in
        (c'', rw (sign_times, runs) rest, complete)
