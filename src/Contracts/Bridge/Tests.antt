-- ===== src/Contracts/Bridge/Tests.antt =====
-- The bridge on concrete values.
use protonchain.Base.{suc, ℕ, zero, ◌≡◌, ◌≢◌, refl, true, none, some, List, [], arith}
use protonchain.Base.HashMap
use protonchain.Fixtures.{address, hash, low_hasher}
use protonchain.Types.{le_bytes, Hash, Address, StealthAddress}
use protonchain.Sdk.Host.{Json}
use protonchain.Sdk.Map
use protonchain.Sdk.Serial.{
  Serial, number, both, through, boolean, list, option, bytes, address_form, hash_form, tagged,
}
use protonchain.Sdk.Examples.{table_host}
use protonchain.Contracts.Bridge.{
  ChainConfig, ValidatorInfo, PendingTransfer, TransferStatus, ProtonBridge, new_chain,
}
use protonchain.Contracts.Bridge.Transfers.{new_transfer, execute_transfer, get_transfer_status}
use protonchain.Contracts.Bridge.Signatures.{sign_times, sign_times_lem}
use protonchain.Contracts.Bridge.Execution.{execute_transfer_reverts}

instance abbrev number_json : Json ℕ
number_json = tagged 1 number

instance abbrev address_json : Json Address
address_json = tagged 2 address_form

instance abbrev hash_json : Json Hash
hash_json = tagged 3 hash_form

instance abbrev asset_json : Json (ℕ × Address)
asset_json = tagged 4 (both number address_form)

instance abbrev chain_json : Json ChainConfig
chain_json = tagged 5 (
    through (both (both number address_form) (both boolean (both number number)))
      (λ c. ((c.chain_id, c.bridge_contract), (c.is_active, (c.gas_limit, c.confirmation_blocks))))
      (λ t. record {
        chain_id = t.0.0;
        bridge_contract = t.0.1;
        is_active = t.1.0;
        gas_limit = t.1.1.0;
        confirmation_blocks = t.1.1.1;
      })
      (λ c. refl))

instance abbrev validator_json : Json ValidatorInfo
validator_json = tagged 6 (
    through (both (both address_form number) (both boolean number))
      (λ v. ((v.address, v.stake), (v.is_active, v.last_signature)))
      (λ t. record { address = t.0.0; stake = t.0.1; is_active = t.1.0; last_signature = t.1.1 })
      (λ v. refl))

abbrev status_number : TransferStatus → ℕ
status_number TransferStatus.pending = 0
status_number TransferStatus.source_confirmed = 1
status_number TransferStatus.signatures_complete = 2
status_number TransferStatus.executed = 3
status_number TransferStatus.failed = 4

abbrev read_status : ℕ → TransferStatus
read_status zero = TransferStatus.pending
read_status (suc zero) = TransferStatus.source_confirmed
read_status (suc (suc zero)) = TransferStatus.signatures_complete
read_status (suc (suc (suc zero))) = TransferStatus.executed
read_status _ = TransferStatus.failed

read_status-status_number : (s : TransferStatus) → read_status (status_number s) ≡ s
read_status-status_number TransferStatus.pending = refl
read_status-status_number TransferStatus.source_confirmed = refl
read_status-status_number TransferStatus.signatures_complete = refl
read_status-status_number TransferStatus.executed = refl
read_status-status_number TransferStatus.failed = refl

abbrev stealth_form : Serial StealthAddress
stealth_form =
    through (both bytes bytes) (λ s. (s.ephemeral_pubkey, s.encrypted_view_tag))
      (λ t. record { ephemeral_pubkey = t.0; encrypted_view_tag = t.1 }) (λ s. refl)

abbrev transfer_form : Serial PendingTransfer
transfer_form =
    through
      (both (both (both hash_form number) (both number address_form)) (
        both (both address_form (both address_form number)) (
          both
            (both (list (both address_form bytes))
              (through number status_number read_status read_status-status_number))
            (both number (both (option bytes) (option stealth_form))))))
      (λ t. (
        ((t.transfer_id, t.source_chain), (t.target_chain, t.sender)),
        (
          (t.receiver, (t.asset, t.amount)),
          ((t.signatures, t.status), (t.timestamp, (t.encrypted_amount, t.stealth_receiver))),
        ),
      ))
      (λ p. record {
        transfer_id = p.0.0.0;
        source_chain = p.0.0.1;
        target_chain = p.0.1.0;
        sender = p.0.1.1;
        receiver = p.1.0.0;
        asset = p.1.0.1.0;
        amount = p.1.0.1.1;
        signatures = p.1.1.0.0;
        status = p.1.1.0.1;
        timestamp = p.1.1.1.0;
        encrypted_amount = p.1.1.1.1.0;
        stealth_receiver = p.1.1.1.1.1;
      })
      (λ t. refl)

instance abbrev transfer_json : Json PendingTransfer
transfer_json = tagged 7 transfer_form

abbrev json_vec : {A : Type 0} → Json A → A → List ℕ
json_vec json a = json.to_vec a

abbrev empty_bridge : ProtonBridge
empty_bridge = record { storage = []; validator_threshold = 3; zk_vk = [] }

abbrev transfer : PendingTransfer
transfer = new_transfer (hash 8) 1 2 (address 1) (address 4) (address 5) 70 9

abbrev signer : ValidatorInfo
signer = record { address = address 3; stake = 10; is_active = true; last_signature = 0 }

-- chain 2 is known, 30 of token 5 are locked for it, address 3 is a validator, transfer 8 is pending
abbrev bridge : ProtonBridge
bridge = record empty_bridge {
  storage = Map.insert {K = ℕ} 2 (new_chain 2 (address 6) 12) (
      Map.insert {K = ℕ × Address} {V = ℕ} (2, address 5) 30
        (Map.insert (address 3) signer (Map.insert (hash 8) transfer [])));
}

hash_apart_address : json_vec hash_json (hash 8) ≢ json_vec address_json (address 3)
hash_apart_address = λ e. cc

sign_times_lem_example :
    (c' : ProtonBridge) × (sign_times
        (λ a id s. true)
        (λ p id. true)
        (address 3)
        (hash 8)
        []
        []
        3
        bridge
      ≡ some c')
    × (get_transfer_status (hash 8) c' ≡ some TransferStatus.signatures_complete)
unfolding Map.get Map.insert HashMap.get HashMap.insert le_bytes
sign_times_lem_example =
    sign_times_lem (λ a id s. true) (λ p id. true) (address 3) (hash 8) [] [] hash_apart_address
      refl refl 2 signer transfer bridge refl refl refl refl refl (omega arith)

execute_transfer_reverts_example : execute_transfer 2 (hash 8) bridge ≡ none
execute_transfer_reverts_example = execute_transfer_reverts 2 (hash 8) bridge
