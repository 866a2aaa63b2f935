-- ===== src/Privacy/Proofs.antt =====
-- `ZkProtonSystem` and `PrivacyTxBuilder` of src/privacy/mod.rs. Groth16 is arkworks': a parameter.
use protonchain.Base.{
  Option-cases, ℕ, ◌+◌, ◌*◌, ◌%◌, ◌^◌, ◌≡◌, ◌⊎◌, inl, inr, Bool, Option, none, some, List, [], ◌∷◌,
  map, replicate,
}
use protonchain.Types.{Address, StealthAddress, Transaction, TransactionType}
use protonchain.Privacy.Circuit.{PrimeField, PrivateTransferCircuit, transfer_circuit}
use protonchain.Privacy.Amount.{encrypt_amount}

pub record Groth16 ⦃field : PrimeField⦄ : Type 1 where
  pub ProvingKey : Type 0
  pub VerifyingKey : Type 0
  pub Proof : Type 0
  pub circuit_specific_setup : PrivateTransferCircuit → Option (ProvingKey × VerifyingKey)
  pub prove : List ℕ → ProvingKey → PrivateTransferCircuit → Option Proof
  pub verify : VerifyingKey → List field.F → Proof → Option Bool

pub record ZkProof : Type 0 where
  pub proof_data : List ℕ
  pub public_inputs : List ℕ

pub record ZkStats : Type 0 where
  pub proofs_generated : ℕ
  pub proofs_verified : ℕ

-- the messages of the errors
pub data ZkError : Type 0 where
  setup_failed : ZkError
  no_proving_key : ZkError
  proof_failed : ZkError
  no_verifying_key : ZkError
  not_deserialized : ZkError
  verification_failed : ZkError

module _ ⦃field : PrimeField⦄ ⦃groth : Groth16⦄ where
  pub record ZkProtonSystem : Type 0 where
    pub proving_key : Option groth.ProvingKey
    pub verifying_key : Option groth.VerifyingKey
    pub proof_count : ℕ
    pub verification_count : ℕ

  -- `new`
  abbrev pub new_system : ZkProtonSystem
  new_system = record {
    proving_key = none;
    verifying_key = none;
    proof_count = 0;
    verification_count = 0;
  }

  -- `setup`, with the error if there is one
  unfoldable pub setup : ZkProtonSystem → Option ZkError × ZkProtonSystem
  setup s =
      let dummy : PrivateTransferCircuit = record {
        sender_balance = some (field.from 1_000);
        transfer_amount = some (field.from 100);
        receiver_secret = some (field.from 42);
        sender_secret = some (field.from 123);
        sender_commitment = some (field.from 123_000);
        receiver_commitment = some (field.from 4_200);
        nullifier = some (field.from 123);
        merkle_root = some (field.from 0);
      } in
      elim (groth.circuit_specific_setup dummy) [
        | none ↦ (some ZkError.setup_failed, s)
        | some (pk, vk) ↦ (none, record s { proving_key = some pk; verifying_key = some vk })
      ]

  -- `serialize_proof`
  unfoldable pub serialize_proof : groth.Proof → List ℕ
  serialize_proof proof = replicate 192 1

  -- `deserialize_proof`
  unfoldable pub deserialize_proof : List ℕ → ZkError ⊎ groth.Proof
  deserialize_proof bytes = inl ZkError.not_deserialized

  -- `prove_private_transfer`, with the randomness of the proof
  unfoldable pub prove_private_transfer :
      List ℕ → ℕ → ℕ → ℕ → ℕ → List ℕ → ZkProtonSystem → (ZkError ⊎ ZkProof) × ZkProtonSystem
  unfolding transfer_circuit serialize_proof
  prove_private_transfer random sender_balance transfer_amount sender_secret receiver_secret
        merkle_root s =
      elim s.proving_key [
        | none ↦ (inl ZkError.no_proving_key, s)
        | some pk ↦
            elim (groth.prove random pk
              (transfer_circuit sender_balance transfer_amount sender_secret receiver_secret)) [
                | none ↦ (inl ZkError.proof_failed, s)
                | some proof ↦ (
                  inr (record {
                    proof_data = serialize_proof proof;
                    public_inputs =
                        (sender_secret * sender_balance % 2 ^ 128)
                        ∷ (receiver_secret * transfer_amount % 2 ^ 128)
                        ∷ sender_secret
                        ∷ 0
                        ∷ [];
                  }),
                  record s { proof_count = (s.proof_count + 1) % 2 ^ 64 },
                )
              ]
      ]

  -- `verify_proof`
  unfoldable pub verify_proof : ZkProof → ZkProtonSystem → (ZkError ⊎ Bool) × ZkProtonSystem
  unfolding deserialize_proof
  verify_proof p s = elim s.verifying_key [
    | none ↦ (inl ZkError.no_verifying_key, s)
    | some vk ↦ elim (deserialize_proof p.proof_data) [
      | inl error ↦ (inl error, s)
      | inr proof ↦ elim (groth.verify vk (map field.from p.public_inputs) proof) [
        | none ↦ (inl ZkError.verification_failed, s)
        | some result ↦
            (inr result, record s { verification_count = (s.verification_count + 1) % 2 ^ 64 })
      ]
    ]
  ]

  -- `get_stats`
  abbrev pub get_stats : ZkProtonSystem → ZkStats
  get_stats s = record { proofs_generated = s.proof_count; proofs_verified = s.verification_count }

  -- `build_private_transfer`, at the time `now`
  unfoldable pub build_private_transfer :
      List ℕ
      → ℕ
      → Address
      → StealthAddress
      → ℕ
      → ℕ
      → ℕ
      → ℕ
      → ℕ
      → ℕ
      → ℕ
      → ZkProtonSystem
      → (ZkError ⊎ Transaction) × ZkProtonSystem
  unfolding prove_private_transfer encrypt_amount
  build_private_transfer random now from to_stealth amount sender_balance sender_secret
        receiver_secret gas_price gas_limit shard_id s =
      let (result, s') =
        prove_private_transfer random sender_balance amount sender_secret receiver_secret
          (replicate 32 0) s in
      elim result [
        | inl error ↦ (inl error, s')
        | inr proof ↦ (
          inr (record {
            tx_type = TransactionType.private_transfer;
            nonce = 0;
            from = from;
            to = none;
            value = 0;
            gas_price = gas_price;
            gas_limit = gas_limit;
            payload = [];
            shard_id = shard_id;
            timestamp = now;
            signature = [];
            stealth_address = some to_stealth;
            zk_proof = some proof.proof_data;
            encrypted_amount = some (encrypt_amount amount sender_secret);
          }),
          s',
        )
      ]

  -- No proof is ever verified: whatever the keys are, the verification of any proof is an error, and
  -- it counts nothing.
  pub verify_proof-fails :
      (p : ZkProof) (s : ZkProtonSystem) → (error : ZkError) × (verify_proof p s ≡ (inl error, s))
  unfolding verify_proof
  verify_proof-fails p s = elim (Option-cases s.verifying_key) [
    | inl missing ↦ (ZkError.no_verifying_key, simp (verify_proof, missing))
    | inr (vk, known) ↦ (ZkError.not_deserialized, simp (verify_proof, known))
  ]
