-- ===== src/Privacy/Circuit.antt =====
-- `PrivateTransferCircuit` of src/privacy/mod.rs. The field is arkworks': a parameter, with what the
-- circuit uses of it.
use protonchain.Base.{
  ◌∙◌, ℕ, ◌*◌, ◌%◌, ◌^◌, ◌<◌, ◌≡◌, refl, ap, sym, Option, some, List, [], ◌∷◌, arith, ◌>>=◌,
}

-- `PrimeField`: `from` for integers is a homomorphism, and 1 is a unit of the product.
pub record PrimeField : Type 1 where
  pub F : Type 0
  pub from : ℕ → F
  pub mul : F → F → F
  pub from-mul : (a b : ℕ) → from (a * b) ≡ mul (from a) (from b)
  pub mul_one : (x : F) → mul x (from 1) ≡ x

module _ ⦃field : PrimeField⦄ where
  pub record PrivateTransferCircuit : Type 0 where
    pub sender_balance : Option field.F
    pub transfer_amount : Option field.F
    pub receiver_secret : Option field.F
    pub sender_secret : Option field.F
    pub sender_commitment : Option field.F
    pub receiver_commitment : Option field.F
    pub nullifier : Option field.F
    pub merkle_root : Option field.F

  -- the equations that `generate_constraints` enforces, in its order, of the values in its order
  unfoldable pub constraints :
      field.F
      → field.F
      → field.F
      → field.F
      → field.F
      → field.F
      → field.F
      → field.F
      → List (field.F × field.F)
  constraints sender_balance transfer_amount sender_secret receiver_secret sender_commitment
        receiver_commitment nullifier merkle_root =
      (field.mul sender_secret sender_balance, sender_commitment)
      ∷ (field.mul receiver_secret transfer_amount, receiver_commitment)
      ∷ (field.mul sender_secret (field.from 1), nullifier)
      ∷ (merkle_root, merkle_root)
      ∷ []

  -- `generate_constraints`; a missing value is an error
  unfoldable pub generate_constraints : PrivateTransferCircuit → Option (List (field.F × field.F))
  unfolding constraints
  generate_constraints c = do
    sender_balance ← c.sender_balance
    transfer_amount ← c.transfer_amount
    sender_secret ← c.sender_secret
    receiver_secret ← c.receiver_secret
    sender_commitment ← c.sender_commitment
    receiver_commitment ← c.receiver_commitment
    nullifier ← c.nullifier
    merkle_root ← c.merkle_root
    some (
        constraints sender_balance transfer_amount sender_secret receiver_secret sender_commitment
          receiver_commitment nullifier merkle_root)

  -- All equations hold.
  abbrev pub Satisfied : List (field.F × field.F) → Type 0
  Satisfied [] = Unit
  Satisfied ((x, y) ∷ rest) = (x ≡ y) × Satisfied rest

  -- the circuit that `prove_private_transfer` fills
  unfoldable pub transfer_circuit : ℕ → ℕ → ℕ → ℕ → PrivateTransferCircuit
  transfer_circuit sender_balance transfer_amount sender_secret receiver_secret = record {
    sender_balance = some (field.from sender_balance);
    transfer_amount = some (field.from transfer_amount);
    receiver_secret = some (field.from receiver_secret);
    sender_secret = some (field.from sender_secret);
    sender_commitment = some (field.from (sender_secret * sender_balance % 2 ^ 128));
    receiver_commitment = some (field.from (receiver_secret * transfer_amount % 2 ^ 128));
    nullifier = some (field.from sender_secret);
    merkle_root = some (field.from 0);
  }

  -- The circuit of a transfer is satisfied for every balance and every amount, an amount above the
  -- balance included: the balance is not compared with the amount. (The products fit into `u128`.)
  pub transfer_circuit-Satisfied :
      (sender_balance transfer_amount sender_secret receiver_secret : ℕ)
      → sender_secret * sender_balance < 2 ^ 128
      → receiver_secret * transfer_amount < 2 ^ 128
      → (equations : List (field.F × field.F)) × (generate_constraints
            (transfer_circuit sender_balance transfer_amount sender_secret receiver_secret)
          ≡ some equations)
        × Satisfied equations
  unfolding generate_constraints transfer_circuit constraints
  transfer_circuit-Satisfied balance amount secret receiver fits_sender fits_receiver =
      let sender_exact : secret * balance % 2 ^ 128 ≡ secret * balance = omega arith in
      let receiver_exact : receiver * amount % 2 ^ 128 ≡ receiver * amount = omega arith in
      (
        constraints (field.from balance) (field.from amount) (field.from secret)
            (field.from receiver) (field.from (secret * balance % 2 ^ 128))
            (field.from (receiver * amount % 2 ^ 128)) (field.from secret) (field.from 0),
        refl,
        (
          sym (ap field.from sender_exact ∙ field.from-mul secret balance),
          (
            sym (ap field.from receiver_exact ∙ field.from-mul receiver amount),
            (field.mul_one (field.from secret), (refl, tt)),
          ),
        ),
      )
