-- ===== src/Contracts/Dex.antt =====
-- contracts/dex.rs. A failed `require!` or `unwrap` and a division by 0 revert the call: the result
-- is `none`. The caller, the clock and the checks of proofs, which the host makes, are arguments;
-- the calls of tokens and the events are listed in the order of their issue. Arithmetic wraps.
pub mod Sqrt
pub mod Pricing
pub mod Pairs
pub mod Quotes
mod Tests
use protonchain.Base.{
  ℕ, zero, suc, ◌+◌, ◌-◌, ◌*◌, ◌/◌, ◌%◌, ◌^◌, Bool, true, false, not, Option, none, some, List, [],
  ◌∷◌, ◌++◌, ltb, eqb, ◌==◌, if◌then◌else◌,
}
use protonchain.Types.{Hash, Hasher, Address, StealthAddress, address_key, digest, le_bytes}
use protonchain.Consensus.Validators.{bytes_lt}
use protonchain.Sdk.Host.{Host, Json}
use protonchain.Sdk.Map

pub record TradingPair : Type 0 where
  pub token_a : Address
  pub token_b : Address
  pub reserve_a : ℕ
  pub reserve_b : ℕ
  pub total_liquidity : ℕ
  pub encrypted_volume : List ℕ

pub record EncryptedOrder : Type 0 where
  pub owner : StealthAddress
  pub encrypted_amount : List ℕ
  pub encrypted_price : List ℕ
  pub is_buy : Bool
  pub zk_proof : List ℕ
  pub timestamp : ℕ

-- The calls of tokens, with the token first and without the contract's own address, and the events
-- with their fields.
pub data Effect : Type 0 where
  transfer_from : Address → Address → ℕ → Effect
  private_transfer_in : Address → List ℕ → Effect
  private_transfer_out : Address → List ℕ → Effect
  mint_lp_token : Address → ℕ → Effect
  liquidity_added : Address → Address → Address → ℕ → ℕ → ℕ → Effect
  private_swapped : Address × Address → Hash → List ℕ → List ℕ → Effect
  order_placed : Hash → Address × Address → Bool → Effect

-- `a / b`, which panics at 0
abbrev pub divided : ℕ → ℕ → Option ℕ
divided a zero = none
divided a (suc b) = some (a / suc b)

-- the loop of `sqrt`, with fuel
unfoldable pub sqrt_loop : ℕ → ℕ → ℕ → ℕ → Option ℕ
sqrt_loop zero x z y = none
sqrt_loop (suc fuel) x z y = elim (ltb y z) [
  | false ↦ some z
  | true ↦ elim (divided x y) [ none ↦ none | some q ↦ sqrt_loop fuel x y ((y + q) % 2 ^ 128 / 2) ]
]

-- `sqrt`; each round lowers `z`, so `x + 1` rounds are enough
unfoldable pub sqrt : ℕ → Option ℕ
unfolding sqrt_loop
sqrt x = if eqb x 0 then some 0 else sqrt_loop (suc x) x x ((x + 1) % 2 ^ 128 / 2)

-- `min`
abbrev pub smaller : ℕ → ℕ → ℕ
smaller a b = if ltb a b then a else b

-- `sort_pair`
unfoldable pub sort_pair : Address → Address → Address × Address
sort_pair a b = if bytes_lt a.bytes b.bytes then (a, b) else (b, a)

-- the share of a deposit in a reserve
unfoldable pub share : ℕ → ℕ → ℕ → Option ℕ
share amount total reserve = divided (amount * total % 2 ^ 128) reserve

-- the liquidity that a deposit is worth
unfoldable pub liquidity_for : TradingPair → ℕ → ℕ → Option ℕ
unfolding sqrt share
liquidity_for pair amount_a amount_b =
    if eqb pair.total_liquidity 0
    then sqrt (amount_a * amount_b % 2 ^ 128)
    else elim (share amount_a pair.total_liquidity pair.reserve_a) [
      | none ↦ none
      | some liquidity_a ↦ elim (share amount_b pair.total_liquidity pair.reserve_b) [
        | none ↦ none
        | some liquidity_b ↦ some (smaller liquidity_a liquidity_b)
      ]
    ]

-- the pair after a deposit
unfoldable pub deposited : ℕ → ℕ → ℕ → TradingPair → TradingPair
deposited amount_a amount_b liquidity pair = record pair {
  reserve_a = (pair.reserve_a + amount_a) % 2 ^ 128;
  reserve_b = (pair.reserve_b + amount_b) % 2 ^ 128;
  total_liquidity = (pair.total_liquidity + liquidity) % 2 ^ 128;
}

-- the amount that a pair gives for `amount_in`, with the fee in basis points
unfoldable pub amount_out : ℕ → TradingPair → ℕ → Option ℕ
amount_out fees pair amount_in =
    let with_fee = amount_in * ((10_000 + 2 ^ 128 - fees) % 2 ^ 128) % 2 ^ 128 / 10_000 in
    divided (with_fee * pair.reserve_b % 2 ^ 128) ((pair.reserve_a + with_fee) % 2 ^ 128)

-- the pair that `create_pair` starts with
abbrev pub new_pair : Address × Address → TradingPair
new_pair key = record {
  token_a = key.0;
  token_b = key.1;
  reserve_a = 0;
  reserve_b = 0;
  total_liquidity = 0;
  encrypted_volume = [];
}

module _ ⦃host : Host⦄ where
  pub record ProtonDex : Type 0 where
    pub storage : host.Storage
    pub fees : ℕ
    pub fee_recipient : Address

  -- `new`, on the storage as the contract finds it
  unfoldable pub new_dex : host.Storage → ℕ → Address → ProtonDex
  new_dex storage fees fee_recipient = record {
    storage = storage;
    fees = fees;
    fee_recipient = fee_recipient;
  }

  -- `place_encrypted_order`, with its hash
  unfoldable pub order_hash : ⦃h : Hasher⦄ → Address → Address → List ℕ → List ℕ → Bool → ℕ → Hash
  order_hash a b amount price is_buy now =
      digest (a.bytes ++ b.bytes ++ amount ++ price ++ (if is_buy then 1 else 0) ∷ le_bytes 8 now)

  unfoldable pub place_encrypted_order :
      ⦃h : Hasher⦄ ⦃json_hash : Json Hash⦄ ⦃json_order : Json EncryptedOrder⦄
      → (List ℕ → Hash → StealthAddress → Bool)
      → ℕ
      → Address
      → Address
      → List ℕ
      → List ℕ
      → Bool
      → List ℕ
      → StealthAddress
      → ProtonDex
      → Option (Hash × ProtonDex × List Effect)
  unfolding order_hash
  place_encrypted_order verify_order_proof now a b amount price is_buy proof stealth c =
      let hash = order_hash a b amount price is_buy now in
      if not (verify_order_proof proof hash stealth)
      then none
      else some (
        hash,
        record c {
          storage =
              Map.insert {V = EncryptedOrder} hash
                (record {
                  owner = stealth;
                  encrypted_amount = amount;
                  encrypted_price = price;
                  is_buy = is_buy;
                  zk_proof = proof;
                  timestamp = now;
                })
                c.storage;
        },
        Effect.order_placed hash (a, b) is_buy ∷ [],
      )

  module _ ⦃json_key : Json (Address × Address)⦄ ⦃json_pair : Json TradingPair⦄ where
    -- `self.pairs.get(&self.sort_pair(a, b))`
    unfoldable pub find_pair : Address → Address → ProtonDex → Option TradingPair
    unfolding sort_pair
    find_pair a b c = Map.get (sort_pair a b) c.storage

    -- `create_pair`
    unfoldable pub create_pair : Address → Address → ProtonDex → Option ProtonDex
    unfolding sort_pair
    create_pair a b c =
        let key = sort_pair a b in
        if a == b
        then none
        else (if Map.contains_key TradingPair key c.storage
            then none
            else some (record c { storage = Map.insert key (new_pair key) c.storage }))

    -- `add_liquidity`
    unfoldable pub add_liquidity :
        Address → Address → Address → ℕ → ℕ → ProtonDex → Option (ℕ × ProtonDex × List Effect)
    unfolding liquidity_for deposited find_pair
    add_liquidity caller a b amount_a amount_b c = elim (find_pair a b c) [
      | none ↦ none
      | some pair ↦ elim (liquidity_for pair amount_a amount_b) [
        | none ↦ none
        | some liquidity ↦ some (
          liquidity,
          record c {
            storage =
                Map.insert (sort_pair a b) (deposited amount_a amount_b liquidity pair) c.storage;
          },
          Effect.transfer_from a caller amount_a
              ∷ Effect.transfer_from b caller amount_b
              ∷ Effect.mint_lp_token caller liquidity
              ∷ Effect.liquidity_added caller (sort_pair a b).0 (sort_pair a b).1 amount_a amount_b
                  liquidity
              ∷ [],
        )
      ]
    ]

    -- `private_swap`
    unfoldable pub private_swap :
        (List ℕ → Address × Address → Hash → List ℕ → Bool)
        → (List ℕ → Address → List ℕ → Bool)
        → Address
        → Address
        → Address
        → List ℕ
        → Hash
        → List ℕ
        → List ℕ
        → List ℕ
        → ProtonDex
        → Option (List Effect)
    unfolding find_pair
    private_swap swap_proof balance_proof caller token_in token_out proof nullifier amount_in
          amount_out zk_balance_proof c =
        elim (find_pair token_in token_out c) [
          | none ↦ none
          | some pair ↦
              if not (swap_proof proof (sort_pair token_in token_out) nullifier amount_in)
              then none
              else (if not (balance_proof zk_balance_proof caller amount_in)
                  then none
                  else some (
                      Effect.private_transfer_in token_in amount_in
                      ∷ Effect.private_transfer_out token_out amount_out
                      ∷ Effect.private_swapped (sort_pair token_in token_out) nullifier amount_in
                          amount_out
                      ∷ []))
        ]

    -- `get_reserves`
    unfoldable pub get_reserves : Address → Address → ProtonDex → ℕ × ℕ
    unfolding find_pair
    get_reserves a b c = elim (find_pair a b c) [
      | none ↦ (0, 0)
      | some pair ↦ (pair.reserve_a, pair.reserve_b)
    ]

    -- `calculate_swap_amount`
    unfoldable pub calculate_swap_amount : Address → Address → ℕ → ProtonDex → Option ℕ
    unfolding find_pair amount_out
    calculate_swap_amount token_in token_out amount_in c = elim (find_pair token_in token_out c) [
      | none ↦ none
      | some pair ↦ amount_out c.fees pair amount_in
    ]
