-- ===== src/Contracts/Dex/Quotes.antt =====
-- `calculate_swap_amount` of contracts/dex.rs, in both directions of a pair.
use protonchain.Base.{
  ℕ, ◌+◌, ◌-◌, ◌*◌, ◌^◌, ◌≤◌, ◌<◌, ◌≡◌, ◌≢◌, ◌∙◌, sym, some, arith, ◌==◌, if◌then◌else◌,
}
use protonchain.Types.{Address, address_key, same_address_iff}
use protonchain.Sdk.Host.{Host, Json}
use protonchain.Contracts.Dex.{TradingPair, ProtonDex, find_pair, calculate_swap_amount, amount_out}
use protonchain.Contracts.Dex.Pricing.{amount_out-product}
use protonchain.Contracts.Dex.Pairs.{calculate_swap_amount_comm}

-- The reserve that a pair has of one of its two tokens.
abbrev pub reserve_of : Address → TradingPair → ℕ
reserve_of token pair = if token == pair.token_a then pair.reserve_a else pair.reserve_b

reserve_of-first :
    (token : Address) (pair : TradingPair)
    → pair.token_a ≡ token
    → reserve_of token pair ≡ pair.reserve_a
reserve_of-first token pair first = ground (arith, same_address_iff token pair.token_a)

reserve_of-second :
    (first second : Address) (pair : TradingPair)
    → pair.token_a ≡ first
    → second ≢ first
    → reserve_of second pair ≡ pair.reserve_b
reserve_of-second first second pair is_first differ =
    ground (arith, same_address_iff second pair.token_a)

module _ ⦃host : Host⦄ ⦃json_key : Json (Address × Address)⦄ ⦃json_pair : Json TradingPair⦄ where
  calculate_swap_amount-pair :
      (token_in token_out : Address) (amount_in out : ℕ) (c : ProtonDex) (pair : TradingPair)
      → find_pair token_in token_out c ≡ some pair
      → calculate_swap_amount token_in token_out amount_in c ≡ some out
      → amount_out c.fees pair amount_in ≡ some out
  unfolding calculate_swap_amount
  calculate_swap_amount-pair token_in token_out amount_in out c pair found e = ground arith

  -- A quote for selling the token that a pair has as its first, `token_a`, for the other one: the
  -- amount is no more than the reserve of the token bought; with both amounts moved, the product of
  -- the two reserves does not fall; and the quote for selling as much of the second token instead is
  -- the same number, whatever the reserves. (The fee is at most the whole, and the products and sums
  -- that the code forms fit into `u128`.)
  pub calculate_swap_amount-product :
      (token_in token_out : Address) (amount_in out : ℕ) (c : ProtonDex) (pair : TradingPair)
      → find_pair token_in token_out c ≡ some pair
      → pair.token_a ≡ token_in
      → token_out ≢ token_in
      → c.fees ≤ 10_000
      → amount_in * 10_000 < 2 ^ 128
      → amount_in * reserve_of token_out pair < 2 ^ 128
      → reserve_of token_in pair + amount_in < 2 ^ 128
      → calculate_swap_amount token_in token_out amount_in c ≡ some out
      → (out ≤ reserve_of token_out pair)
        × (reserve_of token_in pair * reserve_of token_out pair
            ≤ (reserve_of token_in pair + amount_in) * (reserve_of token_out pair - out))
        × (calculate_swap_amount token_out token_in amount_in c ≡ some out)
  calculate_swap_amount-product token_in token_out amount_in out c pair found first differ fee fits1
        fits2 fits3 e =
      let reserve_in = reserve_of-first token_in pair first in
      let reserve_out = reserve_of-second token_in token_out pair first differ in
      let priced = calculate_swap_amount-pair token_in token_out amount_in out c pair found e in
      let (low, kept) =
        amount_out-product c.fees pair amount_in out fee fits1 (rw reserve_out at fits2)
          (rw reserve_in at fits3) priced in
      (
        rw reserve_out low,
        rw (reserve_in, reserve_out) kept,
        sym (calculate_swap_amount_comm token_in token_out amount_in c) ∙ e,
      )
