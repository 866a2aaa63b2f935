-- ===== src/Contracts/Dex/Tests.antt =====
-- The exchange on concrete values.
use protonchain.Base.{
  take-append, drop-append, ℕ, ◌+◌, ◌*◌, ◌≤◌, ◌<◌, ◌≡◌, refl, Option, none, some, List, [], ◌∷◌,
  ◌++◌, arith, length, take, drop,
}
use protonchain.Fixtures.{address}
use protonchain.Sdk.Host.{Json}
use protonchain.Sdk.Map
use protonchain.Base.HashMap
use protonchain.Sdk.Examples.{table_host, pair_json, pair_vec}
use protonchain.Contracts.Dex.{
  TradingPair, ProtonDex, new_pair, sqrt, amount_out, deposited, liquidity_for, sort_pair,
  find_pair, calculate_swap_amount,
}
use protonchain.Contracts.Dex.Sqrt.{sqrt_lem}
use protonchain.Contracts.Dex.Pricing.{liquidity_for-deposited}
use protonchain.Contracts.Dex.Quotes.{calculate_swap_amount-product}
use protonchain.Consensus.Validators.{bytes_lt}

abbrev trading_vec : TradingPair → List ℕ
trading_vec p =
    2
      ∷ p.reserve_a
      ∷ p.reserve_b
      ∷ p.total_liquidity
      ∷ length p.token_a.bytes
      ∷ length p.token_b.bytes
      ∷ p.token_a.bytes
    ++ (p.token_b.bytes ++ p.encrypted_volume)

abbrev read_trading : List ℕ → Option TradingPair
read_trading (_ ∷ reserve_a ∷ reserve_b ∷ total ∷ n ∷ m ∷ bytes) = some (record {
  token_a = record { bytes = take n bytes };
  token_b = record { bytes = take m (drop n bytes) };
  reserve_a = reserve_a;
  reserve_b = reserve_b;
  total_liquidity = total;
  encrypted_volume = drop m (drop n bytes);
})
read_trading _ = none

read_trading-trading_vec : (p : TradingPair) → read_trading (trading_vec p) ≡ some p
read_trading-trading_vec p =
    let rest : List ℕ = p.token_b.bytes ++ p.encrypted_volume in
    rw
      (
        take-append (length p.token_a.bytes) p.token_a.bytes rest refl,
        drop-append (length p.token_a.bytes) p.token_a.bytes rest refl,
        take-append (length p.token_b.bytes) p.token_b.bytes p.encrypted_volume refl,
        drop-append (length p.token_b.bytes) p.token_b.bytes p.encrypted_volume refl,
      )
      refl

instance abbrev trading_json : Json TradingPair
trading_json = record {
  to_vec = trading_vec;
  from_slice = read_trading;
  from_slice-to_vec = read_trading-trading_vec;
}

-- 1000 of the first token and 4000 of the second, for a liquidity of 2000
abbrev traded : TradingPair
traded = record (new_pair (address 1, address 2)) {
  reserve_a = 1_000;
  reserve_b = 4_000;
  total_liquidity = 2_000;
}

abbrev empty_dex : ProtonDex
empty_dex = record { storage = []; fees = 30; fee_recipient = address 9 }

abbrev traded_dex : ProtonDex
traded_dex = record empty_dex {
  storage = (pair_vec (address 1, address 2), trading_vec traded) ∷ [];
}

sqrt_ten : sqrt 10 ≡ some 3
unfolding sqrt
sqrt_ten = refl

sqrt_lem_example : (r : ℕ) × (sqrt 10 ≡ some r) × (r * r ≤ 10) × (10 < (r + 1) * (r + 1))
sqrt_lem_example = sqrt_lem 10 (omega arith)

-- A tenth more of both tokens is worth a tenth of the liquidity.
liquidity_for-deposited_example :
    let pair' = deposited 100 400 200 traded in
    (1_000 * pair'.total_liquidity ≤ pair'.reserve_a * 2_000)
    × (4_000 * pair'.total_liquidity ≤ pair'.reserve_b * 2_000)
unfolding liquidity_for
liquidity_for-deposited_example =
    liquidity_for-deposited traded 100 400 200 (omega arith) (omega arith) (omega arith)
      (omega arith) (omega arith) (omega arith) refl

find_traded : find_pair (address 1) (address 2) traded_dex ≡ some traded
unfolding find_pair sort_pair bytes_lt Map.get HashMap.get
find_traded = refl

quote_traded : calculate_swap_amount (address 1) (address 2) 100 traded_dex ≡ some 360
unfolding find_pair sort_pair bytes_lt calculate_swap_amount amount_out Map.get HashMap.get
quote_traded = refl

-- 100 of the first token buy 360 of the second, and 100 of the second are quoted at 360 of the first.
calculate_swap_amount-product_example :
    (360 ≤ 4_000)
    × (1_000 * 4_000 ≤ (1_000 + 100) * 3_640)
    × (calculate_swap_amount (address 2) (address 1) 100 traded_dex ≡ some 360)
calculate_swap_amount-product_example =
    calculate_swap_amount-product (address 1) (address 2) 100 360 traded_dex traded find_traded refl
      (λ e. cc) (omega arith) (omega arith) (omega arith) (omega arith) quote_traded

-- A pair with 1 of the first token and 1000 of the second, without a fee.
abbrev lopsided_dex : ProtonDex
lopsided_dex = record empty_dex {
  fees = 0;
  storage =
      (
        pair_vec (address 1, address 2),
        trading_vec (record traded { reserve_a = 1; reserve_b = 1_000 }),
      )
      ∷ [];
}

-- 10 of the second token are quoted at 909 of the first, of which there is 1.
quote_above_reserve : calculate_swap_amount (address 2) (address 1) 10 lopsided_dex ≡ some 909
unfolding find_pair sort_pair bytes_lt calculate_swap_amount amount_out Map.get HashMap.get
quote_above_reserve = refl

abbrev deposited_dex : ProtonDex
deposited_dex = record traded_dex {
  storage =
      Map.insert (sort_pair (address 2) (address 1)) (deposited 400 100 50 traded)
        traded_dex.storage;
}
