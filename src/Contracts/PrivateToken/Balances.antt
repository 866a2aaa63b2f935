-- ===== src/Contracts/PrivateToken/Balances.antt =====
-- The public balances of contracts/private_token.rs.
use protonchain.Base.{◌∙◌, ℕ, ◌+◌, ◌%◌, ◌^◌, ◌<◌, ◌≡◌, ◌≢◌, true, some, List, ap, sym, arith}
use protonchain.Types.{Address, le_bytes}
use protonchain.Storage.Keys.{from_le_bytes-le_bytes}
use protonchain.Sdk.Host.{Host}
use protonchain.Contracts.PrivateToken.{
  PrivateToken, Event, balance_key, read_balance, get_public_balance, mint,
}

read_balance-le_bytes : (n : ℕ) → n < 2 ^ 128 → read_balance (some (le_bytes 16 n)) ≡ n
unfolding read_balance le_bytes
read_balance-le_bytes n fits = from_le_bytes-le_bytes 16 n fits

balance_key_injective : (a b : Address) → balance_key a ≡ balance_key b → a ≡ b
unfolding balance_key
balance_key_injective a b e =
    let same : a.bytes ≡ b.bytes = cc in ap (λ bytes. record { bytes = bytes }) same

module _ ⦃host : Host⦄ where
  -- A mint adds its amount to the balance of the account and to the supply, and leaves the balance of
  -- every other account.
  pub mint_lem :
      (to : Address) (amount : ℕ) (c c' : PrivateToken) (es : List Event)
      → mint true to amount c ≡ some (c', es)
      → (c'.total_supply ≡ (c.total_supply + amount) % 2 ^ 128)
        × (get_public_balance to c' ≡ (get_public_balance to c + amount) % 2 ^ 128)
        × ((other : Address)
            → to ≢ other
            → get_public_balance other c' ≡ get_public_balance other c)
  unfolding mint get_public_balance
  mint_lem to amount c c' es e =
      let balance : ℕ = (get_public_balance to c + amount) % 2 ^ 128 in
      let stored = host.write (balance_key to) (le_bytes 16 balance) c.storage in
      let made : record c { total_supply = (c.total_supply + amount) % 2 ^ 128; storage = stored }
          ≡ c' =
        cc in
      (
        sym (ap (λ d. d.total_supply) made),
        rw (← made) (
            ap read_balance (host.read_written (balance_key to) (le_bytes 16 balance) c.storage)
            ∙ read_balance-le_bytes balance (omega arith)),
        λ other apart. rw (← made) (
            ap read_balance (
              host.read_written_other (balance_key to) (balance_key other) (le_bytes 16 balance)
                c.storage (λ same. apart (balance_key_injective to other same)))),
      )
