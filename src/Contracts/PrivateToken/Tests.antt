-- ===== src/Contracts/PrivateToken/Tests.antt =====
-- The private token on concrete values.
use protonchain.Base.{◌∷◌, [], ℕ, ◌≡◌, refl, Bool, true, none, []}
use protonchain.Base.HashMap
use protonchain.Fixtures.{address, hash, low_hasher}
use protonchain.Types.{Hash, zero_hash}
use protonchain.Sdk.Examples.{table_host, hash_json}
use protonchain.Sdk.Set
use protonchain.Sdk.Commitments.{update_merkle_root}
use protonchain.Contracts.PrivateToken.{
  le_bytes, balance_key, Event, PrivateToken, new_token, get_public_balance, mint, private_transfer,
}
use protonchain.Contracts.PrivateToken.Spending.{Reaches, private_transfer_once}

abbrev accepts : ℕ → Hash → Hash → Hash → Bool
accepts proof nullifier commitment root = true

abbrev fresh : PrivateToken
fresh = new_token [] [] [] 18

abbrev fifty : PrivateToken → PrivateToken
fifty c = record c {
  total_supply = 50;
  storage = table_host.write (balance_key (address 2)) (le_bytes 16 50) c.storage;
}

abbrev spent : PrivateToken
spent = record fresh {
  storage = Set.insert (hash 7) [];
  merkle_root = update_merkle_root zero_hash (hash 8);
}

-- The first transfer spends the nullifier 7, and a mint follows.
private_transfer_once_example :
    private_transfer accepts 1 (hash 7) (hash 9) zero_hash [] (fifty spent) ≡ none
unfolding private_transfer mint new_token get_public_balance HashMap.get Set.contains Set.insert
    HashMap.insert
private_transfer_once_example =
    private_transfer_once accepts 0 (hash 7) (hash 8) zero_hash [] fresh spent (fifty spent)
      (Event.private_transferred (hash 7) (hash 8) [] ∷ []) refl
      (Reaches.by_mint true (address 2) 50 (Event.public_minted (address 2) 50 ∷ []) refl
        Reaches.done)
      1 (hash 9) zero_hash []
