-- ===== src/Contracts/Nft/Tests.antt =====
-- The token contract on concrete values.
use protonchain.Base.{
  ap, take-append, drop-append, ℕ, ◌≡◌, refl, Bool, false, Option, none, some, List, [], ◌∷◌, ◌++◌,
  length, take, drop, suc,
}
use protonchain.Fixtures.{address, flag, read_flag, read_flag-flag, low_hasher}
use protonchain.Types.{zero_hash}
use protonchain.Sdk.Host.{Json}
use protonchain.Sdk.Map
use protonchain.Sdk.U256.{U256, one_u256, zero_u256}
use protonchain.Sdk.Examples.{table_host, address_json, pair_json}
use protonchain.Contracts.Nft.{TokenData, ProtonNft}

abbrev read_u256 : List ℕ → Option U256
read_u256 (_ ∷ limbs) = some (record { limbs = limbs })
read_u256 [] = none

instance abbrev u256_json : Json U256
u256_json = record {
  to_vec = λ n. 4 ∷ n.limbs;
  from_slice = read_u256;
  from_slice-to_vec = λ n. refl;
}

abbrev read_bool : List ℕ → Option Bool
read_bool (n ∷ []) = some (read_flag n)
read_bool _ = none

instance abbrev bool_json : Json Bool
bool_json = record {
  to_vec = λ b. flag b ∷ [];
  from_slice = read_bool;
  from_slice-to_vec = λ b. ap some (read_flag-flag b);
}

abbrev token_vec : TokenData → List ℕ
token_vec t =
    5
      ∷ flag t.is_private
      ∷ t.created_at
      ∷ length t.token_id.limbs
      ∷ length t.public_metadata
      ∷ t.token_id.limbs
    ++ (t.public_metadata ++ t.encrypted_metadata_hash.bytes)

abbrev read_token : List ℕ → Option TokenData
read_token (suc _ ∷ private ∷ created_at ∷ n ∷ m ∷ bytes) = some (record {
  token_id = record { limbs = take n bytes };
  public_metadata = take m (drop n bytes);
  encrypted_metadata_hash = record { bytes = drop m (drop n bytes) };
  is_private = read_flag private;
  created_at = created_at;
})
read_token _ = none

read_token-token_vec : (t : TokenData) → read_token (token_vec t) ≡ some t
read_token-token_vec t =
    let rest : List ℕ = t.public_metadata ++ t.encrypted_metadata_hash.bytes in
    rw
      (
        take-append (length t.token_id.limbs) t.token_id.limbs rest refl,
        drop-append (length t.token_id.limbs) t.token_id.limbs rest refl,
        take-append (length t.public_metadata) t.public_metadata t.encrypted_metadata_hash.bytes
            refl,
        drop-append (length t.public_metadata) t.public_metadata t.encrypted_metadata_hash.bytes
            refl,
        read_flag-flag t.is_private,
      )
      refl

instance abbrev token_json : Json TokenData
token_json = record {
  to_vec = token_vec;
  from_slice = read_token;
  from_slice-to_vec = read_token-token_vec;
}

abbrev empty_nft : ProtonNft
empty_nft = record { storage = []; name = []; symbol = []; total_supply = zero_u256 }

abbrev first : TokenData
first = record {
  token_id = one_u256;
  public_metadata = [];
  encrypted_metadata_hash = zero_hash;
  is_private = false;
  created_at = 77;
}

-- the contract after token 1 was minted for address 3
abbrev minted_nft : ProtonNft
minted_nft = record empty_nft {
  total_supply = one_u256;
  storage = Map.insert one_u256 (address 3) (Map.insert one_u256 first []);
}

abbrev approved_nft : ProtonNft
approved_nft = record minted_nft { storage = Map.insert one_u256 (address 4) minted_nft.storage }
