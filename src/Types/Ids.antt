-- ===== src/Types/Ids.antt =====
-- `Hash`, `Address` and `StealthAddress` of src/types/mod.rs. SHA3-256 is a parameter: it is a
-- function of its input, and its output has 32 bytes.
use protonchain.Base.{
  ℕ, zero, suc, ◌+◌, ◌*◌, ◌/◌, ◌%◌, ◌≡◌, ◌↔◌, Bool, true, List, [], ◌∷◌, ◌++◌, arith, Key,
  same_list, same_list_iff, length, take, drop,
}

pub record Hasher : Type 0 where
  pub sha3 : List ℕ → List ℕ
  pub sha3_length : (input : List ℕ) → length (sha3 input) ≡ 32

pub record Hash : Type 0 where
  pub bytes : List ℕ

pub record Address : Type 0 where
  pub bytes : List ℕ

pub record StealthAddress : Type 0 where
  pub ephemeral_pubkey : List ℕ
  pub encrypted_view_tag : List ℕ

abbrev pub same_hash : Hash → Hash → Bool
same_hash a b = same_list a.bytes b.bytes

pub same_hash_iff : (a b : Hash) → (same_hash a b ≡ true) ↔ (a ≡ b)
same_hash_iff a b = ground (arith, same_list_iff a.bytes b.bytes)

instance abbrev pub hash_key : Key Hash
hash_key = record { same = same_hash; same_iff = same_hash_iff }

abbrev pub same_address : Address → Address → Bool
same_address a b = same_list a.bytes b.bytes

pub same_address_iff : (a b : Address) → (same_address a b ≡ true) ↔ (a ≡ b)
same_address_iff a b = ground (arith, same_list_iff a.bytes b.bytes)

instance abbrev pub address_key : Key Address
address_key = record { same = same_address; same_iff = same_address_iff }

-- `n.to_le_bytes()` of an integer of `w` bytes.
unfoldable pub le_bytes : ℕ → ℕ → List ℕ
le_bytes zero n = []
le_bytes (suc w) n = (n % 256) ∷ le_bytes w (n / 256)

-- `u128::from_le_bytes` and the like.
unfoldable pub from_le_bytes : List ℕ → ℕ
from_le_bytes [] = 0
from_le_bytes (b ∷ bs) = b + 256 * from_le_bytes bs

-- `Hash::zero`
unfoldable pub zero_hash : Hash
unfolding le_bytes
zero_hash = record { bytes = le_bytes 32 0 }

module _ ⦃h : Hasher⦄ where
  -- `Hash::new`
  unfoldable pub digest : List ℕ → Hash
  digest input = record { bytes = h.sha3 input }

  -- `Address::new`: the last twenty bytes of the hash
  unfoldable pub address_of : List ℕ → Address
  unfolding digest
  address_of pubkey = record { bytes = take 20 (drop 12 (digest pubkey).bytes) }

  -- `StealthAddress::derive`
  unfoldable pub derive_stealth : List ℕ → List ℕ → ℕ → StealthAddress
  unfolding le_bytes
  derive_stealth view_key spend_key nonce =
      let ephemeral = h.sha3 (view_key ++ le_bytes 8 nonce) in
      record { ephemeral_pubkey = ephemeral; encrypted_view_tag = h.sha3 (spend_key ++ ephemeral) }
