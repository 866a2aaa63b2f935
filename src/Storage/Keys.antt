-- ===== src/Storage/Keys.antt =====
-- The keys of `StateStorage` of src/storage/mod.rs: a prefix in ASCII, then the bytes of the name.
use protonchain.Base.{
  ℕ, zero, suc, ◌*◌, ◌/◌, ◌^◌, ◌<◌, ◌≡◌, refl, ap, List, [], ◌∷◌, ◌++◌, arith, length,
  length-append, take, drop, take-append, drop-append, append_assoc, Option, none, some, ◌==◌,
  nat_key, if◌then◌else◌,
}
use native.Mathlib.Numerals.{unary_clauses}
use protonchain.Types.{Hash, Address, le_bytes, from_le_bytes}

unfoldable pub account_key : Address → List ℕ
account_key address = b'a' ∷ b'c' ∷ b'c' ∷ b':' ∷ address.bytes

unfoldable pub block_key : ℕ → List ℕ
block_key height = b'b' ∷ b'l' ∷ b'k' ∷ b':' ∷ le_bytes 8 height

unfoldable pub tx_key : Hash → List ℕ
tx_key hash = b't' ∷ b'x' ∷ b':' ∷ hash.bytes

unfoldable pub contract_key : Address → List ℕ
contract_key address = b'c' ∷ b'o' ∷ b'd' ∷ b'e' ∷ b':' ∷ address.bytes

unfoldable pub storage_key : Address → Hash → List ℕ
storage_key address key = b's' ∷ b't' ∷ b'o' ∷ b'r' ∷ b':' ∷ (address.bytes ++ b':' ∷ key.bytes)

-- What the storage holds something for.
pub data Name : Type 0 where
  account : Address → Name
  block : ℕ → Name
  transaction : Hash → Name
  contract : Address → Name
  slot : Address → Hash → Name

abbrev pub key_of : Name → List ℕ
key_of (Name.account a) = account_key a
key_of (Name.block height) = block_key height
key_of (Name.transaction hash) = tx_key hash
key_of (Name.contract a) = contract_key a
key_of (Name.slot a k) = storage_key a k

-- Heights are `u64`, and addresses have 20 bytes.
abbrev pub IsName : Name → Type 0
IsName (Name.block height) = height < 2 ^ 64
IsName (Name.slot a k) = length a.bytes ≡ 20
IsName _ = Unit

-- The name that a key was made from.
unfoldable pub name_of : List ℕ → Option Name
name_of [] = none
name_of (k ∷ rest) =
    if k == b'a'
    then some (Name.account (record { bytes = drop 3 rest }))
    else (if k == b'b'
        then some (Name.block (from_le_bytes (drop 3 rest)))
        else (if k == b't'
            then some (Name.transaction (record { bytes = drop 2 rest }))
            else (if k == b'c'
                then some (Name.contract (record { bytes = drop 4 rest }))
                else (if k == b's'
                    then some (
                        Name.slot (record { bytes = take 20 (drop 4 rest) })
                          (record { bytes = drop 21 (drop 4 rest) }))
                    else none))))

pub from_le_bytes-le_bytes : (w n : ℕ) → n < 256 ^ w → from_le_bytes (le_bytes w n) ≡ n
unfolding le_bytes from_le_bytes
from_le_bytes-le_bytes zero n h = omega arith
from_le_bytes-le_bytes (suc w) n h =
    let bound : n < 256 ^ w * 256 = simp unary_clauses at h in
    omega (arith, from_le_bytes-le_bytes w (n / 256) (omega arith))

drop_slot : (a k : List ℕ) → length a ≡ 20 → drop 21 (a ++ b':' ∷ k) ≡ k
drop_slot a k h =
    rw (← append_assoc a (b':' ∷ []) k)
      (drop-append 21 (a ++ b':' ∷ []) k (omega (arith, h, length-append a (b':' ∷ []))))

name_of-key_of : (x : Name) → IsName x → name_of (key_of x) ≡ some x
unfolding name_of account_key block_key tx_key contract_key storage_key
name_of-key_of (Name.account a) w = refl
name_of-key_of (Name.block height) w = rw (from_le_bytes-le_bytes 8 height (omega arith)) refl
name_of-key_of (Name.transaction hash) w = refl
name_of-key_of (Name.contract a) w = refl
name_of-key_of (Name.slot a k) w =
    rw (take-append 20 a.bytes (b':' ∷ k.bytes) w, drop_slot a.bytes k.bytes w) refl

-- Two names with one key are the same: no two entries of the storage share a place in the database.
pub key_of_injective : (x y : Name) → IsName x → IsName y → key_of x ≡ key_of y → x ≡ y
key_of_injective x y wx wy e = cc (name_of-key_of x wx, name_of-key_of y wy, ap name_of e)
