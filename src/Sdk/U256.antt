-- ===== src/Sdk/U256.antt =====
-- `u256` of src/sdk.rs: four limbs of 64 bits, the lowest first.
pub mod Arithmetic
pub mod Bytes
use protonchain.Base.{
  ℕ, ◌+◌, ◌-◌, ◌*◌, ◌/◌, ◌%◌, ◌^◌, Bool, true, false, ◌||◌, List, [], ◌∷◌, ◌++◌, ltb, leb,
  if◌then◌else◌,
}
use protonchain.Types.{le_bytes}

pub record U256 : Type 0 where
  pub limbs : List ℕ

abbrev pub zero_u256 : U256
zero_u256 = record { limbs = 0 ∷ 0 ∷ 0 ∷ 0 ∷ [] }

abbrev pub one_u256 : U256
one_u256 = record { limbs = 1 ∷ 0 ∷ 0 ∷ 0 ∷ [] }

limb_bytes : List ℕ → List ℕ
limb_bytes [] = []
limb_bytes (limb ∷ rest) = le_bytes 8 limb ++ limb_bytes rest

-- `to_le_bytes`
unfoldable pub to_le_bytes : U256 → List ℕ
unfolding limb_bytes
to_le_bytes a = limb_bytes a.limbs

-- `overflowing_add` and `overflowing_sub` on `u64`
abbrev pub overflowing_add : ℕ → ℕ → ℕ × Bool
overflowing_add a b = ((a + b) % 2 ^ 64, leb (2 ^ 64) (a + b))

abbrev pub overflowing_sub : ℕ → ℕ → ℕ × Bool
overflowing_sub a b = ((2 ^ 64 + a - b) % 2 ^ 64, ltb a b)

-- the loop of `add`, from a carry on, with the last carry
unfoldable pub add_limbs : ℕ → List ℕ → List ℕ → List ℕ × ℕ
add_limbs carry (x ∷ xs) (y ∷ ys) =
    let (sum, c1) = overflowing_add x y in
    let (sum', c2) = overflowing_add sum carry in
    let (rest, last) = add_limbs (if c1 || c2 then 1 else 0) xs ys in (sum' ∷ rest, last)
add_limbs carry [] _ = ([], carry)
add_limbs carry (_ ∷ _) [] = ([], carry)

-- the loop of `sub`, from a borrow on, with the last borrow
unfoldable pub sub_limbs : ℕ → List ℕ → List ℕ → List ℕ × ℕ
sub_limbs borrow (x ∷ xs) (y ∷ ys) =
    let (diff, b1) = overflowing_sub x y in
    let (diff', b2) = overflowing_sub diff borrow in
    let (rest, last) = sub_limbs (if b1 || b2 then 1 else 0) xs ys in (diff' ∷ rest, last)
sub_limbs borrow [] _ = ([], borrow)
sub_limbs borrow (_ ∷ _) [] = ([], borrow)

-- `Add::add`
unfoldable pub add : U256 → U256 → U256
unfolding add_limbs
add a b = record { limbs = (add_limbs 0 a.limbs b.limbs).0 }

-- `Sub::sub`
unfoldable pub sub : U256 → U256 → U256
unfolding sub_limbs
sub a b = record { limbs = (sub_limbs 0 a.limbs b.limbs).0 }

-- `From<u128>::from`
unfoldable pub from_u128 : ℕ → U256
from_u128 value = record { limbs = (value % 2 ^ 64) ∷ (value / 2 ^ 64 % 2 ^ 64) ∷ 0 ∷ 0 ∷ [] }
