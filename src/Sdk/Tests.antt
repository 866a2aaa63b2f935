-- ===== src/Sdk/Tests.antt =====
-- The numbers and the collections on concrete values.
use protonchain.Base.{length, ◌-◌, ◌^◌, ◌≡◌, refl, [], ◌∷◌, arith}
use protonchain.Fixtures.{low_hasher}
use protonchain.Sdk.U256.{U256, add, sub, from_u128, to_le_bytes}
use protonchain.Sdk.U256.Arithmetic.{value, add-value, IsU256}
use protonchain.Sdk.U256.Bytes.{AreBytes, operations-IsU256}
use protonchain.Types.{from_le_bytes}

abbrev largest : U256
largest = record { limbs = (2 ^ 64 - 1) ∷ (2 ^ 64 - 1) ∷ (2 ^ 64 - 1) ∷ (2 ^ 64 - 1) ∷ [] }

abbrev two : U256
two = record { limbs = 2 ∷ 0 ∷ 0 ∷ 0 ∷ [] }

add-value_example : value (add largest two) ≡ 1
add-value_example =
    add-value largest two (refl, (omega arith, (omega arith, (omega arith, (omega arith, tt)))))
      (refl, (omega arith, (omega arith, (omega arith, (omega arith, tt)))))

operations-IsU256_example :
    IsU256 (add largest two)
    × IsU256 (sub largest two)
    × IsU256 (from_u128 (2 ^ 128 - 1))
    × (length (to_le_bytes largest) ≡ 32)
    × AreBytes (to_le_bytes largest)
    × (from_le_bytes (to_le_bytes largest) ≡ value largest)
operations-IsU256_example =
    operations-IsU256 largest two (2 ^ 128 - 1)
      (refl, (omega arith, (omega arith, (omega arith, (omega arith, tt)))))
      (refl, (omega arith, (omega arith, (omega arith, (omega arith, tt)))))
