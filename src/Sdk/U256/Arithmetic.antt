-- ===== src/Sdk/U256/Arithmetic.antt =====
-- The arithmetic of `u256` is that of the numbers modulo 2 ^ 256.
use protonchain.Base.{
  if◌then◌else◌, eqb, ℕ, ◌+◌, ◌-◌, ◌*◌, ◌%◌, ◌^◌, ◌≤◌, ◌<◌, ◌≡◌, List, [], ◌∷◌, arith, length, All,
}
use protonchain.Sdk.U256.{U256, add_limbs, sub_limbs, add, sub}

-- the number that the limbs stand for, and the power of 2 that bounds it
abbrev pub value_of : List ℕ → ℕ
value_of [] = 0
value_of (limb ∷ rest) = limb + 2 ^ 64 * value_of rest

abbrev radix : List ℕ → ℕ
radix [] = 1
radix (_ ∷ rest) = 2 ^ 64 * radix rest

abbrev pub value : U256 → ℕ
value a = value_of a.limbs

-- Four limbs below 2 ^ 64.
abbrev pub IsU256 : U256 → Type 0
IsU256 a = (length a.limbs ≡ 4) × All (λ limb. limb < 2 ^ 64) a.limbs

-- `n` times a carry, which is 0 or 1
abbrev scaled : ℕ → ℕ → ℕ
scaled carry n = if eqb carry 0 then 0 else n

add_limbs-value :
    (carry : ℕ) (xs ys : List ℕ)
    → carry ≤ 1
    → length xs ≡ length ys
    → All (λ limb. limb < 2 ^ 64) xs
    → All (λ limb. limb < 2 ^ 64) ys
    → let (limbs, last) = add_limbs carry xs ys in
      (value_of limbs + scaled last (radix xs) ≡ value_of xs + value_of ys + carry)
      × (last ≤ 1)
      × (value_of limbs < radix xs)
unfolding add_limbs
add_limbs-value carry [] [] small same wa wb = ground arith
add_limbs-value carry [] (y ∷ ys) small same wa wb = ground arith
add_limbs-value carry (x ∷ xs) [] small same wa wb = ground arith
add_limbs-value carry (x ∷ xs) (y ∷ ys) small same wa wb =
    let rest0 = add_limbs-value 0 xs ys (omega arith) (omega arith) wa.1 wb.1 in
    let rest1 = add_limbs-value 1 xs ys (omega arith) (omega arith) wa.1 wb.1 in
    ground (arith, wa, wb)

sub_limbs-value :
    (borrow : ℕ) (xs ys : List ℕ)
    → borrow ≤ 1
    → length xs ≡ length ys
    → All (λ limb. limb < 2 ^ 64) xs
    → All (λ limb. limb < 2 ^ 64) ys
    → let (limbs, last) = sub_limbs borrow xs ys in
      (value_of limbs + value_of ys + borrow ≡ value_of xs + scaled last (radix xs))
      × (last ≤ 1)
      × (value_of limbs < radix xs)
unfolding sub_limbs
sub_limbs-value borrow [] [] small same wa wb = ground arith
sub_limbs-value borrow [] (y ∷ ys) small same wa wb = ground arith
sub_limbs-value borrow (x ∷ xs) [] small same wa wb = ground arith
sub_limbs-value borrow (x ∷ xs) (y ∷ ys) small same wa wb =
    let rest0 = sub_limbs-value 0 xs ys (omega arith) (omega arith) wa.1 wb.1 in
    let rest1 = sub_limbs-value 1 xs ys (omega arith) (omega arith) wa.1 wb.1 in
    ground (arith, wa, wb)

radix_four : (xs : List ℕ) → length xs ≡ 4 → radix xs ≡ 2 ^ 256
radix_four [] four = ground arith
radix_four (_ ∷ []) four = ground arith
radix_four (_ ∷ _ ∷ []) four = ground arith
radix_four (_ ∷ _ ∷ _ ∷ []) four = ground arith
radix_four (_ ∷ _ ∷ _ ∷ _ ∷ []) four = omega arith
radix_four (_ ∷ _ ∷ _ ∷ _ ∷ _ ∷ _) four = ground arith

-- The sum of two `u256` of four limbs below 2 ^ 64 is the sum of their values modulo 2 ^ 256.
pub add-value : (a b : U256) → IsU256 a → IsU256 b → value (add a b) ≡ (value a + value b) % 2 ^ 256
unfolding add
add-value a b wa wb =
    let size : length a.limbs ≡ length b.limbs = omega (arith, wa.0, wb.0) in
    ground (
      arith,
      add_limbs-value 0 a.limbs b.limbs (omega arith) size wa.1 wb.1,
      radix_four a.limbs wa.0,
    )

-- The difference of two `u256` of four limbs below 2 ^ 64 is the difference of their values
-- modulo 2 ^ 256.
pub sub-value :
    (a b : U256) → IsU256 a → IsU256 b → value (sub a b) ≡ (2 ^ 256 + value a - value b) % 2 ^ 256
unfolding sub
sub-value a b wa wb =
    let size : length a.limbs ≡ length b.limbs = omega (arith, wa.0, wb.0) in
    ground (
      arith,
      sub_limbs-value 0 a.limbs b.limbs (omega arith) size wa.1 wb.1,
      radix_four a.limbs wa.0,
    )
