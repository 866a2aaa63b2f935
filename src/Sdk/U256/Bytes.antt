-- ===== src/Sdk/U256/Bytes.antt =====
-- The form of `u256` of src/sdk.rs, and its bytes.
use protonchain.Base.{
  zero, suc, ℕ, ◌+◌, ◌*◌, ◌/◌, ◌^◌, ◌<◌, ◌≡◌, refl, ap, ◌∙◌, List, [], ◌∷◌, ◌++◌, arith, length,
  All, length-append, ◌||◌, if◌then◌else◌,
}
use protonchain.Types.{le_bytes, from_le_bytes}
use protonchain.Sdk.U256.{
  U256, add_limbs, sub_limbs, add, sub, from_u128, to_le_bytes, limb_bytes, overflowing_add,
  overflowing_sub,
}
use protonchain.Sdk.U256.Arithmetic.{value, value_of, IsU256}

abbrev AreLimbs : List ℕ → Type 0
AreLimbs = All (λ limb. limb < 2 ^ 64)

abbrev pub AreBytes : List ℕ → Type 0
AreBytes = All (λ byte. byte < 256)

add_limbs-AreLimbs :
    (carry : ℕ) (xs ys : List ℕ)
    → length xs ≡ length ys
    → (length (add_limbs carry xs ys).0 ≡ length xs) × AreLimbs (add_limbs carry xs ys).0
unfolding add_limbs
add_limbs-AreLimbs carry [] ys e = (refl, tt)
add_limbs-AreLimbs carry (x ∷ xs) [] e = absurd (omega arith)
add_limbs-AreLimbs carry (x ∷ xs) (y ∷ ys) e =
    let (n, w) =
      add_limbs-AreLimbs
        (if (overflowing_add x y).1 || (overflowing_add (overflowing_add x y).0 carry).1
          then 1
          else 0)
        xs ys (omega arith) in
    (ap suc n, (omega arith, w))

sub_limbs-AreLimbs :
    (borrow : ℕ) (xs ys : List ℕ)
    → length xs ≡ length ys
    → (length (sub_limbs borrow xs ys).0 ≡ length xs) × AreLimbs (sub_limbs borrow xs ys).0
unfolding sub_limbs
sub_limbs-AreLimbs borrow [] ys e = (refl, tt)
sub_limbs-AreLimbs borrow (x ∷ xs) [] e = absurd (omega arith)
sub_limbs-AreLimbs borrow (x ∷ xs) (y ∷ ys) e =
    let (n, w) =
      sub_limbs-AreLimbs
        (if (overflowing_sub x y).1 || (overflowing_sub (overflowing_sub x y).0 borrow).1
          then 1
          else 0)
        xs ys (omega arith) in
    (ap suc n, (omega arith, w))

le_bytes-AreBytes : (w n : ℕ) → (length (le_bytes w n) ≡ w) × AreBytes (le_bytes w n)
unfolding le_bytes
le_bytes-AreBytes zero n = (refl, tt)
le_bytes-AreBytes (suc w) n =
    let (size, small) = le_bytes-AreBytes w (n / 256) in (ap suc size, (omega arith, small))

AreBytes-++ : (xs ys : List ℕ) → AreBytes xs → AreBytes ys → AreBytes (xs ++ ys)
AreBytes-++ [] ys a b = b
AreBytes-++ (x ∷ xs) ys a b = (a.0, AreBytes-++ xs ys a.1 b)

limb_bytes-AreBytes :
    (limbs : List ℕ) → (length (limb_bytes limbs) ≡ 8 * length limbs) × AreBytes (limb_bytes limbs)
unfolding limb_bytes
limb_bytes-AreBytes [] = (refl, tt)
limb_bytes-AreBytes (limb ∷ limbs) =
    let (n, w) = le_bytes-AreBytes 8 limb in
    let (ns, ws) = limb_bytes-AreBytes limbs in
    (
      omega (arith, n, ns, length-append (le_bytes 8 limb) (limb_bytes limbs)),
      AreBytes-++ (le_bytes 8 limb) (limb_bytes limbs) w ws,
    )

-- Eight bytes and the bytes above them.
from_le_bytes-eight :
    (n : ℕ) (rest : List ℕ)
    → n < 2 ^ 64
    → from_le_bytes (le_bytes 8 n ++ rest) ≡ n + 2 ^ 64 * from_le_bytes rest
unfolding from_le_bytes le_bytes
from_le_bytes-eight n rest small = omega arith

from_le_bytes-limb_bytes :
    (limbs : List ℕ) → AreLimbs limbs → from_le_bytes (limb_bytes limbs) ≡ value_of limbs
unfolding from_le_bytes limb_bytes
from_le_bytes-limb_bytes [] w = refl
from_le_bytes-limb_bytes (limb ∷ limbs) w =
    omega
      (arith, from_le_bytes-eight limb (limb_bytes limbs) w.0, from_le_bytes-limb_bytes limbs w.1)

-- Sums, differences and conversions of `u256` are `u256` again, with four limbs below 2 ^ 64; the bytes
-- of a `u256` are 32 bytes, and read as one number they are its value.
pub operations-IsU256 :
    (a b : U256) (n : ℕ)
    → IsU256 a
    → IsU256 b
    → IsU256 (add a b)
      × IsU256 (sub a b)
      × IsU256 (from_u128 n)
      × (length (to_le_bytes a) ≡ 32)
      × AreBytes (to_le_bytes a)
      × (from_le_bytes (to_le_bytes a) ≡ value a)
unfolding add sub from_u128 to_le_bytes
operations-IsU256 a b n wa wb =
    let same : length a.limbs ≡ length b.limbs = omega (arith, wa.0, wb.0) in
    let (sum_length, sum_limbs) = add_limbs-AreLimbs 0 a.limbs b.limbs same in
    let (difference_length, difference_limbs) = sub_limbs-AreLimbs 0 a.limbs b.limbs same in
    let (size, bytes) = limb_bytes-AreBytes a.limbs in
    (
      (sum_length ∙ wa.0, sum_limbs),
      (difference_length ∙ wa.0, difference_limbs),
      (refl, (omega arith, (omega arith, (omega arith, (omega arith, tt))))),
      omega (arith, size, wa.0),
      bytes,
      from_le_bytes-limb_bytes a.limbs wa.1,
    )
