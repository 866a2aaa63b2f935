-- ===== src/Contracts/Dex/Sqrt.antt =====
-- Newton's loop in `sqrt` of contracts/dex.rs computes the integer square root.
use protonchain.Base.{
  false, eqb, ◌∙◌, ℕ, zero, suc, ◌+◌, ◌-◌, ◌*◌, ◌/◌, ◌%◌, ◌^◌, ◌≤◌, ◌<◌, ◌≡◌, ◌⊎◌, refl, sym, ap,
  subst, true, none, some, arith, ltb, inl, inr, Bool-cases,
}
use native.Mathlib.Nat.{div-add-mod, mul-le-mul, le_refl, div_self}
use protonchain.Contracts.Dex.{divided, sqrt_loop, sqrt}

four_mul_add : (a d : ℕ) → 4 * (a * (a + d)) ≤ (a + (a + d)) * (a + (a + d))
four_mul_add a d = omega arith

le_cases : (a b : ℕ) → (b ≡ a + (b - a)) ⊎ (a ≡ b + (a - b))
le_cases a b = elim (Bool-cases (ltb a b)) [
  | inl h ↦ inl (ground arith)
  | inr h ↦ inr (ground arith)
]

-- The mean of two numbers is at least their geometric mean.
four_mul-le : (a b : ℕ) → 4 * (a * b) ≤ (a + b) * (a + b)
four_mul-le a b = elim (le_cases a b) [
  | inl e ↦ subst (λ t. 4 * (a * t) ≤ (a + t) * (a + t)) (sym e) (four_mul_add a (b - a))
  | inr e ↦
      let turned = subst (λ t. 4 * (b * t) ≤ (b + t) * (b + t)) (sym e) (four_mul_add b (a - b)) in
      omega (arith, turned)
]

add-le-mul : (a b : ℕ) → (a + 1) + (b + 1) ≤ (a + 1) * (b + 1) + 1
add-le-mul a b = omega arith

add-le-mul_pos : (a b : ℕ) → 0 < a → 0 < b → a + b ≤ a * b + 1
add-le-mul_pos (suc a) (suc b) h k = omega (arith, add-le-mul a b)
add-le-mul_pos zero b h k = absurd (omega arith)
add-le-mul_pos (suc a) zero h k = absurd (omega arith)

-- One round of the loop keeps `z` above the root,
above_root : (x z : ℕ) → 0 < z → x < ((z + x / z) / 2 + 1) * ((z + x / z) / 2 + 1)
above_root x z pos =
    let q : ℕ = x / z in
    let y : ℕ = (z + q) / 2 in
    let wide : z + (q + 1) ≤ 2 * (y + 1) = omega arith in
    omega (arith, mul-le-mul wide wide, four_mul-le z (q + 1), div-add-mod x z)

-- lowers it to no less than 1, and adds nothing that wraps.
round_bounds : (x z : ℕ) → 0 < z → z ≤ x → (0 < x / z) × (z + x / z ≤ x + 1)
round_bounds x z pos le =
    let quotient_pos : 0 < x / z = grind (arith, div-add-mod x z) in
    (quotient_pos, omega (arith, div-add-mod x z, add-le-mul_pos z (x / z) pos quotient_pos))

-- On leaving the loop `z` is not above the root.
below_root : (x z : ℕ) → 0 < z → z ≤ (z + x / z) / 2 → z * z ≤ x
below_root x z pos stop =
    let wide : z ≤ x / z = omega arith in
    let square : z * z ≤ z * (x / z) = mul-le-mul (le_refl z) wide in
    omega (arith, square, div-add-mod x z)

divided_pos : (a b : ℕ) → 0 < b → divided a b ≡ some (a / b)
divided_pos a zero pos = absurd (omega arith)
divided_pos a (suc b) pos = refl

sqrt_loop_next :
    (fuel x z y q : ℕ)
    → ltb y z ≡ true
    → divided x y ≡ some q
    → sqrt_loop (suc fuel) x z y ≡ sqrt_loop fuel x y ((y + q) % 2 ^ 128 / 2)
unfolding sqrt_loop
sqrt_loop_next fuel x z y q lower e = rw (lower, e, sqrt_loop) refl

sqrt_loop_lem :
    (fuel x z : ℕ)
    → x + 1 < 2 ^ 128
    → 0 < z
    → z ≤ x
    → z < fuel
    → x < (z + 1) * (z + 1)
    → (r : ℕ) × (sqrt_loop fuel x z ((z + x / z) / 2) ≡ some r)
      × (r * r ≤ x)
      × (x < (r + 1) * (r + 1))
unfolding sqrt_loop
sqrt_loop_lem zero x z fits pos le enough above = absurd (omega arith)
sqrt_loop_lem (suc fuel) x z fits pos le enough above =
    let y : ℕ = (z + x / z) / 2 in
    let bounds = round_bounds x z pos le in
    elim (Bool-cases (ltb y z)) [
      | inl lower ↦
          let falls : y < z = ground arith in
          let y_pos : 0 < y = omega arith in
          let exact : (y + x / y) % 2 ^ 128 ≡ y + x / y =
            omega (arith, (round_bounds x y y_pos (omega arith)).1) in
          let (r, runs, low, high) =
            sqrt_loop_lem fuel x y fits y_pos (omega arith) (omega arith) (above_root x z pos) in
          (
            r,
            sqrt_loop_next fuel x z y (x / y) lower (divided_pos x y y_pos)
                ∙ ap (λ m. sqrt_loop fuel x y (m / 2)) exact
                ∙ runs,
            low,
            high,
          )
      | inr stop ↦ (z, rw (stop, sqrt_loop) refl, below_root x z pos (ground arith), above)
    ]

sqrt_pos : (x : ℕ) → 0 < x → sqrt x ≡ sqrt_loop (suc x) x x ((x + 1) % 2 ^ 128 / 2)
unfolding sqrt
sqrt_pos x pos = let nonzero : eqb x 0 ≡ false = ground arith in rw (nonzero, sqrt) refl

sqrt_pos_lem :
    (x : ℕ)
    → 0 < x
    → x + 1 < 2 ^ 128
    → (r : ℕ) × (sqrt x ≡ some r) × (r * r ≤ x) × (x < (r + 1) * (r + 1))
sqrt_pos_lem x pos fits =
    let quotient : x / x ≡ 1 = div_self {n = x} pos in
    let start : (x + 1) % 2 ^ 128 / 2 ≡ (x + x / x) / 2 = omega arith in
    let (r, runs, low, high) =
      sqrt_loop_lem (suc x) x x fits pos (omega arith) (omega arith) (omega arith) in
    (r, sqrt_pos x pos ∙ ap (sqrt_loop (suc x) x x) start ∙ runs, low, high)

-- Below the largest `u128`, `sqrt` returns, and what it returns is the integer square root: the
-- largest number whose square is not above the argument.
pub sqrt_lem :
    (x : ℕ) → x + 1 < 2 ^ 128 → (r : ℕ) × (sqrt x ≡ some r) × (r * r ≤ x) × (x < (r + 1) * (r + 1))
unfolding sqrt
sqrt_lem zero fits = (0, refl, omega arith, omega arith)
sqrt_lem (suc x) fits = sqrt_pos_lem (suc x) (omega arith) fits

-- At the largest `u128` the first mean wraps to 0, and `sqrt` divides by 0.
pub sqrt_largest : sqrt (2 ^ 128 - 1) ≡ none
unfolding sqrt sqrt_loop
sqrt_largest = refl
