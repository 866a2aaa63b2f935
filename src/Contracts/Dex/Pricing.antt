-- ===== src/Contracts/Dex/Pricing.antt =====
-- What deposits and swaps are worth.
use protonchain.Base.{
  subst, ℕ, zero, suc, ◌+◌, ◌-◌, ◌*◌, ◌/◌, ◌%◌, ◌^◌, ◌≤◌, ◌<◌, ◌≡◌, refl, sym, ◌∙◌, false, Option,
  none, some, arith, ltb, eqb, inl, inr, Bool-cases,
}
use native.Mathlib.Nat.{
  div-mul-le_self, mul-le-mul, le_refl, le_of_mul-le-mul_left, mul-le-mul_right,
}
use protonchain.Contracts.Dex.{
  TradingPair, divided, share, liquidity_for, deposited, amount_out, smaller,
}

-- A quotient times its divisor is not above the dividend.
divided-mul : (a b q : ℕ) → divided a b ≡ some q → q * b ≤ a
divided-mul a zero q e = cc
divided-mul a (suc b) q e = let same : a / suc b ≡ q = cc in rw (← same) (div-mul-le_self a (suc b))

share-mul :
    (amount total reserve liquidity : ℕ)
    → amount * total < 2 ^ 128
    → share amount total reserve ≡ some liquidity
    → liquidity * reserve ≤ amount * total
unfolding share
share-mul amount total reserve liquidity fits e =
    let bound = divided-mul (amount * total % 2 ^ 128) reserve liquidity e in omega (arith, bound)

smaller-le : (a b : ℕ) → (smaller a b ≤ a) × (smaller a b ≤ b)
smaller-le a b = elim (Bool-cases (ltb a b)) [
  | inl h ↦ (rw h (le_refl a), let low : a < b = ground arith in rw h (omega arith))
  | inr h ↦ (let low : b ≤ a = ground arith in rw h (omega arith), rw h (le_refl b))
]

smaller-some :
    (o p : Option ℕ) (liquidity : ℕ)
    → (elim o [ none ↦ none | some a ↦ elim p [ none ↦ none | some b ↦ some (smaller a b) ] ])
      ≡ some liquidity
    → (a : ℕ) × (b : ℕ) × (o ≡ some a) × (p ≡ some b) × (liquidity ≤ a) × (liquidity ≤ b)
smaller-some none p liquidity e = cc
smaller-some (some a) none liquidity e = cc
smaller-some (some a) (some b) liquidity e =
    let same : smaller a b ≡ liquidity = cc in
    (a, b, refl, refl, rw (← same) (smaller-le a b).0, rw (← same) (smaller-le a b).1)

liquidity_for-pos :
    (pair : TradingPair) (amount_a amount_b : ℕ)
    → 0 < pair.total_liquidity
    → liquidity_for pair amount_a amount_b
      ≡ (elim (share amount_a pair.total_liquidity pair.reserve_a) [
        | none ↦ none
        | some a ↦ elim (share amount_b pair.total_liquidity pair.reserve_b) [
          | none ↦ none
          | some b ↦ some (smaller a b)
        ]
      ])
unfolding liquidity_for
liquidity_for-pos pair amount_a amount_b pos =
    let nonzero : eqb pair.total_liquidity 0 ≡ false = ground arith in
    rw (nonzero, liquidity_for) refl

-- Where a pair has liquidity, what a deposit is worth is at most its share of either reserve.
liquidity_for-share :
    (pair : TradingPair) (amount_a amount_b liquidity : ℕ)
    → 0 < pair.total_liquidity
    → liquidity_for pair amount_a amount_b ≡ some liquidity
    → (la : ℕ) × (lb : ℕ) × (share amount_a pair.total_liquidity pair.reserve_a ≡ some la)
      × (share amount_b pair.total_liquidity pair.reserve_b ≡ some lb)
      × (liquidity ≤ la)
      × (liquidity ≤ lb)
liquidity_for-share pair amount_a amount_b liquidity pos e =
    smaller-some (share amount_a pair.total_liquidity pair.reserve_a)
      (share amount_b pair.total_liquidity pair.reserve_b) liquidity
      (sym (liquidity_for-pos pair amount_a amount_b pos) ∙ e)

-- A share below the exact one leaves no less of the reserve for each unit of liquidity.
share-le :
    (amount total reserve share_of liquidity : ℕ)
    → amount * total < 2 ^ 128
    → reserve + amount < 2 ^ 128
    → total + liquidity < 2 ^ 128
    → share amount total reserve ≡ some share_of
    → liquidity ≤ share_of
    → reserve * ((total + liquidity) % 2 ^ 128) ≤ (reserve + amount) % 2 ^ 128 * total
share-le amount total reserve share_of liquidity fits fits_reserve fits_total e le =
    let kept : (total + liquidity) % 2 ^ 128 ≡ total + liquidity = omega arith in
    let grown : (reserve + amount) % 2 ^ 128 ≡ reserve + amount = omega arith in
    let exact = share-mul amount total reserve share_of fits e in
    let part : liquidity * reserve ≤ share_of * reserve = mul-le-mul le (le_refl reserve) in
    rw (kept, grown) (omega arith)

-- A deposit into a pair that has liquidity gives no more than its share of either reserve, so the
-- liquidity of the others is worth no less of each reserve than before. (The products that the code
-- forms fit into `u128`.)
pub liquidity_for-deposited :
    (pair : TradingPair) (amount_a amount_b liquidity : ℕ)
    → 0 < pair.total_liquidity
    → amount_a * pair.total_liquidity < 2 ^ 128
    → amount_b * pair.total_liquidity < 2 ^ 128
    → pair.reserve_a + amount_a < 2 ^ 128
    → pair.reserve_b + amount_b < 2 ^ 128
    → pair.total_liquidity + liquidity < 2 ^ 128
    → liquidity_for pair amount_a amount_b ≡ some liquidity
    → let pair' = deposited amount_a amount_b liquidity pair in
      (pair.reserve_a * pair'.total_liquidity ≤ pair'.reserve_a * pair.total_liquidity)
      × (pair.reserve_b * pair'.total_liquidity ≤ pair'.reserve_b * pair.total_liquidity)
unfolding deposited
liquidity_for-deposited pair amount_a amount_b liquidity pos fa fb ra rb rt e =
    let (la, lb, ea, eb, low_a, low_b) =
      liquidity_for-share pair amount_a amount_b liquidity pos e in
    (
      share-le amount_a pair.total_liquidity pair.reserve_a la liquidity fa ra rt ea low_a,
      share-le amount_b pair.total_liquidity pair.reserve_b lb liquidity fb rb rt eb low_b,
    )

divided_nonzero : (a b q : ℕ) → divided a b ≡ some q → 0 < b
divided_nonzero a zero q e = cc
divided_nonzero a (suc b) q e = omega arith

pool_split : (a d w out : ℕ) → out * (a + w) ≤ w * (out + d) → a * (out + d) ≤ (a + w) * d
pool_split a d w out le = omega arith

-- What leaves a pool of reserves `a` and `b` for `w` of the first.
pool_bounds :
    (a b w out : ℕ) → 0 < a + w → out * (a + w) ≤ w * b → (out ≤ b) × (a * b ≤ (a + w) * (b - out))
pool_bounds a b w out pos le =
    let widened : (a + w) * out ≤ (a + w) * b = omega (arith, mul-le-mul (le_refl a) (le_refl b)) in
    let low : out ≤ b = le_of_mul-le-mul_left widened pos in
    let split : b ≡ out + (b - out) = omega arith in
    let whole = subst (λ t. out * (a + w) ≤ w * t) split le in
    (low, subst (λ t. a * t ≤ (a + w) * (b - out)) (sym split) (pool_split a (b - out) w out whole))

-- What `amount_out` gives for some of the first token is no more than the reserve of the second, and
-- with the amounts moved the product of the reserves does not fall. (The products that the code forms fit into `u128`, the fee is at
-- most the whole.)
pub amount_out-product :
    (fees : ℕ) (pair : TradingPair) (amount_in out : ℕ)
    → fees ≤ 10_000
    → amount_in * 10_000 < 2 ^ 128
    → amount_in * pair.reserve_b < 2 ^ 128
    → pair.reserve_a + amount_in < 2 ^ 128
    → amount_out fees pair amount_in ≡ some out
    → (out ≤ pair.reserve_b)
      × (pair.reserve_a * pair.reserve_b ≤ (pair.reserve_a + amount_in) * (pair.reserve_b - out))
unfolding amount_out
amount_out-product fees pair amount_in out fee fits1 fits2 fits3 e =
    let factor : ℕ = (10_000 + 2 ^ 128 - fees) % 2 ^ 128 in
    let factor_le : factor ≤ 10_000 = omega arith in
    let scaled : amount_in * factor ≤ amount_in * 10_000 =
      mul-le-mul (le_refl amount_in) factor_le in
    let with_fee : ℕ = amount_in * factor % 2 ^ 128 / 10_000 in
    let fee_le : with_fee ≤ amount_in = omega arith in
    let sum : (pair.reserve_a + with_fee) % 2 ^ 128 ≡ pair.reserve_a + with_fee = omega arith in
    let moved : with_fee * pair.reserve_b ≤ amount_in * pair.reserve_b =
      mul-le-mul fee_le (le_refl pair.reserve_b) in
    let product : with_fee * pair.reserve_b % 2 ^ 128 ≡ with_fee * pair.reserve_b = omega arith in
    let priced : divided (with_fee * pair.reserve_b) (pair.reserve_a + with_fee) ≡ some out = cc in
    let (low, kept) =
      pool_bounds pair.reserve_a pair.reserve_b with_fee out
        (divided_nonzero (with_fee * pair.reserve_b) (pair.reserve_a + with_fee) out priced)
        (divided-mul (with_fee * pair.reserve_b) (pair.reserve_a + with_fee) out priced) in
    let wider =
      mul-le-mul_right (pair.reserve_b - out)
        (let t : pair.reserve_a + with_fee ≤ pair.reserve_a + amount_in = omega arith in t) in
    (low, omega (arith, kept, wider))
