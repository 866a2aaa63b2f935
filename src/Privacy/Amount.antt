-- ===== src/Privacy/Amount.antt =====
-- `encrypt_amount` of src/privacy/mod.rs: the 16 bytes of the amount, each xored with a byte of the
-- secret, whose 8 bytes are used twice.
use protonchain.Base.{
  length, drop, ◌≤◌, ℕ, zero, suc, ◌+◌, ◌*◌, ◌/◌, ◌%◌, ◌^◌, ◌<◌, ◌≡◌, refl, ap, ◌∙◌, List, [], ◌∷◌,
  ◌++◌, arith,
}
use native.Mathlib.Nat.{le_refl}
use native.Mathlib.Numerals.{unary_clauses}
use protonchain.Storage.Keys.{from_le_bytes-le_bytes}
use protonchain.Types.{le_bytes, from_le_bytes}

-- `a ^ b` on `w` bits
unfoldable pub xor : ℕ → ℕ → ℕ → ℕ
xor zero a b = 0
xor (suc w) a b = (a + b) % 2 + 2 * xor w (a / 2) (b / 2)

-- `.zip(..).map(|(a, b)| a ^ b)`
unfoldable pub xor_bytes : List ℕ → List ℕ → List ℕ
unfolding xor
xor_bytes [] keys = []
xor_bytes (x ∷ xs) [] = []
xor_bytes (x ∷ xs) (k ∷ keys) = xor 8 x k ∷ xor_bytes xs keys

-- the bytes of the secret, as often as they are used
unfoldable pub key_bytes : ℕ → List ℕ
unfolding le_bytes
key_bytes secret = le_bytes 8 secret ++ le_bytes 8 secret

-- `encrypt_amount`
unfoldable pub encrypt_amount : ℕ → ℕ → List ℕ
unfolding xor_bytes key_bytes le_bytes
encrypt_amount amount secret = xor_bytes (le_bytes 16 amount) (key_bytes secret)

pub xor_twice : (w a b : ℕ) → a < 2 ^ w → xor w (xor w a b) b ≡ a
unfolding xor
xor_twice zero a b small = omega arith
xor_twice (suc w) a b small =
    let rest : ℕ = xor w (a / 2) (b / 2) in
    let low : ((a + b) % 2 + 2 * rest) / 2 ≡ rest = omega arith in
    let bound : a < 2 ^ w * 2 = simp unary_clauses at small in
    let half : a / 2 < 2 ^ w = omega arith in
    rw (low, xor_twice w (a / 2) (b / 2) half) (omega arith)

xor_bytes_twice :
    (w n : ℕ) (keys : List ℕ)
    → w ≤ length keys
    → xor_bytes (xor_bytes (le_bytes w n) keys) keys ≡ le_bytes w n
unfolding xor_bytes le_bytes
xor_bytes_twice zero n keys long = refl
xor_bytes_twice (suc w) n [] long = absurd (omega arith)
xor_bytes_twice (suc w) n (k ∷ keys) long =
    rw (xor_twice 8 (n % 256) k (omega arith), xor_bytes_twice w (n / 256) keys (omega arith)) refl

-- Who knows the secret reads the amount off its encryption.
pub encrypt_amount_twice :
    (amount secret : ℕ)
    → amount < 2 ^ 128
    → from_le_bytes (xor_bytes (encrypt_amount amount secret) (key_bytes secret)) ≡ amount
unfolding encrypt_amount key_bytes
encrypt_amount_twice amount secret fits =
    ap from_le_bytes (xor_bytes_twice 16 amount (key_bytes secret) (le_refl 16))
    ∙ from_le_bytes-le_bytes 16 amount fits

xor_zero : (w b : ℕ) → b < 2 ^ w → xor w 0 b ≡ b
unfolding xor
xor_zero zero b small = omega arith
xor_zero (suc w) b small =
    let bound : b < 2 ^ w * 2 = simp unary_clauses at small in
    rw (xor_zero w (b / 2) (omega arith)) (omega arith)

xor_bytes_zero : (w n : ℕ) → xor_bytes (le_bytes w 0) (le_bytes w n) ≡ le_bytes w n
unfolding xor_bytes le_bytes
xor_bytes_zero zero n = refl
xor_bytes_zero (suc w) n = rw (xor_zero 8 (n % 256) (omega arith), xor_bytes_zero w (n / 256)) refl

-- The encryption of an amount below 2^64 ends in the secret: its last eight bytes are the secret's.
pub encrypt_amount-secret :
    (amount secret : ℕ)
    → amount < 2 ^ 64
    → secret < 2 ^ 64
    → from_le_bytes (drop 8 (encrypt_amount amount secret)) ≡ secret
unfolding encrypt_amount key_bytes xor_bytes le_bytes
encrypt_amount-secret amount secret small fits =
    let high : amount / 256 / 256 / 256 / 256 / 256 / 256 / 256 / 256 ≡ 0 = omega arith in
    ap (λ t. from_le_bytes (xor_bytes (le_bytes 8 t) (le_bytes 8 secret))) high
    ∙ ap from_le_bytes (xor_bytes_zero 8 secret)
    ∙ from_le_bytes-le_bytes 8 secret fits
