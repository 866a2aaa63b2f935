-- ===== src/Privacy/Mempool.antt =====
-- `EncryptedMempool` of src/privacy/mod.rs. ChaCha20-Poly1305 and bincode are libraries: `open_tx`
-- stands for a decryption that is read as a transaction, with the key and the entry.
use protonchain.Base.{
  ◌∙◌, ℕ, zero, suc, ◌+◌, ◌*◌, ◌/◌, ◌%◌, ◌≡◌, ◌≤◌, refl, ap, false, Option, none, some, List, [],
  ◌∷◌, ◌++◌, length, ltb, if◌then◌else◌, replicate, arith,
}
use protonchain.Types.{Transaction}
use mathlib.Core.List.{Permᴰ}
use protonchain.Privacy.Amount.{xor, xor_twice}

pub record EncryptedTransaction : Type 0 where
  pub ciphertext : List ℕ
  pub nonce : List ℕ
  pub sender_pubkey : List ℕ
  pub gas_price_commitment : List ℕ
  pub timestamp : ℕ

pub record EncryptedMempool : Type 0 where
  pub encrypted_txs : List EncryptedTransaction
  pub decryption_threshold : ℕ

-- `new`
abbrev pub new_mempool : ℕ → EncryptedMempool
new_mempool threshold = record { encrypted_txs = []; decryption_threshold = threshold }

-- `add_encrypted_tx`
unfoldable pub add_encrypted_tx : EncryptedTransaction → EncryptedMempool → EncryptedMempool
add_encrypted_tx tx pool = record pool { encrypted_txs = pool.encrypted_txs ++ tx ∷ [] }

-- `size`
unfoldable pub size : EncryptedMempool → ℕ
size pool = length pool.encrypted_txs

-- `key[i] ^= byte` for the bytes of a share, as far as the key goes
unfoldable pub add_share : List ℕ → List ℕ → List ℕ
unfolding xor
add_share [] share = []
add_share (k ∷ key) [] = k ∷ key
add_share (k ∷ key) (byte ∷ share) = xor 8 k byte ∷ add_share key share

-- the loop over the shares
unfoldable pub add_shares : List ℕ → List (List ℕ) → List ℕ
unfolding add_share
add_shares key [] = key
add_shares key (share ∷ shares) = add_shares (add_share key share) shares

-- the key that the shares make
unfoldable pub combined : List (List ℕ) → List ℕ
unfolding add_shares
combined shares = add_shares (replicate 32 0) shares

module _ (open_tx : List ℕ → EncryptedTransaction → Option Transaction) where
  -- the loop over the entries
  unfoldable pub decrypt_all : List ℕ → List EncryptedTransaction → List Transaction
  decrypt_all key [] = []
  decrypt_all key (tx ∷ txs) =
      let rest = decrypt_all key txs in
      elim (open_tx key tx) [ none ↦ rest | some plain ↦ plain ∷ rest ]

  -- `decrypt_batch`
  unfoldable pub decrypt_batch : List (List ℕ) → EncryptedMempool → Option (List Transaction)
  unfolding combined decrypt_all
  decrypt_batch shares pool =
      if ltb (length shares) pool.decryption_threshold
      then none
      else some (decrypt_all (combined shares) pool.encrypted_txs)

xor_comm3 : (w k a b : ℕ) → xor w (xor w k a) b ≡ xor w (xor w k b) a
unfolding xor
xor_comm3 zero k a b = refl
xor_comm3 (suc w) k a b =
    let first : ((k + a) % 2 + 2 * xor w (k / 2) (a / 2)) / 2 ≡ xor w (k / 2) (a / 2) =
      omega arith in
    let second : ((k + b) % 2 + 2 * xor w (k / 2) (b / 2)) / 2 ≡ xor w (k / 2) (b / 2) =
      omega arith in
    rw (first, second, xor_comm3 w (k / 2) (a / 2) (b / 2)) (omega arith)

add_share_comm : (key s t : List ℕ) → add_share (add_share key s) t ≡ add_share (add_share key t) s
unfolding add_share
add_share_comm [] s t = refl
add_share_comm (k ∷ key) [] [] = refl
add_share_comm (k ∷ key) [] (b ∷ t) = refl
add_share_comm (k ∷ key) (a ∷ s) [] = refl
add_share_comm (k ∷ key) (a ∷ s) (b ∷ t) = rw (xor_comm3 8 k a b, add_share_comm key s t) refl

add_shares-Perm :
    (key : List ℕ) {shares shares' : List (List ℕ)}
    → Permᴰ shares shares'
    → add_shares key shares ≡ add_shares key shares'
unfolding add_shares
add_shares-Perm key Permᴰ.nil = refl
add_shares-Perm key (Permᴰ.cons {a = a} {b = b} {l₂ = rest} e perm) =
    add_shares-Perm (add_share key a) perm ∙ ap (λ s. add_shares (add_share key s) rest) e
add_shares-Perm key (Permᴰ.swap {a = a} {b = b} {a' = a'} {l = rest} e f) =
    ap (λ k. add_shares k rest) (add_share_comm key a b)
    ∙ ap (λ s. add_shares (add_share (add_share key s) a) rest) f
    ∙ ap (λ s. add_shares (add_share (add_share key a') s) rest) e
add_shares-Perm key (Permᴰ.trans p q) = add_shares-Perm key p ∙ add_shares-Perm key q

length-Perm : {A : Type 0} {xs ys : List A} → Permᴰ xs ys → length xs ≡ length ys
length-Perm Permᴰ.nil = refl
length-Perm (Permᴰ.cons e perm) = ap suc (length-Perm perm)
length-Perm (Permᴰ.swap e f) = refl
length-Perm (Permᴰ.trans p q) = length-Perm p ∙ length-Perm q

-- Two equal shares cancel each other.
add_share_twice :
    (n : ℕ) (share : List ℕ) → add_share (add_share (replicate n 0) share) share ≡ replicate n 0
unfolding add_share
add_share_twice zero share = refl
add_share_twice (suc n) [] = refl
add_share_twice (suc n) (b ∷ share) =
    rw (xor_twice 8 0 b (omega arith), add_share_twice n share) refl

module _ (open_tx : List ℕ → EncryptedTransaction → Option Transaction) where
  -- What a batch decrypts to does not depend on the order in which the shares come.
  pub decrypt_batch-Perm :
      (shares shares' : List (List ℕ)) (pool : EncryptedMempool)
      → Permᴰ shares shares'
      → decrypt_batch open_tx shares pool ≡ decrypt_batch open_tx shares' pool
  unfolding decrypt_batch combined
  decrypt_batch-Perm shares shares' pool perm =
      rw (length-Perm perm, add_shares-Perm (replicate 32 0) perm) refl

  -- A share that comes twice counts for the threshold and adds nothing to the key: with a threshold
  -- of at most 2, any share given twice decrypts with the key of 32 zeros.
  pub decrypt_batch_twice :
      (share : List ℕ) (pool : EncryptedMempool)
      → pool.decryption_threshold ≤ 2
      → decrypt_batch open_tx (share ∷ share ∷ []) pool
        ≡ some (decrypt_all open_tx (replicate 32 0) pool.encrypted_txs)
  unfolding decrypt_batch combined add_shares
  decrypt_batch_twice share pool low =
      let enough : ltb 2 pool.decryption_threshold ≡ false = ground arith in
      rw (enough, add_share_twice 32 share) refl
