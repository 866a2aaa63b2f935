-- ===== src/Contracts/PrivateToken/Spending.antt =====
-- The nullifiers of contracts/private_token.rs over any sequence of calls.
use protonchain.Base.{
  ◌+◌, ◌%◌, ◌^◌, sym, ℕ, ◌≡◌, refl, Bool, true, false, not, Option, none, some, List, [], ◌∷◌, ◌==◌,
  ◌||◌, inl, inr, Bool-cases, ap,
}
use protonchain.Types.{Hash, Hasher, Address, hash_key, le_bytes}
use protonchain.Sdk.Host.{Host, Json}
use protonchain.Sdk.Set
use protonchain.Sdk.Commitments.{update_merkle_root}
use protonchain.Contracts.PrivateToken.{
  PrivateToken, Event, balance_key, get_public_balance, mint, private_transfer,
}

module _ ⦃host : Host⦄ ⦃h : Hasher⦄ ⦃json_hash : Json Hash⦄ {Proof : Type 0}
    (verify : Proof → Hash → Hash → Hash → Bool) where
  -- the states that a token goes through by its calls
  pub data Reaches : PrivateToken → PrivateToken → Type 0 where
    done : {c : PrivateToken} → Reaches c c
    by_mint :
        {c c' d : PrivateToken} (is_owner : Bool) (to : Address) (amount : ℕ) (es : List Event)
        → mint is_owner to amount c ≡ some (c', es)
        → Reaches c' d
        → Reaches c d
    by_transfer :
        {c c' d : PrivateToken} (proof : Proof) (nullifier commitment root : Hash)
        (encrypted_amount : List ℕ) (es : List Event)
        → private_transfer verify proof nullifier commitment root encrypted_amount c ≡ some (c', es)
        → Reaches c' d
        → Reaches c d

  abbrev storage_of : Option (PrivateToken × List Event) → host.Storage → host.Storage
  storage_of none storage = storage
  storage_of (some (c, _)) storage = c.storage

  contains-mint :
      (nullifier : Hash) (is_owner : Bool) (to : Address) (amount : ℕ) (c c' : PrivateToken)
      (es : List Event)
      → mint is_owner to amount c ≡ some (c', es)
      → Set.contains nullifier c.storage ≡ true
      → Set.contains nullifier c'.storage ≡ true
  unfolding mint
  contains-mint nullifier false to amount c c' es e spent = cc
  contains-mint nullifier true to amount c c' es e spent =
      let bytes = le_bytes 16 ((get_public_balance to c + amount) % 2 ^ 128) in
      let made : c'.storage ≡ host.write (balance_key to) bytes c.storage =
        ap (λ o. storage_of o c.storage) (sym e) in
      rw made (Set.contains-write nullifier (balance_key to) bytes c.storage spent)

  contains-private_transfer :
      (spent_one : Hash) (proof : Proof) (nullifier commitment root : Hash)
      (encrypted_amount : List ℕ) (c c' : PrivateToken) (es : List Event)
      → private_transfer verify proof nullifier commitment root encrypted_amount c ≡ some (c', es)
      → (Set.contains nullifier c'.storage ≡ true)
        × (Set.contains spent_one c.storage ≡ true → Set.contains spent_one c'.storage ≡ true)
  unfolding private_transfer Set.insert
  contains-private_transfer spent_one proof nullifier commitment root encrypted_amount c c' es e =
      elim (Bool-cases (
        not (verify proof nullifier commitment root)
        || Set.contains nullifier c.storage
        || not (root == c.merkle_root))) [
          | inl refused ↦ cc
          | inr taken ↦
              let made : record c {
                storage = Set.insert nullifier c.storage;
                merkle_root = update_merkle_root c.merkle_root commitment;
              }
                  ≡ c' =
                cc in
              let kept : Set.insert nullifier c.storage ≡ c'.storage = ap (λ d. d.storage) made in
              (
                rw (← kept) (Set.contains-insert_self nullifier c.storage),
                λ there. rw (← kept) (
                    Set.contains-write spent_one (json_hash.to_vec nullifier) (1 ∷ []) c.storage
                      there),
              )
        ]

  contains-Reaches :
      (nullifier : Hash) (c d : PrivateToken)
      → Reaches c d
      → Set.contains nullifier c.storage ≡ true
      → Set.contains nullifier d.storage ≡ true
  contains-Reaches nullifier c _ done spent = spent
  contains-Reaches nullifier c d (by_mint {c' = c'} is_owner to amount es e later) spent =
      contains-Reaches nullifier c' d later
        (contains-mint nullifier is_owner to amount c c' es e spent)
  contains-Reaches nullifier c d
        (by_transfer {c' = c'} proof other commitment root encrypted_amount es e later) spent =
      contains-Reaches nullifier c' d later (
        (contains-private_transfer nullifier proof other commitment root encrypted_amount c c' es
            e).1
          spent)

  private_transfer_spent :
      (proof : Proof) (nullifier commitment root : Hash) (encrypted_amount : List ℕ)
      (c : PrivateToken)
      → Set.contains nullifier c.storage ≡ true
      → private_transfer verify proof nullifier commitment root encrypted_amount c ≡ none
  unfolding private_transfer
  private_transfer_spent proof nullifier commitment root encrypted_amount c spent =
      elim (Bool-cases (verify proof nullifier commitment root)) [
        | inl valid ↦ rw (private_transfer, valid, spent) refl
        | inr forged ↦ rw (private_transfer, forged) refl
      ]

  -- No nullifier is spent twice: after a private transfer, no call with its nullifier succeeds, in
  -- whatever state the token is by then.
  pub private_transfer_once :
      (proof : Proof) (nullifier commitment root : Hash) (encrypted_amount : List ℕ)
      (c c' d : PrivateToken) (es : List Event)
      → private_transfer verify proof nullifier commitment root encrypted_amount c ≡ some (c', es)
      → Reaches c' d
      → (proof' : Proof) (commitment' root' : Hash) (encrypted_amount' : List ℕ)
      → private_transfer verify proof' nullifier commitment' root' encrypted_amount' d ≡ none
  private_transfer_once proof nullifier commitment root encrypted_amount c c' d es e later proof'
        commitment' root' encrypted_amount' =
      let spent =
        contains-private_transfer nullifier proof nullifier commitment root encrypted_amount c c' es
          e in
      private_transfer_spent proof' nullifier commitment' root' encrypted_amount' d
        (contains-Reaches nullifier c' d later spent.0)
