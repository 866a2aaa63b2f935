-- ===== src/Storage/State/Durable.antt =====
-- What a commit makes durable.
use protonchain.Base.{
  ℕ, ◌≡◌, refl, ap, ◌∙◌, true, false, Option, none, some, List, [], ◌∷◌, ◌++◌, if◌then◌else◌, ◌==◌,
  list_key, inl, inr, ◌⊎◌, Bool-cases, Option-cases,
}
use protonchain.Types.{same_address, Hasher, Address, Account, digest, address_key}
use protonchain.Storage.Interface.{Batch, Database, LruCache, Codec, last_entry}
use protonchain.Storage.Keys.{account_key}
use protonchain.Storage.State.{
  StateStorage, StateSnapshot, decoded, push_change, write_batch, commit, put_account, get_account,
  put_accounts, apply_snapshot, load_account,
}

pub last_entry-append :
    (key : List ℕ) (xs ys : Batch) (before : Option (List ℕ))
    → last_entry key (xs ++ ys) before ≡ last_entry key ys (last_entry key xs before)
last_entry-append key [] ys before = refl
last_entry-append key ((k, value) ∷ xs) ys before =
    last_entry-append key xs ys (if k == key then value else before)

account_key-eq : (a b : Address) → (account_key a == account_key b) ≡ (a == b)
unfolding account_key
account_key-eq a b = refl

-- the last account of a list for an address, or the one before
abbrev pub last_account : Address → List (Address × Account) → Option Account → Option Account
last_account a [] before = before
last_account a ((b, x) ∷ rest) before = last_account a rest (if b == a then some x else before)

module _ {D C : Type 0} ⦃database : Database D⦄ ⦃lru : LruCache C⦄ where
  write_batch_lem :
      (changes : Batch) (s : StateStorage D C) (key : List ℕ)
      → s.pending_changes ≡ changes
      → let (ok, s') = write_batch changes s in
        (s'.pending_changes ≡ [])
        × (database.get key s'.db ≡ (
            if ok then last_entry key changes (database.get key s.db) else database.get key s.db))
        × (s'.cache ≡ s.cache)
  unfolding write_batch
  write_batch_lem [] s key e = (e, refl, refl)
  write_batch_lem (change ∷ changes) s key e =
      (refl, database.get-batch_write key (change ∷ changes) s.db, refl)

  -- After `commit` nothing is pending. If it returned `Ok`, every key has the value of its last
  -- pending change, or the value that it had; if not, the database is as it was, and so the pending
  -- changes are lost. The cache stays as it is.
  pub commit_lem :
      (s : StateStorage D C) (key : List ℕ)
      → let (ok, s') = commit s in
        (s'.pending_changes ≡ [])
        × (database.get key s'.db ≡ (
            if ok
            then last_entry key s.pending_changes (database.get key s.db)
            else database.get key s.db))
        × (s'.cache ≡ s.cache)
  unfolding commit
  commit_lem s key = write_batch_lem s.pending_changes s key refl

  module _ ⦃h : Hasher⦄ ⦃codec : Codec Account⦄ where
    -- the account that the database will have once the pending changes are written
    abbrev pub upcoming : Address → StateStorage D C → Option Account
    upcoming a s =
        decoded (last_entry (account_key a) s.pending_changes (database.get (account_key a) s.db))

    pub put_account_cases :
        (a : Address) (x : Account) (s : StateStorage D C)
        → (put_account a x s ≡ (false, s))
          ⊎ ((bytes : List ℕ) × (codec.serialize x ≡ some bytes)
              × (put_account a x s ≡ (
                true,
                push_change
                    (account_key a)
                    bytes
                    (record s { cache = lru.put (digest a.bytes) x s.cache }),
              )))
    unfolding put_account
    put_account_cases a x s = elim (Option-cases (codec.serialize x)) [
      | inl failed ↦ inl (rw (failed, put_account) refl)
      | inr (bytes, e) ↦ inr (bytes, e, rw (e, put_account) refl)
    ]

    -- the change that `put_account` pushes, as the address tells it from the others
    upcoming-push_change :
        (a b : Address) (x : Account) (bytes : List ℕ) (cache : C) (s : StateStorage D C)
        → codec.serialize x ≡ some bytes
        → upcoming a (push_change (account_key b) bytes (record s { cache = cache }))
          ≡ (if b == a then some x else upcoming a s)
    unfolding push_change account_key
    upcoming-push_change a b x bytes cache s e =
        rw
          (last_entry-append (account_key a) s.pending_changes ((account_key b, some bytes) ∷ [])
            (database.get (account_key a) s.db))
          (elim (Bool-cases (same_address b a)) [
            | inl same ↦ rw same (codec.deserialize-serialize x bytes e)
            | inr other ↦ rw other refl
          ])

    put_account-upcoming :
        (a b : Address) (x : Account) (s : StateStorage D C)
        → (put_account b x s).0 ≡ true
        → (upcoming a (put_account b x s).1 ≡ (if b == a then some x else upcoming a s))
          × ((put_account b x s).1.db ≡ s.db)
    unfolding push_change
    put_account-upcoming a b x s ok = elim (put_account_cases b x s) [
      | inl failed ↦ cc
      | inr (bytes, e, saved) ↦
          rw saved (upcoming-push_change a b x bytes (lru.put (digest b.bytes) x s.cache) s e, refl)
    ]

    put_accounts-upcoming :
        (a : Address) (accounts : List (Address × Account)) (s : StateStorage D C)
        → (put_accounts accounts s).0 ≡ true
        → upcoming a (put_accounts accounts s).1 ≡ last_account a accounts (upcoming a s)
    unfolding put_accounts
    put_accounts-upcoming a [] s ok = refl
    put_accounts-upcoming a ((b, x) ∷ rest) s ok = elim (Bool-cases (put_account b x s).0) [
      | inl saved ↦
          let s' = (put_account b x s).1 in
          let ok' : (put_accounts rest s').0 ≡ true = rw (saved, put_accounts) at ok in
          rw (saved, put_accounts)
            (put_accounts-upcoming a rest s' ok'
              ∙ ap (last_account a rest) (put_account-upcoming a b x s saved).0)
      | inr failed ↦ let stop : false ≡ true = rw (failed, put_accounts) at ok in cc
    ]

    -- the account that the database has
    abbrev pub stored : Address → StateStorage D C → Option Account
    stored a s = decoded (database.get (account_key a) s.db)

    pub commit-stored :
        (a : Address) (s : StateStorage D C)
        → (commit s).0 ≡ true
        → stored a (commit s).1 ≡ upcoming a s
    commit-stored a s ok = ap decoded ((commit_lem s (account_key a)).1 ∙ rw ok refl)

    -- what is loaded is what the database has
    load_account-stored : (a : Address) (s : StateStorage D C) → (load_account a s).0 ≡ stored a s
    unfolding load_account
    load_account-stored a s = elim (Option-cases (stored a s)) [
      | inl e ↦ rw (e, load_account) refl
      | inr (x, e) ↦ rw (e, load_account) refl
    ]

    -- a node that starts with a cache that does not know the address reads the database
    get_account-missed :
        (a : Address) (cache : C) (s : StateStorage D C)
        → (lru.get (digest a.bytes) cache).0 ≡ none
        → (get_account a (record s { cache = cache })).0 ≡ stored a s
    unfolding get_account
    get_account-missed a cache s miss = rw (miss, get_account) (load_account-stored a _)

    -- After `put_account` and `commit` both returned `Ok`, a node that starts with a cache that does
    -- not know the address reads the account that was put; of any other address it reads what was in
    -- the database or pending before.
    pub put_account-commit :
        (a b : Address) (x : Account) (cache : C) (s : StateStorage D C)
        → let (saved, s') = put_account b x s in
          let (written, s'') = commit s' in
          saved ≡ true
          → written ≡ true
          → (lru.get (digest a.bytes) cache).0 ≡ none
          → (get_account a (record s'' { cache = cache })).0
            ≡ (if b == a then some x else upcoming a s)
    put_account-commit a b x cache s saved written miss =
        get_account-missed a cache (commit (put_account b x s).1).1 miss
        ∙ commit-stored a (put_account b x s).1 written
        ∙ (put_account-upcoming a b x s saved).0

    -- A snapshot that is applied without an error overrides the accounts of the storage: of every
    -- address the database then has the last account that the snapshot lists for it, or else what
    -- it had or what was pending.
    pub apply_snapshot-stored :
        (a : Address) (snapshot : StateSnapshot) (s : StateStorage D C)
        → (apply_snapshot snapshot s).0 ≡ true
        → stored a (apply_snapshot snapshot s).1 ≡ last_account a snapshot.accounts (upcoming a s)
    unfolding apply_snapshot
    apply_snapshot-stored a snapshot s ok =
        let s' = (put_accounts snapshot.accounts s).1 in
        elim (Bool-cases (put_accounts snapshot.accounts s).0) [
          | inl saved ↦
              let ok' : (commit s').0 ≡ true = rw (saved, apply_snapshot) at ok in
              rw (saved, apply_snapshot)
                (commit-stored a s' ok' ∙ put_accounts-upcoming a snapshot.accounts s saved)
          | inr failed ↦ let stop : false ≡ true = rw (failed, apply_snapshot) at ok in cc
        ]
