-- ===== src/Storage/State/Cached.antt =====
-- What the cache shows that the database does not have.
use protonchain.Base.{◌≡◌, refl, true, some, [], inl, inr}
use protonchain.Types.{Hasher, Address, Account, digest}
use protonchain.Storage.Interface.{Database, LruCache, Codec}
use protonchain.Storage.State.{
  StateStorage, push_change, put_account, get_account, rollback, commit, state_root, change_bytes,
}
use protonchain.Storage.State.Durable.{commit_lem, put_account_cases}

module _ {D C : Type 0} ⦃database : Database D⦄ ⦃lru : LruCache C⦄ ⦃h : Hasher⦄
    ⦃codec : Codec Account⦄ (a : Address) (x : Account) (s : StateStorage D C) where
  -- A rollback does not reach the cache: after `put_account` returned `Ok` and `rollback`, nothing is
  -- pending and the database has what it had for every key, but `get_account` still returns the
  -- account that was put.
  pub get_account-rollback :
      (put_account a x s).0 ≡ true
      → let s' = rollback (put_account a x s).1 in
        (s'.pending_changes ≡ []) × (s'.db ≡ s.db) × ((get_account a s').0 ≡ some x)
  unfolding rollback get_account push_change
  get_account-rollback ok = elim (put_account_cases a x s) [
    | inl failed ↦ cc
    | inr (bytes, _, saved) ↦
        rw saved (refl, refl, rw (lru.get-put_self (digest a.bytes) x s.cache, get_account) refl)
  ]

  -- The state root covers the pending changes alone: after every commit it is the hash of no bytes,
  -- whatever was stored.
  pub state_root-commit : state_root (commit s).1 ≡ digest []
  unfolding state_root change_bytes
  state_root-commit = rw ((commit_lem s []).0) refl
