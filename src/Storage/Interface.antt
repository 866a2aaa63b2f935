-- ===== src/Storage/Interface.antt =====
-- What the state storage uses: the trait `Database` of src/storage/mod.rs, the cache of the lru
-- library, and bincode. A batch is written as a whole or not at all, as RocksDB documents it.
use protonchain.Base.{
  ℕ, ◌≡◌, ◌≢◌, ◌⊎◌, Bool, Option, none, some, List, [], ◌∷◌, if◌then◌else◌, ◌==◌, list_key,
}
use protonchain.Types.{Hash, Account}

abbrev pub Batch : Type 0
Batch = List (List ℕ × Option (List ℕ))

-- the value of a key after a batch, from the value before it
abbrev pub last_entry : List ℕ → Batch → Option (List ℕ) → Option (List ℕ)
last_entry key [] before = before
last_entry key ((k, value) ∷ batch) before =
    last_entry key batch (if k == key then value else before)

-- `batch_write` says whether it returned `Ok`.
pub record Database (D : Type 0) : Type 0 where
  pub get : List ℕ → D → Option (List ℕ)
  pub batch_write : Batch → D → Bool × D
  pub iterator : List ℕ → D → List (List ℕ × List ℕ)
  pub get-batch_write :
      (key : List ℕ) (batch : Batch) (db : D)
      → get key (batch_write batch db).1
        ≡ (if (batch_write batch db).0 then last_entry key batch (get key db) else get key db)

-- `LruCache<Hash, Account>`. A read returns the cache too, since it is noted as recent; a write may
-- evict other entries, and never changes them.
pub record LruCache (C : Type 0) : Type 0 where
  pub get : Hash → C → Option Account × C
  pub put : Hash → Account → C → C
  pub get-put_self : (k : Hash) (x : Account) (c : C) → (get k (put k x c)).0 ≡ some x
  pub get-put_other :
      (k j : Hash) (x : Account) (c : C)
      → k ≢ j
      → ((get j (put k x c)).0 ≡ none) ⊎ ((get j (put k x c)).0 ≡ (get j c).0)
  pub get-get : (k j : Hash) (c : C) → (get j (get k c).1).0 ≡ (get j c).0

-- `bincode::serialize` and `bincode::deserialize` at one type; `none` is an error.
pub record Codec (A : Type 0) : Type 0 where
  pub serialize : A → Option (List ℕ)
  pub deserialize : List ℕ → Option A
  pub deserialize-serialize :
      (a : A) (bytes : List ℕ) → serialize a ≡ some bytes → deserialize bytes ≡ some a
