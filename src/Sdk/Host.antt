-- ===== src/Sdk/Host.antt =====
-- What the contracts assume of their host: the key-value storage behind the `host_storage` functions
-- and the JSON form of the values that go there (serde_json). Neither is code of the repository.
use protonchain.Base.{ℕ, ◌≡◌, ◌≢◌, Option, none, some, List}

pub record Host : Type 1 where
  pub Storage : Type 0
  pub read : List ℕ → Storage → Option (List ℕ)
  pub write : List ℕ → List ℕ → Storage → Storage
  pub delete : List ℕ → Storage → Storage
  pub read_written : (k v : List ℕ) (s : Storage) → read k (write k v s) ≡ some v
  pub read_written_other : (k j v : List ℕ) (s : Storage) → k ≢ j → read j (write k v s) ≡ read j s
  pub read_deleted : (k : List ℕ) (s : Storage) → read k (delete k s) ≡ none
  pub read_deleted_other : (k j : List ℕ) (s : Storage) → k ≢ j → read j (delete k s) ≡ read j s

pub record Json (A : Type 0) : Type 0 where
  pub to_vec : A → List ℕ
  pub from_slice : List ℕ → Option A
  pub from_slice-to_vec : (a : A) → from_slice (to_vec a) ≡ some a
