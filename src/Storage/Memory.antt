-- ===== src/Storage/Memory.antt =====
-- `Database` as `MemoryDB` of src/storage/mod.rs implements it. Its calls return `Ok` always; the
-- iterator lists the entries whose keys begin with the prefix.
pub mod Batch
use protonchain.Base.{
  ℕ, Bool, true, false, ◌&&◌, Option, none, some, List, [], ◌∷◌, eqb, if◌then◌else◌, list_key,
}
use protonchain.Base.HashMap
use protonchain.Base.HashMap.{HashMap}

pub record MemoryDb : Type 0 where
  pub entries : HashMap (List ℕ) (List ℕ)

-- `MemoryDB::new`
abbrev pub new_db : MemoryDb
new_db = record { entries = [] }

-- `get`
unfoldable pub get : List ℕ → MemoryDb → Option (List ℕ)
get key db = HashMap.get key db.entries

-- `put`
unfoldable pub put : List ℕ → List ℕ → MemoryDb → MemoryDb
put key value db = record { entries = HashMap.insert key value db.entries }

-- `delete`
unfoldable pub delete : List ℕ → MemoryDb → MemoryDb
delete key db = record { entries = HashMap.remove key db.entries }

-- one entry of a batch: a value to put, or none to delete
unfoldable pub write_entry :
    List ℕ → Option (List ℕ) → HashMap (List ℕ) (List ℕ) → HashMap (List ℕ) (List ℕ)
write_entry key none entries = HashMap.remove key entries
write_entry key (some value) entries = HashMap.insert key value entries

-- the loop of `batch_write`
unfoldable pub write_entries :
    List (List ℕ × Option (List ℕ)) → HashMap (List ℕ) (List ℕ) → HashMap (List ℕ) (List ℕ)
unfolding write_entry
write_entries [] entries = entries
write_entries ((key, value) ∷ batch) entries = write_entries batch (write_entry key value entries)

-- `batch_write`
unfoldable pub batch_write : List (List ℕ × Option (List ℕ)) → MemoryDb → MemoryDb
unfolding write_entries
batch_write batch db = record { entries = write_entries batch db.entries }

-- `starts_with`
abbrev pub starts_with : List ℕ → List ℕ → Bool
starts_with key [] = true
starts_with [] (_ ∷ _) = false
starts_with (k ∷ key) (p ∷ prefix) = eqb k p && starts_with key prefix

prefixed : List ℕ → HashMap (List ℕ) (List ℕ) → List (List ℕ × List ℕ)
prefixed prefix [] = []
prefixed prefix ((key, value) ∷ rest) =
    if starts_with key prefix then (key, value) ∷ prefixed prefix rest else prefixed prefix rest

-- `iterator`
unfoldable pub iterator : List ℕ → MemoryDb → List (List ℕ × List ℕ)
unfolding prefixed
iterator prefix db = prefixed prefix db.entries
