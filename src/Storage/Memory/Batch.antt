-- ===== src/Storage/Memory/Batch.antt =====
-- What a batch leaves behind: for each key its last entry in the batch decides.
use protonchain.Base.{
  true, ap, ◌∙◌, ℕ, ◌≡◌, refl, Option, none, some, List, [], ◌∷◌, if◌then◌else◌, ◌==◌, list_key,
}
use protonchain.Base.HashMap
use protonchain.Base.HashMap.{HashMap}
use protonchain.Storage.Interface.{Batch, Database, last_entry}
use protonchain.Storage.Memory.{iterator, MemoryDb, get, write_entry, write_entries, batch_write}

get-write_entry :
    (key k : List ℕ) (value : Option (List ℕ)) (m : HashMap (List ℕ) (List ℕ))
    → HashMap.get key (write_entry k value m) ≡ (if k == key then value else HashMap.get key m)
unfolding write_entry
get-write_entry key k none m = HashMap.get-remove k key m
get-write_entry key k (some v) m = HashMap.get-insert k key v m

get-write_entries :
    (key : List ℕ) (batch : List (List ℕ × Option (List ℕ))) (m : HashMap (List ℕ) (List ℕ))
    → HashMap.get key (write_entries batch m) ≡ last_entry key batch (HashMap.get key m)
unfolding write_entries
get-write_entries key [] m = refl
get-write_entries key ((k, value) ∷ batch) m =
    get-write_entries key batch (write_entry k value m)
    ∙ ap (last_entry key batch) (get-write_entry key k value m)

-- After a batch, a key that the batch names has the value of its last entry there (none, if that
-- entry deletes it), and any other key has the value that it had.
pub get-batch_write :
    (key : List ℕ) (batch : List (List ℕ × Option (List ℕ))) (db : MemoryDb)
    → get key (batch_write batch db) ≡ last_entry key batch (get key db)
unfolding get batch_write
get-batch_write key batch db = get-write_entries key batch db.entries

pub get-batch_write_law :
    (key : List ℕ) (batch : Batch) (db : MemoryDb)
    → get key (batch_write batch db)
      ≡ (if true then last_entry key batch (get key db) else get key db)
get-batch_write_law key batch db = get-batch_write key batch db

-- `impl Database for MemoryDB`: every call returns `Ok`.
instance abbrev pub memory_database : Database MemoryDb
memory_database = record {
  get = λ key db. get key db;
  batch_write = λ batch db. (true, batch_write batch db);
  iterator = λ prefix db. iterator prefix db;
  get-batch_write = λ key batch db. get-batch_write_law key batch db;
}
