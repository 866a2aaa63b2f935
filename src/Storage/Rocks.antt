-- ===== src/Storage/Rocks.antt =====
-- `Database` as `RocksDB` of src/storage/mod.rs implements it, over the rocksdb library. Its database
-- `D` is opened, read and written by the library; an error of a read is `none`. The sizes among the
-- options of `new` are the library's concern.
use protonchain.Base.{
  arith, ℕ, ◌≡◌, refl, ap, ◌∙◌, Bool, Option, none, some, List, [], ◌∷◌, ◌++◌, ◌==◌, list_key,
  if◌then◌else◌,
}
use protonchain.Storage.Interface.{Batch, Database, last_entry}

-- the column families that are opened
pub data ColumnFamily : Type 0 where
  default blocks transactions accounts contracts storage metadata index : ColumnFamily

-- the operations of a `WriteBatch`
pub data WriteOp : Type 0 where
  put_op : List ℕ → List ℕ → WriteOp
  delete_op : List ℕ → WriteOp

-- the value of a key after the operations, from the value before them
abbrev pub after_ops : List ℕ → List WriteOp → Option (List ℕ) → Option (List ℕ)
after_ops key [] before = before
after_ops key (put_op k v ∷ ops) before = after_ops key ops (if k == key then some v else before)
after_ops key (delete_op k ∷ ops) before = after_ops key ops (if k == key then none else before)

-- The library: `stored` is what a key has, which a read finds unless it fails. A batch is written as a
-- whole, its operations in their order, or not at all.
pub record RocksLibrary (D : Type 0) : Type 0 where
  pub open_cf_descriptors : List ColumnFamily → Option D
  pub stored : List ℕ → D → Option (List ℕ)
  pub get : List ℕ → D → Option (Option (List ℕ))
  pub put : List ℕ → List ℕ → D → Bool × D
  pub delete : List ℕ → D → Bool × D
  pub write : List WriteOp → D → Bool × D
  pub prefix_iterator : List ℕ → D → List (Option (List ℕ × List ℕ))
  pub stored-write :
      (key : List ℕ) (ops : List WriteOp) (db : D)
      → stored key (write ops db).1
        ≡ (if (write ops db).0 then after_ops key ops (stored key db) else stored key db)

-- the list of `cf_names`
abbrev pub cf_names : List ColumnFamily
cf_names = default ∷ blocks ∷ transactions ∷ accounts ∷ contracts ∷ storage ∷ metadata ∷ index ∷ []

-- the loop of `batch_write`, which adds to the end of `write_batch`
unfoldable pub fill_batch : Batch → List WriteOp → List WriteOp
fill_batch [] write_batch = write_batch
fill_batch ((key, some v) ∷ batch) write_batch = fill_batch batch (write_batch ++ put_op key v ∷ [])
fill_batch ((key, none) ∷ batch) write_batch = fill_batch batch (write_batch ++ delete_op key ∷ [])

-- `item.ok()`, for each item
unfoldable pub read_items : List (Option (List ℕ × List ℕ)) → List (List ℕ × List ℕ)
read_items [] = []
read_items (none ∷ items) = read_items items
read_items (some item ∷ items) = item ∷ read_items items

after_ops-++ :
    (key : List ℕ) (xs ys : List WriteOp) (before : Option (List ℕ))
    → after_ops key (xs ++ ys) before ≡ after_ops key ys (after_ops key xs before)
after_ops-++ key [] ys before = refl
after_ops-++ key (put_op k v ∷ xs) ys before = after_ops-++ key xs ys _
after_ops-++ key (delete_op k ∷ xs) ys before = after_ops-++ key xs ys _

after_ops-fill_batch :
    (key : List ℕ) (batch : Batch) (ops : List WriteOp) (before : Option (List ℕ))
    → after_ops key (fill_batch batch ops) before ≡ last_entry key batch (after_ops key ops before)
unfolding fill_batch
after_ops-fill_batch key [] ops before = refl
after_ops-fill_batch key ((k, some v) ∷ batch) ops before =
    after_ops-fill_batch key batch (ops ++ put_op k v ∷ []) before
    ∙ ap (last_entry key batch) (after_ops-++ key ops (put_op k v ∷ []) before)
after_ops-fill_batch key ((k, none) ∷ batch) ops before =
    after_ops-fill_batch key batch (ops ++ delete_op k ∷ []) before
    ∙ ap (last_entry key batch) (after_ops-++ key ops (delete_op k ∷ []) before)

module _ {D : Type 0} ⦃library : RocksLibrary D⦄ where
  -- `RocksDB::new`
  unfoldable pub open_rocks : Option D
  open_rocks = library.open_cf_descriptors cf_names

  -- `get`: a read that fails counts as a missing key
  unfoldable pub get : List ℕ → D → Option (List ℕ)
  get key db = elim (library.get key db) [ none ↦ none | some value ↦ value ]

  -- `put` and `delete`
  unfoldable pub put : List ℕ → List ℕ → D → Bool × D
  put key value db = library.put key value db

  unfoldable pub delete : List ℕ → D → Bool × D
  delete key db = library.delete key db

  -- `batch_write`
  unfoldable pub batch_write : Batch → D → Bool × D
  unfolding fill_batch
  batch_write batch db = library.write (fill_batch batch []) db

  -- `iterator`
  unfoldable pub iterator : List ℕ → D → List (List ℕ × List ℕ)
  unfolding read_items
  iterator prefix db = read_items (library.prefix_iterator prefix db)

  get_stored :
      ((key : List ℕ) (db : D) → library.get key db ≡ some (library.stored key db))
      → (key : List ℕ) (db : D) → get key db ≡ library.stored key db
  unfolding get
  get_stored reads key db = ground (arith, reads key db)

  -- Where no read fails, RocksDB keeps what the state storage asks of a database: after a batch that
  -- is written each key has its last entry in the batch, and after one that is not, what it had.
  pub get-batch_write :
      ((key : List ℕ) (db : D) → library.get key db ≡ some (library.stored key db))
      → (key : List ℕ) (batch : Batch) (db : D)
      → get key (batch_write batch db).1
        ≡ (if (batch_write batch db).0 then last_entry key batch (get key db) else get key db)
  unfolding batch_write
  get-batch_write reads key batch db =
      rw (get_stored reads key (library.write (fill_batch batch []) db).1, get_stored reads key db)
        (library.stored-write key (fill_batch batch []) db
          ∙ ap
              (λ o. if (library.write (fill_batch batch []) db).0 then o else library.stored key db)
              (after_ops-fill_batch key batch [] (library.stored key db)))

  -- `impl Database for RocksDB`
  pub rocks_database :
      ((key : List ℕ) (db : D) → library.get key db ≡ some (library.stored key db)) → Database D
  rocks_database reads = record {
    get = get;
    batch_write = batch_write;
    iterator = iterator;
    get-batch_write = get-batch_write reads;
  }
