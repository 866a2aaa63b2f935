-- ===== src/Sdk/Map.antt =====
-- `Map<K, V>` of src/sdk.rs. It holds no data: every map of a contract reads and writes the one
-- storage of the contract, under the JSON form of the key.
use protonchain.Base.{ℕ, ◌≡◌, ◌≢◌, refl, Bool, true, false, Option, none, some, List, []}
use protonchain.Sdk.Host.{Host, Json}

-- `?` on two calls that may fail
abbrev parsed : {V : Type 0} → (List ℕ → Option V) → Option (List ℕ) → Option V
parsed from_slice none = none
parsed from_slice (some bytes) = from_slice bytes

abbrev pub is_some : {V : Type 0} → Option V → Bool
is_some none = false
is_some (some _) = true

module _ ⦃host : Host⦄ {K : Type 0} ⦃json_key : Json K⦄ where
  -- `Map::remove`
  unfoldable pub remove : K → host.Storage → host.Storage
  remove key storage = host.delete (json_key.to_vec key) storage

  module _ {V : Type 0} ⦃json_value : Json V⦄ where
    -- `Map::get`
    unfoldable pub get : K → host.Storage → Option V
    get key storage = parsed json_value.from_slice (host.read (json_key.to_vec key) storage)

    -- `Map::insert`
    unfoldable pub insert : K → V → host.Storage → host.Storage
    insert key value storage = host.write (json_key.to_vec key) (json_value.to_vec value) storage

    -- `Map::iter`, which lists nothing
    unfoldable pub iter : host.Storage → List (K × V)
    iter storage = []

    pub get-insert_self :
        (key : K) (value : V) (storage : host.Storage)
        → get key (insert key value storage) ≡ some value
    unfolding get insert
    get-insert_self key value storage =
        rw (host.read_written (json_key.to_vec key) (json_value.to_vec value) storage)
          (json_value.from_slice-to_vec value)

    pub get-remove_self : (key : K) (storage : host.Storage) → get key (remove key storage) ≡ none
    unfolding get remove
    get-remove_self key storage = rw (host.read_deleted (json_key.to_vec key) storage) refl

-- An entry that another map with the same key wrote is lost on a map whose values have other forms.
pub get-insert_unread :
    ⦃host : Host⦄ {K V W : Type 0} ⦃json_key : Json K⦄ ⦃v : Json V⦄ ⦃w : Json W⦄ (key : K)
    (value : V) (storage : host.Storage)
    → w.from_slice (v.to_vec value) ≡ none
    → get {V = W} key (insert key value storage) ≡ none
unfolding get insert
get-insert_unread ⦃host⦄ ⦃json_key⦄ ⦃v⦄ key value storage unread =
    rw (host.read_written (json_key.to_vec key) (v.to_vec value) storage) unread

-- `Map::contains_key`, for values of the type `V`
unfoldable pub contains_key :
    ⦃host : Host⦄ {K : Type 0} ⦃json_key : Json K⦄ (V : Type 0) ⦃json_value : Json V⦄
    → K
    → host.Storage
    → Bool
contains_key V key storage = is_some (get {V = V} key storage)

module _ ⦃host : Host⦄ {K J W : Type 0} ⦃k : Json K⦄ ⦃j : Json J⦄ ⦃w : Json W⦄ (key : K) (other : J)
    (apart : k.to_vec key ≢ j.to_vec other) (storage : host.Storage) where
  -- An entry of one map stays when another map is changed under a key of another JSON form.
  pub get-insert_other :
      {V : Type 0} ⦃v : Json V⦄ (value : V)
      → get {V = W} other (insert key value storage) ≡ get other storage
  unfolding get insert
  get-insert_other ⦃v⦄ value =
      rw (host.read_written_other (k.to_vec key) (j.to_vec other) (v.to_vec value) storage apart)
        refl

  pub get-remove_other : get {V = W} other (remove key storage) ≡ get other storage
  unfolding get remove
  get-remove_other = rw (host.read_deleted_other (k.to_vec key) (j.to_vec other) storage apart) refl
