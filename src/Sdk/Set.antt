-- ===== src/Sdk/Set.antt =====
-- `Set<T>` of src/sdk.rs, on the same storage as the maps.
use protonchain.Base.{
  ◌≢◌, same_list_iff, arith, same_list, Bool-cases, ℕ, List, inr, none, inl, Option-cases, some,
  ◌≡◌, refl, Bool, true, false, [], ◌∷◌,
}
use protonchain.Sdk.Host.{Host, Json}
use protonchain.Sdk.Map
use protonchain.Sdk.Map.{is_some}

module _ ⦃host : Host⦄ {T : Type 0} ⦃json : Json T⦄ where
  -- `Set::insert`
  unfoldable pub insert : T → host.Storage → host.Storage
  insert value storage = host.write (json.to_vec value) (1 ∷ []) storage

  -- `Set::contains`
  unfoldable pub contains : T → host.Storage → Bool
  contains value storage = is_some (host.read (json.to_vec value) storage)

  -- `Set::remove`
  unfoldable pub remove : T → host.Storage → host.Storage
  remove value storage = host.delete (json.to_vec value) storage

  pub contains-insert_self : (x : T) (storage : host.Storage) → contains x (insert x storage) ≡ true
  unfolding contains insert
  contains-insert_self x storage = rw (host.read_written (json.to_vec x) (1 ∷ []) storage) refl

  -- Whatever is written to the storage, what is in a set stays in it.
  pub contains-write :
      (x : T) (k v : List ℕ) (storage : host.Storage)
      → contains x storage ≡ true
      → contains x (host.write k v storage) ≡ true
  unfolding contains
  contains-write x k v storage there = elim (Bool-cases (same_list k (json.to_vec x))) [
    | inl same ↦
        let is : k ≡ json.to_vec x = ground (arith, same_list_iff k (json.to_vec x)) in
        rw (is, host.read_written (json.to_vec x) v storage) refl
    | inr other ↦
        let apart : k ≢ json.to_vec x = ground (arith, same_list_iff k (json.to_vec x)) in
        rw (host.read_written_other k (json.to_vec x) v storage apart) there
  ]

  -- What some map of the contract has under a key is also in every set of such keys.
  pub contains-get :
      {V : Type 0} ⦃json_value : Json V⦄ (x : T) (value : V) (storage : host.Storage)
      → Map.get {V = V} x storage ≡ some value
      → contains x storage ≡ true
  unfolding Map.get contains
  contains-get {V} x value storage e = elim (Option-cases (host.read (json.to_vec x) storage)) [
    | inl missing ↦
        let nothing : Map.get {V = V} x storage ≡ none = rw (Map.get, missing) refl in cc
    | inr (bytes, there) ↦ rw there refl
  ]

  -- A set and a map share their keys: a value that was never put into a set is in it as soon as some
  -- map of the contract has an entry under it, and it goes when that map drops the entry.
  pub contains-insert_map :
      {V : Type 0} ⦃json_value : Json V⦄ (x : T) (value : V) (storage : host.Storage)
      → (contains x (Map.insert x value storage) ≡ true)
        × (contains x (Map.remove x (insert x storage)) ≡ false)
  unfolding contains Map.insert Map.remove
  contains-insert_map ⦃json_value⦄ x value storage = (
    rw (host.read_written (json.to_vec x) (json_value.to_vec value) storage) refl,
    rw (host.read_deleted (json.to_vec x) (insert x storage)) refl,
  )
