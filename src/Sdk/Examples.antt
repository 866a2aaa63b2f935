-- ===== src/Sdk/Examples.antt =====
-- A host and forms of values for the tests: a table of byte lists, and tagged lists of numbers.
use protonchain.Base.{
  take-append, drop-append, same_list_iff, ==_refl, ℕ, zero, suc, ◌≡◌, ◌≢◌, refl, Option, none,
  some, List, [], ◌∷◌, ◌++◌, arith, length, take, drop, list_key,
}
use protonchain.Base.HashMap
use protonchain.Base.HashMap.{HashMap}
use protonchain.Types.{Hash, Address}
use protonchain.Sdk.Host.{Host, Json}

pub read_deleted_table :
    (k : List ℕ) (s : HashMap (List ℕ) (List ℕ)) → HashMap.get k (HashMap.remove k s) ≡ none
read_deleted_table k s = ground (arith, HashMap.get-remove k k s, ==_refl k)

pub read_deleted_other_table :
    (k j : List ℕ) (s : HashMap (List ℕ) (List ℕ))
    → k ≢ j
    → HashMap.get j (HashMap.remove k s) ≡ HashMap.get j s
read_deleted_other_table k j s ne = ground (arith, HashMap.get-remove k j s, same_list_iff k j)

instance abbrev pub table_host : Host
table_host = record {
  Storage = HashMap (List ℕ) (List ℕ);
  read = λ k s. HashMap.get k s;
  write = λ k v s. HashMap.insert k v s;
  delete = λ k s. HashMap.remove k s;
  read_written = λ k v s. HashMap.get-insert_self k v s;
  read_written_other = λ k j v s ne. HashMap.get-insert_ne k j v s ne;
  read_deleted = read_deleted_table;
  read_deleted_other = read_deleted_other_table;
}

abbrev read_number : List ℕ → Option ℕ
read_number (n ∷ []) = some n
read_number _ = none

instance abbrev pub number_json : Json ℕ
number_json = record {
  to_vec = λ n. n ∷ [];
  from_slice = read_number;
  from_slice-to_vec = λ n. refl;
}

abbrev read_address : List ℕ → Option Address
read_address (zero ∷ bytes) = some (record { bytes = bytes })
read_address _ = none

instance abbrev pub address_json : Json Address
address_json = record {
  to_vec = λ a. 0 ∷ a.bytes;
  from_slice = read_address;
  from_slice-to_vec = λ a. refl;
}

abbrev read_hash : List ℕ → Option Hash
read_hash (suc (suc (suc _)) ∷ bytes) = some (record { bytes = bytes })
read_hash _ = none

instance abbrev pub hash_json : Json Hash
hash_json = record {
  to_vec = λ h. 3 ∷ h.bytes;
  from_slice = read_hash;
  from_slice-to_vec = λ h. refl;
}

abbrev read_pair : List ℕ → Option (Address × Address)
read_pair (_ ∷ n ∷ bytes) = some (record { bytes = take n bytes }, record { bytes = drop n bytes })
read_pair _ = none

abbrev pub pair_vec : Address × Address → List ℕ
pair_vec p = 1 ∷ length p.0.bytes ∷ p.0.bytes ++ p.1.bytes

pub read_pair-pair_vec : (p : Address × Address) → read_pair (pair_vec p) ≡ some p
read_pair-pair_vec p =
    rw
      (
        take-append (length p.0.bytes) p.0.bytes p.1.bytes refl,
        drop-append (length p.0.bytes) p.0.bytes p.1.bytes refl,
      )
      refl

instance abbrev pub pair_json : Json (Address × Address)
pair_json = record {
  to_vec = pair_vec;
  from_slice = read_pair;
  from_slice-to_vec = read_pair-pair_vec;
}

pub address_apart_pair :
    (a : Address) (p : Address × Address) → address_json.to_vec a ≢ pair_json.to_vec p
address_apart_pair a p = λ e. cc
