-- ===== src/Sdk/Serial.antt =====
-- Forms of values for the tests: encodings that say where they end, put together from their parts,
-- and tagged to make the JSON forms of a contract.
use protonchain.Base.{
  ap, ◌∙◌, ◌∙◌, ℕ, zero, suc, ◌≡◌, refl, Bool, true, Option, none, some, List, [], ◌∷◌, length, eqb,
  if◌then◌else◌, arith,
}
use protonchain.Fixtures.{flag, read_flag, read_flag-flag}
use protonchain.Types.{Address, Hash}
use protonchain.Sdk.Host.{Json}

-- `put` writes a value before the rest of the bytes, and `get` reads it off again.
pub record Serial (A : Type 0) : Type 0 where
  pub put : A → List ℕ → List ℕ
  pub get : List ℕ → Option (A × List ℕ)
  pub get-put : (a : A) (rest : List ℕ) → get (put a rest) ≡ some (a, rest)

abbrev get_number : List ℕ → Option (ℕ × List ℕ)
get_number [] = none
get_number (n ∷ rest) = some (n, rest)

abbrev pub number : Serial ℕ
number = record { put = λ n rest. n ∷ rest; get = get_number; get-put = λ n rest. refl }

-- a value read as another
abbrev as_other : {A B : Type 0} → (A → B) → Option (A × List ℕ) → Option (B × List ℕ)
as_other f none = none
as_other f (some (a, rest)) = some (f a, rest)

-- the second of two reads
abbrev and_get :
    {A B : Type 0}
    → (List ℕ → Option (B × List ℕ))
    → Option (A × List ℕ)
    → Option ((A × B) × List ℕ)
and_get get none = none
and_get get (some (a, rest)) = as_other (λ b. (a, b)) (get rest)

abbrev pub both : {A B : Type 0} → Serial A → Serial B → Serial (A × B)
both s t = record {
  put = λ p rest. s.put p.0 (t.put p.1 rest);
  get = λ bytes. and_get t.get (s.get bytes);
  get-put = λ p rest.
      ap (and_get t.get) (s.get-put p.0 (t.put p.1 rest))
      ∙ ap (as_other (λ b. (p.0, b))) (t.get-put p.1 rest);
}

abbrev pub through :
    {A B : Type 0} (s : Serial A) (to : B → A) (from : A → B)
    → ((b : B) → from (to b) ≡ b)
    → Serial B
through s to from back = record {
  put = λ b rest. s.put (to b) rest;
  get = λ bytes. as_other from (s.get bytes);
  get-put = λ b rest. rw (s.get-put (to b) rest, back b) refl;
}

abbrev pub boolean : Serial Bool
boolean = through number flag read_flag read_flag-flag

abbrev put_all : {A : Type 0} → Serial A → List A → List ℕ → List ℕ
put_all s [] rest = rest
put_all s (x ∷ xs) rest = s.put x (put_all s xs rest)

abbrev get_all : {A : Type 0} → Serial A → ℕ → List ℕ → Option (List A × List ℕ)
get_all s zero rest = some ([], rest)
get_all s (suc n) bytes = elim (s.get bytes) [
  | none ↦ none
  | some (x, rest) ↦ as_other (λ xs. x ∷ xs) (get_all s n rest)
]

pub get_all-put_all :
    {A : Type 0} (s : Serial A) (xs : List A) (rest : List ℕ)
    → get_all s (length xs) (put_all s xs rest) ≡ some (xs, rest)
get_all-put_all s [] rest = refl
get_all-put_all s (x ∷ xs) rest =
    rw (s.get-put x (put_all s xs rest), get_all-put_all s xs rest) refl

abbrev get_list : {A : Type 0} → Serial A → List ℕ → Option (List A × List ℕ)
get_list s [] = none
get_list s (n ∷ bytes) = get_all s n bytes

abbrev pub list : {A : Type 0} → Serial A → Serial (List A)
list s = record {
  put = λ xs rest. length xs ∷ put_all s xs rest;
  get = get_list s;
  get-put = get_all-put_all s;
}

abbrev put_option : {A : Type 0} → Serial A → Option A → List ℕ → List ℕ
put_option s none rest = 0 ∷ rest
put_option s (some a) rest = 1 ∷ s.put a rest

abbrev get_option : {A : Type 0} → Serial A → List ℕ → Option (Option A × List ℕ)
get_option s [] = none
get_option s (zero ∷ rest) = some (none, rest)
get_option s (suc _ ∷ rest) = as_other some (s.get rest)

pub get_option-put_option :
    {A : Type 0} (s : Serial A) (o : Option A) (rest : List ℕ)
    → get_option s (put_option s o rest) ≡ some (o, rest)
get_option-put_option s none rest = refl
get_option-put_option s (some a) rest = rw (s.get-put a rest) refl

abbrev pub option : {A : Type 0} → Serial A → Serial (Option A)
option s = record { put = put_option s; get = get_option s; get-put = get_option-put_option s }

abbrev pub bytes : Serial (List ℕ)
bytes = list number

abbrev pub address_form : Serial Address
address_form = through bytes (λ a. a.bytes) (λ b. record { bytes = b }) (λ a. refl)

abbrev pub hash_form : Serial Hash
hash_form = through bytes (λ h. h.bytes) (λ b. record { bytes = b }) (λ h. refl)

abbrev all_read : {A : Type 0} → Option (A × List ℕ) → Option A
all_read none = none
all_read (some (a, _)) = some a

abbrev untagged : {A : Type 0} → ℕ → Serial A → List ℕ → Option A
untagged tag s [] = none
untagged tag s (t ∷ rest) = if eqb t tag then all_read (s.get rest) else none

pub untagged_lem :
    {A : Type 0} (tag : ℕ) (s : Serial A) (a : A) → untagged tag s (tag ∷ s.put a []) ≡ some a
untagged_lem tag s a =
    let same : eqb tag tag ≡ true = ground arith in rw (same, s.get-put a []) refl

-- the form of a value behind a tag
abbrev pub tagged : {A : Type 0} → ℕ → Serial A → Json A
tagged tag s = record {
  to_vec = λ a. tag ∷ s.put a [];
  from_slice = untagged tag s;
  from_slice-to_vec = untagged_lem tag s;
}
