-- ===== src/Cli/Answers.antt =====
-- What the commands of src/bin/cli.rs answer.
use protonchain.Base.{
  ℕ, ◌<◌, ◌≤◌, ◌≡◌, refl, true, false, Option, none, some, List, [], ◌∷◌, ◌++◌, eqb, ◌&&◌, length,
  All, arith,
}
use protonchain.Types.{Hasher, StealthAddress, digest}
use protonchain.Privacy.Stealth.{
  new_generator, generate, check_ownership, check_ownership-generate, ephemeral_key, SameTag,
}
use protonchain.Cli.{
  KeyType, Encodings, KeyFile, prefix, starts_with, balance_address, keygen_file, key_strings,
  copied, stealth_pair,
}

starts_with-append : (p s : List ℕ) → starts_with p (p ++ s) ≡ true
unfolding starts_with
starts_with-append [] s = refl
starts_with-append (c ∷ p) s = ground (arith, starts_with-append p s)

-- The address that is shown always starts with the prefix, and an address with the prefix is shown
-- as it is: to show it again changes nothing.
pub balance_address-starts_with :
    (address : List ℕ)
    → (starts_with prefix (balance_address address) ≡ true)
      × (balance_address (balance_address address) ≡ balance_address address)
unfolding balance_address
balance_address-starts_with address =
    let shown : starts_with prefix (balance_address address) ≡ true =
      ground (arith, starts_with-append prefix address) in
    (shown, rw shown refl)

module _ ⦃h : Hasher⦄ ⦃text : Encodings⦄ where
  -- `Keygen` keeps no secret: for Ed25519 the private key in the file is the public one, and for
  -- secp256k1 the file does not depend on the random bytes, so every run writes the same keys.
  pub keygen_file-private :
      (public_of : List ℕ → Option (List ℕ)) (random other : List ℕ)
      → All (λ b. b < 256) random
      → ((file : KeyFile) × (keygen_file public_of KeyType.ed25519 random ≡ some file)
          × (file.private ≡ file.public)
          × (text.decode file.private ≡ some random))
        × (keygen_file public_of KeyType.secp256k1 random
            ≡ keygen_file public_of KeyType.secp256k1 other)
  unfolding keygen_file key_strings
  keygen_file-private public_of random other small =
      let read = text.decode-encode random small in
      (
        (
          record {
            public = text.encode random;
            private = text.encode random;
            address = prefix ++ text.bs58 (digest random).bytes;
          },
          rw read refl,
          refl,
          read,
        ),
        refl,
      )

  -- For keys of another length `Stealth` panics.
  stealth_pair_panics :
      (view spend : List ℕ)
      → All (λ b. b < 256) view
      → All (λ b. b < 256) spend
      → (eqb (length view) 32 && eqb (length spend) 32) ≡ false
      → stealth_pair (text.encode view) (text.encode spend) ≡ none
  unfolding stealth_pair copied
  stealth_pair_panics view spend small_view small_spend e =
      rw (text.decode-encode view small_view, text.decode-encode spend small_spend) (ground arith)

  -- For two keys of 32 bytes, encoded as text, `Stealth` shows an address and a key, the one-time key
  -- of the nonce 1. A generator with the same keys, given in the same order, that has generated one
  -- address recognizes the address shown: the check answers with the key of a nonce of 0 or 1 whose
  -- view tag is that of the nonce 1.
  pub stealth_pair-check_ownership :
      (view spend : List ℕ)
      → All (λ b. b < 256) view
      → All (λ b. b < 256) spend
      → length view ≡ 32
      → length spend ≡ 32
      → let keys = new_generator view spend in
        (address : StealthAddress) × (key : List ℕ) × (stealth_pair
            (text.encode view)
            (text.encode spend)
          ≡ some (address, key))
        × (key ≡ ephemeral_key keys 1)
        × ((n : ℕ) × (n ≤ 1)
            × SameTag keys n 1
            × (check_ownership (generate keys).1 address ≡ some (ephemeral_key keys n)))
  unfolding stealth_pair copied
  stealth_pair-check_ownership view spend small_view small_spend lv ls =
      let keys = new_generator view spend in
      let (_, own, found) = check_ownership-generate keys (omega arith) in
      (
        (generate keys).0.0,
        (generate keys).0.1,
        rw (text.decode-encode view small_view, text.decode-encode spend small_spend)
            (ground arith),
        own,
        found,
      )
