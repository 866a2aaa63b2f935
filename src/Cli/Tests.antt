-- ===== src/Cli/Tests.antt =====
-- The commands on concrete values.
use protonchain.Base.{arith, List, replicate, ◌≤◌, ℕ, ◌≡◌, refl, some, [], ◌∷◌, map}
use protonchain.Fixtures.{trusting, low_hasher, short_bincode, numbers, unshuffled}
use protonchain.Cli.{Encodings, stealth_pair, validator_lines}
use protonchain.Cli.Answers.{stealth_pair-check_ownership}
use protonchain.Privacy.Stealth.{new_generator, generate, check_ownership, ephemeral_key, SameTag}
use protonchain.Types.{StealthAddress}

-- A text that repeats the bytes.
instance abbrev plain : Encodings
plain = record {
  encode = λ bytes. bytes;
  decode = λ bytes. some bytes;
  bs58 = λ bytes. bytes;
  decode-encode = λ bytes small. refl;
}

-- one thousand less stake for each, and one percent more commission
three_stakes : map (λ line. line.2) (validator_lines 3 1) ≡ 99_000 ∷ 98_000 ∷ 97_000 ∷ []
unfolding validator_lines
three_stakes = refl

abbrev view_key : List ℕ
view_key = replicate 32 1

abbrev spend_key : List ℕ
spend_key = replicate 32 2

stealth_pair-check_ownership_example :
    let keys = new_generator view_key spend_key in
    (address : StealthAddress) × (key : List ℕ) × (stealth_pair view_key spend_key
      ≡ some (address, key))
    × (key ≡ ephemeral_key keys 1)
    × ((n : ℕ) × (n ≤ 1)
        × SameTag keys n 1
        × (check_ownership (generate keys).1 address ≡ some (ephemeral_key keys n)))
stealth_pair-check_ownership_example =
    stealth_pair-check_ownership view_key spend_key (ground arith) (ground arith) refl refl
