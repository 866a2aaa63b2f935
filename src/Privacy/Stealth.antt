-- ===== src/Privacy/Stealth.antt =====
-- `StealthAddressGenerator` of src/privacy/mod.rs.
use protonchain.Base.{
  ◌∙◌, ap, ◌≢◌, ℕ, zero, suc, ◌+◌, ◌%◌, ◌^◌, ◌≤◌, ◌<◌, ◌≡◌, refl, false, Option, none, some, List,
  ◌++◌, ◌==◌, list_key, same_list_iff, ==_refl, if◌then◌else◌, arith, inl, inr, Bool-cases,
}
use protonchain.Types.{Hasher, StealthAddress, derive_stealth, le_bytes}

pub record StealthAddressGenerator : Type 0 where
  pub view_key_base : List ℕ
  pub spend_key_base : List ℕ
  pub nonce_counter : ℕ

-- `new`
abbrev pub new_generator : List ℕ → List ℕ → StealthAddressGenerator
new_generator view_key spend_key = record {
  view_key_base = view_key;
  spend_key_base = spend_key;
  nonce_counter = 0;
}

module _ ⦃h : Hasher⦄ where
  -- the address for a nonce, and the private key for it
  unfoldable pub address_at : StealthAddressGenerator → ℕ → StealthAddress
  unfolding derive_stealth
  address_at g nonce = derive_stealth g.view_key_base g.spend_key_base nonce

  unfoldable pub ephemeral_key : StealthAddressGenerator → ℕ → List ℕ
  unfolding le_bytes
  ephemeral_key g nonce = h.sha3 (g.spend_key_base ++ le_bytes 8 nonce)

  -- `generate`
  unfoldable pub generate :
      StealthAddressGenerator → (StealthAddress × List ℕ) × StealthAddressGenerator
  unfolding address_at ephemeral_key
  generate g =
      let nonce = (g.nonce_counter + 1) % 2 ^ 64 in
      ((address_at g nonce, ephemeral_key g nonce), record g { nonce_counter = nonce })

  -- the loop of `check_ownership`, for `count` nonces from `nonce` on
  unfoldable pub check_from : StealthAddressGenerator → StealthAddress → ℕ → ℕ → Option (List ℕ)
  unfolding address_at ephemeral_key
  check_from g stealth zero nonce = none
  check_from g stealth (suc count) nonce =
      let rest = check_from g stealth count (nonce + 1) in
      if (address_at g nonce).encrypted_view_tag == stealth.encrypted_view_tag
      then some (ephemeral_key g nonce)
      else rest

  -- `check_ownership`
  unfoldable pub check_ownership : StealthAddressGenerator → StealthAddress → Option (List ℕ)
  unfolding check_from
  check_ownership g stealth = check_from g stealth 10_000 0

  -- Two nonces whose addresses have the same view tag.
  abbrev pub SameTag : StealthAddressGenerator → ℕ → ℕ → Type 0
  SameTag g n m = (address_at g n).encrypted_view_tag ≡ (address_at g m).encrypted_view_tag

  differs :
      (g : StealthAddressGenerator) (n m : ℕ)
      → n ≡ m
      → ((address_at g n).encrypted_view_tag == (address_at g m).encrypted_view_tag) ≢ false
  differs g n m e other =
      let same = ==_refl (address_at g m).encrypted_view_tag in
      let no : ((address_at g m).encrypted_view_tag == (address_at g m).encrypted_view_tag)
          ≡ false =
        rw e at other in
      cc

  check_from-address_at :
      (g : StealthAddressGenerator) (count start own : ℕ)
      → start ≤ own
      → own < start + count
      → (n : ℕ) × (n ≤ own)
        × SameTag g n own
        × (check_from g (address_at g own) count start ≡ some (ephemeral_key g n))
  unfolding check_from
  check_from-address_at g zero start own low high = absurd (omega arith)
  check_from-address_at g (suc count) start own low high =
      elim (Bool-cases
        ((address_at g start).encrypted_view_tag == (address_at g own).encrypted_view_tag)) [
          | inl same ↦ (
            start,
            low,
            ground (
              arith,
              same_list_iff (address_at g start).encrypted_view_tag
                  (address_at g own).encrypted_view_tag,
            ),
            rw (check_from, same) refl,
          )
          | inr other ↦
              let tag : ℕ → List ℕ = λ n. (address_at g n).encrypted_view_tag in
              let apart : start ≢ own = λ e. differs g start own e other in
              let (n, le, same, runs) =
                check_from-address_at g count (start + 1) own (ground arith) (omega arith) in
              (n, le, same, rw (check_from, other) runs)
        ]

  check_ownership_from :
      (g : StealthAddressGenerator) (stealth : StealthAddress)
      → check_ownership g stealth ≡ check_from g stealth 10_000 0
  unfolding check_ownership
  check_ownership_from g stealth = refl

  -- An address that was generated while fewer than 9,999 were before it is recognized: the check
  -- returns the private key for a nonce with the view tag of the address, and not for a later one.
  pub check_ownership-generate :
      (g : StealthAddressGenerator)
      → g.nonce_counter + 1 < 10_000
      → let own = g.nonce_counter + 1 in
        let ((stealth, key), g') = generate g in
        (g'.nonce_counter ≡ own)
        × (key ≡ ephemeral_key g own)
        × ((n : ℕ) × (n ≤ own)
            × SameTag g n own
            × (check_ownership g' stealth ≡ some (ephemeral_key g n)))
  unfolding generate address_at ephemeral_key
  check_ownership-generate g few =
      let g' = (generate g).1 in
      let exact : (g.nonce_counter + 1) % 2 ^ 64 ≡ g.nonce_counter + 1 = omega arith in
      let (n, le, same, runs) =
        check_from-address_at g' 10_000 0 (g.nonce_counter + 1) (omega arith) (omega arith) in
      (
        exact,
        ap (ephemeral_key g) exact,
        (
          n,
          le,
          same,
          ap (check_ownership g') (ap (address_at g) exact)
              ∙ check_ownership_from g' (address_at g' (g.nonce_counter + 1))
              ∙ runs,
        ),
      )
