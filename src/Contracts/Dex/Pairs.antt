-- ===== src/Contracts/Dex/Pairs.antt =====
-- The pairs of the exchange: the key under which a pair of tokens is kept does not depend on their
-- order, and neither does what is kept there.
use protonchain.Base.{
  ◌==◌, subst, ◌∙◌, ℕ, ◌+◌, ◌%◌, ◌^◌, ◌≡◌, ◌⊎◌, refl, ap, true, false, none, some, List, [], ◌∷◌,
  arith, ltb, eqb, inl, inr, Bool-cases, Option-cases,
}
use protonchain.Types.{Address, address_key, same_address_iff}
use protonchain.Consensus.Validators.{bytes_lt}
use protonchain.Sdk.Host.{Host, Json}
use protonchain.Sdk.Map
use protonchain.Contracts.Dex.{
  new_pair, TradingPair, Effect, ProtonDex, sort_pair, find_pair, create_pair, add_liquidity,
  get_reserves, calculate_swap_amount, deposited, liquidity_for, amount_out,
}

number_order : (x y : ℕ) → (ltb x y ≡ true) ⊎ ((x ≡ y) ⊎ (ltb y x ≡ true))
number_order x y = elim (Bool-cases (ltb x y)) [
  | inl h ↦ inl h
  | inr h ↦ elim (Bool-cases (ltb y x)) [ inl k ↦ inr (inr k) | inr k ↦ inr (inl (ground arith)) ]
]

bytes_lt-less : (x y : ℕ) (xs ys : List ℕ) → ltb x y ≡ true → bytes_lt (x ∷ xs) (y ∷ ys) ≡ true
unfolding bytes_lt
bytes_lt-less x y xs ys h = rw h refl

bytes_lt-more : (x y : ℕ) (xs ys : List ℕ) → ltb y x ≡ true → bytes_lt (x ∷ xs) (y ∷ ys) ≡ false
unfolding bytes_lt
bytes_lt-more x y xs ys h =
    let not_less : ltb x y ≡ false = ground arith in
    let not_same : eqb x y ≡ false = ground arith in rw (not_less, not_same) refl

bytes_lt-same : (x : ℕ) (xs ys : List ℕ) → bytes_lt (x ∷ xs) (x ∷ ys) ≡ bytes_lt xs ys
unfolding bytes_lt
bytes_lt-same x xs ys =
    let not_less : ltb x x ≡ false = ground arith in
    let same : eqb x x ≡ true = ground arith in rw (not_less, same) refl

abbrev Ordered : List ℕ → List ℕ → Type 0
Ordered xs ys =
    (xs ≡ ys)
    ⊎ (((bytes_lt xs ys ≡ true) × (bytes_lt ys xs ≡ false))
        ⊎ ((bytes_lt xs ys ≡ false) × (bytes_lt ys xs ≡ true)))

Ordered-cons : (x : ℕ) (xs ys : List ℕ) → Ordered xs ys → Ordered (x ∷ xs) (x ∷ ys)
Ordered-cons x xs ys (inl e) = inl (ap (λ t. x ∷ t) e)
Ordered-cons x xs ys (inr (inl (less, more))) =
    inr (inl (bytes_lt-same x xs ys ∙ less, bytes_lt-same x ys xs ∙ more))
Ordered-cons x xs ys (inr (inr (more, less))) =
    inr (inr (bytes_lt-same x xs ys ∙ more, bytes_lt-same x ys xs ∙ less))

-- Of two different byte strings exactly one is less than the other.
bytes_lt-Ordered : (xs ys : List ℕ) → Ordered xs ys
unfolding bytes_lt
bytes_lt-Ordered [] [] = inl refl
bytes_lt-Ordered [] (y ∷ ys) = inr (inl (refl, refl))
bytes_lt-Ordered (x ∷ xs) [] = inr (inr (refl, refl))
bytes_lt-Ordered (x ∷ xs) (y ∷ ys) =
    let rest = bytes_lt-Ordered xs ys in
    elim (number_order x y) [
      | inl h ↦ inr (inl (bytes_lt-less x y xs ys h, bytes_lt-more y x ys xs h))
      | inr (inl e) ↦ subst (λ t. Ordered (x ∷ xs) (t ∷ ys)) e (Ordered-cons x xs ys rest)
      | inr (inr h) ↦ inr (inr (bytes_lt-more x y xs ys h, bytes_lt-less y x ys xs h))
    ]

-- The key of a pair does not depend on the order of its tokens.
pub sort_pair_comm : (a b : Address) → sort_pair a b ≡ sort_pair b a
unfolding sort_pair
sort_pair_comm a b = elim (bytes_lt-Ordered a.bytes b.bytes) [
  | inl e ↦
      let same : a ≡ b = ap (λ bytes. record { bytes = bytes }) e in
      subst (λ t. sort_pair a t ≡ sort_pair t a) same refl
  | inr (inl (less, more)) ↦ rw (less, more) refl
  | inr (inr (more, less)) ↦ rw (more, less) refl
]

module _ ⦃host : Host⦄ ⦃json_key : Json (Address × Address)⦄ ⦃json_pair : Json TradingPair⦄ where
  -- A quote for two tokens is the same in both directions: the first token of the key always comes
  -- in, and the second goes out.
  pub calculate_swap_amount_comm :
      (a b : Address) (amount_in : ℕ) (c : ProtonDex)
      → calculate_swap_amount a b amount_in c ≡ calculate_swap_amount b a amount_in c
  unfolding calculate_swap_amount find_pair
  calculate_swap_amount_comm a b amount_in c =
      ap
        (λ key. elim (Map.get {V = TradingPair} key c.storage) [
          | none ↦ none
          | some pair ↦ amount_out c.fees pair amount_in
        ])
        (sort_pair_comm a b)

  find_pair-insert :
      (a b : Address) (pair : TradingPair) (c : ProtonDex)
      → find_pair b a (record c { storage = Map.insert (sort_pair a b) pair c.storage }) ≡ some pair
  unfolding find_pair
  find_pair-insert a b pair c =
      rw (sort_pair_comm b a) (Map.get-insert_self (sort_pair a b) pair c.storage)

  create_pair-some :
      (a b : Address) (c c' : ProtonDex)
      → create_pair a b c ≡ some c'
      → (c'
          ≡ record c { storage = Map.insert (sort_pair a b) (new_pair (sort_pair a b)) c.storage })
        × ((a == b) ≡ false)
  unfolding create_pair
  create_pair-some a b c c' e = elim (Bool-cases (a == b)) [
    | inl same ↦ cc
    | inr other ↦ elim (Bool-cases (Map.contains_key TradingPair (sort_pair a b) c.storage)) [
      | inl known ↦ cc
      | inr fresh ↦ (cc, other)
    ]
  ]

  add_liquidity-some :
      (caller a b : Address) (amount_a amount_b liquidity : ℕ) (c c' : ProtonDex) (es : List Effect)
      → add_liquidity caller a b amount_a amount_b c ≡ some (liquidity, c', es)
      → (pair : TradingPair) × (find_pair a b c ≡ some pair)
        × (c' ≡ record c {
          storage =
              Map.insert (sort_pair a b) (deposited amount_a amount_b liquidity pair) c.storage;
        })
  unfolding add_liquidity
  add_liquidity-some caller a b amount_a amount_b liquidity c c' es e =
      elim (Option-cases (find_pair a b c)) [
        | inl missing ↦ cc
        | inr (pair, found) ↦ elim (Option-cases (liquidity_for pair amount_a amount_b)) [
          | inl reverted ↦ cc
          | inr (worth, priced) ↦ let same : worth ≡ liquidity = cc in (pair, found, cc)
        ]
      ]

  -- A pair that was created for two tokens cannot be created again in the other order, and starts
  -- without reserves.
  pub create_pair-create_pair :
      (a b : Address) (c c' : ProtonDex)
      → create_pair a b c ≡ some c'
      → (create_pair b a c' ≡ none) × (get_reserves b a c' ≡ (0, 0))
  unfolding create_pair get_reserves Map.contains_key find_pair
  create_pair-create_pair a b c c' e =
      let (made, apart) = create_pair-some a b c c' e in
      let there : find_pair b a c' ≡ some (new_pair (sort_pair a b)) =
        rw made (find_pair-insert a b (new_pair (sort_pair a b)) c) in
      let twice : (b == a) ≡ false = ground (arith, same_address_iff a b, same_address_iff b a) in
      (rw (twice, there) refl, rw (there, get_reserves) refl)

  -- A deposit adds its first amount to the first reserve of the pair and its second amount to the
  -- second, in whichever order the tokens were given.
  pub get_reserves-add_liquidity :
      (caller a b : Address) (amount_a amount_b liquidity : ℕ) (c c' : ProtonDex) (es : List Effect)
      → add_liquidity caller a b amount_a amount_b c ≡ some (liquidity, c', es)
      → get_reserves b a c' ≡ (
        ((get_reserves a b c).0 + amount_a) % 2 ^ 128,
        ((get_reserves a b c).1 + amount_b) % 2 ^ 128,
      )
  unfolding get_reserves deposited
  get_reserves-add_liquidity caller a b amount_a amount_b liquidity c c' es e =
      let (pair, found, made) =
        add_liquidity-some caller a b amount_a amount_b liquidity c c' es e in
      let there : find_pair b a c' ≡ some (deposited amount_a amount_b liquidity pair) =
        rw made (find_pair-insert a b (deposited amount_a amount_b liquidity pair) c) in
      rw (there, found, get_reserves) refl
