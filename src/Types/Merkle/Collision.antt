-- ===== src/Types/Merkle/Collision.antt =====
-- What equal Merkle roots say of the leaves.
use protonchain.Base.{
  map, ℕ, zero, suc, ◌≡◌, ◌≢◌, ◌⊎◌, inl, inr, refl, sym, ap, ◌∙◌, ◌++◌, List, [], ◌∷◌, All,
  Bool-cases, same_list, same_list_iff, length, arith,
}
use protonchain.Types.Ids.{Hasher, Hash, digest}
use protonchain.Types.Merkle.{node, level, climb, first_or_zero, root}
use protonchain.Types.Merkle.Shape.{length-level, length-climb}

-- The byte length that every `Hash` has.
abbrev pub IsFull : Hash → Type 0
IsFull x = length x.bytes ≡ 32

-- Byte strings of equal length in front of two equal strings are equal.
append_split : (a b c d : List ℕ) → length a ≡ length c → a ++ b ≡ c ++ d → (a ≡ c) × (b ≡ d)
append_split [] b [] d e p = (refl, p)
append_split [] b (y ∷ c) d e p = absurd (omega arith)
append_split (x ∷ a) b [] d e p = absurd (omega arith)
append_split (x ∷ a) b (y ∷ c) d e p = ground (arith, append_split a b c d)

module _ ⦃h : Hasher⦄ where
  -- The inputs of SHA3-256 in one round of the loop, one for each node of the next level.
  pub level_inputs : List Hash → List (List ℕ)
  level_inputs [] = []
  level_inputs (x ∷ []) = (x.bytes ++ x.bytes) ∷ []
  level_inputs (x ∷ y ∷ rest) = (x.bytes ++ y.bytes) ∷ level_inputs rest

  -- The digests of these inputs are the nodes of the next level.
  level_inputs_lem : (xs : List Hash) → level xs ≡ map digest (level_inputs xs)
  unfolding level level_inputs node
  level_inputs_lem [] = refl
  level_inputs_lem (x ∷ []) = refl
  level_inputs_lem (x ∷ y ∷ rest) = ap (λ l. node x y ∷ l) (level_inputs_lem rest)

  -- The inputs of SHA3-256 in all rounds of the loop, the lowest level first.
  pub climb_inputs : ℕ → List Hash → List (List ℕ)
  climb_inputs zero current = []
  climb_inputs (suc fuel) [] = []
  climb_inputs (suc fuel) (x ∷ []) = []
  climb_inputs (suc fuel) (x ∷ y ∷ rest) =
      level_inputs (x ∷ y ∷ rest) ++ climb_inputs fuel (level (x ∷ y ∷ rest))

  -- The inputs of SHA3-256 while the root of a list of leaves is computed.
  abbrev pub root_inputs : List Hash → List (List ℕ)
  root_inputs xs = climb_inputs (length xs) xs

  -- At some position, two lists of inputs have different inputs with one digest.
  abbrev pub Collides : List (List ℕ) → List (List ℕ) → Type 0
  Collides [] bs = ⊥
  Collides (a ∷ as') [] = ⊥
  Collides (a ∷ as') (b ∷ bs) = ((a ≢ b) × (h.sha3 a ≡ h.sha3 b)) ⊎ Collides as' bs

  Collides-append :
      (as' bs cs ds : List (List ℕ)) → Collides as' bs → Collides (as' ++ cs) (bs ++ ds)
  Collides-append [] bs cs ds c = absurd c
  Collides-append (a ∷ as') [] cs ds c = absurd c
  Collides-append (a ∷ as') (b ∷ bs) cs ds (inl here) = inl here
  Collides-append (a ∷ as') (b ∷ bs) cs ds (inr later) = inr (Collides-append as' bs cs ds later)

  append-Collides :
      (as' bs cs ds : List (List ℕ))
      → length as' ≡ length bs
      → Collides cs ds
      → Collides (as' ++ cs) (bs ++ ds)
  append-Collides [] [] cs ds l c = c
  append-Collides [] (b ∷ bs) cs ds l c = absurd (omega arith)
  append-Collides (a ∷ as') [] cs ds l c = absurd (omega arith)
  append-Collides (a ∷ as') (b ∷ bs) cs ds l c = inr (append-Collides as' bs cs ds (omega arith) c)

  length-level_inputs :
      (xs ys : List Hash)
      → length xs ≡ length ys
      → length (level_inputs xs) ≡ length (level_inputs ys)
  unfolding level_inputs
  length-level_inputs [] [] l = refl
  length-level_inputs [] (y ∷ ys) l = absurd (omega arith)
  length-level_inputs (x ∷ xs) [] l = absurd (omega arith)
  length-level_inputs (x ∷ []) (y ∷ []) l = refl
  length-level_inputs (x ∷ []) (y ∷ y' ∷ ys) l = absurd (omega arith)
  length-level_inputs (x ∷ x' ∷ xs) (y ∷ []) l = absurd (omega arith)
  length-level_inputs (x ∷ x' ∷ xs) (y ∷ y' ∷ ys) l =
      ap suc (length-level_inputs xs ys (omega arith))

  node_collision :
      (x y x' y' : Hash)
      → IsFull x
      → IsFull x'
      → node x y ≡ node x' y'
      → ((x ≡ x') × (y ≡ y'))
        ⊎ ((x.bytes ++ y.bytes ≢ x'.bytes ++ y'.bytes)
            × (h.sha3 (x.bytes ++ y.bytes) ≡ h.sha3 (x'.bytes ++ y'.bytes)))
  unfolding node digest
  node_collision x y x' y' f f' e =
      let left = x.bytes ++ y.bytes in
      let right = x'.bytes ++ y'.bytes in
      elim (Bool-cases (same_list left right)) [
        | inl same ↦ inl (
            ground (
              arith,
              append_split x.bytes y.bytes x'.bytes y'.bytes (f ∙ sym f')
                  ((same_list_iff left right).0 same),
            ))
        | inr other ↦ inr (ground (arith, same_list_iff left right), ap (λ d. d.bytes) e)
      ]

  -- The hashes of a round have full length again.
  level-IsFull : (xs : List Hash) → All IsFull (level xs)
  unfolding level node digest
  level-IsFull [] = tt
  level-IsFull (x ∷ []) = (h.sha3_length (x.bytes ++ x.bytes), tt)
  level-IsFull (x ∷ y ∷ rest) = (h.sha3_length (x.bytes ++ y.bytes), level-IsFull rest)

  level_collision :
      (xs ys : List Hash)
      → length xs ≡ length ys
      → All IsFull xs
      → All IsFull ys
      → level xs ≡ level ys
      → (xs ≡ ys) ⊎ Collides (level_inputs xs) (level_inputs ys)
  unfolding level level_inputs
  level_collision [] [] l f g e = inl refl
  level_collision [] (y ∷ ys) l f g e = absurd (omega arith)
  level_collision (x ∷ xs) [] l f g e = absurd (omega arith)
  level_collision (x ∷ []) (y ∷ []) l f g e = ground (arith, node_collision x x y y f.0 g.0)
  level_collision (x ∷ []) (y ∷ y' ∷ ys) l f g e = absurd (omega arith)
  level_collision (x ∷ x' ∷ xs) (y ∷ []) l f g e = absurd (omega arith)
  level_collision (x ∷ x' ∷ xs) (y ∷ y' ∷ ys) l f g e =
      ground
        (arith, node_collision x x' y y' f.0 g.0, level_collision xs ys (omega arith) f.1.1 g.1.1)

  climb_collision :
      (fuel : ℕ) (xs ys : List Hash)
      → length xs ≡ length ys
      → All IsFull xs
      → All IsFull ys
      → climb fuel xs ≡ climb fuel ys
      → (xs ≡ ys) ⊎ Collides (climb_inputs fuel xs) (climb_inputs fuel ys)
  unfolding climb climb_inputs
  climb_collision zero xs ys l f g e = inl e
  climb_collision (suc fuel) [] [] l f g e = inl refl
  climb_collision (suc fuel) [] (y ∷ ys) l f g e = absurd (omega arith)
  climb_collision (suc fuel) (x ∷ xs) [] l f g e = absurd (omega arith)
  climb_collision (suc fuel) (x ∷ []) (y ∷ []) l f g e = inl e
  climb_collision (suc fuel) (x ∷ []) (y ∷ y' ∷ ys) l f g e = absurd (omega arith)
  climb_collision (suc fuel) (x ∷ x' ∷ xs) (y ∷ []) l f g e = absurd (omega arith)
  climb_collision (suc fuel) (x ∷ x' ∷ xs) (y ∷ y' ∷ ys) l f g e =
      let left = x ∷ x' ∷ xs in
      let right = y ∷ y' ∷ ys in
      elim (climb_collision fuel (level left) (level right)
        (omega (arith, length-level left, length-level right)) (level-IsFull left)
        (level-IsFull right) e) [
          | inl same ↦ elim (level_collision left right l f g same) [
            | inl equal ↦ inl equal
            | inr found ↦ inr (Collides-append (level_inputs left) (level_inputs right) _ _ found)
          ]
          | inr found ↦ inr (
              append-Collides (level_inputs left) (level_inputs right) _ _
                (length-level_inputs left right l) found)
        ]

  singletons :
      (xs ys : List Hash)
      → length xs ≡ 1
      → length ys ≡ 1
      → first_or_zero xs ≡ first_or_zero ys
      → xs ≡ ys
  singletons [] ys l l' e = absurd (omega arith)
  singletons (x ∷ xs) [] l l' e = absurd (omega arith)
  singletons (x ∷ []) (y ∷ []) l l' e = ap (λ z. z ∷ []) e
  singletons (x ∷ []) (y ∷ y' ∷ ys) l l' e = absurd (omega arith)
  singletons (x ∷ x' ∷ xs) (y ∷ ys) l l' e = absurd (omega arith)

  -- Two lists of equally many leaves of 32 bytes with one root are the same list, or else the
  -- computations of the two roots hash, for some node of the tree, two different inputs that have
  -- one digest.
  pub root_binding :
      (xs ys : List Hash)
      → length xs ≡ length ys
      → All IsFull xs
      → All IsFull ys
      → root xs ≡ root ys
      → (xs ≡ ys) ⊎ Collides (root_inputs xs) (root_inputs ys)
  unfolding root
  root_binding [] [] l f g e = inl refl
  root_binding [] (y ∷ ys) l f g e = absurd (omega arith)
  root_binding (x ∷ xs) [] l f g e = absurd (omega arith)
  root_binding (x ∷ xs) (y ∷ ys) l f g e =
      let n = length (x ∷ xs) in
      let both = climb_collision n (x ∷ xs) (y ∷ ys) l f g (
        singletons (climb n (x ∷ xs)) (climb n (y ∷ ys))
          (length-climb n (x ∷ xs) (omega arith) (omega arith))
          (length-climb n (y ∷ ys) (omega arith) (omega arith))
          (e ∙ ap (λ m. first_or_zero (climb m (y ∷ ys))) (sym l))) in
      rw (← l) both
