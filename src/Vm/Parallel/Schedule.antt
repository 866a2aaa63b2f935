-- ===== src/Vm/Parallel/Schedule.antt =====
-- Every order of the executions of `execute_block_parallel` of src/vm/mod.rs gives a result.
use protonchain.Base.{
  ℕ, zero, suc, ◌+◌, ◌<◌, ◌^◌, ◌≡◌, refl, ap, ◌∙◌, Bool, true, false, not, ◌&&◌, ◌||◌, eqb, Option,
  none, some, List, [], ◌∷◌, map, length, All, arith, if◌then◌else◌,
}
use protonchain.Types.{Hasher, Transaction, gas_cost}
use protonchain.Vm.{ExecutionResult, VmState, GasSchedule, execute_transaction}
use protonchain.Vm.Supply.{total_balance, IsPayment, fees, payment-total_balance}
use protonchain.Vm.Parallel.{Slots, collected, execute_at, execute_order}

-- whether the place has no result yet
abbrev pub pending : ℕ → Slots → Bool
pending i [] = false
pending zero ((tx, none) ∷ slots) = true
pending zero ((tx, some _) ∷ slots) = false
pending (suc i) (slot ∷ slots) = pending i slots

-- how many have no result yet
abbrev pub waiting : Slots → ℕ
waiting [] = 0
waiting ((tx, none) ∷ slots) = suc (waiting slots)
waiting ((tx, some _) ∷ slots) = waiting slots

-- the gas costs of those that have succeeded
abbrev pub slot_fees : Slots → ℕ
slot_fees [] = 0
slot_fees ((tx, none) ∷ slots) = slot_fees slots
slot_fees ((tx, some r) ∷ slots) = (if r.success then gas_cost tx else 0) + slot_fees slots

abbrev pub names : Slots → List Transaction
names = map (λ slot. slot.0)

abbrev pub among : ℕ → List ℕ → Bool
among i [] = false
among i (j ∷ js) = eqb j i || among i js

pending_filled :
    (tx : Transaction) (r : ExecutionResult) (slots : Slots) (j : ℕ)
    → pending j ((tx, some r) ∷ slots) ≡ (not (eqb 0 j) && pending j ((tx, none) ∷ slots))
pending_filled tx r slots zero = refl
pending_filled tx r slots (suc j) = ground arith

pending_later :
    (i : ℕ) (tx : Transaction) (o : Option ExecutionResult) (slots slots' : Slots)
    → ((j : ℕ) → pending j slots' ≡ (not (eqb i j) && pending j slots))
    → (j : ℕ) → pending j ((tx, o) ∷ slots') ≡ (not (eqb (suc i) j) && pending j ((tx, o) ∷ slots))
pending_later i tx none slots slots' others zero = ground arith
pending_later i tx (some r) slots slots' others zero = ground arith
pending_later i tx o slots slots' others (suc j) = ground (arith, others j)

waiting_later :
    (tx : Transaction) (o : Option ExecutionResult) (slots slots' : Slots)
    → suc (waiting slots') ≡ waiting slots
    → suc (waiting ((tx, o) ∷ slots')) ≡ waiting ((tx, o) ∷ slots)
waiting_later tx none slots slots' e = omega (arith, e)
waiting_later tx (some r) slots slots' e = e

conserved_later :
    (tx : Transaction) (o : Option ExecutionResult) (slots slots' : Slots) (state state' : VmState)
    → total_balance state'.accounts + slot_fees slots'
      ≡ total_balance state.accounts + slot_fees slots
    → total_balance state'.accounts + slot_fees ((tx, o) ∷ slots')
      ≡ total_balance state.accounts + slot_fees ((tx, o) ∷ slots)
conserved_later tx none slots slots' state state' e = e
conserved_later tx (some r) slots slots' state state' e = omega (arith, e)

-- Places below the number.
abbrev pub ArePlaces : ℕ → List ℕ → Type 0
ArePlaces n [] = Unit
ArePlaces n (i ∷ order) = (i < n) × ArePlaces n order

-- No place stands twice.
abbrev pub AreApart : List ℕ → Type 0
AreApart [] = Unit
AreApart (i ∷ order) = (among i order ≡ false) × AreApart order

-- Every place of the block once.
abbrev pub IsSchedule : ℕ → List ℕ → Type 0
IsSchedule n order = (length order ≡ n) × ArePlaces n order × AreApart order

module _ (schedule : GasSchedule) ⦃h : Hasher⦄ where
  -- What one execution does to the slots and the balances.
  record Executed (i : ℕ) (slots slots' : Slots) (state state' : VmState) : Type 0 where
    same : names slots' ≡ names slots
    others : (j : ℕ) → pending j slots' ≡ (not (eqb i j) && pending j slots)
    fewer : suc (waiting slots') ≡ waiting slots
    conserved :
        total_balance state'.accounts + slot_fees slots'
        ≡ total_balance state.accounts + slot_fees slots

  execute_at_lem :
      (i : ℕ) (slots : Slots) (state : VmState)
      → All IsPayment (names slots)
      → total_balance state.accounts < 2 ^ 128
      → pending i slots ≡ true
      → (slots' : Slots) × (state' : VmState) × (execute_at schedule i slots state
          ≡ some (slots', state'))
        × Executed i slots slots' state state'
  unfolding execute_at
  execute_at_lem i [] state pay small p = absurd (ground arith)
  execute_at_lem zero ((tx, some r) ∷ slots) state pay small p = absurd (ground arith)
  execute_at_lem zero ((tx, none) ∷ slots) state pay small p =
      let (r, state') = execute_transaction schedule tx state in
      (
        (tx, some r) ∷ slots,
        state',
        refl,
        record {
          same = refl;
          others = λ j. pending_filled tx r slots j;
          fewer = refl;
          conserved = omega (arith, payment-total_balance schedule tx state pay.0 small);
        },
      )
  execute_at_lem (suc i) ((tx, o) ∷ slots) state pay small p =
      let (slots', state', e, x) = execute_at_lem i slots state pay.1 small p in
      (
        (tx, o) ∷ slots',
        state',
        rw e refl,
        record {
          same = ap (λ l. tx ∷ l) x.same;
          others = λ j. pending_later i tx o slots slots' x.others j;
          fewer = waiting_later tx o slots slots' x.fewer;
          conserved = conserved_later tx o slots slots' state state' x.conserved;
        },
      )

  -- The orders whose places are all pending, none twice, run to their end.
  pub execute_order_lem :
      (order : List ℕ) (slots : Slots) (state : VmState)
      → All IsPayment (names slots)
      → total_balance state.accounts + slot_fees slots < 2 ^ 128
      → ((j : ℕ) → among j order ≡ true → pending j slots ≡ true)
      → AreApart order
      → (slots' : Slots) × (state' : VmState) × (execute_order schedule order slots state
          ≡ some (slots', state'))
        × (names slots' ≡ names slots)
        × (waiting slots' + length order ≡ waiting slots)
        × (total_balance state'.accounts + slot_fees slots'
            ≡ total_balance state.accounts + slot_fees slots)
  unfolding execute_order
  execute_order_lem [] slots state pay small free apart =
      (slots, state, refl, refl, omega arith, refl)
  execute_order_lem (i ∷ order) slots state pay small free apart =
      let (slots', state', e, x) =
        execute_at_lem i slots state pay (omega arith) (free i (ground arith)) in
      let (slots'', state'', e', same, fewer, conserved) =
        execute_order_lem order slots' state' (rw x.same pay) (omega (arith, x.conserved))
          (λ j m. ground (arith, x.others j, free j, apart.0)) apart.1 in
      (
        slots'',
        state'',
        rw e e',
        same ∙ x.same,
        omega (arith, fewer, x.fewer),
        conserved ∙ x.conserved,
      )

pub collected_lem :
    (slots : Slots)
    → waiting slots ≡ 0
    → (results : List ExecutionResult) × (collected slots ≡ some results)
      × (length results ≡ length slots)
      × (fees (names slots) results ≡ slot_fees slots)
unfolding collected
collected_lem [] e = ([], refl, refl, refl)
collected_lem ((tx, none) ∷ slots) e = absurd (omega arith)
collected_lem ((tx, some r) ∷ slots) e =
    let (results, c, n, f) = collected_lem slots e in
    (r ∷ results, rw c refl, ap suc n, omega (arith, f))
