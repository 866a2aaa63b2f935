-- ===== src/Vm/Parallel/Orders.antt =====
-- What `execute_block_parallel` of src/vm/mod.rs keeps whatever the order, and the order of the block.
use protonchain.Base.{
  ℕ, zero, suc, ◌+◌, ◌<◌, ◌^◌, ◌≡◌, refl, sym, ap, ◌∙◌, true, Option, none, some, List, [], ◌∷◌,
  map, ◌>>=◌, length, All, arith, Option-cases, inl, inr,
}
use protonchain.Types.{Hasher, Transaction}
use protonchain.Vm.{
  ExecutionResult, VmState, GasSchedule, execute_transaction, execute_block_sequential,
}
use protonchain.Vm.Supply.{total_balance, IsPayment, fees}
use protonchain.Vm.Parallel.{Slots, collected, execute_at, execute_order, execute_block_parallel}
use protonchain.Vm.Parallel.Schedule.{
  pending, waiting, slot_fees, names, among, IsSchedule, ArePlaces, execute_order_lem,
  collected_lem,
}

-- a block before its execution
abbrev unstarted : List Transaction → Slots
unstarted = map (λ tx. (tx, none))

names-unstarted : (txs : List Transaction) → names (unstarted txs) ≡ txs
names-unstarted [] = refl
names-unstarted (tx ∷ txs) = ap (λ l. tx ∷ l) (names-unstarted txs)

waiting-unstarted : (txs : List Transaction) → waiting (unstarted txs) ≡ length txs
waiting-unstarted [] = refl
waiting-unstarted (tx ∷ txs) = ap suc (waiting-unstarted txs)

slot_fees-unstarted : (txs : List Transaction) → slot_fees (unstarted txs) ≡ 0
slot_fees-unstarted [] = refl
slot_fees-unstarted (tx ∷ txs) = slot_fees-unstarted txs

length-names : (slots : Slots) → length (names slots) ≡ length slots
length-names [] = refl
length-names (slot ∷ slots) = ap suc (length-names slots)

pending-unstarted :
    (j : ℕ) (txs : List Transaction) → j < length txs → pending j (unstarted txs) ≡ true
pending-unstarted j [] lt = absurd (omega arith)
pending-unstarted zero (tx ∷ txs) lt = refl
pending-unstarted (suc j) (tx ∷ txs) lt = pending-unstarted j txs (omega arith)

among-ArePlaces : (n j : ℕ) (order : List ℕ) → ArePlaces n order → among j order ≡ true → j < n
among-ArePlaces n j [] p m = absurd (ground arith)
among-ArePlaces n j (i ∷ order) p m = ground (arith, among-ArePlaces n j order p.1)

module _ (schedule : GasSchedule) ⦃h : Hasher⦄ where
  -- In whatever order the threads execute a block of payments, the block ends with one result for
  -- each transaction, and the sum of the balances falls by exactly the gas costs of those that
  -- succeed. (A payment is a transfer to another account than the sender's whose value and gas cost
  -- together are below 2 ^ 128, and the sum of the balances is below 2 ^ 128 at the start.)
  pub execute_block_parallel-total_balance :
      (order : List ℕ) (txs : List Transaction) (state : VmState)
      → All IsPayment txs
      → total_balance state.accounts < 2 ^ 128
      → IsSchedule (length txs) order
      → (results : List ExecutionResult) × (state' : VmState) × (execute_block_parallel schedule
            order txs state
          ≡ some (results, state'))
        × (length results ≡ length txs)
        × (total_balance state'.accounts + fees txs results ≡ total_balance state.accounts)
  unfolding execute_block_parallel
  execute_block_parallel-total_balance order txs state pay small (len, places, apart) =
      let none_yet = slot_fees-unstarted txs in
      let all = waiting-unstarted txs in
      let (slots, state', e, same, fewer, conserved) =
        execute_order_lem schedule order (unstarted txs) state (rw names-unstarted pay)
          (omega (arith, none_yet))
          (λ j m. pending-unstarted j txs (among-ArePlaces (length txs) j order places m)) apart in
      let (results, c, n, f) = collected_lem slots (omega (arith, all, fewer, len)) in
      let again : names slots ≡ txs = same ∙ names-unstarted txs in
      (
        results,
        state',
        rw (e, c) refl,
        n ∙ sym (length-names slots) ∙ ap length again,
        omega (arith, conserved, none_yet, ap (λ l. fees l results) again, f),
      )

  -- the places in the order of the block
  abbrev pub in_order : ℕ → List ℕ
  in_order zero = []
  in_order (suc n) = 0 ∷ map suc (in_order n)

  execute_order-suc :
      (order : List ℕ) (slot : Transaction × Option ExecutionResult) (slots : Slots)
      (state : VmState)
      → execute_order schedule (map suc order) (slot ∷ slots) state
        ≡ (execute_order schedule order slots state >>= λ r. some (slot ∷ r.0, r.1))
  unfolding execute_order execute_at
  execute_order-suc [] slot slots state = refl
  execute_order-suc (i ∷ order) slot slots state =
      elim (Option-cases (execute_at schedule i slots state)) [
        | inl e ↦ rw e refl
        | inr (r, e) ↦ rw e (execute_order-suc order slot r.0 r.1)
      ]

  -- In the order of the block the parallel execution is the sequential one.
  pub execute_block_parallel-in_order :
      (txs : List Transaction) (state : VmState)
      → execute_block_parallel schedule (in_order (length txs)) txs state
        ≡ some (execute_block_sequential schedule txs state)
  unfolding execute_block_parallel execute_block_sequential execute_order execute_at collected
  execute_block_parallel-in_order [] state = refl
  execute_block_parallel-in_order (tx ∷ txs) state =
      let (r, state') = execute_transaction schedule tx state in
      let rest = execute_block_parallel-in_order txs state' in
      elim (Option-cases (execute_order schedule (in_order (length txs)) (unstarted txs) state')) [
        | inl e ↦ absurd (ground (arith, rest))
        | inr (q, e) ↦ elim (Option-cases (collected q.0)) [
          | inl c ↦ absurd (ground (arith, rest))
          | inr (results, c) ↦
              let both : (results ≡ (execute_block_sequential schedule txs state').0)
                  × (q.1 ≡ (execute_block_sequential schedule txs state').1) =
                ground (arith, rest) in
              rw
                (
                  execute_order-suc (in_order (length txs)) (tx, some r) (unstarted txs) state',
                  e,
                  c,
                  both.0,
                  both.1,
                )
                refl
        ]
      ]
