-- ===== src/Privacy/Tests.antt =====
-- The privacy layer on concrete values.
use protonchain.Base.{ℕ, ◌≡◌, some, List, arith, drop}
use protonchain.Fixtures.{low_hasher, numbers}
use protonchain.Types.{from_le_bytes}
use protonchain.Privacy.Amount.{encrypt_amount, encrypt_amount-secret}
use protonchain.Privacy.Circuit.{
  generate_constraints, transfer_circuit, Satisfied, transfer_circuit-Satisfied,
}

encrypt_amount-secret_example : from_le_bytes (drop 8 (encrypt_amount 500 77)) ≡ 77
encrypt_amount-secret_example = encrypt_amount-secret 500 77 (omega arith) (omega arith)

-- A balance of 10 satisfies the circuit for an amount of 1000.
transfer_circuit-Satisfied_example :
    (equations : List (ℕ × ℕ)) × (generate_constraints (transfer_circuit 10 1_000 3 4)
      ≡ some equations)
    × Satisfied equations
transfer_circuit-Satisfied_example =
    transfer_circuit-Satisfied 10 1_000 3 4 (omega arith) (omega arith)
