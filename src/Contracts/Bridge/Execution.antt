-- ===== src/Contracts/Bridge/Execution.antt =====
-- `execute_transfer` of contracts/bridge.rs. The pending transfers and the set of the completed ones
-- share their keys, since `Map` and `Set` write to one storage under the JSON form of the key.
use protonchain.Base.{
  ℕ, ◌≡◌, refl, Bool, true, false, Option, none, ◌&&◌, not, inl, inr, Option-cases, if◌then◌else◌,
}
use protonchain.Types.{Hash, Address}
use protonchain.Sdk.Host.{Host, Json}
use protonchain.Sdk.Map
use protonchain.Sdk.Set
use protonchain.Contracts.Bridge.{PendingTransfer, ProtonBridge}
use protonchain.Contracts.Bridge.Transfers.{execute_transfer}

module _ ⦃host : Host⦄ ⦃json_number : Json ℕ⦄ ⦃json_hash : Json Hash⦄
    ⦃json_transfer : Json PendingTransfer⦄ ⦃json_address : Json Address⦄
    ⦃json_asset : Json (ℕ × Address)⦄ where
  none_if_not :
      {A : Type 0} (b d : Bool) (x : Option A) → (if b && d && not true then x else none) ≡ none
  none_if_not true true x = refl
  none_if_not true false x = refl
  none_if_not false d x = refl

  -- No transfer is ever executed: a transfer that is still pending counts as completed, and one that
  -- is not pending is not found.
  pub execute_transfer_reverts :
      (this_chain : ℕ) (id : Hash) (c : ProtonBridge) → execute_transfer this_chain id c ≡ none
  unfolding execute_transfer
  execute_transfer_reverts this_chain id c =
      elim (Option-cases (Map.get {V = PendingTransfer} id c.storage)) [
        | inl missing ↦ rw (missing, execute_transfer) refl
        | inr (transfer, found) ↦
            rw (execute_transfer, found, Set.contains-get id transfer c.storage found)
              (search none_if_not)
      ]
