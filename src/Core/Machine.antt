-- ===== src/Core/Machine.antt =====
-- The virtual machine as an object (purevm/core/vm.go): its fields, and the taking and loading of
-- snapshots.
pub mod RoundTrip
use offchain_com.Base.{
  ℕ, ◌≡◌, Bool, true, false, List, [], ◌∷◌, Option, none, some, bytes_eq, if◌then◌else◌,
}
use offchain_com.Core.Word.{Bytes, Word}
use offchain_com.Core.Action.{Error, snapshot_integrity, Result, ok, err, panic, Action, Host}
use offchain_com.Core.State.{VmState, clone, new_state}
use offchain_com.Core.Snapshot.{StandardSnapshot, new_standard_snapshot, verify_integrity}

-- `TraceStep`
pub record TraceStep : Type 0 where
  pub pc : ℕ
  pub op : Bytes
  pub gas_cost : ℕ
  pub gas_left : ℕ
  pub stack_size : ℕ
  pub op_code : ℕ

-- `map[common.Hash]*StandardSnapshot`: at most one entry for each hash.
abbrev pub Snapshots : Type 0
Snapshots = List (Word × StandardSnapshot)

unfoldable pub lookup : Word → Snapshots → Option StandardSnapshot
lookup k [] = none
lookup k ((j, v) ∷ m) = if bytes_eq k j then some v else lookup k m

unfoldable pub insert : Word → StandardSnapshot → Snapshots → Snapshots
insert k v [] = (k, v) ∷ []
insert k v ((j, w) ∷ m) = if bytes_eq k j then (j, v) ∷ m else (j, w) ∷ insert k v m

-- `VM`. `steps` is the trace of `Tracer`, its last step first; `NewVM` always makes a tracer.
-- `GasCalc` has no fields, and `InstructionSet` is the table of module `Instructions`.
pub record Vm : Type 0 where
  pub state : VmState
  pub chain_id : ℕ
  pub snapshots : Snapshots
  pub halted : Bool
  pub error : Option Error
  pub steps : List TraceStep

-- Runs a method of the state on the state of the machine.
abbrev pub with_state : {A : Type 0} → Action VmState A → Action Vm A
with_state m vm = let (r, s) = m vm.state in (r, record vm { state = s })

module _ (host : Host VmState) where
  -- `NewVM`
  unfoldable pub new_vm : Bytes → ℕ → Vm
  new_vm code gas_limit = record {
    state = new_state host code gas_limit;
    chain_id = 0;
    snapshots = [];
    halted = false;
    error = none;
    steps = [];
  }

  -- `VM.CreateSnapshot`
  unfoldable pub create_snapshot : ℕ → Vm → StandardSnapshot
  create_snapshot chain_id vm = new_standard_snapshot host (clone vm.state) chain_id

  -- `VM.LoadSnapshot`
  unfoldable pub load_snapshot : StandardSnapshot → Action Vm (Unit {0})
  load_snapshot snap vm = elim (verify_integrity host snap) [
    | ok _ ↦ (ok tt, record vm { state = clone snap.state; halted = false; error = none })
    | err e ↦ (err (snapshot_integrity e), vm)
    | panic p ↦ (panic p, vm)
  ]
