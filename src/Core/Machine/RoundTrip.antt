-- ===== src/Core/Machine/RoundTrip.antt =====
-- Taking and loading a snapshot (purevm/core/vm.go).
use offchain_com.Base.{ℕ, ◌≡◌, ◌∙◌, arith, false, none, some, bytes_eq_self, [], ◌∷◌}
use offchain_com.Core.Word.{Word}
use offchain_com.Core.Action.{ok, Host}
use offchain_com.Core.State.{VmState, clone, verify_code_hash}
use offchain_com.Core.Snapshot.{StandardSnapshot, new_standard_snapshot, verify_integrity}
use offchain_com.Core.Snapshot.Integrity.{new_standard_snapshot-verify_integrity}
use offchain_com.Core.Machine.{Vm, Snapshots, lookup, insert, create_snapshot, load_snapshot}

-- The entry that `insert` has made is the one that `lookup` finds.
pub lookup-insert_same :
    (k : Word) (v : StandardSnapshot) (m : Snapshots) → lookup k (insert k v m) ≡ some v
unfolding lookup insert
lookup-insert_same k v [] = ground (arith, bytes_eq_self k)
lookup-insert_same k v ((j, w) ∷ m) = ground (arith, lookup-insert_same k v m)

module _ (host : Host VmState) where
  -- `LoadSnapshot` of a snapshot that `CreateSnapshot` took of the machine `vm` puts the state of
  -- `vm`, gas and step count included, into any machine, which is then running and without an error.
  -- The code of `vm` has its code hash.
  pub create_snapshot-load_snapshot :
      (chain_id : ℕ) (vm other : Vm)
      → verify_code_hash host vm.state ≡ ok tt
      → load_snapshot host (create_snapshot host chain_id vm) other
        ≡ (ok tt, record other { state = vm.state; halted = false; error = none })
  unfolding create_snapshot load_snapshot new_standard_snapshot clone
  create_snapshot-load_snapshot chain_id vm other h =
      let e : verify_integrity host (new_standard_snapshot host vm.state chain_id) ≡ ok tt =
        new_standard_snapshot-verify_integrity host vm.state chain_id ∙ h in
      ground arith
