-- ===== src/Vmcli/Artifacts/Machines.antt =====
-- The machines from which `generate-artifacts` (purevm/cmd/vmcli/main.go) takes snapshots, and what
-- `PredictNextSnapshot` (purevm/proof/snapshot_verify.go) restores from them.
use offchain_com.Base.{
  ◌≡◌, ◌≢◌, sym, ap, ap₂, ◌∙◌, subst, false, List, [], All, All-get_elem?, none, get_elem?,
  Option-cases, inl, inr,
}
use offchain_com.Core.Word.{Bytes, IsWord}
use offchain_com.Core.Opcode
use offchain_com.Core.Opcode.{OpCode}
use offchain_com.Core.Action.{Result, ok, Host}
use offchain_com.Core.State.{VmState, clone, verify_code_hash}
use offchain_com.Core.Snapshot.{StandardSnapshot, new_standard_snapshot, verify_integrity}
use offchain_com.Core.Snapshot.Integrity.{new_standard_snapshot-verify_integrity}
use offchain_com.Core.Machine.{Vm, new_vm}
use offchain_com.Core.Step.{step}
use offchain_com.Core.Step.Account.{step-Effect}
use offchain_com.Core.Step.Invariant.{step-KeepsVm}
use offchain_com.Core.Step.Masked.{masked}
use offchain_com.Core.Step.Blind.{outside_stops}
use offchain_com.Proof.Transition.Carried.{Plain}
use offchain_com.Proof.Predict.{restored}

-- A property of machines that steps keep and that rules out taken snapshots and corrupt code.
pub record Keeps (host : Host VmState) (P : Vm → Type 0) : Type 0 where
  pub empty : (vm : Vm) → P vm → vm.snapshots ≡ []
  pub intact : (vm : Vm) → P vm → verify_code_hash host vm.state ≡ ok tt
  pub kept : (vm : Vm) → P vm → vm.halted ≡ false → (step host vm).0 ≡ ok tt → P (step host vm).1

-- A well-formed machine whose code is intact and has no `SNAPSHOT`.
pub record Good (host : Host VmState) (vm : Vm) : Type 0 where
  pub plain : Plain vm
  pub intact : verify_code_hash host vm.state ≡ ok tt

module _ (host : Host VmState) (hash_word : (bs : Bytes) → IsWord (host.keccak256 bs)) where
  pub step-Good :
      (vm : Vm)
      → Good host vm
      → vm.halted ≡ false
      → (step host vm).0 ≡ ok tt
      → Good host (step host vm).1
  unfolding verify_code_hash
  step-Good vm g running done =
      let valid = step-KeepsVm host hash_word vm g.plain.valid in
      elim (Option-cases (get_elem? vm.state.code vm.state.pc)) [
        | inl e ↦
            let s =
              sym (ap (λ (x : Result (Unit {0}) × Vm). x.1) (outside_stops host vm running e)) in
            record {
              plain = record {
                valid = valid;
                no_snapshots = subst (λ (v : Vm). v.snapshots ≡ []) s g.plain.no_snapshots;
                takes_none =
                    subst (λ (v : Vm). All (λ b. b ≢ Opcode.snapshot) v.state.code) s
                      g.plain.takes_none;
              };
              intact = subst (λ (v : Vm). verify_code_hash host v.state ≡ ok tt) s g.intact;
            }
        | inr (op, e) ↦
            let ne =
              All-get_elem? (λ b. b ≢ Opcode.snapshot) vm.state.code vm.state.pc op
                g.plain.takes_none e in
            let eff =
              step-Effect host op vm running e g.plain.valid.current.gas_fits g.plain.no_snapshots
                ne done in
            record {
              plain = record {
                valid = valid;
                no_snapshots = eff.no_snapshots;
                takes_none =
                    subst (All (λ b. b ≢ Opcode.snapshot)) (sym eff.code_kept) g.plain.takes_none;
              };
              intact = rw (verify_code_hash, eff.code_kept, eff.code_hash_kept) g.intact;
            }
      ]

  pub Good-Keeps : Keeps host (Good host)
  Good-Keeps = record {
    empty = λ vm g. g.plain.no_snapshots;
    intact = λ vm g. g.intact;
    kept = step-Good;
  }

-- The snapshot of a machine, with any meta data.
abbrev pub taken_of : Host VmState → List (Bytes × Bytes) → Vm → StandardSnapshot
taken_of host meta vm = record (new_standard_snapshot host vm.state vm.chain_id) { meta = meta }

module _ (host : Host VmState) (meta : List (Bytes × Bytes)) (vm : Vm) where
  pub taken_of-verify_integrity :
      verify_code_hash host vm.state ≡ ok tt → verify_integrity host (taken_of host meta vm) ≡ ok tt
  unfolding verify_integrity
  taken_of-verify_integrity h = new_standard_snapshot-verify_integrity host vm.state vm.chain_id ∙ h

  -- `PredictNextSnapshot` restores the machine, without its trace.
  pub restored-taken_of :
      vm.snapshots ≡ []
      → vm.halted ≡ false
      → restored host (taken_of host meta vm) ≡ masked [] none vm
  unfolding new_standard_snapshot clone new_vm
  restored-taken_of empty running =
      ap₂ (λ s h. record vm { snapshots = s; halted = h; error = none; steps = [] }) (sym empty)
        (sym running)
