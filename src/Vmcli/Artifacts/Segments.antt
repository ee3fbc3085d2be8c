-- ===== src/Vmcli/Artifacts/Segments.antt =====
-- The run that `generate-artifacts` (purevm/cmd/vmcli/main.go) cuts into snapshots, as a whole.
use offchain_com.Base.{
  ℕ, ◌<◌, ◌≡◌, sym, subst, arith, false, [], ◌∷◌, some, Option-cases, inl, inr, eq_of_some, length,
}
use offchain_com.Core.Action.{Host}
use offchain_com.Core.State.{VmState}
use offchain_com.Core.Machine.{Vm}
use offchain_com.Vmcli.Types.{finished, exits, crashes, Outcome-cases}
use offchain_com.Core.Text.{codes}
use offchain_com.Vmcli.Artifacts.{
  Disk, Cutting, snapshot_name, gas_used_by, gas_used_entry, threshold_entry, cut_from, save_final,
  save_initial, cut_run,
}
use offchain_com.Vmcli.Artifacts.Machines.{Keeps, taken_of}
use offchain_com.Vmcli.Artifacts.Ahead.{Chained, Ahead, start-Ahead}
use offchain_com.Core.Index.{SnapshotIndex}
use offchain_com.Vmcli.Artifacts.Cut.{save-Saved, At, Done, longer-Chained, cut_from-Done}

module _ (host : Host VmState) (P : Vm → Type 0) (inv : Keeps host P) {Dir : Type 0}
    (disk : Disk Dir) (total_gas threshold : ℕ) (positive : 0 < threshold) (most : ℕ) where
  start_of : Vm → SnapshotIndex → Dir → Cutting Dir
  start_of vm index dir = record { vm = vm; window = 0; index = index; written = []; dir = dir }

  initial-At :
      (vm : Vm) (index : SnapshotIndex) (dir : Dir) (c : Cutting Dir)
      → P vm
      → vm.halted ≡ false
      → save_initial host disk total_gas threshold vm index dir ≡ finished c
      → At host P inv disk total_gas threshold positive most most c
  unfolding save_initial start_of
  initial-At vm index dir c g running e =
      let name = codes "snapshot_000_initial.json" in
      let meta = gas_used_entry 0 ∷ (threshold_entry threshold ∷ []) in
      let s = save-Saved host disk name meta 0 (start_of vm index dir) c e in
      let b = taken_of host meta vm in
      record {
        last = (name, b);
        earlier = [];
        listed = s.listed;
        chained = subst (Chained host threshold most) (sym s.listed) tt;
        ahead =
            subst (λ (w : ℕ). Ahead host P inv threshold positive most b most w c.vm)
              (sym s.same_window)
              (subst (Ahead host P inv threshold positive most b most 0) (sym s.same_vm) (
                start-Ahead host P inv threshold positive most most meta vm g running
                  (omega arith)));
        good = subst P (sym s.same_vm) g;
      }

  final-Chained :
      (c c' : Cutting Dir)
      → Done host P inv disk total_gas threshold positive most c
      → save_final host disk total_gas threshold c ≡ finished c'
      → Chained host threshold most c'.written
  unfolding save_final
  final-Chained c c' d e =
      let gas_used = gas_used_by host disk total_gas threshold c.vm in
      let name =
        snapshot_name (codes "_final_step_") (length c.written) c.vm.state.step_count gas_used in
      let meta = gas_used_entry gas_used ∷ [] in
      let s = save-Saved host disk name meta gas_used c c' e in
      subst (Chained host threshold most) (sym s.listed) (
        longer-Chained host P inv disk total_gas threshold positive most
          (name, taken_of host meta c.vm) d.last c.written d.earlier d.listed (d.follows meta)
          d.chained)

  -- Every snapshot that the run of a machine is cut into is the one that `VerifyNextSnapshotHash`
  -- accepts behind the snapshot before it, for the same threshold, which is not 0: from the initial one
  -- to the final one, with the fuel of the run.
  pub cut_run-Chained :
      (vm : Vm) (index : SnapshotIndex) (dir : Dir) (c : Cutting Dir)
      → P vm
      → vm.halted ≡ false
      → cut_run host disk total_gas threshold most vm index dir ≡ some (finished c)
      → Chained host threshold most c.written
  unfolding cut_run
  cut_run-Chained vm index dir c g running e =
      elim (Outcome-cases (save_initial host disk total_gas threshold vm index dir)) [
        | inr (inl (x, f)) ↦ ground arith
        | inr (inr (x, f)) ↦ ground arith
        | inl (first, f) ↦ elim (Option-cases (cut_from host disk total_gas threshold most first)) [
          | inl h ↦ ground arith
          | inr (exits x, h) ↦ ground arith
          | inr (crashes x, h) ↦ ground arith
          | inr (finished mid, h) ↦
              final-Chained mid c
                (cut_from-Done host P inv disk total_gas threshold positive most most first mid
                  (omega arith) (initial-At vm index dir first g running f) h)
                (eq_of_some (ground arith))
        ]
      ]
