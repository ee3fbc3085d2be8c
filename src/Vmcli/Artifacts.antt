-- ===== src/Vmcli/Artifacts.antt =====
-- The command `generate-artifacts` (purevm/cmd/vmcli/main.go): it runs the counting loop, cuts the run
-- into snapshots by the gas threshold, and proves every segment.
pub mod Machines
pub mod Ahead
pub mod Cut
pub mod Segments
use offchain_com.Base.{
  ℕ, zero, suc, ◌+◌, ◌-◌, ◌%◌, ◌≡◌, Bool, true, false, List, [], ◌∷◌, ◌++◌, Option, none, some, ltb,
  ◌==◌, if◌then◌else◌, length, reverse,
}
use offchain_com.Base.Int.{ℤ, pos}
use offchain_com.Core.Word.{Bytes, u64_mod}
use offchain_com.Core.Text.{codes, print_uint}
use offchain_com.Core.Action.{Result, ok, err, panic, Host}
use offchain_com.Core.State.{VmState}
use offchain_com.Core.Snapshot.{StandardSnapshot, new_standard_snapshot}
use offchain_com.Core.Machine.{Vm, new_vm}
use offchain_com.Core.Index.{SnapshotIndex, new_snapshot_index, add_snapshot, set_adjacent_proof}
use offchain_com.Core.Step.{step, peek_next_gas_cost}
use offchain_com.Proof.Types.{StepProof, TransitionProof}
use offchain_com.Proof.Transition.{vm_at, generate_transition_proof}
use offchain_com.Proof.Predict.{is_full}
use offchain_com.Precompile.{max_proof_bytes}
use offchain_com.Vmcli.Types.{
  Outcome, finished, exits, crashes, unreadable_file, unwritable_file, no_threshold,
  proof_file_too_large, reported, ◌>>=◌,
}
use offchain_com.Vmcli.Commands.{with_0x}
use offchain_com.Vmcli.Countdown.{
  countdown_iterations_for_gas_floor, countdown_gas_for_iterations, build_countdown_loop,
}

-- The artifact directory: `MkdirAll`, `WriteFile` and `ReadSnapshotFile` on the files in it by their
-- base names, and the size of a proof as indented JSON.
pub record Disk (Dir : Type 0) : Type 0 where
  pub make : Dir → Option Dir
  pub write_snapshot : Bytes → StandardSnapshot → Dir → Option Dir
  pub read_snapshot : Bytes → Dir → Option StandardSnapshot
  pub write_proof : Bytes → TransitionProof → Dir → Option Dir
  pub write_index : SnapshotIndex → Dir → Option Dir
  pub proof_size : TransitionProof → ℕ

-- `%03d`
unfoldable pub pad3 : ℕ → Bytes
pad3 n =
    if ltb n 10
    then b'0' ∷ (b'0' ∷ print_uint n)
    else if ltb n 100
    then b'0' ∷ print_uint n
    else print_uint n

-- `snapshot_%03d_step_%d_gas_%d.json`, where `kind` is `_step_` or `_final_step_`.
unfoldable pub snapshot_name : Bytes → ℕ → ℕ → ℕ → Bytes
snapshot_name kind n step_count gas_used =
    codes "snapshot_"
    ++ (pad3 n
        ++ (kind
            ++ (print_uint step_count
                ++ (codes "_gas_" ++ (print_uint gas_used ++ codes ".json")))))

-- `proof_%03d_from_%d_steps_%d.json`
unfoldable pub proof_name : ℕ → ℕ → ℕ → Bytes
proof_name n from steps =
    codes "proof_"
    ++ (pad3 n
        ++ (codes "_from_"
            ++ (print_uint from ++ (codes "_steps_" ++ (print_uint steps ++ codes ".json")))))

abbrev pub gas_used_entry : ℕ → Bytes × Bytes
gas_used_entry gas = (codes "gas_used", print_uint gas)

abbrev pub threshold_entry : ℕ → Bytes × Bytes
threshold_entry threshold = (codes "gas_threshold", print_uint threshold)

-- The variables of the loop that cuts the run. `written` stands for `snapshotPaths`, with the snapshot
-- that was written to each, the last one first.
pub record Cutting (Dir : Type 0) : Type 0 where
  pub vm : Vm
  pub window : ℕ
  pub index : SnapshotIndex
  pub written : List (Bytes × StandardSnapshot)
  pub dir : Dir

module _ (host : Host VmState) {Dir : Type 0} (disk : Disk Dir) where
  -- The snapshot of the machine, with its meta data.
  abbrev pub snapshot_of : List (Bytes × Bytes) → Vm → StandardSnapshot
  snapshot_of meta vm = record (new_standard_snapshot host vm.state vm.chain_id) { meta = meta }

  -- Writes a snapshot of the machine and adds it to the index.
  unfoldable pub save : Bytes → List (Bytes × Bytes) → ℕ → Cutting Dir → Outcome (Cutting Dir)
  save name meta gas_used c =
      let snap = snapshot_of meta c.vm in
      elim (disk.write_snapshot name snap c.dir) [
        | none ↦ exits unwritable_file
        | some dir ↦ finished (record c {
          index = add_snapshot name snap gas_used c.index;
          written = (name, snap) ∷ c.written;
          dir = dir;
        })
      ]

  module _ (total_gas threshold : ℕ) where
    -- `totalGas - vm.State.Gas`
    abbrev pub gas_used_by : Vm → ℕ
    gas_used_by vm = (total_gas + u64_mod - vm.state.gas) % u64_mod

    -- The part of the loop before the step: a snapshot is cut where the next step would pass the
    -- threshold.
    unfoldable pub cut_before : ℕ → Cutting Dir → Outcome (Cutting Dir)
    cut_before next c = elim (is_full host threshold c.window next) [
      | false ↦ finished c
      | true ↦
          let gas_used = gas_used_by c.vm in
          let name =
            snapshot_name (codes "_step_") (length c.written) c.vm.state.step_count gas_used in
          save name (gas_used_entry gas_used ∷ (threshold_entry threshold ∷ [])) gas_used c
          >>= λ c'. finished (record c' { window = 0 })
    ]

    -- The loop that cuts the run, on fuel.
    unfoldable pub cut_from : ℕ → Cutting Dir → Option (Outcome (Cutting Dir))
    cut_from zero c = none
    cut_from (suc fuel) c = elim c.vm.halted [
      | true ↦ some (finished c)
      | false ↦ elim (peek_next_gas_cost host c.vm) [
        | err e ↦ some (exits (reported e))
        | panic f ↦ some (crashes f)
        | ok next ↦ elim (cut_before next c) [
          | exits x ↦ some (exits x)
          | crashes f ↦ some (crashes f)
          | finished c' ↦
              let (r, vm') = step host c'.vm in
              elim r [
                | ok _ ↦
                    cut_from fuel (record c' { vm = vm'; window = (c'.window + next) % u64_mod })
                | err e ↦ some (exits (reported e))
                | panic f ↦ some (crashes f)
              ]
        ]
      ]
    ]

    -- The final snapshot.
    unfoldable pub save_final : Cutting Dir → Outcome (Cutting Dir)
    save_final c =
        let gas_used = gas_used_by c.vm in
        let name =
          snapshot_name (codes "_final_step_") (length c.written) c.vm.state.step_count gas_used in
        save name (gas_used_entry gas_used ∷ []) gas_used c

    -- The initial snapshot of the machine `vm`, in the directory `dir`.
    unfoldable pub save_initial : Vm → SnapshotIndex → Dir → Outcome (Cutting Dir)
    save_initial vm index dir =
        save (codes "snapshot_000_initial.json")
          (gas_used_entry 0 ∷ (threshold_entry threshold ∷ [])) 0
          (record { vm = vm; window = 0; index = index; written = []; dir = dir })

    -- The snapshots of the run of `vm`, from the initial to the final one.
    unfoldable pub cut_run : ℕ → Vm → SnapshotIndex → Dir → Option (Outcome (Cutting Dir))
    cut_run fuel vm index dir = elim (save_initial vm index dir) [
      | exits x ↦ some (exits x)
      | crashes f ↦ some (crashes f)
      | finished c ↦ elim (cut_from fuel c) [ none ↦ none | some r ↦ some (r >>= save_final) ]
    ]
