-- ===== src/Vmcli/Generate.antt =====
-- The whole command `generate-artifacts` (purevm/cmd/vmcli/main.go): the counting loop, the snapshots
-- of its run, the proofs of the segments, and the index.
pub mod Loop
pub mod Saves
pub mod Ending
pub mod Finishes
use offchain_com.Base.{
  ℕ, zero, suc, ◌+◌, ◌-◌, ◌%◌, ◌≡◌, Bool, true, false, List, [], ◌∷◌, ◌++◌, map, reverse, Option,
  none, some, ltb, ◌==◌, if◌then◌else◌,
}
use offchain_com.Base.Int.{ℤ, pos}
use offchain_com.Core.Word.{Bytes, u64_mod}
use offchain_com.Core.Text.{codes}
use offchain_com.Core.Action.{Result, ok, err, panic, Host}
use offchain_com.Core.State.{VmState}
use offchain_com.Core.Snapshot.{StandardSnapshot}
use offchain_com.Core.Machine.{Vm, new_vm}
use offchain_com.Core.Index.{SnapshotIndex, new_snapshot_index, set_adjacent_proof}
use offchain_com.Proof.Types.{StepProof, TransitionProof}
use offchain_com.Proof.Transition.{vm_at, generate_transition_proof}
use offchain_com.Precompile.{max_proof_bytes}
use offchain_com.Vmcli.Types.{
  Outcome, finished, exits, crashes, unreadable_file, unwritable_file, no_threshold,
  proof_file_too_large, reported,
}
use offchain_com.Vmcli.Commands.{with_0x}
use offchain_com.Vmcli.Countdown.{
  countdown_iterations_for_gas_floor, countdown_gas_for_iterations, build_countdown_loop,
}
use offchain_com.Vmcli.Artifacts.{Disk, Cutting, proof_name, cut_run}

-- The index and the directory while the proofs are written.
pub record Recorded (Dir : Type 0) : Type 0 where
  pub index : SnapshotIndex
  pub dir : Dir

module _ (host : Host VmState) {Dir : Type 0} (disk : Disk Dir) where
  -- Writes a proof and records it in the index. `json.MarshalIndent` does not fail on a proof.
  unfoldable pub save_proof :
      ℕ → Bytes → ℕ → TransitionProof → Recorded Dir → Outcome (Recorded Dir)
  save_proof ordinal file steps p r =
      if ltb max_proof_bytes (disk.proof_size p)
      then exits (proof_file_too_large (disk.proof_size p))
      else elim (disk.write_proof file p r.dir) [
        | none ↦ exits unwritable_file
        | some dir ↦
            let (x, index) = set_adjacent_proof (pos ordinal) file steps true r.index in
            elim x [
              | ok _ ↦ finished (record { index = index; dir = dir })
              | err e ↦ exits (reported e)
              | panic f ↦ crashes f
            ]
      ]

  module _ (marshal : StepProof → Bytes) (fuel : ℕ) where
    -- The body of the loop over the segments, on the snapshots that it has read back.
    unfoldable pub prove_between :
        ℕ → StandardSnapshot → StandardSnapshot → Recorded Dir → Option (Outcome (Recorded Dir))
    prove_between ordinal a b r =
        let delta = (b.header.step_number + u64_mod - a.header.step_number) % u64_mod in
        elim (generate_transition_proof host marshal fuel delta (vm_at host a.state)) [
          | none ↦ none
          | some (x, _) ↦ elim x [
            | err e ↦ some (exits (reported e))
            | panic f ↦ some (crashes f)
            | ok p ↦
                some (
                  save_proof ordinal (proof_name (ordinal + 1) a.header.step_number delta) delta p
                    r)
          ]
        ]

    -- The body of that loop: it reads both snapshots first.
    unfoldable pub prove_segment :
        ℕ → Bytes → Bytes → Recorded Dir → Option (Outcome (Recorded Dir))
    prove_segment ordinal start end r = elim (disk.read_snapshot start r.dir) [
      | none ↦ some (exits unreadable_file)
      | some a ↦ elim (disk.read_snapshot end r.dir) [
        | none ↦ some (exits unreadable_file)
        | some b ↦ prove_between ordinal a b r
      ]
    ]

    -- The loop over the segments, whose ordinals go with the paths.
    unfoldable pub prove_segments : ℕ → List Bytes → Recorded Dir → Option (Outcome (Recorded Dir))
    prove_segments ordinal [] r = some (finished r)
    prove_segments ordinal (a ∷ []) r = some (finished r)
    prove_segments ordinal (a ∷ (b ∷ rest)) r = elim (prove_segment ordinal a b r) [
      | none ↦ none
      | some x ↦ elim x [
        | exits e ↦ some (exits e)
        | crashes f ↦ some (crashes f)
        | finished r' ↦ prove_segments (suc ordinal) (b ∷ rest) r'
      ]
    ]

    -- The index is written last.
    unfoldable pub save_index : Recorded Dir → Outcome (Recorded Dir)
    save_index r = elim (disk.write_index r.index r.dir) [
      | none ↦ exits unwritable_file
      | some dir ↦ finished (record r { dir = dir })
    ]

    -- What follows the cutting of the run.
    unfoldable pub finish_artifacts : Bool → Cutting Dir → Option (Outcome (Recorded Dir))
    finish_artifacts write_proofs c =
        let r : Recorded Dir = record { index = c.index; dir = c.dir } in
        let paths = reverse (map (λ w. w.0) c.written) in
        elim (if write_proofs then prove_segments 0 paths r else some (finished r)) [
          | none ↦ none
          | some x ↦ elim x [
            | exits e ↦ some (exits e)
            | crashes f ↦ some (crashes f)
            | finished r' ↦ some (save_index r')
          ]
        ]

    -- The index that the command starts with, at the time `now` of the clock.
    abbrev pub first_index : ℕ → ℕ → ℕ → ℕ → SnapshotIndex
    first_index now chain_id iterations threshold =
        record (new_snapshot_index now chain_id (countdown_gas_for_iterations iterations)
          threshold) {
            bytecode_hex = with_0x (build_countdown_loop iterations);
            meta =
                (codes "artifact_kind", codes "e2e")
                ∷ ((codes "gas_formula", codes "totalGas = 24 + 37 * iterations") ∷ []);
          }

    -- The machine that the command runs.
    abbrev pub first_vm : ℕ → ℕ → Vm
    first_vm chain_id iterations =
        record (new_vm host (build_countdown_loop iterations)
          (countdown_gas_for_iterations iterations)) { chain_id = chain_id }

    -- The run of the counting loop, cut into snapshots.
    unfoldable pub cut_countdown : ℕ → ℕ → ℕ → ℕ → Dir → Option (Outcome (Cutting Dir))
    cut_countdown now chain_id iterations threshold dir =
        cut_run host disk (countdown_gas_for_iterations iterations) threshold fuel
          (first_vm chain_id iterations) (first_index now chain_id iterations threshold) dir

    -- `generateArtifacts`, up to the manifest of the task; the fuel bounds the steps of the run and of
    -- each proof.
    unfoldable pub generate_artifacts : ℕ → ℕ → ℕ → ℕ → Bool → Dir → Option (Outcome (Recorded Dir))
    generate_artifacts now chain_id gas_floor threshold write_proofs dir = elim (threshold == 0) [
      | true ↦ some (exits no_threshold)
      | false ↦ elim (disk.make dir) [
        | none ↦ some (exits unwritable_file)
        | some made ↦
            elim (cut_countdown now chain_id (countdown_iterations_for_gas_floor gas_floor)
              threshold made) [
                | none ↦ none
                | some x ↦ elim x [
                  | exits e ↦ some (exits e)
                  | crashes f ↦ some (crashes f)
                  | finished c ↦ finish_artifacts write_proofs c
                ]
              ]
      ]
    ]
