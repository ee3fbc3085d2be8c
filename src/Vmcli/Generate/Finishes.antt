-- ===== src/Vmcli/Generate/Finishes.antt =====
-- The cutting of the counting loop by `generate-artifacts` (purevm/cmd/vmcli/main.go) comes to its end.
use offchain_com.Base.{ℕ, ◌+◌, ◌*◌, ◌<◌, ◌≡◌, refl, ap, ◌∙◌, arith, List, ◌∷◌, some, length}
use offchain_com.Core.Word.{Bytes}
use offchain_com.Core.Action.{Host}
use offchain_com.Core.State.{VmState}
use offchain_com.Core.Snapshot.{StandardSnapshot}
use offchain_com.Core.Machine.{new_vm}
use offchain_com.Proof.Types.{StepProof}
use offchain_com.Vmcli.Types.{finished}
use offchain_com.Vmcli.Countdown.{u32_mod, countdown_gas_for_iterations}
use offchain_com.Vmcli.Artifacts.{Disk, Cutting, gas_used_by}
use offchain_com.Vmcli.Artifacts.Ahead.{Chained}
use offchain_com.Vmcli.Artifacts.Segments.{cut_run-Chained}
use offchain_com.Vmcli.Generate.{cut_countdown}
use offchain_com.Vmcli.Generate.Loop.{Runs, Runs-Keeps, loaded-Runs}
use offchain_com.Core.Machine.{TraceStep}
use offchain_com.Core.Index.{new_snapshot_index}
use offchain_com.Vmcli.Countdown.Run.{end_at, loaded, loaded-Steps}
use offchain_com.Vmcli.Generate.{first_index}
use offchain_com.Vmcli.Generate.Saves.{Writes, OnDisk}
use offchain_com.Vmcli.Generate.Ending.{initial, final, cut_run-Cut}

module _ (host : Host VmState) (chain_id n threshold : ℕ) {Dir : Type 0} (disk : Disk Dir) where
  -- The counting loop of `n` iterations has halted with no gas left, and the directory and the index
  -- have its snapshots.
  pub record Complete (dir : Dir) (c : Cutting Dir) : Type 0 where
    pub trace : List TraceStep
    pub ended : c.vm ≡ end_at host chain_id n (9 * n + 8) trace
    pub earlier : List (Bytes × StandardSnapshot)
    pub closed :
        c.written
        ≡ final host disk
            (countdown_gas_for_iterations n)
            threshold
            (length earlier)
            (countdown_gas_for_iterations n)
            (end_at host chain_id n (9 * n + 8) trace)
          ∷ earlier
    pub on_disk :
        OnDisk disk dir
          (initial host disk (countdown_gas_for_iterations n) threshold (loaded host chain_id n))
          c

module _ (host : Host VmState) (jumpdest_paid : host.jumpdest_gas ≡ 1) {Dir : Type 0}
    (disk : Disk Dir) (marshal : StepProof → Bytes) where
  -- If the files can be written, the command cuts the counting loop of any number of iterations below
  -- 2 ^ 32 into snapshots without an error, whatever the threshold: fuel for 9 rounds in each iteration
  -- and 9 more is enough. The machine has then halted after 9 steps for each iteration and 8 more with no
  -- gas left; the snapshots written to the directory, one after the other, begin with the initial one, of
  -- the loaded machine, and end with the final one, of the halted machine; and the index names the same
  -- files in the same order. `JUMPDEST` costs 1 gas.
  pub cut_countdown_finishes :
      (fuel now chain_id n threshold : ℕ) (dir : Dir)
      → Writes disk
      → n < u32_mod
      → 9 * n + 8 < fuel
      → (c : Cutting Dir) × (cut_countdown host disk marshal fuel now chain_id n threshold dir
          ≡ some (finished c))
        × Complete host chain_id n threshold disk dir c
  unfolding cut_countdown new_snapshot_index countdown_gas_for_iterations
  cut_countdown_finishes fuel now chain_id n threshold dir writes small enough =
      let (t, way) = loaded-Steps host jumpdest_paid chain_id n small in
      let total = countdown_gas_for_iterations n in
      let (c, e, k) =
        cut_run-Cut host disk total threshold writes fuel
          (first_index host disk marshal fuel now chain_id n threshold) dir way refl refl enough in
      let spent : gas_used_by host disk total threshold (end_at host chain_id n (9 * n + 8) t)
          ≡ total =
        omega arith in
      (
        c,
        e,
        record {
          trace = t;
          ended = k.ended;
          earlier = k.earlier;
          closed =
              k.closed
              ∙ ap
                  (λ (g : ℕ).
                    final host disk total threshold (length k.earlier) g
                      (end_at host chain_id n (9 * n + 8) t)
                    ∷ k.earlier)
                  spent;
          on_disk = k.on_disk;
        },
      )

  -- Where the command has cut the counting loop into snapshots, each one is the one that
  -- `VerifyNextSnapshotHash` accepts behind the snapshot before it, for the threshold of the command,
  -- which is not 0. The number of iterations is below 2 ^ 32, and `JUMPDEST` costs 1 gas.
  pub cut_countdown-Chained :
      (fuel now chain_id n threshold : ℕ) (dir : Dir) (c : Cutting Dir)
      → 0 < threshold
      → n < u32_mod
      → cut_countdown host disk marshal fuel now chain_id n threshold dir ≡ some (finished c)
      → Chained host threshold fuel c.written
  unfolding cut_countdown new_vm
  cut_countdown-Chained fuel now chain_id n threshold dir c positive small e =
      cut_run-Chained host (Runs host) (Runs-Keeps host) disk (countdown_gas_for_iterations n)
        threshold positive fuel _ _ dir c (loaded-Runs host chain_id n jumpdest_paid small).0 refl e
