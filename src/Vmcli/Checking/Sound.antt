-- ===== src/Vmcli/Checking/Sound.antt =====
-- What a `verify-index` that succeeds has established (purevm/cmd/vmcli/main.go).
use offchain_com.Base.{
  ℕ, ◌-◌, ◌≤◌, ◌<◌, ◌≡◌, ◌≢◌, inl, inr, ap, ◌∙◌, subst, arith, Option, some, Option-cases,
  eq_of_some,
}
use offchain_com.Base.Int.{ℤ}
use offchain_com.Core.Word.{Bytes}
use offchain_com.Core.Action.{Result, Result-cases, ok, Host}
use offchain_com.Core.State.{VmState}
use offchain_com.Core.Snapshot.{StandardSnapshot, verify_integrity}
use offchain_com.Core.Index.{SnapshotIndex, adjacent_entries}
use offchain_com.Core.Index.Threshold.{validate_adjacent_threshold_iff}
use offchain_com.Proof.Types.{StepProof, TransitionProof}
use offchain_com.Proof.Transition.{vm_at}
use offchain_com.Proof.Predict.{
  NextSnapshotResult, restored, predict_next_snapshot, verify_next_snapshot_hash,
}
use offchain_com.Proof.Predict.Greedy.{Longest, predict_next_snapshot-Longest}
use offchain_com.Vmcli.Types.{Outcome-cases, finished}
use offchain_com.Vmcli.Running.{prove_from}
use offchain_com.Vmcli.Checking.{
  Adjacent, Paths, resolve_path, find_adjacent, replay_adjacent, verify_index,
}
use offchain_com.Proof.Predict.Accepts.{accepted}
use offchain_com.Vmcli.Checking.Found.{finished_inj, find_adjacent-Found}

module _ (host : Host VmState) where
  module _ (marshal : StepProof → Bytes) (paths : Paths)
      (read_snapshot : Bytes → Option StandardSnapshot) where
    -- What is established of an index and of the entries and snapshots that were read.
    pub record Confirmed (index_file : Bytes) (idx : SnapshotIndex) (ordinal : ℤ) (a : Adjacent)
        : Type 0 where
      pub entries : adjacent_entries ordinal idx ≡ ok (a.start_entry, a.end_entry)
      pub start_file :
          read_snapshot (resolve_path paths index_file a.start_entry.snapshot_file)
          ≡ some a.start_snap
      pub end_file :
          read_snapshot (resolve_path paths index_file a.end_entry.snapshot_file) ≡ some a.end_snap
      pub gas_grows : a.start_entry.gas_used < a.end_entry.gas_used
      pub steps_grow : a.start_entry.step_number < a.end_entry.step_number
      pub within : a.end_entry.gas_used - a.start_entry.gas_used ≤ idx.snapshot_threshold_gas
      pub end_intact : verify_integrity host a.end_snap ≡ ok tt
      pub next : NextSnapshotResult
      pub longest :
          Longest host idx.snapshot_threshold_gas a.start_snap (restored host a.start_snap) next
      pub same_root : next.snapshot.header.state_root ≡ a.end_snap.header.state_root

    -- A threshold of 0 is refused.
    predicts_nothing :
        (fuel : ℕ) (start : StandardSnapshot) (next : NextSnapshotResult) (threshold : ℕ)
        → predict_next_snapshot host fuel start threshold ≡ some (ok next)
        → threshold ≢ 0
    unfolding predict_next_snapshot
    predicts_nothing fuel start next threshold e zero =
        elim (Result-cases (verify_integrity host start)) [
          | inr (inl (x, f)) ↦ ground arith
          | inr (inr (x, f)) ↦ ground arith
          | inl (u, f) ↦ ground arith
        ]

    replay_adjacent_lem :
        (fuel threshold : ℕ) (a b : Adjacent) (p : TransitionProof)
        → replay_adjacent host marshal fuel threshold a ≡ some (finished (b, p))
        → (a ≡ b)
          × (next : NextSnapshotResult) × (verify_next_snapshot_hash host fuel a.start_snap
                a.end_snap threshold
              ≡ some (ok next))
    unfolding replay_adjacent
    replay_adjacent_lem fuel threshold a b p e =
        elim (Option-cases
          (verify_next_snapshot_hash host fuel a.start_snap a.end_snap threshold)) [
            | inl f ↦ ground arith
            | inr (r, f) ↦ elim (Result-cases r) [
              | inr (inl (x, g)) ↦ ground arith
              | inr (inr (x, g)) ↦ ground arith
              | inl (next, g) ↦
                  elim (Option-cases
                    (prove_from host fuel marshal next.steps (vm_at host a.start_snap.state))) [
                      | inl k ↦ ground arith
                      | inr (o, k) ↦ elim (Outcome-cases o) [
                        | inr (inl (x, l)) ↦ ground arith
                        | inr (inr (x, l)) ↦ ground arith
                        | inl (q, l) ↦
                            let both = finished_inj (
                              eq_of_some {a = finished (a, q)} {b = finished (b, p)}
                                (ground arith)) in
                            (
                              ap (λ (t : Adjacent × TransitionProof). t.0) both,
                              next,
                              f ∙ ap (λ (t : Result NextSnapshotResult). some t) g,
                            )
                      ]
                    ]
            ]
          ]

    -- A `verify-index` that succeeds has found what the index commits to. The two entries are adjacent in
    -- the index, the gas and the steps grow between them, and the gas is within the threshold of the
    -- index, which is not 0. Their files hold a start snapshot and an intact end snapshot, and the longest
    -- segment within the threshold from the start, which is replayed, ends in a state with the state root
    -- of the end snapshot.
    pub verify_index-Confirmed :
        (fuel : ℕ) (index_file : Bytes) (idx : SnapshotIndex) (ordinal : ℤ) (a : Adjacent)
        (p : TransitionProof)
        → verify_index host marshal paths read_snapshot fuel index_file (some idx) ordinal
          ≡ some (finished (a, p))
        → Confirmed index_file idx ordinal a
    unfolding verify_index
    verify_index-Confirmed fuel index_file idx ordinal a p e =
        elim (Outcome-cases (find_adjacent paths read_snapshot index_file idx ordinal)) [
          | inr (inl (x, f)) ↦ ground arith
          | inr (inr (x, f)) ↦ ground arith
          | inl (b, f) ↦
              let (same, next, v) =
                replay_adjacent_lem fuel idx.snapshot_threshold_gas b a p (ground arith) in
              let found = find_adjacent-Found paths read_snapshot index_file idx ordinal b f in
              let (intact, predicted, root) =
                accepted host fuel idx.snapshot_threshold_gas b.start_snap b.end_snap next v in
              let grows =
                (validate_adjacent_threshold_iff b.start_entry b.end_entry idx).0 found.threshold in
              let some_threshold =
                predicts_nothing fuel b.start_snap next idx.snapshot_threshold_gas predicted in
              subst (Confirmed index_file idx ordinal) same (record {
                entries = found.entries;
                start_file = found.start_file;
                end_file = found.end_file;
                gas_grows = ground arith;
                steps_grow = ground arith;
                within = ground arith;
                end_intact = intact;
                next = next;
                longest =
                    predict_next_snapshot-Longest host fuel idx.snapshot_threshold_gas b.start_snap
                      next predicted;
                same_root = root;
              })
        ]
