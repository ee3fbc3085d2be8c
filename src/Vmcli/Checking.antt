-- ===== src/Vmcli/Checking.antt =====
-- The commands of the command line (purevm/cmd/vmcli/main.go) that check files: `verify`,
-- `verify-index` and `locate-dispute`.
pub mod Found
pub mod Sound
pub mod RoundTrip
use offchain_com.Base.{ℕ, ◌≡◌, Bool, true, false, Option, none, some, if◌then◌else◌}
use offchain_com.Base.Int.{ℤ}
use offchain_com.Core.Word.{Bytes, Word}
use offchain_com.Core.Action.{Result, ok, err, panic, Host}
use offchain_com.Core.State.{VmState}
use offchain_com.Core.Snapshot.{StandardSnapshot, verify_integrity}
use offchain_com.Core.Index.{
  SnapshotIndexEntry, SnapshotIndex, adjacent_entries, validate_adjacent_threshold,
}
use offchain_com.Proof.Types.{StepProof, TransitionProof}
use offchain_com.Proof.Transition.{verify, vm_at, generate_transition_proof}
use offchain_com.Proof.Predict.{NextSnapshotResult, verify_next_snapshot_hash}
use offchain_com.Proof.Dispute.{DivergentSegment, find_first_divergent_segment}
use offchain_com.Vmcli.Types.{Outcome, finished, exits, crashes, unreadable_file, reported, ◌>>=◌}
use offchain_com.Vmcli.Running.{or_exit, prove_from}

-- `filepath.IsAbs`, `filepath.Dir` and `filepath.Join`.
pub record Paths : Type 0 where
  pub is_abs : Bytes → Bool
  pub dir : Bytes → Bytes
  pub join : Bytes → Bytes → Bytes

-- `SnapshotIndex.ResolvePath`
unfoldable pub resolve_path : Paths → Bytes → Bytes → Bytes
resolve_path paths index_path file =
    if paths.is_abs file then file else paths.join (paths.dir index_path) file

-- What `verifyIndex` has found before it replays anything.
pub record Adjacent : Type 0 where
  pub start_entry : SnapshotIndexEntry
  pub end_entry : SnapshotIndexEntry
  pub start_snap : StandardSnapshot
  pub end_snap : StandardSnapshot

module _ (paths : Paths) (read_snapshot : Bytes → Option StandardSnapshot) where
  -- `verifyIndex` up to the reading of both snapshots.
  unfoldable pub find_adjacent : Bytes → SnapshotIndex → ℤ → Outcome Adjacent
  find_adjacent index_file idx ordinal = elim (adjacent_entries ordinal idx) [
    | err e ↦ exits (reported e)
    | panic f ↦ crashes f
    | ok (s, e) ↦ elim (validate_adjacent_threshold s e idx) [
      | err x ↦ exits (reported x)
      | panic f ↦ crashes f
      | ok _ ↦ elim (read_snapshot (resolve_path paths index_file s.snapshot_file)) [
        | none ↦ exits unreadable_file
        | some a ↦ elim (read_snapshot (resolve_path paths index_file e.snapshot_file)) [
          | none ↦ exits unreadable_file
          | some b ↦
              finished (record { start_entry = s; end_entry = e; start_snap = a; end_snap = b })
        ]
      ]
    ]
  ]

module _ (host : Host VmState) (marshal : StepProof → Bytes) where
  -- `verifyProof`, on the snapshot and the proof in the files.
  unfoldable pub verify_proof :
      Option StandardSnapshot → Option TransitionProof → Outcome TransitionProof
  verify_proof none proof = exits unreadable_file
  verify_proof (some snap) none = exits unreadable_file
  verify_proof (some snap) (some p) = or_exit (verify_integrity host snap) (λ _. tt) >>= λ _.
      or_exit (verify host marshal p snap.state) (λ _. p)

  -- `verifyIndex` behind that; the proof that it makes is only printed.
  unfoldable pub replay_adjacent : ℕ → ℕ → Adjacent → Option (Outcome (Adjacent × TransitionProof))
  replay_adjacent fuel threshold a =
      elim (verify_next_snapshot_hash host fuel a.start_snap a.end_snap threshold) [
        | none ↦ none
        | some r ↦ elim r [
          | err e ↦ some (exits (reported e))
          | panic f ↦ some (crashes f)
          | ok next ↦
              elim (prove_from host fuel marshal next.steps (vm_at host a.start_snap.state)) [
                | none ↦ none
                | some o ↦ some (o >>= λ p. finished (a, p))
              ]
        ]
      ]

  module _ (paths : Paths) (read_snapshot : Bytes → Option StandardSnapshot) where
    -- `verifyIndex`, on the index in the file. The flags `-steps` and `-full` set a number of steps
    -- that nothing reads.
    unfoldable pub verify_index :
        ℕ → Bytes → Option SnapshotIndex → ℤ → Option (Outcome (Adjacent × TransitionProof))
    verify_index fuel index_file none ordinal = some (exits unreadable_file)
    verify_index fuel index_file (some idx) ordinal =
        elim (find_adjacent paths read_snapshot index_file idx ordinal) [
          | exits x ↦ some (exits x)
          | crashes f ↦ some (crashes f)
          | finished a ↦ replay_adjacent fuel idx.snapshot_threshold_gas a
        ]

-- `locateDispute`, on the indices in the files.
unfoldable pub locate_dispute :
    Option SnapshotIndex → Option SnapshotIndex → Outcome DivergentSegment
locate_dispute none verified = exits unreadable_file
locate_dispute (some claimed) none = exits unreadable_file
locate_dispute (some claimed) (some verified) =
    or_exit (find_first_divergent_segment (some claimed) (some verified)) (λ r. r)
