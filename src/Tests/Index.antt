-- ===== src/Tests/Index.antt =====
-- An index of two snapshots, and a dispute over it (purevm/core/snapshot_index.go,
-- purevm/proof/dispute.go).
use offchain_com.Base.{
  ℕ, ◌*◌, ◌-◌, ◌≤◌, ◌<◌, ◌≡◌, ◌⊎◌, ◌↔◌, refl, true, false, [], ◌∷◌, replicate, Option, none, some,
}
use offchain_com.Base.Int.{ℤ, pos}
use offchain_com.Core.Word.{Word}
use offchain_com.Core.Action.{ok}
use offchain_com.Core.State.{new_state}
use offchain_com.Core.Snapshot.{StandardSnapshot, new_standard_snapshot}
use offchain_com.Core.Index.{
  SnapshotIndexEntry, SnapshotIndex, new_snapshot_index, add_snapshot, set_adjacent_proof,
  adjacent_entries, validate_adjacent_threshold,
}
use offchain_com.Core.Index.Chain.{
  IsChain, IsIndex, add_snapshot-IsIndex, set_adjacent_proof-IsIndex, adjacent_entries_lem,
}
use offchain_com.Core.Index.Threshold.{validate_adjacent_threshold_iff}
use offchain_com.Proof.Dispute.{DivergentSegment, find_first_divergent_segment}
use offchain_com.Proof.Dispute.Prefix.{roots, Finds, find_first_divergent_segment-Finds}
use offchain_com.Tests.Machine.{host, sum_code}

abbrev snap : StandardSnapshot
snap = new_standard_snapshot host (new_state host sum_code 100) 1

abbrev entry_at : ℕ → Word → Option ℤ → SnapshotIndexEntry
entry_at n root next = record {
  ordinal = pos n;
  snapshot_file = [];
  step_number = 3 * n;
  gas_used = 9 * n;
  gas_remaining = 100 - 9 * n;
  state_root = root;
  next_ordinal = next;
  adjacent_proof_file = [];
  adjacent_proof_steps = 0;
  adjacent_proof_is_full = false;
}

-- Two entries; the second root is `root`.
abbrev index : Word → SnapshotIndex
index root = record (new_snapshot_index 0 1 100 10) {
  snapshots = entry_at 0 (replicate 32 7) (some (pos 1)) ∷ (entry_at 1 root none ∷ []);
}

index-IsIndex : (root : Word) → IsIndex (index root)
unfolding IsChain
index-IsIndex root = (refl, (refl, (refl, refl)))

abbrev agreed : SnapshotIndex
agreed = index (replicate 32 8)

add_snapshot-IsIndex_example : IsIndex (add_snapshot [] snap 20 agreed)
add_snapshot-IsIndex_example =
    add_snapshot-IsIndex [] snap 20 agreed (index-IsIndex (replicate 32 8))

set_adjacent_proof-IsIndex_example : IsIndex (set_adjacent_proof (pos 0) (1 ∷ []) 3 true agreed).1
set_adjacent_proof-IsIndex_example =
    set_adjacent_proof-IsIndex (pos 0) (1 ∷ []) 3 true agreed (index-IsIndex (replicate 32 8))

adjacent_entries_lem_example :
    adjacent_entries (pos 0) agreed
    ≡ ok (entry_at 0 (replicate 32 7) (some (pos 1)), entry_at 1 (replicate 32 8) none)
adjacent_entries_lem_example =
    adjacent_entries_lem 0 (entry_at 0 (replicate 32 7) (some (pos 1))) agreed
      (index-IsIndex (replicate 32 8)) refl

validate_adjacent_threshold_iff_example :
    (validate_adjacent_threshold (entry_at 0 [] none) (entry_at 1 [] none) agreed ≡ ok tt) ↔ (
      (agreed.snapshot_threshold_gas ≡ 0)
      ⊎ ((0 < 9) × ((0 < 3) × (9 ≤ agreed.snapshot_threshold_gas))))
validate_adjacent_threshold_iff_example =
    validate_adjacent_threshold_iff (entry_at 0 [] none) (entry_at 1 [] none) agreed

find_first_divergent_segment-Finds_example :
    (d : DivergentSegment) × ((find_first_divergent_segment
          (some agreed)
          (some (index (replicate 32 9)))
        ≡ ok d)
      × Finds 0 (roots agreed.snapshots) (roots (index (replicate 32 9)).snapshots) d)
find_first_divergent_segment-Finds_example =
    find_first_divergent_segment-Finds agreed (index (replicate 32 9))
      (entry_at 0 (replicate 32 7) (some (pos 1))) (entry_at 0 (replicate 32 7) (some (pos 1)))
      (entry_at 1 (replicate 32 8) none ∷ []) (entry_at 1 (replicate 32 9) none ∷ [])
      (index-IsIndex (replicate 32 8)) (index-IsIndex (replicate 32 9)) refl refl refl
