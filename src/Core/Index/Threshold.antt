-- ===== src/Core/Index/Threshold.antt =====
-- `ValidateAdjacentThreshold` (purevm/core/snapshot_index.go).
use offchain_com.Base.{◌-◌, ◌≤◌, ◌<◌, ◌≡◌, ◌⊎◌, ◌↔◌, arith}
use offchain_com.Core.Action.{ok}
use offchain_com.Core.Index.{SnapshotIndex, SnapshotIndexEntry, validate_adjacent_threshold}

-- `ValidateAdjacentThreshold` accepts two entries exactly when the index sets no threshold, or both
-- the gas and the steps grow from the first to the second and the gas between them is within the
-- threshold.
pub validate_adjacent_threshold_iff :
    (start end : SnapshotIndexEntry) (idx : SnapshotIndex)
    → (validate_adjacent_threshold start end idx ≡ ok tt) ↔ (
        (idx.snapshot_threshold_gas ≡ 0)
        ⊎ ((start.gas_used < end.gas_used)
            × ((start.step_number < end.step_number)
                × (end.gas_used - start.gas_used ≤ idx.snapshot_threshold_gas))))
unfolding validate_adjacent_threshold
validate_adjacent_threshold_iff start end idx = ground arith
