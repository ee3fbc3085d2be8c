-- ===== src/Core/Index.antt =====
-- The index of the snapshots of a run (purevm/core/snapshot_index.go).
pub mod Chain
pub mod Threshold
use offchain_com.Base.{
  ℕ, ◌-◌, ◌≡◌, Bool, true, false, ◌==◌, List, [], ◌∷◌, ◌++◌, Option, none, some, leb, ltb, length,
  get_elem?, set, if◌then◌else◌,
}
use offchain_com.Base.Int.{ℤ, pos, negsuc}
use offchain_com.Core.Word.{Bytes, Word}
use offchain_com.Core.Action.{
  Error, ordinal_out_of_range, no_next_snapshot, non_increasing_gas, non_increasing_step_number,
  exceeds_threshold, Result, ok, err, panic, Action,
}
use offchain_com.Core.Snapshot.{StandardSnapshot}

-- `SnapshotIndexEntry`; Go's `int` is an integer, and a nil pointer is `none`.
pub record SnapshotIndexEntry : Type 0 where
  pub ordinal : ℤ
  pub snapshot_file : Bytes
  pub step_number : ℕ
  pub gas_used : ℕ
  pub gas_remaining : ℕ
  pub state_root : Word
  pub next_ordinal : Option ℤ
  pub adjacent_proof_file : Bytes
  pub adjacent_proof_steps : ℕ
  pub adjacent_proof_is_full : Bool

-- `SnapshotIndex`; `meta` is the map as a list of its entries.
pub record SnapshotIndex : Type 0 where
  pub version : ℕ
  pub created_at_unix : ℕ
  pub chain_id : ℕ
  pub bytecode_hex : Bytes
  pub total_gas : ℕ
  pub snapshot_threshold_gas : ℕ
  pub meta : List (Bytes × Bytes)
  pub snapshots : List SnapshotIndexEntry

-- `NewSnapshotIndex`, at the time `now` of the clock.
unfoldable pub new_snapshot_index : ℕ → ℕ → ℕ → ℕ → SnapshotIndex
new_snapshot_index now chain_id total_gas threshold_gas = record {
  version = 1;
  created_at_unix = now;
  chain_id = chain_id;
  bytecode_hex = [];
  total_gas = total_gas;
  snapshot_threshold_gas = threshold_gas;
  meta = [];
  snapshots = [];
}

-- The last entry of a list points to `o` as the next one.
unfoldable pub link_last : ℤ → List SnapshotIndexEntry → List SnapshotIndexEntry
link_last o [] = []
link_last o (e ∷ []) = record e { next_ordinal = some o } ∷ []
link_last o (e ∷ (e' ∷ es)) = e ∷ link_last o (e' ∷ es)

abbrev pub new_entry : ℕ → Bytes → StandardSnapshot → ℕ → SnapshotIndexEntry
new_entry n file snap gas_used = record {
  ordinal = pos n;
  snapshot_file = file;
  step_number = snap.header.step_number;
  gas_used = gas_used;
  gas_remaining = snap.state.gas;
  state_root = snap.header.state_root;
  next_ordinal = none;
  adjacent_proof_file = [];
  adjacent_proof_steps = 0;
  adjacent_proof_is_full = false;
}

-- `SnapshotIndex.AddSnapshot`
unfoldable pub add_snapshot : Bytes → StandardSnapshot → ℕ → SnapshotIndex → SnapshotIndex
add_snapshot file snap gas_used idx =
    let n = length idx.snapshots in
    record idx {
      snapshots = link_last (pos n) idx.snapshots ++ new_entry n file snap gas_used ∷ [];
    }

-- `SnapshotIndex.Entry`
unfoldable pub entry : ℤ → SnapshotIndex → Result SnapshotIndexEntry
entry (negsuc n) idx = err (ordinal_out_of_range (negsuc n))
entry (pos n) idx = elim (get_elem? idx.snapshots n) [
  | none ↦ err (ordinal_out_of_range (pos n))
  | some e ↦ ok e
]

-- The write through the pointer that `Entry` returns.
abbrev put_entry : ℤ → SnapshotIndexEntry → SnapshotIndex → SnapshotIndex
put_entry (negsuc n) e idx = idx
put_entry (pos n) e idx = record idx { snapshots = set idx.snapshots n e }

-- `SnapshotIndex.SetAdjacentProof`
unfoldable pub set_adjacent_proof : ℤ → Bytes → ℕ → Bool → Action SnapshotIndex (Unit {0})
set_adjacent_proof ordinal file steps full idx = elim (entry ordinal idx) [
  | ok e ↦ (
    ok tt,
    put_entry ordinal
        (record e {
          adjacent_proof_file = file;
          adjacent_proof_steps = steps;
          adjacent_proof_is_full = full;
        })
        idx,
  )
  | err x ↦ (err x, idx)
  | panic p ↦ (panic p, idx)
]

-- `SnapshotIndex.AdjacentEntries`
unfoldable pub adjacent_entries :
    ℤ → SnapshotIndex → Result (SnapshotIndexEntry × SnapshotIndexEntry)
adjacent_entries ordinal idx = elim (entry ordinal idx) [
  | ok current ↦ elim current.next_ordinal [
    | none ↦ err (no_next_snapshot ordinal)
    | some o ↦ elim (entry o idx) [
      | ok next ↦ ok (current, next)
      | err x ↦ err x
      | panic p ↦ panic p
    ]
  ]
  | err x ↦ err x
  | panic p ↦ panic p
]

-- `SnapshotIndex.ValidateAdjacentThreshold`
unfoldable pub validate_adjacent_threshold :
    SnapshotIndexEntry → SnapshotIndexEntry → SnapshotIndex → Result (Unit {0})
validate_adjacent_threshold start end idx =
    if idx.snapshot_threshold_gas == 0
    then ok tt
    else if leb end.gas_used start.gas_used
    then err (non_increasing_gas start.gas_used end.gas_used)
    else if leb end.step_number start.step_number
    then err (non_increasing_step_number start.step_number end.step_number)
    else if ltb idx.snapshot_threshold_gas (end.gas_used - start.gas_used)
    then err (exceeds_threshold (end.gas_used - start.gas_used) idx.snapshot_threshold_gas)
    else ok tt
