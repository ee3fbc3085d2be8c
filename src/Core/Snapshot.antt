-- ===== src/Core/Snapshot.antt =====
-- Snapshots of a state (purevm/core/snapshot.go).
pub mod Integrity
use offchain_com.Base.{
  ℕ, suc, ◌+◌, ◌/◌, ◌%◌, ◌^◌, ◌≡◌, Bool, true, false, List, [], ◌∷◌, ◌++◌, Option, none, some, leb,
  bytes_eq, if◌then◌else◌,
}
use offchain_com.Core.Word.{Bytes, Word, fill_bytes}
use offchain_com.Core.Action.{
  Error, Result, ok, err, panic, header_code_hash_mismatch, integrity_mismatch, non_increasing_step,
  link_initial_mismatch, link_final_mismatch, Host,
}
use offchain_com.Core.State.{VmState, clone, hash, verify_code_hash, serialize_canonical}

-- `SnapshotHeaderV1`
pub record SnapshotHeader : Type 0 where
  pub version : ℕ
  pub chain_id : ℕ
  pub block_height : ℕ
  pub timestamp : ℕ
  pub state_root : Word
  pub code_hash : Word
  pub step_number : ℕ
  pub gas_remaining : ℕ

-- `StandardSnapshot`; `meta` is the map as a list of its entries.
pub record StandardSnapshot : Type 0 where
  pub header : SnapshotHeader
  pub state : VmState
  pub meta : List (Bytes × Bytes)

module _ (host : Host VmState) where
  -- `NewStandardSnapshot`
  unfoldable pub new_standard_snapshot : VmState → ℕ → StandardSnapshot
  new_standard_snapshot state chain_id = record {
    header = record {
      version = 1;
      chain_id = chain_id;
      block_height = 0;
      timestamp = host.unix_time state;
      state_root = hash host state;
      code_hash = state.code_hash;
      step_number = state.step_count;
      gas_remaining = state.gas;
    };
    state = clone state;
    meta = [];
  }

  -- `StandardSnapshot.VerifyIntegrity`
  unfoldable pub verify_integrity : StandardSnapshot → Result (Unit {0})
  verify_integrity snap =
      if bytes_eq snap.header.code_hash snap.state.code_hash
      then elim (verify_code_hash host snap.state) [
        | ok _ ↦
            let calculated = hash host snap.state in
            if bytes_eq calculated snap.header.state_root
            then ok tt
            else err (integrity_mismatch calculated snap.header.state_root)
        | err e ↦ err e
        | panic p ↦ panic p
      ]
      else err (header_code_hash_mismatch snap.header.code_hash snap.state.code_hash)

  -- `StandardSnapshot.EncodeForPrecompile`: version (two bytes), chain (eight), root, state.
  unfoldable pub encode_for_precompile : StandardSnapshot → Bytes
  encode_for_precompile snap =
      fill_bytes 2 snap.header.version []
      ++ (fill_bytes 8 snap.header.chain_id []
          ++ (snap.header.state_root ++ serialize_canonical host snap.state))

-- `TransitionLink`
pub record TransitionLink : Type 0 where
  pub initial_root : Word
  pub final_root : Word
  pub start_step : ℕ
  pub end_step : ℕ
  pub trace_root : Word

-- `SnapshotSequence`. Both lists have their last element first.
pub record SnapshotSequence : Type 0 where
  pub snapshots : List StandardSnapshot
  pub links : List TransitionLink

-- The checks of `AddSnapshot` against the last snapshot.
unfoldable pub check_link :
    StandardSnapshot → StandardSnapshot → Option TransitionLink → Result (Unit {0})
check_link last snap link =
    if leb snap.header.step_number last.header.step_number
    then err (non_increasing_step last.header.step_number snap.header.step_number)
    else elim link [
      | none ↦ ok tt
      | some l ↦
          if bytes_eq l.initial_root last.header.state_root
          then if bytes_eq l.final_root snap.header.state_root
            then ok tt
            else err link_final_mismatch
          else err link_initial_mismatch
    ]

abbrev append_link : Option TransitionLink → List TransitionLink → List TransitionLink
append_link none ls = ls
append_link (some l) ls = l ∷ ls

-- `SnapshotSequence.AddSnapshot`
unfoldable pub add_snapshot :
    StandardSnapshot
    → Option TransitionLink
    → SnapshotSequence
    → Result (Unit {0}) × SnapshotSequence
add_snapshot snap link seq =
    let added : SnapshotSequence = record {
      snapshots = snap ∷ seq.snapshots;
      links = append_link link seq.links;
    } in
    elim seq.snapshots [
      | [] ↦ (ok tt, added)
      | last ∷ _ ↦ elim (check_link last snap link) [
        | ok _ ↦ (ok tt, added)
        | err e ↦ (err e, seq)
        | panic p ↦ (panic p, seq)
      ]
    ]
