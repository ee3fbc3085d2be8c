-- ===== src/Proof/Predict.antt =====
-- The next snapshot by the gas threshold (purevm/proof/snapshot_verify.go).
pub mod Greedy
pub mod Accepts
pub mod Ends
pub mod Unroll
use offchain_com.Base.{
  ℕ, zero, suc, ◌+◌, ◌-◌, ◌%◌, ◌^◌, ◌≡◌, Bool, true, false, ◌&&◌, List, [], ◌∷◌, Option, none, some,
  ltb, ◌==◌, if◌then◌else◌, bytes_eq,
}
use offchain_com.Core.Word.{Word, u64_mod}
use offchain_com.Core.Action.{
  Error, start_integrity, committed_integrity, zero_threshold, next_hash_mismatch, Result, ok, err,
  panic, Host,
}
use offchain_com.Core.State.{VmState, clone}
use offchain_com.Core.Snapshot.{StandardSnapshot, new_standard_snapshot, verify_integrity}
use offchain_com.Core.Machine.{Vm, new_vm}
use offchain_com.Core.Step.{step, peek_next_gas_cost}

-- `NextSnapshotResult`
pub record NextSnapshotResult : Type 0 where
  pub snapshot : StandardSnapshot
  pub steps : ℕ
  pub window_gas_used : ℕ
  pub is_final : Bool

module _ (host : Host VmState) where
  -- The result at the machine `vm`, which a run from `start` has reached.
  abbrev pub result_at : StandardSnapshot → ℕ → Bool → Vm → NextSnapshotResult
  result_at start window final vm = record {
    snapshot = new_standard_snapshot host vm.state start.header.chain_id;
    steps = (vm.state.step_count + u64_mod - start.header.step_number) % u64_mod;
    window_gas_used = window;
    is_final = final;
  }

  -- `windowGasUsed > 0 && windowGasUsed+nextGas > thresholdGas`
  abbrev pub is_full : ℕ → ℕ → ℕ → Bool
  is_full threshold window next = ltb 0 window && ltb threshold ((window + next) % u64_mod)

  -- The loop of `PredictNextSnapshot`, on fuel.
  unfoldable pub predict_from :
      ℕ → StandardSnapshot → ℕ → ℕ → Vm → Option (Result NextSnapshotResult)
  predict_from zero start threshold window vm = none
  predict_from (suc fuel) start threshold window vm = elim vm.halted [
    | true ↦ some (ok (result_at start window true vm))
    | false ↦ elim (peek_next_gas_cost host vm) [
      | err e ↦ some (err e)
      | panic f ↦ some (panic f)
      | ok next ↦ elim (is_full threshold window next) [
        | true ↦ some (ok (result_at start window false vm))
        | false ↦
            let (r, vm') = step host vm in
            elim r [
              | ok _ ↦ predict_from fuel start threshold ((window + next) % u64_mod) vm'
              | err e ↦ some (err e)
              | panic f ↦ some (panic f)
            ]
      ]
    ]
  ]

  -- The machine that `PredictNextSnapshot` starts.
  abbrev pub restored : StandardSnapshot → Vm
  restored snap = record (new_vm host snap.state.code snap.state.gas) {
    state = clone snap.state;
    chain_id = snap.header.chain_id;
  }

  -- `PredictNextSnapshot`, on fuel.
  unfoldable pub predict_next_snapshot :
      ℕ → StandardSnapshot → ℕ → Option (Result NextSnapshotResult)
  predict_next_snapshot fuel start threshold = elim (verify_integrity host start) [
    | err e ↦ some (err (start_integrity e))
    | panic f ↦ some (panic f)
    | ok _ ↦ elim (threshold == 0) [
      | true ↦ some (err zero_threshold)
      | false ↦ predict_from fuel start threshold 0 (restored start)
    ]
  ]

  -- The comparison of `VerifyNextSnapshotHash`.
  abbrev pub compare_roots : StandardSnapshot → NextSnapshotResult → Result NextSnapshotResult
  compare_roots committed r =
      let got = r.snapshot.header.state_root in
      let want = committed.header.state_root in
      if bytes_eq got want then ok r else err (next_hash_mismatch got want)

  -- `VerifyNextSnapshotHash`, on fuel.
  unfoldable pub verify_next_snapshot_hash :
      ℕ → StandardSnapshot → StandardSnapshot → ℕ → Option (Result NextSnapshotResult)
  verify_next_snapshot_hash fuel start committed threshold =
      elim (verify_integrity host committed) [
        | err e ↦ some (err (committed_integrity e))
        | panic f ↦ some (panic f)
        | ok _ ↦ elim (predict_next_snapshot fuel start threshold) [
          | none ↦ none
          | some r ↦ some (elim r [
            | err e ↦ err e
            | panic f ↦ panic f
            | ok next ↦ compare_roots committed next
          ])
        ]
      ]
