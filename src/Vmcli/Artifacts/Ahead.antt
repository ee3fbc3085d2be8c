-- ===== src/Vmcli/Artifacts/Ahead.antt =====
-- The loop of `PredictNextSnapshot` (purevm/proof/snapshot_verify.go) beside a run of
-- `generate-artifacts` (purevm/cmd/vmcli/main.go).
use offchain_com.Base.{
  ℕ, suc, ◌+◌, ◌%◌, ◌≤◌, ◌<◌, ◌≡◌, refl, ap, ◌∙◌, arith, Bool, false, List, [], ◌∷◌, none, some,
  ◌==◌,
}
use offchain_com.Core.Word.{Bytes, u64_mod}
use offchain_com.Core.Action.{Result, ok, Host}
use offchain_com.Core.State.{VmState}
use offchain_com.Core.Snapshot.{StandardSnapshot, new_standard_snapshot}
use offchain_com.Core.Machine.{Vm}
use offchain_com.Core.Step.{step, peek_next_gas_cost}
use offchain_com.Proof.Predict.{
  NextSnapshotResult, result_at, is_full, predict_from, restored, predict_next_snapshot,
  verify_next_snapshot_hash,
}
use offchain_com.Proof.Predict.Greedy.{verify_next_snapshot_hash_iff}
use offchain_com.Proof.Predict.Unroll.{at_step, predict_from-masked, predict_from-le}
use offchain_com.Vmcli.Artifacts.Machines.{
  Keeps, taken_of, taken_of-verify_integrity, restored-taken_of,
}

module _ (host : Host VmState) (threshold most : ℕ) where
  -- `VerifyNextSnapshotHash` accepts the snapshot `b` behind `a`.
  abbrev pub Follows : StandardSnapshot → StandardSnapshot → Type 0
  Follows a b =
      (r : NextSnapshotResult) × (verify_next_snapshot_hash host most a b threshold ≡ some (ok r))

  -- Every snapshot of a list follows the next one of the list.
  abbrev pub Chained : List (Bytes × StandardSnapshot) → Type 0
  Chained [] = Unit
  Chained (b ∷ []) = Unit
  Chained (b ∷ (a ∷ rest)) = Follows a.1 b.1 × Chained (a ∷ rest)

module _ (host : Host VmState) (P : Vm → Type 0) (inv : Keeps host P) (threshold : ℕ)
    (positive : 0 < threshold) (most : ℕ) where
  -- What the loop of `PredictNextSnapshot` answers from `vm` is what it answers from the snapshot `a`.
  abbrev pub Ahead : StandardSnapshot → ℕ → ℕ → Vm → Type 0
  Ahead a fuel window vm =
      (r : Result NextSnapshotResult)
      → predict_from host fuel a threshold window vm ≡ some r
      → predict_next_snapshot host most a threshold ≡ some r

  pub start-Ahead :
      (fuel : ℕ) (meta : List (Bytes × Bytes)) (vm : Vm)
      → P vm
      → vm.halted ≡ false
      → fuel ≤ most
      → Ahead (taken_of host meta vm) fuel 0 vm
  unfolding predict_next_snapshot
  start-Ahead fuel meta vm g running le r e =
      let a = taken_of host meta vm in
      let from : predict_from host most a threshold 0 (restored host a) ≡ some r =
        predict_from-le host a threshold fuel most 0 (restored host a) r
          (ap (predict_from host fuel a threshold 0)
              (restored-taken_of host meta vm (inv.empty vm g) running)
            ∙ (predict_from-masked host a threshold fuel 0 [] none vm ∙ e))
          le in
      let some_gas : threshold == 0 ≡ false = ground arith in
      rw (predict_next_snapshot, taken_of-verify_integrity host meta vm (inv.intact vm g), some_gas)
        from

  pub step-Ahead :
      (a : StandardSnapshot) (fuel window next : ℕ) (vm : Vm)
      → Ahead a (suc fuel) window vm
      → vm.halted ≡ false
      → peek_next_gas_cost host vm ≡ ok next
      → is_full host threshold window next ≡ false
      → (step host vm).0 ≡ ok tt
      → Ahead a fuel ((window + next) % u64_mod) (step host vm).1
  step-Ahead a fuel window next vm h running p room done r e =
      h r (at_step host a threshold fuel window vm running next p room ∙ rw done e)

  -- Where the loop of `PredictNextSnapshot` ends, the snapshot of the machine follows.
  pub here-Follows :
      (a : StandardSnapshot) (fuel window : ℕ) (final : Bool) (meta : List (Bytes × Bytes))
      (vm : Vm)
      → Ahead a fuel window vm
      → P vm
      → predict_from host fuel a threshold window vm ≡ some (ok (result_at host a window final vm))
      → Follows host threshold most a (taken_of host meta vm)
  unfolding new_standard_snapshot
  here-Follows a fuel window final meta vm h g e =
      let r = result_at host a window final vm in
      (
        r,
        (verify_next_snapshot_hash_iff host most threshold a (taken_of host meta vm) r (h (ok r) e)
              (taken_of-verify_integrity host meta vm (inv.intact vm g))).1
            refl,
      )
