-- ===== src/Proof/Predict/Greedy.antt =====
-- The segment of `PredictNextSnapshot` (purevm/proof/snapshot_verify.go) and the threshold.
use offchain_com.Base.{
  ℕ, zero, suc, ◌+◌, ◌%◌, ◌≤◌, ◌<◌, ◌≡◌, ◌⊎◌, inl, inr, refl, sym, subst, arith, Bool, true, false,
  Bool-cases, some, eq_of_some, ◌==◌, bytes_eq, bytes_eq→eq, bytes_eq_self, ◌↔◌,
}
use offchain_com.Core.Word.{u64_mod}
use offchain_com.Core.Action.{
  start_integrity, zero_threshold, Result, Result-cases, ok, err, panic, Host,
}
use offchain_com.Core.State.{VmState}
use offchain_com.Core.Snapshot.{StandardSnapshot, new_standard_snapshot, verify_integrity}
use offchain_com.Core.Machine.{Vm}
use offchain_com.Core.Step.{step, peek_next_gas_cost}
use offchain_com.Proof.Predict.{
  NextSnapshotResult, result_at, is_full, predict_from, restored, predict_next_snapshot,
  verify_next_snapshot_hash,
}

-- A run from one machine to another whose steps cost `window` in all: a step is taken while the
-- machine runs, if nothing is spent yet or the next price keeps the sum within the threshold.
pub data Segment (host : Host VmState) (threshold : ℕ) : ℕ → Vm → Vm → Type 0 where
  none_yet : {vm : Vm} → Segment host threshold 0 vm vm
  one_more :
      {window next : ℕ} {vm mid : Vm}
      → Segment host threshold window vm mid
      → mid.halted ≡ false
      → peek_next_gas_cost host mid ≡ ok next
      → (window ≡ 0) ⊎ ((window + next) % u64_mod ≤ threshold)
      → (step host mid).0 ≡ ok tt
      → Segment host threshold ((window + next) % u64_mod) vm (step host mid).1

module _ (host : Host VmState) where
  -- The segment that a result describes, and why it ends.
  pub record Longest (threshold : ℕ) (start : StandardSnapshot) (vm : Vm) (r : NextSnapshotResult)
      : Type 0 where
    pub last : Vm
    pub segment : Segment host threshold r.window_gas_used vm last
    pub taken : r.snapshot ≡ new_standard_snapshot host last.state start.header.chain_id
    pub final_iff : r.is_final ≡ last.halted
    pub full :
        r.is_final ≡ false
        → (next : ℕ) × ((peek_next_gas_cost host last ≡ ok next)
            × ((0 < r.window_gas_used) × (threshold < (r.window_gas_used + next) % u64_mod)))

  ends :
      (threshold window : ℕ) (final : Bool) (start : StandardSnapshot) (vm last : Vm)
      → Segment host threshold window vm last
      → last.halted ≡ final
      → (final ≡ false
          → (next : ℕ) × ((peek_next_gas_cost host last ≡ ok next)
              × ((0 < window) × (threshold < (window + next) % u64_mod))))
      → Longest threshold start vm (result_at host start window final last)
  ends threshold window final start vm last s h full = record {
    last = last;
    segment = s;
    taken = refl;
    final_iff = sym h;
    full = full;
  }

  abbrev Answer : ℕ → StandardSnapshot → Vm → Result NextSnapshotResult → Type 0
  Answer threshold start vm (ok r) = Longest threshold start vm r
  Answer threshold start vm (err e) = Unit
  Answer threshold start vm (panic f) = Unit

  predict_from-Answer :
      (fuel threshold window : ℕ) (start : StandardSnapshot) (vm mid : Vm)
      (r : Result NextSnapshotResult)
      → Segment host threshold window vm mid
      → predict_from host fuel start threshold window mid ≡ some r
      → Answer threshold start vm r
  unfolding predict_from
  predict_from-Answer zero threshold window start vm mid r s e = cc
  predict_from-Answer (suc fuel) threshold window start vm mid r s e =
      elim (Bool-cases mid.halted) [
        | inl h ↦
            subst (Answer threshold start vm) {x = ok (result_at host start window true mid)}
              (eq_of_some (ground arith)) (ends threshold window true start vm mid s h (λ p. cc))
        | inr h ↦ elim (Result-cases (peek_next_gas_cost host mid)) [
          | inr (inl (x, f)) ↦
              subst (Answer threshold start vm) {x = err x} (eq_of_some (ground arith)) tt
          | inr (inr (x, f)) ↦
              subst (Answer threshold start vm) {x = panic x} (eq_of_some (ground arith)) tt
          | inl (next, f) ↦ elim (Bool-cases (is_full host threshold window next)) [
            | inl g ↦
                subst (Answer threshold start vm) {x = ok (result_at host start window false mid)}
                  (eq_of_some (ground arith))
                  (ends threshold window false start vm mid s h
                    (λ p. (next, (f, (ground arith, ground arith)))))
            | inr g ↦ elim (Result-cases (step host mid).0) [
              | inr (inl (x, k)) ↦
                  subst (Answer threshold start vm) {x = err x} (eq_of_some (ground arith)) tt
              | inr (inr (x, k)) ↦
                  subst (Answer threshold start vm) {x = panic x} (eq_of_some (ground arith)) tt
              | inl (u, k) ↦
                  predict_from-Answer fuel threshold ((window + next) % u64_mod) start vm
                    (step host mid).1 r (one_more s h f (ground arith) k) (ground arith)
            ]
          ]
        ]
      ]

  predict-Answer :
      (fuel threshold : ℕ) (start : StandardSnapshot) (r : Result NextSnapshotResult)
      → predict_next_snapshot host fuel start threshold ≡ some r
      → Answer threshold start (restored host start) r
  unfolding predict_next_snapshot
  predict-Answer fuel threshold start r e = elim (Result-cases (verify_integrity host start)) [
    | inr (inl (x, f)) ↦
        subst (Answer threshold start (restored host start)) {x = err (start_integrity x)}
          (eq_of_some (ground arith)) tt
    | inr (inr (x, f)) ↦
        subst (Answer threshold start (restored host start)) {x = panic x}
          (eq_of_some (ground arith)) tt
    | inl (u, f) ↦ elim (Bool-cases (threshold == 0)) [
      | inl g ↦
          subst (Answer threshold start (restored host start)) {x = err zero_threshold}
            (eq_of_some (ground arith)) tt
      | inr g ↦
          predict_from-Answer fuel threshold 0 start (restored host start) (restored host start) r
            none_yet (ground arith)
    ]
  ]

  -- What `PredictNextSnapshot` returns is the longest segment within the threshold: the machine
  -- restored from the start goes to the state of the returned snapshot by steps that are each taken
  -- while nothing is spent yet or the next price keeps the sum within the threshold; the result is
  -- final exactly if the machine has halted there, and if it is not, the next step would pass the
  -- threshold.
  pub predict_next_snapshot-Longest :
      (fuel threshold : ℕ) (start : StandardSnapshot) (r : NextSnapshotResult)
      → predict_next_snapshot host fuel start threshold ≡ some (ok r)
      → Longest threshold start (restored host start) r
  predict_next_snapshot-Longest fuel threshold start r e =
      predict-Answer fuel threshold start (ok r) e

  -- Where `PredictNextSnapshot` returns a result, `VerifyNextSnapshotHash` accepts a committed
  -- snapshot that passes `VerifyIntegrity` exactly if it has the state root of that result.
  pub verify_next_snapshot_hash_iff :
      (fuel threshold : ℕ) (start committed : StandardSnapshot) (r : NextSnapshotResult)
      → predict_next_snapshot host fuel start threshold ≡ some (ok r)
      → verify_integrity host committed ≡ ok tt
      → (verify_next_snapshot_hash host fuel start committed threshold ≡ some (ok r))
        ↔ (r.snapshot.header.state_root ≡ committed.header.state_root)
  unfolding verify_next_snapshot_hash
  verify_next_snapshot_hash_iff fuel threshold start committed r e h = (
    λ k. ground (arith, bytes_eq→eq r.snapshot.header.state_root committed.header.state_root),
    λ k.
        let same : bytes_eq r.snapshot.header.state_root committed.header.state_root ≡ true =
          subst (λ t. bytes_eq r.snapshot.header.state_root t ≡ true) k
            (bytes_eq_self r.snapshot.header.state_root) in
        ground arith,
  )
