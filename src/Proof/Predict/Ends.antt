-- ===== src/Proof/Predict/Ends.antt =====
-- The loop of `PredictNextSnapshot` (purevm/proof/snapshot_verify.go).
use offchain_com.Base.{
  ℕ, zero, suc, ◌+◌, ◌%◌, ◌≤◌, ◌≡◌, ◌≢◌, inl, inr, refl, sym, subst, arith, true, false, Bool-cases,
  All, All-get_elem?, get_elem?, some, Option-cases,
}
use offchain_com.Core.Word.{Bytes, IsWord, u64_mod}
use offchain_com.Core.Opcode
use offchain_com.Core.Opcode.{OpCode}
use offchain_com.Core.Action.{Result, Result-cases, ok, err, panic, Host}
use offchain_com.Core.State.{VmState}
use offchain_com.Core.Snapshot.{StandardSnapshot}
use offchain_com.Core.Machine.{Vm}
use offchain_com.Core.Gas.Price.{PositiveGas}
use offchain_com.Core.Step.{step, peek_next_gas_cost}
use offchain_com.Core.Step.Account.{step-Effect}
use offchain_com.Core.Step.Invariant.{step-KeepsVm}
use offchain_com.Core.Step.Progress.{budget, Advances, step-Advances, outside_halts}
use offchain_com.Proof.Transition.Carried.{Plain}
use offchain_com.Proof.Predict.{NextSnapshotResult, result_at, is_full, predict_from}

module _ (host : Host VmState) (start : StandardSnapshot) (threshold : ℕ) where
  Answered : ℕ → ℕ → Vm → Type 0
  Answered fuel window vm =
      (r : Result NextSnapshotResult) × (predict_from host fuel start threshold window vm ≡ some r)

  halted-Answered : (fuel window : ℕ) (vm : Vm) → vm.halted ≡ true → Answered (suc fuel) window vm
  unfolding Answered predict_from
  halted-Answered fuel window vm h =
      (ok (result_at host start window true vm), rw (h, predict_from) refl)

  -- A running machine goes on, if at all, where its step leads.
  running-Answered :
      (fuel window : ℕ) (vm : Vm)
      → vm.halted ≡ false
      → ((w : ℕ) → (step host vm).0 ≡ ok tt → Answered fuel w (step host vm).1)
      → Answered (suc fuel) window vm
  unfolding Answered predict_from
  running-Answered fuel window vm h go = elim (Result-cases (peek_next_gas_cost host vm)) [
    | inr (inl (x, e)) ↦ (err x, rw (predict_from, h, e) refl)
    | inr (inr (x, e)) ↦ (panic x, rw (predict_from, h, e) refl)
    | inl (next, e) ↦ elim (Bool-cases (is_full host threshold window next)) [
      | inl full ↦ (ok (result_at host start window false vm), rw (predict_from, h, e, full) refl)
      | inr room ↦ elim (Result-cases (step host vm).0) [
        | inr (inl (x, k)) ↦ (err x, rw (predict_from, h, e, room, k) refl)
        | inr (inr (x, k)) ↦ (panic x, rw (predict_from, h, e, room, k) refl)
        | inl (u, k) ↦
            let r = go ((window + next) % u64_mod) k in (r.0, rw (predict_from, h, e, room, k) r.1)
      ]
    ]
  ]

  module _ (paid : PositiveGas host) (hash_word : (bs : Bytes) → IsWord (host.keccak256 bs)) where
    next-Answered :
        (fuel window : ℕ) (vm : Vm)
        → Plain vm
        → budget vm + 1 ≤ fuel
        → ((w : ℕ) (vm' : Vm) → Plain vm' → budget vm' + 2 ≤ fuel → Answered fuel w vm')
        → vm.halted ≡ false
        → (step host vm).0 ≡ ok tt
        → Answered fuel window (step host vm).1
    unfolding Advances
    next-Answered zero window vm h enough go running done = absurd (omega arith)
    next-Answered (suc fuel) window vm h enough go running done =
        elim (Option-cases (get_elem? vm.state.code vm.state.pc)) [
          | inl e ↦ halted-Answered fuel window (step host vm).1 (outside_halts host vm running e)
          | inr (op, e) ↦
              let ne =
                All-get_elem? (λ b. b ≢ Opcode.snapshot) vm.state.code vm.state.pc op h.takes_none
                  e in
              let eff =
                step-Effect host op vm running e h.valid.current.gas_fits h.no_snapshots ne done in
              elim (step-Advances host paid op vm h.valid running e h.no_snapshots ne done) [
                | inl over ↦ halted-Answered fuel window (step host vm).1 over
                | inr less ↦
                    go window (step host vm).1
                      (record {
                        valid = step-KeepsVm host hash_word vm h.valid;
                        no_snapshots = eff.no_snapshots;
                        takes_none =
                            subst (All (λ b. b ≢ Opcode.snapshot)) (sym eff.code_kept) h.takes_none;
                      })
                      (omega arith)
              ]
        ]

    -- The loop of `PredictNextSnapshot` comes to a result, an error or a panic on every well-formed
    -- machine that has taken no snapshot and whose code takes none, whatever the threshold. The fuel
    -- is that of `Run`. The prices of go-ethereum are positive, and a Keccak-256 hash is a word.
    pub predict_from_ends :
        (fuel window : ℕ) (vm : Vm)
        → Plain vm
        → budget vm + 2 ≤ fuel
        → (r : Result NextSnapshotResult) × (predict_from host fuel start threshold window vm
            ≡ some r)
    unfolding Answered
    predict_from_ends zero window vm h enough = absurd (omega arith)
    predict_from_ends (suc fuel) window vm h enough = elim (Bool-cases vm.halted) [
      | inl over ↦ halted-Answered fuel window vm over
      | inr running ↦
          running-Answered fuel window vm running (λ w done.
            next-Answered fuel w vm h (omega arith) (predict_from_ends fuel) running done)
    ]
