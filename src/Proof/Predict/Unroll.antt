-- ===== src/Proof/Predict/Unroll.antt =====
-- Rounds of the loop of `PredictNextSnapshot` (purevm/proof/snapshot_verify.go).
use offchain_com.Base.{
  ℕ, zero, suc, ◌+◌, ◌%◌, ◌≤◌, ◌≡◌, refl, sym, ap, ◌∙◌, subst, arith, true, false, List, Option,
  some, Bool-cases, inl, inr, ◌==◌,
}
use offchain_com.Core.Word.{u64_mod}
use offchain_com.Core.Action.{Error, Result, Result-cases, ok, err, panic, Host}
use offchain_com.Core.State.{VmState}
use offchain_com.Core.Snapshot.{StandardSnapshot}
use offchain_com.Core.Machine.{Vm, TraceStep}
use offchain_com.Core.Step.{step, peek_next_gas_cost}
use offchain_com.Core.Step.Masked.{masked}
use offchain_com.Core.Step.Blind.{step-Blind, peek_next_gas_cost-masked}
use offchain_com.Proof.Predict.{NextSnapshotResult, result_at, is_full, predict_from}

module _ (host : Host VmState) (start : StandardSnapshot) (threshold : ℕ) where
  -- The loop behind a step.
  abbrev pub behind_step : ℕ → ℕ → Result (Unit {0}) × Vm → Option (Result NextSnapshotResult)
  behind_step fuel window x = elim x.0 [
    | ok _ ↦ predict_from host fuel start threshold window x.1
    | err e ↦ some (err e)
    | panic f ↦ some (panic f)
  ]

  module _ (fuel window : ℕ) (vm : Vm) where
    pub at_halt :
        vm.halted ≡ true
        → predict_from host (suc fuel) start threshold window vm
          ≡ some (ok (result_at host start window true vm))
    unfolding predict_from
    at_halt h = ground arith

    module _ (h : vm.halted ≡ false) where
      at_peek_error :
          (e : Error)
          → peek_next_gas_cost host vm ≡ err e
          → predict_from host (suc fuel) start threshold window vm ≡ some (err e)
      unfolding predict_from
      at_peek_error e p = ground arith

      at_peek_panic :
          {f : _}
          → peek_next_gas_cost host vm ≡ panic f
          → predict_from host (suc fuel) start threshold window vm ≡ some (panic f)
      unfolding predict_from
      at_peek_panic p = ground arith

      module _ (next : ℕ) (p : peek_next_gas_cost host vm ≡ ok next) where
        pub at_full :
            is_full host threshold window next ≡ true
            → predict_from host (suc fuel) start threshold window vm
              ≡ some (ok (result_at host start window false vm))
        unfolding predict_from
        at_full full = ground arith

        pub at_step :
            is_full host threshold window next ≡ false
            → predict_from host (suc fuel) start threshold window vm
              ≡ behind_step fuel ((window + next) % u64_mod) (step host vm)
        unfolding predict_from
        at_step room = simp (predict_from, h, p, room) refl

  -- The loop behind a step on a machine with another trace and error.
  behind_masked :
      (fuel window : ℕ) (trace : List TraceStep) (error : Option Error) (vm : Vm)
      → ((t : List TraceStep) (e : Option Error) (v : Vm)
          → predict_from host fuel start threshold window (masked t e v)
            ≡ predict_from host fuel start threshold window v)
      → behind_step fuel window (step host (masked trace error vm))
        ≡ behind_step fuel window (step host vm)
  behind_masked fuel window trace error vm ih =
      let r = step-Blind host trace error vm in
      ap (behind_step fuel window) r.same ∙ elim (Result-cases (step host vm).0) [
        | inl (u, e) ↦ rw e (ih r.trace_after r.error_after (step host vm).1)
        | inr (inl (x, e)) ↦ rw e refl
        | inr (inr (x, e)) ↦ rw e refl
      ]

  -- The loop sees neither the trace nor the recorded error.
  pub predict_from-masked :
      (fuel window : ℕ) (trace : List TraceStep) (error : Option Error) (vm : Vm)
      → predict_from host fuel start threshold window (masked trace error vm)
        ≡ predict_from host fuel start threshold window vm
  unfolding predict_from
  predict_from-masked zero window trace error vm = refl
  predict_from-masked (suc fuel) window trace error vm =
      let vm' = masked trace error vm in
      let same = peek_next_gas_cost-masked host trace error vm in
      elim (Bool-cases vm.halted) [
        | inl h ↦ at_halt fuel window vm' h ∙ sym (at_halt fuel window vm h)
        | inr h ↦ elim (Result-cases (peek_next_gas_cost host vm)) [
          | inr (inl (x, p)) ↦
              at_peek_error fuel window vm' h x (same ∙ p)
              ∙ sym (at_peek_error fuel window vm h x p)
          | inr (inr (x, p)) ↦
              at_peek_panic fuel window vm' h (same ∙ p) ∙ sym (at_peek_panic fuel window vm h p)
          | inl (next, p) ↦ elim (Bool-cases (is_full host threshold window next)) [
            | inl full ↦
                at_full fuel window vm' h next (same ∙ p) full
                ∙ sym (at_full fuel window vm h next p full)
            | inr room ↦
                at_step fuel window vm' h next (same ∙ p) room
                ∙ (behind_masked fuel ((window + next) % u64_mod) trace error vm
                      (predict_from-masked fuel ((window + next) % u64_mod))
                    ∙ sym (at_step fuel window vm h next p room))
          ]
        ]
      ]

  -- More fuel gives the same answer.
  pub predict_from-more :
      (fuel window : ℕ) (vm : Vm) (r : Result NextSnapshotResult)
      → predict_from host fuel start threshold window vm ≡ some r
      → predict_from host (suc fuel) start threshold window vm ≡ some r
  unfolding predict_from
  predict_from-more zero window vm r e = cc
  predict_from-more (suc fuel) window vm r e = elim (Bool-cases vm.halted) [
    | inl h ↦ at_halt (suc fuel) window vm h ∙ (sym (at_halt fuel window vm h) ∙ e)
    | inr h ↦ elim (Result-cases (peek_next_gas_cost host vm)) [
      | inr (inl (x, p)) ↦
          at_peek_error (suc fuel) window vm h x p ∙ (sym (at_peek_error fuel window vm h x p) ∙ e)
      | inr (inr (x, p)) ↦
          at_peek_panic (suc fuel) window vm h p ∙ (sym (at_peek_panic fuel window vm h p) ∙ e)
      | inl (next, p) ↦ elim (Bool-cases (is_full host threshold window next)) [
        | inl full ↦
            at_full (suc fuel) window vm h next p full
            ∙ (sym (at_full fuel window vm h next p full) ∙ e)
        | inr room ↦
            let w = (window + next) % u64_mod in
            let e' : behind_step fuel w (step host vm) ≡ some r =
              sym (at_step fuel window vm h next p room) ∙ e in
            at_step (suc fuel) window vm h next p room ∙ elim (Result-cases (step host vm).0) [
              | inl (u, s) ↦ rw s (predict_from-more fuel w (step host vm).1 r (rw s at e'))
              | inr (inl (x, s)) ↦ rw s (rw s at e')
              | inr (inr (x, s)) ↦ rw s (rw s at e')
            ]
      ]
    ]
  ]

  pub predict_from-le :
      (fuel more window : ℕ) (vm : Vm) (r : Result NextSnapshotResult)
      → predict_from host fuel start threshold window vm ≡ some r
      → fuel ≤ more
      → predict_from host more start threshold window vm ≡ some r
  predict_from-le fuel zero window vm r e le =
      subst (λ (f : ℕ). predict_from host f start threshold window vm ≡ some r) {x = fuel}
        (omega arith) e
  predict_from-le fuel (suc more) window vm r e le = elim (Bool-cases (fuel == suc more)) [
    | inl same ↦
        subst (λ (f : ℕ). predict_from host f start threshold window vm ≡ some r) {x = fuel}
          (ground arith) e
    | inr less ↦
        predict_from-more more window vm r (predict_from-le fuel more window vm r e (ground arith))
  ]
