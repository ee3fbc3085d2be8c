-- ===== src/Core/Step/Blind.antt =====
-- `Step` (purevm/core/vm.go) reads neither the trace nor the recorded error.
use offchain_com.Base.{
  subst, ℕ, ◌≡◌, refl, sym, ap, ◌∙◌, true, false, List, Option, none, some, get_elem?, Bool-cases,
  Option-cases, inl, inr, ltb, arith,
}
use offchain_com.Core.Opcode.{OpCode}
use offchain_com.Core.Action.{Error, Result, Result-cases, ok, err, panic, Host}
use offchain_com.Core.State.{VmState}
use offchain_com.Core.Machine.{Vm, TraceStep}
use offchain_com.Core.Gas.{calc_opcode_cost}
use offchain_com.Core.Step.{finish_step, execute, charge, perform, step, peek_next_gas_cost}
use offchain_com.Core.Step.Account.{step_at}
use offchain_com.Core.Step.Masked.{
  masked, Like, Blind, unchanged, Like-of, charge_rest, record_rest, execute-Blind,
}

module _ (host : Host VmState) where
  charged-Like :
      (op : OpCode) (pre_pc cost : ℕ) (r : Result (Unit {0})) (trace : List TraceStep)
      (error : Option Error) (vm : Vm)
      → Like
          (charge_rest op pre_pc cost (r, vm))
          (charge_rest op pre_pc cost (r, masked trace error vm))
  unfolding finish_step
  charged-Like op pre_pc cost (ok u) trace error vm = record {
    trace_after = _;
    error_after = error;
    same = refl;
  }
  charged-Like op pre_pc cost (err x) trace error vm = unchanged trace error
  charged-Like op pre_pc cost (panic x) trace error vm = unchanged trace error

  charge-Blind : (op : OpCode) (cost : ℕ) → Blind (charge host op cost)
  unfolding charge
  charge-Blind op cost trace error vm =
      let r = execute-Blind host op trace error vm in
      let rest = charge_rest op vm.state.pc cost in
      elim (Bool-cases (ltb vm.state.gas cost)) [
        | inl short ↦ rw (charge, short) (unchanged trace error)
        | inr enough ↦
            rw (charge, enough)
              (subst (Like (rest (execute host op vm))) (sym (ap rest r.same)) (
                charged-Like op vm.state.pc cost (execute host op vm).0 r.trace_after r.error_after
                  (execute host op vm).1))
      ]

  perform-Blind : (op : OpCode) → Blind (perform host op)
  unfolding perform
  perform-Blind op trace error vm = elim (Result-cases (calc_opcode_cost host op vm.state)) [
    | inl (cost, e) ↦ rw (perform, e) (charge-Blind op cost trace error vm)
    | inr (inl (x, e)) ↦ rw (perform, e) (unchanged trace error)
    | inr (inr (x, e)) ↦ rw (perform, e) (unchanged trace error)
  ]

  recorded-Like :
      (r : Result (Unit {0})) (trace : List TraceStep) (error : Option Error) (vm : Vm)
      → Like (record_rest (r, vm)) (record_rest (r, masked trace error vm))
  recorded-Like (ok u) trace error vm = unchanged trace error
  recorded-Like (err x) trace error vm = unchanged trace (some x)
  recorded-Like (panic x) trace error vm = unchanged trace error

  halted_stays : (vm : Vm) → vm.halted ≡ true → step host vm ≡ (ok tt, vm)
  unfolding step
  halted_stays vm h = ground arith

  pub outside_stops :
      (vm : Vm)
      → vm.halted ≡ false
      → get_elem? vm.state.code vm.state.pc ≡ none
      → step host vm ≡ (ok tt, record vm { halted = true })
  unfolding step
  outside_stops vm h e = ground arith

  -- A step takes the same way whatever the trace and the recorded error are.
  pub step-Blind : Blind (step host)
  step-Blind trace error vm =
      let vm' = masked trace error vm in
      elim (Bool-cases vm.halted) [
        | inl h ↦ Like-of (halted_stays vm h) (halted_stays vm' h) (unchanged trace error)
        | inr h ↦ elim (Option-cases (get_elem? vm.state.code vm.state.pc)) [
          | inl e ↦ Like-of (outside_stops vm h e) (outside_stops vm' h e) (unchanged trace error)
          | inr (op, e) ↦
              let r = perform-Blind op trace error vm in
              Like-of (step_at host op vm h e) (step_at host op vm' h e ∙ ap record_rest r.same) (
                recorded-Like (perform host op vm).0 r.trace_after r.error_after
                  (perform host op vm).1)
        ]
      ]

  -- A peek at the next price does not see them at all.
  pub peek_next_gas_cost-masked :
      (trace : List TraceStep) (error : Option Error) (vm : Vm)
      → peek_next_gas_cost host (masked trace error vm) ≡ peek_next_gas_cost host vm
  unfolding peek_next_gas_cost
  peek_next_gas_cost-masked trace error vm = refl
