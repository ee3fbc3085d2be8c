-- ===== src/Core/Step/Termination.antt =====
-- The loop of `Run` (purevm/core/vm.go).
use offchain_com.Base.{
  ℕ, zero, suc, ◌+◌, ◌≤◌, ◌≡◌, ◌≢◌, inl, inr, refl, sym, subst, true, false, arith, [], All,
  All-get_elem?, get_elem?, some, Bool-cases, Option-cases,
}
use offchain_com.Core.Word.{Bytes, IsWord}
use offchain_com.Core.Opcode
use offchain_com.Core.Opcode.{OpCode, is_push, is_dup, is_swap}
use offchain_com.Core.Action.{Result, Result-cases, ok, err, panic, Host}
use offchain_com.Core.State.{VmState}
use offchain_com.Core.Machine.{Vm}
use offchain_com.Core.Gas.Price.{PositiveGas}
use offchain_com.Core.Step.{step, is_active, final_result, run}
use offchain_com.Core.Step.Account.{Effect, step-Effect}
use offchain_com.Core.Step.Keeps.{IsVm}
use offchain_com.Core.Step.Invariant.{step-KeepsVm}
use offchain_com.Core.Step.Progress.{budget, Advances, step-Advances, outside_halts}

module _ (host : Host VmState) where
  -- The run that has ended, with its answer.
  Ended : ℕ → Vm → Type 0
  Ended fuel vm = (r : Result (Unit {0}) × Vm) × (run host fuel vm ≡ some r)

  module _ (fuel : ℕ) (vm : Vm) where
    inactive-Ended : is_active vm ≡ false → Ended (suc fuel) vm
    unfolding Ended run
    inactive-Ended e = ((final_result vm.error, vm), rw (e, run) refl)

    halted-Ended : vm.halted ≡ true → Ended (suc fuel) vm
    halted-Ended e = inactive-Ended (rw e)

    -- A run goes on where its first step has left the machine.
    active-Ended :
        is_active vm ≡ true
        → ((step host vm).0 ≡ ok tt → Ended fuel (step host vm).1)
        → Ended (suc fuel) vm
    unfolding Ended run
    active-Ended active rest = elim (Result-cases (step host vm).0) [
      | inl (a, e) ↦ let r = rest e in (r.0, rw (active, e, run) r.1)
      | inr (inl (x, e)) ↦ ((err x, (step host vm).1), rw (active, e, run) refl)
      | inr (inr (p, e)) ↦ ((panic p, (step host vm).1), rw (active, e, run) refl)
    ]

  NoSnapshot : Vm → Type 0
  NoSnapshot vm = (vm.snapshots ≡ []) × All (λ b. b ≢ Opcode.snapshot) vm.state.code

  step-NoSnapshot :
      (op : OpCode) (vm : Vm)
      → Effect host op vm (step host vm).1
      → NoSnapshot vm
      → NoSnapshot (step host vm).1
  unfolding NoSnapshot
  step-NoSnapshot op vm e h =
      (e.no_snapshots, subst (All (λ b. b ≢ Opcode.snapshot)) (sym e.code_kept) h.1)

  module _ (paid : PositiveGas host) (hash_word : (bs : Bytes) → IsWord (host.keccak256 bs)) where
    next-Ended :
        (fuel : ℕ) (vm : Vm)
        → IsVm vm
        → NoSnapshot vm
        → budget vm + 1 ≤ fuel
        → ((vm' : Vm) → IsVm vm' → NoSnapshot vm' → budget vm' + 2 ≤ fuel → Ended fuel vm')
        → vm.halted ≡ false
        → (step host vm).0 ≡ ok tt
        → Ended fuel (step host vm).1
    unfolding NoSnapshot Advances
    next-Ended zero vm h plain enough go running done = absurd (omega arith)
    next-Ended (suc fuel) vm h plain enough go running done =
        elim (Option-cases (get_elem? vm.state.code vm.state.pc)) [
          | inl e ↦ halted-Ended fuel (step host vm).1 (outside_halts host vm running e)
          | inr (op, e) ↦
              let ne =
                All-get_elem? (λ b. b ≢ Opcode.snapshot) vm.state.code vm.state.pc op plain.1 e in
              let eff = step-Effect host op vm running e h.current.gas_fits plain.0 ne done in
              elim (step-Advances host paid op vm h running e plain.0 ne done) [
                | inl over ↦ halted-Ended fuel (step host vm).1 over
                | inr less ↦
                    go (step host vm).1 (step-KeepsVm host hash_word vm h)
                      (step-NoSnapshot op vm eff plain) (omega arith)
              ]
        ]

    run-Ended :
        (fuel : ℕ) (vm : Vm) → IsVm vm → NoSnapshot vm → budget vm + 2 ≤ fuel → Ended fuel vm
    run-Ended zero vm h plain enough = absurd (omega arith)
    run-Ended (suc fuel) vm h plain enough = elim (Bool-cases (is_active vm)) [
      | inr e ↦ inactive-Ended fuel vm e
      | inl e ↦
          active-Ended fuel vm e
            (next-Ended fuel vm h plain (omega arith) (run-Ended fuel) (ground arith))
    ]

    -- `Run` ends on every well-formed machine whose code has no `SNAPSHOT` and that has taken none,
    -- whatever the code does otherwise: a loop runs out of gas or of address space. The fuel is the
    -- gas that is left and the bytes by which the memory can grow, and two steps more. The prices of
    -- go-ethereum are positive, and a Keccak-256 hash is a word.
    pub run_terminates :
        (fuel : ℕ) (vm : Vm)
        → IsVm vm
        → vm.snapshots ≡ []
        → All (λ b. b ≢ Opcode.snapshot) vm.state.code
        → budget vm + 2 ≤ fuel
        → (r : Result (Unit {0}) × Vm) × (run host fuel vm ≡ some r)
    unfolding Ended NoSnapshot
    run_terminates fuel vm h empty plain enough = run-Ended fuel vm h (empty, plain) enough
