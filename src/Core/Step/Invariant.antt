-- ===== src/Core/Step/Invariant.antt =====
-- The well-formed machines under the loops of purevm/core/vm.go.
use offchain_com.Base.{
  ℕ, zero, suc, ◌<◌, arith, All-map, length, Option-cases, inl, inr, get_elem?, lt_of_get_elem?,
}
use offchain_com.Core.Word.{Bytes, IsWord}
use offchain_com.Core.Opcode.{OpCode}
use offchain_com.Core.Action.{Result-cases, Host}
use offchain_com.Core.State.{VmState}
use offchain_com.Core.Machine.{Vm}
use offchain_com.Core.Instructions.{instruction_set, execute_dup, execute_swap}
use offchain_com.Core.Instructions.Valid.{execute_push-Keeps, execute_dup-Keeps, execute_swap-Keeps}
use offchain_com.Core.Gas.{calc_opcode_cost}
use offchain_com.Core.Step.Dispatch.{execute-All}
use offchain_com.Core.Step.{
  next_pc, finish_step, execute, undefined, charge, perform, step, run_steps,
}
use offchain_com.Core.Step.Keeps.{IsVm, KeepsVm, with_state-KeepsVm, instruction_set-KeepsVm}

module _ (host : Host VmState) (hash_word : (b : Bytes) → IsWord (host.keccak256 b)) where
  undefined-KeepsVm : (op : OpCode) → KeepsVm (undefined op)
  unfolding undefined
  undefined-KeepsVm op vm h = h

  execute-KeepsVm :
      (op : OpCode) (vm : Vm)
      → vm.state.pc < length vm.state.code
      → IsVm vm
      → IsVm (execute host op vm).1
  execute-KeepsVm op =
      execute-All host
        (λ _ m. (vm : Vm) → vm.state.pc < length vm.state.code → IsVm vm → IsVm (m vm).1) op
        (λ _ vm inside h. record {
          current = execute_push-Keeps op vm.state inside h.current;
          taken = h.taken;
        })
        (λ vm _. with_state-KeepsVm (execute_dup op) (execute_dup-Keeps op) vm)
        (λ vm _. with_state-KeepsVm (execute_swap op) (execute_swap-Keeps op) vm)
        (λ vm _ h. undefined-KeepsVm op vm h)
        (All-map _ _ (λ e k vm _. k vm) (instruction_set host)
          (instruction_set-KeepsVm host hash_word))

  finish_step-IsVm :
      (op : OpCode) (pre_pc cost : ℕ) (vm : Vm) → IsVm vm → IsVm (finish_step op pre_pc cost vm)
  unfolding finish_step next_pc
  finish_step-IsVm op pre_pc cost vm h = ground arith

  charge-KeepsVm :
      (op : OpCode) (cost : ℕ) (vm : Vm)
      → vm.state.pc < length vm.state.code
      → IsVm vm
      → IsVm (charge host op cost vm).1
  unfolding charge
  charge-KeepsVm op cost vm inside h = ground (
    arith,
    execute-KeepsVm op vm inside h,
    finish_step-IsVm op vm.state.pc cost (execute host op vm).1,
  )

  perform-KeepsVm :
      (op : OpCode) (vm : Vm)
      → vm.state.pc < length vm.state.code
      → IsVm vm
      → IsVm (perform host op vm).1
  unfolding perform
  perform-KeepsVm op vm inside h = elim (Result-cases (calc_opcode_cost host op vm.state)) [
    | inl (cost, e) ↦ rw (e, perform) (charge-KeepsVm op cost vm inside h)
    | inr (inl (x, e)) ↦ rw (e, perform) h
    | inr (inr (p, e)) ↦ rw (e, perform) h
  ]

  -- A step, whether it succeeds, fails or panics, keeps the stack within 1024 words of 32 bytes, the
  -- memory and the code bytes, and the counters in `uint64`; the same holds of all snapshots taken.
  pub step-KeepsVm : (vm : Vm) → IsVm vm → IsVm (step host vm).1
  unfolding step
  step-KeepsVm vm h = elim (Option-cases (get_elem? vm.state.code vm.state.pc)) [
    | inl e ↦ ground arith
    | inr (op, e) ↦
        ground (arith, perform-KeepsVm op vm (lt_of_get_elem? vm.state.code vm.state.pc op e) h)
  ]

  -- Any number of steps, as `RunSteps` makes them, keeps a machine well formed, errors and panics
  -- included. A Keccak-256 hash is a word.
  pub run_steps-KeepsVm : (n : ℕ) (vm : Vm) → IsVm vm → IsVm (run_steps host n vm).1
  unfolding run_steps
  run_steps-KeepsVm zero vm h = h
  run_steps-KeepsVm (suc n) vm h =
      let hs : IsVm (step host vm).1 = step-KeepsVm vm h in
      ground (arith, hs, run_steps-KeepsVm n (step host vm).1 hs)
