-- ===== src/Core/Step.antt =====
-- The execution loop (purevm/core/vm.go).
pub mod Dispatch
pub mod Keeps
pub mod Invariant
pub mod Undisturbed
pub mod Memory
pub mod Account
pub mod Progress
pub mod Termination
pub mod Masked
pub mod Blind
pub mod Chains
use offchain_com.Base.{
  ℕ, zero, suc, ◌+◌, ◌-◌, ◌*◌, ◌%◌, ◌^◌, ◌≡◌, Bool, true, false, not, ◌&&◌, ◌||◌, List, [], ◌∷◌,
  Option, none, some, leb, ltb, ◌==◌, if◌then◌else◌, length, get_elem?, bytes_eq,
}
use offchain_com.Core.Opcode.Name.{op_name}
use offchain_com.Core.Word.{Bytes, Word, u64_mod}
use offchain_com.Core.Opcode
use offchain_com.Core.Opcode.{OpCode, is_push, is_dup, is_swap}
use offchain_com.Core.Action.{
  Error, out_of_gas, undefined_opcode, transition_hash_mismatch, Result, ok, err, panic, Action,
  fail, Host, ◌>>=◌, ◌>>◌,
}
use offchain_com.Core.State.{VmState, hash, get_stack_depth}
use offchain_com.Core.Machine.{Vm, TraceStep, with_state}
use offchain_com.Core.Gas.{one_of, calc_opcode_cost}
use offchain_com.Core.Instructions.{
  Instruction, execute_push, execute_dup, execute_swap, instruction_set, find_instruction,
}

-- The program counter behind an instruction that began at `pre_pc` and left it at `pc`.
unfoldable pub next_pc : OpCode → ℕ → ℕ → ℕ
next_pc op pre_pc pc =
    if one_of (Opcode.stop ∷ Opcode.restore ∷ Opcode.jump ∷ []) op
    then pc
    else if op == Opcode.jumpi
    then if pc == pre_pc then (pc + 1) % u64_mod else pc
    else (pc + 1) % u64_mod

-- What `Step` does once the instruction has succeeded: the program counter, the price, the count of
-- steps, the end of the code, and the trace.
unfoldable pub finish_step : OpCode → ℕ → ℕ → Vm → Vm
finish_step op pre_pc cost vm =
    let s = vm.state in
    let pc' = next_pc op pre_pc s.pc in
    let gas' = (s.gas + u64_mod - cost) % u64_mod in
    record vm {
      state = record s { pc = pc'; gas = gas'; step_count = (s.step_count + 1) % u64_mod };
      halted = vm.halted || leb (length s.code) pc';
      steps =
          record {
            pc = pre_pc;
            op = op_name op;
            gas_cost = cost;
            gas_left = gas';
            stack_size = get_stack_depth s;
            op_code = op;
          }
          ∷ vm.steps;
    }

-- An error is kept in `vm.Err`.
abbrev pub record_error : Instruction → Instruction
record_error m vm =
    let (r, vm') = m vm in
    elim r [
      | ok _ ↦ (ok tt, vm')
      | err e ↦ (err e, record vm' { error = some e })
      | panic p ↦ (panic p, vm')
    ]

abbrev no_error : Option Error → Bool
no_error none = true
no_error (some e) = false

-- The test of the loops of `Run` and `RunSteps`.
abbrev pub is_active : Vm → Bool
is_active vm = not vm.halted && no_error vm.error

-- What `Run` returns at its end: `vm.Err`.
abbrev pub final_result : Option Error → Result (Unit {0})
final_result none = ok tt
final_result (some e) = err e

-- An operation that the table does not have.
unfoldable pub undefined : OpCode → Instruction
undefined op vm = fail (undefined_opcode op vm.state.pc) vm

module _ (host : Host VmState) where
  -- The dispatch of `Step`.
  unfoldable pub execute : OpCode → Instruction
  execute op =
      if is_push op
      then with_state (execute_push op)
      else if is_dup op
      then with_state (execute_dup op)
      else if is_swap op
      then with_state (execute_swap op)
      else elim (find_instruction op (instruction_set host)) [
        | none ↦ undefined op
        | some run ↦ run
      ]

  -- The price check of `Step` and what follows it, for the operation at the program counter.
  unfoldable pub charge : OpCode → ℕ → Instruction
  charge op cost vm =
      if ltb vm.state.gas cost
      then fail (out_of_gas vm.state.gas cost) vm
      else (let (r, vm') = execute op vm in
          elim r [
            | ok _ ↦ (ok tt, finish_step op vm.state.pc cost vm')
            | err e ↦ (err e, vm')
            | panic p ↦ (panic p, vm')
          ])

  unfoldable pub perform : OpCode → Instruction
  perform op vm = elim (calc_opcode_cost host op vm.state) [
    | ok cost ↦ charge op cost vm
    | err e ↦ (err e, vm)
    | panic p ↦ (panic p, vm)
  ]

  -- `VM.Step`
  unfoldable pub step : Instruction
  step vm = if vm.halted then (ok tt, vm) else elim (get_elem? vm.state.code vm.state.pc) [
    | none ↦ (ok tt, record vm { halted = true })
    | some op ↦ record_error (perform op) vm
  ]

  -- `VM.PeekNextGasCost`
  unfoldable pub peek_next_gas_cost : Vm → Result ℕ
  peek_next_gas_cost vm = if vm.halted then ok 0 else elim (get_elem? vm.state.code vm.state.pc) [
    | none ↦ ok 0
    | some op ↦ calc_opcode_cost host op vm.state
  ]

  -- `VM.Run`, on fuel; `none` says that the fuel ran out.
  unfoldable pub run : ℕ → Vm → Option (Result (Unit {0}) × Vm)
  run zero vm = none
  run (suc fuel) vm = elim (is_active vm) [
    | false ↦ some (final_result vm.error, vm)
    | true ↦
        let (r, vm') = step vm in
        elim r [ ok _ ↦ run fuel vm' | err e ↦ some (err e, vm') | panic p ↦ some (panic p, vm') ]
  ]

  -- `VM.RunSteps`
  unfoldable pub run_steps : ℕ → Instruction
  run_steps zero vm = (ok tt, vm)
  run_steps (suc n) vm = elim (is_active vm) [
    | false ↦ (ok tt, vm)
    | true ↦
        let (r, vm') = step vm in
        elim r [ ok _ ↦ run_steps n vm' | err e ↦ (err e, vm') | panic p ↦ (panic p, vm') ]
  ]

  -- `VM.ValidateTransition`
  unfoldable pub validate_transition : ℕ → Word → Instruction
  validate_transition n expected vm =
      let (r, vm') = run_steps n vm in
      elim r [
        | ok _ ↦
            let final = hash host vm'.state in
            if bytes_eq final expected
            then (ok tt, vm')
            else (err (transition_hash_mismatch final expected), vm')
        | err e ↦ (err e, vm')
        | panic p ↦ (panic p, vm')
      ]
