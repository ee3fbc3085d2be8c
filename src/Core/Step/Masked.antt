-- ===== src/Core/Step/Masked.antt =====
-- The instructions (purevm/core/instructions.go) read neither the trace nor the recorded error.
use offchain_com.Base.{
  subst, ℕ, ◌≡◌, refl, sym, List, Option, none, some, All, ◌⨾◌, Option-cases, inl, inr,
}
use offchain_com.Core.Opcode.{OpCode}
use offchain_com.Core.Word.{Word}
use offchain_com.Core.Action.{Error, Result, Result-cases, ok, err, panic, Host}
use offchain_com.Core.State.{VmState}
use offchain_com.Core.Snapshot.{verify_integrity}
use offchain_com.Core.Machine.{Vm, TraceStep, with_state, lookup, load_snapshot}
use offchain_com.Core.Instructions.{
  Instruction, StateAction, unary, binary, ternary, execute_push, execute_dup, execute_swap, op_gas,
  op_jump, op_jumpdest, op_jumpi, op_mload, op_msize, op_mstore, op_mstore8, op_pc, op_pop, op_save,
  op_stop, op_snapshot, restore_from, op_restore, pop1, instruction_set,
}
use offchain_com.Core.Operators.{
  add_word, addmod_word, and_word, byte_word, div_word, eq_word, exp_word, gt_word, iszero_word,
  lt_word, mod_word, mul_word, mulmod_word, not_word, or_word, sar_word, sdiv_word, sgt_word,
  shl_word, shr_word, signextend_word, slt_word, smod_word, sub_word, xor_word,
}
use offchain_com.Core.Step.{finish_step, undefined, execute}
use offchain_com.Core.Step.Dispatch.{execute-All}

-- The machine with another trace and another recorded error.
abbrev pub masked : List TraceStep → Option Error → Vm → Vm
masked trace error vm = record vm { steps = trace; error = error }

-- The same answer, and the same machine but for its trace and error.
pub record Like (x y : Result (Unit {0}) × Vm) : Type 0 where
  pub trace_after : List TraceStep
  pub error_after : Option Error
  pub same : y ≡ (x.0, masked trace_after error_after x.1)

abbrev pub unchanged :
    {r : Result (Unit {0})} {vm : Vm} (trace : List TraceStep) (error : Option Error)
    → Like (r, vm) (r, masked trace error vm)
unchanged trace error = record { trace_after = trace; error_after = error; same = refl }

pub Like-of : {x x' y y' : Result (Unit {0}) × Vm} → x ≡ x' → y ≡ y' → Like x' y' → Like x y
Like-of {x} {x'} {y} {y'} e f l = subst (λ t. Like t y) (sym e) (subst (Like x') (sym f) l)

-- An instruction does the same whatever the trace and the error are.
abbrev pub Blind : Instruction → Type 0
Blind m =
    (trace : List TraceStep) (error : Option Error) (vm : Vm)
    → Like (m vm) (m (masked trace error vm))

abbrev pub restore_rest : Host VmState → Result Word × Vm → Result (Unit {0}) × Vm
restore_rest host x = elim x.0 [
  | ok w ↦ restore_from host (host.bytes_to_hash w) x.1
  | err e ↦ (err e, x.1)
  | panic p ↦ (panic p, x.1)
]

abbrev pub charge_rest : OpCode → ℕ → ℕ → Result (Unit {0}) × Vm → Result (Unit {0}) × Vm
charge_rest op pre_pc cost x = elim x.0 [
  | ok _ ↦ (ok tt, finish_step op pre_pc cost x.1)
  | err e ↦ (err e, x.1)
  | panic p ↦ (panic p, x.1)
]

abbrev pub record_rest : Result (Unit {0}) × Vm → Result (Unit {0}) × Vm
record_rest x = elim x.0 [
  | ok _ ↦ (ok tt, x.1)
  | err e ↦ (err e, record (x.1) { error = some e })
  | panic p ↦ (panic p, x.1)
]

with_state-Blind : (m : StateAction) → Blind (with_state m)
with_state-Blind m trace error vm = record { trace_after = trace; error_after = error; same = refl }

op_stop-Blind : Blind op_stop
unfolding op_stop
op_stop-Blind trace error vm = record { trace_after = trace; error_after = error; same = refl }

undefined-Blind : (op : OpCode) → Blind (undefined op)
unfolding undefined
undefined-Blind op trace error vm = record { trace_after = trace; error_after = error; same = refl }

module _ (host : Host VmState) where
  op_snapshot-Blind : Blind (op_snapshot host)
  unfolding op_snapshot
  op_snapshot-Blind trace error vm = record {
    trace_after = trace;
    error_after = error;
    same = refl;
  }

  restore_from-Blind : (root : Word) → Blind (restore_from host root)
  unfolding restore_from load_snapshot
  restore_from-Blind root trace error vm = elim (Option-cases (lookup root vm.snapshots)) [
    | inl e ↦ record { trace_after = trace; error_after = error; same = rw (restore_from, e) refl }
    | inr (snap, e) ↦ elim (Result-cases (verify_integrity host snap)) [
      | inl (u, f) ↦ record {
        trace_after = trace;
        error_after = none;
        same = rw (restore_from, e, load_snapshot, f) refl;
      }
      | inr (inl (x, f)) ↦ record {
        trace_after = trace;
        error_after = error;
        same = rw (restore_from, e, load_snapshot, f) refl;
      }
      | inr (inr (x, f)) ↦ record {
        trace_after = trace;
        error_after = error;
        same = rw (restore_from, e, load_snapshot, f) refl;
      }
    ]
  ]

  -- `RESTORE` behind its pop, whose result is `r`.
  restored-Like :
      (r : Result Word) (trace : List TraceStep) (error : Option Error) (vm : Vm)
      → Like (restore_rest host (r, vm)) (restore_rest host (r, masked trace error vm))
  restored-Like (ok w) trace error vm = restore_from-Blind (host.bytes_to_hash w) trace error vm
  restored-Like (err x) trace error vm = unchanged trace error
  restored-Like (panic x) trace error vm = unchanged trace error

  op_restore-Blind : Blind (op_restore host)
  unfolding op_restore
  op_restore-Blind trace error vm =
      restored-Like (pop1 vm.state).0 trace error (record vm { state = (pop1 vm.state).1 })

  table-Blind : All (λ (e : OpCode × Instruction). Blind e.1) (instruction_set host)
  unfolding instruction_set
  table-Blind =
      op_stop-Blind
      ⨾ with_state-Blind (binary add_word)
      ⨾ with_state-Blind (binary mul_word)
      ⨾ with_state-Blind (binary sub_word)
      ⨾ with_state-Blind (binary div_word)
      ⨾ with_state-Blind (binary sdiv_word)
      ⨾ with_state-Blind (binary mod_word)
      ⨾ with_state-Blind (binary smod_word)
      ⨾ with_state-Blind (ternary addmod_word)
      ⨾ with_state-Blind (ternary mulmod_word)
      ⨾ with_state-Blind (binary exp_word)
      ⨾ with_state-Blind (binary signextend_word)
      ⨾ with_state-Blind (binary lt_word)
      ⨾ with_state-Blind (binary gt_word)
      ⨾ with_state-Blind (binary slt_word)
      ⨾ with_state-Blind (binary sgt_word)
      ⨾ with_state-Blind (binary eq_word)
      ⨾ with_state-Blind (unary iszero_word)
      ⨾ with_state-Blind (binary and_word)
      ⨾ with_state-Blind (binary or_word)
      ⨾ with_state-Blind (binary xor_word)
      ⨾ with_state-Blind (unary not_word)
      ⨾ with_state-Blind (binary byte_word)
      ⨾ with_state-Blind (binary shl_word)
      ⨾ with_state-Blind (binary shr_word)
      ⨾ with_state-Blind (binary sar_word)
      ⨾ with_state-Blind op_pop
      ⨾ with_state-Blind op_mload
      ⨾ with_state-Blind op_mstore
      ⨾ with_state-Blind op_mstore8
      ⨾ with_state-Blind op_msize
      ⨾ with_state-Blind op_jump
      ⨾ with_state-Blind op_jumpi
      ⨾ with_state-Blind op_pc
      ⨾ with_state-Blind op_gas
      ⨾ with_state-Blind op_jumpdest
      ⨾ with_state-Blind (op_save host)
      ⨾ op_snapshot-Blind
      ⨾ op_restore-Blind
      ⨾ tt

  pub execute-Blind : (op : OpCode) → Blind (execute host op)
  execute-Blind op =
      execute-All host (λ _ m. Blind m) op (λ _. with_state-Blind (execute_push op))
        (with_state-Blind (execute_dup op)) (with_state-Blind (execute_swap op))
        (undefined-Blind op) table-Blind
