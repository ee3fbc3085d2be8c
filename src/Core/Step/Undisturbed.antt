-- ===== src/Core/Step/Undisturbed.antt =====
-- What a successful instruction of the machine (purevm/core/vm.go) leaves alone, as long as no snapshot
-- has been taken.
use offchain_com.Base.{◌≡◌, ◌≢◌, refl, arith, [], All, ◌⨾◌, List-cases, inl, inr}
use offchain_com.Core.Word.{Word}
use offchain_com.Core.Opcode
use offchain_com.Core.Opcode.{OpCode, is_push, is_dup, is_swap}
use offchain_com.Core.Action.{ok, Host}
use offchain_com.Core.State.{VmState, stack_pop}
use offchain_com.Core.Machine.{Vm, lookup, with_state}
use offchain_com.Core.Operators.{
  add_word, mul_word, sub_word, div_word, sdiv_word, mod_word, smod_word, addmod_word, mulmod_word,
  exp_word, signextend_word, lt_word, gt_word, slt_word, sgt_word, eq_word, iszero_word, and_word,
  or_word, xor_word, not_word, byte_word, shl_word, shr_word, sar_word,
}
use offchain_com.Core.Instructions.{
  Instruction, StateAction, pop1, unary, binary, ternary, op_stop, op_pop, op_mload, op_mstore,
  op_mstore8, op_msize, op_jump, op_jumpi, op_pc, op_gas, op_jumpdest, op_save, op_snapshot,
  restore_from, op_restore, instruction_set, execute_push, execute_dup, execute_swap,
}
use offchain_com.Core.Instructions.Frame.{
  Frame, Frames, unary-Frames, binary-Frames, ternary-Frames, op_pop-Frames, op_mload-Frames,
  op_mstore-Frames, op_mstore8-Frames, op_msize-Frames, op_jump-Frames, op_jumpi-Frames,
  op_pc-Frames, op_gas-Frames, op_jumpdest-Frames, op_save-Frames, execute_push-Frames,
  execute_dup-Frames, execute_swap-Frames,
}
use offchain_com.Core.Step.Dispatch.{execute-All}
use offchain_com.Core.Step.{execute, undefined}

-- Past a success: the frame of the state, no snapshot, and the machine halts only by `STOP`.
pub record Undisturbed (op : OpCode) (vm vm' : Vm) : Type 0 where
  pub frame : Frame vm.state vm'.state
  pub no_snapshots : vm'.snapshots ≡ []
  pub halted_kept : op ≢ Opcode.stop → vm'.halted ≡ vm.halted
  pub error_kept : vm'.error ≡ vm.error

abbrev pub Plain : OpCode → Instruction → Type 0
Plain op m =
    op ≢ Opcode.snapshot
    → (vm : Vm) → vm.snapshots ≡ []
    → (m vm).0 ≡ ok tt
    → Undisturbed op vm (m vm).1

with_state-Plain : (op : OpCode) (m : StateAction) → Frames m → Plain op (with_state m)
with_state-Plain op m f _ vm h e = record {
  frame = f vm.state;
  no_snapshots = h;
  halted_kept = λ _. refl;
  error_kept = refl;
}

op_stop-Plain : Plain Opcode.stop op_stop
unfolding op_stop
op_stop-Plain _ vm h e = record {
  frame = ground arith;
  no_snapshots = h;
  halted_kept = λ ne. absurd (ne refl);
  error_kept = refl;
}

module _ (host : Host VmState) where
  op_snapshot-Plain : Plain Opcode.snapshot (op_snapshot host)
  op_snapshot-Plain ne = absurd (ne refl)

  restore_from_fails :
      (root : Word) (vm : Vm) → vm.snapshots ≡ [] → (restore_from host root vm).0 ≢ ok tt
  unfolding restore_from lookup
  restore_from_fails root vm h e = ground arith

  -- Without a snapshot there is nothing to restore.
  pub op_restore_fails : (vm : Vm) → vm.snapshots ≡ [] → (op_restore host vm).0 ≢ ok tt
  unfolding op_restore pop1 stack_pop
  op_restore_fails vm h e = elim (List-cases vm.state.stack) [
    | inl e' ↦ ground arith
    | inr (w, ws, e') ↦
        restore_from_fails (host.bytes_to_hash w)
          (record vm { state = record (vm.state) { stack = ws } }) h (ground arith)
  ]

  op_restore-Plain : Plain Opcode.restore (op_restore host)
  op_restore-Plain _ vm h e = absurd (op_restore_fails vm h e)

  instruction_set-Plain : All (λ e. Plain e.0 e.1) (instruction_set host)
  unfolding instruction_set
  instruction_set-Plain =
      op_stop-Plain
      ⨾ with_state-Plain Opcode.add (binary add_word) (binary-Frames add_word)
      ⨾ with_state-Plain Opcode.mul (binary mul_word) (binary-Frames mul_word)
      ⨾ with_state-Plain Opcode.sub (binary sub_word) (binary-Frames sub_word)
      ⨾ with_state-Plain Opcode.div (binary div_word) (binary-Frames div_word)
      ⨾ with_state-Plain Opcode.sdiv (binary sdiv_word) (binary-Frames sdiv_word)
      ⨾ with_state-Plain Opcode.mod_op (binary mod_word) (binary-Frames mod_word)
      ⨾ with_state-Plain Opcode.smod (binary smod_word) (binary-Frames smod_word)
      ⨾ with_state-Plain Opcode.addmod (ternary addmod_word) (ternary-Frames addmod_word)
      ⨾ with_state-Plain Opcode.mulmod (ternary mulmod_word) (ternary-Frames mulmod_word)
      ⨾ with_state-Plain Opcode.exp (binary exp_word) (binary-Frames exp_word)
      ⨾ with_state-Plain Opcode.signextend (binary signextend_word) (binary-Frames signextend_word)
      ⨾ with_state-Plain Opcode.lt (binary lt_word) (binary-Frames lt_word)
      ⨾ with_state-Plain Opcode.gt (binary gt_word) (binary-Frames gt_word)
      ⨾ with_state-Plain Opcode.slt (binary slt_word) (binary-Frames slt_word)
      ⨾ with_state-Plain Opcode.sgt (binary sgt_word) (binary-Frames sgt_word)
      ⨾ with_state-Plain Opcode.eq (binary eq_word) (binary-Frames eq_word)
      ⨾ with_state-Plain Opcode.iszero (unary iszero_word) (unary-Frames iszero_word)
      ⨾ with_state-Plain Opcode.and (binary and_word) (binary-Frames and_word)
      ⨾ with_state-Plain Opcode.or (binary or_word) (binary-Frames or_word)
      ⨾ with_state-Plain Opcode.xor (binary xor_word) (binary-Frames xor_word)
      ⨾ with_state-Plain Opcode.not (unary not_word) (unary-Frames not_word)
      ⨾ with_state-Plain Opcode.byte (binary byte_word) (binary-Frames byte_word)
      ⨾ with_state-Plain Opcode.shl (binary shl_word) (binary-Frames shl_word)
      ⨾ with_state-Plain Opcode.shr (binary shr_word) (binary-Frames shr_word)
      ⨾ with_state-Plain Opcode.sar (binary sar_word) (binary-Frames sar_word)
      ⨾ with_state-Plain Opcode.pop op_pop op_pop-Frames
      ⨾ with_state-Plain Opcode.mload op_mload op_mload-Frames
      ⨾ with_state-Plain Opcode.mstore op_mstore op_mstore-Frames
      ⨾ with_state-Plain Opcode.mstore8 op_mstore8 op_mstore8-Frames
      ⨾ with_state-Plain Opcode.msize op_msize op_msize-Frames
      ⨾ with_state-Plain Opcode.jump op_jump op_jump-Frames
      ⨾ with_state-Plain Opcode.jumpi op_jumpi op_jumpi-Frames
      ⨾ with_state-Plain Opcode.pc op_pc op_pc-Frames
      ⨾ with_state-Plain Opcode.gas op_gas op_gas-Frames
      ⨾ with_state-Plain Opcode.jumpdest op_jumpdest op_jumpdest-Frames
      ⨾ with_state-Plain Opcode.save (op_save host) (op_save-Frames host)
      ⨾ op_snapshot-Plain
      ⨾ op_restore-Plain
      ⨾ tt {0}

  undefined-Plain : (op : OpCode) → Plain op (undefined op)
  unfolding undefined
  undefined-Plain op _ vm h e = ground arith

  pub execute-Plain : (op : OpCode) → Plain op (execute host op)
  execute-Plain op =
      execute-All host Plain op
        (λ _. with_state-Plain op (execute_push op) (execute_push-Frames op))
        (with_state-Plain op (execute_dup op) (execute_dup-Frames op))
        (with_state-Plain op (execute_swap op) (execute_swap-Frames op)) (undefined-Plain op)
        instruction_set-Plain
