-- ===== src/Core/Instructions.antt =====
-- The instructions (purevm/core/instructions.go), as methods on the machine.
pub mod Frame
pub mod Valid
pub mod Growth
pub mod Memory
pub mod Jumps
pub mod Wraps
use offchain_com.Base.{
  ℕ, zero, suc, ◌+◌, ◌*◌, ◌/◌, ◌%◌, ◌-◌, ◌^◌, ◌≡◌, Bool, true, false, List, [], ◌∷◌, ◌++◌, Option,
  none, some, leb, ltb, ◌==◌, if◌then◌else◌, length, get_elem?, get_or, set, take, drop, replicate,
}
use offchain_com.Core.Word.{
  Bytes, Word, u64_mod, zero_word, is_zero, uint64, word_from_uint64, word_from_bytes,
}
use offchain_com.Core.Opcode
use offchain_com.Core.Opcode.{OpCode, push_size}
use offchain_com.Core.Action.{
  Error, Fault, jump_out_of_bounds, jump_invalid, jumpi_out_of_bounds, jumpi_invalid,
  snapshot_not_found, push_overflow, dup_underflow, swap_underflow, Result, ok, err, Action, pure,
  fail, fault, gets, modify, Host, ◌>>=◌, ◌>>◌,
}
use offchain_com.Core.State.{
  VmState, clone, hash, expand_memory, stack_push, stack_pop, get_stack_depth,
}
use offchain_com.Core.Snapshot.{StandardSnapshot, new_standard_snapshot}
use offchain_com.Core.Machine.{Vm, with_state, lookup, insert, load_snapshot}
use offchain_com.Core.Operators.{
  add_word, mul_word, sub_word, div_word, sdiv_word, mod_word, smod_word, addmod_word, mulmod_word,
  exp_word, signextend_word, lt_word, gt_word, slt_word, sgt_word, eq_word, iszero_word, and_word,
  or_word, xor_word, not_word, byte_word, shl_word, shr_word, sar_word,
}

-- `Instruction`
abbrev pub Instruction : Type 0
Instruction = Action Vm (Unit {0})

abbrev pub StateAction : Type 0
StateAction = Action VmState (Unit {0})

unfoldable pub pop1 : Action VmState Word
pop1 = stack_pop

unfoldable pub pop2 : Action VmState (Word × Word)
pop2 = do a ← stack_pop; b ← stack_pop; pure (a, b)

unfoldable pub pop3 : Action VmState (Word × Word × Word)
pop3 = do (a, b) ← pop2; c ← stack_pop; pure (a, b, c)

-- The instructions that pop their arguments and push one word made of them.
unfoldable pub unary : (Word → Word) → StateAction
unary f = do a ← pop1; stack_push (f a)

unfoldable pub binary : (Word → Word → Word) → StateAction
binary f = do (a, b) ← pop2; stack_push (f a b)

unfoldable pub ternary : (Word → Word → Word → Word) → StateAction
ternary f = do (a, b, c) ← pop3; stack_push (f a b c)

unfoldable pub op_stop : Instruction
op_stop vm =
    (ok tt, record vm { state = record (vm.state) { pc = length vm.state.code }; halted = true })

unfoldable pub op_pop : StateAction
op_pop = do _ ← stack_pop; pure tt

-- `s[lo:hi]` of Go, on a slice whose capacity is its length; `none` is a run-time panic.
unfoldable pub slice : ℕ → ℕ → Bytes → Option Bytes
slice lo hi s =
    if leb lo hi
    then if leb hi (length s) then some (take (hi - lo) (drop lo s)) else none
    else none

-- `copy(mem[offset:], value)`: as many bytes as there is room for.
unfoldable pub copy_at : ℕ → Bytes → Bytes → Bytes
copy_at offset value mem =
    take offset mem ++ (take (length mem - offset) value ++ drop (offset + length value) mem)

-- `copy(value[:], state.Memory[offset:bound])`, and the push.
unfoldable pub push_slice : ℕ → ℕ → StateAction
push_slice offset bound s = elim (slice offset bound s.memory) [
  | none ↦ fault Fault.slice_out_of_range s
  | some value ↦ stack_push value s
]

-- `opMload` behind its pop: the bound of the slice wraps in `uint64`.
unfoldable pub load_at : ℕ → StateAction
load_at offset = do
  let bound = (offset + 32) % u64_mod
  expand_memory bound
  push_slice offset bound

unfoldable pub op_mload : StateAction
op_mload = do addr ← pop1; load_at (uint64 addr)

-- `copy(state.Memory[offset:], value[:])`
unfoldable pub write_word : ℕ → Word → StateAction
write_word offset value s =
    if leb offset (length s.memory)
    then (ok tt, record s { memory = copy_at offset value s.memory })
    else fault Fault.slice_out_of_range s

-- `opMstore` behind its pops.
unfoldable pub store_at : ℕ → Word → StateAction
store_at offset value = do expand_memory ((offset + 32) % u64_mod); write_word offset value

unfoldable pub op_mstore : StateAction
op_mstore = do (addr, value) ← pop2; store_at (uint64 addr) value

-- `state.Memory[offset] = value[31]`
unfoldable pub write_byte : ℕ → ℕ → StateAction
write_byte offset b s =
    if ltb offset (length s.memory)
    then (ok tt, record s { memory = set s.memory offset b })
    else fault Fault.index_out_of_range s

-- `opMstore8` behind its pops.
unfoldable pub store_byte_at : ℕ → Word → StateAction
store_byte_at offset value = do
  expand_memory ((offset + 1) % u64_mod)
  write_byte offset (get_or value 31 0)

unfoldable pub op_mstore8 : StateAction
op_mstore8 = do (addr, value) ← pop2; store_byte_at (uint64 addr) value

unfoldable pub op_msize : StateAction
op_msize s = stack_push (word_from_uint64 (length s.memory)) s

-- The checks of a jump, with the errors of `JUMP` or of `JUMPI`.
unfoldable pub jump_to : (ℕ → Error) → (ℕ → Error) → ℕ → StateAction
jump_to outside invalid dest s = elim (get_elem? s.code dest) [
  | none ↦ fail (outside dest) s
  | some b ↦ if b == Opcode.jumpdest then (ok tt, record s { pc = dest }) else fail (invalid dest) s
]

unfoldable pub op_jump : StateAction
op_jump = do pos ← pop1; jump_to jump_out_of_bounds jump_invalid (uint64 pos)

unfoldable pub op_jumpi : StateAction
op_jumpi = do
  (pos, cond) ← pop2
  if is_zero cond then pure tt else jump_to jumpi_out_of_bounds jumpi_invalid (uint64 pos)

unfoldable pub op_pc : StateAction
op_pc s = stack_push (word_from_uint64 s.pc) s

unfoldable pub op_gas : StateAction
op_gas s = stack_push (word_from_uint64 s.gas) s

unfoldable pub op_jumpdest : StateAction
op_jumpdest = pure tt

-- `state.PC += size`
unfoldable pub skip : ℕ → StateAction
skip size s = (ok tt, record s { pc = (s.pc + size) % u64_mod })

-- `ExecutePush`
unfoldable pub execute_push : OpCode → StateAction
execute_push op s =
    let size = push_size op in
    elim (leb (length s.code) ((s.pc + size) % u64_mod)) [
      | true ↦ fail (push_overflow size s.pc) s
      | false ↦
          (stack_push (replicate (32 - size) 0 ++ take size (drop (s.pc + 1) s.code)) >> skip size)
            s
    ]

-- `ExecuteDup`; index 0 is the top.
unfoldable pub execute_dup : OpCode → StateAction
execute_dup op s =
    let idx = op - Opcode.dup1 in
    elim (get_elem? s.stack idx) [
      | none ↦ fail (dup_underflow (idx + 1) (get_stack_depth s)) s
      | some w ↦ stack_push w s
    ]

-- `ExecuteSwap`
unfoldable pub execute_swap : OpCode → StateAction
execute_swap op s =
    let idx = op - Opcode.swap1 + 1 in
    elim (get_elem? s.stack idx) [
      | none ↦ fail (swap_underflow (idx + 1) (get_stack_depth s)) s
      | some w ↦
          (ok tt, record s { stack = set (set s.stack idx (get_or s.stack 0 zero_word)) 0 w })
    ]

module _ (host : Host VmState) where
  unfoldable pub op_save : StateAction
  op_save s = stack_push (hash host s) s

  unfoldable pub op_snapshot : Instruction
  op_snapshot vm =
      let snap = new_standard_snapshot host (clone vm.state) vm.chain_id in
      let root = snap.header.state_root in
      with_state (stack_push (word_from_bytes root))
        (record vm { snapshots = insert root snap vm.snapshots })

  -- `opRestore` behind its pop.
  unfoldable pub restore_from : Word → Instruction
  restore_from root vm = elim (lookup root vm.snapshots) [
    | none ↦ fail (snapshot_not_found root) vm
    | some snap ↦ load_snapshot host snap vm
  ]

  unfoldable pub op_restore : Instruction
  op_restore = do hash_word ← with_state pop1; restore_from (host.bytes_to_hash hash_word)

  -- `InstructionSet`, entry by entry.
  unfoldable pub instruction_set : List (OpCode × Instruction)
  instruction_set =
      (Opcode.stop, op_stop)
      ∷ (Opcode.add, with_state (binary add_word))
      ∷ (Opcode.mul, with_state (binary mul_word))
      ∷ (Opcode.sub, with_state (binary sub_word))
      ∷ (Opcode.div, with_state (binary div_word))
      ∷ (Opcode.sdiv, with_state (binary sdiv_word))
      ∷ (Opcode.mod_op, with_state (binary mod_word))
      ∷ (Opcode.smod, with_state (binary smod_word))
      ∷ (Opcode.addmod, with_state (ternary addmod_word))
      ∷ (Opcode.mulmod, with_state (ternary mulmod_word))
      ∷ (Opcode.exp, with_state (binary exp_word))
      ∷ (Opcode.signextend, with_state (binary signextend_word))
      ∷ (Opcode.lt, with_state (binary lt_word))
      ∷ (Opcode.gt, with_state (binary gt_word))
      ∷ (Opcode.slt, with_state (binary slt_word))
      ∷ (Opcode.sgt, with_state (binary sgt_word))
      ∷ (Opcode.eq, with_state (binary eq_word))
      ∷ (Opcode.iszero, with_state (unary iszero_word))
      ∷ (Opcode.and, with_state (binary and_word))
      ∷ (Opcode.or, with_state (binary or_word))
      ∷ (Opcode.xor, with_state (binary xor_word))
      ∷ (Opcode.not, with_state (unary not_word))
      ∷ (Opcode.byte, with_state (binary byte_word))
      ∷ (Opcode.shl, with_state (binary shl_word))
      ∷ (Opcode.shr, with_state (binary shr_word))
      ∷ (Opcode.sar, with_state (binary sar_word))
      ∷ (Opcode.pop, with_state op_pop)
      ∷ (Opcode.mload, with_state op_mload)
      ∷ (Opcode.mstore, with_state op_mstore)
      ∷ (Opcode.mstore8, with_state op_mstore8)
      ∷ (Opcode.msize, with_state op_msize)
      ∷ (Opcode.jump, with_state op_jump)
      ∷ (Opcode.jumpi, with_state op_jumpi)
      ∷ (Opcode.pc, with_state op_pc)
      ∷ (Opcode.gas, with_state op_gas)
      ∷ (Opcode.jumpdest, with_state op_jumpdest)
      ∷ (Opcode.save, with_state op_save)
      ∷ (Opcode.snapshot, op_snapshot)
      ∷ (Opcode.restore, op_restore)
      ∷ []

-- A lookup in `InstructionSet`.
unfoldable pub find_instruction : OpCode → List (OpCode × Instruction) → Option Instruction
find_instruction op [] = none
find_instruction op ((code, run) ∷ rest) = if op == code then some run else find_instruction op rest
