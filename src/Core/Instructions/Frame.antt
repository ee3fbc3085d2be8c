-- ===== src/Core/Instructions/Frame.antt =====
-- What the instructions on a state (purevm/core/instructions.go) leave alone, whether they succeed or
-- fail.
use offchain_com.Base.{
  List-cases, inl, inr, get_or, take, drop, replicate, ◌-◌, ◌++◌, ℕ, ◌+◌, ◌%◌, ◌≤◌, ◌≡◌, arith,
  length, length-append, length-take, length-drop, length-set,
}
use offchain_com.Core.Word.{Word, Bytes, uint64, u64_mod}
use offchain_com.Core.Opcode.{OpCode}
use offchain_com.Core.Action.{Action, Host}
use offchain_com.Core.State.{VmState, expand_memory, stack_push, stack_pop}
use offchain_com.Core.Instructions.{
  skip, pop1, pop2, pop3, unary, binary, ternary, op_pop, copy_at, push_slice, load_at, op_mload,
  write_word, store_at, op_mstore, write_byte, store_byte_at, op_mstore8, op_msize, jump_to,
  op_jump, op_jumpi, op_pc, op_gas, op_jumpdest, execute_push, execute_dup, execute_swap, op_save,
}

-- The context, the gas and the count of steps stay, and the memory does not shrink.
pub record Frame (s t : VmState) : Type 0 where
  pub gas_kept : t.gas ≡ s.gas
  pub refund_kept : t.refund ≡ s.refund
  pub code_kept : t.code ≡ s.code
  pub code_hash_kept : t.code_hash ≡ s.code_hash
  pub step_count_kept : t.step_count ≡ s.step_count
  pub call_value_kept : t.call_value ≡ s.call_value
  pub call_data_kept : t.call_data ≡ s.call_data
  pub memory_grows : length s.memory ≤ length t.memory

abbrev pub Frames : {A : Type 0} → Action VmState A → Type 0
Frames m = (s : VmState) → Frame s (m s).1

pub stack_push-Frames : (w : Word) → Frames (stack_push w)
unfolding stack_push
stack_push-Frames w s = ground arith

pub stack_pop-Frames : Frames stack_pop
unfolding stack_pop
stack_pop-Frames s = ground arith

expand_memory-Frames : (n : ℕ) → Frames (expand_memory n)
unfolding expand_memory
expand_memory-Frames n s =
    ground (arith, length-append s.memory (replicate (n - length s.memory) 0))

pub unary-Frames : (f : Word → Word) → Frames (unary f)
unfolding unary pop1 stack_pop stack_push
unary-Frames f s = ground arith

pub binary-Frames : (f : Word → Word → Word) → Frames (binary f)
unfolding binary pop2 stack_pop stack_push
binary-Frames f s = ground arith

pub ternary-Frames : (f : Word → Word → Word → Word) → Frames (ternary f)
unfolding ternary pop3 pop2 stack_pop stack_push
ternary-Frames f s = ground arith

pub op_pop-Frames : Frames op_pop
unfolding op_pop stack_pop
op_pop-Frames s = ground arith

pub op_jump-Frames : Frames op_jump
unfolding op_jump pop1 stack_pop jump_to
op_jump-Frames s = ground arith

pub op_jumpi-Frames : Frames op_jumpi
unfolding op_jumpi pop2 stack_pop jump_to
op_jumpi-Frames s = ground arith

pub execute_push-Frames : (op : OpCode) → Frames (execute_push op)
unfolding execute_push stack_push skip
execute_push-Frames op s = ground arith

pub execute_dup-Frames : (op : OpCode) → Frames (execute_dup op)
unfolding execute_dup stack_push
execute_dup-Frames op s = ground arith

pub execute_swap-Frames : (op : OpCode) → Frames (execute_swap op)
unfolding execute_swap
execute_swap-Frames op s = ground arith

-- The memory instructions, part by part.
pub push_slice-Frames : (offset bound : ℕ) → Frames (push_slice offset bound)
unfolding push_slice stack_push
push_slice-Frames offset bound s = ground arith

load_at-Frames : (offset : ℕ) → Frames (load_at offset)
unfolding load_at
load_at-Frames offset s =
    let bound = (offset + 32) % u64_mod in
    ground (
      arith,
      expand_memory-Frames bound s,
      push_slice-Frames offset bound (expand_memory bound s).1,
    )

pub op_mload-Frames : Frames op_mload
unfolding op_mload pop1 stack_pop
op_mload-Frames s = elim (List-cases s.stack) [
  | inl e ↦ ground arith
  | inr (w, ws, e) ↦ ground (arith, load_at-Frames (uint64 w) (record s { stack = ws }))
]

length-copy_at :
    (offset : ℕ) (value mem : Bytes)
    → offset ≤ length mem
    → length mem ≤ length (copy_at offset value mem)
unfolding copy_at
length-copy_at offset value mem h = omega (
  arith,
  length-append (take offset mem)
      (take (length mem - offset) value ++ drop (offset + length value) mem),
  length-append (take (length mem - offset) value) (drop (offset + length value) mem),
  length-take offset mem,
  length-take (length mem - offset) value,
  length-drop (offset + length value) mem,
)

pub write_word-Frames : (offset : ℕ) (value : Word) → Frames (write_word offset value)
unfolding write_word
write_word-Frames offset value s = ground (arith, length-copy_at offset value s.memory)

store_at-Frames : (offset : ℕ) (value : Word) → Frames (store_at offset value)
unfolding store_at
store_at-Frames offset value s =
    let bound = (offset + 32) % u64_mod in
    ground (
      arith,
      expand_memory-Frames bound s,
      write_word-Frames offset value (expand_memory bound s).1,
    )

pub write_byte-Frames : (offset b : ℕ) → Frames (write_byte offset b)
unfolding write_byte
write_byte-Frames offset b s = ground (arith, length-set s.memory offset b)

store_byte_at-Frames : (offset : ℕ) (value : Word) → Frames (store_byte_at offset value)
unfolding store_byte_at
store_byte_at-Frames offset value s =
    let bound = (offset + 1) % u64_mod in
    ground (
      arith,
      expand_memory-Frames bound s,
      write_byte-Frames offset (get_or value 31 0) (expand_memory bound s).1,
    )

pub op_mstore-Frames : Frames op_mstore
unfolding op_mstore pop2 stack_pop
op_mstore-Frames s = elim (List-cases s.stack) [
  | inl e ↦ ground arith
  | inr (w, ws, e) ↦ elim (List-cases ws) [
    | inl e' ↦ ground arith
    | inr (v, vs, e') ↦ ground (arith, store_at-Frames (uint64 w) v (record s { stack = vs }))
  ]
]

pub op_mstore8-Frames : Frames op_mstore8
unfolding op_mstore8 pop2 stack_pop
op_mstore8-Frames s = elim (List-cases s.stack) [
  | inl e ↦ ground arith
  | inr (w, ws, e) ↦ elim (List-cases ws) [
    | inl e' ↦ ground arith
    | inr (v, vs, e') ↦ ground (arith, store_byte_at-Frames (uint64 w) v (record s { stack = vs }))
  ]
]

pub op_msize-Frames : Frames op_msize
unfolding op_msize
op_msize-Frames s = stack_push-Frames _ s

pub op_pc-Frames : Frames op_pc
unfolding op_pc
op_pc-Frames s = stack_push-Frames _ s

pub op_gas-Frames : Frames op_gas
unfolding op_gas
op_gas-Frames s = stack_push-Frames _ s

pub op_jumpdest-Frames : Frames op_jumpdest
unfolding op_jumpdest
op_jumpdest-Frames s = ground arith

pub op_save-Frames : (host : Host VmState) → Frames (op_save host)
unfolding op_save
op_save-Frames host s = stack_push-Frames _ s
