-- ===== src/Core/Step/Memory.antt =====
-- What a successful instruction (purevm/core/instructions.go) other than `MSTORE` and `MSTORE8` does to
-- the memory, as long as no snapshot has been taken.
use offchain_com.Base.{
  ℕ, ◌-◌, ◌+◌, ◌%◌, ◌≡◌, ◌≢◌, refl, sym, ◌∙◌, arith, [], ◌++◌, All, ◌⨾◌, replicate, length, ltb,
  Bool-cases, List-cases, inl, inr,
}
use mathlib.Core.List.{append-nil}
use offchain_com.Core.Word.{Word, uint64, u64_mod}
use offchain_com.Core.Opcode
use offchain_com.Core.Opcode.{OpCode}
use offchain_com.Core.Action.{Action, ok, Host}
use offchain_com.Core.State.{VmState, max_int, expand_memory, stack_push, stack_pop}
use offchain_com.Core.Machine.{Vm, with_state}
use offchain_com.Core.Instructions.{
  Instruction, StateAction, skip, pop1, pop2, pop3, unary, binary, ternary, op_stop, op_pop,
  push_slice, load_at, op_mload, op_msize, jump_to, op_jump, op_jumpi, op_pc, op_gas, op_jumpdest,
  op_save, instruction_set, execute_push, execute_dup, execute_swap,
}
use offchain_com.Core.Step.Dispatch.{execute-All}
use offchain_com.Core.Step.Undisturbed.{op_restore_fails}
use offchain_com.Core.Step.{execute, undefined}

-- The memory is still there byte for byte, with zeros behind it.
pub record Padded (s t : VmState) : Type 0 where
  pub zeros : ℕ
  pub padded : t.memory ≡ s.memory ++ replicate zeros 0

same-Padded : (s t : VmState) → t.memory ≡ s.memory → Padded s t
same-Padded s t e = record { zeros = 0; padded = e ∙ sym (append-nil s.memory) }

abbrev Pads : {A : Type 0} → Action VmState A → Type 0
Pads m = (s : VmState) → Padded s (m s).1

stack_push-memory : (w : Word) (s : VmState) → (stack_push w s).1.memory ≡ s.memory
unfolding stack_push
stack_push-memory w s = ground arith

unary-Pads : (f : Word → Word) → Pads (unary f)
unfolding unary pop1 stack_pop stack_push
unary-Pads f s = same-Padded s (unary f s).1 (ground arith)

binary-Pads : (f : Word → Word → Word) → Pads (binary f)
unfolding binary pop2 stack_pop stack_push
binary-Pads f s = same-Padded s (binary f s).1 (ground arith)

ternary-Pads : (f : Word → Word → Word → Word) → Pads (ternary f)
unfolding ternary pop3 pop2 stack_pop stack_push
ternary-Pads f s = same-Padded s (ternary f s).1 (ground arith)

op_pop-Pads : Pads op_pop
unfolding op_pop stack_pop
op_pop-Pads s = same-Padded s (op_pop s).1 (ground arith)

op_jump-Pads : Pads op_jump
unfolding op_jump pop1 stack_pop jump_to
op_jump-Pads s = same-Padded s (op_jump s).1 (ground arith)

op_jumpi-Pads : Pads op_jumpi
unfolding op_jumpi pop2 stack_pop jump_to
op_jumpi-Pads s = same-Padded s (op_jumpi s).1 (ground arith)

op_msize-Pads : Pads op_msize
unfolding op_msize
op_msize-Pads s = same-Padded s (op_msize s).1 (stack_push-memory _ s)

op_pc-Pads : Pads op_pc
unfolding op_pc
op_pc-Pads s = same-Padded s (op_pc s).1 (stack_push-memory _ s)

op_gas-Pads : Pads op_gas
unfolding op_gas
op_gas-Pads s = same-Padded s (op_gas s).1 (stack_push-memory _ s)

op_jumpdest-Pads : Pads op_jumpdest
unfolding op_jumpdest
op_jumpdest-Pads s = same-Padded s (op_jumpdest s).1 (ground arith)

op_save-Pads : (host : Host VmState) → Pads (op_save host)
unfolding op_save
op_save-Pads host s = same-Padded s (op_save host s).1 (stack_push-memory _ s)

execute_push-Pads : (op : OpCode) → Pads (execute_push op)
unfolding execute_push stack_push skip
execute_push-Pads op s = same-Padded s (execute_push op s).1 (ground arith)

execute_dup-Pads : (op : OpCode) → Pads (execute_dup op)
unfolding execute_dup stack_push
execute_dup-Pads op s = same-Padded s (execute_dup op s).1 (ground arith)

execute_swap-Pads : (op : OpCode) → Pads (execute_swap op)
unfolding execute_swap
execute_swap-Pads op s = same-Padded s (execute_swap op s).1 (ground arith)

push_slice-memory :
    (offset bound : ℕ) (s : VmState) → (push_slice offset bound s).1.memory ≡ s.memory
unfolding push_slice stack_push
push_slice-memory offset bound s = ground arith

expand_memory-Pads : (n : ℕ) → Pads (expand_memory n)
unfolding expand_memory
expand_memory-Pads n s = elim (Bool-cases (ltb (length s.memory) n)) [
  | inr enough ↦ same-Padded s (expand_memory n s).1 (ground arith)
  | inl short ↦ elim (Bool-cases (ltb max_int n)) [
    | inl refused ↦ same-Padded s (expand_memory n s).1 (ground arith)
    | inr granted ↦ record { zeros = n - length s.memory; padded = ground arith }
  ]
]

load_at-Pads : (offset : ℕ) → Pads (load_at offset)
unfolding load_at
load_at-Pads offset s =
    let bound = (offset + 32) % u64_mod in
    let p = expand_memory-Pads bound s in
    let same : (load_at offset s).1.memory ≡ (expand_memory bound s).1.memory =
      ground (arith, push_slice-memory offset bound (expand_memory bound s).1) in
    record { zeros = p.zeros; padded = same ∙ p.padded }

op_mload-Pads : Pads op_mload
unfolding op_mload pop1 stack_pop
op_mload-Pads s = elim (List-cases s.stack) [
  | inl e ↦ same-Padded s (op_mload s).1 (ground arith)
  | inr (w, ws, e) ↦
      let p = load_at-Pads (uint64 w) (record s { stack = ws }) in
      let same : (op_mload s).1.memory ≡ (load_at (uint64 w) (record s { stack = ws })).1.memory =
        ground arith in
      record { zeros = p.zeros; padded = same ∙ p.padded }
]

-- What holds of an instruction that stores nothing.
abbrev PadsMemory : OpCode → Instruction → Type 0
PadsMemory op m =
    op ≢ Opcode.mstore
    → op ≢ Opcode.mstore8
    → op ≢ Opcode.snapshot
    → (vm : Vm) → vm.snapshots ≡ []
    → (m vm).0 ≡ ok tt
    → Padded vm.state (m vm).1.state

pads : {op : OpCode} (m : StateAction) → Pads m → PadsMemory op (with_state m)
pads m p _ _ _ vm h e = p vm.state

op_stop-Pads : PadsMemory Opcode.stop op_stop
unfolding op_stop
op_stop-Pads _ _ _ vm h e = same-Padded vm.state (op_stop vm).1.state (ground arith)

module _ (host : Host VmState) where
  table-Pads : All (λ (e : OpCode × Instruction). PadsMemory e.0 e.1) (instruction_set host)
  unfolding instruction_set
  table-Pads =
      op_stop-Pads
      ⨾ pads _ (binary-Pads _)
      ⨾ pads _ (binary-Pads _)
      ⨾ pads _ (binary-Pads _)
      ⨾ pads _ (binary-Pads _)
      ⨾ pads _ (binary-Pads _)
      ⨾ pads _ (binary-Pads _)
      ⨾ pads _ (binary-Pads _)
      ⨾ pads _ (ternary-Pads _)
      ⨾ pads _ (ternary-Pads _)
      ⨾ pads _ (binary-Pads _)
      ⨾ pads _ (binary-Pads _)
      ⨾ pads _ (binary-Pads _)
      ⨾ pads _ (binary-Pads _)
      ⨾ pads _ (binary-Pads _)
      ⨾ pads _ (binary-Pads _)
      ⨾ pads _ (binary-Pads _)
      ⨾ pads _ (unary-Pads _)
      ⨾ pads _ (binary-Pads _)
      ⨾ pads _ (binary-Pads _)
      ⨾ pads _ (binary-Pads _)
      ⨾ pads _ (unary-Pads _)
      ⨾ pads _ (binary-Pads _)
      ⨾ pads _ (binary-Pads _)
      ⨾ pads _ (binary-Pads _)
      ⨾ pads _ (binary-Pads _)
      ⨾ pads _ op_pop-Pads
      ⨾ pads _ op_mload-Pads
      ⨾ (λ ne _ _. absurd (ne refl))
      ⨾ (λ _ ne _. absurd (ne refl))
      ⨾ pads _ op_msize-Pads
      ⨾ pads _ op_jump-Pads
      ⨾ pads _ op_jumpi-Pads
      ⨾ pads _ op_pc-Pads
      ⨾ pads _ op_gas-Pads
      ⨾ pads _ op_jumpdest-Pads
      ⨾ pads _ (op_save-Pads host)
      ⨾ (λ _ _ ne. absurd (ne refl))
      ⨾ (λ _ _ _ vm h e. absurd (op_restore_fails host vm h e))
      ⨾ tt

  undefined-Pads : (op : OpCode) → PadsMemory op (undefined op)
  unfolding undefined
  undefined-Pads op _ _ _ vm h e = ground arith

  pub execute-Pads : (op : OpCode) → PadsMemory op (execute host op)
  execute-Pads op =
      execute-All host PadsMemory op (λ _. pads (execute_push op) (execute_push-Pads op))
        (pads (execute_dup op) (execute_dup-Pads op))
        (pads (execute_swap op) (execute_swap-Pads op)) (undefined-Pads op) table-Pads
