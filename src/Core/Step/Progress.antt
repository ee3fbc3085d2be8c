-- ===== src/Core/Step/Progress.antt =====
-- The gas and the address space that a step of the machine (purevm/core/vm.go) uses up.
use offchain_com.Base.{
  none, ℕ, suc, ◌+◌, ◌-◌, ◌%◌, ◌≤◌, ◌<◌, ◌≡◌, ◌≢◌, ◌⊎◌, inl, inr, refl, ap, sym, subst, ◌∙◌, true,
  false, arith, List, [], ◌∷◌, length, All-map, get_elem?, some, Bool-cases, ◌==◌, ==_iff,
}
use offchain_com.Core.Word.{Word, IsWord, u64_mod, uint64}
use offchain_com.Core.Opcode
use offchain_com.Core.Opcode.{OpCode, is_push, is_dup, is_swap}
use offchain_com.Core.Action.{ok, Host}
use offchain_com.Core.State.{VmState, max_int}
use offchain_com.Core.Machine.{Vm, with_state}
use offchain_com.Core.Gas.{one_of, access_size, exp_bytes}
use offchain_com.Core.Gas.Price.{
  PositiveGas, FreeMemory, IsFree, halting, wrapped, taken, IsFree-cases, IsWord-exp_bytes,
}
use offchain_com.Core.Instructions.{
  Instruction, op_stop, op_mload, op_mstore, op_mstore8, instruction_set, find_instruction,
}
use offchain_com.Core.Instructions.Growth.{
  Reaches, op_mload-Reaches, op_mstore-Reaches, op_mstore8-Reaches,
}
use offchain_com.Core.Step.{finish_step, execute, undefined, step}
use offchain_com.Core.Step.Account.{Stepped, step-Stepped, Effect, step-Effect}
use offchain_com.Core.Step.Keeps.{IsVm}

-- What a run uses up: the gas, and the bytes by which the memory can still grow.
unfoldable pub budget : Vm → ℕ
budget vm = vm.state.gas + (max_int - length vm.state.memory)

module _ (host : Host VmState) where
  execute-mload : execute host Opcode.mload ≡ with_state op_mload
  unfolding execute is_push is_dup is_swap instruction_set find_instruction
  execute-mload = refl

  execute-mstore : execute host Opcode.mstore ≡ with_state op_mstore
  unfolding execute is_push is_dup is_swap instruction_set find_instruction
  execute-mstore = refl

  execute-mstore8 : execute host Opcode.mstore8 ≡ with_state op_mstore8
  unfolding execute is_push is_dup is_swap instruction_set find_instruction
  execute-mstore8 = refl

  execute-stop : execute host Opcode.stop ≡ op_stop
  unfolding execute is_push is_dup is_swap instruction_set find_instruction
  execute-stop = refl

  execute-invalid : execute host Opcode.invalid ≡ undefined Opcode.invalid
  unfolding execute is_push is_dup is_swap instruction_set find_instruction
  execute-invalid = refl

  Uses : Vm → Instruction → Type 0
  Uses vm m = (m vm).0 ≡ ok tt → Reaches (suc (length vm.state.memory)) (m vm).1.state

  memory_operation :
      (op : OpCode)
      → one_of (Opcode.mload ∷ Opcode.mstore ∷ Opcode.mstore8 ∷ []) op ≡ true
      → (op ≡ Opcode.mload) ⊎ ((op ≡ Opcode.mstore) ⊎ (op ≡ Opcode.mstore8))
  unfolding one_of
  memory_operation op h = ground arith

  module _ (vm : Vm) (w : Word) (ws : List Word) (shape : vm.state.stack ≡ w ∷ ws) where
    mload-Uses : length vm.state.memory < (uint64 w + 32) % u64_mod → Uses vm (with_state op_mload)
    unfolding Uses
    mload-Uses h e = ground (arith, op_mload-Reaches vm.state w ws shape h e)

    mstore-Uses :
        length vm.state.memory < (uint64 w + 32) % u64_mod → Uses vm (with_state op_mstore)
    unfolding Uses
    mstore-Uses h e = ground (arith, op_mstore-Reaches vm.state w ws shape h e)

    mstore8-Uses :
        length vm.state.memory < (uint64 w + 1) % u64_mod → Uses vm (with_state op_mstore8)
    unfolding Uses
    mstore8-Uses h e = ground (arith, op_mstore8-Reaches vm.state w ws shape h e)

  -- A free memory operation that succeeds has grown the memory.
  memory_used : (op : OpCode) (vm : Vm) → FreeMemory op vm.state → Uses vm (execute host op)
  memory_used op vm f = elim (memory_operation op f.operation) [
    | inl p ↦
        subst (λ o. Uses vm (execute host o)) (sym p)
          (subst (Uses vm) (sym execute-mload) (
            mload-Uses vm f.top f.below f.shape (
              subst (λ o. length vm.state.memory < (uint64 f.top + access_size o) % u64_mod) p
                f.larger)))
    | inr (inl p) ↦
        subst (λ o. Uses vm (execute host o)) (sym p)
          (subst (Uses vm) (sym execute-mstore) (
            mstore-Uses vm f.top f.below f.shape (
              subst (λ o. length vm.state.memory < (uint64 f.top + access_size o) % u64_mod) p
                f.larger)))
    | inr (inr p) ↦
        subst (λ o. Uses vm (execute host o)) (sym p)
          (subst (Uses vm) (sym execute-mstore8) (
            mstore8-Uses vm f.top f.below f.shape (
              subst (λ o. length vm.state.memory < (uint64 f.top + access_size o) % u64_mod) p
                f.larger)))
  ]

  -- A step of a running machine that goes well halts it or uses up some of its budget.
  unfoldable pub Advances : Vm → Vm → Type 0
  Advances vm vm' = (vm'.halted ≡ true) ⊎ (budget vm' < budget vm)

  halting_operation :
      (op : OpCode)
      → one_of (Opcode.stop ∷ Opcode.invalid ∷ []) op ≡ true
      → (op ≡ Opcode.stop) ⊎ (op ≡ Opcode.invalid)
  unfolding one_of
  halting_operation op h = ground arith

  Halts : Vm → Instruction → Type 0
  Halts vm m = (m vm).0 ≡ ok tt → (m vm).1.halted ≡ true

  stop-Halts : (vm : Vm) → Halts vm (execute host Opcode.stop)
  unfolding Halts op_stop
  stop-Halts vm = subst (Halts vm) (sym execute-stop) (λ e. refl)

  invalid-Halts : (vm : Vm) → Halts vm (execute host Opcode.invalid)
  unfolding Halts undefined
  invalid-Halts vm = subst (Halts vm) (sym execute-invalid) (λ e. ground arith)

  halts :
      (op : OpCode) (vm : Vm)
      → one_of (Opcode.stop ∷ Opcode.invalid ∷ []) op ≡ true
      → Halts vm (execute host op)
  halts op vm h = elim (halting_operation op h) [
    | inl p ↦ subst (λ o. Halts vm (execute host o)) (sym p) (stop-Halts vm)
    | inr p ↦ subst (λ o. Halts vm (execute host o)) (sym p) (invalid-Halts vm)
  ]

  finish_step-halted :
      (op : OpCode) (pc cost : ℕ) (vm : Vm)
      → vm.halted ≡ true
      → (finish_step op pc cost vm).halted ≡ true
  unfolding finish_step
  finish_step-halted op pc cost vm h = rw h

  finish_step-memory :
      (op : OpCode) (pc cost : ℕ) (vm : Vm)
      → (finish_step op pc cost vm).state.memory ≡ vm.state.memory
  unfolding finish_step
  finish_step-memory op pc cost vm = refl

  module _ (paid : PositiveGas host) (op : OpCode) (vm : Vm) (h : IsVm vm) where
    free-Advances :
        Stepped host op vm (step host vm).1
        → Effect host op vm (step host vm).1
        → IsFree op vm.state
        → op ≢ Opcode.snapshot
        → Advances vm (step host vm).1
    unfolding Halts Uses Advances budget
    free-Advances st e (halting b) ne = inl (
        ap (λ (v : Vm). v.halted) st.charged
        ∙ finish_step-halted op vm.state.pc st.cost (execute host op vm).1
            (halts op vm b st.executed))
    free-Advances st e (wrapped f) ne =
        let r = memory_used op vm f st.executed in
        let same =
          ap (λ (v : Vm). length v.state.memory) st.charged
          ∙ ap length (finish_step-memory op vm.state.pc st.cost (execute host op vm).1) in
        inr (omega (arith, e.gas_spent, r.inside, r.allocated, same))
    free-Advances st e (taken p) ne = absurd (ne p)

    pub step-Advances :
        vm.halted ≡ false
        → get_elem? vm.state.code vm.state.pc ≡ some op
        → vm.snapshots ≡ []
        → op ≢ Opcode.snapshot
        → (step host vm).0 ≡ ok tt
        → Advances vm (step host vm).1
    unfolding Advances budget
    step-Advances running at empty ne done =
        let e = step-Effect host op vm running at h.current.gas_fits empty ne done in
        elim (Bool-cases (e.price == 0)) [
          | inl free ↦
              free-Advances (step-Stepped host op vm running at done) e
                (IsFree-cases host op vm.state paid
                  (All-map IsWord (λ w. exp_bytes w ≤ 32) IsWord-exp_bytes vm.state.stack
                    h.current.words)
                  (e.price_known ∙ ap ok ((==_iff e.price 0).0 free)))
                ne
          | inr pays ↦
              let some_price : 0 < e.price = ground arith in
              inr (omega (arith, e.gas_spent, e.memory_grows, some_price))
        ]

  -- Behind the end of the code a step halts the machine.
  pub outside_halts :
      (vm : Vm)
      → vm.halted ≡ false
      → get_elem? vm.state.code vm.state.pc ≡ none
      → (step host vm).1.halted ≡ true
  unfolding step
  outside_halts vm running e = simp (running, e)
