-- ===== src/Core/Step/Chains.antt =====
-- `Step` (purevm/core/vm.go) reads the chain ID only for `SNAPSHOT`.
use offchain_com.Base.{
  ℕ, ◌≡◌, ◌≢◌, refl, sym, ap, ◌∙◌, false, some, All, ◌⨾◌, get_elem?, Bool-cases, Option-cases, inl,
  inr, ltb,
}
use offchain_com.Core.Opcode
use offchain_com.Core.Opcode.{OpCode}
use offchain_com.Core.Word.{Word}
use offchain_com.Core.Action.{Result, Result-cases, ok, err, panic, Host}
use offchain_com.Core.State.{VmState}
use offchain_com.Core.Snapshot.{verify_integrity}
use offchain_com.Core.Machine.{Vm, with_state, lookup, load_snapshot}
use offchain_com.Core.Gas.{calc_opcode_cost}
use offchain_com.Core.Instructions.{
  Instruction, StateAction, execute_push, execute_dup, execute_swap, op_stop, restore_from,
  op_restore, pop1, instruction_set,
}
use offchain_com.Core.Step.{finish_step, undefined, execute, charge, perform, step}
use offchain_com.Core.Step.Dispatch.{execute-All}
use offchain_com.Core.Step.Masked.{restore_rest, charge_rest, record_rest}
use offchain_com.Core.Step.Account.{step_at}

-- The machine on another chain.
abbrev pub moved : ℕ → Vm → Vm
moved chain vm = record vm { chain_id = chain }

abbrev pub moved_after : {A : Type 0} → ℕ → Result A × Vm → Result A × Vm
moved_after chain x = (x.0, moved chain x.1)

-- An instruction does the same on every chain, unless it is `SNAPSHOT`.
abbrev Anywhere : OpCode → Instruction → Type 0
Anywhere op m =
    op ≢ Opcode.snapshot → (chain : ℕ) (vm : Vm) → m (moved chain vm) ≡ moved_after chain (m vm)

stays : {op : OpCode} (m : StateAction) → Anywhere op (with_state m)
stays m ne chain vm = refl

op_stop-Anywhere : Anywhere Opcode.stop op_stop
unfolding op_stop
op_stop-Anywhere ne chain vm = refl

undefined-Anywhere : (op : OpCode) → Anywhere op (undefined op)
unfolding undefined
undefined-Anywhere op ne chain vm = refl

module _ (host : Host VmState) where
  restore_from-moved :
      (root : Word) (chain : ℕ) (vm : Vm)
      → restore_from host root (moved chain vm) ≡ moved_after chain (restore_from host root vm)
  unfolding restore_from load_snapshot
  restore_from-moved root chain vm = elim (Option-cases (lookup root vm.snapshots)) [
    | inl e ↦ rw (restore_from, e) refl
    | inr (snap, e) ↦ elim (Result-cases (verify_integrity host snap)) [
      | inl (u, f) ↦ rw (restore_from, e, load_snapshot, f) refl
      | inr (inl (x, f)) ↦ rw (restore_from, e, load_snapshot, f) refl
      | inr (inr (x, f)) ↦ rw (restore_from, e, load_snapshot, f) refl
    ]
  ]

  restore_rest-moved :
      (r : Result Word) (chain : ℕ) (vm : Vm)
      → restore_rest host (r, moved chain vm) ≡ moved_after chain (restore_rest host (r, vm))
  restore_rest-moved (ok w) chain vm = restore_from-moved (host.bytes_to_hash w) chain vm
  restore_rest-moved (err x) chain vm = refl
  restore_rest-moved (panic x) chain vm = refl

  op_restore-Anywhere : Anywhere Opcode.restore (op_restore host)
  unfolding op_restore
  op_restore-Anywhere ne chain vm =
      restore_rest-moved (pop1 vm.state).0 chain (record vm { state = (pop1 vm.state).1 })

  table-Anywhere : All (λ (e : OpCode × Instruction). Anywhere e.0 e.1) (instruction_set host)
  unfolding instruction_set
  table-Anywhere =
      op_stop-Anywhere
      ⨾ stays _
      ⨾ stays _
      ⨾ stays _
      ⨾ stays _
      ⨾ stays _
      ⨾ stays _
      ⨾ stays _
      ⨾ stays _
      ⨾ stays _
      ⨾ stays _
      ⨾ stays _
      ⨾ stays _
      ⨾ stays _
      ⨾ stays _
      ⨾ stays _
      ⨾ stays _
      ⨾ stays _
      ⨾ stays _
      ⨾ stays _
      ⨾ stays _
      ⨾ stays _
      ⨾ stays _
      ⨾ stays _
      ⨾ stays _
      ⨾ stays _
      ⨾ stays _
      ⨾ stays _
      ⨾ stays _
      ⨾ stays _
      ⨾ stays _
      ⨾ stays _
      ⨾ stays _
      ⨾ stays _
      ⨾ stays _
      ⨾ stays _
      ⨾ stays _
      ⨾ (λ ne chain vm. absurd (ne refl))
      ⨾ op_restore-Anywhere
      ⨾ tt

  execute-moved : (op : OpCode) → Anywhere op (execute host op)
  execute-moved op =
      execute-All host Anywhere op (λ _. stays (execute_push op)) (stays (execute_dup op))
        (stays (execute_swap op)) (undefined-Anywhere op) table-Anywhere

  charge_rest-moved :
      (op : OpCode) (pre_pc cost : ℕ) (r : Result (Unit {0})) (chain : ℕ) (vm : Vm)
      → charge_rest op pre_pc cost (r, moved chain vm)
        ≡ moved_after chain (charge_rest op pre_pc cost (r, vm))
  unfolding finish_step
  charge_rest-moved op pre_pc cost (ok u) chain vm = refl
  charge_rest-moved op pre_pc cost (err x) chain vm = refl
  charge_rest-moved op pre_pc cost (panic x) chain vm = refl

  charge-moved : (op : OpCode) (cost : ℕ) → Anywhere op (charge host op cost)
  unfolding charge
  charge-moved op cost ne chain vm = elim (Bool-cases (ltb vm.state.gas cost)) [
    | inl short ↦ rw (charge, short) refl
    | inr enough ↦
        rw (charge, enough)
          (ap (charge_rest op vm.state.pc cost) (execute-moved op ne chain vm)
            ∙ charge_rest-moved op vm.state.pc cost (execute host op vm).0 chain
                (execute host op vm).1)
  ]

  perform-moved : (op : OpCode) → Anywhere op (perform host op)
  unfolding perform
  perform-moved op ne chain vm = elim (Result-cases (calc_opcode_cost host op vm.state)) [
    | inl (cost, e) ↦ rw (perform, e) (charge-moved op cost ne chain vm)
    | inr (inl (x, e)) ↦ rw (perform, e) refl
    | inr (inr (x, e)) ↦ rw (perform, e) refl
  ]

  record_rest-moved :
      (r : Result (Unit {0})) (chain : ℕ) (vm : Vm)
      → record_rest (r, moved chain vm) ≡ moved_after chain (record_rest (r, vm))
  record_rest-moved (ok u) chain vm = refl
  record_rest-moved (err x) chain vm = refl
  record_rest-moved (panic x) chain vm = refl

  -- A step that is no `SNAPSHOT` does the same on every chain.
  pub step-moved :
      (op : OpCode) (chain : ℕ) (vm : Vm)
      → vm.halted ≡ false
      → get_elem? vm.state.code vm.state.pc ≡ some op
      → op ≢ Opcode.snapshot
      → step host (moved chain vm) ≡ moved_after chain (step host vm)
  step-moved op chain vm running at ne =
      step_at host op (moved chain vm) running at
      ∙ (ap record_rest (perform-moved op ne chain vm)
          ∙ (record_rest-moved (perform host op vm).0 chain (perform host op vm).1
              ∙ ap (moved_after chain) (sym (step_at host op vm running at))))
