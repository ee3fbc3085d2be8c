-- ===== src/Core/Step/Dispatch.antt =====
-- What holds of every instruction holds of the one that `Step` (purevm/core/vm.go) dispatches to.
use offchain_com.Base.{
  ◌≡◌, true, List, [], ◌∷◌, some, All, ◌==◌, ==_iff, if◌then◌else◌, Bool-cases, Option-cases, inl,
  inr, eq_of_some, subst, sym,
}
use offchain_com.Core.Opcode.{OpCode, is_push, is_dup, is_swap}
use offchain_com.Core.Action.{Host}
use offchain_com.Core.State.{VmState}
use offchain_com.Core.Machine.{with_state}
use offchain_com.Core.Instructions.{
  Instruction, find_instruction, instruction_set, execute_push, execute_dup, execute_swap,
}
use offchain_com.Core.Step.{execute, undefined}

pub find_instruction-All :
    (P : OpCode → Instruction → Type 0) (op : OpCode) (run : Instruction)
    (table : List (OpCode × Instruction))
    → All (λ e. P e.0 e.1) table
    → find_instruction op table ≡ some run
    → P op run
unfolding find_instruction
find_instruction-All P op run [] h e = cc
find_instruction-All P op run ((code, r) ∷ rest) h e = elim (Bool-cases (op == code)) [
  | inl same ↦
      let e' : (if op == code then some r else find_instruction op rest) ≡ some run = e in
      let found : some r ≡ some run = rw same at e' in
      subst (λ x. P x run) (sym ((==_iff op code).0 same)) (subst (P code) (eq_of_some found) h.0)
  | inr differ ↦
      let e' : (if op == code then some r else find_instruction op rest) ≡ some run = e in
      find_instruction-All P op run rest h.1 (rw differ at e')
]

-- The dispatch, by its five ways.
pub execute-All :
    (host : Host VmState) (P : OpCode → Instruction → Type 0) (op : OpCode)
    → (is_push op ≡ true → P op (with_state (execute_push op)))
    → P op (with_state (execute_dup op))
    → P op (with_state (execute_swap op))
    → P op (undefined op)
    → All (λ e. P e.0 e.1) (instruction_set host)
    → P op (execute host op)
unfolding execute
execute-All host P op push dup swap missing table = elim (Bool-cases (is_push op)) [
  | inl e ↦ rw e (push e)
  | inr e ↦ rw e (elim (Bool-cases (is_dup op)) [
    | inl e ↦ rw e dup
    | inr e ↦ rw e (elim (Bool-cases (is_swap op)) [
      | inl e ↦ rw e swap
      | inr e ↦ rw e (elim (Option-cases (find_instruction op (instruction_set host))) [
        | inl e ↦ rw e missing
        | inr (run, e) ↦ rw e (find_instruction-All P op run (instruction_set host) table e)
      ])
    ])
  ])
]
