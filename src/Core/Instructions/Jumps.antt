-- ===== src/Core/Instructions/Jumps.antt =====
-- Where the jumps land (purevm/core/instructions.go).
use offchain_com.Base.{ℕ, ◌≡◌, ◌⊎◌, inl, inr, arith, Bool-cases, List-cases, some, get_elem?}
use offchain_com.Core.Word.{uint64, is_zero}
use offchain_com.Core.Opcode
use offchain_com.Core.Action.{
  Error, jump_out_of_bounds, jump_invalid, jumpi_out_of_bounds, jumpi_invalid, ok,
}
use offchain_com.Core.State.{VmState, stack_pop}
use offchain_com.Core.Instructions.{pop1, pop2, jump_to, op_jump, op_jumpi}

-- The program counter is at a `JUMPDEST`.
abbrev pub AtJumpdest : VmState → Type 0
AtJumpdest s = get_elem? s.code s.pc ≡ some Opcode.jumpdest

jump_to-AtJumpdest :
    (outside invalid : ℕ → Error) (dest : ℕ) (s : VmState)
    → (jump_to outside invalid dest s).0 ≡ ok tt
    → AtJumpdest (jump_to outside invalid dest s).1
unfolding jump_to
jump_to-AtJumpdest outside invalid dest s h = ground arith

op_jump-lands : (s : VmState) → (op_jump s).0 ≡ ok tt → AtJumpdest (op_jump s).1
unfolding op_jump pop1 stack_pop
op_jump-lands s h = elim (List-cases s.stack) [
  | inl e ↦ ground arith
  | inr (w, ws, e) ↦ ground (
    arith,
    jump_to-AtJumpdest jump_out_of_bounds jump_invalid (uint64 w) (record s { stack = ws }),
  )
]

op_jumpi-lands :
    (s : VmState) → (op_jumpi s).0 ≡ ok tt → AtJumpdest (op_jumpi s).1 ⊎ ((op_jumpi s).1.pc ≡ s.pc)
unfolding op_jumpi pop2 stack_pop
op_jumpi-lands s h = elim (List-cases s.stack) [
  | inl e ↦ ground arith
  | inr (w, ws, e) ↦ elim (List-cases ws) [
    | inl e' ↦ ground arith
    | inr (c, cs, e') ↦ elim (Bool-cases (is_zero c)) [
      | inl z ↦ inr (ground arith)
      | inr nz ↦ inl (
          ground (
            arith,
            jump_to-AtJumpdest jumpi_out_of_bounds jumpi_invalid (uint64 w)
                (record s { stack = cs }),
          ))
    ]
  ]
]

-- `JUMP` and `JUMPI` end at a `JUMPDEST`, whatever is on the stack: when `JUMP` succeeds the program
-- counter is at one, and when `JUMPI` succeeds it is at one or where it was.
pub jumps_land :
    (s : VmState)
    → ((op_jump s).0 ≡ ok tt → AtJumpdest (op_jump s).1)
      × ((op_jumpi s).0 ≡ ok tt → AtJumpdest (op_jumpi s).1 ⊎ ((op_jumpi s).1.pc ≡ s.pc))
jumps_land s = (op_jump-lands s, op_jumpi-lands s)
