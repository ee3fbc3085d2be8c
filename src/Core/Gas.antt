-- ===== src/Core/Gas.antt =====
-- The price of the next operation (purevm/core/gas_table.go).
pub mod Price
pub mod Exponent
use offchain_com.Base.{
  ℕ, zero, suc, ◌+◌, ◌*◌, ◌%◌, ◌^◌, ◌≡◌, Bool, true, false, ◌&&◌, ◌||◌, List, [], ◌∷◌, Option, none,
  some, leb, ltb, ◌==◌, if◌then◌else◌, length, reverse,
}
use offchain_com.Core.Word.{Bytes, Word, u64_mod, uint64}
use offchain_com.Core.Opcode
use offchain_com.Core.Opcode.{OpCode, is_push, is_dup, is_swap}
use offchain_com.Core.Action.{
  Error, undefined_gas_cost, exp_underflow, memory_underflow, Result, ok, err, Host,
}
use offchain_com.Core.State.{VmState, serialize_canonical, memory_expansion_cost, get_stack_depth}

abbrev pub gas_quick_step : ℕ
gas_quick_step = 2

abbrev pub gas_fastest_step : ℕ
gas_fastest_step = 3

abbrev pub gas_fast_step : ℕ
gas_fast_step = 5

abbrev pub gas_mid_step : ℕ
gas_mid_step = 8

-- A case of the `switch` that names several codes.
unfoldable pub one_of : List OpCode → OpCode → Bool
one_of [] op = false
one_of (x ∷ xs) op = op == x || one_of xs op

-- The loop of `calcExpGas` goes down from index 31 and stops at the first byte that is not 0: the
-- argument is the word from its last byte on, and the answer is one more than that byte's index.
unfoldable pub exp_bytes_from : List ℕ → ℕ
exp_bytes_from [] = 0
exp_bytes_from (b ∷ bs) = if b == 0 then exp_bytes_from bs else suc (length bs)

unfoldable pub exp_bytes : Word → ℕ
exp_bytes exp = exp_bytes_from (reverse exp)

module _ (host : Host VmState) where
  -- `calcExpGas`
  unfoldable pub calc_exp_gas : VmState → Result ℕ
  calc_exp_gas s = if ltb (get_stack_depth s) 2 then err exp_underflow else elim s.stack [
    | [] ↦ err exp_underflow
    | exp ∷ _ ↦ ok ((host.exp_gas + exp_bytes exp * host.exp_byte_gas % u64_mod) % u64_mod)
  ]

-- The bytes that a memory operation touches behind its address.
abbrev pub access_size : OpCode → ℕ
access_size op = if op == Opcode.mstore8 then 1 else 32

abbrev pub required_depth : OpCode → ℕ
required_depth op = if op == Opcode.mstore || op == Opcode.mstore8 then 2 else 1

-- `calcMemoryOpGas`, for `MLOAD`, `MSTORE` and `MSTORE8`.
unfoldable pub calc_memory_op_gas : OpCode → VmState → Result ℕ
calc_memory_op_gas op s =
    if ltb (get_stack_depth s) (required_depth op) then err memory_underflow else elim s.stack [
      | [] ↦ err memory_underflow
      | top ∷ _ ↦
          let new_size = (uint64 top + access_size op) % u64_mod in
          ok ((gas_fastest_step + memory_expansion_cost new_size s) % u64_mod)
    ]

module _ (host : Host VmState) where
  -- `CalcOpcodeCost`
  unfoldable pub calc_opcode_cost : OpCode → VmState → Result ℕ
  calc_opcode_cost op s =
      if one_of (Opcode.stop ∷ Opcode.invalid ∷ []) op
      then ok 0
      else if one_of (Opcode.pc ∷ Opcode.gas ∷ Opcode.pop ∷ []) op
      then ok gas_quick_step
      else if one_of
          (Opcode.add ∷ Opcode.sub ∷ Opcode.lt ∷ Opcode.gt ∷ Opcode.slt ∷ Opcode.sgt ∷ Opcode.eq
            ∷ Opcode.iszero ∷ Opcode.and ∷ Opcode.or ∷ Opcode.xor ∷ Opcode.not ∷ Opcode.byte
            ∷ Opcode.shl ∷ Opcode.shr ∷ Opcode.sar ∷ [])
          op
      then ok gas_fastest_step
      else if one_of
          (Opcode.mul ∷ Opcode.div ∷ Opcode.sdiv ∷ Opcode.mod_op ∷ Opcode.smod ∷ Opcode.signextend
            ∷ [])
          op
      then ok gas_fast_step
      else if one_of (Opcode.addmod ∷ Opcode.mulmod ∷ []) op
      then ok gas_mid_step
      else if op == Opcode.exp
      then calc_exp_gas host s
      else if is_dup op || is_swap op || is_push op
      then ok gas_fastest_step
      else if one_of (Opcode.mload ∷ Opcode.mstore ∷ Opcode.mstore8 ∷ []) op
      then calc_memory_op_gas op s
      else if op == Opcode.msize
      then ok gas_quick_step
      else if op == Opcode.jump
      then ok 8
      else if op == Opcode.jumpi
      then ok 10
      else if op == Opcode.jumpdest
      then ok host.jumpdest_gas
      else if op == Opcode.save
      then ok 100
      else if op == Opcode.snapshot
      then ok ((20000 + length (serialize_canonical host s) * 10) % u64_mod)
      else if op == Opcode.restore
      then ok 5000
      else err (undefined_gas_cost op)
