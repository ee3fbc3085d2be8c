-- ===== src/Tests/Memory.antt =====
-- A store, jumps and prices on small states (purevm/core/instructions.go, purevm/core/gas_table.go).
use offchain_com.Base.{◌+◌, ◌≤◌, ◌≡◌, ◌⊎◌, refl, arith, List, [], ◌∷◌, ◌++◌, replicate}
use offchain_com.Core.Word.{Word, u64_mod, uint64, big_int, set_bytes, is_zero}
use offchain_com.Core.Word.Convert.{uint64-lt}
use offchain_com.Core.Opcode
use offchain_com.Core.Action.{Fault, ok, panic}
use offchain_com.Core.State.{VmState, new_state, expand_memory}
use offchain_com.Core.Gas.{calc_exp_gas, calc_memory_op_gas}
use offchain_com.Core.Gas.Exponent.{calc_exp_gas_odd}
use offchain_com.Core.Instructions.{store_at, load_at, write_word, op_jump, op_jumpi, op_mload}
use offchain_com.Core.Instructions.Memory.{store_at-load_at}
use offchain_com.Core.Instructions.Jumps.{AtJumpdest, jumps_land}
use offchain_com.Core.Instructions.Wraps.{op_mload_wraps}
use offchain_com.Tests.Machine.{host}
use offchain_com.Tests.Words.{small}

-- JUMPDEST at 1, and the stack `ws`.
abbrev with_stack : List Word → VmState
with_stack ws = record (new_state host (0x56 ∷ (0x5b ∷ [])) 100) { stack = ws }

stored : (store_at 0 (small 5) (with_stack [])).0 ≡ ok tt
unfolding store_at expand_memory write_word new_state
stored = refl

store_at-load_at_example :
    load_at 0 (store_at 0 (small 5) (with_stack [])).1
    ≡ (ok tt, record ((store_at 0 (small 5) (with_stack [])).1) { stack = small 5 ∷ [] })
store_at-load_at_example =
    store_at-load_at 0 (small 5) (with_stack []) (omega arith) refl (omega arith) stored

jumps_land_example :
    ((op_jump (with_stack (small 1 ∷ []))).0 ≡ ok tt
      → AtJumpdest (op_jump (with_stack (small 1 ∷ []))).1)
    × ((op_jumpi (with_stack (small 1 ∷ []))).0 ≡ ok tt
        → AtJumpdest (op_jumpi (with_stack (small 1 ∷ []))).1
          ⊎ ((op_jumpi (with_stack (small 1 ∷ []))).1.pc ≡ (with_stack (small 1 ∷ [])).pc))
jumps_land_example = jumps_land (with_stack (small 1 ∷ []))

-- 2 ^ 64 - 1
abbrev last_address : Word
last_address = replicate 24 0 ++ replicate 8 255

abbrev filled : VmState
filled = record (with_stack (last_address ∷ [])) { memory = replicate 32 0 }

at_end : u64_mod ≤ uint64 last_address + 32
unfolding uint64 is_zero big_int set_bytes
at_end = omega arith

op_mload_wraps_example :
    (calc_memory_op_gas Opcode.mload filled ≡ ok 3)
    × ((op_mload filled).0 ≡ panic Fault.slice_out_of_range)
op_mload_wraps_example =
    op_mload_wraps filled last_address [] refl (uint64-lt last_address) at_end (omega arith)

-- The exponent 1 is charged for 32 bytes.
calc_exp_gas_odd_example : calc_exp_gas host (with_stack (small 1 ∷ (small 2 ∷ []))) ≡ ok 330
calc_exp_gas_odd_example =
    calc_exp_gas_odd host (with_stack (small 1 ∷ (small 2 ∷ []))) (replicate 31 0) 1 (small 2) []
      refl refl (λ e. omega arith)
