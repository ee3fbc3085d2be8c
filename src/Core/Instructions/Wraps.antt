-- ===== src/Core/Instructions/Wraps.antt =====
-- A memory access at the end of the address space (purevm/core/instructions.go).
use offchain_com.Base.{ℕ, ◌+◌, ◌%◌, ◌≤◌, ◌<◌, ◌≡◌, ap, ◌∙◌, arith, List, ◌∷◌, length}
use offchain_com.Core.Word.{Word, u64_mod, uint64}
use offchain_com.Core.Opcode
use offchain_com.Core.Action.{Fault, Result, ok, panic, bind_ok}
use offchain_com.Core.State.{
  VmState, expand_memory, stack_pop, memory_expansion_cost, get_stack_depth,
}
use offchain_com.Core.Gas.{calc_memory_op_gas}
use offchain_com.Core.Instructions.{pop1, slice, push_slice, load_at, op_mload}

expand_small : (n : ℕ) (s : VmState) → n < 32 → (expand_memory n s).0 ≡ ok tt
unfolding expand_memory
expand_small n s h = ground arith

push_slice-panics :
    (offset bound : ℕ) (s : VmState)
    → bound < offset
    → (push_slice offset bound s).0 ≡ panic Fault.slice_out_of_range
unfolding push_slice slice
push_slice-panics offset bound s h = ground arith

load_at-panics :
    (offset : ℕ) (s : VmState)
    → offset < u64_mod
    → u64_mod ≤ offset + 32
    → (load_at offset s).0 ≡ panic Fault.slice_out_of_range
unfolding load_at
load_at-panics offset s h k =
    let bound = (offset + 32) % u64_mod in
    ap (λ (t : Result (Unit {0}) × VmState). t.0)
      (bind_ok (expand_memory bound) (λ _. push_slice offset bound) s tt (expand_memory bound s).1
        (ap (λ (x : Result (Unit {0})). (x, (expand_memory bound s).1))
          (expand_small bound s (omega arith))))
    ∙ push_slice-panics offset bound (expand_memory bound s).1 (omega arith)

op_mload-panics :
    (s : VmState) (w : Word) (ws : List Word)
    → s.stack ≡ w ∷ ws
    → uint64 w < u64_mod
    → u64_mod ≤ uint64 w + 32
    → (op_mload s).0 ≡ panic Fault.slice_out_of_range
unfolding op_mload pop1 stack_pop
op_mload-panics s w ws e h k =
    ground (arith, load_at-panics (uint64 w) (record s { stack = ws }) h k)

wrapped_price :
    (s : VmState) (w : Word) (ws : List Word)
    → s.stack ≡ w ∷ ws
    → uint64 w < u64_mod
    → u64_mod ≤ uint64 w + 32
    → 32 ≤ length s.memory
    → calc_memory_op_gas Opcode.mload s ≡ ok 3
unfolding calc_memory_op_gas memory_expansion_cost get_stack_depth
wrapped_price s w ws e h k m = ground arith

-- An `MLOAD` at one of the last 32 addresses of `uint64` is priced at 3 gas once the memory has 32
-- bytes, and then ends in a run-time panic instead of an error: address and length wrap.
pub op_mload_wraps :
    (s : VmState) (w : Word) (ws : List Word)
    → s.stack ≡ w ∷ ws
    → uint64 w < u64_mod
    → u64_mod ≤ uint64 w + 32
    → 32 ≤ length s.memory
    → (calc_memory_op_gas Opcode.mload s ≡ ok 3) × ((op_mload s).0 ≡ panic Fault.slice_out_of_range)
op_mload_wraps s w ws e h k m = (wrapped_price s w ws e h k m, op_mload-panics s w ws e h k)
