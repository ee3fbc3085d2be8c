-- ===== src/Core/Instructions/Growth.antt =====
-- The memory behind a memory operation (purevm/core/instructions.go).
use offchain_com.Base.{
  List-cases, inl, inr, ℕ, ◌+◌, ◌-◌, ◌%◌, ◌≤◌, ◌<◌, ◌≡◌, arith, List, ◌∷◌, length, length-append,
  length-replicate, replicate, get_or,
}
use offchain_com.Core.Word.{Word, u64_mod, uint64}
use offchain_com.Core.Action.{ok}
use offchain_com.Core.State.{VmState, max_int, expand_memory, stack_pop}
use offchain_com.Core.Instructions.{
  pop1, pop2, load_at, op_mload, store_at, op_mstore, store_byte_at, op_mstore8,
}
use offchain_com.Core.Instructions.Frame.{push_slice-Frames, write_word-Frames, write_byte-Frames}

-- The memory of `t` reaches up to `n`, which a slice can hold.
pub record Reaches (n : ℕ) (t : VmState) : Type 0 where
  pub inside : n ≤ length t.memory
  pub allocated : n ≤ max_int

expand_memory-Reaches :
    (n : ℕ) (s : VmState)
    → length s.memory < n
    → (expand_memory n s).0 ≡ ok tt
    → Reaches n (expand_memory n s).1
unfolding expand_memory
expand_memory-Reaches n s h e = ground (
  arith,
  length-append s.memory (replicate (n - length s.memory) 0),
  length-replicate {A = ℕ} (n - length s.memory) 0,
)

load_at-Reaches :
    (offset : ℕ) (s : VmState)
    → length s.memory < (offset + 32) % u64_mod
    → (load_at offset s).0 ≡ ok tt
    → Reaches ((offset + 32) % u64_mod) (load_at offset s).1
unfolding load_at
load_at-Reaches offset s h e =
    let n = (offset + 32) % u64_mod in
    ground (arith, expand_memory-Reaches n s h, push_slice-Frames offset n (expand_memory n s).1)

store_at-Reaches :
    (offset : ℕ) (value : Word) (s : VmState)
    → length s.memory < (offset + 32) % u64_mod
    → (store_at offset value s).0 ≡ ok tt
    → Reaches ((offset + 32) % u64_mod) (store_at offset value s).1
unfolding store_at
store_at-Reaches offset value s h e =
    let n = (offset + 32) % u64_mod in
    ground
      (arith, expand_memory-Reaches n s h, write_word-Frames offset value (expand_memory n s).1)

store_byte_at-Reaches :
    (offset : ℕ) (value : Word) (s : VmState)
    → length s.memory < (offset + 1) % u64_mod
    → (store_byte_at offset value s).0 ≡ ok tt
    → Reaches ((offset + 1) % u64_mod) (store_byte_at offset value s).1
unfolding store_byte_at
store_byte_at-Reaches offset value s h e =
    let n = (offset + 1) % u64_mod in
    ground (
      arith,
      expand_memory-Reaches n s h,
      write_byte-Frames offset (get_or value 31 0) (expand_memory n s).1,
    )

module _ (s : VmState) (w : Word) (ws : List Word) (shape : s.stack ≡ w ∷ ws) where
  pub op_mload-Reaches :
      length s.memory < (uint64 w + 32) % u64_mod
      → (op_mload s).0 ≡ ok tt
      → Reaches ((uint64 w + 32) % u64_mod) (op_mload s).1
  unfolding op_mload pop1 stack_pop
  op_mload-Reaches h e = ground (arith, load_at-Reaches (uint64 w) (record s { stack = ws }))

  pub op_mstore-Reaches :
      length s.memory < (uint64 w + 32) % u64_mod
      → (op_mstore s).0 ≡ ok tt
      → Reaches ((uint64 w + 32) % u64_mod) (op_mstore s).1
  unfolding op_mstore pop2 stack_pop
  op_mstore-Reaches h e = elim (List-cases ws) [
    | inl e' ↦ ground arith
    | inr (v, vs, e') ↦ ground (arith, store_at-Reaches (uint64 w) v (record s { stack = vs }))
  ]

  pub op_mstore8-Reaches :
      length s.memory < (uint64 w + 1) % u64_mod
      → (op_mstore8 s).0 ≡ ok tt
      → Reaches ((uint64 w + 1) % u64_mod) (op_mstore8 s).1
  unfolding op_mstore8 pop2 stack_pop
  op_mstore8-Reaches h e = elim (List-cases ws) [
    | inl e' ↦ ground arith
    | inr (v, vs, e') ↦ ground (arith, store_byte_at-Reaches (uint64 w) v (record s { stack = vs }))
  ]
