-- ===== src/Core/State/Valid.antt =====
-- The well-formed states: what the Go types and the checks of `StackPush` (purevm/core/state.go)
-- promise of a state.
use offchain_com.Base.{
  ℕ, ◌-◌, ◌≤◌, ◌<◌, ◌≡◌, refl, arith, List, All, length, replicate, All-append, All-replicate,
}
use offchain_com.Core.Word.{Word, IsByte, IsWord, u64_mod}
use offchain_com.Core.Action.{Host}
use offchain_com.Core.State.{VmState, max_int, expand_memory, stack_push, new_state, clone}

-- At most 1024 words on the stack, bytes in memory and code, a code that a slice can hold, and
-- counters that fit `uint64`.
pub record IsState (s : VmState) : Type 0 where
  pub depth : length s.stack ≤ 1024
  pub words : All IsWord s.stack
  pub memory_bytes : All IsByte s.memory
  pub code_bytes : All IsByte s.code
  pub code_fits : length s.code ≤ max_int
  pub pc_fits : s.pc < u64_mod
  pub gas_fits : s.gas < u64_mod
  pub steps_fit : s.step_count < u64_mod

pub stack_push-IsState :
    (w : Word) (s : VmState) → IsWord w → IsState s → IsState (stack_push w s).1
unfolding stack_push
stack_push-IsState w s hw h = ground arith

pub expand_memory-IsState : (n : ℕ) (s : VmState) → IsState s → IsState (expand_memory n s).1
unfolding expand_memory
expand_memory-IsState n s h = ground (
  arith,
  All-append IsByte s.memory (replicate (n - length s.memory) 0) h.memory_bytes
      (All-replicate IsByte (n - length s.memory) 0 (omega arith)),
)

pub new_state-IsState :
    (host : Host VmState) (code : List ℕ) (gas_limit : ℕ)
    → All IsByte code
    → length code ≤ max_int
    → gas_limit < u64_mod
    → IsState (new_state host code gas_limit)
unfolding new_state
new_state-IsState host code gas_limit hc hl hg = record {
  depth = omega arith;
  words = tt;
  memory_bytes = tt;
  code_bytes = hc;
  code_fits = hl;
  pc_fits = omega arith;
  gas_fits = hg;
  steps_fit = omega arith;
}

-- A clone is the state itself, as a value.
pub clone_lem : (s : VmState) → clone s ≡ s
unfolding clone
clone_lem s = refl
