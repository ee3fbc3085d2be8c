-- ===== src/Vmcli/Countdown/Body.antt =====
-- The instructions of the counting loop (purevm/cmd/vmcli/main.go), one after the other.
use offchain_com.Base.{ℕ, ◌≡◌, refl, ap, arith, [], ◌∷◌, ◌++◌, replicate}
use offchain_com.Core.Word.{Word, set_bytes, fill_bytes, is_zero, uint64, big_int, zero_word}
use offchain_com.Core.Opcode.{is_push, is_dup, is_swap, push_size}
use offchain_com.Core.Action.{ok, Host}
use offchain_com.Core.State.{VmState, stack_push, stack_pop}
use offchain_com.Core.Gas.{one_of, calc_opcode_cost}
use offchain_com.Core.Operators.{iszero_word, sub_word}
use offchain_com.Core.Instructions.{
  unary, binary, pop1, pop2, jump_to, op_jump, op_jumpi, op_jumpdest, execute_push, execute_dup,
  skip, instruction_set, find_instruction,
}
use offchain_com.Core.Step.{next_pc, execute}
use offchain_com.Vmcli.Countdown.{build_countdown_loop}
use offchain_com.Vmcli.Countdown.Steps.{Goes, goes}

-- A word of one byte, as `PUSH1` pushes it.
abbrev pub small : ℕ → Word
small b = replicate 31 0 ++ b ∷ []

module _ (host : Host VmState) (chain_id n : ℕ) where
  pub start_push : Goes host chain_id n 0 ([]) 3 5 ((replicate 28 0 ++ fill_bytes 4 n []) ∷ [])
  unfolding build_countdown_loop fill_bytes calc_opcode_cost one_of is_push is_dup is_swap push_size
      execute instruction_set find_instruction next_pc execute_push stack_push skip
  start_push =
      goes host chain_id n 0x63 0 3 4 5 ([]) ((replicate 28 0 ++ fill_bytes 4 n []) ∷ []) refl
        (λ gas count. refl) (λ gas count trace. refl) refl (omega arith)

  module _ (w : Word) where
    pub loop_jumpdest : host.jumpdest_gas ≡ 1 → Goes host chain_id n 5 (w ∷ []) 1 6 (w ∷ [])
    unfolding build_countdown_loop fill_bytes calc_opcode_cost one_of is_push is_dup is_swap
        push_size execute instruction_set find_instruction next_pc op_jumpdest
    loop_jumpdest jumpdest_paid =
        goes host chain_id n 0x5b 5 1 5 6 (w ∷ []) (w ∷ []) refl (λ gas count. ap ok jumpdest_paid)
          (λ gas count trace. refl) refl (omega arith)

    pub loop_dup : Goes host chain_id n 6 (w ∷ []) 3 7 (w ∷ w ∷ [])
    unfolding build_countdown_loop fill_bytes calc_opcode_cost one_of is_push is_dup is_swap
        push_size execute instruction_set find_instruction next_pc execute_dup stack_push
    loop_dup =
        goes host chain_id n 0x80 6 3 6 7 (w ∷ []) (w ∷ w ∷ []) refl (λ gas count. refl)
          (λ gas count trace. refl) refl (omega arith)

    pub loop_iszero : Goes host chain_id n 7 (w ∷ w ∷ []) 3 8 (iszero_word w ∷ w ∷ [])
    unfolding build_countdown_loop fill_bytes calc_opcode_cost one_of is_push is_dup is_swap
        push_size execute instruction_set find_instruction next_pc unary pop1 stack_pop stack_push
    loop_iszero =
        goes host chain_id n 0x15 7 3 7 8 (w ∷ w ∷ []) (iszero_word w ∷ w ∷ []) refl
          (λ gas count. refl) (λ gas count trace. refl) refl (omega arith)

    pub exit_push : (f : Word) → Goes host chain_id n 8 (f ∷ w ∷ []) 3 10 (small 0x11 ∷ f ∷ w ∷ [])
    unfolding build_countdown_loop fill_bytes calc_opcode_cost one_of is_push is_dup is_swap
        push_size execute instruction_set find_instruction next_pc execute_push stack_push skip
    exit_push f =
        goes host chain_id n 0x60 8 3 9 10 (f ∷ w ∷ []) (small 0x11 ∷ f ∷ w ∷ []) refl
          (λ gas count. refl) (λ gas count trace. refl) refl (omega arith)

    pub exit_skipped : Goes host chain_id n 10 (small 0x11 ∷ zero_word ∷ w ∷ []) 10 11 (w ∷ [])
    unfolding build_countdown_loop fill_bytes calc_opcode_cost one_of is_push is_dup is_swap
        push_size execute instruction_set find_instruction next_pc op_jumpi pop2 stack_pop jump_to
        is_zero uint64 big_int set_bytes zero_word
    exit_skipped =
        goes host chain_id n 0x57 10 10 10 11 (small 0x11 ∷ zero_word ∷ w ∷ []) (w ∷ []) refl
          (λ gas count. refl) (λ gas count trace. refl) refl (omega arith)

    pub exit_taken : Goes host chain_id n 10 (small 0x11 ∷ small 1 ∷ w ∷ []) 10 17 (w ∷ [])
    unfolding build_countdown_loop fill_bytes calc_opcode_cost one_of is_push is_dup is_swap
        push_size execute instruction_set find_instruction next_pc op_jumpi pop2 stack_pop jump_to
        is_zero uint64 big_int set_bytes zero_word
    exit_taken =
        goes host chain_id n 0x57 10 10 17 17 (small 0x11 ∷ small 1 ∷ w ∷ []) (w ∷ []) refl
          (λ gas count. refl) (λ gas count trace. refl) refl (omega arith)

    pub one_push : Goes host chain_id n 11 (w ∷ []) 3 13 (small 1 ∷ w ∷ [])
    unfolding build_countdown_loop fill_bytes calc_opcode_cost one_of is_push is_dup is_swap
        push_size execute instruction_set find_instruction next_pc execute_push stack_push skip
    one_push =
        goes host chain_id n 0x60 11 3 12 13 (w ∷ []) (small 1 ∷ w ∷ []) refl (λ gas count. refl)
          (λ gas count trace. refl) refl (omega arith)

    pub loop_sub : Goes host chain_id n 13 (small 1 ∷ w ∷ []) 3 14 (sub_word (small 1) w ∷ [])
    unfolding build_countdown_loop fill_bytes calc_opcode_cost one_of is_push is_dup is_swap
        push_size execute instruction_set find_instruction next_pc binary pop2 stack_pop stack_push
    loop_sub =
        goes host chain_id n 0x03 13 3 13 14 (small 1 ∷ w ∷ []) (sub_word (small 1) w ∷ []) refl
          (λ gas count. refl) (λ gas count trace. refl) refl (omega arith)

    pub back_push : Goes host chain_id n 14 (w ∷ []) 3 16 (small 5 ∷ w ∷ [])
    unfolding build_countdown_loop fill_bytes calc_opcode_cost one_of is_push is_dup is_swap
        push_size execute instruction_set find_instruction next_pc execute_push stack_push skip
    back_push =
        goes host chain_id n 0x60 14 3 15 16 (w ∷ []) (small 5 ∷ w ∷ []) refl (λ gas count. refl)
          (λ gas count trace. refl) refl (omega arith)

    pub back_jump : Goes host chain_id n 16 (small 5 ∷ w ∷ []) 8 5 (w ∷ [])
    unfolding build_countdown_loop fill_bytes calc_opcode_cost one_of is_push is_dup is_swap
        push_size execute instruction_set find_instruction next_pc op_jump pop1 stack_pop jump_to
        is_zero uint64 big_int set_bytes
    back_jump =
        goes host chain_id n 0x56 16 8 5 5 (small 5 ∷ w ∷ []) (w ∷ []) refl (λ gas count. refl)
          (λ gas count trace. refl) refl (omega arith)

    pub exit_jumpdest : host.jumpdest_gas ≡ 1 → Goes host chain_id n 17 (w ∷ []) 1 18 (w ∷ [])
    unfolding build_countdown_loop fill_bytes calc_opcode_cost one_of is_push is_dup is_swap
        push_size execute instruction_set find_instruction next_pc op_jumpdest
    exit_jumpdest jumpdest_paid =
        goes host chain_id n 0x5b 17 1 17 18 (w ∷ []) (w ∷ []) refl
          (λ gas count. ap ok jumpdest_paid) (λ gas count trace. refl) refl (omega arith)
