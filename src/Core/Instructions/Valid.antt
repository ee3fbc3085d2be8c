-- ===== src/Core/Instructions/Valid.antt =====
-- The well-formed states under the instructions (purevm/core/instructions.go).
pub mod Memory
use offchain_com.Base.{
  ℕ, zero, suc, ◌+◌, ◌-◌, ◌%◌, ◌≤◌, ◌<◌, ◌≡◌, arith, List, [], ◌∷◌, ◌++◌, All, length, List-cases,
  Bool-cases, Option-cases, inl, inr, get_elem?, get_or, set, take, drop, replicate, All-append,
  All-take, All-drop, All-set, All-replicate, All-get_elem?, leb, some, length-append,
  length-replicate, length-take, length-drop, length-set,
}
use offchain_com.Core.Word.{Word, Bytes, IsByte, IsWord, uint64, u64_mod, zero_word}
use offchain_com.Core.Word.Convert.{zero_word-IsWord, word_from_uint64-IsWord, uint64-lt}
use offchain_com.Core.Opcode
use offchain_com.Core.Opcode.{OpCode, push_size, is_push}
use offchain_com.Core.Action.{Error, ◌>>◌}
use offchain_com.Core.State.{VmState, expand_memory, stack_push, stack_pop}
use offchain_com.Core.State.Valid.{IsState, stack_push-IsState, expand_memory-IsState}
use offchain_com.Core.Instructions.{
  StateAction, skip, pop1, pop2, pop3, unary, binary, ternary, op_pop, slice, copy_at, push_slice,
  load_at, op_mload, write_word, store_at, op_mstore, write_byte, store_byte_at, op_mstore8,
  op_msize, jump_to, op_jump, op_jumpi, op_pc, op_gas, op_jumpdest, execute_push, execute_dup,
  execute_swap,
}

abbrev pub Keeps : StateAction → Type 0
Keeps m = (s : VmState) → IsState s → IsState (m s).1

pub unary-Keeps : (f : Word → Word) → ((a : Word) → IsWord a → IsWord (f a)) → Keeps (unary f)
unfolding unary pop1 stack_pop
unary-Keeps f hf s h = elim (List-cases s.stack) [
  | inl e ↦ ground arith
  | inr (a, ws, e) ↦ ground (arith, hf a, stack_push-IsState (f a) (record s { stack = ws }))
]

pub binary-Keeps :
    (f : Word → Word → Word)
    → ((a b : Word) → IsWord a → IsWord b → IsWord (f a b))
    → Keeps (binary f)
unfolding binary pop2 stack_pop
binary-Keeps f hf s h = elim (List-cases s.stack) [
  | inl e ↦ ground arith
  | inr (a, ws, e) ↦ elim (List-cases ws) [
    | inl e' ↦ ground arith
    | inr (b, vs, e') ↦ ground (arith, hf a b, stack_push-IsState (f a b) (record s { stack = vs }))
  ]
]

pub ternary-Keeps :
    (f : Word → Word → Word → Word)
    → ((a b c : Word) → IsWord a → IsWord b → IsWord c → IsWord (f a b c))
    → Keeps (ternary f)
unfolding ternary pop3 pop2 stack_pop
ternary-Keeps f hf s h = elim (List-cases s.stack) [
  | inl e ↦ ground arith
  | inr (a, ws, e) ↦ elim (List-cases ws) [
    | inl e' ↦ ground arith
    | inr (b, vs, e') ↦ elim (List-cases vs) [
      | inl e'' ↦ ground arith
      | inr (c, us, e'') ↦
          ground (arith, hf a b c, stack_push-IsState (f a b c) (record s { stack = us }))
    ]
  ]
]

pub op_pop-Keeps : Keeps op_pop
unfolding op_pop stack_pop
op_pop-Keeps s h = ground arith

pub op_msize-Keeps : Keeps op_msize
unfolding op_msize
op_msize-Keeps s = stack_push-IsState _ s (word_from_uint64-IsWord _)

pub op_pc-Keeps : Keeps op_pc
unfolding op_pc
op_pc-Keeps s = stack_push-IsState _ s (word_from_uint64-IsWord _)

pub op_gas-Keeps : Keeps op_gas
unfolding op_gas
op_gas-Keeps s = stack_push-IsState _ s (word_from_uint64-IsWord _)

pub op_jumpdest-Keeps : Keeps op_jumpdest
unfolding op_jumpdest
op_jumpdest-Keeps s h = h

jump_to-Keeps : (o i : ℕ → Error) (dest : ℕ) → dest < u64_mod → Keeps (jump_to o i dest)
unfolding jump_to
jump_to-Keeps o i dest lt s h = ground arith

pub op_jump-Keeps : Keeps op_jump
unfolding op_jump pop1 stack_pop jump_to
op_jump-Keeps s h = elim (List-cases s.stack) [
  | inl e ↦ ground arith
  | inr (a, ws, e) ↦ ground (arith, uint64-lt a)
]

pub op_jumpi-Keeps : Keeps op_jumpi
unfolding op_jumpi pop2 stack_pop jump_to
op_jumpi-Keeps s h = elim (List-cases s.stack) [
  | inl e ↦ ground arith
  | inr (a, ws, e) ↦ ground (arith, uint64-lt a)
]

-- The word of a push: its bytes from the code behind zeros.
pushed-IsWord :
    (n : ℕ) (b : Bytes)
    → n ≤ 32
    → n ≤ length b
    → All IsByte b
    → IsWord (replicate (32 - n) 0 ++ take n b)
pushed-IsWord n b le room h = record {
  width = omega (
    arith,
    length-append (replicate (32 - n) 0) (take n b),
    length-replicate {A = ℕ} (32 - n) 0,
    length-take n b,
  );
  bytes =
      All-append IsByte _ _ (All-replicate IsByte (32 - n) 0 (omega arith)) (All-take IsByte n b h);
}

push_size-le : (op : OpCode) → push_size op ≤ 32
unfolding push_size is_push
push_size-le op = ground arith

skipped :
    (n : ℕ) (w : Word) (s : VmState)
    → IsState (stack_push w s).1
    → IsState ((stack_push w >> skip n) s).1
unfolding skip
skipped n w s h = ground arith

-- `Step` calls it inside the code.
pub execute_push-Keeps :
    (op : OpCode) (s : VmState) → s.pc < length s.code → IsState s → IsState (execute_push op s).1
unfolding execute_push skip
execute_push-Keeps op s inside h =
    let n = push_size op in
    elim (Bool-cases (leb (length s.code) ((s.pc + n) % u64_mod))) [
      | inl e ↦ rw (e, execute_push) h
      | inr e ↦
          let b = drop (s.pc + 1) s.code in
          let w : Word = replicate (32 - n) 0 ++ take n b in
          let room : n ≤ length b =
            ground
              (arith, length-drop (s.pc + 1) s.code, push_size-le op, h.code_fits, h.pc_fits) in
          let hw : IsWord w =
            pushed-IsWord n b (push_size-le op) room
              (All-drop IsByte (s.pc + 1) s.code h.code_bytes) in
          rw (e, execute_push) (skipped n w s (stack_push-IsState w s hw h))
    ]

pub execute_dup-Keeps : (op : OpCode) → Keeps (execute_dup op)
unfolding execute_dup
execute_dup-Keeps op s h = elim (Option-cases (get_elem? s.stack (op - Opcode.dup1))) [
  | inl e ↦ ground arith
  | inr (w, e) ↦ ground (arith, stack_push-IsState w s (All-get_elem? IsWord s.stack _ w h.words e))
]

get_or-IsWord : (xs : List Word) → All IsWord xs → IsWord (get_or xs 0 zero_word)
get_or-IsWord [] h = zero_word-IsWord
get_or-IsWord (x ∷ xs) h = h.0

pub execute_swap-Keeps : (op : OpCode) → Keeps (execute_swap op)
unfolding execute_swap
execute_swap-Keeps op s h =
    let idx = op - Opcode.swap1 + 1 in
    let top = get_or s.stack 0 zero_word in
    elim (Option-cases (get_elem? s.stack idx)) [
      | inl e ↦ ground arith
      | inr (w, e) ↦ ground (
        arith,
        All-set IsWord (set s.stack idx top) 0 w
            (All-set IsWord s.stack idx top h.words (get_or-IsWord s.stack h.words))
            (All-get_elem? IsWord s.stack idx w h.words e),
        length-set (set s.stack idx top) 0 w,
        length-set s.stack idx top,
      )
    ]
