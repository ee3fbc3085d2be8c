-- ===== src/Core/Step/Keeps.antt =====
-- The well-formed machines under the instructions (purevm/core/instructions.go).
use offchain_com.Base.{
  ◌≡◌, arith, [], ◌∷◌, All, List-cases, Bool-cases, Option-cases, inl, inr, some, eq_of_some, subst,
  ◌⨾◌, bytes_eq, if◌then◌else◌,
}
use offchain_com.Core.Word.{Word, Bytes, IsWord}
use offchain_com.Core.Word.Convert.{word_from_bytes-IsWord}
use offchain_com.Core.Action.{Host}
use offchain_com.Core.State.{VmState, clone, hash, stack_pop}
use offchain_com.Core.State.Valid.{IsState, stack_push-IsState}
use offchain_com.Core.Snapshot.{StandardSnapshot, new_standard_snapshot}
use offchain_com.Core.Machine.{Vm, Snapshots, lookup, insert, with_state, load_snapshot}
use offchain_com.Core.Operators.{
  add_word, mul_word, sub_word, exp_word, div_word, mod_word, shl_word, shr_word, sdiv_word,
  smod_word, lt_word, gt_word, slt_word, sgt_word, eq_word, sar_word, iszero_word, addmod_word,
  mulmod_word, signextend_word, and_word, or_word, xor_word, not_word, byte_word,
}
use offchain_com.Core.Operators.Words.{
  add_word-IsWord, mul_word-IsWord, sub_word-IsWord, exp_word-IsWord, div_word-IsWord,
  mod_word-IsWord, shl_word-IsWord, shr_word-IsWord, sdiv_word-IsWord, smod_word-IsWord,
  lt_word-IsWord, gt_word-IsWord, slt_word-IsWord, sgt_word-IsWord, eq_word-IsWord, sar_word-IsWord,
  iszero_word-IsWord, addmod_word-IsWord, mulmod_word-IsWord,
}
use offchain_com.Core.Operators.Bytewise.{
  and_word-IsWord, or_word-IsWord, xor_word-IsWord, not_word-IsWord, byte_word-IsWord,
  signextend_word-IsWord,
}
use offchain_com.Core.Instructions.{
  Instruction, StateAction, pop1, unary, binary, ternary, restore_from, op_stop, op_pop, op_mload,
  op_mstore, op_mstore8, op_msize, op_jump, op_jumpi, op_pc, op_gas, op_jumpdest, op_save,
  op_snapshot, op_restore, instruction_set,
}
use offchain_com.Core.Instructions.Valid.{
  Keeps, unary-Keeps, binary-Keeps, ternary-Keeps, op_pop-Keeps, op_msize-Keeps, op_jump-Keeps,
  op_jumpi-Keeps, op_pc-Keeps, op_gas-Keeps, op_jumpdest-Keeps,
}
use offchain_com.Core.Instructions.Valid.Memory.{op_mload-Keeps, op_mstore-Keeps, op_mstore8-Keeps}

-- The state at hand and the state of every snapshot taken are well formed.
pub record IsVm (vm : Vm) : Type 0 where
  pub current : IsState vm.state
  pub taken : All (λ e. IsState (e.1).state) vm.snapshots

abbrev pub KeepsVm : Instruction → Type 0
KeepsVm m = (vm : Vm) → IsVm vm → IsVm (m vm).1

pub with_state-KeepsVm : (m : StateAction) → Keeps m → KeepsVm (with_state m)
with_state-KeepsVm m hm vm h = record { current = hm vm.state h.current; taken = h.taken }

op_stop-KeepsVm : KeepsVm op_stop
unfolding op_stop
op_stop-KeepsVm vm h = record {
  current = record {
    depth = h.current.depth;
    words = h.current.words;
    memory_bytes = h.current.memory_bytes;
    code_bytes = h.current.code_bytes;
    code_fits = h.current.code_fits;
    pc_fits = omega (arith, h.current.code_fits);
    gas_fits = h.current.gas_fits;
    steps_fit = h.current.steps_fit;
  };
  taken = h.taken;
}

insert-All :
    (P : StandardSnapshot → Type 0) (k : Word) (v : StandardSnapshot) (m : Snapshots)
    → P v
    → All (λ e. P (e.1)) m
    → All (λ e. P (e.1)) (insert k v m)
unfolding insert
insert-All P k v [] hv hm = (hv, tt)
insert-All P k v ((j, w) ∷ m) hv hm = ground (arith, insert-All P k v m hv hm.1)

lookup-All :
    (P : StandardSnapshot → Type 0) (k : Word) (v : StandardSnapshot) (m : Snapshots)
    → All (λ e. P (e.1)) m
    → lookup k m ≡ some v
    → P v
unfolding lookup
lookup-All P k v [] hm e = cc
lookup-All P k v ((j, w) ∷ m) hm e = elim (Bool-cases (bytes_eq k j)) [
  | inl same ↦
      let e' : (if bytes_eq k j then some w else lookup k m) ≡ some v = e in
      let found : some w ≡ some v = rw same at e' in subst P (eq_of_some found) hm.0
  | inr differ ↦
      let e' : (if bytes_eq k j then some w else lookup k m) ≡ some v = e in
      lookup-All P k v m hm.1 (rw differ at e')
]

module _ (host : Host VmState) (hash_word : (b : Bytes) → IsWord (host.keccak256 b)) where
  op_save-Keeps : Keeps (op_save host)
  unfolding op_save hash
  op_save-Keeps s h = stack_push-IsState _ s (hash_word _) h

  op_snapshot-KeepsVm : KeepsVm (op_snapshot host)
  unfolding op_snapshot new_standard_snapshot hash clone
  op_snapshot-KeepsVm vm h = record {
    current =
        stack_push-IsState _ vm.state (word_from_bytes-IsWord _ (hash_word _).bytes) h.current;
    taken = insert-All (λ v. IsState v.state) _ _ vm.snapshots h.current h.taken;
  }

  load_snapshot-KeepsVm :
      (snap : StandardSnapshot) → IsState snap.state → KeepsVm (load_snapshot host snap)
  unfolding load_snapshot clone
  load_snapshot-KeepsVm snap hs vm h = ground arith

  restore_from-KeepsVm : (root : Word) → KeepsVm (restore_from host root)
  unfolding restore_from
  restore_from-KeepsVm root vm h = elim (Option-cases (lookup root vm.snapshots)) [
    | inl e ↦ ground arith
    | inr (snap, e) ↦ ground (
      arith,
      load_snapshot-KeepsVm snap
          (lookup-All (λ v. IsState v.state) root snap vm.snapshots h.taken e) vm h,
    )
  ]

  op_restore-KeepsVm : KeepsVm (op_restore host)
  unfolding op_restore pop1 stack_pop
  op_restore-KeepsVm vm h = elim (List-cases vm.state.stack) [
    | inl e ↦ ground arith
    | inr (w, ws, e) ↦ ground (
      arith,
      restore_from-KeepsVm (host.bytes_to_hash w)
          (record vm { state = record (vm.state) { stack = ws } }),
    )
  ]

  pub instruction_set-KeepsVm : All (λ e. KeepsVm (e.1)) (instruction_set host)
  unfolding instruction_set
  instruction_set-KeepsVm =
      op_stop-KeepsVm
      ⨾ with_state-KeepsVm (binary add_word)
          (binary-Keeps add_word (λ a b _ _. add_word-IsWord a b))
      ⨾ with_state-KeepsVm (binary mul_word)
          (binary-Keeps mul_word (λ a b _ _. mul_word-IsWord a b))
      ⨾ with_state-KeepsVm (binary sub_word)
          (binary-Keeps sub_word (λ a b _ _. sub_word-IsWord a b))
      ⨾ with_state-KeepsVm (binary div_word)
          (binary-Keeps div_word (λ a b _ _. div_word-IsWord a b))
      ⨾ with_state-KeepsVm (binary sdiv_word)
          (binary-Keeps sdiv_word (λ a b _ _. sdiv_word-IsWord a b))
      ⨾ with_state-KeepsVm (binary mod_word)
          (binary-Keeps mod_word (λ a b _ _. mod_word-IsWord a b))
      ⨾ with_state-KeepsVm (binary smod_word)
          (binary-Keeps smod_word (λ a b _ _. smod_word-IsWord a b))
      ⨾ with_state-KeepsVm (ternary addmod_word)
          (ternary-Keeps addmod_word (λ a b c _ _ _. addmod_word-IsWord a b c))
      ⨾ with_state-KeepsVm (ternary mulmod_word)
          (ternary-Keeps mulmod_word (λ a b c _ _ _. mulmod_word-IsWord a b c))
      ⨾ with_state-KeepsVm (binary exp_word)
          (binary-Keeps exp_word (λ a b _ _. exp_word-IsWord a b))
      ⨾ with_state-KeepsVm (binary signextend_word)
          (binary-Keeps signextend_word (λ a b _ hb. signextend_word-IsWord a b hb))
      ⨾ with_state-KeepsVm (binary lt_word) (binary-Keeps lt_word (λ a b _ _. lt_word-IsWord a b))
      ⨾ with_state-KeepsVm (binary gt_word) (binary-Keeps gt_word (λ a b _ _. gt_word-IsWord a b))
      ⨾ with_state-KeepsVm (binary slt_word)
          (binary-Keeps slt_word (λ a b _ _. slt_word-IsWord a b))
      ⨾ with_state-KeepsVm (binary sgt_word)
          (binary-Keeps sgt_word (λ a b _ _. sgt_word-IsWord a b))
      ⨾ with_state-KeepsVm (binary eq_word) (binary-Keeps eq_word (λ a b _ _. eq_word-IsWord a b))
      ⨾ with_state-KeepsVm (unary iszero_word)
          (unary-Keeps iszero_word (λ a _. iszero_word-IsWord a))
      ⨾ with_state-KeepsVm (binary and_word) (binary-Keeps and_word and_word-IsWord)
      ⨾ with_state-KeepsVm (binary or_word) (binary-Keeps or_word or_word-IsWord)
      ⨾ with_state-KeepsVm (binary xor_word) (binary-Keeps xor_word xor_word-IsWord)
      ⨾ with_state-KeepsVm (unary not_word) (unary-Keeps not_word not_word-IsWord)
      ⨾ with_state-KeepsVm (binary byte_word)
          (binary-Keeps byte_word (λ a b _ hb. byte_word-IsWord a b hb))
      ⨾ with_state-KeepsVm (binary shl_word)
          (binary-Keeps shl_word (λ a b _ _. shl_word-IsWord a b))
      ⨾ with_state-KeepsVm (binary shr_word)
          (binary-Keeps shr_word (λ a b _ _. shr_word-IsWord a b))
      ⨾ with_state-KeepsVm (binary sar_word)
          (binary-Keeps sar_word (λ a b _ _. sar_word-IsWord a b))
      ⨾ with_state-KeepsVm op_pop op_pop-Keeps
      ⨾ with_state-KeepsVm op_mload op_mload-Keeps
      ⨾ with_state-KeepsVm op_mstore op_mstore-Keeps
      ⨾ with_state-KeepsVm op_mstore8 op_mstore8-Keeps
      ⨾ with_state-KeepsVm op_msize op_msize-Keeps
      ⨾ with_state-KeepsVm op_jump op_jump-Keeps
      ⨾ with_state-KeepsVm op_jumpi op_jumpi-Keeps
      ⨾ with_state-KeepsVm op_pc op_pc-Keeps
      ⨾ with_state-KeepsVm op_gas op_gas-Keeps
      ⨾ with_state-KeepsVm op_jumpdest op_jumpdest-Keeps
      ⨾ with_state-KeepsVm (op_save host) op_save-Keeps
      ⨾ op_snapshot-KeepsVm
      ⨾ op_restore-KeepsVm
      ⨾ tt {0}
