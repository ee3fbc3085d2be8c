-- ===== src/Core/Instructions/Valid/Memory.antt =====
-- The well-formed states under the memory instructions (purevm/core/instructions.go).
use offchain_com.Base.{
  ℕ, zero, suc, ◌+◌, ◌-◌, ◌%◌, ◌<◌, ◌≡◌, arith, [], ◌∷◌, All, length, List-cases, Bool-cases,
  Option-cases, inl, inr, get_or, take, drop, All-append, All-take, All-drop, All-set, leb, some,
  length-take, length-drop,
}
use offchain_com.Core.Word.{Word, Bytes, IsByte, IsWord, uint64, u64_mod}
use offchain_com.Core.Word.Convert.{uint64-lt}
use offchain_com.Core.State.{VmState, expand_memory, stack_pop}
use offchain_com.Core.State.Valid.{IsState, stack_push-IsState, expand_memory-IsState}
use offchain_com.Core.Instructions.{
  pop1, pop2, slice, copy_at, push_slice, load_at, op_mload, write_word, store_at, op_mstore,
  write_byte, store_byte_at, op_mstore8,
}
use offchain_com.Core.Instructions.Valid.{Keeps}

-- What `MLOAD` reads is a word.
slice-IsWord :
    (offset : ℕ) (mem value : Bytes)
    → All IsByte mem
    → slice offset ((offset + 32) % u64_mod) mem ≡ some value
    → offset < u64_mod
    → IsWord value
unfolding slice
slice-IsWord offset mem value h e lt =
    let bound = (offset + 32) % u64_mod in
    elim (Bool-cases (leb offset bound)) [
      | inr no_room ↦ ground arith
      | inl ordered ↦ elim (Bool-cases (leb bound (length mem))) [
        | inr no_room ↦ ground arith
        | inl inside ↦
            let w : Word = take (bound - offset) (drop offset mem) in
            let hw : IsWord w = record {
              width =
                  ground
                    (arith, length-take (bound - offset) (drop offset mem), length-drop offset mem);
              bytes =
                  All-take IsByte (bound - offset) (drop offset mem) (All-drop IsByte offset mem h);
            } in
            ground (arith, hw)
      ]
    ]

push_slice-IsState :
    (offset : ℕ) (s : VmState)
    → offset < u64_mod
    → IsState s
    → IsState (push_slice offset ((offset + 32) % u64_mod) s).1
unfolding push_slice
push_slice-IsState offset s lt h =
    elim (Option-cases (slice offset ((offset + 32) % u64_mod) s.memory)) [
      | inl e ↦ ground arith
      | inr (value, e) ↦ ground (
        arith,
        stack_push-IsState value s (slice-IsWord offset s.memory value h.memory_bytes e lt) h,
      )
    ]

load_at-IsState :
    (offset : ℕ) (s : VmState) → offset < u64_mod → IsState s → IsState (load_at offset s).1
unfolding load_at
load_at-IsState offset s lt h =
    let bound = (offset + 32) % u64_mod in
    ground (
      arith,
      expand_memory-IsState bound s h,
      push_slice-IsState offset (expand_memory bound s).1 lt,
    )

pub op_mload-Keeps : Keeps op_mload
unfolding op_mload pop1 stack_pop
op_mload-Keeps s h = elim (List-cases s.stack) [
  | inl e ↦ ground arith
  | inr (a, ws, e) ↦
      ground (arith, uint64-lt a, load_at-IsState (uint64 a) (record s { stack = ws }))
]

copy_at-All :
    (offset : ℕ) (value mem : Bytes)
    → All IsByte value
    → All IsByte mem
    → All IsByte (copy_at offset value mem)
unfolding copy_at
copy_at-All offset value mem hv hm = All-append IsByte _ _ (All-take IsByte offset mem hm) (
    All-append IsByte _ _ (All-take IsByte (length mem - offset) value hv)
      (All-drop IsByte (offset + length value) mem hm))

store_at-IsState :
    (offset : ℕ) (value : Word) (s : VmState)
    → IsWord value
    → IsState s
    → IsState (store_at offset value s).1
unfolding store_at write_word
store_at-IsState offset value s hv h =
    let t = (expand_memory ((offset + 32) % u64_mod) s).1 in
    let ht : IsState t = expand_memory-IsState ((offset + 32) % u64_mod) s h in
    ground (arith, ht, copy_at-All offset value t.memory hv.bytes ht.memory_bytes)

pub op_mstore-Keeps : Keeps op_mstore
unfolding op_mstore pop2 stack_pop
op_mstore-Keeps s h = elim (List-cases s.stack) [
  | inl e ↦ ground arith
  | inr (a, ws, e) ↦ elim (List-cases ws) [
    | inl e' ↦ ground arith
    | inr (v, vs, e') ↦ ground (arith, store_at-IsState (uint64 a) v (record s { stack = vs }))
  ]
]

byte_of : (w : Word) (i : ℕ) → All IsByte w → get_or w i 0 < 256
byte_of [] i h = omega arith
byte_of (x ∷ xs) zero h = h.0
byte_of (x ∷ xs) (suc i) h = byte_of xs i h.1

store_byte_at-IsState :
    (offset : ℕ) (value : Word) (s : VmState)
    → IsWord value
    → IsState s
    → IsState (store_byte_at offset value s).1
unfolding store_byte_at write_byte
store_byte_at-IsState offset value s hv h =
    let t = (expand_memory ((offset + 1) % u64_mod) s).1 in
    let ht : IsState t = expand_memory-IsState ((offset + 1) % u64_mod) s h in
    ground (
      arith,
      ht,
      All-set IsByte t.memory offset (get_or value 31 0) ht.memory_bytes
          (byte_of value 31 hv.bytes),
    )

pub op_mstore8-Keeps : Keeps op_mstore8
unfolding op_mstore8 pop2 stack_pop
op_mstore8-Keeps s h = elim (List-cases s.stack) [
  | inl e ↦ ground arith
  | inr (a, ws, e) ↦ elim (List-cases ws) [
    | inl e' ↦ ground arith
    | inr (v, vs, e') ↦ ground (arith, store_byte_at-IsState (uint64 a) v (record s { stack = vs }))
  ]
]
