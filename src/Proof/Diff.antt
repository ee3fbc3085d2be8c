-- ===== src/Proof/Diff.antt =====
-- The differences of two states (purevm/proof/transition.go): stacks, memories, and memory reads.
use offchain_com.Base.{
  ℕ, zero, suc, ◌+◌, ◌-◌, ◌%◌, Bool, true, false, ◌&&◌, List, [], ◌∷◌, ◌++◌, Option, none, some,
  leb, ltb, ◌==◌, if◌then◌else◌, length, get_or, take, drop, replicate, bytes_eq,
}
use offchain_com.Core.Word.{Bytes, Word, u64_mod, uint64}
use offchain_com.Core.Opcode
use offchain_com.Core.Opcode.{OpCode}
use offchain_com.Core.Action.{Fault, Result, ok, err, panic}
use offchain_com.Core.State.{VmState, max_int}
use offchain_com.Proof.Types.{MemAccess}

-- `readMemory`: the sum is one on `uint64`, and `make` and the slice can panic.
unfoldable pub read_memory : Bytes → ℕ → ℕ → Result Bytes
read_memory memory offset size =
    if ltb max_int size
    then panic Fault.makeslice
    else if leb (length memory) offset
    then ok (replicate size 0)
    else (let sum = (offset + size) % u64_mod in
        let end = if ltb (length memory) sum then length memory else sum in
        if ltb end offset
        then panic Fault.slice_out_of_range
        else ok (take (end - offset) (drop offset memory) ++ replicate (size - (end - offset)) 0))

-- `inferMemoryReads`
unfoldable pub infer_memory_reads : OpCode → VmState → Result (List MemAccess)
infer_memory_reads op s =
    if op == Opcode.mload
    then elim s.stack [
      | [] ↦ ok []
      | top ∷ _ ↦ elim (read_memory s.memory (uint64 top) 32) [
        | ok v ↦ ok (record { offset = uint64 top; size = 32; value = v } ∷ [])
        | err e ↦ err e
        | panic p ↦ panic p
      ]
    ]
    else ok []

-- `diffStacks`, on stacks that stand bottom first: what is behind the common prefix.
unfoldable pub diff_stacks : List Word → List Word → List Word × List Word
diff_stacks [] after = ([], after)
diff_stacks (a ∷ before) [] = (a ∷ before, [])
diff_stacks (a ∷ before) (b ∷ after) =
    let rest = diff_stacks before after in if bytes_eq a b then rest else (a ∷ before, b ∷ after)

-- The write `after[start:i]`. The slice panics behind the end of `after`, whose capacity is its
-- length, xs `make` and `Clone` leave it.
unfoldable pub write_at : Bytes → ℕ → ℕ → Result MemAccess
write_at after start i =
    if ltb (length after) i
    then panic Fault.slice_out_of_range
    else ok
        (record { offset = start; size = i - start; value = take (i - start) (drop start after) })

abbrev cons_write : Result MemAccess → Result (List MemAccess) → Result (List MemAccess)
cons_write (ok w) (ok ws) = ok (w ∷ ws)
cons_write (ok w) (err e) = err e
cons_write (ok w) (panic p) = panic p
cons_write (err e) r = err e
cons_write (panic p) r = panic p

abbrev start_at : Option ℕ → ℕ → ℕ
start_at none i = i
start_at (some k) i = k

-- The loop of `diffMemory` for `n` more positions from `i` on; `none` is the `start` of -1.
unfoldable pub diff_memory_from : Bytes → Bytes → ℕ → ℕ → Option ℕ → Result (List MemAccess)
diff_memory_from before after zero i none = ok []
diff_memory_from before after zero i (some k) = cons_write (write_at after k i) (ok [])
diff_memory_from before after (suc n) i start = elim (get_or before i 0 == get_or after i 0) [
  | false ↦ diff_memory_from before after n (suc i) (some (start_at start i))
  | true ↦ elim start [
    | none ↦ diff_memory_from before after n (suc i) none
    | some k ↦ cons_write (write_at after k i) (diff_memory_from before after n (suc i) none)
  ]
]

-- `diffMemory`
unfoldable pub diff_memory : Bytes → Bytes → Result (List MemAccess)
diff_memory before after =
    let max_len = if ltb (length before) (length after) then length after else length before in
    diff_memory_from before after max_len 0 none

-- `equalWords`
unfoldable pub equal_words : List Word → List Word → Bool
equal_words [] [] = true
equal_words [] (b ∷ bs) = false
equal_words (a ∷ xs) [] = false
equal_words (a ∷ xs) (b ∷ bs) = let rest = equal_words xs bs in bytes_eq a b && rest

abbrev equal_access : MemAccess → MemAccess → Bool
equal_access a b = a.offset == b.offset && (a.size == b.size && bytes_eq a.value b.value)

-- `equalMemAccesses`
unfoldable pub equal_mem_accesses : List MemAccess → List MemAccess → Bool
equal_mem_accesses [] [] = true
equal_mem_accesses [] (b ∷ bs) = false
equal_mem_accesses (a ∷ xs) [] = false
equal_mem_accesses (a ∷ xs) (b ∷ bs) =
    let rest = equal_mem_accesses xs bs in equal_access a b && rest
