-- ===== src/Core/State.antt =====
-- The state of the virtual machine (purevm/core/state.go).
pub mod Valid
pub mod Collision
use offchain_com.Base.{
  ℕ, zero, suc, ◌+◌, ◌*◌, ◌/◌, ◌%◌, ◌-◌, ◌^◌, ◌≡◌, Bool, true, false, List, [], ◌∷◌, ◌++◌, reverse,
  Option, none, some, leb, ltb, ◌==◌, if◌then◌else◌, length, get_elem?, take, drop, replicate,
  bytes_eq,
}
use offchain_com.Base.Int.{ℤ}
use offchain_com.Core.Word.{Bytes, Word, u64_mod}
use offchain_com.Core.Text.{codes, print_uint, hex_encode}
use offchain_com.Core.Action.{
  Error, Fault, stack_overflow, stack_underflow, code_hash_mismatch, Result, ok, err, Action, pure,
  fail, fault, gets, modify, Host, ◌>>=◌, ◌>>◌,
}

-- `VMState`. The head of `stack` is the top of the stack, which is the last element of Go's slice.
-- A nil slice and an empty one are both `[]`.
pub record VmState : Type 0 where
  pub pc : ℕ
  pub stack : List Word
  pub memory : Bytes
  pub gas : ℕ
  pub refund : ℕ
  pub code : Bytes
  pub code_hash : Word
  pub step_count : ℕ
  pub call_value : Option ℤ
  pub call_data : Bytes

-- `VMState.Clone`: a copy of every field, into new slices.
unfoldable pub clone : VmState → VmState
clone s = record {
  pc = s.pc;
  stack = s.stack;
  memory = s.memory;
  gas = s.gas;
  refund = s.refund;
  code = s.code;
  code_hash = s.code_hash;
  step_count = s.step_count;
  call_value = s.call_value;
  call_data = s.call_data;
}

-- `Word.Hex`
unfoldable pub word_hex : Word → Bytes
word_hex w = codes "0x" ++ hex_encode w

abbrev quoted : Bytes → Bytes
quoted s = b'"' ∷ (s ++ b'"' ∷ [])

-- The elements of a JSON array of texts, behind the first one.
unfoldable pub json_tail : List Word → Bytes
json_tail [] = b']' ∷ []
json_tail (w ∷ ws) = b',' ∷ (b'"' ∷ (word_hex w ++ b'"' ∷ json_tail ws))

unfoldable pub json_words : List Word → Bytes
json_words [] = b'[' ∷ b']' ∷ []
json_words (w ∷ ws) = b'[' ∷ (b'"' ∷ (word_hex w ++ b'"' ∷ json_tail ws))

module _ (host : Host VmState) where
  -- `NewState`
  unfoldable pub new_state : Bytes → ℕ → VmState
  new_state code gas_limit = record {
    pc = 0;
    stack = [];
    memory = [];
    gas = gas_limit;
    refund = 0;
    code = code;
    code_hash = host.keccak256 code;
    step_count = 0;
    call_value = none;
    call_data = [];
  }

  -- `VMState.SerializeCanonical`: JSON with the fields in the order of the Go type, no spaces, and
  -- the stack from its bottom.
  unfoldable pub serialize_canonical : VmState → Bytes
  serialize_canonical s =
      codes "{\"pc\":"
      ++ (print_uint s.pc
          ++ (codes ",\"stack\":"
              ++ (json_words (reverse s.stack)
                  ++ (codes ",\"memory\":\"0x"
                      ++ (host.bytes_to_hex s.memory
                          ++ (codes "\",\"gas\":"
                              ++ (print_uint s.gas
                                  ++ (codes ",\"refund\":"
                                      ++ (print_uint s.refund
                                          ++ (codes ",\"code_hash\":\""
                                              ++ (host.hash_hex s.code_hash
                                                  ++ (codes "\",\"step_count\":"
                                                      ++ (print_uint s.step_count
                                                          ++ codes "}")))))))))))))

  -- `VMState.Hash`
  unfoldable pub hash : VmState → Word
  hash s = host.keccak256 (serialize_canonical s)

  -- `VMState.VerifyCodeHash`
  unfoldable pub verify_code_hash : VmState → Result (Unit {0})
  verify_code_hash s =
      let actual = host.keccak256 s.code in
      if bytes_eq actual s.code_hash then ok tt else err (code_hash_mismatch actual s.code_hash)

-- The total cost of a memory of `words` words, in `uint64`.
unfoldable pub memory_total : ℕ → ℕ
memory_total words = (words * words % u64_mod / 512 + 3 * words) % u64_mod

-- `VMState.MemoryExpansionCost`: every operation is one on `uint64`.
unfoldable pub memory_expansion_cost : ℕ → VmState → ℕ
memory_expansion_cost new_size s =
    let old_size = length s.memory in
    if leb new_size old_size
    then 0
    else (memory_total ((new_size + 31) % u64_mod / 32)
        + u64_mod
        - memory_total ((old_size + 31) % u64_mod / 32))
      % u64_mod

-- The longest slice that `make` allocates: a longer one is a run-time panic. Running out of memory
-- below that length is not modelled.
abbrev pub max_int : ℕ
max_int = 2 ^ 63 - 1

-- `VMState.ExpandMemory`
unfoldable pub expand_memory : ℕ → Action VmState (Unit {0})
expand_memory new_size s =
    if ltb (length s.memory) new_size
    then if ltb max_int new_size
      then fault Fault.makeslice s
      else (ok tt, record s { memory = s.memory ++ replicate (new_size - length s.memory) 0 })
    else (ok tt, s)

-- `VMState.StackPush`
unfoldable pub stack_push : Word → Action VmState (Unit {0})
stack_push w s =
    if leb 1024 (length s.stack)
    then fail stack_overflow s
    else (ok tt, record s { stack = w ∷ s.stack })

-- `VMState.StackPop`
unfoldable pub stack_pop : Action VmState Word
stack_pop s = elim s.stack [
  | [] ↦ fail stack_underflow s
  | w ∷ ws ↦ (ok w, record s { stack = ws })
]

-- `VMState.StackPeek`
unfoldable pub stack_peek : Action VmState Word
stack_peek s = elim s.stack [ [] ↦ fail stack_underflow s | w ∷ ws ↦ (ok w, s) ]

-- `VMState.GetStackDepth`
unfoldable pub get_stack_depth : VmState → ℕ
get_stack_depth s = length s.stack
