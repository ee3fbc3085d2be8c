-- ===== src/Core/Gas/Price.antt =====
-- Which operations are free (purevm/core/gas_table.go).
use offchain_com.Base.{
  ℕ, ◌+◌, ◌*◌, ◌%◌, ◌≤◌, ◌<◌, ◌≡◌, ◌≢◌, ◌⊎◌, inl, inr, refl, true, arith, List, [], ◌∷◌, length,
  length-append, reverse, ap, ◌∙◌, All, Bool-cases, List-cases, subst, leb,
}
use mathlib.Core.List.{reverse-append}
use offchain_com.Core.Word.{Word, IsWord, u64_mod, uint64}
use offchain_com.Core.Opcode
use offchain_com.Core.Opcode.{OpCode, is_push, is_dup, is_swap}
use offchain_com.Core.Action.{ok, Host}
use offchain_com.Core.State.{VmState, memory_expansion_cost}
use offchain_com.Core.Gas.{
  one_of, exp_bytes, exp_bytes_from, calc_exp_gas, access_size, calc_memory_op_gas,
  calc_opcode_cost,
}

-- The constants of go-ethereum that the table uses are positive, and the dearest `EXP` does not wrap.
pub record PositiveGas (host : Host VmState) : Type 0 where
  pub jumpdest_paid : 0 < host.jumpdest_gas
  pub exp_paid : 0 < host.exp_gas
  pub exp_fits : (n : ℕ) → n ≤ 32 → host.exp_gas + n * host.exp_byte_gas < u64_mod

-- A memory operation that is free: its price wrapped to 0, which takes a larger memory.
pub record FreeMemory (op : OpCode) (s : VmState) : Type 0 where
  pub operation : one_of (Opcode.mload ∷ Opcode.mstore ∷ Opcode.mstore8 ∷ []) op ≡ true
  pub top : Word
  pub below : List Word
  pub shape : s.stack ≡ top ∷ below
  pub larger : length s.memory < (uint64 top + access_size op) % u64_mod

memory_expansion_cost_within :
    (n : ℕ) (s : VmState) → n ≤ length s.memory → memory_expansion_cost n s ≡ 0
unfolding memory_expansion_cost
memory_expansion_cost_within n s h = ground arith

free_memory :
    (op : OpCode) (s : VmState)
    → one_of (Opcode.mload ∷ Opcode.mstore ∷ Opcode.mstore8 ∷ []) op ≡ true
    → calc_memory_op_gas op s ≡ ok 0
    → FreeMemory op s
unfolding calc_memory_op_gas
free_memory op s isop h = elim (List-cases s.stack) [
  | inl e ↦ ground arith
  | inr (w, ws, e) ↦ record {
    operation = isop;
    top = w;
    below = ws;
    shape = e;
    larger = elim (Bool-cases (leb ((uint64 w + access_size op) % u64_mod) (length s.memory))) [
      | inl small ↦ ground (
        arith,
        memory_expansion_cost_within ((uint64 w + access_size op) % u64_mod) s (ground arith),
      )
      | inr large ↦ ground arith
    ];
  }
]

exp_bytes-le : (bs : List ℕ) → exp_bytes_from bs ≤ length bs
unfolding exp_bytes_from
exp_bytes-le [] = omega arith
exp_bytes-le (b ∷ bs) = ground (arith, exp_bytes-le bs)

pub length-reverse : (xs : List ℕ) → length (reverse xs) ≡ length xs
length-reverse [] = refl
length-reverse (x ∷ xs) =
    ap length (reverse-append (x ∷ []) xs)
    ∙ omega (arith, length-append (reverse xs) (x ∷ []), length-reverse xs)

pub IsWord-exp_bytes : (w : Word) → IsWord w → exp_bytes w ≤ 32
unfolding exp_bytes
IsWord-exp_bytes w h = omega (arith, exp_bytes-le (reverse w), length-reverse w, h.width)

-- An operation priced 0 is `STOP` or `INVALID`, or a memory operation whose price wrapped.
pub data IsFree (op : OpCode) (s : VmState) : Type 0 where
  halting : one_of (Opcode.stop ∷ Opcode.invalid ∷ []) op ≡ true → IsFree op s
  wrapped : FreeMemory op s → IsFree op s
  taken : op ≡ Opcode.snapshot → IsFree op s

exp_paid :
    (host : Host VmState) (s : VmState)
    → PositiveGas host
    → All (λ w. exp_bytes w ≤ 32) s.stack
    → calc_exp_gas host s ≢ ok 0
unfolding calc_exp_gas
exp_paid host s p hw h = elim (List-cases s.stack) [
  | inl e ↦ ground arith
  | inr (w, ws, e) ↦
      let hw' : All (λ w. exp_bytes w ≤ 32) (w ∷ ws) = subst (All (λ w. exp_bytes w ≤ 32)) e hw in
      ground (arith, hw'.0, p.exp_fits (exp_bytes w), p.exp_paid)
]

free_sum :
    (host : Host VmState) (op : OpCode) (s : VmState)
    → 0 < host.jumpdest_gas
    → calc_exp_gas host s ≢ ok 0
    → calc_opcode_cost host op s ≡ ok 0
    → (one_of (Opcode.stop ∷ Opcode.invalid ∷ []) op ≡ true)
      ⊎ (((one_of (Opcode.mload ∷ Opcode.mstore ∷ Opcode.mstore8 ∷ []) op ≡ true)
            × (calc_memory_op_gas op s ≡ ok 0))
          ⊎ (op ≡ Opcode.snapshot))
unfolding calc_opcode_cost
free_sum host op s pj pe h = ground arith

pub IsFree-cases :
    (host : Host VmState) (op : OpCode) (s : VmState)
    → PositiveGas host
    → All (λ w. exp_bytes w ≤ 32) s.stack
    → calc_opcode_cost host op s ≡ ok 0
    → IsFree op s
IsFree-cases host op s p hw h = elim (free_sum host op s p.jumpdest_paid (exp_paid host s p hw) h) [
  | inl e ↦ halting e
  | inr (inl (isop, e)) ↦ wrapped (free_memory op s isop e)
  | inr (inr e) ↦ taken e
]
