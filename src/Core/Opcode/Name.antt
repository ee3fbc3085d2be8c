-- ===== src/Core/Opcode/Name.antt =====
-- The names of the operation codes (`OpCode.String` in purevm/core/types.go).
use offchain_com.Base.{
  ℕ, zero, suc, ◌+◌, ◌-◌, ◌*◌, ◌/◌, ◌%◌, ◌<◌, ◌≡◌, refl, sym, ap, ◌∙◌, arith, Bool, true, false,
  ◌&&◌, List, [], ◌∷◌, ◌++◌, Option, none, some, ltb, ◌==◌, if◌then◌else◌,
}
use offchain_com.Core.Word.{Bytes}
use offchain_com.Core.Text.{codes, print_uint, print_digits, hex_digit}
use offchain_com.Core.Opcode
use offchain_com.Core.Opcode.{OpCode, is_push, is_dup, is_swap}

-- The cases of the `switch`.
abbrev names : List (OpCode × Bytes)
names =
    (Opcode.stop, codes "STOP")
    ∷ (Opcode.add, codes "ADD")
    ∷ (Opcode.mul, codes "MUL")
    ∷ (Opcode.sub, codes "SUB")
    ∷ (Opcode.div, codes "DIV")
    ∷ (Opcode.sdiv, codes "SDIV")
    ∷ (Opcode.mod_op, codes "MOD")
    ∷ (Opcode.smod, codes "SMOD")
    ∷ (Opcode.addmod, codes "ADDMOD")
    ∷ (Opcode.mulmod, codes "MULMOD")
    ∷ (Opcode.exp, codes "EXP")
    ∷ (Opcode.signextend, codes "SIGNEXTEND")
    ∷ (Opcode.lt, codes "LT")
    ∷ (Opcode.gt, codes "GT")
    ∷ (Opcode.slt, codes "SLT")
    ∷ (Opcode.sgt, codes "SGT")
    ∷ (Opcode.eq, codes "EQ")
    ∷ (Opcode.iszero, codes "ISZERO")
    ∷ (Opcode.and, codes "AND")
    ∷ (Opcode.or, codes "OR")
    ∷ (Opcode.xor, codes "XOR")
    ∷ (Opcode.not, codes "NOT")
    ∷ (Opcode.byte, codes "BYTE")
    ∷ (Opcode.shl, codes "SHL")
    ∷ (Opcode.shr, codes "SHR")
    ∷ (Opcode.sar, codes "SAR")
    ∷ (Opcode.mload, codes "MLOAD")
    ∷ (Opcode.mstore, codes "MSTORE")
    ∷ (Opcode.mstore8, codes "MSTORE8")
    ∷ (Opcode.msize, codes "MSIZE")
    ∷ (Opcode.gas, codes "GAS")
    ∷ (Opcode.pop, codes "POP")
    ∷ (Opcode.push1, codes "PUSH1")
    ∷ (Opcode.push32, codes "PUSH32")
    ∷ (Opcode.dup1, codes "DUP1")
    ∷ (Opcode.swap1, codes "SWAP1")
    ∷ (Opcode.jump, codes "JUMP")
    ∷ (Opcode.jumpi, codes "JUMPI")
    ∷ (Opcode.pc, codes "PC")
    ∷ (Opcode.jumpdest, codes "JUMPDEST")
    ∷ (Opcode.save, codes "SAVE")
    ∷ (Opcode.snapshot, codes "SNAPSHOT")
    ∷ (Opcode.restore, codes "RESTORE")
    ∷ []

abbrev name_in : OpCode → List (OpCode × Bytes) → Option Bytes
name_in op [] = none
name_in op ((o, name) ∷ rest) = let later = name_in op rest in if op == o then some name else later

-- `%x` of a byte.
abbrev hex_byte : ℕ → Bytes
hex_byte b = if ltb b 16 then hex_digit b ∷ [] else hex_digit (b / 16) ∷ (hex_digit (b % 16) ∷ [])

-- The `default` case.
unfoldable pub default_name : OpCode → Bytes
default_name op =
    if is_push op
    then codes "PUSH" ++ print_uint (op - Opcode.push1 + 1)
    else if is_dup op
    then codes "DUP" ++ print_uint (op - Opcode.dup1 + 1)
    else if is_swap op
    then codes "SWAP" ++ print_uint (op - Opcode.swap1 + 1)
    else codes "0x" ++ hex_byte (op % 256)

-- `OpCode.String`
unfoldable pub op_name : OpCode → Bytes
op_name op = elim (name_in op names) [ some name ↦ name | none ↦ default_name op ]

-- Reads a name back: a number in decimal or hexadecimal digits behind a prefix, or a name of the table.
abbrev decimal : ℕ → Bytes → ℕ
decimal n [] = n
decimal n (c ∷ s) = decimal (n * 10 + (c - b'0')) s

abbrev digit : ℕ → ℕ
digit c = if ltb c b'a' then c - b'0' else c - b'a' + 10

abbrev hexadecimal : ℕ → Bytes → ℕ
hexadecimal n [] = n
hexadecimal n (c ∷ s) = hexadecimal (n * 16 + digit c) s

-- What is left of a text behind a prefix.
abbrev behind : Bytes → Bytes → Option Bytes
behind [] s = some s
behind (c ∷ p) [] = none
behind (c ∷ p) (d ∷ s) = let rest = behind p s in if c == d then rest else none

abbrev is_whole : Option Bytes → Bool
is_whole (some []) = true
is_whole (some (c ∷ s)) = false
is_whole none = false

abbrev code_in : Bytes → List (OpCode × Bytes) → Option OpCode
code_in name [] = none
code_in name ((o, n) ∷ rest) =
    let later = code_in name rest in if is_whole (behind n name) then some o else later

abbrev or_read : Option Bytes → (Bytes → OpCode) → OpCode → OpCode
or_read (some s) f o = f s
or_read none f o = o

unfoldable read_name : Bytes → OpCode
read_name s = elim (code_in s names) [
  | some o ↦ o
  | none ↦ or_read (behind (codes "0x") s) (hexadecimal 0) (
      or_read (behind (codes "PUSH") s) (λ t. Opcode.push1 + decimal 0 t - 1)
        (or_read (behind (codes "DUP") s) (λ t. Opcode.dup1 + decimal 0 t - 1)
          (or_read (behind (codes "SWAP") s) (λ t. Opcode.swap1 + decimal 0 t - 1) 0)))
]

abbrev all_below : ℕ → (ℕ → Bool) → Bool
all_below zero p = true
all_below (suc n) p = p n && all_below n p

below_all : (n : ℕ) (p : ℕ → Bool) (x : ℕ) → all_below n p ≡ true → x < n → p x ≡ true
below_all zero p x h lt = absurd (omega arith)
below_all (suc n) p x h lt = ground (arith, below_all n p x)

table : all_below 256 (λ op. read_name (op_name op) == op) ≡ true
unfolding read_name op_name default_name print_uint print_digits hex_digit is_push is_dup is_swap
table = refl

read_name-op_name : (op : OpCode) → op < 256 → read_name (op_name op) ≡ op
read_name-op_name op h =
    let same : read_name (op_name op) == op ≡ true =
      below_all 256 (λ o. read_name (op_name o) == o) op table h in
    ground arith

-- The names of the operation codes tell all bytes apart.
pub op_name-injective : (a b : OpCode) → a < 256 → b < 256 → op_name a ≡ op_name b → a ≡ b
op_name-injective a b ha hb e =
    sym (read_name-op_name a ha) ∙ (ap read_name e ∙ read_name-op_name b hb)
