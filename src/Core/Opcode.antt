-- ===== src/Core/Opcode.antt =====
-- The operation codes (purevm/core/types.go). The codes between `PUSH1` and `PUSH32`, `DUP1` and
-- `DUP16`, `SWAP1` and `SWAP16` are the numbers between the two; `MOD` is `mod_op`, since `mod` is a
-- word of the language.
pub mod Name
use offchain_com.Base.{ℕ, ◌+◌, ◌-◌, ◌%◌, Bool, ◌&&◌, leb, if◌then◌else◌}

abbrev pub OpCode : Type 0
OpCode = ℕ

abbrev pub stop : OpCode
stop = 0x00

abbrev pub add : OpCode
add = 0x01

abbrev pub mul : OpCode
mul = 0x02

abbrev pub sub : OpCode
sub = 0x03

abbrev pub div : OpCode
div = 0x04

abbrev pub sdiv : OpCode
sdiv = 0x05

abbrev pub mod_op : OpCode
mod_op = 0x06

abbrev pub smod : OpCode
smod = 0x07

abbrev pub addmod : OpCode
addmod = 0x08

abbrev pub mulmod : OpCode
mulmod = 0x09

abbrev pub exp : OpCode
exp = 0x0a

abbrev pub signextend : OpCode
signextend = 0x0b

abbrev pub lt : OpCode
lt = 0x10

abbrev pub gt : OpCode
gt = 0x11

abbrev pub slt : OpCode
slt = 0x12

abbrev pub sgt : OpCode
sgt = 0x13

abbrev pub eq : OpCode
eq = 0x14

abbrev pub iszero : OpCode
iszero = 0x15

abbrev pub and : OpCode
and = 0x16

abbrev pub or : OpCode
or = 0x17

abbrev pub xor : OpCode
xor = 0x18

abbrev pub not : OpCode
not = 0x19

abbrev pub byte : OpCode
byte = 0x1a

abbrev pub shl : OpCode
shl = 0x1b

abbrev pub shr : OpCode
shr = 0x1c

abbrev pub sar : OpCode
sar = 0x1d

abbrev pub pop : OpCode
pop = 0x50

abbrev pub mload : OpCode
mload = 0x51

abbrev pub mstore : OpCode
mstore = 0x52

abbrev pub mstore8 : OpCode
mstore8 = 0x53

abbrev pub jump : OpCode
jump = 0x56

abbrev pub jumpi : OpCode
jumpi = 0x57

abbrev pub pc : OpCode
pc = 0x58

abbrev pub msize : OpCode
msize = 0x59

abbrev pub gas : OpCode
gas = 0x5a

abbrev pub jumpdest : OpCode
jumpdest = 0x5b

abbrev pub push1 : OpCode
push1 = 0x60

abbrev pub push32 : OpCode
push32 = 0x7f

abbrev pub dup1 : OpCode
dup1 = 0x80

abbrev pub dup16 : OpCode
dup16 = 0x8f

abbrev pub swap1 : OpCode
swap1 = 0x90

abbrev pub swap16 : OpCode
swap16 = 0x9f

abbrev pub save : OpCode
save = 0xfb

abbrev pub snapshot : OpCode
snapshot = 0xfc

abbrev pub restore : OpCode
restore = 0xfd

abbrev pub invalid : OpCode
invalid = 0xfe

-- `OpCode.IsPush`
unfoldable pub is_push : OpCode → Bool
is_push op = leb push1 op && leb op push32

-- `OpCode.PushSize`: `op - PUSH1 + 1` is taken on bytes, and cannot wrap where `op` is a push.
unfoldable pub push_size : OpCode → ℕ
push_size op = if is_push op then (op - push1 + 1) % 256 else 0

-- The ranges that `Step` and the gas table test.
unfoldable pub is_dup : OpCode → Bool
is_dup op = leb dup1 op && leb op dup16

unfoldable pub is_swap : OpCode → Bool
is_swap op = leb swap1 op && leb op swap16
