-- ===== src/Tests/Machine.antt =====
-- Small programs on the virtual machine, with a toy hash in place of Keccak-256.
use offchain_com.Base.{ℕ, Bool, List, [], ◌∷◌, Option, none, some, replicate, map}
use offchain_com.Core.Word.{Bytes, Word, big_int}
use offchain_com.Core.Action.{Host, Result}
use offchain_com.Core.State.{VmState}
use offchain_com.Core.Machine.{Vm, new_vm}
use offchain_com.Core.Step.{run}
use offchain_com.Core.Text.{hex_encode}

-- A checksum that stays short under evaluation.
abbrev toy_hash : Bytes → Word
toy_hash b = replicate 32 7

abbrev pub host : Host VmState
host = record {
  keccak256 = toy_hash;
  bytes_to_hex = hex_encode;
  hash_hex = hex_encode;
  bytes_to_hash = λ b. b;
  jumpdest_gas = 1;
  exp_gas = 10;
  exp_byte_gas = 10;
  unix_time = λ _. 0;
}

abbrev outcome : Option (Result (Unit {0}) × Vm) → Option (Result (Unit {0}) × List ℕ × ℕ × Bool)
outcome none = none
outcome (some (r, vm)) = some (r, map big_int vm.state.stack, vm.state.gas, vm.halted)

-- PUSH1 5, PUSH1 7, ADD, STOP
abbrev pub sum_code : Bytes
sum_code = 0x60 ∷ 5 ∷ 0x60 ∷ 7 ∷ 0x01 ∷ 0x00 ∷ []

sum_result : Option (Result (Unit {0}) × List ℕ × ℕ × Bool)
sum_result = outcome (run host 5 (new_vm host sum_code 100))
