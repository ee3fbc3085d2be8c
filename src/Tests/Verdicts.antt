-- ===== src/Tests/Verdicts.antt =====
-- A proof under the precompile and under `verify-precompile` (purevm/precompile and purevm/cmd/vmcli).
use offchain_com.Base.{
  ◌≡◌, ◌↔◌, ◌∙◌, refl, arith, true, [], ◌∷◌, some, none, length, get_or, bytes_eq_self,
}
use offchain_com.Core.Word.{Bytes, word_from_uint64}
use offchain_com.Core.Action.{ok}
use offchain_com.Core.State.{
  hash, new_state, clone, verify_code_hash, get_stack_depth, stack_push, stack_pop,
}
use offchain_com.Core.Machine.{new_vm}
use offchain_com.Core.Gas.{one_of, calc_opcode_cost}
use offchain_com.Core.Instructions.{
  op_stop, binary, pop2, execute_push, skip, instruction_set, find_instruction,
}
use offchain_com.Core.Step.{next_pc, finish_step, execute, charge, perform, step}
use offchain_com.Proof.Transition.{
  vm_at, record_step, finalize_step, prove_step, prove_steps, generate_transition_proof,
}
use offchain_com.Proof.Merkle.{next_level, hash_step, reduce, calculate_trace_root}
use offchain_com.Proof.Diff.{infer_memory_reads, diff_memory, diff_memory_from}
use offchain_com.Core.Opcode.{is_push, is_dup, is_swap, push_size}
use offchain_com.Precompile.{
  Decoder, success, decode_initial_state, decode_bare_state, verify_in_solidity, run_precompile,
}
use offchain_com.Precompile.Input.{encode_input, encode_input-decode_input}
use offchain_com.Precompile.Verdict.{
  PadsLeft, success-flag, Approved, Accepts-run_decoded, run_precompile-run_decoded,
  run_precompile-Approved, verify_in_solidity_iff,
}
use offchain_com.Vmcli.Types.{finished}
use offchain_com.Vmcli.Commands.{verify_precompile}
use offchain_com.Vmcli.Response.{verdict_of}
use offchain_com.Vmcli.Honest.{verify_precompile_accepts}
use offchain_com.Tests.Machine.{host, sum_code}
use offchain_com.Tests.Run.{
  keccak256-IsWord, start, start-IsState, no_snapshot_code, marshal, made, last, answer_lem,
  accepted,
}

-- The JSON of one state and of one proof.
abbrev decoder : Decoder
decoder = record {
  envelope = λ b. some ([], []);
  snapshot = λ b. none;
  state = λ b. some start;
  proof = λ b. some made;
}

pads : PadsLeft word_from_uint64
pads n h = refl

abbrev state_bytes : Bytes
state_bytes = 1 ∷ []

abbrev proof_bytes : Bytes
proof_bytes = 2 ∷ (3 ∷ [])

read_state : decode_initial_state host marshal decoder state_bytes ≡ ok start
unfolding decode_initial_state decode_bare_state clone new_state verify_code_hash
read_state = ground (arith, bytes_eq_self (host.keccak256 sum_code))

positive_run :
    run_precompile host marshal decoder word_from_uint64 (encode_input state_bytes proof_bytes)
    ≡ ok (success word_from_uint64 made)
positive_run =
    run_precompile-run_decoded host marshal decoder word_from_uint64 pads
      (encode_input state_bytes proof_bytes) state_bytes proof_bytes
      (encode_input-decode_input state_bytes proof_bytes (omega arith) (omega arith))
    ∙ Accepts-run_decoded host marshal decoder word_from_uint64 pads state_bytes proof_bytes
        (record {
          start = start;
          proof = made;
          state_read = read_state;
          proof_read = refl;
          verified = accepted;
        })

run_precompile-Approved_example :
    Approved host marshal decoder word_from_uint64 pads
      (encode_input state_bytes proof_bytes)
      (success word_from_uint64 made)
run_precompile-Approved_example =
    run_precompile-Approved host marshal decoder word_from_uint64 pads
      (encode_input state_bytes proof_bytes) (success word_from_uint64 made) positive_run
      (success-flag word_from_uint64 pads made)

verify_in_solidity_iff_example :
    (verify_in_solidity host marshal decoder proof_bytes state_bytes ≡ ok true) ↔ (
      (out : Bytes) × (run_precompile host marshal decoder word_from_uint64
          (encode_input state_bytes proof_bytes)
        ≡ ok out)
      × (get_or out 31 0 ≡ 1))
verify_in_solidity_iff_example =
    verify_in_solidity_iff host marshal decoder word_from_uint64 pads state_bytes proof_bytes
      (omega arith) (omega arith)

final_width : length made.final_hash ≡ 32
unfolding generate_transition_proof vm_at clone prove_steps prove_step record_step finalize_step
    step perform charge execute calc_opcode_cost one_of is_push is_dup is_swap push_size
    execute_push stack_push skip finish_step next_pc new_vm new_state get_stack_depth
    instruction_set find_instruction infer_memory_reads diff_memory diff_memory_from op_stop binary
    pop2 stack_pop hash
final_width = refl

trace_width : length made.trace_root ≡ 32
unfolding generate_transition_proof vm_at clone prove_steps prove_step record_step finalize_step
    step perform charge execute calc_opcode_cost one_of is_push is_dup is_swap push_size
    execute_push stack_push skip finish_step next_pc new_vm new_state get_stack_depth
    instruction_set find_instruction infer_memory_reads diff_memory diff_memory_from op_stop binary
    pop2 stack_pop calculate_trace_root reduce next_level hash_step
trace_width = refl

verify_precompile_accepts_example :
    verify_precompile host marshal decoder word_from_uint64 (some state_bytes) (some proof_bytes)
    ≡ finished (verdict_of made)
unfolding new_state
verify_precompile_accepts_example =
    verify_precompile_accepts host keccak256-IsWord marshal decoder word_from_uint64 pads 5 4
      state_bytes proof_bytes start made last (omega arith) (omega arith) read_state refl
      final_width trace_width start-IsState no_snapshot_code (omega arith) answer_lem
