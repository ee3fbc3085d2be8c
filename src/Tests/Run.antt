-- ===== src/Tests/Run.antt =====
-- A run, its proof, and the replay of the proof (purevm/core/vm.go, purevm/proof).
use offchain_com.Base.{
  ℕ, ◌+◌, ◌^◌, ◌≤◌, ◌≡◌, ◌≢◌, ◌⊎◌, refl, arith, List, [], ◌∷◌, map, replicate, bytes_eq_self, All,
  All-replicate, Option, none, some,
}
use offchain_com.Core.Word.{Bytes, IsByte, IsWord}
use offchain_com.Core.Opcode
use offchain_com.Core.Opcode.{OpCode, is_push, is_dup, is_swap, push_size}
use offchain_com.Core.Action.{Result, ok, err, panic}
use offchain_com.Core.State.{
  VmState, new_state, clone, verify_code_hash, stack_push, stack_pop, get_stack_depth,
}
use offchain_com.Core.State.Valid.{IsState, new_state-IsState}
use offchain_com.Core.State.Collision.{Collision}
use offchain_com.Core.Machine.{Vm, new_vm}
use offchain_com.Core.Gas.{one_of, calc_opcode_cost}
use offchain_com.Core.Gas.Price.{PositiveGas}
use offchain_com.Core.Instructions.{
  op_stop, binary, pop2, execute_push, skip, instruction_set, find_instruction,
}
use offchain_com.Core.Step.{next_pc, finish_step, execute, charge, perform, step, run, run_steps}
use offchain_com.Core.Step.Account.{Effect, step-Effect}
use offchain_com.Core.Step.Keeps.{IsVm}
use offchain_com.Core.Step.Invariant.{run_steps-KeepsVm}
use offchain_com.Core.Step.Progress.{budget}
use offchain_com.Core.Step.Termination.{run_terminates}
use offchain_com.Proof.Types.{StepProof, TransitionProof}
use offchain_com.Proof.Merkle.{next_level, hash_step, reduce, calculate_trace_root}
use offchain_com.Proof.Merkle.Binding.{calculate_trace_root-binds}
use offchain_com.Proof.Transition.{
  vm_at, record_step, finalize_step, prove_step, prove_steps, generate_transition_proof, verify,
}
use offchain_com.Proof.Transition.Sound.{Replayed, verify-Replayed}
use offchain_com.Proof.Transition.Complete.{generate-verify}
use offchain_com.Proof.Diff.{infer_memory_reads, diff_memory, diff_memory_from}
use offchain_com.Core.Snapshot.{new_standard_snapshot}
use offchain_com.Proof.Predict.{NextSnapshotResult, predict_from}
use offchain_com.Proof.Predict.Ends.{predict_from_ends}
use offchain_com.Proof.Transition.Carried.{Plain}
use offchain_com.Tests.Machine.{host, sum_code}

pub keccak256-IsWord : (bs : Bytes) → IsWord (host.keccak256 bs)
keccak256-IsWord bs = record { width = refl; bytes = All-replicate IsByte 32 7 (omega arith) }

abbrev pub start : VmState
start = new_state host sum_code 100

abbrev pub first : Vm
first = new_vm host sum_code 100

pub start-IsState : IsState start
start-IsState =
    new_state-IsState host sum_code 100
      (omega arith, (omega arith, (omega arith, (omega arith, (omega arith, (omega arith, tt))))))
      (omega arith) (omega arith)

first-IsVm : IsVm first
unfolding new_vm
first-IsVm = record { current = start-IsState; taken = tt }

pub no_snapshot_code : All (λ b. b ≢ Opcode.snapshot) sum_code
no_snapshot_code = (
  (λ e. omega arith),
  (
    (λ e. omega arith),
    ((λ e. omega arith), ((λ e. omega arith), ((λ e. omega arith), ((λ e. omega arith), tt)))),
  ),
)

positive_gas : PositiveGas host
positive_gas = record {
  jumpdest_paid = omega arith;
  exp_paid = omega arith;
  exp_fits = λ n h. omega arith;
}

first-budget : budget first + 2 ≤ 2 ^ 64
unfolding budget new_vm new_state
first-budget = omega arith

run_terminates_example : (r : Result (Unit {0}) × Vm) × (run host (2 ^ 64) first ≡ some r)
unfolding new_vm new_state
run_terminates_example =
    run_terminates host positive_gas keccak256-IsWord (2 ^ 64) first first-IsVm refl
      no_snapshot_code first-budget

run_steps-KeepsVm_example : IsVm (run_steps host 3 first).1
run_steps-KeepsVm_example = run_steps-KeepsVm host keccak256-IsWord 3 first first-IsVm

first_step : (step host first).0 ≡ ok tt
unfolding step perform charge execute calc_opcode_cost one_of is_push is_dup is_swap push_size
    execute_push stack_push skip finish_step next_pc new_vm new_state get_stack_depth
first_step = refl

step-Effect_example : Effect host 0x60 first (step host first).1
unfolding new_vm new_state
step-Effect_example =
    step-Effect host 0x60 first refl refl (omega arith) refl (λ e. omega arith) first_step

-- A text of a step that stays short.
abbrev pub marshal : StepProof → Bytes
marshal p = p.index ∷ (p.op_code ∷ [])

abbrev pub answer : Option (Result TransitionProof × Vm)
answer = generate_transition_proof host marshal 5 4 (vm_at host start)

abbrev pub no_proof : TransitionProof
no_proof = record {
  initial_hash = [];
  final_hash = [];
  code_hash = [];
  start_step = 0;
  end_step = 0;
  steps = [];
  gas_used = 0;
  trace_root = [];
}

abbrev pub proof_in : Option (Result TransitionProof × Vm) → TransitionProof × Vm
proof_in (some (ok p, vm)) = (p, vm)
proof_in o = (no_proof, first)

abbrev pub made : TransitionProof
made = (proof_in answer).0

abbrev pub last : Vm
last = (proof_in answer).1

unfoldable pub IsMade : Option (Result TransitionProof × Vm) → Type 0
IsMade (some (ok p, vm)) = Unit
IsMade o = ⊥

pub proof_in_lem :
    (o : Option (Result TransitionProof × Vm))
    → IsMade o
    → o ≡ some (ok (proof_in o).0, (proof_in o).1)
unfolding IsMade
proof_in_lem none h = absurd h
proof_in_lem (some (ok p, vm)) h = refl
proof_in_lem (some (err x, vm)) h = absurd h
proof_in_lem (some (panic f, vm)) h = absurd h

answer-IsMade : IsMade answer
unfolding IsMade generate_transition_proof vm_at clone prove_steps prove_step record_step
    finalize_step step perform charge execute calc_opcode_cost one_of is_push is_dup is_swap
    push_size execute_push stack_push skip finish_step next_pc new_vm new_state get_stack_depth
    instruction_set find_instruction infer_memory_reads diff_memory diff_memory_from op_stop binary
    pop2 stack_pop
answer-IsMade = tt

pub answer_lem :
    generate_transition_proof host marshal 5 4 (vm_at host start) ≡ some (ok made, last)
answer_lem = proof_in_lem answer answer-IsMade

pub code_intact : verify_code_hash host start ≡ ok tt
unfolding verify_code_hash new_state
code_intact = ground (arith, bytes_eq_self (replicate 32 7))

generate-verify_example : verify host marshal made start ≡ ok tt
unfolding new_state
generate-verify_example =
    generate-verify host keccak256-IsWord marshal 5 4 made start last start-IsState no_snapshot_code
      code_intact (omega arith) answer_lem

pub accepted : verify host marshal made start ≡ ok tt
unfolding new_state
accepted =
    generate-verify host keccak256-IsWord marshal 5 4 made start last start-IsState no_snapshot_code
      code_intact (omega arith) answer_lem

verify-Replayed_example : Replayed host marshal made start
verify-Replayed_example = verify-Replayed host marshal made start accepted

abbrev step_proof : ℕ → StepProof
step_proof n = record {
  index = n;
  pc = n;
  op_code = 0;
  gas_before = 9;
  gas_cost = 0;
  gas_after = 9;
  stack_before_size = 0;
  stack_after_size = 0;
  stack_popped = [];
  stack_pushed = [];
  mem_read = [];
  mem_write = [];
  state_hash_before = replicate 32 7;
  state_hash_after = replicate 32 7;
}

abbrev trace : ℕ → List StepProof
trace n = step_proof n ∷ (step_proof (n + 1) ∷ (step_proof (n + 2) ∷ []))

-- The toy hash gives every trace of three steps the same root.
same_root :
    calculate_trace_root host marshal (trace 0) ≡ calculate_trace_root host marshal (trace 3)
unfolding calculate_trace_root reduce next_level hash_step
same_root = refl

calculate_trace_root-binds_example :
    (map marshal (trace 0) ≡ map marshal (trace 3)) ⊎ Collision host
calculate_trace_root-binds_example =
    calculate_trace_root-binds host (λ b. refl) (λ b h. refl) marshal (trace 0) (trace 3) refl
      same_root

first-Plain : Plain first
unfolding new_vm new_state
first-Plain = record { valid = first-IsVm; no_snapshots = refl; takes_none = no_snapshot_code }

predict_from_ends_example :
    (r : Result NextSnapshotResult) × (predict_from host
        (2 ^ 64)
        (new_standard_snapshot host start 1)
        7
        0
        first
      ≡ some r)
predict_from_ends_example =
    predict_from_ends host (new_standard_snapshot host start 1) 7 positive_gas keccak256-IsWord
      (2 ^ 64) 0 first first-Plain first-budget
