-- ===== src/Tests/Indexed.antt =====
-- An index of two snapshots under `verify-index` (purevm/cmd/vmcli/main.go).
use offchain_com.Base.{ℕ, zero, suc, ◌≡◌, refl, arith, true, false, [], ◌∷◌, Option, none, some}
use offchain_com.Base.Int.{ℤ, pos}
use offchain_com.Core.Word.{Bytes}
use offchain_com.Core.Action.{Result, ok}
use offchain_com.Core.State.{new_state, clone, stack_push, stack_pop, get_stack_depth, hash}
use offchain_com.Core.Opcode.{is_push, is_dup, is_swap, push_size}
use offchain_com.Core.Snapshot.{StandardSnapshot, new_standard_snapshot}
use offchain_com.Core.Index.{
  SnapshotIndexEntry, SnapshotIndex, new_snapshot_index, entry, adjacent_entries,
  validate_adjacent_threshold,
}
use offchain_com.Core.Machine.{Vm, new_vm}
use offchain_com.Core.Gas.{one_of, calc_opcode_cost}
use offchain_com.Core.Instructions.{
  op_stop, binary, pop2, execute_push, skip, instruction_set, find_instruction,
}
use offchain_com.Core.Step.{next_pc, finish_step, execute, charge, perform, step}
use offchain_com.Proof.Types.{TransitionProof}
use offchain_com.Proof.Transition.{
  vm_at, record_step, finalize_step, prove_step, prove_steps, generate_transition_proof,
}
use offchain_com.Proof.Diff.{infer_memory_reads, diff_memory, diff_memory_from}
use offchain_com.Proof.Predict.{NextSnapshotResult, result_at, verify_next_snapshot_hash, restored}
use offchain_com.Proof.Predict.Greedy.{verify_next_snapshot_hash_iff}
use offchain_com.Base.{◌⊎◌}
use offchain_com.Core.Snapshot.{verify_integrity}
use offchain_com.Core.State.{serialize_canonical}
use offchain_com.Core.State.Collision.{Collision}
use offchain_com.Proof.Predict.Greedy.{Longest}
use offchain_com.Proof.Predict.Accepts.{verify_next_snapshot_hash-binds}
use offchain_com.Vmcli.Types.{finished}
use offchain_com.Vmcli.Running.{prove_from, check_snapshot, generate_proof_from_snapshot}
use offchain_com.Vmcli.Checking.{
  Adjacent, Paths, verify_proof, resolve_path, find_adjacent, replay_adjacent, verify_index,
}
use offchain_com.Vmcli.Checking.Sound.{Confirmed, verify_index-Confirmed}
use offchain_com.Vmcli.Checking.RoundTrip.{generate_proof_from_snapshot-verify_proof}
use offchain_com.Tests.Machine.{host}
use offchain_com.Tests.Run.{
  marshal, proof_in, proof_in_lem, IsMade, keccak256-IsWord, start-IsState, no_snapshot_code,
}
use offchain_com.Tests.Snapshots.{snap, snap-intact, later, predicted}

-- All paths are absolute.
abbrev paths : Paths
paths = record { is_abs = λ f. true; dir = λ f. f; join = λ d f. f }

abbrev files : Bytes → Option StandardSnapshot
files [] = none
files (zero ∷ f) = some (snap 100)
files (suc n ∷ f) = some (snap 94)

abbrev entry_at : ℕ → ℕ → ℕ → Option ℤ → SnapshotIndexEntry
entry_at n steps gas next = record {
  ordinal = pos n;
  snapshot_file = n ∷ [];
  step_number = steps;
  gas_used = gas;
  gas_remaining = 0;
  state_root = [];
  next_ordinal = next;
  adjacent_proof_file = [];
  adjacent_proof_steps = 0;
  adjacent_proof_is_full = false;
}

abbrev idx : SnapshotIndex
idx = record (new_snapshot_index 0 1 100 7) {
  snapshots = entry_at 0 0 0 (some (pos 1)) ∷ (entry_at 1 2 6 none ∷ []);
}

abbrev pair : Adjacent
pair = record {
  start_entry = entry_at 0 0 0 (some (pos 1));
  end_entry = entry_at 1 2 6 none;
  start_snap = snap 100;
  end_snap = snap 94;
}

abbrev next : NextSnapshotResult
next = result_at host (snap 100) 6 false later

roots_agree : next.snapshot.header.state_root ≡ (snap 94).header.state_root
unfolding new_standard_snapshot hash
roots_agree = refl

replayed : verify_next_snapshot_hash host 9 (snap 100) (snap 94) 7 ≡ some (ok next)
replayed =
    (verify_next_snapshot_hash_iff host 9 7 (snap 100) (snap 94) next predicted (snap-intact 94)).1
      roots_agree

verify_next_snapshot_hash-binds_example :
    (verify_integrity host (snap 94) ≡ ok tt)
    × (l : Longest host 7 (snap 100) (restored host (snap 100)) next) × ((serialize_canonical host
            (snap 94).state
          ≡ serialize_canonical host l.last.state)
        ⊎ Collision host)
verify_next_snapshot_hash-binds_example =
    verify_next_snapshot_hash-binds host 9 7 (snap 100) (snap 94) next replayed

abbrev answer : Option (Result TransitionProof × Vm)
answer = generate_transition_proof host marshal 9 next.steps (vm_at host (snap 100).state)

answer-IsMade : IsMade answer
unfolding IsMade generate_transition_proof vm_at new_standard_snapshot clone prove_steps prove_step
    record_step finalize_step step perform charge execute calc_opcode_cost one_of is_push is_dup
    is_swap push_size execute_push stack_push skip finish_step next_pc new_vm new_state
    get_stack_depth instruction_set find_instruction infer_memory_reads diff_memory diff_memory_from
    op_stop binary pop2 stack_pop
answer-IsMade = tt

abbrev segment_proof : TransitionProof
segment_proof = (proof_in answer).0

proved :
    prove_from host 9 marshal next.steps (vm_at host (snap 100).state)
    ≡ some (finished segment_proof)
unfolding prove_from
proved = rw (prove_from, proof_in_lem answer answer-IsMade) refl

found : find_adjacent paths files [] idx (pos 0) ≡ finished pair
unfolding find_adjacent adjacent_entries validate_adjacent_threshold entry resolve_path
    new_snapshot_index
found = refl

passes :
    verify_index host marshal paths files 9 [] (some idx) (pos 0)
    ≡ some (finished (pair, segment_proof))
unfolding verify_index replay_adjacent new_snapshot_index
passes = rw (verify_index, found, replay_adjacent, replayed, proved) refl

verify_index-Confirmed_example : Confirmed host marshal paths files [] idx (pos 0) pair
verify_index-Confirmed_example =
    verify_index-Confirmed host marshal paths files 9 [] idx (pos 0) pair segment_proof passes

-- A proof from the snapshot, and its check.
abbrev from_snapshot : Option (Result TransitionProof × Vm)
from_snapshot = generate_transition_proof host marshal 9 2 (restored host (snap 100))

from_snapshot-IsMade : IsMade from_snapshot
unfolding IsMade generate_transition_proof new_standard_snapshot clone prove_steps prove_step
    record_step finalize_step step perform charge execute calc_opcode_cost one_of is_push is_dup
    is_swap push_size execute_push stack_push skip finish_step next_pc new_vm new_state
    get_stack_depth instruction_set find_instruction infer_memory_reads diff_memory diff_memory_from
    op_stop binary pop2 stack_pop
from_snapshot-IsMade = tt

saved :
    generate_proof_from_snapshot host 9 marshal (some (snap 100)) 2
    ≡ some (finished (proof_in from_snapshot).0)
unfolding generate_proof_from_snapshot check_snapshot prove_from
saved =
    rw
      (
        generate_proof_from_snapshot,
        check_snapshot,
        snap-intact 100,
        prove_from,
        proof_in_lem from_snapshot from_snapshot-IsMade,
      )
      refl

generate_proof_from_snapshot-verify_proof_example :
    verify_proof host marshal (some (snap 100)) (some (proof_in from_snapshot).0)
    ≡ finished (proof_in from_snapshot).0
unfolding new_standard_snapshot clone new_state
generate_proof_from_snapshot-verify_proof_example =
    generate_proof_from_snapshot-verify_proof host marshal keccak256-IsWord 9 2 (snap 100)
      (proof_in from_snapshot).0 start-IsState no_snapshot_code (omega arith) saved
