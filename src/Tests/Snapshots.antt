-- ===== src/Tests/Snapshots.antt =====
-- Snapshots of a small machine (purevm/core/snapshot.go, purevm/proof/snapshot_verify.go).
use offchain_com.Base.{ℕ, ◌≡◌, ◌⊎◌, refl, arith, false, ◌∙◌, replicate, bytes_eq_self, none, some}
use offchain_com.Core.Opcode.{is_push, is_dup, is_swap, push_size}
use offchain_com.Core.Action.{ok}
use offchain_com.Core.State.{
  new_state, clone, hash, verify_code_hash, serialize_canonical, get_stack_depth, stack_push,
}
use offchain_com.Core.State.Collision.{Collision}
use offchain_com.Core.Snapshot.{StandardSnapshot, new_standard_snapshot, verify_integrity}
use offchain_com.Core.Snapshot.Integrity.{
  new_standard_snapshot-verify_integrity, verify_integrity-binds,
}
use offchain_com.Core.Machine.{Vm, new_vm, create_snapshot, load_snapshot}
use offchain_com.Core.Machine.RoundTrip.{create_snapshot-load_snapshot}
use offchain_com.Core.Gas.{one_of, calc_opcode_cost}
use offchain_com.Core.Instructions.{execute_push, skip}
use offchain_com.Core.Step.{
  next_pc, finish_step, execute, charge, perform, step, peek_next_gas_cost,
}
use offchain_com.Proof.Predict.{result_at, restored, predict_from, predict_next_snapshot}
use offchain_com.Proof.Predict.Greedy.{Longest, predict_next_snapshot-Longest}
use offchain_com.Tests.Machine.{host, sum_code}

abbrev vm : Vm
vm = new_vm host sum_code 100

intact : verify_code_hash host vm.state ≡ ok tt
unfolding verify_code_hash new_vm new_state
intact = ground (arith, bytes_eq_self (replicate 32 7))

create_snapshot-load_snapshot_example :
    load_snapshot host (create_snapshot host 1 vm) vm
    ≡ (ok tt, record vm { state = vm.state; halted = false; error = none })
create_snapshot-load_snapshot_example = create_snapshot-load_snapshot host 1 vm vm intact

-- The snapshot at a gas limit.
abbrev pub snap : ℕ → StandardSnapshot
snap gas = new_standard_snapshot host (new_state host sum_code gas) 1

pub snap-intact : (gas : ℕ) → verify_integrity host (snap gas) ≡ ok tt
unfolding verify_code_hash new_state
snap-intact gas =
    new_standard_snapshot-verify_integrity host (new_state host sum_code gas) 1
    ∙ ground (arith, bytes_eq_self (replicate 32 7))

verify_integrity-binds_example :
    ((serialize_canonical host (snap 100).state ≡ serialize_canonical host (snap 99).state)
      × ((snap 100).state.code ≡ (snap 99).state.code))
    ⊎ Collision host
unfolding new_standard_snapshot new_state clone hash
verify_integrity-binds_example =
    verify_integrity-binds host (snap 100) (snap 99) (snap-intact 100) (snap-intact 99) refl refl

-- The prediction under a threshold of 7: two pushes, and the third step would pass it.
abbrev pub later : Vm
later = (step host (step host (restored host (snap 100))).1).1

from_there :
    predict_from host 9 (snap 100) 7 0 (restored host (snap 100))
    ≡ some (ok (result_at host (snap 100) 6 false later))
unfolding predict_from peek_next_gas_cost new_standard_snapshot clone step perform charge execute
    calc_opcode_cost one_of is_push is_dup is_swap push_size execute_push stack_push skip
    finish_step next_pc new_vm new_state get_stack_depth
from_there = refl

pub predicted :
    predict_next_snapshot host 9 (snap 100) 7 ≡ some (ok (result_at host (snap 100) 6 false later))
unfolding predict_next_snapshot
predicted = rw (predict_next_snapshot, snap-intact 100) from_there

predict_next_snapshot-Longest_example :
    Longest host 7 (snap 100) (restored host (snap 100)) (result_at host (snap 100) 6 false later)
predict_next_snapshot-Longest_example =
    predict_next_snapshot-Longest host 9 7 (snap 100) (result_at host (snap 100) 6 false later)
      predicted
