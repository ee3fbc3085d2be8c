-- ===== src/Proof/Transition.antt =====
-- Proofs of a run (purevm/proof/transition.go): making and replaying them.
pub mod Sound
pub mod Replay
pub mod Carried
pub mod Complete
pub mod Ends
use offchain_com.Base.{
  ℕ, zero, suc, ◌+◌, ◌-◌, ◌%◌, ◌^◌, ◌≡◌, Bool, true, false, not, ◌&&◌, ◌||◌, List, [], ◌∷◌, ◌++◌,
  reverse, Option, none, some, leb, ltb, ◌==◌, if◌then◌else◌, length, get_elem?, bytes_eq,
}
use offchain_com.Core.Word.{Bytes, Word, u64_mod}
use offchain_com.Core.Action.{
  Error, Fault, initial_hash_mismatch, code_hash_differs, trace_root_mismatch, start_step_mismatch,
  invalid_step_range, step_index_mismatch, pc_mismatch, pre_state_mismatch, opcode_mismatch,
  gas_before_mismatch, stack_size_before_mismatch, memory_read_mismatch, gas_cost_mismatch,
  gas_after_mismatch, stack_size_after_mismatch, stack_pop_mismatch, stack_push_mismatch,
  memory_write_mismatch, post_state_mismatch, execution_failed, proof_gas_mismatch,
  final_hash_mismatch, end_step_mismatch, Result, ok, err, panic, Action, Host,
}
use offchain_com.Core.State.{VmState, clone, hash, verify_code_hash, get_stack_depth}
use offchain_com.Core.Snapshot.{TransitionLink}
use offchain_com.Core.Machine.{Vm, new_vm}
use offchain_com.Core.Gas.{calc_opcode_cost}
use offchain_com.Core.Step.{step}
use offchain_com.Proof.Types.{MemAccess, StepProof, TransitionProof}
use offchain_com.Proof.Merkle.{calculate_trace_root}
use offchain_com.Proof.Diff.{
  read_memory, infer_memory_reads, diff_stacks, diff_memory, equal_words, equal_mem_accesses,
}

-- `if !b { return e }`
abbrev pub require : Bool → Error → Result (Unit {0}) → Result (Unit {0})
require true e k = k
require false e k = err e

-- `TransitionProof.Link`
unfoldable pub link : TransitionProof → TransitionLink
link p = record {
  initial_root = p.initial_hash;
  final_root = p.final_hash;
  start_step = p.start_step;
  end_step = p.end_step;
  trace_root = p.trace_root;
}

-- The loop of `Verify` over the memory reads of step `i`.
unfoldable pub check_reads : ℕ → List MemAccess → Bytes → Result (Unit {0})
check_reads i [] m = ok tt
check_reads i (r ∷ rs) m = elim (read_memory m r.offset r.size) [
  | ok v ↦ require (bytes_eq v r.value) (memory_read_mismatch i) (check_reads i rs m)
  | err e ↦ err e
  | panic p ↦ panic p
]

module _ (host : Host VmState) where
  -- What `recordStep` returns; what `finalizeStep` sets is still zero.
  abbrev pub recorded : ℕ → ℕ → List MemAccess → VmState → StepProof
  recorded op cost reads s = record {
    index = s.step_count;
    pc = s.pc;
    op_code = op;
    gas_before = s.gas;
    gas_cost = cost;
    gas_after = 0;
    stack_before_size = get_stack_depth s;
    stack_after_size = 0;
    stack_popped = [];
    stack_pushed = [];
    mem_read = reads;
    mem_write = [];
    state_hash_before = hash host s;
    state_hash_after = [];
  }

  -- `recordStep`, on the state before the step.
  unfoldable pub record_step : VmState → Result StepProof
  record_step s = elim (get_elem? s.code s.pc) [
    | none ↦ panic Fault.index_out_of_range
    | some op ↦ elim (calc_opcode_cost host op s) [
      | err e ↦ err e
      | panic p ↦ panic p
      | ok cost ↦ elim (infer_memory_reads op s) [
        | err e ↦ err e
        | panic p ↦ panic p
        | ok reads ↦ ok (recorded op cost reads s)
      ]
    ]
  ]

  -- What `finalizeStep` sets, for the memory writes that it has found.
  abbrev pub finalized : StepProof → VmState → VmState → List MemAccess → StepProof
  finalized p before after writes =
      let (popped, pushed) = diff_stacks (reverse before.stack) (reverse after.stack) in
      record p {
        gas_after = after.gas;
        stack_after_size = get_stack_depth after;
        state_hash_after = hash host after;
        stack_popped = popped;
        stack_pushed = pushed;
        mem_write = writes;
      }

  -- `finalizeStep`
  unfoldable pub finalize_step : StepProof → VmState → VmState → Result StepProof
  finalize_step p before after = elim (diff_memory before.memory after.memory) [
    | err e ↦ err e
    | panic f ↦ panic f
    | ok writes ↦ ok (finalized p before after writes)
  ]

  -- The body of the loop of `GenerateTransitionProof`.
  unfoldable pub prove_step : Action Vm StepProof
  prove_step vm = elim (record_step vm.state) [
    | err e ↦ (err e, vm)
    | panic f ↦ (panic f, vm)
    | ok p ↦
        let (r, vm') = step host vm in
        elim r [
          | ok _ ↦ (finalize_step p vm.state vm'.state, vm')
          | err e ↦ (err e, vm')
          | panic f ↦ (panic f, vm')
        ]
  ]

  -- `!vm.Halted && (steps == 0 || i < steps)`
  abbrev pub goes_on : ℕ → ℕ → Vm → Bool
  goes_on steps i vm = not vm.halted && (steps == 0 || ltb i steps)

  -- The loop of `GenerateTransitionProof`, on fuel: the proofs so far, in order, and their gas.
  unfoldable pub prove_steps :
      ℕ → ℕ → ℕ → List StepProof → ℕ → Vm → Option (Result (List StepProof × ℕ) × Vm)
  prove_steps zero steps i ps gas vm = none
  prove_steps (suc fuel) steps i ps gas vm = elim (goes_on steps i vm) [
    | false ↦ some (ok (ps, gas), vm)
    | true ↦
        let (r, vm') = prove_step vm in
        elim r [
          | ok p ↦ prove_steps fuel steps (suc i) (ps ++ p ∷ []) ((gas + p.gas_cost) % u64_mod) vm'
          | err e ↦ some (err e, vm')
          | panic f ↦ some (panic f, vm')
        ]
  ]

  -- The checks of `Verify` on the state before step `i`.
  unfoldable pub check_before : ℕ → StepProof → VmState → Result (Unit {0})
  check_before i p s =
      require (p.index == s.step_count) (step_index_mismatch i s.step_count p.index) (
        require (bytes_eq (hash host s) p.state_hash_before) (pre_state_mismatch i) (
          require (s.pc == p.pc) (pc_mismatch i s.pc p.pc) (elim (get_elem? s.code s.pc) [
            | none ↦ panic Fault.index_out_of_range
            | some op ↦ require (op == p.op_code) (opcode_mismatch i) (
                require (s.gas == p.gas_before) (gas_before_mismatch i) (
                  require (get_stack_depth s == p.stack_before_size) (stack_size_before_mismatch i)
                    (check_reads i p.mem_read s.memory)))
          ])))

  -- The checks of `Verify` on the states before and after step `i`.
  unfoldable pub check_after : ℕ → StepProof → VmState → VmState → Result (Unit {0})
  check_after i p before s =
      let (popped, pushed) = diff_stacks (reverse before.stack) (reverse s.stack) in
      require ((before.gas + u64_mod - s.gas) % u64_mod == p.gas_cost) (gas_cost_mismatch i) (
        require (s.gas == p.gas_after) (gas_after_mismatch i) (
          require (get_stack_depth s == p.stack_after_size) (stack_size_after_mismatch i) (
            require (equal_words popped p.stack_popped) (stack_pop_mismatch i) (
              require (equal_words pushed p.stack_pushed) (stack_push_mismatch i)
                (elim (diff_memory before.memory s.memory) [
                  | err e ↦ err e
                  | panic f ↦ panic f
                  | ok writes ↦
                      require (equal_mem_accesses writes p.mem_write) (memory_write_mismatch i) (
                        require (bytes_eq (hash host s) p.state_hash_after) (post_state_mismatch i)
                          (ok tt))
                ])))))

  -- The body of the loop of `Verify`.
  unfoldable pub verify_step : ℕ → StepProof → Action Vm (Unit {0})
  verify_step i p vm = elim (check_before i p vm.state) [
    | err e ↦ (err e, vm)
    | panic f ↦ (panic f, vm)
    | ok _ ↦
        let (r, vm') = step host vm in
        elim r [
          | ok _ ↦ (check_after i p vm.state vm'.state, vm')
          | err e ↦ (err (execution_failed i e), vm')
          | panic f ↦ (panic f, vm')
        ]
  ]

  -- The loop of `Verify` from step `i` on: the gas in all.
  unfoldable pub verify_steps : ℕ → List StepProof → ℕ → Action Vm ℕ
  verify_steps i [] gas vm = (ok gas, vm)
  verify_steps i (p ∷ ps) gas vm =
      let (r, vm') = verify_step i p vm in
      elim r [
        | ok _ ↦ verify_steps (suc i) ps ((gas + p.gas_cost) % u64_mod) vm'
        | err e ↦ (err e, vm')
        | panic f ↦ (panic f, vm')
      ]

  -- `core.NewVM(s.Code, s.Gas)` with the state set to a clone of `s`.
  unfoldable pub vm_at : VmState → Vm
  vm_at s = record (new_vm host s.code s.gas) { state = clone s }

  module _ (marshal : StepProof → Bytes) where
    -- The proof of the steps `ps`, which used `gas` and led from `vm` to `vm'`.
    abbrev pub proof_of : Vm → List StepProof → ℕ → Vm → TransitionProof
    proof_of vm ps gas vm' = record {
      initial_hash = hash host vm.state;
      final_hash = hash host vm'.state;
      code_hash = vm'.state.code_hash;
      start_step = vm.state.step_count;
      end_step = vm'.state.step_count;
      steps = ps;
      gas_used = gas;
      trace_root = calculate_trace_root host marshal ps;
    }

    -- `GenerateTransitionProof`, on fuel.
    unfoldable pub generate_transition_proof : ℕ → ℕ → Vm → Option (Result TransitionProof × Vm)
    generate_transition_proof fuel steps vm = elim (prove_steps fuel steps 0 [] 0 vm) [
      | none ↦ none
      | some (r, vm') ↦ some (elim r [
        | err e ↦ (err e, vm')
        | panic f ↦ (panic f, vm')
        | ok (ps, gas) ↦ (ok (proof_of vm ps gas vm'), vm')
      ])
    ]

    -- The checks at the end of `Verify`.
    unfoldable pub check_end : TransitionProof → ℕ → VmState → Result (Unit {0})
    check_end p gas s = require (gas == p.gas_used) proof_gas_mismatch (
        require (bytes_eq (hash host s) p.final_hash) final_hash_mismatch
          (require (s.step_count == p.end_step) end_step_mismatch (ok tt)))

    -- The checks of `Verify` before the replay, and `k`.
    unfoldable pub check_start : TransitionProof → VmState → Result (Unit {0}) → Result (Unit {0})
    check_start p s k = require (bytes_eq (hash host s) p.initial_hash) initial_hash_mismatch (
        require (bytes_eq s.code_hash p.code_hash) code_hash_differs
          (elim (verify_code_hash host s) [
            | err e ↦ err e
            | panic f ↦ panic f
            | ok _ ↦
                require (s.step_count == p.start_step)
                  (start_step_mismatch s.step_count p.start_step)
                  (require (leb p.start_step p.end_step)
                    (invalid_step_range p.start_step p.end_step)
                    (require (bytes_eq (calculate_trace_root host marshal p.steps) p.trace_root)
                      trace_root_mismatch k))
          ]))

    -- `TransitionProof.Verify`
    unfoldable pub verify : TransitionProof → VmState → Result (Unit {0})
    verify p s = check_start p s (
        let (r, vm') = verify_steps 0 p.steps 0 (vm_at s) in
        elim r [ ok gas ↦ check_end p gas vm'.state | err e ↦ err e | panic f ↦ panic f ])
