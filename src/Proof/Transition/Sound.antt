-- ===== src/Proof/Transition/Sound.antt =====
-- `Verify` (purevm/proof/transition.go) and the run that a proof describes.
use offchain_com.Base.{
  ℕ, suc, ◌+◌, ◌-◌, ◌%◌, ◌≡◌, refl, sym, ◌∙◌, arith, Bool, true, false, List, [], ◌∷◌, some,
  Option-cases, inl, inr, get_elem?, bytes_eq→eq,
}
use offchain_com.Core.Word.{Bytes, u64_mod}
use offchain_com.Core.Action.{Error, Result, Result-cases, ok, err, panic, Host}
use offchain_com.Core.State.{VmState, hash, verify_code_hash}
use offchain_com.Core.Machine.{Vm}
use offchain_com.Core.Step.{step}
use offchain_com.Proof.Types.{StepProof, TransitionProof}
use offchain_com.Proof.Merkle.{calculate_trace_root}
use offchain_com.Proof.Diff.{diff_memory}
use offchain_com.Proof.Transition.{
  require, check_before, check_after, verify_step, verify_steps, vm_at, check_end, check_start,
  verify,
}

require-ok :
    (b : Bool) (e : Error) (k : Result (Unit {0}))
    → require b e k ≡ ok tt
    → (b ≡ true) × (k ≡ ok tt)
require-ok true e k h = (refl, h)
require-ok false e k h = cc

-- What the proof `p` of a step says of the machine before and after that step.
pub record Matches (host : Host VmState) (p : StepProof) (vm vm' : Vm) : Type 0 where
  pub succeeds : (step host vm).0 ≡ ok tt
  pub leads : vm' ≡ (step host vm).1
  pub hash_before : hash host vm.state ≡ p.state_hash_before
  pub at_pc : vm.state.pc ≡ p.pc
  pub operation : get_elem? vm.state.code vm.state.pc ≡ some p.op_code
  pub gas_before : vm.state.gas ≡ p.gas_before
  pub gas_cost : (vm.state.gas + u64_mod - vm'.state.gas) % u64_mod ≡ p.gas_cost
  pub gas_after : vm'.state.gas ≡ p.gas_after
  pub hash_after : hash host vm'.state ≡ p.state_hash_after

-- The machine goes from the first to the second one by the steps that the proofs describe.
pub data Replays (host : Host VmState) : List StepProof → Vm → Vm → Type 0 where
  done : {vm : Vm} → Replays host [] vm vm
  next :
      {p : StepProof} {ps : List StepProof} {vm mid vm' : Vm}
      → Matches host p vm mid
      → Replays host ps mid vm'
      → Replays host (p ∷ ps) vm vm'

module _ (host : Host VmState) where
  record Before (p : StepProof) (s : VmState) : Type 0 where
    hash_ok : hash host s ≡ p.state_hash_before
    pc_ok : s.pc ≡ p.pc
    op_ok : get_elem? s.code s.pc ≡ some p.op_code
    gas_ok : s.gas ≡ p.gas_before

  check_before-Before :
      (i : ℕ) (p : StepProof) (s : VmState) → check_before host i p s ≡ ok tt → Before p s
  unfolding check_before
  check_before-Before i p s h = elim (Option-cases (get_elem? s.code s.pc)) [
    | inl e ↦ ground arith
    | inr (op, e) ↦ record {
      hash_ok = ground (arith, bytes_eq→eq (hash host s) p.state_hash_before);
      pc_ok = ground arith;
      op_ok = ground arith;
      gas_ok = ground arith;
    }
  ]

  record After (p : StepProof) (before s : VmState) : Type 0 where
    cost_ok : (before.gas + u64_mod - s.gas) % u64_mod ≡ p.gas_cost
    gas_left : s.gas ≡ p.gas_after
    hash_left : hash host s ≡ p.state_hash_after

  check_after-After :
      (i : ℕ) (p : StepProof) (before s : VmState)
      → check_after host i p before s ≡ ok tt
      → After p before s
  unfolding check_after
  check_after-After i p before s h = elim (Result-cases (diff_memory before.memory s.memory)) [
    | inl (ws, e) ↦ record {
      cost_ok = ground arith;
      gas_left = ground arith;
      hash_left = ground (arith, bytes_eq→eq (hash host s) p.state_hash_after);
    }
    | inr (inl (x, e)) ↦ ground arith
    | inr (inr (f, e)) ↦ ground arith
  ]

  matches :
      (p : StepProof) (vm : Vm)
      → (step host vm).0 ≡ ok tt
      → Before p vm.state
      → After p vm.state (step host vm).1.state
      → Matches host p vm (step host vm).1
  matches p vm h b a = record {
    succeeds = h;
    leads = refl;
    hash_before = b.hash_ok;
    at_pc = b.pc_ok;
    operation = b.op_ok;
    gas_before = b.gas_ok;
    gas_cost = a.cost_ok;
    gas_after = a.gas_left;
    hash_after = a.hash_left;
  }

  verify_step-Matches :
      (i : ℕ) (p : StepProof) (vm : Vm)
      → (verify_step host i p vm).0 ≡ ok tt
      → Matches host p vm (verify_step host i p vm).1
  unfolding verify_step
  verify_step-Matches i p vm h = elim (Result-cases (check_before host i p vm.state)) [
    | inr (inl (x, e)) ↦ ground arith
    | inr (inr (f, e)) ↦ ground arith
    | inl (u, e) ↦ elim (Result-cases (step host vm).0) [
      | inr (inl (x, e')) ↦ ground arith
      | inr (inr (f, e')) ↦ ground arith
      | inl (v, e') ↦
          rw (e, e', verify_step)
            (matches p vm e' (check_before-Before i p vm.state e)
              (check_after-After i p vm.state (step host vm).1.state (ground arith)))
    ]
  ]

  -- The gas of the proofs, in `uint64`.
  pub gas_sum : ℕ → List StepProof → ℕ
  gas_sum gas [] = gas
  gas_sum gas (p ∷ ps) = gas_sum ((gas + p.gas_cost) % u64_mod) ps

  verify_steps-Replays :
      (i : ℕ) (ps : List StepProof) (gas total : ℕ) (vm : Vm)
      → (verify_steps host i ps gas vm).0 ≡ ok total
      → (total ≡ gas_sum gas ps) × Replays host ps vm (verify_steps host i ps gas vm).1
  unfolding verify_steps gas_sum
  verify_steps-Replays i [] gas total vm h = (ground arith, done)
  verify_steps-Replays i (p ∷ ps) gas total vm h = elim (Result-cases (verify_step host i p vm).0) [
    | inr (inl (x, e)) ↦ ground arith
    | inr (inr (f, e)) ↦ ground arith
    | inl (u, e) ↦
        let rest =
          verify_steps-Replays (suc i) ps ((gas + p.gas_cost) % u64_mod) total
            (verify_step host i p vm).1 (ground arith) in
        (rest.0, rw (e, verify_steps) (next (verify_step-Matches i p vm e) rest.1))
  ]

  -- What a proof that is accepted promises of the state `s` and of the machine that starts there.
  pub record Replayed (marshal : StepProof → Bytes) (p : TransitionProof) (s : VmState)
      : Type 0 where
    pub last : Vm
    pub replays : Replays host p.steps (vm_at host s) last
    pub initial_hash : hash host s ≡ p.initial_hash
    pub final_hash : hash host last.state ≡ p.final_hash
    pub start_step : s.step_count ≡ p.start_step
    pub end_step : last.state.step_count ≡ p.end_step
    pub gas_used : gas_sum 0 p.steps ≡ p.gas_used
    pub trace_root : calculate_trace_root host marshal p.steps ≡ p.trace_root
    pub code_intact : host.keccak256 s.code ≡ s.code_hash

  module _ (marshal : StepProof → Bytes) where
    record Start (p : TransitionProof) (s : VmState) (k : Result (Unit {0})) : Type 0 where
      initial_ok : hash host s ≡ p.initial_hash
      start_ok : s.step_count ≡ p.start_step
      root_ok : calculate_trace_root host marshal p.steps ≡ p.trace_root
      intact : host.keccak256 s.code ≡ s.code_hash
      goes_on : k ≡ ok tt

    verify_code_hash-ok :
        (s : VmState) → verify_code_hash host s ≡ ok tt → host.keccak256 s.code ≡ s.code_hash
    unfolding verify_code_hash
    verify_code_hash-ok s h = ground (arith, bytes_eq→eq (host.keccak256 s.code) s.code_hash)

    check_start-Start :
        (p : TransitionProof) (s : VmState) (k : Result (Unit {0}))
        → check_start host marshal p s k ≡ ok tt
        → Start p s k
    unfolding check_start
    check_start-Start p s k h = elim (Result-cases (verify_code_hash host s)) [
      | inr (inl (x, e)) ↦ ground arith
      | inr (inr (f, e)) ↦ ground arith
      | inl (u, e) ↦ record {
        initial_ok = ground (arith, bytes_eq→eq (hash host s) p.initial_hash);
        start_ok = ground arith;
        root_ok =
            ground (arith, bytes_eq→eq (calculate_trace_root host marshal p.steps) p.trace_root);
        intact = verify_code_hash-ok s e;
        goes_on = ground arith;
      }
    ]

    record End (p : TransitionProof) (gas : ℕ) (s : VmState) : Type 0 where
      gas_ok : gas ≡ p.gas_used
      final_ok : hash host s ≡ p.final_hash
      end_ok : s.step_count ≡ p.end_step

    check_end-End :
        (p : TransitionProof) (gas : ℕ) (s : VmState)
        → check_end host marshal p gas s ≡ ok tt
        → End p gas s
    unfolding check_end
    check_end-End p gas s h = record {
      gas_ok = ground arith;
      final_ok = ground (arith, bytes_eq→eq (hash host s) p.final_hash);
      end_ok = ground arith;
    }

    -- A proof that `Verify` accepts on the state `s` describes a run from `s`: all its steps succeed
    -- in a row, with the operations, the program counters, the gas and the hashes that the proof
    -- gives for each; they lead to a state with the final hash and the end step of the proof; the gas
    -- and the trace root of the proof are those of its steps; and the code of `s` has its code hash.
    pub verify-Replayed :
        (p : TransitionProof) (s : VmState) → verify host marshal p s ≡ ok tt → Replayed marshal p s
    unfolding verify
    verify-Replayed p s h =
        let start =
          check_start-Start p s
            (let (r, vm') = verify_steps host 0 p.steps 0 (vm_at host s) in
              elim r [
                | ok gas ↦ check_end host marshal p gas vm'.state
                | err e ↦ err e
                | panic f ↦ panic f
              ])
            h in
        elim (Result-cases (verify_steps host 0 p.steps 0 (vm_at host s)).0) [
          | inr (inl (x, e)) ↦ let g = start.goes_on in ground arith
          | inr (inr (f, e)) ↦ let g = start.goes_on in ground arith
          | inl (gas, e) ↦
              let over : End p gas (verify_steps host 0 p.steps 0 (vm_at host s)).1.state =
                check_end-End p gas (verify_steps host 0 p.steps 0 (vm_at host s)).1.state
                  (let g = start.goes_on in ground arith) in
              let run = verify_steps-Replays 0 p.steps 0 gas (vm_at host s) e in
              record {
                last = (verify_steps host 0 p.steps 0 (vm_at host s)).1;
                replays = run.1;
                initial_hash = start.initial_ok;
                final_hash = over.final_ok;
                start_step = start.start_ok;
                end_step = over.end_ok;
                gas_used = sym run.0 ∙ over.gas_ok;
                trace_root = start.root_ok;
                code_intact = start.intact;
              }
        ]
