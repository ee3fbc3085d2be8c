-- ===== src/Proof/Transition/Complete.antt =====
-- `Verify` on what `GenerateTransitionProof` makes (purevm/proof/transition.go).
use offchain_com.Base.{
  ℕ, ◌+◌, ◌≤◌, ◌<◌, ◌≡◌, ◌≢◌, refl, sym, ap, ◌∙◌, subst, arith, true, List, [], All, some,
  Option-cases, inl, inr, bytes_eq, bytes_eq_self, eq_of_some,
}
use offchain_com.Core.Word.{Bytes, IsWord, u64_mod}
use offchain_com.Core.Opcode
use offchain_com.Core.Opcode.{OpCode}
use offchain_com.Core.Action.{Result, ok, err, panic, Host}
use offchain_com.Core.State.{VmState, clone, hash, verify_code_hash}
use offchain_com.Core.State.Valid.{IsState}
use offchain_com.Core.Machine.{Vm, new_vm}
use offchain_com.Core.Step.Chains.{moved}
use offchain_com.Proof.Types.{StepProof, TransitionProof}
use offchain_com.Proof.Merkle.{calculate_trace_root}
use offchain_com.Proof.Transition.{
  prove_steps, verify_steps, vm_at, proof_of, generate_transition_proof, check_start, check_end,
  verify,
}
use offchain_com.Proof.Transition.Carried.{Plain, Carried, prove_steps-Carried}

bytes_eq_of : (a b : List ℕ) → a ≡ b → bytes_eq a b ≡ true
bytes_eq_of a b e = subst (λ x. bytes_eq a x ≡ true) e (bytes_eq_self a)

module _ (host : Host VmState) (hash_word : (bs : Bytes) → IsWord (host.keccak256 bs)) where
  module _ (marshal : StepProof → Bytes) where
    passes_start :
        (p : TransitionProof) (s : VmState) (k : Result (Unit {0}))
        → verify_code_hash host s ≡ ok tt
        → hash host s ≡ p.initial_hash
        → s.code_hash ≡ p.code_hash
        → s.step_count ≡ p.start_step
        → p.start_step ≤ p.end_step
        → calculate_trace_root host marshal p.steps ≡ p.trace_root
        → check_start host marshal p s k ≡ k
    unfolding check_start
    passes_start p s k intact a b c d e = ground (
      arith,
      bytes_eq_of (hash host s) p.initial_hash a,
      bytes_eq_of s.code_hash p.code_hash b,
      bytes_eq_of (calculate_trace_root host marshal p.steps) p.trace_root e,
    )

    passes_end :
        (p : TransitionProof) (gas : ℕ) (s : VmState)
        → gas ≡ p.gas_used
        → hash host s ≡ p.final_hash
        → s.step_count ≡ p.end_step
        → check_end host marshal p gas s ≡ ok tt
    unfolding check_end
    passes_end p gas s a b c = ground (arith, bytes_eq_of (hash host s) p.final_hash b)

    -- What `GenerateTransitionProof` has proved of a run.
    record Generated (p : TransitionProof) (vm vm' : Vm) : Type 0 where
      replays :
          (chain : ℕ)
          → verify_steps host 0 p.steps 0 (moved chain vm) ≡ (ok p.gas_used, moved chain vm')
      initial : hash host vm.state ≡ p.initial_hash
      final : hash host vm'.state ≡ p.final_hash
      code : vm.state.code_hash ≡ p.code_hash
      start : vm.state.step_count ≡ p.start_step
      end : vm'.state.step_count ≡ p.end_step
      order : p.start_step ≤ p.end_step
      root : calculate_trace_root host marshal p.steps ≡ p.trace_root

    Generated-verify :
        (chain : ℕ) (p : TransitionProof) (s : VmState) (vm' : Vm)
        → verify_code_hash host s ≡ ok tt
        → Generated p (moved chain (vm_at host s)) vm'
        → verify host marshal p s ≡ ok tt
    unfolding verify vm_at clone
    Generated-verify chain p s vm' intact g =
        passes_start p s
          (let (r, vm') = verify_steps host 0 p.steps 0 (vm_at host s) in
            elim r [
              | ok gas ↦ check_end host marshal p gas vm'.state
              | err e ↦ err e
              | panic f ↦ panic f
            ])
          intact g.initial g.code g.start g.order g.root
        ∙ (ap
              (λ (t : Result ℕ × Vm). elim t.0 [
                | ok gas ↦ check_end host marshal p gas t.1.state
                | err e ↦ err e
                | panic f ↦ panic f
              ])
              (g.replays (vm_at host s).chain_id)
            ∙ passes_end p p.gas_used vm'.state refl g.final g.end)

    Carried-Generated :
        (ps : List StepProof) (gas : ℕ) (vm vm' : Vm)
        → Carried host hash_word [] ps 0 gas vm vm'
        → Generated (proof_of host marshal vm ps gas vm') vm vm'
    Carried-Generated ps gas vm vm' c = record {
      replays = λ chain.
          subst (λ qs. verify_steps host 0 qs 0 (moved chain vm) ≡ (ok gas, moved chain vm'))
            (sym c.joined) (c.verifies 0 chain);
      initial = refl;
      final = refl;
      code = sym c.same_code_hash;
      start = refl;
      end = refl;
      order = c.forward;
      root = refl;
    }

    Outcome : Vm → Result TransitionProof × Vm → Type 0
    Outcome vm (ok p, vm') = Generated p vm vm'
    Outcome vm (err e, vm') = Unit
    Outcome vm (panic f, vm') = Unit

    steps-Outcome :
        (fuel steps : ℕ) (vm : Vm) (r : Result TransitionProof × Vm)
        → Plain vm
        → vm.state.step_count + fuel < u64_mod
        → generate_transition_proof host marshal fuel steps vm ≡ some r
        → Outcome vm r
    unfolding generate_transition_proof Outcome
    steps-Outcome fuel steps vm r h fits e =
        elim (Option-cases (prove_steps host fuel steps 0 [] 0 vm)) [
          | inl f ↦ ground arith
          | inr ((ok (ps, gas), vm'), f) ↦
              subst (Outcome vm) {x = (ok (proof_of host marshal vm ps gas vm'), vm')}
                (eq_of_some (ground arith))
                (Carried-Generated ps gas vm vm'
                  (prove_steps-Carried host hash_word fuel steps 0 [] ps 0 gas vm vm' h fits f))
          | inr ((err x, vm'), f) ↦
              subst (Outcome vm) {x = (err x, vm')} (eq_of_some (ground arith)) tt
          | inr ((panic x, vm'), f) ↦
              subst (Outcome vm) {x = (panic x, vm')} (eq_of_some (ground arith)) tt
        ]

    generate-Generated :
        (fuel steps : ℕ) (p : TransitionProof) (vm vm' : Vm)
        → Plain vm
        → vm.state.step_count + fuel < u64_mod
        → generate_transition_proof host marshal fuel steps vm ≡ some (ok p, vm')
        → Generated p vm vm'
    unfolding Outcome
    generate-Generated fuel steps p vm vm' h fits e =
        steps-Outcome fuel steps vm (ok p, vm') h fits e

    -- The same of a run that starts on any chain.
    pub generate-verify_anywhere :
        (chain fuel steps : ℕ) (p : TransitionProof) (s : VmState) (vm' : Vm)
        → IsState s
        → All (λ b. b ≢ Opcode.snapshot) s.code
        → verify_code_hash host s ≡ ok tt
        → s.step_count + fuel < u64_mod
        → generate_transition_proof host marshal fuel steps (moved chain (vm_at host s))
          ≡ some (ok p, vm')
        → verify host marshal p s ≡ ok tt
    unfolding vm_at clone new_vm
    generate-verify_anywhere chain fuel steps p s vm' h none_taken intact fits e =
        Generated-verify chain p s vm' intact (
          generate-Generated fuel steps p (moved chain (vm_at host s)) vm'
            (record {
              valid = record { current = h; taken = tt };
              no_snapshots = refl;
              takes_none = none_taken;
            })
            fits e)

    -- `Verify` accepts on a state `s` what `GenerateTransitionProof` makes of a run from `s`, of any
    -- number of steps: the state is well formed, its code has its code hash and no `SNAPSHOT`, and the
    -- steps that the fuel allows do not overflow the step count. A Keccak-256 hash is a word.
    pub generate-verify :
        (fuel steps : ℕ) (p : TransitionProof) (s : VmState) (vm' : Vm)
        → IsState s
        → All (λ b. b ≢ Opcode.snapshot) s.code
        → verify_code_hash host s ≡ ok tt
        → s.step_count + fuel < u64_mod
        → generate_transition_proof host marshal fuel steps (vm_at host s) ≡ some (ok p, vm')
        → verify host marshal p s ≡ ok tt
    generate-verify fuel steps p s vm' h none_taken intact fits e =
        generate-verify_anywhere (vm_at host s).chain_id fuel steps p s vm' h none_taken intact fits
          e
