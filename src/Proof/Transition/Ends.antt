-- ===== src/Proof/Transition/Ends.antt =====
-- `GenerateTransitionProof` (purevm/proof/transition.go) with a bound on the steps.
use offchain_com.Base.{
  ℕ, zero, suc, ◌+◌, ◌%◌, ◌≤◌, ◌<◌, ◌≡◌, refl, arith, Bool-cases, Option-cases, inl, inr, List, [],
  ◌∷◌, ◌++◌, some,
}
use offchain_com.Core.Word.{Bytes, u64_mod}
use offchain_com.Core.Action.{Result, Result-cases, ok, err, panic, Host}
use offchain_com.Core.State.{VmState}
use offchain_com.Core.Machine.{Vm}
use offchain_com.Proof.Types.{StepProof, TransitionProof}
use offchain_com.Proof.Transition.{prove_step, goes_on, prove_steps, generate_transition_proof}

module _ (host : Host VmState) where
  prove_steps_ends :
      (fuel steps i : ℕ) (ps : List StepProof) (gas : ℕ) (vm : Vm)
      → 0 < steps
      → i ≤ steps
      → steps < i + fuel
      → (r : Result (List StepProof × ℕ) × Vm) × (prove_steps host fuel steps i ps gas vm ≡ some r)
  unfolding prove_steps
  prove_steps_ends zero steps i ps gas vm h b k = absurd (omega arith)
  prove_steps_ends (suc fuel) steps i ps gas vm h b k =
      elim (Bool-cases (goes_on host steps i vm)) [
        | inr over ↦ ((ok (ps, gas), vm), rw (over, prove_steps) refl)
        | inl more ↦ elim (Result-cases (prove_step host vm).0) [
          | inr (inl (x, e)) ↦ ((err x, (prove_step host vm).1), rw (prove_steps, more, e) refl)
          | inr (inr (x, e)) ↦ ((panic x, (prove_step host vm).1), rw (prove_steps, more, e) refl)
          | inl (p, e) ↦
              let below : suc i ≤ steps = ground arith in
              let rest =
                prove_steps_ends fuel steps (suc i) (ps ++ p ∷ []) ((gas + p.gas_cost) % u64_mod)
                  (prove_step host vm).1 h below (omega arith) in
              (rest.0, rw (prove_steps, more, e) rest.1)
        ]
      ]

  -- `GenerateTransitionProof` for at most `steps` steps, where `steps` is not 0, comes to a proof, an
  -- error or a panic within `steps` rounds of its loop, one more to leave it.
  pub generate_transition_proof_ends :
      (marshal : StepProof → Bytes) (fuel steps : ℕ) (vm : Vm)
      → 0 < steps
      → steps < fuel
      → (r : Result TransitionProof × Vm) × (generate_transition_proof host marshal fuel steps vm
          ≡ some r)
  unfolding generate_transition_proof
  generate_transition_proof_ends marshal fuel steps vm h k =
      let (r, made) = prove_steps_ends fuel steps 0 [] 0 vm h (omega arith) (omega arith) in
      elim (Option-cases (generate_transition_proof host marshal fuel steps vm)) [
        | inl e ↦ absurd (ground arith)
        | inr (t, e) ↦ (t, e)
      ]
