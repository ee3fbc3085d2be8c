-- ===== src/Vmcli/Checking/RoundTrip.antt =====
-- `verify` on what `prove-snapshot` has made (purevm/cmd/vmcli/main.go).
use offchain_com.Base.{
  ℕ, ◌+◌, ◌<◌, ◌≡◌, ◌≢◌, refl, ap, ◌∙◌, arith, All, some, Option-cases, eq_of_some, inl, inr,
}
use offchain_com.Core.Word.{Bytes, IsWord, u64_mod}
use offchain_com.Core.Opcode
use offchain_com.Core.Action.{Result-cases, ok, err, panic, Host}
use offchain_com.Core.State.{VmState, verify_code_hash}
use offchain_com.Core.State.Valid.{IsState}
use offchain_com.Core.Snapshot.{StandardSnapshot, verify_integrity}
use offchain_com.Core.Machine.{Vm}
use offchain_com.Proof.Types.{StepProof, TransitionProof}
use offchain_com.Proof.Transition.{verify, vm_at, generate_transition_proof}
use offchain_com.Proof.Transition.Complete.{generate-verify_anywhere}
use offchain_com.Proof.Predict.{restored}
use offchain_com.Vmcli.Types.{finished}
use offchain_com.Vmcli.Running.{check_snapshot, prove_from, generate_proof_from_snapshot}
use offchain_com.Vmcli.Checking.{verify_proof}
use offchain_com.Vmcli.Checking.Found.{finished_inj}

module _ (host : Host VmState) (marshal : StepProof → Bytes) where
  verify_integrity-verify_code_hash :
      (snap : StandardSnapshot)
      → verify_integrity host snap ≡ ok tt
      → verify_code_hash host snap.state ≡ ok tt
  unfolding verify_integrity
  verify_integrity-verify_code_hash snap h =
      elim (Result-cases (verify_code_hash host snap.state)) [
        | inl (u, e) ↦ e
        | inr (inl (x, e)) ↦ ground arith
        | inr (inr (x, e)) ↦ ground arith
      ]

  -- The proof that is made from the machine `vm`.
  prove_from-answer :
      (fuel steps : ℕ) (vm : Vm) (p : TransitionProof)
      → prove_from host fuel marshal steps vm ≡ some (finished p)
      → (vm' : Vm) × (generate_transition_proof host marshal fuel steps vm ≡ some (ok p, vm'))
  unfolding prove_from
  prove_from-answer fuel steps vm p e =
      elim (Option-cases (generate_transition_proof host marshal fuel steps vm)) [
        | inl f ↦ ground arith
        | inr ((ok q, vm'), f) ↦
            let same : q ≡ p = finished_inj (eq_of_some (ground arith)) in
            (vm', f ∙ ap (λ (t : TransitionProof). some (ok t, vm')) same)
        | inr ((err x, vm'), f) ↦ ground arith
        | inr ((panic x, vm'), f) ↦ ground arith
      ]

  -- `verify` passes on a snapshot and on the proof that `prove-snapshot` has made from it, of any number
  -- of steps: the state of the snapshot is well formed, its code has no `SNAPSHOT`, and the steps that
  -- the fuel allows do not overflow the step count. A Keccak-256 hash is a word.
  pub generate_proof_from_snapshot-verify_proof :
      (hash_word : (bs : Bytes) → IsWord (host.keccak256 bs)) (fuel steps : ℕ)
      (snap : StandardSnapshot) (p : TransitionProof)
      → IsState snap.state
      → All (λ b. b ≢ Opcode.snapshot) snap.state.code
      → snap.state.step_count + fuel < u64_mod
      → generate_proof_from_snapshot host fuel marshal (some snap) steps ≡ some (finished p)
      → verify_proof host marshal (some snap) (some p) ≡ finished p
  unfolding generate_proof_from_snapshot verify_proof check_snapshot vm_at
  generate_proof_from_snapshot-verify_proof hash_word fuel steps snap p h none_taken fits e =
      elim (Result-cases (verify_integrity host snap)) [
        | inr (inl (x, f)) ↦ ground arith
        | inr (inr (x, f)) ↦ ground arith
        | inl (u, f) ↦
            let made : prove_from host fuel marshal steps (restored host snap) ≡ some (finished p) =
              ground arith in
            let (vm', g) = prove_from-answer fuel steps (restored host snap) p made in
            let accepted : verify host marshal p snap.state ≡ ok tt =
              generate-verify_anywhere host hash_word marshal snap.header.chain_id fuel steps p
                snap.state vm' h none_taken (verify_integrity-verify_code_hash snap f) fits g in
            rw (verify_proof, f, accepted) refl
      ]
