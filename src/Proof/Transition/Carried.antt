-- ===== src/Proof/Transition/Carried.antt =====
-- The loop of `GenerateTransitionProof` under `Verify` (purevm/proof/transition.go).
use offchain_com.Base.{
  ℕ, zero, suc, ◌+◌, ◌-◌, ◌%◌, ◌≤◌, ◌<◌, ◌≡◌, ◌≢◌, refl, sym, ap, ◌∙◌, subst, arith, false, List,
  [], ◌∷◌, ◌++◌, All, All-get_elem?, Option, some, Bool-cases, inl, inr, eq_of_some,
}
use mathlib.Core.List.{append-nil, append_assoc}
use offchain_com.Core.Word.{Bytes, IsWord, u64_mod}
use offchain_com.Core.Opcode
use offchain_com.Core.Opcode.{OpCode}
use offchain_com.Core.Action.{execution_failed, Result, Result-cases, ok, err, panic, Host}
use offchain_com.Core.State.{VmState}
use offchain_com.Core.Machine.{Vm}
use offchain_com.Core.Step.{step}
use offchain_com.Core.Step.Chains.{moved, moved_after, step-moved}
use offchain_com.Core.Step.Account.{Effect, step-Effect}
use offchain_com.Core.Step.Keeps.{IsVm}
use offchain_com.Core.Step.Invariant.{step-KeepsVm}
use offchain_com.Proof.Types.{StepProof}
use offchain_com.Proof.Transition.{
  prove_step, prove_steps, goes_on, verify_step, verify_steps, check_before, check_after,
}
use offchain_com.Proof.Transition.Replay.{prove_step-verify_step, Behind, prove_step-Behind}

-- A well-formed machine that has taken no snapshot and whose code takes none.
pub record Plain (vm : Vm) : Type 0 where
  pub valid : IsVm vm
  pub no_snapshots : vm.snapshots ≡ []
  pub takes_none : All (λ b. b ≢ Opcode.snapshot) vm.state.code

module _ (host : Host VmState) (hash_word : (bs : Bytes) → IsWord (host.keccak256 bs)) where
  -- One step that has been proved, on a running machine: its effect, and that it passes.
  record Proved (p : StepProof) (vm vm' : Vm) : Type 0 where
    passes : (i chain : ℕ) → verify_step host i p (moved chain vm) ≡ (ok tt, moved chain vm')
    plain : Plain vm'
    counted : vm'.state.step_count ≡ (vm.state.step_count + 1) % u64_mod
    pub same_code_hash : vm'.state.code_hash ≡ vm.state.code_hash

  spent :
      {p : StepProof} {vm vm' : Vm} (b : Behind host p vm vm')
      → Effect host b.op vm vm'
      → vm.state.gas < u64_mod
      → (vm.state.gas + u64_mod - vm'.state.gas) % u64_mod ≡ p.gas_cost
  spent b e fits = ground (arith, e.gas_spent, e.price_known, b.priced)

  -- `Verify` behind a step.
  abbrev verify_rest : ℕ → StepProof → VmState → Result (Unit {0}) × Vm → Result (Unit {0}) × Vm
  verify_rest i p before x = elim x.0 [
    | ok _ ↦ (check_after host i p before x.1.state, x.1)
    | err e ↦ (err (execution_failed i e), x.1)
    | panic f ↦ (panic f, x.1)
  ]

  verify_rest-moved :
      (i : ℕ) (p : StepProof) (before : VmState) (r : Result (Unit {0})) (chain : ℕ) (vm : Vm)
      → verify_rest i p before (r, moved chain vm)
        ≡ moved_after chain (verify_rest i p before (r, vm))
  verify_rest-moved i p before (ok u) chain vm = refl
  verify_rest-moved i p before (err x) chain vm = refl
  verify_rest-moved i p before (panic x) chain vm = refl

  verify_step-moved :
      (i : ℕ) (p : StepProof) (chain : ℕ) (vm : Vm)
      → step host (moved chain vm) ≡ moved_after chain (step host vm)
      → verify_step host i p (moved chain vm) ≡ moved_after chain (verify_step host i p vm)
  unfolding verify_step
  verify_step-moved i p chain vm e = elim (Result-cases (check_before host i p vm.state)) [
    | inl (u, f) ↦
        rw (verify_step, f)
          (ap (verify_rest i p vm.state) e
            ∙ verify_rest-moved i p vm.state (step host vm).0 chain (step host vm).1)
    | inr (inl (x, f)) ↦ rw (verify_step, f) refl
    | inr (inr (x, f)) ↦ rw (verify_step, f) refl
  ]

  prove_step-Proved :
      (p : StepProof) (vm : Vm)
      → Plain vm
      → vm.halted ≡ false
      → (prove_step host vm).0 ≡ ok p
      → Proved p vm (prove_step host vm).1
  prove_step-Proved p vm h running e =
      let b = prove_step-Behind host p vm e in
      let ne =
        All-get_elem? (λ b. b ≢ Opcode.snapshot) vm.state.code vm.state.pc b.op h.takes_none b.at in
      let eff : Effect host b.op vm (prove_step host vm).1 =
        subst (Effect host b.op vm) (sym b.lands) (
          step-Effect host b.op vm running b.at h.valid.current.gas_fits h.no_snapshots ne
            b.stepped) in
      record {
        passes = λ i chain.
            verify_step-moved i p chain vm (step-moved host b.op chain vm running b.at ne)
            ∙ ap (moved_after chain)
                (prove_step-verify_step host i p vm e (spent b eff h.valid.current.gas_fits));
        plain = record {
          valid = subst IsVm (sym b.lands) (step-KeepsVm host hash_word vm h.valid);
          no_snapshots = eff.no_snapshots;
          takes_none = subst (All (λ b. b ≢ Opcode.snapshot)) (sym eff.code_kept) h.takes_none;
        };
        counted = eff.one_step;
        same_code_hash = eff.code_hash_kept;
      }

  -- The loop from `vm` to `vm'`, which adds proofs to `ps` and makes `all` of them.
  pub record Carried (ps all : List StepProof) (gas total : ℕ) (vm vm' : Vm) : Type 0 where
    pub added : List StepProof
    pub joined : all ≡ ps ++ added
    pub verifies :
        (i chain : ℕ) → verify_steps host i added gas (moved chain vm) ≡ (ok total, moved chain vm')
    pub forward : vm.state.step_count ≤ vm'.state.step_count
    pub same_code_hash : vm'.state.code_hash ≡ vm.state.code_hash

  nothing-Carried :
      (ps all : List StepProof) (gas total : ℕ) (vm vm' : Vm)
      → ◌≡◌ {A = Option (Result (List StepProof × ℕ) × Vm)}
          (some (ok (ps, gas), vm))
          (some (ok (all, total), vm'))
      → Carried ps all gas total vm vm'
  unfolding verify_steps
  nothing-Carried ps all gas total vm vm' e =
      subst
        (λ (t : Result (List StepProof × ℕ) × Vm). elim t.0 [
          | ok r ↦ Carried ps r.0 gas r.1 vm t.1
          | err x ↦ Unit
          | panic f ↦ Unit
        ])
        (eq_of_some e)
        (record {
          added = [];
          joined = sym (append-nil ps);
          verifies = λ i chain. refl;
          forward = omega arith;
          same_code_hash = refl;
        })

  cons-Carried :
      (p : StepProof) (ps all : List StepProof) (gas total : ℕ) (vm mid vm' : Vm)
      → Proved p vm mid
      → vm.state.step_count + 1 < u64_mod
      → Carried (ps ++ p ∷ []) all ((gas + p.gas_cost) % u64_mod) total mid vm'
      → Carried ps all gas total vm vm'
  unfolding verify_steps
  cons-Carried p ps all gas total vm mid vm' q fits c = record {
    added = p ∷ c.added;
    joined = c.joined ∙ append_assoc ps (p ∷ []) c.added;
    verifies = λ i chain.
        rw
          (
            verify_steps,
            ap (λ (t : Result (Unit {0}) × Vm). t.0) (q.passes i chain),
            ap (λ (t : Result (Unit {0}) × Vm). t.1) (q.passes i chain),
          )
          (c.verifies (suc i) chain);
    forward = omega (arith, q.counted, c.forward);
    same_code_hash = c.same_code_hash ∙ q.same_code_hash;
  }

  pub prove_steps-Carried :
      (fuel steps i : ℕ) (ps all : List StepProof) (gas total : ℕ) (vm vm' : Vm)
      → Plain vm
      → vm.state.step_count + fuel < u64_mod
      → prove_steps host fuel steps i ps gas vm ≡ some (ok (all, total), vm')
      → Carried ps all gas total vm vm'
  unfolding prove_steps
  prove_steps-Carried zero steps i ps all gas total vm vm' h fits e = cc
  prove_steps-Carried (suc fuel) steps i ps all gas total vm vm' h fits e =
      elim (Bool-cases (goes_on host steps i vm)) [
        | inr over ↦ nothing-Carried ps all gas total vm vm' (ground arith)
        | inl more ↦ elim (Result-cases (prove_step host vm).0) [
          | inr (inl (x, f)) ↦ ground arith
          | inr (inr (x, f)) ↦ ground arith
          | inl (p, f) ↦
              let q = prove_step-Proved p vm h (ground arith) f in
              cons-Carried p ps all gas total vm (prove_step host vm).1 vm' q (omega arith) (
                prove_steps-Carried fuel steps (suc i) (ps ++ p ∷ []) all
                  ((gas + p.gas_cost) % u64_mod) total (prove_step host vm).1 vm' q.plain
                  (omega (arith, q.counted)) (ground arith))
        ]
      ]
