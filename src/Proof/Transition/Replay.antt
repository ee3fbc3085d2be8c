-- ===== src/Proof/Transition/Replay.antt =====
-- The checks of `Verify` on a step that `GenerateTransitionProof` has recorded
-- (purevm/proof/transition.go).
use offchain_com.Base.{
  ℕ, ◌+◌, ◌-◌, ◌%◌, ◌≡◌, refl, sym, ap, ◌∙◌, subst, arith, true, ◌==◌, List, [], ◌∷◌, some,
  Option-cases, List-cases, Bool-cases, inl, inr, get_elem?, reverse, bytes_eq_self,
}
use offchain_com.Core.Word.{Bytes, Word, u64_mod, uint64}
use offchain_com.Core.Opcode
use offchain_com.Core.Opcode.{OpCode}
use offchain_com.Core.Action.{Result, Result-cases, ok, err, panic, Host}
use offchain_com.Core.State.{VmState, hash}
use offchain_com.Core.Machine.{Vm}
use offchain_com.Core.Gas.{calc_opcode_cost}
use offchain_com.Core.Step.{step}
use offchain_com.Proof.Types.{MemAccess, StepProof}
use offchain_com.Proof.Diff.{
  read_memory, infer_memory_reads, diff_stacks, diff_memory, equal_words, equal_mem_accesses,
}
use offchain_com.Proof.Transition.{
  check_reads, recorded, record_step, finalized, finalize_step, prove_step, check_before,
  check_after, verify_step,
}

equal_words_self : (ws : List Word) → equal_words ws ws ≡ true
unfolding equal_words
equal_words_self [] = refl
equal_words_self (w ∷ ws) = ground (arith, bytes_eq_self w, equal_words_self ws)

equal_mem_accesses_self : (ws : List MemAccess) → equal_mem_accesses ws ws ≡ true
unfolding equal_mem_accesses
equal_mem_accesses_self [] = refl
equal_mem_accesses_self (w ∷ ws) = ground (arith, bytes_eq_self w.value, equal_mem_accesses_self ws)

abbrev or_else : {A : Type 0} → A → Result A → A
or_else d (ok a) = a
or_else d (err e) = d
or_else d (panic f) = d

eq_of_ok : {A : Type 0} {a b : A} → ok a ≡ ok b → a ≡ b
eq_of_ok {a} e = ap (or_else a) e

one_read :
    (i a : ℕ) (m v : Bytes)
    → read_memory m a 32 ≡ ok v
    → check_reads i (record { offset = a; size = 32; value = v } ∷ []) m ≡ ok tt
unfolding check_reads
one_read i a m v h = ground (arith, bytes_eq_self v)

no_reads :
    (i : ℕ) (m : Bytes) (reads : List MemAccess) → ok [] ≡ ok reads → check_reads i reads m ≡ ok tt
unfolding check_reads
no_reads i m reads h = subst (λ rs. check_reads i rs m ≡ ok tt) (eq_of_ok h) refl

-- What `inferMemoryReads` has read is there to be read.
infer_memory_reads-check_reads :
    (i : ℕ) (op : OpCode) (s : VmState) (reads : List MemAccess)
    → infer_memory_reads op s ≡ ok reads
    → check_reads i reads s.memory ≡ ok tt
unfolding infer_memory_reads check_reads
infer_memory_reads-check_reads i op s reads h = elim (Bool-cases (op == Opcode.mload)) [
  | inr e ↦ no_reads i s.memory reads (ground arith)
  | inl e ↦ elim (List-cases s.stack) [
    | inl e' ↦ no_reads i s.memory reads (ground arith)
    | inr (w, ws, e') ↦ elim (Result-cases (read_memory s.memory (uint64 w) 32)) [
      | inr (inl (x, e'')) ↦ ground arith
      | inr (inr (f, e'')) ↦ ground arith
      | inl (v, e'') ↦
          let same : ok (record { offset = uint64 w; size = 32; value = v } ∷ []) ≡ ok reads =
            ground arith in
          subst (λ rs. check_reads i rs s.memory ≡ ok tt) (eq_of_ok same)
            (one_read i (uint64 w) s.memory v e'')
    ]
  ]
]

module _ (host : Host VmState) where
  record Recorded (s : VmState) (p : StepProof) : Type 0 where
    pub op : OpCode
    pub cost : ℕ
    pub reads : List MemAccess
    pub at : get_elem? s.code s.pc ≡ some op
    pub priced : calc_opcode_cost host op s ≡ ok cost
    pub read : infer_memory_reads op s ≡ ok reads
    pub made : recorded host op cost reads s ≡ p

  record_step-Recorded : (s : VmState) (p : StepProof) → record_step host s ≡ ok p → Recorded s p
  unfolding record_step
  record_step-Recorded s p h = elim (Option-cases (get_elem? s.code s.pc)) [
    | inl e ↦ ground arith
    | inr (op, e) ↦ elim (Result-cases (calc_opcode_cost host op s)) [
      | inr (inl (x, e')) ↦ ground arith
      | inr (inr (f, e')) ↦ ground arith
      | inl (cost, e') ↦ elim (Result-cases (infer_memory_reads op s)) [
        | inr (inl (x, e'')) ↦ ground arith
        | inr (inr (f, e'')) ↦ ground arith
        | inl (reads, e'') ↦ record {
          op = op;
          cost = cost;
          reads = reads;
          at = e;
          priced = e';
          read = e'';
          made = ground arith;
        }
      ]
    ]
  ]

  module _ (i op cost : ℕ) (reads writes : List MemAccess) (s s' : VmState) where
    passes_before :
        get_elem? s.code s.pc ≡ some op
        → infer_memory_reads op s ≡ ok reads
        → check_before host i (finalized host (recorded host op cost reads s) s s' writes) s ≡ ok tt
    unfolding check_before
    passes_before at read =
        ground
          (arith, bytes_eq_self (hash host s), infer_memory_reads-check_reads i op s reads read)

    passes_after :
        diff_memory s.memory s'.memory ≡ ok writes
        → (s.gas + u64_mod - s'.gas) % u64_mod ≡ cost
        → check_after host i (finalized host (recorded host op cost reads s) s s' writes) s s'
          ≡ ok tt
    unfolding check_after
    passes_after diff paid = ground (
      arith,
      bytes_eq_self (hash host s'),
      equal_words_self (diff_stacks (reverse s.stack) (reverse s'.stack)).0,
      equal_words_self (diff_stacks (reverse s.stack) (reverse s'.stack)).1,
      equal_mem_accesses_self writes,
    )

  -- A step whose proof has been made, at the price that the proof gives, passes `Verify` and leads
  -- where it led.
  pub prove_step-verify_step :
      (i : ℕ) (p : StepProof) (vm : Vm)
      → (prove_step host vm).0 ≡ ok p
      → (vm.state.gas + u64_mod - (prove_step host vm).1.state.gas) % u64_mod ≡ p.gas_cost
      → verify_step host i p vm ≡ (ok tt, (prove_step host vm).1)
  unfolding prove_step verify_step finalize_step
  prove_step-verify_step i p vm h paid = elim (Result-cases (record_step host vm.state)) [
    | inr (inl (x, e)) ↦ ground arith
    | inr (inr (f, e)) ↦ ground arith
    | inl (p0, e) ↦ elim (Result-cases (step host vm).0) [
      | inr (inl (x, e')) ↦ ground arith
      | inr (inr (f, e')) ↦ ground arith
      | inl (u, e') ↦
          elim (Result-cases (diff_memory vm.state.memory (step host vm).1.state.memory)) [
            | inr (inl (x, e'')) ↦ ground arith
            | inr (inr (f, e'')) ↦ ground arith
            | inl (ws, e'') ↦
                let r = record_step-Recorded vm.state p0 e in
                let after = (step host vm).1 in
                let q =
                  finalized host (recorded host r.op r.cost r.reads vm.state) vm.state after.state
                    ws in
                let same : finalized host p0 vm.state after.state ws ≡ p =
                  eq_of_ok (ground arith) in
                let made : q ≡ p =
                  ap (λ t. finalized host t vm.state after.state ws) r.made ∙ same in
                let lands : (prove_step host vm).1 ≡ after = rw (prove_step, e, e') refl in
                let cost : p.gas_cost ≡ r.cost = ap (λ (t : StepProof). t.gas_cost) (sym made) in
                let before : check_before host i p vm.state ≡ ok tt =
                  subst (λ t. check_before host i t vm.state ≡ ok tt) made
                    (passes_before i r.op r.cost r.reads ws vm.state after.state r.at r.read) in
                let behind : check_after host i p vm.state after.state ≡ ok tt =
                  subst (λ t. check_after host i t vm.state after.state ≡ ok tt) made
                    (passes_after i r.op r.cost r.reads ws vm.state after.state e'' (
                      subst
                        (λ (v : Vm). (vm.state.gas + u64_mod - v.state.gas) % u64_mod ≡ p.gas_cost)
                        lands paid
                      ∙ cost)) in
                rw (prove_step, verify_step, e, before, e', behind) refl
          ]
    ]
  ]

  -- The step behind a proof.
  pub record Behind (p : StepProof) (vm vm' : Vm) : Type 0 where
    pub op : OpCode
    pub at : get_elem? vm.state.code vm.state.pc ≡ some op
    pub priced : calc_opcode_cost host op vm.state ≡ ok p.gas_cost
    pub stepped : (step host vm).0 ≡ ok tt
    pub lands : vm' ≡ (step host vm).1

  pub prove_step-Behind :
      (p : StepProof) (vm : Vm) → (prove_step host vm).0 ≡ ok p → Behind p vm (prove_step host vm).1
  unfolding prove_step finalize_step
  prove_step-Behind p vm h = elim (Result-cases (record_step host vm.state)) [
    | inr (inl (x, e)) ↦ ground arith
    | inr (inr (f, e)) ↦ ground arith
    | inl (p0, e) ↦ elim (Result-cases (step host vm).0) [
      | inr (inl (x, e')) ↦ ground arith
      | inr (inr (f, e')) ↦ ground arith
      | inl (u, e') ↦
          elim (Result-cases (diff_memory vm.state.memory (step host vm).1.state.memory)) [
            | inr (inl (x, e'')) ↦ ground arith
            | inr (inr (f, e'')) ↦ ground arith
            | inl (ws, e'') ↦
                let r = record_step-Recorded vm.state p0 e in
                let same : finalized host p0 vm.state (step host vm).1.state ws ≡ p =
                  eq_of_ok (ground arith) in
                record {
                  op = r.op;
                  at = r.at;
                  priced =
                      r.priced
                      ∙ ap ok (
                          ap (λ (t : StepProof). t.gas_cost) r.made
                          ∙ ap (λ (t : StepProof). t.gas_cost) same);
                  stepped = e';
                  lands = rw (prove_step, e, e') refl;
                }
          ]
    ]
  ]
