-- ===== src/Core/Step/Account.antt =====
-- The account of a `Step` (purevm/core/vm.go): gas, steps, code and memory.
use offchain_com.Base.{
  ℕ, ◌+◌, ◌%◌, ◌≤◌, ◌<◌, ◌≡◌, ◌≢◌, true, false, arith, [], length, get_elem?, some, Bool-cases, inl,
  inr, ltb, leb, subst, sym,
}
use offchain_com.Core.Word.{u64_mod}
use offchain_com.Core.Opcode
use offchain_com.Core.Opcode.{OpCode}
use offchain_com.Core.Action.{Result-cases, ok, Host}
use offchain_com.Core.State.{VmState}
use offchain_com.Core.Machine.{Vm}
use offchain_com.Core.Gas.{calc_opcode_cost}
use offchain_com.Core.Step.{finish_step, record_error, execute, charge, perform, step}
use offchain_com.Core.Step.Memory.{Padded, execute-Pads}
use offchain_com.Core.Step.Undisturbed.{Undisturbed, execute-Plain}

-- A successful step: its price was known and covered, its instruction succeeded, and the machine is
-- what that instruction left, charged.
pub record Stepped (host : Host VmState) (op : OpCode) (vm vm' : Vm) : Type 0 where
  pub cost : ℕ
  pub priced : calc_opcode_cost host op vm.state ≡ ok cost
  pub covered : cost ≤ vm.state.gas
  pub executed : (execute host op vm).0 ≡ ok tt
  pub charged : vm' ≡ finish_step op vm.state.pc cost (execute host op vm).1

module _ (host : Host VmState) where
  charge-Stepped :
      (op : OpCode) (cost : ℕ) (vm : Vm)
      → calc_opcode_cost host op vm.state ≡ ok cost
      → (charge host op cost vm).0 ≡ ok tt
      → Stepped host op vm (charge host op cost vm).1
  unfolding charge
  charge-Stepped op cost vm priced h = elim (Bool-cases (ltb vm.state.gas cost)) [
    | inl short ↦ ground arith
    | inr enough ↦ elim (Result-cases (execute host op vm).0) [
      | inl (a, e) ↦ record {
        cost = cost;
        priced = priced;
        covered = ground arith;
        executed = e;
        charged = rw (enough, e);
      }
      | inr (inl (x, e)) ↦ ground arith
      | inr (inr (p, e)) ↦ ground arith
    ]
  ]

  perform-Stepped :
      (op : OpCode) (vm : Vm)
      → (perform host op vm).0 ≡ ok tt
      → Stepped host op vm (perform host op vm).1
  unfolding perform
  perform-Stepped op vm h = elim (Result-cases (calc_opcode_cost host op vm.state)) [
    | inl (cost, e) ↦ rw (e, perform) (charge-Stepped op cost vm e (ground arith))
    | inr (inl (x, e)) ↦ ground arith
    | inr (inr (p, e)) ↦ ground arith
  ]

  -- Inside the code a running machine performs the operation at its program counter.
  pub step_at :
      (op : OpCode) (vm : Vm)
      → vm.halted ≡ false
      → get_elem? vm.state.code vm.state.pc ≡ some op
      → step host vm ≡ record_error (perform host op) vm
  unfolding step
  step_at op vm running at = simp (running, at)

  pub step-Stepped :
      (op : OpCode) (vm : Vm)
      → vm.halted ≡ false
      → get_elem? vm.state.code vm.state.pc ≡ some op
      → (step host vm).0 ≡ ok tt
      → Stepped host op vm (step host vm).1
  step-Stepped op vm running at h =
      let same : step host vm ≡ record_error (perform host op) vm = step_at op vm running at in
      elim (Result-cases (perform host op vm).0) [
        | inl (a, e) ↦ subst (Stepped host op vm) (ground (arith, same)) (perform-Stepped op vm e)
        | inr (inl (x, e)) ↦ ground (arith, same)
        | inr (inr (p, e)) ↦ ground (arith, same)
      ]

-- What a step costs and keeps, on a machine that has taken no snapshot.
pub record Effect (host : Host VmState) (op : OpCode) (vm vm' : Vm) : Type 0 where
  pub price : ℕ
  pub price_known : calc_opcode_cost host op vm.state ≡ ok price
  pub gas_spent : vm'.state.gas + price ≡ vm.state.gas
  pub one_step : vm'.state.step_count ≡ (vm.state.step_count + 1) % u64_mod
  pub code_kept : vm'.state.code ≡ vm.state.code
  pub code_hash_kept : vm'.state.code_hash ≡ vm.state.code_hash
  pub refund_kept : vm'.state.refund ≡ vm.state.refund
  pub memory_grows : length vm.state.memory ≤ length vm'.state.memory
  pub memory_kept : op ≢ Opcode.mstore → op ≢ Opcode.mstore8 → Padded vm.state vm'.state
  pub no_snapshots : vm'.snapshots ≡ []
  pub error_kept : vm'.error ≡ vm.error
  pub halts : leb (length vm'.state.code) vm'.state.pc ≡ true → vm'.halted ≡ true

module _ (host : Host VmState) where
  finish-Effect :
      (op : OpCode) (vm mid : Vm) (cost : ℕ)
      → calc_opcode_cost host op vm.state ≡ ok cost
      → cost ≤ vm.state.gas
      → vm.state.gas < u64_mod
      → Undisturbed op vm mid
      → (op ≢ Opcode.mstore → op ≢ Opcode.mstore8 → Padded vm.state mid.state)
      → Effect host op vm (finish_step op vm.state.pc cost mid)
  unfolding finish_step
  finish-Effect op vm mid cost priced covered fits u pads = record {
    price = cost;
    price_known = priced;
    gas_spent = ground (arith, u.frame);
    one_step = ground (arith, u.frame);
    code_kept = u.frame.code_kept;
    code_hash_kept = u.frame.code_hash_kept;
    refund_kept = u.frame.refund_kept;
    memory_grows = u.frame.memory_grows;
    memory_kept = λ ne ne'. let p = pads ne ne' in record { zeros = p.zeros; padded = p.padded };
    no_snapshots = u.no_snapshots;
    error_kept = u.error_kept;
    halts = λ e. ground arith;
  }

  -- A step that succeeds pays exactly the price that the gas table names for its operation, counts
  -- one step, and leaves the code, its hash and the refund alone; the memory does not shrink, and unless
  -- the operation is `MSTORE` or `MSTORE8`, all of it stays byte for byte, with zeros behind it where it
  -- grows; and a program counter at the end of the code halts the machine. The machine has taken no
  -- snapshot, the operation takes none, and the gas fits into 64 bits.
  pub step-Effect :
      (op : OpCode) (vm : Vm)
      → vm.halted ≡ false
      → get_elem? vm.state.code vm.state.pc ≡ some op
      → vm.state.gas < u64_mod
      → vm.snapshots ≡ []
      → op ≢ Opcode.snapshot
      → (step host vm).0 ≡ ok tt
      → Effect host op vm (step host vm).1
  step-Effect op vm running at fits empty ne h =
      let st = step-Stepped host op vm running at h in
      subst (Effect host op vm) (sym st.charged) (
        finish-Effect op vm (execute host op vm).1 st.cost st.priced st.covered fits
          (execute-Plain host op ne vm empty st.executed)
          (λ a b. execute-Pads host op a b ne vm empty st.executed))
