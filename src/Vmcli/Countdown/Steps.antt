-- ===== src/Vmcli/Countdown/Steps.antt =====
-- Successful steps of a machine (purevm/core/vm.go) that runs the counting loop of
-- purevm/cmd/vmcli/main.go.
use offchain_com.Base.{
  ℕ, suc, ◌+◌, ◌-◌, ◌%◌, ◌≤◌, ◌<◌, ◌≡◌, refl, ap, ◌∙◌, arith, false, List, [], ◌∷◌, length,
  get_elem?, none, some, leb, ltb,
}
use offchain_com.Core.Opcode.Name.{op_name}
use offchain_com.Core.Word.{Bytes, Word, u64_mod, fill_bytes}
use offchain_com.Core.Opcode.{OpCode}
use offchain_com.Core.Action.{Result, ok, err, panic, Host}
use offchain_com.Core.State.{VmState, get_stack_depth}
use offchain_com.Core.Machine.{Vm, TraceStep}
use offchain_com.Core.Gas.{calc_opcode_cost}
use offchain_com.Core.Step.{next_pc, finish_step, execute, charge, perform, step}
use offchain_com.Core.Step.Account.{step_at}
use offchain_com.Vmcli.Countdown.{build_countdown_loop}

-- A machine that has taken no snapshot and whose code has its code hash.
pub record Sound (host : Host VmState) (vm : Vm) : Type 0 where
  pub empty : vm.snapshots ≡ []
  pub intact : host.keccak256 vm.state.code ≡ vm.state.code_hash

-- A run of successful steps of sound machines that have not halted and have no error.
pub data Steps (host : Host VmState) : ℕ → Vm → Vm → Type 0 where
  stay : {vm : Vm} → Sound host vm → Steps host 0 vm vm
  move :
      {k : ℕ} {vm mid vm' : Vm}
      → Sound host vm
      → vm.halted ≡ false
      → vm.error ≡ none
      → step host vm ≡ (ok tt, mid)
      → Steps host k mid vm'
      → Steps host (suc k) vm vm'

module _ (host : Host VmState) where
  -- A step whose price is known and covered and whose instruction is known.
  pub step_of :
      (op : OpCode) (cost : ℕ) (vm mid : Vm)
      → vm.halted ≡ false
      → get_elem? vm.state.code vm.state.pc ≡ some op
      → calc_opcode_cost host op vm.state ≡ ok cost
      → cost ≤ vm.state.gas
      → execute host op vm ≡ (ok tt, mid)
      → step host vm ≡ (ok tt, finish_step op vm.state.pc cost mid)
  unfolding perform charge
  step_of op cost vm mid running at priced covered done =
      let enough : ltb vm.state.gas cost ≡ false = ground arith in
      let charged : charge host op cost vm ≡ (ok tt, finish_step op vm.state.pc cost mid) =
        rw
          (
            charge,
            enough,
            ap (λ (r : Result (Unit {0}) × Vm). r.0) done,
            ap (λ (r : Result (Unit {0}) × Vm). r.1) done,
          )
          refl in
      let performed : perform host op vm ≡ (ok tt, finish_step op vm.state.pc cost mid) =
        rw (perform, priced) charged in
      step_at host op vm running at
      ∙ ap
          (λ (r : Result (Unit {0}) × Vm). elim r.0 as (λ _. Result (Unit {0}) × Vm) [
            | ok _ ↦ (ok tt, r.1)
            | err e ↦ (err e, record (r.1) { error = some e })
            | panic p ↦ (panic p, r.1)
          ])
          performed

  module _ (chain_id n : ℕ) where
    abbrev pub code : Bytes
    code = build_countdown_loop n

    abbrev pub state_at : ℕ → List Word → ℕ → ℕ → VmState
    state_at pc stack gas count = record {
      pc = pc;
      stack = stack;
      memory = [];
      gas = gas;
      refund = 0;
      code = code;
      code_hash = host.keccak256 code;
      step_count = count;
      call_value = none;
      call_data = [];
    }

    -- The running machine, with its trace.
    abbrev pub point : ℕ → List Word → ℕ → ℕ → List TraceStep → Vm
    point pc stack gas count trace = record {
      state = state_at pc stack gas count;
      chain_id = chain_id;
      snapshots = [];
      halted = false;
      error = none;
      steps = trace;
    }

    pub length-code : length code ≡ 19
    unfolding build_countdown_loop fill_bytes
    length-code = refl

    -- A step from one point to the next one.
    unfoldable pub Goes : ℕ → List Word → ℕ → ℕ → List Word → Type 0
    Goes pc stack cost pc' stack' =
        (gas count : ℕ) (trace : List TraceStep)
        → gas + cost < u64_mod
        → count + 1 < u64_mod
        → (trace' : List TraceStep) × (step host (point pc stack (gas + cost) count trace)
            ≡ (ok tt, point pc' stack' gas (count + 1) trace'))

    pub goes :
        (op pc cost left pc' : ℕ) (stack stack' : List Word)
        → get_elem? code pc ≡ some op
        → ((gas count : ℕ) → calc_opcode_cost host op (state_at pc stack gas count) ≡ ok cost)
        → ((gas count : ℕ) (trace : List TraceStep)
            → execute host op (point pc stack gas count trace)
              ≡ (ok tt, point left stack' gas count trace))
        → next_pc op pc left ≡ pc'
        → pc' < 19
        → Goes pc stack cost pc' stack'
    unfolding Goes finish_step
    goes op pc cost left pc' stack stack' at priced done next inside gas count trace fits fits' =
        let s =
          step_of op cost (point pc stack (gas + cost) count trace)
            (point left stack' (gas + cost) count trace) refl at (priced (gas + cost) count)
            (omega arith) (done (gas + cost) count trace) in
        let outside : leb (length code) (next_pc op pc left) ≡ false =
          ground (arith, length-code) in
        let paid : (gas + cost + u64_mod - cost) % u64_mod ≡ gas = omega arith in
        let counted : (count + 1) % u64_mod ≡ count + 1 = omega arith in
        (
          record {
            pc = pc;
            op = op_name op;
            gas_cost = cost;
            gas_left = gas;
            stack_size = get_stack_depth (state_at left stack' (gas + cost) count);
            op_code = op;
          }
              ∷ trace,
          s ∙ rw (finish_step, outside, next, paid, counted) refl,
        )
