-- ===== src/Vmcli/Generate/Loop.antt =====
-- The machines of the counting loop of `generate-artifacts` (purevm/cmd/vmcli/main.go).
use offchain_com.Base.{
  ℕ, suc, ◌+◌, ◌*◌, ◌<◌, ◌≡◌, refl, sym, ap, subst, false, true, bytes_eq_self, bytes_eq,
}
use offchain_com.Core.Action.{Result, ok, Host}
use offchain_com.Core.State.{VmState, verify_code_hash}
use offchain_com.Core.Machine.{Vm}
use offchain_com.Core.Step.{step}
use offchain_com.Vmcli.Countdown.{u32_mod}
use offchain_com.Vmcli.Countdown.Steps.{Sound, Steps, stay, move}
use offchain_com.Vmcli.Countdown.Run.{end_at, loaded, loaded-Steps}
use offchain_com.Vmcli.Artifacts.Machines.{Keeps}

-- A machine from which successful steps lead to a machine that has halted.
pub record Runs (host : Host VmState) (vm : Vm) : Type 0 where
  pub steps : ℕ
  pub last : Vm
  pub way : Steps host steps vm last
  pub over : last.halted ≡ true

module _ (host : Host VmState) where
  Steps-Sound : {k : ℕ} {vm vm' : Vm} → Steps host k vm vm' → Sound host vm
  Steps-Sound (stay w) = w
  Steps-Sound (move w running clean s rest) = w

  Sound-verify_code_hash : (vm : Vm) → Sound host vm → verify_code_hash host vm.state ≡ ok tt
  unfolding verify_code_hash
  Sound-verify_code_hash vm s =
      let e : bytes_eq (host.keccak256 vm.state.code) vm.state.code_hash ≡ true =
        subst (λ h. bytes_eq (host.keccak256 vm.state.code) h ≡ true) s.intact
          (bytes_eq_self (host.keccak256 vm.state.code)) in
      rw (verify_code_hash, e) refl

  step-Runs :
      {k : ℕ} {vm last : Vm}
      → Steps host k vm last
      → last.halted ≡ true
      → vm.halted ≡ false
      → Runs host (step host vm).1
  step-Runs (stay w) over running = cc
  step-Runs {k = suc k} {vm = vm} {last = last} (move w running clean s rest) over h = record {
    steps = k;
    last = last;
    way = subst (λ v. Steps host k v last) (sym (ap (λ (r : Result (Unit {0}) × Vm). r.1) s)) rest;
    over = over;
  }

  pub Runs-Keeps : Keeps host (Runs host)
  Runs-Keeps = record {
    empty = λ vm r. (Steps-Sound r.way).empty;
    intact = λ vm r. Sound-verify_code_hash vm (Steps-Sound r.way);
    kept = λ vm r running done. step-Runs r.way r.over running;
  }

  -- The counting loop runs to its end on the gas that is computed for it.
  pub loaded-Runs :
      (chain_id n : ℕ)
      → host.jumpdest_gas ≡ 1
      → n < u32_mod
      → (r : Runs host (loaded host chain_id n)) × (r.steps ≡ 9 * n + 8)
  loaded-Runs chain_id n paid h =
      let (t, s) = loaded-Steps host paid chain_id n h in
      (
        record {
          steps = 9 * n + 8;
          last = end_at host chain_id n (9 * n + 8) t;
          way = s;
          over = refl;
        },
        refl,
      )
