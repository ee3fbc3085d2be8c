-- ===== src/Vmcli/Running.antt =====
-- The commands of the command line (purevm/cmd/vmcli/main.go) that run code: `run`, `snapshot`,
-- `check-snapshot`, `prove` and `prove-snapshot`, up to the names of the files that they write.
use offchain_com.Base.{ℕ, ◌||◌, List, [], ◌∷◌, Option, none, some, ◌==◌, if◌then◌else◌, drop}
use offchain_com.Core.Word.{Bytes, Word}
use offchain_com.Core.Action.{Result, ok, err, panic, Host}
use offchain_com.Core.State.{VmState, hash, get_stack_depth, word_hex}
use offchain_com.Core.Snapshot.{StandardSnapshot, new_standard_snapshot, verify_integrity}
use offchain_com.Core.Machine.{Vm, new_vm}
use offchain_com.Core.Step.{run, run_steps}
use offchain_com.Core.Encoding.{has_prefix, hex_decode}
use offchain_com.Proof.Types.{StepProof, TransitionProof}
use offchain_com.Proof.Transition.{generate_transition_proof}
use offchain_com.Proof.Predict.{restored}
use offchain_com.Vmcli.Types.{
  Outcome, finished, exits, crashes, unreadable_file, invalid_code, reported, ◌>>=◌,
}

-- `strip0x`
unfoldable pub strip_0x : Bytes → Bytes
strip_0x s = if has_prefix b'0' b'x' s || has_prefix b'0' b'X' s then drop 2 s else s

-- `parseHex`
unfoldable pub parse_hex : Bytes → Outcome Bytes
parse_hex s = elim (hex_decode (strip_0x s)) [ none ↦ exits invalid_code | some b ↦ finished b ]

-- An error is printed before the exit.
abbrev pub or_exit : {A B : Type 0} → Result A → (A → B) → Outcome B
or_exit (ok a) f = finished (f a)
or_exit (err e) f = exits (reported e)
or_exit (panic p) f = crashes p

-- What `runVM` prints.
pub record RunReport : Type 0 where
  pub steps : ℕ
  pub gas_remaining : ℕ
  pub stack_depth : ℕ
  pub stack_top : Option Bytes
  pub state_hash : Word

abbrev top_hex : List Word → Option Bytes
top_hex [] = none
top_hex (w ∷ ws) = some (word_hex w)

module _ (host : Host VmState) (fuel : ℕ) where
  -- `Run` if there is no limit of steps, else `RunSteps`; the fuel bounds `Run`.
  unfoldable pub execute_steps : ℕ → Vm → Option (Result (Unit {0}) × Vm)
  execute_steps steps vm = if steps == 0 then run host fuel vm else some (run_steps host steps vm)

  -- The machine behind a run that has gone well.
  unfoldable pub run_code : Bytes → ℕ → ℕ → Option (Outcome Vm)
  run_code code_hex gas_limit steps = elim (parse_hex code_hex) [
    | exits x ↦ some (exits x)
    | crashes p ↦ some (crashes p)
    | finished code ↦ elim (execute_steps steps (new_vm host code gas_limit)) [
      | none ↦ none
      | some (r, vm) ↦ some (or_exit r (λ _. vm))
    ]
  ]

  abbrev pub report_of : Vm → RunReport
  report_of vm = record {
    steps = vm.state.step_count;
    gas_remaining = vm.state.gas;
    stack_depth = get_stack_depth vm.state;
    stack_top = top_hex vm.state.stack;
    state_hash = hash host vm.state;
  }

  -- `runVM`
  unfoldable pub run_vm : Bytes → ℕ → ℕ → Option (Outcome RunReport)
  run_vm code_hex gas_limit steps = elim (run_code code_hex gas_limit steps) [
    | none ↦ none
    | some o ↦ some (o >>= λ vm. finished (report_of vm))
  ]

  -- `createSnapshot`, up to the writing of the file.
  unfoldable pub create_snapshot : Bytes → ℕ → ℕ → ℕ → Option (Outcome StandardSnapshot)
  create_snapshot code_hex gas_limit steps chain_id = elim (run_code code_hex gas_limit steps) [
    | none ↦ none
    | some o ↦ some (o >>= λ vm. finished (new_standard_snapshot host vm.state chain_id))
  ]

  -- `checkSnapshot`, on the snapshot in the file.
  unfoldable pub check_snapshot : Option StandardSnapshot → Outcome StandardSnapshot
  check_snapshot none = exits unreadable_file
  check_snapshot (some snap) = or_exit (verify_integrity host snap) (λ _. snap)

  module _ (marshal : StepProof → Bytes) where
    -- The proof of a run from `vm`.
    unfoldable pub prove_from : ℕ → Vm → Option (Outcome TransitionProof)
    prove_from steps vm = elim (generate_transition_proof host marshal fuel steps vm) [
      | none ↦ none
      | some (r, _) ↦ some (or_exit r (λ p. p))
    ]

    -- `generateProof`, up to the writing of the file.
    unfoldable pub generate_proof : Bytes → ℕ → ℕ → Option (Outcome TransitionProof)
    generate_proof code_hex gas_limit steps = elim (parse_hex code_hex) [
      | exits x ↦ some (exits x)
      | crashes p ↦ some (crashes p)
      | finished code ↦ prove_from steps (new_vm host code gas_limit)
    ]

    -- `generateProofFromSnapshot`, on the snapshot in the file and up to the writing of the proof.
    unfoldable pub generate_proof_from_snapshot :
        Option StandardSnapshot → ℕ → Option (Outcome TransitionProof)
    generate_proof_from_snapshot file steps = elim (check_snapshot file) [
      | exits x ↦ some (exits x)
      | crashes p ↦ some (crashes p)
      | finished snap ↦ prove_from steps (restored host snap)
    ]
