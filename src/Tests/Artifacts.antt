-- ===== src/Tests/Artifacts.antt =====
-- The counting loop of `generate-artifacts` (purevm/cmd/vmcli/main.go), small.
use offchain_com.Base.{◌-◌, ◌≤◌, ◌≡◌, ◌↔◌, refl, arith, List, [], ◌∷◌, some, Option}
use offchain_com.Core.Word.{Bytes, fill_bytes}
use offchain_com.Core.Action.{ok}
use offchain_com.Core.Machine.{TraceStep}
use offchain_com.Core.Step.{run}
use offchain_com.Vmcli.Types.{finished}
use offchain_com.Vmcli.Countdown.{
  u32_mod, countdown_iterations_for_gas_floor, countdown_gas_for_iterations, build_countdown_loop,
}
use offchain_com.Vmcli.Countdown.Floor.{countdown_gas-floor}
use offchain_com.Vmcli.Countdown.Run.{loaded, end_at, countdown_runs}
use offchain_com.Vmcli.Artifacts.{Disk, Cutting, snapshot_name, pad3}
use offchain_com.Vmcli.Artifacts.Ahead.{Chained}
use offchain_com.Vmcli.Generate.{cut_countdown}
use offchain_com.Vmcli.Generate.Finishes.{Complete, cut_countdown_finishes, cut_countdown-Chained}
use offchain_com.Core.Text.{codes, print_uint, print_digits}
use offchain_com.Tests.Machine.{host}
use offchain_com.Tests.Run.{marshal}

-- A directory is the list of the names in it.
abbrev disk : Disk (List Bytes)
disk = record {
  make = λ d. some d;
  write_snapshot = λ name snap d. some (name ∷ d);
  read_snapshot = λ name d. Option.none;
  write_proof = λ name p d. some (name ∷ d);
  write_index = λ index d. some d;
  proof_size = λ p. 0;
}

-- The program of three iterations.
three :
    build_countdown_loop 3
    ≡ 0x63 ∷ 0 ∷ 0 ∷ 0 ∷ 3 ∷ 0x5b ∷ 0x80 ∷ 0x15 ∷ 0x60 ∷ 0x11 ∷ 0x57 ∷ 0x60 ∷ 0x01 ∷ 0x03 ∷ 0x60
      ∷ 0x05 ∷ 0x56 ∷ 0x5b ∷ 0x00 ∷ []
unfolding build_countdown_loop fill_bytes
three = refl

name : snapshot_name (codes "_step_") 7 120 4096 ≡ codes "snapshot_007_step_120_gas_4096.json"
unfolding snapshot_name pad3 print_uint print_digits
name = refl

countdown_gas-floor_example :
    ((1000 ≤ countdown_gas_for_iterations (countdown_iterations_for_gas_floor 1000))
      ↔ (1000 ≤ countdown_gas_for_iterations (u32_mod - 1)))
    × (1000 ≤ countdown_gas_for_iterations 27
        → 1000 ≤ countdown_gas_for_iterations (u32_mod - 1)
        → countdown_iterations_for_gas_floor 1000 ≤ 27)
countdown_gas-floor_example = countdown_gas-floor 1000 27 (omega arith)

countdown_runs_example :
    (t : List TraceStep) × (run host 36 (loaded host 1 3) ≡ some (ok tt, end_at host 1 3 35 t))
countdown_runs_example = countdown_runs host refl 1 3 36 (omega arith) (omega arith)

abbrev cut :
    (c : Cutting (List Bytes)) × (cut_countdown host disk marshal 36 0 1 3 50 []
      ≡ some (finished c))
    × Complete host 1 3 50 disk [] c
cut =
    cut_countdown_finishes host refl disk marshal 36 0 1 3 50 []
      (λ name snap dir. (name ∷ dir, refl)) (omega arith) (omega arith)

cut_countdown_finishes_example :
    (c : Cutting (List Bytes)) × (cut_countdown host disk marshal 36 0 1 3 50 []
      ≡ some (finished c))
    × Complete host 1 3 50 disk [] c
cut_countdown_finishes_example =
    cut_countdown_finishes host refl disk marshal 36 0 1 3 50 []
      (λ name snap dir. (name ∷ dir, refl)) (omega arith) (omega arith)

cut_countdown-Chained_example : Chained host 50 36 cut.0.written
cut_countdown-Chained_example =
    cut_countdown-Chained host refl disk marshal 36 0 1 3 50 [] cut.0 (omega arith) (omega arith)
      cut.1
