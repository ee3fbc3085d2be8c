-- ===== src/Vmcli/Countdown.antt =====
-- The program of the command `generate-artifacts` (purevm/cmd/vmcli/main.go): a loop that counts down.
pub mod Floor
pub mod Steps
pub mod Body
pub mod Counter
pub mod Run
use offchain_com.Base.{
  ℕ, ◌+◌, ◌-◌, ◌*◌, ◌/◌, ◌%◌, ◌^◌, ◌≡◌, Bool, true, false, [], ◌∷◌, leb, ◌==◌, if◌then◌else◌,
}
use offchain_com.Core.Word.{Bytes, fill_bytes}

-- `countdownSetupAndExitGas`
abbrev pub countdown_setup_and_exit_gas : ℕ
countdown_setup_and_exit_gas = 24

-- `countdownLoopGas`
abbrev pub countdown_loop_gas : ℕ
countdown_loop_gas = 37

-- `uint32` conversions wrap at this modulus.
abbrev pub u32_mod : ℕ
u32_mod = 2 ^ 32

-- `countdownIterationsForGasFloor`
unfoldable pub countdown_iterations_for_gas_floor : ℕ → ℕ
countdown_iterations_for_gas_floor gas_floor =
    if leb gas_floor countdown_setup_and_exit_gas
    then 0
    else (let remaining = gas_floor - countdown_setup_and_exit_gas in
        let iterations = remaining / countdown_loop_gas in
        (if remaining % countdown_loop_gas == 0 then iterations else iterations + 1) % u32_mod)

-- `countdownGasForIterations`; a `uint32` of iterations does not overflow a `uint64` of gas.
unfoldable pub countdown_gas_for_iterations : ℕ → ℕ
countdown_gas_for_iterations iterations =
    countdown_setup_and_exit_gas + iterations * countdown_loop_gas

-- `buildCountdownLoop`
unfoldable pub build_countdown_loop : ℕ → Bytes
build_countdown_loop iterations =
    0x63
    ∷ fill_bytes 4 iterations (
        0x5b ∷ 0x80 ∷ 0x15 ∷ 0x60 ∷ 0x11 ∷ 0x57 ∷ 0x60 ∷ 0x01 ∷ 0x03 ∷ 0x60 ∷ 0x05 ∷ 0x56 ∷ 0x5b
        ∷ 0x00 ∷ [])
