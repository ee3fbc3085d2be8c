-- ===== src/Vmcli/Countdown/Floor.antt =====
-- The gas of the counting loop (purevm/cmd/vmcli/main.go) against the floor that is asked for.
use offchain_com.Base.{ℕ, ◌-◌, ◌≤◌, ◌<◌, ◌↔◌, arith}
use offchain_com.Core.Word.{u64_mod}
use offchain_com.Vmcli.Countdown.{
  countdown_iterations_for_gas_floor, countdown_gas_for_iterations, u32_mod,
}

pub countdown_iterations-lt : (f : ℕ) → countdown_iterations_for_gas_floor f < u32_mod
unfolding countdown_iterations_for_gas_floor
countdown_iterations-lt f = ground arith

-- The gas of the counting loop that `generate-artifacts` makes for a floor is the least one of any such
-- loop that reaches the floor, up to the floor of 2 ^ 32 - 1 iterations; above, the number of
-- iterations is cut to 32 bits and the gas does not reach the floor.
pub countdown_gas-floor :
    (f n : ℕ)
    → f < u64_mod
    → ((f ≤ countdown_gas_for_iterations (countdown_iterations_for_gas_floor f))
        ↔ (f ≤ countdown_gas_for_iterations (u32_mod - 1)))
      × (f ≤ countdown_gas_for_iterations n
          → f ≤ countdown_gas_for_iterations (u32_mod - 1)
          → countdown_iterations_for_gas_floor f ≤ n)
unfolding countdown_iterations_for_gas_floor countdown_gas_for_iterations
countdown_gas-floor f n h = ((λ k. ground arith, λ k. ground arith), λ k l. ground arith)
