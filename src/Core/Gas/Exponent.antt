-- ===== src/Core/Gas/Exponent.antt =====
-- The price of `EXP` (purevm/core/gas_table.go).
use offchain_com.Base.{ℕ, suc, ◌+◌, ◌*◌, ◌%◌, ◌≡◌, ◌≢◌, ap, ◌∙◌, arith, List, [], ◌∷◌, ◌++◌, length}
use mathlib.Core.List.{reverse-append}
use offchain_com.Core.Word.{Word, u64_mod}
use offchain_com.Core.Action.{ok, Host}
use offchain_com.Core.State.{VmState, get_stack_depth}
use offchain_com.Core.Gas.Price.{length-reverse}
use offchain_com.Core.Gas.{exp_bytes_from, exp_bytes, calc_exp_gas}

-- The loop counts the bytes up to the last one that is not 0.
exp_bytes-snoc : (front : List ℕ) (b : ℕ) → b ≢ 0 → exp_bytes (front ++ b ∷ []) ≡ suc (length front)
unfolding exp_bytes exp_bytes_from
exp_bytes-snoc front b h =
    ap exp_bytes_from (reverse-append front (b ∷ [])) ∙ ground (arith, length-reverse front)

calc_exp_gas-cons :
    (host : Host VmState) (s : VmState) (exp base : Word) (ws : List Word)
    → s.stack ≡ exp ∷ (base ∷ ws)
    → calc_exp_gas host s
      ≡ ok ((host.exp_gas + exp_bytes exp * host.exp_byte_gas % u64_mod) % u64_mod)
unfolding calc_exp_gas get_stack_depth
calc_exp_gas-cons host s exp base ws e = ground arith

-- `calcExpGas` charges an exponent whose last byte is not 0, however small the exponent is, for all
-- its 32 bytes: the exponent is written big endian, and the bytes are counted from its front.
pub calc_exp_gas_odd :
    (host : Host VmState) (s : VmState) (front : List ℕ) (b : ℕ) (base : Word) (ws : List Word)
    → s.stack ≡ (front ++ b ∷ []) ∷ (base ∷ ws)
    → length front ≡ 31
    → b ≢ 0
    → calc_exp_gas host s ≡ ok ((host.exp_gas + 32 * host.exp_byte_gas % u64_mod) % u64_mod)
calc_exp_gas_odd host s front b base ws e n h =
    calc_exp_gas-cons host s (front ++ b ∷ []) base ws e
    ∙ ap (λ (k : ℕ). ok ((host.exp_gas + k * host.exp_byte_gas % u64_mod) % u64_mod))
        (exp_bytes-snoc front b h ∙ omega (arith, n))
