-- ===== src/Base/Numbers.antt =====
-- Facts on the native numbers that the byte arithmetic needs.
use Prim.Native.Nat.{ℕ, zero, suc, ◌+◌, ◌*◌, ◌/◌, ◌%◌, ◌^◌, ◌<◌}
use mathlib.Core.Path.{◌≡◌, ◌∙◌, ap}
use native.Mathlib.Omega.{arith}
use native.Mathlib.Nat.{div-add-mod, mod-lt, mul-add-mod_self_left, mod-eq_of_lt, pow-zero, pow-suc}

module _ (z k m : ℕ) (pk : 0 < k) (pm : 0 < m) where
  -- The remainder by a product is below it when put together from its two digits.
  digits_lt : k * (z / k % m) + z % k < k * m
  digits_lt = grind (arith, mod-lt (z / k) pm, mod-lt z pk)

  split : z ≡ k * m * (z / k / m) + (k * (z / k % m) + z % k)
  split = omega (arith, div-add-mod z k, ap (λ (t : ℕ). k * t) (div-add-mod (z / k) m))

  -- The last digit splits off a remainder by a product.
  pub mod-mul_split : z % (k * m) ≡ k * (z / k % m) + z % k
  mod-mul_split =
      ap (λ (t : ℕ). t % (k * m)) split
      ∙ mul-add-mod_self_left (k * m) (z / k / m) (k * (z / k % m) + z % k)
      ∙ mod-eq_of_lt digits_lt

pub pow_pos : (b n : ℕ) → 0 < b → 0 < b ^ n
pow_pos b zero h = omega (arith, pow-zero b)
pow_pos b (suc n) h = grind (arith, pow-suc b n, pow_pos b n h)
