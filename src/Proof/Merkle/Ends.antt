-- ===== src/Proof/Merkle/Ends.antt =====
-- The loop of `CalculateTraceRoot` (purevm/proof/merkle.go).
use offchain_com.Base.{ℕ, zero, suc, ◌+◌, ◌/◌, ◌≤◌, ◌<◌, ◌≡◌, refl, arith, List, [], ◌∷◌, length}
use offchain_com.Core.Word.{Bytes}
use offchain_com.Core.Action.{Host}
use offchain_com.Core.State.{VmState}
use offchain_com.Proof.Merkle.{next_level, reduce}

module _ (host : Host VmState) where
  pub length-next_level : (ls : List Bytes) → length (next_level host ls) ≡ (length ls + 1) / 2
  unfolding next_level
  length-next_level [] = omega arith
  length-next_level (a ∷ []) = omega arith
  length-next_level (a ∷ (b ∷ ls)) = omega (arith, length-next_level ls)

  reduce-length :
      (fuel : ℕ) (ls : List Bytes)
      → 0 < length ls
      → length ls ≤ suc fuel
      → length (reduce host fuel ls) ≡ 1
  unfolding reduce
  reduce-length zero ls h k = omega arith
  reduce-length (suc fuel) [] h k = omega arith
  reduce-length (suc fuel) (a ∷ []) h k = refl
  reduce-length (suc fuel) (a ∷ (b ∷ ls)) h k =
      let n = length-next_level (a ∷ (b ∷ ls)) in
      reduce-length fuel (next_level host (a ∷ (b ∷ ls))) (omega arith) (omega arith)

  -- As many rounds as there are leaves reduce any leaves, if there is one, to a single one, so the
  -- loop has ended by then.
  pub length-reduce : (ls : List Bytes) → 0 < length ls → length (reduce host (length ls) ls) ≡ 1
  length-reduce ls h = reduce-length (length ls) ls h (omega arith)
