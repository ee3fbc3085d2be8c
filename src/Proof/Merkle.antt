-- ===== src/Proof/Merkle.antt =====
-- The Merkle root of a trace (purevm/proof/merkle.go).
pub mod Ends
pub mod Binding
use offchain_com.Base.{ℕ, zero, suc, ◌≡◌, List, [], ◌∷◌, ◌++◌, map, length, replicate}
use offchain_com.Core.Word.{Bytes, Word}
use offchain_com.Core.Action.{Host}
use offchain_com.Core.State.{VmState}
use offchain_com.Proof.Types.{StepProof}

module _ (host : Host VmState) where
  -- One round of the loop: neighbours are hashed together, and an odd one out is passed on.
  unfoldable pub next_level : List Bytes → List Bytes
  next_level [] = []
  next_level (a ∷ []) = a ∷ []
  next_level (a ∷ (b ∷ ls)) = host.keccak256 (a ++ b) ∷ next_level ls

  -- The loop `for len(leaves) > 1`, on fuel.
  unfoldable pub reduce : ℕ → List Bytes → List Bytes
  reduce zero ls = ls
  reduce (suc fuel) [] = []
  reduce (suc fuel) (a ∷ []) = a ∷ []
  reduce (suc fuel) (a ∷ (b ∷ ls)) = reduce fuel (next_level (a ∷ (b ∷ ls)))

  -- `common.BytesToHash(leaves[0])`
  abbrev pub first_leaf : List Bytes → Word
  first_leaf [] = replicate 32 0
  first_leaf (r ∷ rs) = host.bytes_to_hash r

  -- `marshal` is `json.Marshal` on a step.
  module _ (marshal : StepProof → Bytes) where
    -- `hashStep`
    unfoldable pub hash_step : StepProof → Bytes
    hash_step step = host.keccak256 (marshal step)

    -- `CalculateTraceRoot`; the fuel is the number of the leaves.
    unfoldable pub calculate_trace_root : List StepProof → Word
    calculate_trace_root [] = replicate 32 0
    calculate_trace_root (s ∷ ss) =
        let leaves = map hash_step (s ∷ ss) in first_leaf (reduce (length leaves) leaves)
