-- ===== src/Proof/Types.antt =====
-- The data of a transition proof (purevm/proof/transition.go).
use offchain_com.Base.{ℕ, List}
use offchain_com.Core.Word.{Bytes, Word}

-- `MemAccess`
pub record MemAccess : Type 0 where
  pub offset : ℕ
  pub size : ℕ
  pub value : Bytes

-- `StepProof`. The words popped and pushed stand bottom first, as in Go's slices.
pub record StepProof : Type 0 where
  pub index : ℕ
  pub pc : ℕ
  pub op_code : ℕ
  pub gas_before : ℕ
  pub gas_cost : ℕ
  pub gas_after : ℕ
  pub stack_before_size : ℕ
  pub stack_after_size : ℕ
  pub stack_popped : List Word
  pub stack_pushed : List Word
  pub mem_read : List MemAccess
  pub mem_write : List MemAccess
  pub state_hash_before : Word
  pub state_hash_after : Word

-- `TransitionProof`
pub record TransitionProof : Type 0 where
  pub initial_hash : Word
  pub final_hash : Word
  pub code_hash : Word
  pub start_step : ℕ
  pub end_step : ℕ
  pub steps : List StepProof
  pub gas_used : ℕ
  pub trace_root : Word
