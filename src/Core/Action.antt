-- ===== src/Core/Action.antt =====
-- Methods on an object behind a pointer: they return a value, an error or panic, and what they wrote
-- before an error stays written. Errors carry what their message prints.
use offchain_com.Base.{ℕ, ◌≡◌, refl, ap, ◌⊎◌, inl, inr}
use offchain_com.Base.Int.{ℤ}
use offchain_com.Core.Word.{Bytes, Word}

pub data Error : Type 0 where
  -- state.go
  stack_overflow stack_underflow : Error
  word_hex_too_long : ℕ → Error
  invalid_hex invalid_base64 : Error
  code_hash_mismatch : Bytes → Bytes → Error
  -- gas_table.go
  undefined_gas_cost : ℕ → Error
  exp_underflow memory_underflow : Error
  -- instructions.go
  jump_out_of_bounds jump_invalid jumpi_out_of_bounds jumpi_invalid : ℕ → Error
  snapshot_not_found : Bytes → Error
  push_overflow dup_underflow swap_underflow : ℕ → ℕ → Error
  -- vm.go
  out_of_gas : ℕ → ℕ → Error
  undefined_opcode : ℕ → ℕ → Error
  snapshot_integrity : Error → Error
  transition_hash_mismatch : Bytes → Bytes → Error
  -- snapshot.go
  header_code_hash_mismatch integrity_mismatch : Bytes → Bytes → Error
  non_increasing_step : ℕ → ℕ → Error
  link_initial_mismatch link_final_mismatch : Error
  -- snapshot_index.go
  ordinal_out_of_range no_next_snapshot : ℤ → Error
  non_increasing_gas non_increasing_step_number exceeds_threshold : ℕ → ℕ → Error
  -- proof/dispute.go
  nil_index empty_index : Error
  initial_root_mismatch : Word → Word → Error
  non_canonical_ordinal prefix_broken : ℕ → Error
  -- proof/snapshot_verify.go
  start_integrity committed_integrity : Error → Error
  zero_threshold : Error
  next_hash_mismatch : Word → Word → Error
  -- proof/transition.go
  initial_hash_mismatch code_hash_differs trace_root_mismatch : Error
  start_step_mismatch invalid_step_range : ℕ → ℕ → Error
  step_index_mismatch pc_mismatch : ℕ → ℕ → ℕ → Error
  pre_state_mismatch opcode_mismatch gas_before_mismatch stack_size_before_mismatch : ℕ → Error
  memory_read_mismatch gas_cost_mismatch gas_after_mismatch stack_size_after_mismatch : ℕ → Error
  stack_pop_mismatch stack_push_mismatch memory_write_mismatch post_state_mismatch : ℕ → Error
  execution_failed : ℕ → Error → Error
  proof_gas_mismatch final_hash_mismatch end_step_mismatch : Error
  -- precompile/snapshot_validator.go
  input_too_short input_truncated trailing_bytes : Error
  snapshot_too_large proof_too_large : ℕ → ℕ → Error
  undecodable_json : Error

-- Run-time panics of Go.
pub data Fault : Type 0 where
  index_out_of_range slice_out_of_range makeslice : Fault

pub data Result (A : Type 0) : Type 0 where
  ok : A → Result A
  err : Error → Result A
  panic : Fault → Result A

pub Result-cases :
    {A : Type 0} (r : Result A)
    → ((a : A) × (r ≡ ok a)) ⊎ (((e : Error) × (r ≡ err e)) ⊎ ((p : Fault) × (r ≡ panic p)))
Result-cases (ok a) = inl (a, refl)
Result-cases (err e) = inr (inl (e, refl))
Result-cases (panic p) = inr (inr (p, refl))

abbrev pub Action : Type 0 → Type 0 → Type 0
Action S A = S → Result A × S

module _ {S A : Type 0} where
  abbrev pub pure : A → Action S A
  pure a s = (ok a, s)

  abbrev pub fail : Error → Action S A
  fail e s = (err e, s)

  abbrev pub fault : Fault → Action S A
  fault p s = (panic p, s)

  abbrev pub gets : (S → A) → Action S A
  gets f s = (ok (f s), s)

abbrev pub modify : {S : Type 0} → (S → S) → Action S (Unit {0})
modify f s = (ok tt, f s)

infixl 5 ◌>>=◌ ◌>>◌
abbrev pub ◌>>=◌ : {S A B : Type 0} → Action S A → (A → Action S B) → Action S B
◌>>=◌ m f s =
    let (r, s') = m s in elim r [ ok a ↦ f a s' | err e ↦ (err e, s') | panic p ↦ (panic p, s') ]

abbrev pub ◌>>◌ : {S B : Type 0} → Action S (Unit {0}) → Action S B → Action S B
m >> k = m >>= λ _. k

-- What the program takes from the packages that it imports: go-ethereum's Keccak-256, its printing
-- of bytes and hashes, its conversion of bytes to a hash and its gas constants, and the clock that
-- stamps a snapshot of a state.
pub record Host (S : Type 0) : Type 0 where
  pub keccak256 : Bytes → Word
  pub bytes_to_hex : Bytes → Bytes
  pub hash_hex : Word → Bytes
  pub bytes_to_hash : Bytes → Word
  pub jumpdest_gas : ℕ
  pub exp_gas : ℕ
  pub exp_byte_gas : ℕ
  pub unix_time : S → ℕ

-- Behind a success goes on what follows.
pub bind_ok :
    {S A B : Type 0} (m : Action S A) (f : A → Action S B) (s : S) (a : A) (s' : S)
    → m s ≡ (ok a, s')
    → (m >>= f) s ≡ f a s'
bind_ok {S} {A} {B} m f s a s' e =
    ap
      (λ (t : Result A × S). elim t.0 as (λ _. Result B × S) [
        | ok x ↦ f x t.1
        | err x ↦ (err x, t.1)
        | panic p ↦ (panic p, t.1)
      ])
      e
