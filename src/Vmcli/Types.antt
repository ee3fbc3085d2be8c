-- ===== src/Vmcli/Types.antt =====
-- How a command of the command line (purevm/cmd/vmcli/main.go) ends: it prints its result, it exits
-- with status 1, or it panics. A file that cannot be read or decoded is `none`.
use offchain_com.Base.{ℕ, ◌≡◌, refl, ◌⊎◌, inl, inr}
use offchain_com.Core.Action.{Error, Fault}

-- Why a command exits with status 1.
pub data Failure : Type 0 where
  unreadable_file invalid_code unwritable_file payload_too_large verdict_is_invalid no_threshold :
      Failure
  proof_file_too_large : ℕ → Failure
  unexpected_length : ℕ → Failure
  reported : Error → Failure

pub data Outcome (A : Type 0) : Type 0 where
  finished : A → Outcome A
  exits : Failure → Outcome A
  crashes : Fault → Outcome A

infixl 5 ◌>>=◌
abbrev pub ◌>>=◌ : {A B : Type 0} → Outcome A → (A → Outcome B) → Outcome B
finished a >>= f = f a
exits x >>= f = exits x
crashes p >>= f = crashes p

pub Outcome-cases :
    {A : Type 0} (o : Outcome A)
    → ((a : A) × (o ≡ finished a))
      ⊎ (((x : Failure) × (o ≡ exits x)) ⊎ ((p : Fault) × (o ≡ crashes p)))
Outcome-cases (finished a) = inl (a, refl)
Outcome-cases (exits x) = inr (inl (x, refl))
Outcome-cases (crashes p) = inr (inr (p, refl))
