-- ===== src/Core/State/Collision.antt =====
-- Collisions of Keccak-256, for the hashes of purevm/core/state.go.
use offchain_com.Base.{
  ◌≡◌, ◌≢◌, ◌⊎◌, inl, inr, subst, true, false, Bool-cases, bytes_eq, bytes_eq→eq, bytes_eq_self,
}
use offchain_com.Core.Word.{Bytes}
use offchain_com.Core.Action.{Host}
use offchain_com.Core.State.{VmState}

-- Two texts with one hash.
pub record Collision (host : Host VmState) : Type 0 where
  pub first : Bytes
  pub second : Bytes
  pub differ : first ≢ second
  pub same : host.keccak256 first ≡ host.keccak256 second

bytes_eq-false : (a b : Bytes) → bytes_eq a b ≡ false → a ≢ b
bytes_eq-false a b h e =
    let p : bytes_eq a b ≡ true = subst (λ x. bytes_eq a x ≡ true) e (bytes_eq_self a) in cc

pub keccak-binds :
    (host : Host VmState) (a b : Bytes)
    → host.keccak256 a ≡ host.keccak256 b
    → (a ≡ b) ⊎ Collision host
keccak-binds host a b e = elim (Bool-cases (bytes_eq a b)) [
  | inl same ↦ inl (bytes_eq→eq a b same)
  | inr differ ↦
      inr (record { first = a; second = b; differ = bytes_eq-false a b differ; same = e })
]
