-- ===== src/Core/Snapshot/Integrity.antt =====
-- `VerifyIntegrity` (purevm/core/snapshot.go).
use offchain_com.Base.{◌≡◌, ◌⊎◌, inl, inr, sym, ◌∙◌, arith, ℕ, bytes_eq→eq, bytes_eq_self}
use offchain_com.Core.Action.{Result-cases, ok, Host}
use offchain_com.Core.State.{VmState, clone, hash, verify_code_hash, serialize_canonical}
use offchain_com.Core.State.Collision.{Collision, keccak-binds}
use offchain_com.Core.Snapshot.{StandardSnapshot, new_standard_snapshot, verify_integrity}

module _ (host : Host VmState) where
  -- The snapshot of a state passes `VerifyIntegrity` exactly as its code passes `VerifyCodeHash`.
  pub new_standard_snapshot-verify_integrity :
      (s : VmState) (chain_id : ℕ)
      → verify_integrity host (new_standard_snapshot host s chain_id) ≡ verify_code_hash host s
  unfolding verify_integrity new_standard_snapshot clone verify_code_hash
  new_standard_snapshot-verify_integrity s chain_id =
      ground (arith, bytes_eq_self s.code_hash, bytes_eq_self (hash host s))

  pub verify_integrity-root :
      (snap : StandardSnapshot)
      → verify_integrity host snap ≡ ok tt
      → hash host snap.state ≡ snap.header.state_root
  unfolding verify_integrity
  verify_integrity-root snap h = elim (Result-cases (verify_code_hash host snap.state)) [
    | inl (u, e) ↦ ground (arith, bytes_eq→eq (hash host snap.state) snap.header.state_root)
    | inr (inl (x, e)) ↦ ground arith
    | inr (inr (f, e)) ↦ ground arith
  ]

  verify_integrity-code :
      (snap : StandardSnapshot)
      → verify_integrity host snap ≡ ok tt
      → host.keccak256 snap.state.code ≡ snap.header.code_hash
  unfolding verify_integrity verify_code_hash
  verify_integrity-code snap h = ground (
    arith,
    bytes_eq→eq (host.keccak256 snap.state.code) snap.state.code_hash,
    bytes_eq→eq snap.header.code_hash snap.state.code_hash,
  )

  -- The state root of a snapshot binds its state, and the code hash its code: two snapshots that
  -- pass `VerifyIntegrity` and agree in both have states with the same canonical text and the same
  -- code, or yield two texts with one Keccak-256 hash.
  pub verify_integrity-binds :
      (a b : StandardSnapshot)
      → verify_integrity host a ≡ ok tt
      → verify_integrity host b ≡ ok tt
      → a.header.state_root ≡ b.header.state_root
      → a.header.code_hash ≡ b.header.code_hash
      → ((serialize_canonical host a.state ≡ serialize_canonical host b.state)
          × (a.state.code ≡ b.state.code))
        ⊎ Collision host
  unfolding hash
  verify_integrity-binds a b ha hb root code =
      elim (keccak-binds host (serialize_canonical host a.state) (serialize_canonical host b.state)
        (verify_integrity-root a ha ∙ (root ∙ sym (verify_integrity-root b hb)))) [
          | inr x ↦ inr x
          | inl same ↦
              elim (keccak-binds host a.state.code b.state.code
                (verify_integrity-code a ha ∙ (code ∙ sym (verify_integrity-code b hb)))) [
                  | inr x ↦ inr x
                  | inl same_code ↦ inl (same, same_code)
                ]
        ]
