-- ===== src/Proof/Predict/Accepts.antt =====
-- What `VerifyNextSnapshotHash` (purevm/proof/snapshot_verify.go) accepts.
use offchain_com.Base.{
  ℕ, ◌≡◌, inl, inr, ◌∙◌, subst, arith, Bool-cases, some, Option-cases, bytes_eq, bytes_eq→eq,
}
use offchain_com.Core.Action.{Result-cases, ok, Host}
use offchain_com.Core.State.{VmState}
use offchain_com.Core.Snapshot.{StandardSnapshot, verify_integrity}
use offchain_com.Proof.Predict.{
  NextSnapshotResult, predict_next_snapshot, verify_next_snapshot_hash,
}
use offchain_com.Base.{sym, ap, ◌⊎◌}
use offchain_com.Core.Snapshot.{new_standard_snapshot}
use offchain_com.Core.Snapshot.Integrity.{verify_integrity-root}
use offchain_com.Core.State.{hash, clone, serialize_canonical}
use offchain_com.Core.State.Collision.{Collision, keccak-binds}
use offchain_com.Proof.Predict.{
  NextSnapshotResult, restored, predict_next_snapshot, verify_next_snapshot_hash,
}
use offchain_com.Proof.Predict.Greedy.{Longest, predict_next_snapshot-Longest}

module _ (host : Host VmState) where
  -- Where `VerifyNextSnapshotHash` accepts.
  pub accepted :
      (fuel threshold : ℕ) (start committed : StandardSnapshot) (next : NextSnapshotResult)
      → verify_next_snapshot_hash host fuel start committed threshold ≡ some (ok next)
      → (verify_integrity host committed ≡ ok tt)
        × (predict_next_snapshot host fuel start threshold ≡ some (ok next))
        × (next.snapshot.header.state_root ≡ committed.header.state_root)
  unfolding verify_next_snapshot_hash
  accepted fuel threshold start committed next e =
      elim (Result-cases (verify_integrity host committed)) [
        | inr (inl (x, f)) ↦ ground arith
        | inr (inr (x, f)) ↦ ground arith
        | inl (u, f) ↦ elim (Option-cases (predict_next_snapshot host fuel start threshold)) [
          | inl g ↦ ground arith
          | inr (r, g) ↦ elim (Result-cases r) [
            | inr (inl (x, k)) ↦ ground arith
            | inr (inr (x, k)) ↦ ground arith
            | inl (n, k) ↦
                elim (Bool-cases
                  (bytes_eq n.snapshot.header.state_root committed.header.state_root)) [
                    | inr b ↦ ground arith
                    | inl b ↦
                        let same : n ≡ next = cc in
                        (
                          f,
                          g ∙ cc,
                          subst
                              (λ (x : NextSnapshotResult).
                                x.snapshot.header.state_root ≡ committed.header.state_root)
                              same
                              (bytes_eq→eq n.snapshot.header.state_root committed.header.state_root
                                b),
                        )
                  ]
          ]
        ]
      ]

  -- Where `VerifyNextSnapshotHash` accepts a committed snapshot, the snapshot passes `VerifyIntegrity`,
  -- the result is that of the longest segment within the threshold from the machine restored from the
  -- start, and the committed state has the canonical text of the state that the segment ends in, or
  -- two texts with one Keccak-256 hash are found.
  pub verify_next_snapshot_hash-binds :
      (fuel threshold : ℕ) (start committed : StandardSnapshot) (r : NextSnapshotResult)
      → verify_next_snapshot_hash host fuel start committed threshold ≡ some (ok r)
      → (verify_integrity host committed ≡ ok tt)
        × (l : Longest host threshold start (restored host start) r) × ((serialize_canonical host
                committed.state
              ≡ serialize_canonical host l.last.state)
            ⊎ Collision host)
  unfolding new_standard_snapshot hash clone
  verify_next_snapshot_hash-binds fuel threshold start committed r e =
      let (intact, predicted, root) = accepted fuel threshold start committed r e in
      let l = predict_next_snapshot-Longest host fuel threshold start r predicted in
      let taken : r.snapshot.header.state_root ≡ hash host l.last.state =
        ap (λ (x : StandardSnapshot). x.header.state_root) l.taken in
      (
        intact,
        l,
        keccak-binds host (serialize_canonical host committed.state)
            (serialize_canonical host l.last.state)
            (verify_integrity-root host committed intact ∙ (sym root ∙ taken)),
      )
