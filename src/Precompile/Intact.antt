-- ===== src/Precompile/Intact.antt =====
-- The check on a state that the precompile has decoded (purevm/precompile/snapshot_validator.go).
use offchain_com.Base.{
  ◌≡◌, inl, inr, subst, arith, not, ◌&&◌, length, Option-cases, Bool-cases, ltb, bytes_eq,
}
use offchain_com.Core.Word.{Bytes}
use offchain_com.Core.Text.{codes}
use offchain_com.Core.Action.{Result, Result-cases, ok, err, panic, Host}
use offchain_com.Core.State.{VmState, clone, verify_code_hash}
use offchain_com.Core.Snapshot.{StandardSnapshot, verify_integrity}
use offchain_com.Proof.Types.{StepProof}
use offchain_com.Precompile.{
  Decoder, decode_snapshot_state, decode_bare_state, decode_initial_state,
}

module _ (host : Host VmState) (marshal : StepProof → Bytes) (decoder : Decoder) where
  Intact : Result VmState → Type 0
  Intact (ok s) = verify_code_hash host s ≡ ok tt
  Intact (err e) = Unit
  Intact (panic f) = Unit

  verify_integrity-verify_code_hash :
      (snap : StandardSnapshot)
      → verify_integrity host snap ≡ ok tt
      → verify_code_hash host snap.state ≡ ok tt
  unfolding verify_integrity
  verify_integrity-verify_code_hash snap h =
      elim (Result-cases (verify_code_hash host snap.state)) [
        | inl (tt, e) ↦ e
        | inr (inl (x, e)) ↦ ground arith
        | inr (inr (x, e)) ↦ ground arith
      ]

  decode_snapshot_state-Intact :
      (bytes : Bytes) → Intact (decode_snapshot_state host marshal decoder bytes)
  unfolding Intact decode_snapshot_state clone verify_code_hash
  decode_snapshot_state-Intact bytes = elim (Option-cases (decoder.snapshot bytes)) [
    | inl e ↦ rw (decode_snapshot_state, e) tt
    | inr (snap, e) ↦ elim (Result-cases (verify_integrity host snap)) [
      | inl (tt, f) ↦ rw (decode_snapshot_state, e, f) (verify_integrity-verify_code_hash snap f)
      | inr (inl (x, f)) ↦ rw (decode_snapshot_state, e, f) tt
      | inr (inr (x, f)) ↦ rw (decode_snapshot_state, e, f) tt
    ]
  ]

  decode_bare_state-Intact : (bytes : Bytes) → Intact (decode_bare_state host marshal decoder bytes)
  unfolding Intact decode_bare_state clone verify_code_hash
  decode_bare_state-Intact bytes = elim (Option-cases (decoder.state bytes)) [
    | inl e ↦ rw (decode_bare_state, e) tt
    | inr (s, e) ↦ elim (Result-cases (verify_code_hash host s)) [
      | inl (tt, f) ↦ rw (decode_bare_state, e, f) f
      | inr (inl (x, f)) ↦ rw (decode_bare_state, e, f) tt
      | inr (inr (x, f)) ↦ rw (decode_bare_state, e, f) tt
    ]
  ]

  decode_initial_state-Intact :
      (bytes : Bytes) → Intact (decode_initial_state host marshal decoder bytes)
  unfolding Intact decode_initial_state
  decode_initial_state-Intact bytes = elim (Option-cases (decoder.envelope bytes)) [
    | inl e ↦ rw (decode_initial_state, e) tt
    | inr ((header, state), e) ↦
        elim (Bool-cases (
          ltb 0 (length header) && (ltb 0 (length state) && not (bytes_eq state (codes "null"))))) [
            | inl b ↦ rw (decode_initial_state, e, b) (decode_snapshot_state-Intact bytes)
            | inr b ↦ rw (decode_initial_state, e, b) (decode_bare_state-Intact bytes)
          ]
  ]

  -- The code of a state that has been decoded has its code hash.
  pub decode_initial_state-verify_code_hash :
      (bytes : Bytes) (s : VmState)
      → decode_initial_state host marshal decoder bytes ≡ ok s
      → verify_code_hash host s ≡ ok tt
  unfolding Intact
  decode_initial_state-verify_code_hash bytes s e =
      subst Intact e (decode_initial_state-Intact bytes)
