-- ===== src/Precompile.antt =====
-- The precompile that validates a snapshot and a proof (purevm/precompile/snapshot_validator.go): its
-- input, its price, its run and its result.
pub mod Input
pub mod Verdict
pub mod Intact
use offchain_com.Base.{
  ℕ, zero, suc, ◌+◌, ◌*◌, ◌-◌, ◌%◌, ◌^◌, ◌≡◌, Bool, true, false, not, ◌&&◌, List, [], ◌∷◌, ◌++◌,
  Option, none, some, leb, ltb, ◌==◌, if◌then◌else◌, length, take, drop, bytes_eq,
}
use offchain_com.Core.Word.{Bytes, Word, u64_mod, set_bytes}
use offchain_com.Core.Text.{codes}
use offchain_com.Core.Action.{
  Error, input_too_short, input_truncated, trailing_bytes, snapshot_too_large, proof_too_large,
  undecodable_json, Result, ok, err, panic, Host,
}
use offchain_com.Core.State.{VmState, clone, verify_code_hash}
use offchain_com.Core.Snapshot.{StandardSnapshot, verify_integrity}
use offchain_com.Proof.Types.{StepProof, TransitionProof}
use offchain_com.Proof.Dispute.{zero_hash}
use offchain_com.Proof.Transition.{verify}

-- `MaxSnapshotBytes`
abbrev pub max_snapshot_bytes : ℕ
max_snapshot_bytes = 262144

-- `MaxProofBytes`
abbrev pub max_proof_bytes : ℕ
max_proof_bytes = 1048576

-- `binary.BigEndian.Uint32` of the four bytes from `i` on.
abbrev pub uint32_at : ℕ → Bytes → ℕ
uint32_at i input = set_bytes 0 (take 4 (drop i input))

-- `decodeInput`: the bytes of the state and those of the proof.
unfoldable pub decode_input : Bytes → Result (Bytes × Bytes)
decode_input input =
    let state_len = uint32_at 0 input in
    let proof_len = uint32_at 4 input in
    let total_len = 8 + state_len + proof_len in
    if ltb (length input) 8
    then err input_too_short
    else if ltb max_snapshot_bytes state_len
    then err (snapshot_too_large state_len max_snapshot_bytes)
    else if ltb max_proof_bytes proof_len
    then err (proof_too_large proof_len max_proof_bytes)
    else if ltb (length input) total_len
    then err input_truncated
    else if length input == total_len
    then ok (take state_len (drop 8 input), take proof_len (drop (8 + state_len) input))
    else err trailing_bytes

-- `baseGas + uint64(len(input))*8`
abbrev unreadable_gas : Bytes → ℕ
unreadable_gas input = (5000 + length input * 8 % u64_mod) % u64_mod

-- `RequiredGas`; `parse` is `json.Unmarshal` of a proof.
unfoldable pub required_gas : (Bytes → Option TransitionProof) → Bytes → ℕ
required_gas parse input = if ltb (length input) 8 then 5000 else elim (decode_input input) [
  | err e ↦ unreadable_gas input
  | panic f ↦ unreadable_gas input
  | ok (state, proof) ↦ elim (parse proof) [
    | none ↦ unreadable_gas input
    | some p ↦ (5000 + length p.steps * 1000 % u64_mod) % u64_mod
  ]
]

-- `json.Unmarshal` into the types that the precompile reads: the envelope of a snapshot, of which it
-- keeps the raw header and the raw state, empty where they are missing; a snapshot; a state; a proof.
pub record Decoder : Type 0 where
  pub envelope : Bytes → Option (Bytes × Bytes)
  pub snapshot : Bytes → Option StandardSnapshot
  pub state : Bytes → Option VmState
  pub proof : Bytes → Option TransitionProof

-- `len(raw) > 0`
abbrev is_there : Bytes → Bool
is_there raw = ltb 0 (length raw)

-- `common.BigToHash` is the parameter `big_to_hash`.
module _ (big_to_hash : ℕ → Word) where
  -- `encodeResult`
  unfoldable pub encode_result : Bool → Word → ℕ → Word → Bytes
  encode_result valid final_state_root verified_steps trace_root =
      big_to_hash (if valid then 1 else 0)
      ++ (final_state_root ++ (big_to_hash verified_steps ++ trace_root))

  -- `failure`
  unfoldable pub failure : Bytes
  failure = encode_result false zero_hash 0 zero_hash

  -- `encodeResult(true, p.FinalHash, p.EndStep-p.StartStep, p.TraceRoot)`
  abbrev pub success : TransitionProof → Bytes
  success p =
      encode_result true p.final_hash ((p.end_step + u64_mod - p.start_step) % u64_mod) p.trace_root

module _ (host : Host VmState) (marshal : StepProof → Bytes) (decoder : Decoder) where
  -- The clone of a state whose check has succeeded.
  abbrev checked : Result (Unit {0}) → VmState → Result VmState
  checked r s = elim r [ ok _ ↦ ok (clone s) | err e ↦ err e | panic f ↦ panic f ]

  -- The branch of `decodeInitialState` for a snapshot.
  unfoldable pub decode_snapshot_state : Bytes → Result VmState
  decode_snapshot_state bytes = elim (decoder.snapshot bytes) [
    | none ↦ err undecodable_json
    | some snap ↦ checked (verify_integrity host snap) snap.state
  ]

  -- The branch of `decodeInitialState` for a state alone.
  unfoldable pub decode_bare_state : Bytes → Result VmState
  decode_bare_state bytes = elim (decoder.state bytes) [
    | none ↦ err undecodable_json
    | some s ↦ checked (verify_code_hash host s) s
  ]

  -- `decodeInitialState`
  unfoldable pub decode_initial_state : Bytes → Result VmState
  decode_initial_state bytes = elim (decoder.envelope bytes) [
    | none ↦ err undecodable_json
    | some (header, state) ↦
        if is_there header && (is_there state && not (bytes_eq state (codes "null")))
        then decode_snapshot_state bytes
        else decode_bare_state bytes
  ]

  -- `VerifyInSolidity`, which panics where `Verify` does.
  unfoldable pub verify_in_solidity : Bytes → Bytes → Result Bool
  verify_in_solidity proof_bytes initial_state_bytes = elim (decoder.proof proof_bytes) [
    | none ↦ ok false
    | some p ↦ elim (decode_initial_state initial_state_bytes) [
      | err e ↦ ok false
      | panic f ↦ panic f
      | ok s ↦ elim (verify host marshal p s) [
        | ok _ ↦ ok true
        | err e ↦ ok false
        | panic f ↦ panic f
      ]
    ]
  ]

  module _ (big_to_hash : ℕ → Word) where
    -- `Run` behind the decoding of its input.
    unfoldable pub run_decoded : Bytes → Bytes → Result Bytes
    run_decoded state_bytes proof_bytes = elim (decode_initial_state state_bytes) [
      | err e ↦ ok (failure big_to_hash)
      | panic f ↦ panic f
      | ok s ↦ elim (decoder.proof proof_bytes) [
        | none ↦ ok (failure big_to_hash)
        | some p ↦ elim (verify host marshal p s) [
          | ok _ ↦ ok (success big_to_hash p)
          | err e ↦ ok (failure big_to_hash)
          | panic f ↦ panic f
        ]
      ]
    ]

    -- `Run`
    unfoldable pub run_precompile : Bytes → Result Bytes
    run_precompile input = elim (decode_input input) [
      | err e ↦ err e
      | panic f ↦ panic f
      | ok (state_bytes, proof_bytes) ↦ run_decoded state_bytes proof_bytes
    ]
