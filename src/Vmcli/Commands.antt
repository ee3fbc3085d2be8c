-- ===== src/Vmcli/Commands.antt =====
-- The command `verify-precompile` of the command line (purevm/cmd/vmcli/main.go).
use offchain_com.Base.{
  ℕ, ◌-◌, ◌^◌, ◌||◌, ◌++◌, Option, none, some, ltb, ◌==◌, if◌then◌else◌, length, take, drop, get_or,
}
use offchain_com.Core.Word.{Bytes, Word, set_bytes}
use offchain_com.Core.Text.{codes, hex_encode}
use offchain_com.Core.Action.{ok, err, panic, Host}
use offchain_com.Core.State.{VmState}
use offchain_com.Proof.Types.{StepProof}
use offchain_com.Precompile.{Decoder, run_precompile}
use offchain_com.Precompile.Input.{encode_input}
use offchain_com.Vmcli.Types.{
  Outcome, finished, exits, crashes, unreadable_file, payload_too_large, verdict_is_invalid,
  unexpected_length, reported,
}

-- `int(^uint32(0))`
abbrev pub max_uint32 : ℕ
max_uint32 = 2 ^ 32 - 1

-- What `verifyPrecompile` prints when it passes.
pub record Verdict : Type 0 where
  pub final_root : Bytes
  pub verified_steps : ℕ
  pub trace_root : Bytes

-- `"0x" + hex.EncodeToString(b)`
abbrev pub with_0x : Bytes → Bytes
with_0x b = codes "0x" ++ hex_encode b

-- What `verifyPrecompile` reads off the response.
unfoldable pub read_verdict : Bytes → Verdict
read_verdict out = record {
  final_root = with_0x (take 32 (drop 32 out));
  verified_steps = set_bytes 0 (take 8 (drop 88 out));
  trace_root = with_0x (take 32 (drop 96 out));
}

-- `verifyPrecompile` behind the run of the precompile.
unfoldable pub read_response : Bytes → Outcome Verdict
read_response out =
    if length out == 128
    then if get_or out 31 0 == 1 then finished (read_verdict out) else exits verdict_is_invalid
    else exits (unexpected_length (length out))

module _ (host : Host VmState) (marshal : StepProof → Bytes) (decoder : Decoder) where
  -- `verifyPrecompile`, on the contents of the two files.
  unfoldable pub verify_precompile : (ℕ → Word) → Option Bytes → Option Bytes → Outcome Verdict
  verify_precompile big_to_hash none proof = exits unreadable_file
  verify_precompile big_to_hash (some snapshot) none = exits unreadable_file
  verify_precompile big_to_hash (some snapshot) (some proof) =
      if ltb max_uint32 (length snapshot) || ltb max_uint32 (length proof)
      then exits payload_too_large
      else elim (run_precompile host marshal decoder big_to_hash (encode_input snapshot proof)) [
        | err e ↦ exits (reported e)
        | panic f ↦ crashes f
        | ok out ↦ read_response out
      ]
