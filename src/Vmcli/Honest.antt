-- ===== src/Vmcli/Honest.antt =====
-- A proof that was made honestly passes the command `verify-precompile` (purevm/cmd/vmcli/main.go).
use offchain_com.Base.{ℕ, ◌+◌, ◌<◌, ◌≤◌, ◌≡◌, ◌≢◌, ◌∙◌, arith, false, ◌||◌, All, length, some, ltb}
use offchain_com.Core.Word.{Bytes, Word, IsWord, u64_mod}
use offchain_com.Core.Opcode
use offchain_com.Core.Opcode.{OpCode}
use offchain_com.Core.Action.{ok, Host}
use offchain_com.Core.State.{VmState}
use offchain_com.Core.State.Valid.{IsState}
use offchain_com.Core.Machine.{Vm}
use offchain_com.Proof.Types.{StepProof, TransitionProof}
use offchain_com.Proof.Transition.{vm_at, generate_transition_proof}
use offchain_com.Proof.Transition.Complete.{generate-verify}
use offchain_com.Precompile.{max_snapshot_bytes, max_proof_bytes, Decoder, decode_initial_state}
use offchain_com.Precompile.Input.{encode_input, encode_input-decode_input}
use offchain_com.Precompile.Verdict.{PadsLeft, Accepts-run_decoded, run_precompile-run_decoded}
use offchain_com.Vmcli.Types.{finished}
use offchain_com.Vmcli.Commands.{max_uint32, verify_precompile}
use offchain_com.Precompile.Intact.{decode_initial_state-verify_code_hash}
use offchain_com.Vmcli.Response.{verdict_of, read_response-success}

module _ (host : Host VmState) (hash_word : (bs : Bytes) → IsWord (host.keccak256 bs))
    (marshal : StepProof → Bytes) (decoder : Decoder) (big_to_hash : ℕ → Word)
    (pads : PadsLeft big_to_hash) where
  -- The command `verify-precompile` passes, with the final root, the number of steps and the trace root
  -- of the proof, on the files of a state and of the proof that `GenerateTransitionProof` has made of a
  -- run from it: the files are within the limits of the precompile and decode to the state and the
  -- proof, whose hashes have 32 bytes; the state is well formed, its code has no `SNAPSHOT`, and the
  -- steps that the fuel allows do not overflow the step count. `common.BigToHash` pads a number to 32
  -- bytes, and a Keccak-256 hash is a word.
  pub verify_precompile_accepts :
      (fuel steps : ℕ) (state_bytes proof_bytes : Bytes) (s : VmState) (p : TransitionProof)
      (vm' : Vm)
      → length state_bytes ≤ max_snapshot_bytes
      → length proof_bytes ≤ max_proof_bytes
      → decode_initial_state host marshal decoder state_bytes ≡ ok s
      → decoder.proof proof_bytes ≡ some p
      → length p.final_hash ≡ 32
      → length p.trace_root ≡ 32
      → IsState s
      → All (λ b. b ≢ Opcode.snapshot) s.code
      → s.step_count + fuel < u64_mod
      → generate_transition_proof host marshal fuel steps (vm_at host s) ≡ some (ok p, vm')
      → verify_precompile host marshal decoder big_to_hash (some state_bytes) (some proof_bytes)
        ≡ finished (verdict_of p)
  unfolding verify_precompile
  verify_precompile_accepts fuel steps sb pb s p vm' hs hp es ep lf lr valid plain fits made =
      let verified =
        generate-verify host hash_word marshal fuel steps p s vm' valid plain
          (decode_initial_state-verify_code_hash host marshal decoder sb s es) fits made in
      let run =
        run_precompile-run_decoded host marshal decoder big_to_hash pads (encode_input sb pb) sb pb
          (encode_input-decode_input sb pb hs hp)
        ∙ Accepts-run_decoded host marshal decoder big_to_hash pads sb pb (record {
          start = s;
          proof = p;
          state_read = es;
          proof_read = ep;
          verified = verified;
        }) in
      let small : ltb max_uint32 (length sb) || ltb max_uint32 (length pb) ≡ false = ground arith in
      rw (verify_precompile, small, run) (read_response-success big_to_hash pads p lf lr)
