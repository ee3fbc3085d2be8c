-- ===== src/Precompile/Verdict.antt =====
-- The verdict of the precompile (purevm/precompile/snapshot_validator.go): when it is positive, and
-- what it says.
use offchain_com.Base.{
  ℕ, zero, suc, ◌<◌, ◌≤◌, ◌≡◌, ◌≢◌, ◌↔◌, inl, inr, refl, sym, ap, ◌∙◌, subst, arith, true, [], ◌∷◌,
  ◌++◌, length, get_or, Option-cases, some,
}
use offchain_com.Core.Word.{Bytes, Word, u64_mod, fill_bytes, word_from_uint64}
use offchain_com.Core.Word.Convert.{word_from_uint64-IsWord}
use offchain_com.Core.Action.{Result, Result-cases, ok, err, panic, Host}
use offchain_com.Core.State.{VmState}
use offchain_com.Proof.Types.{StepProof, TransitionProof}
use offchain_com.Proof.Transition.{verify}
use offchain_com.Proof.Transition.Sound.{Replayed, verify-Replayed}
use offchain_com.Precompile.{
  max_snapshot_bytes, max_proof_bytes, decode_input, Decoder, encode_result, failure, success,
  decode_initial_state, verify_in_solidity, run_decoded, run_precompile,
}
use offchain_com.Precompile.Input.{encode_input, encode_input-decode_input}

-- What the package of `common.BigToHash` documents: the number as 32 bytes, the highest first.
abbrev pub PadsLeft : (ℕ → Word) → Type 0
PadsLeft big_to_hash = (n : ℕ) → n < u64_mod → big_to_hash n ≡ word_from_uint64 n

get_or_front : (n : ℕ) (xs ys : Bytes) → n < length xs → get_or (xs ++ ys) n 0 ≡ get_or xs n 0
get_or_front n [] ys h = absurd (omega arith)
get_or_front zero (x ∷ xs) ys h = refl
get_or_front (suc n) (x ∷ xs) ys h = get_or_front n xs ys (omega arith)

zero_flag : get_or (word_from_uint64 0) 31 0 ≡ 0
unfolding word_from_uint64 fill_bytes
zero_flag = refl

one_flag : get_or (word_from_uint64 1) 31 0 ≡ 1
unfolding word_from_uint64 fill_bytes
one_flag = refl

module _ (big_to_hash : ℕ → Word) (pads : PadsLeft big_to_hash) where
  first_word :
      (n : ℕ) (rest : Bytes)
      → n < u64_mod
      → get_or (big_to_hash n ++ rest) 31 0 ≡ get_or (word_from_uint64 n) 31 0
  first_word n rest h =
      ap (λ (w : Word). get_or (w ++ rest) 31 0) (pads n h)
      ∙ get_or_front 31 (word_from_uint64 n) rest (omega (arith, (word_from_uint64-IsWord n).width))

  pub success-flag : (p : TransitionProof) → get_or (success big_to_hash p) 31 0 ≡ 1
  unfolding encode_result
  success-flag p = first_word 1 _ (omega arith) ∙ one_flag

  pub failure-flag : get_or (failure big_to_hash) 31 0 ≡ 0
  unfolding failure encode_result
  failure-flag = first_word 0 _ (omega arith) ∙ zero_flag

module _ (host : Host VmState) (marshal : StepProof → Bytes) (decoder : Decoder) where
  -- What stands behind a positive verdict `out` on a state and a proof.
  pub record Accepts (state_bytes proof_bytes : Bytes) : Type 0 where
    pub start : VmState
    pub proof : TransitionProof
    pub state_read : decode_initial_state host marshal decoder state_bytes ≡ ok start
    pub proof_read : decoder.proof proof_bytes ≡ some proof
    pub verified : verify host marshal proof start ≡ ok tt

  Accepts-verify_in_solidity :
      (s p : Bytes) → Accepts s p → verify_in_solidity host marshal decoder p s ≡ ok true
  unfolding verify_in_solidity
  Accepts-verify_in_solidity s p a =
      rw (verify_in_solidity, a.proof_read, a.state_read, a.verified) refl

  verify_in_solidity-Accepts :
      (s p : Bytes) → verify_in_solidity host marshal decoder p s ≡ ok true → Accepts s p
  unfolding verify_in_solidity
  verify_in_solidity-Accepts s p h = elim (Option-cases (decoder.proof p)) [
    | inl e ↦ ground arith
    | inr (q, e) ↦ elim (Result-cases (decode_initial_state host marshal decoder s)) [
      | inr (inl (x, f)) ↦ ground arith
      | inr (inr (x, f)) ↦ ground arith
      | inl (t, f) ↦ elim (Result-cases (verify host marshal q t)) [
        | inr (inl (x, g)) ↦ ground arith
        | inr (inr (x, g)) ↦ ground arith
        | inl (u, g) ↦ record { start = t; proof = q; state_read = f; proof_read = e; verified = g }
      ]
    ]
  ]

  module _ (big_to_hash : ℕ → Word) (pads : PadsLeft big_to_hash) where
    -- A positive result for a state and a proof is that of the proof they decode to.
    record Positive (s p out : Bytes) : Type 0 where
      pub accepts : Accepts s p
      pub result : out ≡ success big_to_hash accepts.proof

    eq_of_ok : {a b : Bytes} → ok a ≡ ok b → a ≡ b
    eq_of_ok {a} e = ap (λ (r : Result Bytes). elim r [ ok x ↦ x | err x ↦ a | panic x ↦ a ]) e

    pub Accepts-run_decoded :
        (s p : Bytes) (a : Accepts s p)
        → run_decoded host marshal decoder big_to_hash s p ≡ ok (success big_to_hash a.proof)
    unfolding run_decoded
    Accepts-run_decoded s p a = rw (run_decoded, a.state_read, a.proof_read, a.verified) refl

    not_failure : (out : Bytes) → ok (failure big_to_hash) ≡ ok out → get_or out 31 0 ≢ 1
    not_failure out e h =
        let zero_here =
          subst (λ (o : Bytes). get_or o 31 0 ≡ 0) (eq_of_ok e) (failure-flag big_to_hash pads) in
        omega arith

    run_decoded-Positive :
        (s p out : Bytes)
        → run_decoded host marshal decoder big_to_hash s p ≡ ok out
        → get_or out 31 0 ≡ 1
        → Positive s p out
    unfolding run_decoded
    run_decoded-Positive s p out h one =
        elim (Result-cases (decode_initial_state host marshal decoder s)) [
          | inr (inl (x, f)) ↦ absurd (not_failure out (ground arith) one)
          | inr (inr (x, f)) ↦ ground arith
          | inl (t, f) ↦ elim (Option-cases (decoder.proof p)) [
            | inl e ↦ absurd (not_failure out (ground arith) one)
            | inr (q, e) ↦ elim (Result-cases (verify host marshal q t)) [
              | inr (inl (x, g)) ↦ absurd (not_failure out (ground arith) one)
              | inr (inr (x, g)) ↦ ground arith
              | inl (u, g) ↦ record {
                accepts = record {
                  start = t;
                  proof = q;
                  state_read = f;
                  proof_read = e;
                  verified = g;
                };
                result = sym (eq_of_ok (ground arith));
              }
            ]
          ]
        ]

    pub run_precompile-run_decoded :
        (input s p : Bytes)
        → decode_input input ≡ ok (s, p)
        → run_precompile host marshal decoder big_to_hash input
          ≡ run_decoded host marshal decoder big_to_hash s p
    unfolding run_precompile
    run_precompile-run_decoded input s p e = rw (run_precompile, e) refl

    -- What an approved input holds, and what the output says of it.
    pub record Approved (input out : Bytes) : Type 0 where
      pub state_bytes : Bytes
      pub proof_bytes : Bytes
      pub start : VmState
      pub proof : TransitionProof
      pub split : decode_input input ≡ ok (state_bytes, proof_bytes)
      pub state_read : decode_initial_state host marshal decoder state_bytes ≡ ok start
      pub proof_read : decoder.proof proof_bytes ≡ some proof
      pub replayed : Replayed host marshal proof start
      pub result : out ≡ success big_to_hash proof

    approved :
        (input s p out : Bytes)
        → decode_input input ≡ ok (s, p)
        → Positive s p out
        → Approved input out
    approved input s p out e h = record {
      state_bytes = s;
      proof_bytes = p;
      start = h.accepts.start;
      proof = h.accepts.proof;
      split = e;
      state_read = h.accepts.state_read;
      proof_read = h.accepts.proof_read;
      replayed = verify-Replayed host marshal h.accepts.proof h.accepts.start h.accepts.verified;
      result = h.result;
    }

    -- If the output of `Run` has the flag 1 as the last byte of its first word, the input is a state and
    -- a proof behind their lengths; the state and the proof decode; the proof describes a run of
    -- successful steps from that state; and the output gives the final hash, the difference of the steps
    -- and the trace root of that proof. `common.BigToHash` pads a number to 32 bytes.
    pub run_precompile-Approved :
        (input out : Bytes)
        → run_precompile host marshal decoder big_to_hash input ≡ ok out
        → get_or out 31 0 ≡ 1
        → Approved input out
    unfolding run_precompile
    run_precompile-Approved input out h one = elim (Result-cases (decode_input input)) [
      | inr (inl (x, e)) ↦ ground arith
      | inr (inr (x, e)) ↦ ground arith
      | inl ((s, p), e) ↦
          approved input s p out e
            (run_decoded-Positive s p out (sym (run_precompile-run_decoded input s p e) ∙ h) one)
    ]

    -- `VerifyInSolidity` accepts a proof on a state exactly if `Run`, on the input made of both, has an
    -- output with the flag 1: neither is longer than its limit, and `common.BigToHash` pads a number to
    -- 32 bytes.
    pub verify_in_solidity_iff :
        (s p : Bytes)
        → length s ≤ max_snapshot_bytes
        → length p ≤ max_proof_bytes
        → (verify_in_solidity host marshal decoder p s ≡ ok true) ↔ (
            (out : Bytes) × (run_precompile host marshal decoder big_to_hash (encode_input s p)
              ≡ ok out)
            × (get_or out 31 0 ≡ 1))
    verify_in_solidity_iff s p hs hp =
        let same =
          run_precompile-run_decoded (encode_input s p) s p (encode_input-decode_input s p hs hp) in
        (
          λ h.
              let a = verify_in_solidity-Accepts s p h in
              (
                success big_to_hash a.proof,
                same ∙ Accepts-run_decoded s p a,
                success-flag big_to_hash pads a.proof,
              ),
          λ r.
              Accepts-verify_in_solidity s p
                (run_decoded-Positive s p r.0 (sym same ∙ r.1) r.2).accepts,
        )
