-- ===== src/Vmcli/Response.antt =====
-- What the command `verify-precompile` (purevm/cmd/vmcli/main.go) reads off a positive response.
use offchain_com.Base.{
  ℕ, ◌+◌, ◌-◌, ◌%◌, ◌≡◌, refl, sym, ap, ap₂, ◌∙◌, arith, [], ◌++◌, length, length-append, take,
  drop, take_all, take_front, drop_front, replicate,
}
use mathlib.Core.List.{append_assoc}
use offchain_com.Core.Word.{Bytes, Word, u64_mod, set_bytes, fill_bytes, word_from_uint64}
use offchain_com.Core.Word.Encode.{length-fill_bytes, set_bytes-fill_bytes, set_bytes-nil}
use offchain_com.Core.Word.Convert.{word_from_uint64-IsWord}
use offchain_com.Proof.Types.{TransitionProof}
use offchain_com.Precompile.{encode_result, success}
use offchain_com.Precompile.Verdict.{PadsLeft, success-flag}
use offchain_com.Vmcli.Types.{finished}
use offchain_com.Vmcli.Commands.{Verdict, with_0x, read_verdict, read_response}

-- Four words in a row, the third of which stands in two parts.
abbrev four : Bytes → Bytes → Bytes → Bytes → Bytes → Bytes
four a b z n t = a ++ (b ++ ((z ++ n) ++ t))

module _ (a b z n t : Bytes) (la : length a ≡ 32) (lb : length b ≡ 32) (lz : length z ≡ 24)
    (ln : length n ≡ 8) (lt : length t ≡ 32) where
  length-four : length (four a b z n t) ≡ 128
  length-four = omega (
    arith,
    length-append a (b ++ ((z ++ n) ++ t)),
    length-append b ((z ++ n) ++ t),
    length-append (z ++ n) t,
    length-append z n,
    la,
    lb,
    lz,
    ln,
    lt,
  )

  second_word : take 32 (drop 32 (four a b z n t)) ≡ b
  second_word =
      ap (take 32) (drop_front 32 a (b ++ ((z ++ n) ++ t)) (sym la))
      ∙ take_front 32 b ((z ++ n) ++ t) (sym lb)

  eight_bytes : take 8 (drop 88 (four a b z n t)) ≡ n
  eight_bytes =
      let e : four a b z n t ≡ (a ++ (b ++ z)) ++ (n ++ t) = simp append_assoc in
      ap (λ (x : Bytes). take 8 (drop 88 x)) e
      ∙ (ap (take 8) (
            drop_front 88 (a ++ (b ++ z)) (n ++ t)
              (omega (arith, length-append a (b ++ z), length-append b z, la, lb, lz)))
          ∙ take_front 8 n t (sym ln))

  last_word : take 32 (drop 96 (four a b z n t)) ≡ t
  last_word =
      let e : four a b z n t ≡ (a ++ (b ++ (z ++ n))) ++ t = simp append_assoc in
      ap (λ (x : Bytes). take 32 (drop 96 x)) e
      ∙ (ap (take 32) (
            drop_front 96 (a ++ (b ++ (z ++ n))) t (
              omega (
                arith,
                length-append a (b ++ (z ++ n)),
                length-append b (z ++ n),
                length-append z n,
                la,
                lb,
                lz,
                ln,
              )))
          ∙ take_all t 32 (omega arith))

-- The result that `verify-precompile` prints for a proof.
abbrev pub verdict_of : TransitionProof → Verdict
verdict_of p = record {
  final_root = with_0x p.final_hash;
  verified_steps = (p.end_step + u64_mod - p.start_step) % u64_mod;
  trace_root = with_0x p.trace_root;
}

module _ (big_to_hash : ℕ → Word) (pads : PadsLeft big_to_hash) (p : TransitionProof)
    (lf : length p.final_hash ≡ 32) (lr : length p.trace_root ≡ 32) where
  steps : ℕ
  steps = (p.end_step + u64_mod - p.start_step) % u64_mod

  success-four :
      success big_to_hash p
      ≡ four (word_from_uint64 1) p.final_hash (replicate 24 0) (fill_bytes 8 steps []) p.trace_root
  unfolding encode_result steps word_from_uint64
  success-four =
      ap₂ (λ (v w : Word). v ++ (p.final_hash ++ (w ++ p.trace_root))) (pads 1 (omega arith))
        (pads steps (omega arith))

  read_steps : set_bytes 0 (fill_bytes 8 steps []) ≡ steps
  unfolding steps
  read_steps = set_bytes-fill_bytes 8 0 steps [] ∙ set_bytes-nil _ ∙ omega arith

  one_width : length (word_from_uint64 1) ≡ 32
  one_width = (word_from_uint64-IsWord 1).width

  eight_width : length (fill_bytes 8 steps []) ≡ 8
  eight_width = omega (arith, length-fill_bytes 8 steps [])

  -- The command reads off a positive response what the precompile has put there.
  pub read_response-success : read_response (success big_to_hash p) ≡ finished (verdict_of p)
  unfolding read_response read_verdict steps
  read_response-success =
      let one = word_from_uint64 1 in
      let n = fill_bytes 8 steps [] in
      let z : Bytes = replicate 24 0 in
      let f = p.final_hash in
      let r = p.trace_root in
      let width =
        ap length success-four ∙ length-four one f z n r one_width lf refl eight_width lr in
      let root =
        ap (λ (x : Bytes). take 32 (drop 32 x)) success-four
        ∙ second_word one f z n r one_width lf refl eight_width lr in
      let count =
        ap (λ (x : Bytes). set_bytes 0 (take 8 (drop 88 x))) success-four
        ∙ (ap (set_bytes 0) (eight_bytes one f z n r one_width lf refl eight_width lr)
            ∙ read_steps) in
      let trace =
        ap (λ (x : Bytes). take 32 (drop 96 x)) success-four
        ∙ last_word one f z n r one_width lf refl eight_width lr in
      rw (read_response, width, success-flag big_to_hash pads p, read_verdict, root, count, trace)
        refl
