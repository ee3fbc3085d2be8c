-- ===== src/Precompile/Input.antt =====
-- The input that `decodeInput` (purevm/precompile/snapshot_validator.go) reads.
use offchain_com.Base.{
  ℕ, ◌+◌, ◌*◌, ◌%◌, ◌^◌, ◌≤◌, ◌<◌, ◌≡◌, sym, ap, ap₂, ◌∙◌, arith, [], ◌++◌, length, length-append,
  take, drop, take_all, take_front, drop_front, take-append_length,
}
use mathlib.Core.List.{append_assoc}
use offchain_com.Core.Word.{Bytes, set_bytes, fill_bytes}
use offchain_com.Core.Word.Encode.{length-fill_bytes, set_bytes-fill_bytes, set_bytes-nil}
use offchain_com.Core.Action.{ok}
use offchain_com.Precompile.{max_snapshot_bytes, max_proof_bytes, uint32_at, decode_input}

-- Four bytes, the highest first.
abbrev pub uint32_bytes : ℕ → Bytes
uint32_bytes n = fill_bytes 4 n []

-- Both lengths, the state and the proof.
abbrev pub encode_input : Bytes → Bytes → Bytes
encode_input state proof =
    uint32_bytes (length state) ++ (uint32_bytes (length proof) ++ (state ++ proof))

length-uint32_bytes : (n : ℕ) → length (uint32_bytes n) ≡ 4
length-uint32_bytes n = omega (arith, length-fill_bytes 4 n [])

read_uint32 :
    (n : ℕ) (rest : Bytes) → n < 2 ^ 32 → set_bytes 0 (take 4 (uint32_bytes n ++ rest)) ≡ n
read_uint32 n rest h =
    ap (set_bytes 0) (take_front 4 (uint32_bytes n) rest (sym (length-uint32_bytes n)))
    ∙ (set_bytes-fill_bytes 4 0 n [] ∙ (set_bytes-nil (0 * 256 ^ 4 + n % 256 ^ 4) ∙ omega arith))

decode_with :
    (state proof input : Bytes)
    → uint32_at 0 input ≡ length state
    → uint32_at 4 input ≡ length proof
    → drop 8 input ≡ state ++ proof
    → drop (8 + length state) input ≡ proof
    → length input ≡ 8 + length state + length proof
    → length state ≤ max_snapshot_bytes
    → length proof ≤ max_proof_bytes
    → decode_input input ≡ ok (state, proof)
unfolding decode_input
decode_with state proof input a b c d e h k =
    let x : take (uint32_at 0 input) (drop 8 input) ≡ state =
      ap₂ take a c ∙ take-append_length state proof in
    let y : take (uint32_at 4 input) (drop (8 + uint32_at 0 input) input) ≡ proof =
      ap₂ take b (ap (λ (n : ℕ). drop (8 + n) input) a ∙ d)
      ∙ take_all proof (length proof) (omega arith) in
    ground (arith, x, y)

-- `decodeInput` gives back a state and a proof from their lengths, as big-endian numbers of four bytes,
-- and their bytes, if neither is longer than its limit.
pub encode_input-decode_input :
    (state proof : Bytes)
    → length state ≤ max_snapshot_bytes
    → length proof ≤ max_proof_bytes
    → decode_input (encode_input state proof) ≡ ok (state, proof)
encode_input-decode_input state proof h k =
    let n = uint32_bytes (length state) in
    let m = uint32_bytes (length proof) in
    let p = length-uint32_bytes (length state) in
    let q = length-uint32_bytes (length proof) in
    let input = encode_input state proof in
    let two : input ≡ (n ++ m) ++ (state ++ proof) = sym (append_assoc n m (state ++ proof)) in
    let three : input ≡ ((n ++ m) ++ state) ++ proof =
      two ∙ sym (append_assoc (n ++ m) state proof) in
    decode_with state proof input (read_uint32 (length state) (m ++ (state ++ proof)) (omega arith))
      (ap (λ (t : Bytes). set_bytes 0 (take 4 t)) (drop_front 4 n (m ++ (state ++ proof)) (sym p))
        ∙ read_uint32 (length proof) (state ++ proof) (omega arith))
      (ap (drop 8) two
        ∙ drop_front 8 (n ++ m) (state ++ proof) (omega (arith, length-append n m, p, q)))
      (ap (drop (8 + length state)) three
        ∙ drop_front (8 + length state) ((n ++ m) ++ state) proof
            (omega (arith, length-append (n ++ m) state, length-append n m, p, q)))
      (omega (
        arith,
        length-append n (m ++ (state ++ proof)),
        length-append m (state ++ proof),
        length-append state proof,
        p,
        q,
      ))
      h k
