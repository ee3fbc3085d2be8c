-- ===== src/Core/Json/States.antt =====
-- A state and its JSON (purevm/core/state.go).
use offchain_com.Base.{
  ◌≡◌, refl, ap, ◌∙◌, arith, [], ◌∷◌, ◌++◌, some, none, Option, All, if◌then◌else◌, bytes_eq_heads,
  All-reverse, map, reverse,
}
use mathlib.Core.List.{reverse-reverse}
use offchain_com.Core.Word.{Bytes, IsByte, IsWord}
use offchain_com.Core.Text.{codes, hex_encode}
use offchain_com.Core.Action.{ok, Host}
use offchain_com.Core.State.{VmState, word_hex}
use offchain_com.Core.State.Valid.{IsState}
use offchain_com.Core.Encoding.{hex_decode, has_prefix, pad_even, is_nil}
use offchain_com.Core.Json.{
  decode_byte_text, decode_byte_field, collect, unmarshal_word, VmStateJson, VmStateRawJson,
  encode_hex_bytes, marshal_state, unmarshal_raw_state,
}
use offchain_com.Core.Json.Hex.{hex_decode-hex_encode, hex_encode-IsPlain, pad_even-hex_encode}
use offchain_com.Core.Json.Words.{quoted, Unquotes, collect-quoted}

abbrev quoted_or_missing : Option Bytes → Bytes
quoted_or_missing none = []
quoted_or_missing (some t) = quoted t

-- What `json.Unmarshal` into `vmStateRawJSON` keeps of the document that `json.Marshal` has printed:
-- numbers and hashes as they were, and the raw text of each string.
abbrev pub raw_of : VmStateJson → VmStateRawJson
raw_of j = record {
  pc = j.pc;
  stack = map quoted j.stack;
  memory = quoted j.memory;
  gas = j.gas;
  refund = j.refund;
  code = quoted j.code;
  code_hash = j.code_hash;
  step_count = j.step_count;
  call_value = j.call_value;
  call_data = quoted_or_missing j.call_data;
}

-- `common.Bytes2Hex` is `hex.EncodeToString`.
abbrev pub PrintsHex : Host VmState → Type 0
PrintsHex host = (b : Bytes) → host.bytes_to_hex b ≡ hex_encode b

decode_byte_text-hex :
    (b : Bytes) → All IsByte b → decode_byte_text (codes "0x" ++ hex_encode b) ≡ ok b
unfolding decode_byte_text has_prefix
decode_byte_text-hex b h =
    let decoded : hex_decode (pad_even (hex_encode b)) ≡ some b =
      ap hex_decode (pad_even-hex_encode b) ∙ hex_decode-hex_encode b h in
    rw (decode_byte_text, decoded) refl

module _ (host : Host VmState) (prints : PrintsHex host) (unmarshal_string : Bytes → Option Bytes)
    (unquotes : Unquotes unmarshal_string) where
  -- A byte field is read back from the form in which it is printed.
  pub decode_byte_field-encode_hex_bytes :
      (b : Bytes)
      → All IsByte b
      → decode_byte_field unmarshal_string (quoted (encode_hex_bytes host b)) ≡ ok b
  unfolding decode_byte_field encode_hex_bytes
  decode_byte_field-encode_hex_bytes b h =
      let text = codes "0x" ++ hex_encode b in
      let same : codes "0x" ++ host.bytes_to_hex b ≡ text =
        ap (λ (t : Bytes). codes "0x" ++ t) (prints b) in
      let unquoted : unmarshal_string (quoted (codes "0x" ++ host.bytes_to_hex b)) ≡ some text =
        ap (λ (t : Bytes). unmarshal_string (quoted t)) same
        ∙ unquotes text (omega arith, (omega arith, hex_encode-IsPlain b h)) in
      let there =
        bytes_eq_heads b'"' b'n' ((codes "0x" ++ host.bytes_to_hex b) ++ b'"' ∷ []) (codes "ull")
          refl in
      rw (decode_byte_field, there, unquoted) (decode_byte_text-hex b h)

  -- The call data are printed only if there are some.
  call_data_field :
      (b : Bytes)
      → All IsByte b
      → decode_byte_field unmarshal_string
          (quoted_or_missing (if is_nil b then none else some (encode_hex_bytes host b)))
        ≡ ok b
  unfolding decode_byte_field
  call_data_field [] h = refl
  call_data_field (x ∷ xs) h = decode_byte_field-encode_hex_bytes (x ∷ xs) h

  -- `UnmarshalJSON` gives back every well-formed state from the fields that `MarshalJSON` has made of
  -- it: memory, code and call data byte for byte, and the stack in its order.
  -- `json.Unmarshal` into a string takes off the quotes of a text without escapes, and
  -- `common.Bytes2Hex` prints hexadecimal digits.
  pub unmarshal_raw_state-marshal_state :
      (s : VmState)
      → IsState s
      → All IsByte s.call_data
      → unmarshal_raw_state unmarshal_string (raw_of (marshal_state host s)) ≡ ok s
  unfolding unmarshal_raw_state marshal_state
  unmarshal_raw_state-marshal_state s h data_bytes =
      let stack : collect (unmarshal_word unmarshal_string)
            (map quoted (map word_hex (reverse s.stack)))
          ≡ ok (reverse s.stack) =
        collect-quoted unmarshal_string unquotes (reverse s.stack)
          (All-reverse IsWord s.stack h.words) in
      rw
        (
          unmarshal_raw_state,
          stack,
          decode_byte_field-encode_hex_bytes s.memory h.memory_bytes,
          decode_byte_field-encode_hex_bytes s.code h.code_bytes,
          call_data_field s.call_data data_bytes,
          reverse-reverse s.stack,
        )
        refl
