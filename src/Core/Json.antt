-- ===== src/Core/Json.antt =====
-- The JSON of words and of states (purevm/core/types.go, purevm/core/state.go). What
-- `encoding/json` does with the document is a parameter.
pub mod Hex
pub mod Words
pub mod States
pub mod Legacy
use offchain_com.Base.{
  ℕ, zero, suc, ◌+◌, ◌-◌, ◌*◌, ◌/◌, ◌%◌, ◌≡◌, Bool, true, false, not, ◌&&◌, ◌||◌, List, [], ◌∷◌,
  ◌++◌, map, reverse, Option, none, some, leb, ltb, ◌==◌, if◌then◌else◌, length, drop, replicate,
  bytes_eq,
}
use offchain_com.Base.Int.{ℤ}
use offchain_com.Core.Word.{Bytes, Word}
use offchain_com.Core.Text.{codes}
use offchain_com.Core.Encoding.{
  hex_value, join_digits, hex_decode, pad_even, has_prefix, trim_prefix, base64_value, one_byte,
  two_bytes, three_bytes, is_nil, decode_groups, without_line_ends, base64_decode,
}
use offchain_com.Core.Action.{
  Error, word_hex_too_long, invalid_hex, invalid_base64, undecodable_json, Result, ok, err, panic,
  Host,
}
use offchain_com.Core.State.{VmState, word_hex}

-- `Word.UnmarshalJSON`, on the text of the JSON string.
unfoldable pub unmarshal_word_text : Bytes → Result Word
unmarshal_word_text text =
    let raw = trim_prefix b'0' b'X' (trim_prefix b'0' b'x' text) in
    if ltb 64 (length raw)
    then err (word_hex_too_long (length raw))
    else elim (hex_decode (pad_even raw)) [
      | none ↦ err invalid_hex
      | some decoded ↦ ok (replicate (32 - length decoded) 0 ++ decoded)
    ]

abbrev pub or_fail : Error → Option Bytes → Result Bytes
or_fail e none = err e
or_fail e (some b) = ok b

-- `looksLikeHex`
unfoldable pub looks_like_hex : Bytes → Bool
looks_like_hex [] = true
looks_like_hex (c ∷ s) = elim (hex_value c) [ none ↦ false | some v ↦ looks_like_hex s ]

-- `decodeByteField` behind the decoding of the JSON string.
unfoldable pub decode_byte_text : Bytes → Result Bytes
decode_byte_text encoded =
    if is_nil encoded
    then ok []
    else if has_prefix b'0' b'x' encoded || has_prefix b'0' b'X' encoded
    then or_fail invalid_hex (hex_decode (pad_even (drop 2 encoded)))
    else if looks_like_hex encoded
    then or_fail invalid_hex (hex_decode (pad_even encoded))
    else or_fail invalid_base64 (base64_decode encoded)

-- `vmStateJSON`; the words of the stack are the texts that their `MarshalJSON` gives.
pub record VmStateJson : Type 0 where
  pub pc : ℕ
  pub stack : List Bytes
  pub memory : Bytes
  pub gas : ℕ
  pub refund : ℕ
  pub code : Bytes
  pub code_hash : Word
  pub step_count : ℕ
  pub call_value : Option ℤ
  pub call_data : Option Bytes

-- `vmStateRawJSON`, with the raw text of each word of the stack. A field that is missing is empty.
pub record VmStateRawJson : Type 0 where
  pub pc : ℕ
  pub stack : List Bytes
  pub memory : Bytes
  pub gas : ℕ
  pub refund : ℕ
  pub code : Bytes
  pub code_hash : Word
  pub step_count : ℕ
  pub call_value : Option ℤ
  pub call_data : Bytes

module _ (host : Host VmState) where
  -- `encodeHexBytes`
  unfoldable pub encode_hex_bytes : Bytes → Bytes
  encode_hex_bytes b = codes "0x" ++ host.bytes_to_hex b

  -- `VMState.MarshalJSON`, up to the printing of the document. The stack is printed from its bottom.
  unfoldable pub marshal_state : VmState → VmStateJson
  marshal_state s = record {
    pc = s.pc;
    stack = map word_hex (reverse s.stack);
    memory = encode_hex_bytes s.memory;
    gas = s.gas;
    refund = s.refund;
    code = encode_hex_bytes s.code;
    code_hash = s.code_hash;
    step_count = s.step_count;
    call_value = s.call_value;
    call_data = if is_nil s.call_data then none else some (encode_hex_bytes s.call_data);
  }

-- `len(raw) == 0 || string(raw) == "null"`
abbrev pub is_missing : Bytes → Bool
is_missing raw = is_nil raw || bytes_eq raw (codes "null")

-- The results of a list, or its first failure.
unfoldable pub collect : {A B : Type 0} → (A → Result B) → List A → Result (List B)
collect f [] = ok []
collect f (a ∷ as') =
    let rest = collect f as' in
    elim (f a) [
      | err e ↦ err e
      | panic p ↦ panic p
      | ok b ↦ elim rest [ err e ↦ err e | panic p ↦ panic p | ok bs ↦ ok (b ∷ bs) ]
    ]

-- `unmarshal_string` is `json.Unmarshal` into a string.
module _ (unmarshal_string : Bytes → Option Bytes) where
  -- `Word.UnmarshalJSON`
  unfoldable pub unmarshal_word : Bytes → Result Word
  unmarshal_word raw = elim (unmarshal_string raw) [
    | none ↦ err undecodable_json
    | some text ↦ unmarshal_word_text text
  ]

  -- `decodeByteField`, and `decodeOptionalByteField` alike: a nil slice is an empty one here.
  unfoldable pub decode_byte_field : Bytes → Result Bytes
  decode_byte_field raw = if is_missing raw then ok [] else elim (unmarshal_string raw) [
    | none ↦ err undecodable_json
    | some encoded ↦ decode_byte_text encoded
  ]

  -- The state of a document whose words and byte fields are decoded.
  abbrev pub state_of : VmStateRawJson → List Word → Bytes → Bytes → Bytes → VmState
  state_of raw stack memory code call_data = record {
    pc = raw.pc;
    stack = reverse stack;
    memory = memory;
    gas = raw.gas;
    refund = raw.refund;
    code = code;
    code_hash = raw.code_hash;
    step_count = raw.step_count;
    call_value = raw.call_value;
    call_data = call_data;
  }

  -- `VMState.UnmarshalJSON` behind the decoding of the document, in which the words of the stack decode
  -- first.
  unfoldable pub unmarshal_raw_state : VmStateRawJson → Result VmState
  unmarshal_raw_state raw = elim (collect unmarshal_word raw.stack) [
    | err e ↦ err e
    | panic p ↦ panic p
    | ok stack ↦ elim (decode_byte_field raw.memory) [
      | err e ↦ err e
      | panic p ↦ panic p
      | ok memory ↦ elim (decode_byte_field raw.code) [
        | err e ↦ err e
        | panic p ↦ panic p
        | ok code ↦ elim (decode_byte_field raw.call_data) [
          | err e ↦ err e
          | panic p ↦ panic p
          | ok call_data ↦ ok (state_of raw stack memory code call_data)
        ]
      ]
    ]
  ]
