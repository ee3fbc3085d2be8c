-- ===== src/Tests/Input.antt =====
-- An input of the precompile (purevm/precompile/snapshot_validator.go).
use offchain_com.Base.{◌≡◌, arith, [], ◌∷◌}
use offchain_com.Core.Action.{ok}
use offchain_com.Precompile.{decode_input}
use offchain_com.Precompile.Input.{encode_input, encode_input-decode_input}

encode_input-decode_input_example :
    decode_input (encode_input (1 ∷ (2 ∷ [])) (3 ∷ [])) ≡ ok (1 ∷ (2 ∷ []), 3 ∷ [])
encode_input-decode_input_example =
    encode_input-decode_input (1 ∷ (2 ∷ [])) (3 ∷ []) (omega arith) (omega arith)
