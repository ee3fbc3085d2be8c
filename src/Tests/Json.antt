-- ===== src/Tests/Json.antt =====
-- A state as JSON and back, and a byte field in base64 that reads as hexadecimal digits
-- (purevm/core/state.go).
use offchain_com.Base.{◌≡◌, ◌≢◌, refl, ap, true, [], ◌∷◌, ◌++◌, Option, none, some}
use offchain_com.Core.Word.{Bytes}
use offchain_com.Core.Text.{codes}
use offchain_com.Core.Action.{ok}
use offchain_com.Core.State.{new_state}
use offchain_com.Core.Encoding.{hex_value, base64_decode}
use offchain_com.Core.Json.{looks_like_hex, decode_byte_text, marshal_state, unmarshal_raw_state}
use offchain_com.Core.Json.Words.{Unquotes}
use offchain_com.Core.Json.States.{PrintsHex, raw_of, unmarshal_raw_state-marshal_state}
use offchain_com.Core.Json.Legacy.{decode_byte_text_legacy}
use offchain_com.Tests.Machine.{host}
use offchain_com.Tests.Run.{start, start-IsState}

-- Reading a string up to its closing quote, where nothing is escaped.
abbrev without_last : Bytes → Bytes
without_last [] = []
without_last (c ∷ []) = []
without_last (c ∷ (d ∷ t)) = c ∷ without_last (d ∷ t)

abbrev unquote : Bytes → Option Bytes
unquote [] = none
unquote (c ∷ t) = some (without_last t)

without_last_lem : (t : Bytes) → without_last (t ++ b'"' ∷ []) ≡ t
without_last_lem [] = refl
without_last_lem (c ∷ []) = refl
without_last_lem (c ∷ (d ∷ t)) = ap (λ (s : Bytes). c ∷ s) (without_last_lem (d ∷ t))

unquote-Unquotes : Unquotes unquote
unquote-Unquotes t h = ap (λ (s : Bytes). some s) (without_last_lem t)

prints : PrintsHex host
prints b = refl

unmarshal_raw_state-marshal_state_example :
    unmarshal_raw_state unquote (raw_of (marshal_state host start)) ≡ ok start
unfolding new_state
unmarshal_raw_state-marshal_state_example =
    unmarshal_raw_state-marshal_state host prints unquote unquote-Unquotes start start-IsState tt

looks : looks_like_hex (codes "AAAA") ≡ true
unfolding looks_like_hex hex_value
looks = refl

decode_byte_text_legacy_example :
    (x : Bytes) × (y : Bytes) × (decode_byte_text (codes "AAAA") ≡ ok x)
    × (base64_decode (codes "AAAA") ≡ some y)
    × (x ≢ y)
decode_byte_text_legacy_example = decode_byte_text_legacy (codes "AAAA") looks (λ e. cc) refl
