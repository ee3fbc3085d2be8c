-- ===== src/Core/Json/Words.antt =====
-- A word and its JSON (purevm/core/types.go).
use offchain_com.Base.{
  ℕ, ◌%◌, ◌≡◌, refl, ap, ◌∙◌, arith, false, List, [], ◌∷◌, ◌++◌, some, Option, All, length, ltb,
  ◌==◌, map,
}
use offchain_com.Core.Word.{Bytes, Word, IsWord}
use offchain_com.Core.Text.{codes, hex_digit, hex_encode}
use offchain_com.Core.Action.{ok}
use offchain_com.Core.State.{word_hex}
use offchain_com.Core.Encoding.{hex_decode, has_prefix, trim_prefix, pad_even}
use offchain_com.Core.Json.{unmarshal_word_text, unmarshal_word, collect}
use offchain_com.Core.Json.Hex.{
  IsPlain, hex_decode-hex_encode, length-hex_encode, hex_encode-IsPlain, pad_even-hex_encode,
}

-- A text in quotes.
abbrev pub quoted : Bytes → Bytes
quoted s = b'"' ∷ (s ++ b'"' ∷ [])

-- `json.Unmarshal` into a string takes off the quotes of a text that needs no escapes.
abbrev pub Unquotes : (Bytes → Option Bytes) → Type 0
Unquotes unmarshal_string = (t : Bytes) → All IsPlain t → unmarshal_string (quoted t) ≡ some t

-- No printed digit is an `X`.
hex_digit-ne-X : (d : ℕ) → (hex_digit d == b'X') ≡ false
unfolding hex_digit
hex_digit-ne-X d = ground arith

hex_encode-trim : (b : Bytes) → trim_prefix b'0' b'X' (hex_encode b) ≡ hex_encode b
unfolding trim_prefix has_prefix hex_encode
hex_encode-trim [] = refl
hex_encode-trim (x ∷ xs) = ground (arith, hex_digit-ne-X (x % 16))

trim_0x : (b : Bytes) → trim_prefix b'0' b'x' (codes "0x" ++ hex_encode b) ≡ hex_encode b
unfolding trim_prefix has_prefix
trim_0x b = refl

-- A word is read back from the text that `Hex` gives for it.
unmarshal_word_text-word_hex : (w : Word) → IsWord w → unmarshal_word_text (word_hex w) ≡ ok w
unfolding word_hex unmarshal_word_text
unmarshal_word_text-word_hex w h =
    let raw : trim_prefix b'0' b'X' (trim_prefix b'0' b'x' (codes "0x" ++ hex_encode w))
        ≡ hex_encode w =
      ap (trim_prefix b'0' b'X') (trim_0x w) ∙ hex_encode-trim w in
    let short : ltb 64 (length (hex_encode w)) ≡ false =
      ground (arith, length-hex_encode w, h.width) in
    let decoded : hex_decode (pad_even (hex_encode w)) ≡ some w =
      ap hex_decode (pad_even-hex_encode w) ∙ hex_decode-hex_encode w h.bytes in
    rw (word_hex, unmarshal_word_text, raw, short, decoded, h.width) refl

pub word_hex-IsPlain : (w : Word) → IsWord w → All IsPlain (word_hex w)
unfolding word_hex
word_hex-IsPlain w h = (omega arith, (omega arith, hex_encode-IsPlain w h.bytes))

module _ (unmarshal_string : Bytes → Option Bytes) (unquotes : Unquotes unmarshal_string) where
  -- `UnmarshalJSON` reads back what `MarshalJSON` has printed of a word.
  pub unmarshal_word-quoted :
      (w : Word) → IsWord w → unmarshal_word unmarshal_string (quoted (word_hex w)) ≡ ok w
  unfolding unmarshal_word
  unmarshal_word-quoted w h =
      rw (unmarshal_word, unquotes (word_hex w) (word_hex-IsPlain w h))
        (unmarshal_word_text-word_hex w h)

  pub collect-quoted :
      (ws : List Word)
      → All IsWord ws
      → collect (unmarshal_word unmarshal_string) (map quoted (map word_hex ws)) ≡ ok ws
  unfolding collect
  collect-quoted [] h = refl
  collect-quoted (w ∷ ws) h = rw (collect, unmarshal_word-quoted w h.0, collect-quoted ws h.1) refl
