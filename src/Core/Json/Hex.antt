-- ===== src/Core/Json/Hex.antt =====
-- Reading back what is printed as hexadecimal digits (purevm/core/types.go, purevm/core/state.go).
use offchain_com.Base.{
  ℕ, ◌+◌, ◌*◌, ◌/◌, ◌%◌, ◌≤◌, ◌<◌, ◌≡◌, ◌≢◌, refl, arith, [], ◌∷◌, some, All, length,
}
use offchain_com.Core.Word.{Bytes, IsByte}
use offchain_com.Core.Text.{hex_digit, hex_encode}
use offchain_com.Core.Encoding.{hex_value, hex_decode, pad_even}

-- A character of a text that JSON prints as it is.
abbrev pub IsPlain : ℕ → Type 0
IsPlain c = (b'0' ≤ c) × (c ≤ b'z') × (c ≢ b'\\')

hex_value-hex_digit : (d : ℕ) → d < 16 → hex_value (hex_digit d) ≡ some d
unfolding hex_value hex_digit
hex_value-hex_digit d h = ground arith

pub hex_digit-IsPlain : (d : ℕ) → d < 16 → IsPlain (hex_digit d)
unfolding hex_digit
hex_digit-IsPlain d h = ground arith

-- `hex.DecodeString` reads back what `hex.EncodeToString` has printed.
pub hex_decode-hex_encode : (b : Bytes) → All IsByte b → hex_decode (hex_encode b) ≡ some b
unfolding hex_decode hex_encode
hex_decode-hex_encode [] h = refl
hex_decode-hex_encode (x ∷ xs) h =
    let whole : x / 16 * 16 + x % 16 ≡ x = omega arith in
    rw
      (
        hex_value-hex_digit (x / 16) (omega arith),
        hex_value-hex_digit (x % 16) (omega arith),
        hex_decode-hex_encode xs h.1,
        whole,
      )
      refl

pub length-hex_encode : (b : Bytes) → length (hex_encode b) ≡ 2 * length b
unfolding hex_encode
length-hex_encode [] = omega arith
length-hex_encode (x ∷ xs) = omega (arith, length-hex_encode xs)

pub hex_encode-IsPlain : (b : Bytes) → All IsByte b → All IsPlain (hex_encode b)
unfolding hex_encode
hex_encode-IsPlain [] h = tt
hex_encode-IsPlain (x ∷ xs) h = (
  hex_digit-IsPlain (x / 16) (omega arith),
  (hex_digit-IsPlain (x % 16) (omega arith), hex_encode-IsPlain xs h.1),
)

pub pad_even-hex_encode : (b : Bytes) → pad_even (hex_encode b) ≡ hex_encode b
unfolding pad_even
pad_even-hex_encode b = ground (arith, length-hex_encode b)
