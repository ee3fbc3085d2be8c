-- ===== src/Core/Text.antt =====
-- The texts that states are printed as: decimal numbers as `encoding/json` prints a `uint64`, and
-- the digits of `encoding/hex`. A text is the list of its bytes.
use Prim.Native.Char.{code}
use Prim.Native.String.{String}
use offchain_com.Base.{ℕ, zero, suc, ◌+◌, ◌/◌, ◌%◌, ◌-◌, [], ◌∷◌, ltb, if◌then◌else◌}
use offchain_com.Core.Word.{Bytes}

abbrev pub codes : String → Bytes
codes String.[] = []
codes (String.◌∷◌ c s) = code c ∷ codes s

-- The loop that prints a number from its last digit on.
unfoldable pub print_digits : ℕ → ℕ → Bytes → Bytes
print_digits zero n out = out
print_digits (suc fuel) n out =
    let rest = print_digits fuel (n / 10) ((b'0' + n % 10) ∷ out) in
    if ltb n 10 then (b'0' + n % 10) ∷ out else rest

-- A `uint64` has at most twenty decimal digits.
unfoldable pub print_uint : ℕ → Bytes
print_uint n = print_digits 20 n []

unfoldable pub hex_digit : ℕ → ℕ
hex_digit d = if ltb d 10 then b'0' + d else b'a' + (d - 10)

-- `hex.EncodeToString`
unfoldable pub hex_encode : Bytes → Bytes
hex_encode [] = []
hex_encode (b ∷ bs) = hex_digit (b / 16) ∷ hex_digit (b % 16) ∷ hex_encode bs
