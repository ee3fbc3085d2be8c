-- ===== src/Core/Encoding.antt =====
-- What words and states (purevm/core/types.go, purevm/core/state.go) use of Go's `encoding/hex`,
-- `encoding/base64` and `strings`.
use offchain_com.Base.{
  ℕ, ◌+◌, ◌-◌, ◌*◌, ◌/◌, ◌%◌, Bool, true, false, ◌&&◌, ◌||◌, [], ◌∷◌, Option, none, some, leb, ◌==◌,
  if◌then◌else◌, length, drop,
}
use offchain_com.Core.Word.{Bytes}

-- The value of a digit of `encoding/hex`.
unfoldable pub hex_value : ℕ → Option ℕ
hex_value c =
    if leb b'0' c && leb c b'9'
    then some (c - b'0')
    else if leb b'a' c && leb c b'f'
    then some (c - b'a' + 10)
    else if leb b'A' c && leb c b'F'
    then some (c - b'A' + 10)
    else none

abbrev pub join_digits : Option ℕ → Option ℕ → Option Bytes → Option Bytes
join_digits (some h) (some l) (some bs) = some ((h * 16 + l) ∷ bs)
join_digits (some h) (some l) none = none
join_digits (some h) none r = none
join_digits none l r = none

-- `hex.DecodeString`
unfoldable pub hex_decode : Bytes → Option Bytes
hex_decode [] = some []
hex_decode (c ∷ []) = none
hex_decode (c ∷ (d ∷ rest)) = join_digits (hex_value c) (hex_value d) (hex_decode rest)

-- `if len(s)%2 == 1 { s = "0" + s }`
unfoldable pub pad_even : Bytes → Bytes
pad_even s = if length s % 2 == 1 then b'0' ∷ s else s

-- `strings.HasPrefix` and `strings.TrimPrefix`, at a prefix of two bytes.
unfoldable pub has_prefix : ℕ → ℕ → Bytes → Bool
has_prefix a b (c ∷ (d ∷ s)) = c == a && d == b
has_prefix a b s = false

unfoldable pub trim_prefix : ℕ → ℕ → Bytes → Bytes
trim_prefix a b s = if has_prefix a b s then drop 2 s else s

-- The value of a digit of `base64.StdEncoding`.
unfoldable pub base64_value : ℕ → Option ℕ
base64_value c =
    if leb b'A' c && leb c b'Z'
    then some (c - b'A')
    else if leb b'a' c && leb c b'z'
    then some (c - b'a' + 26)
    else if leb b'0' c && leb c b'9'
    then some (c - b'0' + 52)
    else if c == b'+'
    then some 62
    else if c == b'/'
    then some 63
    else none

-- The bytes of two, three and four digits.
abbrev pub one_byte : Option ℕ → Option ℕ → Option Bytes
one_byte (some a) (some b) = some ((a * 4 + b / 16) ∷ [])
one_byte (some a) none = none
one_byte none b = none

abbrev pub two_bytes : Option ℕ → Option ℕ → Option ℕ → Option Bytes
two_bytes (some a) (some b) (some c) = some ((a * 4 + b / 16) ∷ ((b % 16 * 16 + c / 4) ∷ []))
two_bytes (some a) (some b) none = none
two_bytes (some a) none c = none
two_bytes none b c = none

abbrev pub three_bytes : Option ℕ → Option ℕ → Option ℕ → Option ℕ → Option Bytes → Option Bytes
three_bytes (some a) (some b) (some c) (some d) (some rest) =
    some ((a * 4 + b / 16) ∷ ((b % 16 * 16 + c / 4) ∷ ((c % 4 * 64 + d) ∷ rest)))
three_bytes (some a) (some b) (some c) (some d) none = none
three_bytes (some a) (some b) (some c) none rest = none
three_bytes (some a) (some b) none d rest = none
three_bytes (some a) none c d rest = none
three_bytes none b c d rest = none

abbrev pub is_nil : Bytes → Bool
is_nil [] = true
is_nil (b ∷ bs) = false

-- The loop over groups of four digits; `=` pads the last group only.
unfoldable pub decode_groups : Bytes → Option Bytes
decode_groups [] = some []
decode_groups (a ∷ (b ∷ (c ∷ (d ∷ rest)))) =
    let va = base64_value a in
    let vb = base64_value b in
    let more = decode_groups rest in
    if d == b'='
    then if is_nil rest
      then if c == b'=' then one_byte va vb else two_bytes va vb (base64_value c)
      else none
    else three_bytes va vb (base64_value c) (base64_value d) more
decode_groups s = none

-- Line ends are skipped.
unfoldable pub without_line_ends : Bytes → Bytes
without_line_ends [] = []
without_line_ends (c ∷ s) =
    let rest = without_line_ends s in if c == 10 || c == 13 then rest else c ∷ rest

-- `base64.StdEncoding.DecodeString`
unfoldable pub base64_decode : Bytes → Option Bytes
base64_decode s = decode_groups (without_line_ends s)
