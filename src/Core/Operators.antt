-- ===== src/Core/Operators.antt =====
-- What the instructions of purevm/core/instructions.go compute of the words that they pop. The
-- arguments are in the order of the pops: `a` was on top.
pub mod Unsigned
pub mod Signed
pub mod Bytewise
pub mod Words
use Prim.Native.Nat.{bit_and, bit_or, bit_xor}
use offchain_com.Base.{
  ℕ, zero, suc, ◌+◌, ◌*◌, ◌/◌, ◌%◌, ◌-◌, ◌^◌, ◌≡◌, Bool, true, false, List, [], ◌∷◌, ◌++◌, map, leb,
  ltb, if◌then◌else◌, get_or, set, drop, replicate, bytes_eq,
}
use offchain_com.Base.Int.{ℤ, pos, negsuc, sub_ℕ, neg_ℤ, abs, ltb_ℤ, mod_ℤ, div_ℤ, shr_ℤ}
use offchain_com.Core.Word.{
  Bytes, Word, word_modulus, zero_word, big_int, sign_bit, signed_big_int, is_zero, uint64,
  word_from_big_int, word_from_signed_big_int,
}

-- `Word{}` with its last byte written.
unfoldable pub low_byte : ℕ → Word
low_byte b = set zero_word 31 b

-- The result of a comparison.
unfoldable pub flag : Bool → Word
flag b = if b then low_byte 1 else zero_word

unfoldable pub add_word : Word → Word → Word
add_word a b = word_from_big_int (pos ((big_int b + big_int a) % word_modulus))

unfoldable pub mul_word : Word → Word → Word
mul_word a b = word_from_big_int (pos (big_int b * big_int a % word_modulus))

unfoldable pub sub_word : Word → Word → Word
sub_word a b = word_from_big_int (pos (mod_ℤ (sub_ℕ (big_int b) (big_int a)) word_modulus))

unfoldable pub div_word : Word → Word → Word
div_word a b = if is_zero a then zero_word else word_from_big_int (pos (big_int b / big_int a))

unfoldable pub sdiv_word : Word → Word → Word
sdiv_word a b =
    if is_zero a
    then zero_word
    else word_from_signed_big_int (div_ℤ (signed_big_int b) (signed_big_int a))

unfoldable pub mod_word : Word → Word → Word
mod_word a b = if is_zero a then zero_word else word_from_big_int (pos (big_int b % big_int a))

-- The remainder of the absolute values, with the sign of the dividend.
unfoldable pub signed_rem : ℤ → ℤ → ℤ
signed_rem dividend divisor =
    let result = abs dividend % abs divisor in
    if ltb_ℤ dividend (pos 0) then neg_ℤ (pos result) else pos result

unfoldable pub smod_word : Word → Word → Word
smod_word a b =
    if is_zero a
    then zero_word
    else word_from_signed_big_int (signed_rem (signed_big_int b) (signed_big_int a))

unfoldable pub addmod_word : Word → Word → Word → Word
addmod_word modulus b a =
    if is_zero modulus
    then zero_word
    else word_from_big_int (pos ((big_int a + big_int b) % big_int modulus))

unfoldable pub mulmod_word : Word → Word → Word → Word
mulmod_word modulus b a =
    if is_zero modulus
    then zero_word
    else word_from_big_int (pos (big_int a * big_int b % big_int modulus))

unfoldable pub exp_word : Word → Word → Word
exp_word exp base = word_from_big_int (pos (big_int base ^ big_int exp % word_modulus))

unfoldable pub lt_word : Word → Word → Word
lt_word a b = flag (ltb (big_int b) (big_int a))

unfoldable pub gt_word : Word → Word → Word
gt_word a b = flag (ltb (big_int a) (big_int b))

unfoldable pub slt_word : Word → Word → Word
slt_word a b = flag (ltb_ℤ (signed_big_int b) (signed_big_int a))

unfoldable pub sgt_word : Word → Word → Word
sgt_word a b = flag (ltb_ℤ (signed_big_int a) (signed_big_int b))

unfoldable pub eq_word : Word → Word → Word
eq_word a b = flag (bytes_eq a b)

unfoldable pub iszero_word : Word → Word
iszero_word a = flag (is_zero a)

-- The loop over the bytes of two words.
unfoldable pub zip_with : (ℕ → ℕ → ℕ) → Word → Word → Word
zip_with f (a ∷ u) (b ∷ v) = f a b ∷ zip_with f u v
zip_with f _ _ = []

unfoldable pub and_word : Word → Word → Word
and_word a b = zip_with bit_and a b

unfoldable pub or_word : Word → Word → Word
or_word a b = zip_with bit_or a b

unfoldable pub xor_word : Word → Word → Word
xor_word a b = zip_with bit_xor a b

-- `^a[i]` on a byte.
abbrev pub complement : ℕ → ℕ
complement b = 255 - b

unfoldable pub not_word : Word → Word
not_word a = map complement a

unfoldable pub byte_word : Word → Word → Word
byte_word index value =
    let idx = uint64 index in if ltb idx 32 then low_byte (get_or value idx 0) else zero_word

unfoldable pub signextend_word : Word → Word → Word
signextend_word back value =
    let back_idx = uint64 back in
    if leb 32 back_idx
    then value
    else let sign_byte = 31 - back_idx in
      let fill : ℕ = if sign_bit (get_or value sign_byte 0) then 0xff else 0x00 in
      replicate sign_byte fill ++ drop sign_byte value

unfoldable pub shl_word : Word → Word → Word
shl_word shift value =
    let shift_num = uint64 shift in
    if leb 256 shift_num
    then zero_word
    else word_from_big_int (pos (big_int value * 2 ^ shift_num % word_modulus))

unfoldable pub shr_word : Word → Word → Word
shr_word shift value =
    let shift_num = uint64 shift in
    if leb 256 shift_num then zero_word else word_from_big_int (pos (big_int value / 2 ^ shift_num))

unfoldable pub sar_word : Word → Word → Word
sar_word shift value =
    let shift_num = uint64 shift in
    if leb 256 shift_num
    then if sign_bit (get_or value 0 0) then word_from_signed_big_int (negsuc 0) else zero_word
    else word_from_signed_big_int (shr_ℤ (signed_big_int value) shift_num)
