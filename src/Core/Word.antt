-- ===== src/Core/Word.antt =====
-- 256-bit words (purevm/core/types.go). Go's `Word` is `[32]byte`, the most significant byte first;
-- here it is the list of its 32 bytes, and `IsWord` says that it has that length and holds bytes.
pub mod Encode
pub mod Convert
use offchain_com.Base.{
  ℕ, zero, suc, ◌+◌, ◌*◌, ◌/◌, ◌%◌, ◌-◌, ◌^◌, ◌≤◌, ◌<◌, ◌≡◌, Bool, true, false, ◌&&◌, List, [], ◌∷◌,
  ◌++◌, leb, ltb, ◌==◌, if◌then◌else◌, All, length, get_or, take, drop, replicate,
}
use offchain_com.Base.Int.{ℤ, pos, negsuc, sub_ℕ, mod_ℤ}

abbrev pub Bytes : Type 0
Bytes = List ℕ

abbrev pub Word : Type 0
Word = List ℕ

abbrev pub IsByte : ℕ → Type 0
IsByte b = b < 256

pub record IsWord (w : Word) : Type 0 where
  pub width : length w ≡ 32
  pub bytes : All IsByte w

-- `wordModulus`
abbrev pub word_modulus : ℕ
word_modulus = 2 ^ 256

-- `uint64` arithmetic wraps at this modulus.
abbrev pub u64_mod : ℕ
u64_mod = 2 ^ 64

-- `Word{}`
unfoldable pub zero_word : Word
zero_word = replicate 32 0

-- `big.Int.SetBytes`, on top of the value read so far.
unfoldable pub set_bytes : ℕ → Bytes → ℕ
set_bytes acc [] = acc
set_bytes acc (b ∷ bs) = set_bytes (acc * 256 + b) bs

-- `big.Int.FillBytes`: `n` more bytes of `z`, from the least significant, in front of `out`.
unfoldable pub fill_bytes : ℕ → ℕ → Bytes → Bytes
fill_bytes zero z out = out
fill_bytes (suc n) z out = fill_bytes n (z / 256) ((z % 256) ∷ out)

-- `Word.BigInt`
unfoldable pub big_int : Word → ℕ
big_int w = set_bytes 0 w

-- `w[0]&0x80 != 0`, on a byte.
abbrev pub sign_bit : ℕ → Bool
sign_bit b = leb 128 b

-- `Word.SignedBigInt`
unfoldable pub signed_big_int : Word → ℤ
signed_big_int w =
    let z = big_int w in if sign_bit (get_or w 0 0) then sub_ℕ z word_modulus else pos z

-- `Word.IsZero`
unfoldable pub is_zero : Word → Bool
is_zero [] = true
is_zero (b ∷ bs) = b == 0 && is_zero bs

-- `Word.Uint64`: `big.Int.Uint64` takes the low 64 bits.
unfoldable pub uint64 : Word → ℕ
uint64 w = if is_zero w then 0 else big_int w % u64_mod

-- `WordFromUint64`: `binary.BigEndian.PutUint64` into the last eight bytes.
unfoldable pub word_from_uint64 : ℕ → Word
word_from_uint64 v = replicate 24 0 ++ fill_bytes 8 v []

-- `WordFromBigInt`, at an integer that is there; no caller passes `nil`. `big.Int.Mod` is Euclidean,
-- so the branch for a negative remainder is never taken, and `FillBytes` never overflows.
unfoldable pub word_from_big_int : ℤ → Word
word_from_big_int z = fill_bytes 32 (mod_ℤ z word_modulus) []

-- `WordFromSignedBigInt`
unfoldable pub word_from_signed_big_int : ℤ → Word
word_from_signed_big_int z = word_from_big_int z

-- `WordFromBytes`: the last 32 bytes, padded with zeros in front.
unfoldable pub word_from_bytes : Bytes → Word
word_from_bytes b =
    let kept = if ltb 32 (length b) then drop (length b - 32) b else b in
    replicate (32 - length kept) 0 ++ kept
