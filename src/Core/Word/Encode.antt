-- ===== src/Core/Word/Encode.antt =====
-- `BigInt`, `SignedBigInt`, `WordFromBigInt` and `WordFromSignedBigInt` (purevm/core/types.go).
use offchain_com.Base.{
  ℕ, zero, suc, ◌+◌, ◌*◌, ◌/◌, ◌%◌, ◌-◌, ◌^◌, ◌<◌, ◌≡◌, refl, ◌∙◌, ap, ap₂, subst, Bool, [], ◌∷◌,
  ◌++◌, arith, All, length, get_or, mod-mul_split, pow_pos, leb, if◌then◌else◌,
}
use offchain_com.Base.Int.{ℤ, pos, negsuc, sub_ℕ, mod_ℤ}
use offchain_com.Core.Word.{
  Bytes, Word, IsByte, IsWord, word_modulus, set_bytes, fill_bytes, big_int, sign_bit,
  signed_big_int, word_from_big_int, word_from_signed_big_int,
}
use native.Mathlib.Nat.{pow-zero, pow-succ', mod-eq_of_lt}
use mathlib.Core.List.{append-nil}

pub length-fill_bytes : (n z : ℕ) (out : Bytes) → length (fill_bytes n z out) ≡ n + length out
unfolding fill_bytes
length-fill_bytes zero z out = omega arith
length-fill_bytes (suc n) z out = omega (arith, length-fill_bytes n (z / 256) ((z % 256) ∷ out))

pub fill_bytes-All : (n z : ℕ) (out : Bytes) → All IsByte out → All IsByte (fill_bytes n z out)
unfolding fill_bytes
fill_bytes-All zero z out h = h
fill_bytes-All (suc n) z out h = fill_bytes-All n (z / 256) _ (omega arith, h)

fill_bytes-zero : (z : ℕ) (out : Bytes) → fill_bytes 0 z out ≡ out
unfolding fill_bytes
fill_bytes-zero z out = refl

pub set_bytes-nil : (acc : ℕ) → set_bytes acc [] ≡ acc
unfolding set_bytes
set_bytes-nil acc = refl

-- Reading back what was filled in.
pub set_bytes-fill_bytes :
    (n acc z : ℕ) (out : Bytes)
    → set_bytes acc (fill_bytes n z out) ≡ set_bytes (acc * 256 ^ n + z % 256 ^ n) out
unfolding set_bytes fill_bytes
set_bytes-fill_bytes zero acc z out = ap (λ (t : ℕ). set_bytes t out) (omega (arith, pow-zero 256))
set_bytes-fill_bytes (suc n) acc z out =
    set_bytes-fill_bytes n acc (z / 256) ((z % 256) ∷ out)
    ∙ ap (λ (t : ℕ). set_bytes t out)
        (omega (
          arith,
          pow-succ' 256 n,
          ap (λ (t : ℕ). acc * t) (pow-succ' 256 n),
          ap (λ (t : ℕ). z % t) (pow-succ' 256 n),
          mod-mul_split z 256 (256 ^ n) (omega arith) (pow_pos 256 n (omega arith)),
        ))

-- Filling in what was read, byte for byte.
pub fill_bytes-set_bytes :
    (k acc : ℕ) (xs out : Bytes)
    → All IsByte xs
    → fill_bytes (length xs + k) (set_bytes acc xs) out ≡ fill_bytes k acc (xs ++ out)
unfolding set_bytes fill_bytes
fill_bytes-set_bytes k acc [] out h =
    ap (λ (t : ℕ). fill_bytes t acc out) {x = length {A = ℕ} [] + k} {y = k} (omega arith)
fill_bytes-set_bytes k acc (x ∷ xs) out h =
    ap (λ (t : ℕ). fill_bytes t (set_bytes (acc * 256 + x) xs) out) {x = length (x ∷ xs) + k}
      {y = length xs + suc k} (omega arith)
    ∙ fill_bytes-set_bytes (suc k) (acc * 256 + x) xs out h.1
    ∙ ap₂ (λ (t d : ℕ). fill_bytes k t (d ∷ (xs ++ out))) {x = (acc * 256 + x) / 256} {y = acc}
        {u = (acc * 256 + x) % 256} {v = x} (omega (arith, h.0)) (omega (arith, h.0))

fill_bytes-width :
    (n : ℕ) (w : Word) → length w ≡ n → All IsByte w → fill_bytes n (set_bytes 0 w) [] ≡ w
fill_bytes-width n w e h =
    ap (λ (t : ℕ). fill_bytes t (set_bytes 0 w) []) {x = n} {y = length w + 0} (omega arith)
    ∙ fill_bytes-set_bytes 0 0 w [] h
    ∙ fill_bytes-zero 0 (w ++ [])
    ∙ append-nil w

-- The bytes read before stand above those that follow.
pub set_bytes-acc :
    (acc : ℕ) (xs : Bytes) → set_bytes acc xs ≡ acc * 256 ^ length xs + set_bytes 0 xs
unfolding set_bytes
set_bytes-acc acc [] = omega (arith, pow-zero 256)
set_bytes-acc acc (x ∷ xs) =
    set_bytes-acc (acc * 256 + x) xs ∙ rw (pow-succ', set_bytes-acc (0 * 256 + x) xs) (omega arith)

pub set_bytes-lt : (xs : Bytes) → All IsByte xs → set_bytes 0 xs < 256 ^ length xs
unfolding set_bytes
set_bytes-lt [] h = omega (arith, pow-zero 256)
set_bytes-lt (x ∷ xs) h =
    grind (arith, set_bytes-acc x xs, set_bytes-lt xs h.1, pow-succ' 256 (length xs))

pub big_int-lt : (w : Word) → IsWord w → big_int w < word_modulus
unfolding big_int
big_int-lt w h = rw h.width at (set_bytes-lt w h.bytes)

pub word_from_big_int-IsWord : (z : ℤ) → IsWord (word_from_big_int z)
unfolding word_from_big_int
word_from_big_int-IsWord z = record {
  width = length-fill_bytes 32 (mod_ℤ z word_modulus) [];
  bytes = fill_bytes-All 32 (mod_ℤ z word_modulus) [] tt;
}

mod_ℤ-lt : (z : ℤ) → mod_ℤ z word_modulus < word_modulus
mod_ℤ-lt (pos n) = omega arith
mod_ℤ-lt (negsuc n) = omega arith

-- The word made of an integer reads back as that integer reduced to 256 bits.
pub big_int-word_from_big_int : (z : ℤ) → big_int (word_from_big_int z) ≡ mod_ℤ z word_modulus
unfolding big_int word_from_big_int set_bytes
big_int-word_from_big_int z =
    set_bytes-fill_bytes 32 0 (mod_ℤ z word_modulus) []
    ∙ set_bytes-nil _
    ∙ omega (arith, mod_ℤ-lt z)

-- Every word is made again, byte for byte, of the number that it reads as.
pub word_from_big_int-big_int : (w : Word) → IsWord w → word_from_big_int (pos (big_int w)) ≡ w
unfolding big_int word_from_big_int
word_from_big_int-big_int w h =
    ap (λ (t : ℕ). fill_bytes 32 t []) (mod-eq_of_lt (big_int-lt w h))
    ∙ fill_bytes-width 32 w h.width h.bytes

-- Integers that agree modulo 2 ^ 256 make the same word.
pub word_from_big_int_congr :
    (y z : ℤ)
    → mod_ℤ y word_modulus ≡ mod_ℤ z word_modulus
    → word_from_big_int y ≡ word_from_big_int z
unfolding word_from_big_int
word_from_big_int_congr y z e = ap (λ (t : ℕ). fill_bytes 32 t []) e

mod_ℤ-signed :
    (b : Bool) (n : ℕ)
    → n < word_modulus
    → mod_ℤ (if b then sub_ℕ n word_modulus else pos n) word_modulus ≡ n % word_modulus
mod_ℤ-signed b n h = ground arith

-- Both readings of a word, signed and unsigned, agree modulo 2 ^ 256.
pub mod_ℤ-signed_big_int :
    (w : Word) → IsWord w → mod_ℤ (signed_big_int w) word_modulus ≡ big_int w % word_modulus
unfolding signed_big_int
mod_ℤ-signed_big_int w h = mod_ℤ-signed (sign_bit (get_or w 0 0)) (big_int w) (big_int-lt w h)

-- The signed value leads back to the word.
pub word_from_signed_big_int-signed_big_int :
    (w : Word) → IsWord w → word_from_signed_big_int (signed_big_int w) ≡ w
unfolding word_from_signed_big_int
word_from_signed_big_int-signed_big_int w h =
    word_from_big_int_congr (signed_big_int w) (pos (big_int w)) (mod_ℤ-signed_big_int w h)
    ∙ word_from_big_int-big_int w h

-- The sign bit of a word says on which side of 2 ^ 255 it lies.
pub sign_bit_lem : (w : Word) → IsWord w → sign_bit (get_or w 0 0) ≡ leb (2 ^ 255) (big_int w)
unfolding big_int set_bytes
sign_bit_lem [] h = absurd (omega (arith, h.width))
sign_bit_lem (b ∷ bs) h =
    let e : length bs ≡ 31 = omega (arith, h.width) in
    let lt : set_bytes 0 bs < 256 ^ 31 =
      subst (λ (t : ℕ). set_bytes 0 bs < 256 ^ t) e (set_bytes-lt bs h.bytes.1) in
    let v : set_bytes (0 * 256 + b) bs ≡ (0 * 256 + b) * 256 ^ 31 + set_bytes 0 bs =
      subst (λ (t : ℕ). set_bytes (0 * 256 + b) bs ≡ (0 * 256 + b) * 256 ^ t + set_bytes 0 bs) e
        (set_bytes-acc (0 * 256 + b) bs) in
    ground (arith, lt, v)

-- The signed value is that of two's complement: the value itself below 2 ^ 255, and less 2 ^ 256
-- from there on.
pub signed_big_int_lem :
    (w : Word)
    → IsWord w
    → signed_big_int w ≡ (
        if leb (2 ^ 255) (big_int w)
        then negsuc (word_modulus - big_int w - 1)
        else pos (big_int w))
unfolding signed_big_int
signed_big_int_lem w h = rw (sign_bit_lem w h) (twos_complement (big_int w) (big_int-lt w h))
  where
    twos_complement :
        (n : ℕ)
        → n < word_modulus
        → (if leb (2 ^ 255) n then sub_ℕ n word_modulus else pos n)
          ≡ (if leb (2 ^ 255) n then negsuc (word_modulus - n - 1) else pos n)
    twos_complement n h = ground arith
