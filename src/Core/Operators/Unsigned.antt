-- ===== src/Core/Operators/Unsigned.antt =====
-- The unsigned operators (purevm/core/instructions.go) against arithmetic on numbers.
use offchain_com.Base.{
  ℕ, ◌+◌, ◌*◌, ◌/◌, ◌%◌, ◌-◌, ◌^◌, ◌<◌, ◌≡◌, ◌∙◌, arith, leb, ◌==◌, if◌then◌else◌, Bool-cases, inl,
  inr,
}
use offchain_com.Base.Int.{pos}
use offchain_com.Core.Word.{
  Word, IsWord, word_modulus, u64_mod, zero_word, big_int, is_zero, uint64, word_from_big_int,
}
use offchain_com.Core.Word.Encode.{big_int-lt, big_int-word_from_big_int}
use offchain_com.Core.Word.Convert.{is_zero_lem, big_int-zero_word, uint64_lem}
use offchain_com.Core.Operators.{
  add_word, mul_word, sub_word, div_word, mod_word, addmod_word, mulmod_word, exp_word, shl_word,
  shr_word,
}
use native.Mathlib.Nat.{mod-lt, mod-eq_of_lt, div-le_self, mod-le}

-- What a number below 2 ^ 256 becomes as a word.
fits : (n : ℕ) → n < word_modulus → big_int (word_from_big_int (pos n)) ≡ n
fits n h = big_int-word_from_big_int (pos n) ∙ mod-eq_of_lt h

-- A result guarded by a test for zero.
guarded :
    (a : Word) (w : Word) {n : ℕ}
    → (0 < big_int a → big_int w ≡ n)
    → big_int (if is_zero a then zero_word else w) ≡ (if big_int a == 0 then 0 else n)
guarded a w h = rw (is_zero_lem a) (elim (Bool-cases (big_int a == 0)) [
  | inl e ↦ rw e big_int-zero_word
  | inr e ↦ rw e (h (ground arith))
])

div-lt_modulus : (b a : ℕ) → b < word_modulus → b / a < word_modulus
div-lt_modulus b a h = omega (arith, div-le_self b a)

mod-lt_modulus : (b a : ℕ) → b < word_modulus → b % a < word_modulus
mod-lt_modulus b a h = omega (arith, mod-le b a)

-- `ADD`, `SUB`, `MUL`, `DIV` and `MOD` are the operations of numbers: the first three wrap at 2 ^ 256,
-- the others give 0 at a divisor 0. The divisor and the subtrahend are the word from the top.
pub unsigned_arithmetic :
    (a b : Word)
    → IsWord a
    → IsWord b
    → (big_int (add_word a b) ≡ (big_int b + big_int a) % word_modulus)
      × (big_int (sub_word a b) ≡ (big_int b + word_modulus - big_int a) % word_modulus)
      × (big_int (mul_word a b) ≡ big_int b * big_int a % word_modulus)
      × (big_int (div_word a b) ≡ (if big_int a == 0 then 0 else big_int b / big_int a))
      × (big_int (mod_word a b) ≡ (if big_int a == 0 then 0 else big_int b % big_int a))
unfolding add_word sub_word mul_word div_word mod_word
unsigned_arithmetic a b ha hb =
    let x = big_int a in
    let y = big_int b in
    (
      fits _ (omega arith),
      fits _ (ground arith) ∙ ground (arith, big_int-lt a ha, big_int-lt b hb),
      fits _ (omega arith),
      guarded a _ (λ _. fits _ (div-lt_modulus y x (big_int-lt b hb))),
      guarded a _ (λ _. fits _ (mod-lt_modulus y x (big_int-lt b hb))),
    )

-- `ADDMOD` and `MULMOD` reduce the exact sum and product, which does not wrap first; the modulus is
-- on top of the stack, and a modulus 0 gives 0.
pub modular_arithmetic :
    (modulus b a : Word)
    → IsWord modulus
    → (big_int (addmod_word modulus b a)
        ≡ (if big_int modulus == 0 then 0 else (big_int a + big_int b) % big_int modulus))
      × (big_int (mulmod_word modulus b a)
          ≡ (if big_int modulus == 0 then 0 else big_int a * big_int b % big_int modulus))
unfolding addmod_word mulmod_word
modular_arithmetic modulus b a hm = (
  guarded modulus _ (λ p. fits _ (reduced (big_int a + big_int b) p)),
  guarded modulus _ (λ p. fits _ (reduced (big_int a * big_int b) p)),
)
  where
    reduced : (n : ℕ) → 0 < big_int modulus → n % big_int modulus < word_modulus
    reduced n p = omega (arith, mod-lt n p, big_int-lt modulus hm)

-- `EXP` is the power modulo 2 ^ 256.
pub big_int-exp_word :
    (exp base : Word) → big_int (exp_word exp base) ≡ big_int base ^ big_int exp % word_modulus
unfolding exp_word
big_int-exp_word exp base = fits _ (omega arith)

-- `SHL` and `SHR` multiply and divide by a power of two, by 2 to the low 64 bits of the shift; from
-- 256 on the result is 0.
pub shifts :
    (shift value : Word)
    → IsWord value
    → (big_int (shl_word shift value)
        ≡ (if leb 256 (uint64 shift) then 0 else big_int value * 2 ^ uint64 shift % word_modulus))
      × (big_int (shr_word shift value)
          ≡ (if leb 256 (uint64 shift) then 0 else big_int value / 2 ^ uint64 shift))
unfolding shl_word shr_word
shifts shift value h = elim (Bool-cases (leb 256 (uint64 shift))) [
  | inl e ↦ rw e (big_int-zero_word, big_int-zero_word)
  | inr e ↦ rw e (fits _ (omega arith), fits _ (div-lt_modulus _ _ (big_int-lt value h)))
]

-- The operators take the shift from its low 64 bits alone: a shift whose value is a multiple of
-- 2 ^ 64, such as 2 ^ 64 itself, leaves every word as it is.
pub shift_ignores_high_bits :
    (shift value : Word)
    → IsWord value
    → big_int shift % u64_mod ≡ 0
    → (big_int (shl_word shift value) ≡ big_int value)
      × (big_int (shr_word shift value) ≡ big_int value)
shift_ignores_high_bits shift value h e =
    let z : uint64 shift ≡ 0 = uint64_lem shift ∙ e in
    let (l, r) = shifts shift value h in
    (l ∙ rw z (omega (arith, big_int-lt value h)), r ∙ rw z (omega arith))
