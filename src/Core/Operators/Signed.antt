-- ===== src/Core/Operators/Signed.antt =====
-- The signed operators and the comparisons (purevm/core/instructions.go) against arithmetic on
-- integers.
use offchain_com.Base.{
  ℕ, suc, ◌/◌, ◌%◌, ◌-◌, ◌^◌, ◌<◌, ◌≤◌, ◌≡◌, refl, sym, ◌∙◌, ap, ap₂, subst, ◌≢◌, leb→le, Bool,
  true, false, arith, leb, ltb, ◌==◌, if◌then◌else◌, Bool-cases, inl, inr, bytes_eq, bytes_eq→eq,
  bytes_eq_self, ==_iff,
}
use offchain_com.Base.Int.{ℤ, pos, negsuc, abs, ltb_ℤ, mod_ℤ, div_ℤ, shr_ℤ, pos_part, neg_part}
use offchain_com.Core.Word.{
  Word, IsWord, word_modulus, zero_word, set_bytes, big_int, is_zero, signed_big_int, uint64,
  word_from_big_int, word_from_signed_big_int,
}
use offchain_com.Core.Word.Encode.{
  big_int-lt, big_int-word_from_big_int, word_from_big_int-IsWord, signed_big_int_lem, sign_bit_lem,
}
use offchain_com.Core.Word.Convert.{
  is_zero_lem, big_int-zero_word, zero_word-IsWord, big_int-injective,
}
use offchain_com.Core.Operators.{
  sdiv_word, smod_word, signed_rem, sar_word, flag, low_byte, lt_word, gt_word, slt_word, sgt_word,
  eq_word, iszero_word,
}
use native.Mathlib.Nat.{mod-le, div-le_self, div-eq_of_lt, pow-le-pow_right}

-- 1 for true.
abbrev pub truth : Bool → ℕ
truth true = 1
truth false = 0

pub big_int-flag : (b : Bool) → big_int (flag b) ≡ truth b
unfolding flag low_byte zero_word big_int set_bytes
big_int-flag true = refl
big_int-flag false = refl

bytes_eq-big_int : (a b : Word) → IsWord a → IsWord b → bytes_eq a b ≡ (big_int a == big_int b)
bytes_eq-big_int a b ha hb = elim (Bool-cases (bytes_eq a b)) [
  | inl e ↦ ground (arith, ap big_int (bytes_eq→eq a b e))
  | inr e ↦ elim (Bool-cases (big_int a == big_int b)) [
    | inl same ↦
        cc (bytes_eq_self a, ap (bytes_eq a) (big_int-injective a b ha hb ((==_iff _ _).0 same)))
    | inr differ ↦ e ∙ sym differ
  ]
]

-- Each comparison pushes 1 if it holds of the values and 0 if not, unsigned or signed, the word
-- below the top on its left.
pub comparisons :
    (a b : Word)
    → IsWord a
    → IsWord b
    → (big_int (lt_word a b) ≡ truth (ltb (big_int b) (big_int a)))
      × (big_int (gt_word a b) ≡ truth (ltb (big_int a) (big_int b)))
      × (big_int (slt_word a b) ≡ truth (ltb_ℤ (signed_big_int b) (signed_big_int a)))
      × (big_int (sgt_word a b) ≡ truth (ltb_ℤ (signed_big_int a) (signed_big_int b)))
      × (big_int (eq_word a b) ≡ truth (big_int a == big_int b))
      × (big_int (iszero_word a) ≡ truth (big_int a == 0))
unfolding lt_word gt_word slt_word sgt_word eq_word iszero_word
comparisons a b ha hb = (
  big_int-flag _,
  big_int-flag _,
  big_int-flag _,
  big_int-flag _,
  big_int-flag _ ∙ ap truth (bytes_eq-big_int a b ha hb),
  big_int-flag _ ∙ ap truth (is_zero_lem a),
)

-- The integers of two's complement.
abbrev pub IsInt256 : ℤ → Type 0
IsInt256 z = (pos_part z < 2 ^ 255) × (neg_part z ≤ 2 ^ 255)

signed_word :
    (n : ℕ) (z : ℤ)
    → n ≡ mod_ℤ z word_modulus
    → IsInt256 z
    → (if leb (2 ^ 255) n then negsuc (word_modulus - n - 1) else pos n) ≡ z
signed_word n (pos m) e h = ground arith
signed_word n (negsuc m) e h = ground arith

-- An integer of two's complement is the signed value of the word made of it.
pub signed_big_int-word_from_signed_big_int :
    (z : ℤ) → IsInt256 z → signed_big_int (word_from_signed_big_int z) ≡ z
unfolding word_from_signed_big_int
signed_big_int-word_from_signed_big_int z h =
    signed_big_int_lem (word_from_big_int z) (word_from_big_int-IsWord z)
    ∙ signed_word _ z (big_int-word_from_big_int z) h

pub signed_big_int-IsInt256 : (w : Word) → IsWord w → IsInt256 (signed_big_int w)
signed_big_int-IsInt256 w h =
    subst IsInt256 (sym (signed_big_int_lem w h)) (bounds (big_int w) (big_int-lt w h))
  where
    bounds :
        (n : ℕ)
        → n < word_modulus
        → IsInt256 (if leb (2 ^ 255) n then negsuc (word_modulus - n - 1) else pos n)
    bounds n lt = ground arith

not_zero : (a : Word) → 0 < big_int a → is_zero a ≡ false
not_zero a h = is_zero_lem a ∙ ground arith

positive : (a : Word) → IsWord a → signed_big_int a ≢ pos 0 → 0 < big_int a
positive a h ne = ground (arith, signed_big_int_lem a h)

-- `SDIV` of a negative dividend by a positive divisor rounds the quotient down, towards minus
-- infinity: -(n + 1) by d + 1 gives -(n / (d + 1) + 1), where rounding towards zero would give
-- -((n + 1) / (d + 1)).
pub sdiv_rounds_down :
    (a b : Word) (n d : ℕ)
    → IsWord a
    → IsWord b
    → signed_big_int b ≡ negsuc n
    → signed_big_int a ≡ pos (suc d)
    → signed_big_int (sdiv_word a b) ≡ negsuc (n / suc d)
unfolding sdiv_word
sdiv_rounds_down a b n d ha hb eb ea =
    let z : is_zero a ≡ false = not_zero a (positive a ha (λ e. cc)) in
    rw z (
      ap (λ t. signed_big_int (word_from_signed_big_int t)) (ap₂ div_ℤ eb ea)
      ∙ signed_big_int-word_from_signed_big_int (negsuc (n / suc d))
          (omega arith, omega (arith, div-le_self n (suc d), quotient_bound)))
  where
    quotient_bound : suc n ≤ 2 ^ 255
    quotient_bound = subst (λ t. neg_part t ≤ 2 ^ 255) eb (signed_big_int-IsInt256 b hb).1

signed_rem-IsInt256 : (x y : ℤ) → IsInt256 x → IsInt256 (signed_rem x y)
unfolding signed_rem
signed_rem-IsInt256 (pos m) y h = ground (arith, mod-le m (abs y))
signed_rem-IsInt256 (negsuc m) y h = ground (arith, mod-le (suc m) (abs y))

signed_rem_lem :
    (x y : ℤ)
    → (abs (signed_rem x y) ≡ abs x % abs y)
      × (pos_part x ≡ 0 → pos_part (signed_rem x y) ≡ 0)
      × (neg_part x ≡ 0 → neg_part (signed_rem x y) ≡ 0)
unfolding signed_rem
signed_rem_lem (pos m) y = ground (arith, mod-le m (abs y))
signed_rem_lem (negsuc m) y = ground (arith, mod-le (suc m) (abs y))

-- `SMOD` by a divisor other than 0 leaves the remainder of the absolute values, with the sign of the
-- dividend.
pub smod_lem :
    (a b : Word)
    → IsWord a
    → IsWord b
    → 0 < big_int a
    → (abs (signed_big_int (smod_word a b)) ≡ abs (signed_big_int b) % abs (signed_big_int a))
      × (pos_part (signed_big_int b) ≡ 0 → pos_part (signed_big_int (smod_word a b)) ≡ 0)
      × (neg_part (signed_big_int b) ≡ 0 → neg_part (signed_big_int (smod_word a b)) ≡ 0)
unfolding smod_word
smod_lem a b ha hb h =
    rw
      (
        not_zero a h,
        signed_big_int-word_from_signed_big_int (signed_rem (signed_big_int b) (signed_big_int a))
            (signed_rem-IsInt256 _ _ (signed_big_int-IsInt256 b hb)),
      )
      (signed_rem_lem (signed_big_int b) (signed_big_int a))

shr_ℤ-IsInt256 : (z : ℤ) (k : ℕ) → IsInt256 z → IsInt256 (shr_ℤ z k)
shr_ℤ-IsInt256 (pos n) k h = (omega (arith, div-le_self n (2 ^ k)), omega arith)
shr_ℤ-IsInt256 (negsuc n) k h = (omega arith, omega (arith, div-le_self n (2 ^ k)))

div-large_pow : (n k : ℕ) → n < 2 ^ 255 → 256 ≤ k → n / 2 ^ k ≡ 0
div-large_pow n k h le =
    div-eq_of_lt (omega (arith, pow-le-pow_right {n = 2} (omega arith) {i = 256} {j = k} le))

-- Past the last bit only the sign is left.
shr_ℤ_large :
    (n k : ℕ)
    → n < word_modulus
    → 256 ≤ k
    → shr_ℤ (if leb (2 ^ 255) n then negsuc (word_modulus - n - 1) else pos n) k
      ≡ (if leb (2 ^ 255) n then negsuc 0 else pos 0)
shr_ℤ_large n k h le = elim (Bool-cases (leb (2 ^ 255) n)) [
  | inl e ↦ rw e (ap negsuc (div-large_pow (word_modulus - n - 1) k (ground arith) le))
  | inr e ↦ rw e (ap pos (div-large_pow n k (ground arith) le))
]

-- `SAR` divides the signed value by a power of two and rounds down, by 2 to the low 64 bits of the
-- shift: where these make 256 or more, nothing is left but the sign.
pub signed_big_int-sar_word :
    (shift value : Word)
    → IsWord value
    → signed_big_int (sar_word shift value) ≡ shr_ℤ (signed_big_int value) (uint64 shift)
unfolding sar_word
signed_big_int-sar_word shift value h = elim (Bool-cases (leb 256 (uint64 shift))) [
  | inl e ↦
      rw
        (
          e,
          sign_bit_lem value h,
          signed_big_int_lem value h,
          shr_ℤ_large (big_int value) (uint64 shift) (big_int-lt value h)
              (leb→le 256 (uint64 shift) e),
        )
        (elim (Bool-cases (leb (2 ^ 255) (big_int value))) [
          | inl neg ↦ rw neg (signed_big_int-word_from_signed_big_int (negsuc 0) (omega arith))
          | inr nonneg ↦
              rw nonneg (signed_big_int_lem zero_word zero_word-IsWord ∙ rw big_int-zero_word)
        ])
  | inr e ↦ rw e (
      signed_big_int-word_from_signed_big_int (shr_ℤ (signed_big_int value) (uint64 shift))
        (shr_ℤ-IsInt256 _ _ (signed_big_int-IsInt256 value h)))
]
