-- ===== src/Tests/Words.antt =====
-- Words in concrete operations (purevm/core/types.go, purevm/core/instructions.go).
use offchain_com.Base.{
  ℕ, ◌%◌, ◌<◌, ◌≡◌, refl, arith, [], ◌∷◌, ◌++◌, replicate, All-append, All-replicate,
}
use offchain_com.Base.Int.{pos, negsuc, abs, pos_part, neg_part}
use offchain_com.Core.Opcode
use offchain_com.Core.Opcode.Name.{op_name, op_name-injective}
use offchain_com.Core.Text.{codes}
use offchain_com.Core.Word.{
  Word, IsByte, IsWord, set_bytes, big_int, signed_big_int, uint64, is_zero,
}
use offchain_com.Core.Operators.{
  add_word, sub_word, mul_word, div_word, mod_word, shl_word, shr_word, sar_word, sdiv_word,
  smod_word, lt_word, gt_word, slt_word, sgt_word, eq_word, iszero_word,
}
use offchain_com.Core.Operators.Unsigned.{unsigned_arithmetic, shifts, shift_ignores_high_bits}
use offchain_com.Core.Operators.Signed.{
  comparisons, sdiv_rounds_down, smod_lem, signed_big_int-sar_word,
}

-- A word below 256.
abbrev pub small : ℕ → Word
small n = replicate 31 0 ++ n ∷ []

pub small-IsWord : (n : ℕ) → n < 256 → IsWord (small n)
small-IsWord n h = record {
  width = refl;
  bytes =
      All-append IsByte (replicate 31 0) (n ∷ []) (All-replicate IsByte 31 0 (omega arith)) (h, tt);
}

-- A word between -256 and -1 that ends in the byte `n`.
abbrev low : ℕ → Word
low n = replicate 31 255 ++ n ∷ []

low-IsWord : (n : ℕ) → n < 256 → IsWord (low n)
low-IsWord n h = record {
  width = refl;
  bytes =
      All-append IsByte (replicate 31 255) (n ∷ []) (All-replicate IsByte 31 255 (omega arith))
        (h, tt);
}

unsigned_arithmetic_example :
    (big_int (add_word (small 3) (small 7)) ≡ 10)
    × (big_int (sub_word (small 3) (small 7)) ≡ 4)
    × (big_int (mul_word (small 3) (small 7)) ≡ 21)
    × (big_int (div_word (small 3) (small 7)) ≡ 2)
    × (big_int (mod_word (small 3) (small 7)) ≡ 1)
unfolding big_int set_bytes
unsigned_arithmetic_example =
    unsigned_arithmetic (small 3) (small 7) (small-IsWord 3 (omega arith))
      (small-IsWord 7 (omega arith))

shifts_example :
    (big_int (shl_word (small 1) (small 5)) ≡ 10) × (big_int (shr_word (small 1) (small 5)) ≡ 2)
unfolding big_int set_bytes uint64 is_zero
shifts_example = shifts (small 1) (small 5) (small-IsWord 5 (omega arith))

-- 2 ^ 64
abbrev beyond : Word
beyond = replicate 23 0 ++ (1 ∷ replicate 8 0)

shift_ignores_high_bits_example :
    (big_int (shl_word beyond (small 5)) ≡ big_int (small 5))
    × (big_int (shr_word beyond (small 5)) ≡ big_int (small 5))
unfolding big_int set_bytes
shift_ignores_high_bits_example =
    shift_ignores_high_bits beyond (small 5) (small-IsWord 5 (omega arith)) refl

comparisons_example :
    (big_int (lt_word (small 3) (low 255)) ≡ 0)
    × (big_int (gt_word (small 3) (low 255)) ≡ 1)
    × (big_int (slt_word (small 3) (low 255)) ≡ 1)
    × (big_int (sgt_word (small 3) (low 255)) ≡ 0)
    × (big_int (eq_word (small 3) (low 255)) ≡ 0)
    × (big_int (iszero_word (small 3)) ≡ 0)
unfolding big_int set_bytes signed_big_int
comparisons_example =
    comparisons (small 3) (low 255) (small-IsWord 3 (omega arith)) (low-IsWord 255 (omega arith))

low_seven : signed_big_int (low 249) ≡ negsuc 6
unfolding signed_big_int big_int set_bytes
low_seven = refl

small_two : signed_big_int (small 2) ≡ pos 2
unfolding signed_big_int big_int set_bytes
small_two = refl

-- -7 by 2 is -4, where rounding towards zero gives -3.
sdiv_rounds_down_example : signed_big_int (sdiv_word (small 2) (low 249)) ≡ negsuc 3
sdiv_rounds_down_example =
    sdiv_rounds_down (small 2) (low 249) 6 1 (small-IsWord 2 (omega arith))
      (low-IsWord 249 (omega arith)) low_seven small_two

small_positive : 0 < big_int (small 2)
unfolding big_int set_bytes
small_positive = omega arith

smod_lem_example :
    (abs (signed_big_int (smod_word (small 2) (low 249)))
      ≡ abs (signed_big_int (low 249)) % abs (signed_big_int (small 2)))
    × (pos_part (signed_big_int (low 249)) ≡ 0
        → pos_part (signed_big_int (smod_word (small 2) (low 249))) ≡ 0)
    × (neg_part (signed_big_int (low 249)) ≡ 0
        → neg_part (signed_big_int (smod_word (small 2) (low 249))) ≡ 0)
smod_lem_example =
    smod_lem (small 2) (low 249) (small-IsWord 2 (omega arith)) (low-IsWord 249 (omega arith))
      small_positive

signed_big_int-sar_word_example : signed_big_int (sar_word (small 1) (low 249)) ≡ negsuc 3
unfolding signed_big_int big_int set_bytes uint64 is_zero
signed_big_int-sar_word_example =
    signed_big_int-sar_word (small 1) (low 249) (low-IsWord 249 (omega arith))

add_name : op_name Opcode.add ≡ codes "ADD"
unfolding op_name
add_name = refl

op_name-injective_example : Opcode.dup1 ≡ 0x80
op_name-injective_example = op_name-injective Opcode.dup1 0x80 (omega arith) (omega arith) refl
