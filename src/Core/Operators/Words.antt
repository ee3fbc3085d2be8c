-- ===== src/Core/Operators/Words.antt =====
-- The width of what the arithmetic operators and comparisons (purevm/core/instructions.go) give.
use offchain_com.Base.{Bool, true, false, if◌then◌else◌}
use offchain_com.Base.Int.{ℤ}
use offchain_com.Core.Word.{Word, IsWord, zero_word, word_from_big_int, word_from_signed_big_int}
use offchain_com.Core.Word.Encode.{word_from_big_int-IsWord}
use offchain_com.Core.Word.Convert.{zero_word-IsWord}
use offchain_com.Core.Operators.{
  add_word, mul_word, sub_word, div_word, sdiv_word, mod_word, smod_word, addmod_word, mulmod_word,
  exp_word, lt_word, gt_word, slt_word, sgt_word, eq_word, iszero_word, shl_word, shr_word,
  sar_word,
}
use offchain_com.Core.Operators.Bytewise.{flag-IsWord}

choice-IsWord : (b : Bool) (v w : Word) → IsWord v → IsWord w → IsWord (if b then v else w)
choice-IsWord true v w hv hw = hv
choice-IsWord false v w hv hw = hw

signed-IsWord : (z : ℤ) → IsWord (word_from_signed_big_int z)
unfolding word_from_signed_big_int
signed-IsWord z = word_from_big_int-IsWord z

-- A result guarded by a test, such as that for a divisor 0.
guarded-IsWord : (b : Bool) (z : ℤ) → IsWord (if b then zero_word else word_from_big_int z)
guarded-IsWord b z = choice-IsWord b _ _ zero_word-IsWord (word_from_big_int-IsWord z)

guarded_signed-IsWord :
    (b : Bool) (z : ℤ) → IsWord (if b then zero_word else word_from_signed_big_int z)
guarded_signed-IsWord b z = choice-IsWord b _ _ zero_word-IsWord (signed-IsWord z)

pub add_word-IsWord : (a b : Word) → IsWord (add_word a b)
unfolding add_word
add_word-IsWord a b = word_from_big_int-IsWord _

pub mul_word-IsWord : (a b : Word) → IsWord (mul_word a b)
unfolding mul_word
mul_word-IsWord a b = word_from_big_int-IsWord _

pub sub_word-IsWord : (a b : Word) → IsWord (sub_word a b)
unfolding sub_word
sub_word-IsWord a b = word_from_big_int-IsWord _

pub exp_word-IsWord : (a b : Word) → IsWord (exp_word a b)
unfolding exp_word
exp_word-IsWord a b = word_from_big_int-IsWord _

pub div_word-IsWord : (a b : Word) → IsWord (div_word a b)
unfolding div_word
div_word-IsWord a b = guarded-IsWord _ _

pub mod_word-IsWord : (a b : Word) → IsWord (mod_word a b)
unfolding mod_word
mod_word-IsWord a b = guarded-IsWord _ _

pub shl_word-IsWord : (a b : Word) → IsWord (shl_word a b)
unfolding shl_word
shl_word-IsWord a b = guarded-IsWord _ _

pub shr_word-IsWord : (a b : Word) → IsWord (shr_word a b)
unfolding shr_word
shr_word-IsWord a b = guarded-IsWord _ _

pub sdiv_word-IsWord : (a b : Word) → IsWord (sdiv_word a b)
unfolding sdiv_word
sdiv_word-IsWord a b = guarded_signed-IsWord _ _

pub smod_word-IsWord : (a b : Word) → IsWord (smod_word a b)
unfolding smod_word
smod_word-IsWord a b = guarded_signed-IsWord _ _

pub lt_word-IsWord : (a b : Word) → IsWord (lt_word a b)
unfolding lt_word
lt_word-IsWord a b = flag-IsWord _

pub gt_word-IsWord : (a b : Word) → IsWord (gt_word a b)
unfolding gt_word
gt_word-IsWord a b = flag-IsWord _

pub slt_word-IsWord : (a b : Word) → IsWord (slt_word a b)
unfolding slt_word
slt_word-IsWord a b = flag-IsWord _

pub sgt_word-IsWord : (a b : Word) → IsWord (sgt_word a b)
unfolding sgt_word
sgt_word-IsWord a b = flag-IsWord _

pub eq_word-IsWord : (a b : Word) → IsWord (eq_word a b)
unfolding eq_word
eq_word-IsWord a b = flag-IsWord _

pub sar_word-IsWord : (a b : Word) → IsWord (sar_word a b)
unfolding sar_word
sar_word-IsWord a b =
    choice-IsWord _ _ _ (choice-IsWord _ _ _ (signed-IsWord _) zero_word-IsWord) (signed-IsWord _)

pub iszero_word-IsWord : (a : Word) → IsWord (iszero_word a)
unfolding iszero_word
iszero_word-IsWord a = flag-IsWord _

pub addmod_word-IsWord : (a b c : Word) → IsWord (addmod_word a b c)
unfolding addmod_word
addmod_word-IsWord a b c = guarded-IsWord _ _

pub mulmod_word-IsWord : (a b c : Word) → IsWord (mulmod_word a b c)
unfolding mulmod_word
mulmod_word-IsWord a b c = guarded-IsWord _ _
