-- ===== src/Vmcli/Countdown/Counter.antt =====
-- The counter of the counting loop (purevm/cmd/vmcli/main.go) as a word.
use offchain_com.Base.{
  ℕ, suc, ◌<◌, ◌≡◌, refl, sym, ap, ◌∙◌, arith, false, [], ◌++◌, replicate, ◌==◌, All-append,
  All-replicate,
}
use offchain_com.Core.Word.{
  IsByte, IsWord, u64_mod, set_bytes, fill_bytes, is_zero, big_int, zero_word, word_from_uint64,
}
use offchain_com.Core.Word.Encode.{
  length-fill_bytes, fill_bytes-All, set_bytes-fill_bytes, set_bytes-nil, word_from_big_int-IsWord,
}
use offchain_com.Core.Word.Convert.{
  is_zero_lem, set_bytes-zeros, big_int-injective, big_int-word_from_uint64,
  word_from_uint64-IsWord,
}
use offchain_com.Core.Operators.{flag, iszero_word, sub_word, low_byte}
use offchain_com.Core.Operators.Unsigned.{unsigned_arithmetic}
use offchain_com.Vmcli.Countdown.{u32_mod}
use offchain_com.Vmcli.Countdown.Body.{small}

pushed-IsWord : (n : ℕ) → IsWord (replicate 28 0 ++ fill_bytes 4 n [])
pushed-IsWord n = record {
  width = omega (arith, length-fill_bytes 4 n []);
  bytes =
      All-append IsByte (replicate 28 0) (fill_bytes 4 n [])
        (All-replicate IsByte 28 0 (omega arith)) (fill_bytes-All 4 n [] tt);
}

big_int-pushed : (n : ℕ) → n < u32_mod → big_int (replicate 28 0 ++ fill_bytes 4 n []) ≡ n
unfolding big_int
big_int-pushed n h =
    set_bytes-zeros 28 (fill_bytes 4 n [])
    ∙ (set_bytes-fill_bytes 4 0 n [] ∙ (set_bytes-nil _ ∙ omega arith))

-- The counter that the program pushes.
pub start_word : (n : ℕ) → n < u32_mod → replicate 28 0 ++ fill_bytes 4 n [] ≡ word_from_uint64 n
start_word n h =
    big_int-injective (replicate 28 0 ++ fill_bytes 4 n []) (word_from_uint64 n) (pushed-IsWord n)
      (word_from_uint64-IsWord n)
      (big_int-pushed n h ∙ sym (big_int-word_from_uint64 n (omega arith)))

pub iszero_zero : iszero_word (word_from_uint64 0) ≡ small 1
unfolding iszero_word flag is_zero word_from_uint64 fill_bytes low_byte zero_word
iszero_zero = refl

pub iszero_suc : (k : ℕ) → suc k < u64_mod → iszero_word (word_from_uint64 (suc k)) ≡ zero_word
unfolding iszero_word flag
iszero_suc k h =
    let e : is_zero (word_from_uint64 (suc k)) ≡ false =
      is_zero_lem (word_from_uint64 (suc k))
      ∙ (ap (λ (t : ℕ). t == 0) (big_int-word_from_uint64 (suc k) h) ∙ ground arith) in
    rw e refl

small-IsWord : IsWord (small 1)
small-IsWord = record { width = refl; bytes = omega arith }

big_int-small : big_int (small 1) ≡ 1
unfolding big_int set_bytes
big_int-small = refl

-- One off the counter.
pub sub_suc :
    (k : ℕ) → suc k < u64_mod → sub_word (small 1) (word_from_uint64 (suc k)) ≡ word_from_uint64 k
unfolding sub_word
sub_suc k h =
    big_int-injective (sub_word (small 1) (word_from_uint64 (suc k))) (word_from_uint64 k)
      (word_from_big_int-IsWord _) (word_from_uint64-IsWord k)
      (let a =
          unsigned_arithmetic (small 1) (word_from_uint64 (suc k)) small-IsWord
            (word_from_uint64-IsWord (suc k)) in
        omega (
          arith,
          a.1,
          big_int-small,
          big_int-word_from_uint64 (suc k) h,
          big_int-word_from_uint64 k,
        ))
