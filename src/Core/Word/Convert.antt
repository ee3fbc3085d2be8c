-- ===== src/Core/Word/Convert.antt =====
-- The other conversions of words (purevm/core/types.go): `IsZero`, `Uint64`, `WordFromUint64` and
-- `WordFromBytes`, each against the number that the word reads as.
use offchain_com.Base.{
  ℕ, zero, suc, ◌+◌, ◌*◌, ◌%◌, ◌-◌, ◌<◌, ◌≤◌, ◌≡◌, refl, sym, ◌∙◌, ap, [], ◌∷◌, ◌++◌, arith, All,
  length, drop, replicate, length-append, length-replicate, All-append, All-replicate, All-drop,
  length-drop, ltb, ◌==◌, Bool-cases, inl, inr,
}
use offchain_com.Base.Int.{pos}
use offchain_com.Core.Word.{
  Bytes, Word, IsByte, IsWord, u64_mod, zero_word, set_bytes, fill_bytes, big_int, is_zero, uint64,
  word_from_uint64, word_from_big_int, word_from_bytes,
}
use offchain_com.Core.Word.Encode.{
  length-fill_bytes, fill_bytes-All, set_bytes-fill_bytes, set_bytes-nil, word_from_big_int-big_int,
}
use native.Mathlib.Nat.{mod-eq_of_lt}

-- A word is the only one with its value.
pub big_int-injective : (v w : Word) → IsWord v → IsWord w → big_int v ≡ big_int w → v ≡ w
big_int-injective v w hv hw e =
    sym (word_from_big_int-big_int v hv)
    ∙ ap (λ (t : ℕ). word_from_big_int (pos t)) e
    ∙ word_from_big_int-big_int w hw

le-set_bytes : (acc : ℕ) (xs : Bytes) → 0 < acc → 0 < set_bytes acc xs
unfolding set_bytes
le-set_bytes acc [] h = h
le-set_bytes acc (x ∷ xs) h = le-set_bytes (acc * 256 + x) xs (omega arith)

-- `IsZero` tells whether the value is 0.
pub is_zero_lem : (w : Word) → is_zero w ≡ (big_int w == 0)
unfolding is_zero big_int set_bytes
is_zero_lem [] = refl
is_zero_lem (zero ∷ xs) = is_zero_lem xs
is_zero_lem (suc x ∷ xs) = ground (arith, le-set_bytes (0 * 256 + suc x) xs (omega arith))

-- `Uint64` is the value modulo 2 ^ 64.
pub uint64_lem : (w : Word) → uint64 w ≡ big_int w % u64_mod
unfolding uint64
uint64_lem w = ground (arith, is_zero_lem w)

pub uint64-lt : (w : Word) → uint64 w < u64_mod
uint64-lt w = omega (arith, uint64_lem w)

pub set_bytes-zeros : (n : ℕ) (xs : Bytes) → set_bytes 0 (replicate n 0 ++ xs) ≡ set_bytes 0 xs
unfolding set_bytes
set_bytes-zeros zero xs = refl
set_bytes-zeros (suc n) xs = set_bytes-zeros n xs

pub zero_word-IsWord : IsWord zero_word
unfolding zero_word
zero_word-IsWord = record { width = refl; bytes = All-replicate IsByte 32 0 (omega arith) }

pub big_int-zero_word : big_int zero_word ≡ 0
unfolding zero_word big_int set_bytes
big_int-zero_word = refl

pub word_from_uint64-IsWord : (v : ℕ) → IsWord (word_from_uint64 v)
unfolding word_from_uint64
word_from_uint64-IsWord v = record {
  width = omega (arith, length-fill_bytes 8 v []);
  bytes =
      All-append IsByte (replicate 24 0) (fill_bytes 8 v [])
        (All-replicate IsByte 24 0 (omega arith)) (fill_bytes-All 8 v [] tt);
}

pub big_int-word_from_uint64 : (v : ℕ) → v < u64_mod → big_int (word_from_uint64 v) ≡ v
unfolding word_from_uint64 big_int
big_int-word_from_uint64 v h =
    set_bytes-zeros 24 (fill_bytes 8 v [])
    ∙ set_bytes-fill_bytes 8 0 v []
    ∙ set_bytes-nil _
    ∙ omega arith

-- `Uint64` gives back what `WordFromUint64` was given.
pub uint64-word_from_uint64 : (v : ℕ) → v < u64_mod → uint64 (word_from_uint64 v) ≡ v
uint64-word_from_uint64 v h =
    uint64_lem (word_from_uint64 v)
    ∙ ap (λ (t : ℕ). t % u64_mod) (big_int-word_from_uint64 v h)
    ∙ mod-eq_of_lt h

-- A byte string that is a word already is that word.
pub word_from_bytes_self : (w : Word) → IsWord w → word_from_bytes w ≡ w
unfolding word_from_bytes
word_from_bytes_self w h = rw (h.width, h.width)

padded-IsWord :
    (b : Bytes) → length b ≤ 32 → All IsByte b → IsWord (replicate (32 - length b) 0 ++ b)
padded-IsWord b le h = record {
  width = omega (
    arith,
    length-append (replicate (32 - length b) 0) b,
    length-replicate {A = ℕ} (32 - length b) 0,
  );
  bytes =
      All-append IsByte (replicate (32 - length b) 0) b
        (All-replicate IsByte (32 - length b) 0 (omega arith)) h;
}

pub word_from_bytes-IsWord : (b : Bytes) → All IsByte b → IsWord (word_from_bytes b)
unfolding word_from_bytes
word_from_bytes-IsWord b h = elim (Bool-cases (ltb 32 (length b))) [
  | inl long ↦ rw long (
      padded-IsWord (drop (length b - 32) b) (omega (arith, length-drop (length b - 32) b))
        (All-drop IsByte (length b - 32) b h))
  | inr short ↦ rw short (padded-IsWord b (ground arith) h)
]
