-- ===== src/Core/Operators/Bytewise.antt =====
-- The operators that work byte by byte (purevm/core/instructions.go), and that every operator gives
-- a word of 32 bytes.
use Prim.Native.Nat.{bit_and, bit_or, bit_xor}
use offchain_com.Base.{
  ℕ, zero, suc, ◌+◌, ◌*◌, ◌-◌, ◌^◌, ◌<◌, ◌≤◌, ◌≡◌, refl, ◌∙◌, ap, subst, Bool, true, false, ◌&&◌,
  [], ◌∷◌, ◌++◌, map, arith, leb, ltb, if◌then◌else◌, Bool-cases, inl, inr, All, length, get_or,
  drop, replicate, All-append, All-drop, All-replicate, All-set, length-append, length-drop,
  length-replicate, length-set,
}
use offchain_com.Core.Word.{
  Bytes, Word, IsByte, IsWord, word_modulus, zero_word, set_bytes, big_int, sign_bit, uint64,
}
use offchain_com.Core.Word.Encode.{set_bytes-acc}
use offchain_com.Core.Word.Convert.{zero_word-IsWord}
use offchain_com.Core.Operators.{
  low_byte, flag, zip_with, and_word, or_word, xor_word, not_word, complement, byte_word,
  signextend_word,
}
use native.Mathlib.Nat.{pow-succ'}

-- Whether `g` gives bytes at all numbers below the second argument.
row_ok : (ℕ → ℕ) → ℕ → Bool
row_ok g zero = true
row_ok g (suc n) = ltb (g n) 256 && row_ok g n

-- Whether `f` gives bytes at all pairs of a number below the second argument and a byte.
table_ok : (ℕ → ℕ → ℕ) → ℕ → Bool
table_ok f zero = true
table_ok f (suc n) = row_ok (f n) 256 && table_ok f n

abbrev StaysByte : (ℕ → ℕ → ℕ) → Type 0
StaysByte f = (a b : ℕ) → a < 256 → b < 256 → f a b < 256

row_ok-lt : (g : ℕ → ℕ) (n b : ℕ) → row_ok g n ≡ true → b < n → g b < 256
unfolding row_ok
row_ok-lt g zero b t h = elim h [ ]
row_ok-lt g (suc n) b t h = ground (arith, row_ok-lt g n b)

table_ok-lt : (f : ℕ → ℕ → ℕ) (n a b : ℕ) → table_ok f n ≡ true → a < n → b < 256 → f a b < 256
unfolding table_ok
table_ok-lt f zero a b t ha hb = elim ha [ ]
table_ok-lt f (suc n) a b t ha hb = ground (arith, row_ok-lt (f n) 256 b, table_ok-lt f n a b)

table_sound : (f : ℕ → ℕ → ℕ) → table_ok f 256 ≡ true → StaysByte f
table_sound f t a b ha hb = table_ok-lt f 256 a b t ha hb

bit_and_table : table_ok bit_and 256 ≡ true
unfolding table_ok row_ok
bit_and_table = refl

bit_or_table : table_ok bit_or 256 ≡ true
unfolding table_ok row_ok
bit_or_table = refl

bit_xor_table : table_ok bit_xor 256 ≡ true
unfolding table_ok row_ok
bit_xor_table = refl

length-zip_with :
    (f : ℕ → ℕ → ℕ) (u v : Word) → length u ≡ length v → length (zip_with f u v) ≡ length u
unfolding zip_with
length-zip_with f [] [] h = refl
length-zip_with f [] (b ∷ v) h = refl
length-zip_with f (a ∷ u) [] h = absurd (omega arith)
length-zip_with f (a ∷ u) (b ∷ v) h = ap suc (length-zip_with f u v (omega arith))

zip_with-All :
    (f : ℕ → ℕ → ℕ) (u v : Word)
    → StaysByte f
    → All IsByte u
    → All IsByte v
    → All IsByte (zip_with f u v)
unfolding zip_with
zip_with-All f [] [] k hu hv = tt
zip_with-All f [] (b ∷ v) k hu hv = tt
zip_with-All f (a ∷ u) [] k hu hv = tt
zip_with-All f (a ∷ u) (b ∷ v) k hu hv = (k a b hu.0 hv.0, zip_with-All f u v k hu.1 hv.1)

zip_with-IsWord :
    (f : ℕ → ℕ → ℕ) (u v : Word) → StaysByte f → IsWord u → IsWord v → IsWord (zip_with f u v)
zip_with-IsWord f u v k hu hv = record {
  width = length-zip_with f u v (omega (arith, hu.width, hv.width)) ∙ hu.width;
  bytes = zip_with-All f u v k hu.bytes hv.bytes;
}

pub and_word-IsWord : (a b : Word) → IsWord a → IsWord b → IsWord (and_word a b)
unfolding and_word
and_word-IsWord a b = zip_with-IsWord bit_and a b (table_sound bit_and bit_and_table)

pub or_word-IsWord : (a b : Word) → IsWord a → IsWord b → IsWord (or_word a b)
unfolding or_word
or_word-IsWord a b = zip_with-IsWord bit_or a b (table_sound bit_or bit_or_table)

pub xor_word-IsWord : (a b : Word) → IsWord a → IsWord b → IsWord (xor_word a b)
unfolding xor_word
xor_word-IsWord a b = zip_with-IsWord bit_xor a b (table_sound bit_xor bit_xor_table)

length-map : (xs : Bytes) → length (map complement xs) ≡ length xs
length-map [] = refl
length-map (x ∷ xs) = ap suc (length-map xs)

map-complement-All : (xs : Bytes) → All IsByte (map complement xs)
map-complement-All [] = tt
map-complement-All (x ∷ xs) = (omega arith, map-complement-All xs)

pub not_word-IsWord : (a : Word) → IsWord a → IsWord (not_word a)
unfolding not_word
not_word-IsWord a h = record { width = length-map a ∙ h.width; bytes = map-complement-All a }

complement_value :
    (xs : Bytes)
    → All IsByte xs
    → set_bytes 0 (map complement xs) + set_bytes 0 xs + 1 ≡ 256 ^ length xs
unfolding set_bytes
complement_value [] h = refl
complement_value (x ∷ xs) h =
    rw
      (
        set_bytes-acc (0 + complement x) (map complement xs),
        set_bytes-acc (0 + x) xs,
        length-map xs,
        pow-succ' 256 (length xs),
      )
      (omega (
        arith,
        complement_value xs h.1,
        ap (λ (t : ℕ). t * 256 ^ length xs) {x = complement x + x} {y = 255} (omega (arith, h.0)),
      ))

-- `NOT` is the distance to the largest word.
pub big_int-not_word : (a : Word) → IsWord a → big_int (not_word a) ≡ word_modulus - 1 - big_int a
unfolding not_word big_int
big_int-not_word a h = omega (
  arith,
  subst (λ (t : ℕ). set_bytes 0 (map complement a) + set_bytes 0 a + 1 ≡ 256 ^ t) h.width
      (complement_value a h.bytes),
)

low_byte-IsWord : (b : ℕ) → b < 256 → IsWord (low_byte b)
unfolding low_byte
low_byte-IsWord b h = record {
  width = length-set zero_word 31 b ∙ zero_word-IsWord.width;
  bytes = All-set IsByte zero_word 31 b zero_word-IsWord.bytes h;
}

pub flag-IsWord : (b : Bool) → IsWord (flag b)
unfolding flag
flag-IsWord true = low_byte-IsWord 1 (omega arith)
flag-IsWord false = zero_word-IsWord

get_or-byte : (xs : Bytes) (i : ℕ) → All IsByte xs → get_or xs i 0 < 256
get_or-byte [] i h = omega arith
get_or-byte (x ∷ xs) zero h = h.0
get_or-byte (x ∷ xs) (suc i) h = get_or-byte xs i h.1

pub byte_word-IsWord : (a b : Word) → IsWord b → IsWord (byte_word a b)
unfolding byte_word
byte_word-IsWord a b h = elim (Bool-cases (ltb (uint64 a) 32)) [
  | inl e ↦ rw e (low_byte-IsWord _ (get_or-byte b (uint64 a) h.bytes))
  | inr e ↦ rw e zero_word-IsWord
]

extended-IsWord :
    (n fill : ℕ) (w : Word) → n ≤ 32 → fill < 256 → IsWord w → IsWord (replicate n fill ++ drop n w)
extended-IsWord n fill w le f h = record {
  width = omega (
    arith,
    length-append (replicate n fill) (drop n w),
    length-replicate {A = ℕ} n fill,
    length-drop n w,
    h.width,
  );
  bytes =
      All-append IsByte (replicate n fill) (drop n w) (All-replicate IsByte n fill f)
        (All-drop IsByte n w h.bytes);
}

pub signextend_word-IsWord : (a b : Word) → IsWord b → IsWord (signextend_word a b)
unfolding signextend_word
signextend_word-IsWord a b h = elim (Bool-cases (leb 32 (uint64 a))) [
  | inl e ↦ rw e h
  | inr e ↦ rw e (
      extended-IsWord (31 - uint64 a) _ b (omega arith)
        (fill-byte (sign_bit (get_or b (31 - uint64 a) 0))) h)
]
  where
    fill-byte : (s : Bool) → (if s then 0xff else 0) < 256
    fill-byte true = omega arith
    fill-byte false = omega arith
