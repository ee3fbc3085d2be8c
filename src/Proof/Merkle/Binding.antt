-- ===== src/Proof/Merkle/Binding.antt =====
-- The trace root (purevm/proof/merkle.go) as a commitment to the steps.
use offchain_com.Base.{
  ℕ, zero, suc, ◌<◌, ◌≡◌, ◌⊎◌, inl, inr, refl, sym, ap, ap₂, ◌∙◌, subst, arith, List, [], ◌∷◌, ◌++◌,
  map, All, length, take, drop, take-append_length, drop-append_length,
}
use offchain_com.Core.Word.{Bytes}
use offchain_com.Core.Action.{Host}
use offchain_com.Core.State.{VmState}
use offchain_com.Core.State.Collision.{Collision, keccak-binds}
use offchain_com.Proof.Types.{StepProof}
use offchain_com.Proof.Merkle.{next_level, reduce, hash_step, first_leaf, calculate_trace_root}
use offchain_com.Proof.Merkle.Ends.{length-next_level, length-reduce}

append-injective : (a b c d : Bytes) → length a ≡ length b → a ++ c ≡ b ++ d → (a ≡ b) × (c ≡ d)
append-injective a b c d h e = (
  sym (take-append_length a c)
      ∙ (ap₂ (λ (n : ℕ) (l : Bytes). take n l) h e ∙ take-append_length b d),
  sym (drop-append_length a c)
      ∙ (ap₂ (λ (n : ℕ) (l : Bytes). drop n l) h e ∙ drop-append_length b d),
)

module _ (host : Host VmState) where
  module _ (width : (b : Bytes) → length (host.keccak256 b) ≡ 32) where
    Wide : List Bytes → Type 0
    Wide ls = All (λ (l : Bytes). length l ≡ 32) ls

    next_level-Wide : (ls : List Bytes) → Wide ls → Wide (next_level host ls)
    unfolding next_level Wide
    next_level-Wide [] h = tt
    next_level-Wide (a ∷ []) h = h
    next_level-Wide (a ∷ (b ∷ ls)) h = (width (a ++ b), next_level-Wide ls h.1.1)

    cons-binds :
        (a b c d : Bytes) (ls ms : List Bytes)
        → length a ≡ length c
        → (a ++ b ≡ c ++ d) ⊎ Collision host
        → (ls ≡ ms) ⊎ Collision host
        → (a ∷ (b ∷ ls) ≡ c ∷ (d ∷ ms)) ⊎ Collision host
    cons-binds a b c d ls ms w (inr x) k = inr x
    cons-binds a b c d ls ms w (inl h) (inr x) = inr x
    cons-binds a b c d ls ms w (inl h) (inl k) =
        let p = append-injective a c b d w h in let q = p.0 in let r = p.1 in inl cc

    next_level-binds :
        (ls ms : List Bytes)
        → length ls ≡ length ms
        → Wide ls
        → Wide ms
        → next_level host ls ≡ next_level host ms
        → (ls ≡ ms) ⊎ Collision host
    unfolding next_level Wide
    next_level-binds [] [] n h k e = inl refl
    next_level-binds [] (b ∷ ms) n h k e = absurd (omega arith)
    next_level-binds (a ∷ ls) [] n h k e = absurd (omega arith)
    next_level-binds (a ∷ []) (b ∷ []) n h k e = inl e
    next_level-binds (a ∷ []) (b ∷ (c ∷ ms)) n h k e = absurd (omega arith)
    next_level-binds (a ∷ (b ∷ ls)) (c ∷ []) n h k e = absurd (omega arith)
    next_level-binds (a ∷ (b ∷ ls)) (c ∷ (d ∷ ms)) n h k e =
        let e0 : host.keccak256 (a ++ b) ≡ host.keccak256 (c ++ d) = cc in
        let e1 : next_level host ls ≡ next_level host ms = cc in
        cons-binds a b c d ls ms (h.0 ∙ sym k.0) (keccak-binds host (a ++ b) (c ++ d) e0)
          (next_level-binds ls ms (omega arith) h.1.1 k.1.1 e1)

    reduce-Wide : (fuel : ℕ) (ls : List Bytes) → Wide ls → Wide (reduce host fuel ls)
    unfolding reduce
    reduce-Wide zero ls h = h
    reduce-Wide (suc fuel) [] h = h
    reduce-Wide (suc fuel) (a ∷ []) h = h
    reduce-Wide (suc fuel) (a ∷ (b ∷ ls)) h =
        reduce-Wide fuel (next_level host (a ∷ (b ∷ ls))) (next_level-Wide (a ∷ (b ∷ ls)) h)

    -- What binds the next level binds this one.
    level-binds :
        (ls ms : List Bytes)
        → length ls ≡ length ms
        → Wide ls
        → Wide ms
        → (next_level host ls ≡ next_level host ms) ⊎ Collision host
        → (ls ≡ ms) ⊎ Collision host
    level-binds ls ms n h k (inl e) = next_level-binds ls ms n h k e
    level-binds ls ms n h k (inr x) = inr x

    reduce-binds :
        (fuel : ℕ) (ls ms : List Bytes)
        → length ls ≡ length ms
        → Wide ls
        → Wide ms
        → reduce host fuel ls ≡ reduce host fuel ms
        → (ls ≡ ms) ⊎ Collision host
    unfolding reduce
    reduce-binds zero ls ms n h k e = inl e
    reduce-binds (suc fuel) [] [] n h k e = inl refl
    reduce-binds (suc fuel) [] (b ∷ ms) n h k e = absurd (omega arith)
    reduce-binds (suc fuel) (a ∷ ls) [] n h k e = absurd (omega arith)
    reduce-binds (suc fuel) (a ∷ []) (b ∷ []) n h k e = inl e
    reduce-binds (suc fuel) (a ∷ []) (b ∷ (c ∷ ms)) n h k e = absurd (omega arith)
    reduce-binds (suc fuel) (a ∷ (b ∷ ls)) (c ∷ []) n h k e = absurd (omega arith)
    reduce-binds (suc fuel) (a ∷ (b ∷ ls)) (c ∷ (d ∷ ms)) n h k e =
        let xs = a ∷ (b ∷ ls) in
        let ys = c ∷ (d ∷ ms) in
        level-binds xs ys n h k (
          reduce-binds fuel (next_level host xs) (next_level host ys)
            (omega (arith, length-next_level host xs, length-next_level host ys))
            (next_level-Wide xs h) (next_level-Wide ys k) e)

    module _ (hash_id : (b : Bytes) → length b ≡ 32 → host.bytes_to_hash b ≡ b) where
      first_leaf-binds :
          (ls ms : List Bytes)
          → length ls ≡ 1
          → length ms ≡ 1
          → Wide ls
          → Wide ms
          → first_leaf host ls ≡ first_leaf host ms
          → ls ≡ ms
      unfolding Wide
      first_leaf-binds [] ms n m h k e = absurd (omega arith)
      first_leaf-binds (a ∷ ls) [] n m h k e = absurd (omega arith)
      first_leaf-binds (a ∷ []) (b ∷ []) n m h k e =
          ap (λ (x : Bytes). x ∷ []) (sym (hash_id a h.0) ∙ (e ∙ hash_id b k.0))
      first_leaf-binds (a ∷ []) (b ∷ (c ∷ ms)) n m h k e = absurd (omega arith)
      first_leaf-binds (a ∷ (c ∷ ls)) (b ∷ ms) n m h k e = absurd (omega arith)

      root-binds :
          (ls ms : List Bytes)
          → length ls ≡ length ms
          → 0 < length ls
          → Wide ls
          → Wide ms
          → first_leaf host (reduce host (length ls) ls)
            ≡ first_leaf host (reduce host (length ms) ms)
          → (ls ≡ ms) ⊎ Collision host
      root-binds ls ms n p h k e =
          let one : length (reduce host (length ls) ms) ≡ 1 =
            subst (λ (m : ℕ). length (reduce host m ms) ≡ 1) (sym n)
              (length-reduce host ms (omega arith)) in
          reduce-binds (length ls) ls ms n h k (
            first_leaf-binds (reduce host (length ls) ls) (reduce host (length ls) ms)
              (length-reduce host ls p) one (reduce-Wide (length ls) ls h)
              (reduce-Wide (length ls) ms k)
              (subst
                (λ (m : ℕ).
                  first_leaf host (reduce host (length ls) ls) ≡ first_leaf host (reduce host m ms))
                (sym n) e))

      module _ (marshal : StepProof → Bytes) where
        leaves-Wide : (ss : List StepProof) → Wide (map (hash_step host marshal) ss)
        unfolding Wide hash_step
        leaves-Wide [] = tt
        leaves-Wide (s ∷ ss) = (width (marshal s), leaves-Wide ss)

        length-leaves : (ss : List StepProof) → length (map (hash_step host marshal) ss) ≡ length ss
        length-leaves [] = refl
        length-leaves (s ∷ ss) = ap suc (length-leaves ss)

        texts-cons :
            (s t : StepProof) (ss ts : List StepProof)
            → (marshal s ≡ marshal t) ⊎ Collision host
            → (map marshal ss ≡ map marshal ts) ⊎ Collision host
            → (map marshal (s ∷ ss) ≡ map marshal (t ∷ ts)) ⊎ Collision host
        texts-cons s t ss ts (inr x) k = inr x
        texts-cons s t ss ts (inl p) (inr x) = inr x
        texts-cons s t ss ts (inl p) (inl q) =
            inl (ap₂ (λ (x : Bytes) (xs : List Bytes). x ∷ xs) p q)

        leaves-bind :
            (ss ts : List StepProof)
            → map (hash_step host marshal) ss ≡ map (hash_step host marshal) ts
            → (map marshal ss ≡ map marshal ts) ⊎ Collision host
        unfolding hash_step
        leaves-bind [] [] e = inl refl
        leaves-bind [] (t ∷ ts) e = absurd cc
        leaves-bind (s ∷ ss) [] e = absurd cc
        leaves-bind (s ∷ ss) (t ∷ ts) e =
            let e0 : host.keccak256 (marshal s) ≡ host.keccak256 (marshal t) = cc in
            let e1 : map (hash_step host marshal) ss ≡ map (hash_step host marshal) ts = cc in
            texts-cons s t ss ts (keccak-binds host (marshal s) (marshal t) e0)
              (leaves-bind ss ts e1)

        texts-bind :
            (ss ts : List StepProof)
            → (map (hash_step host marshal) ss ≡ map (hash_step host marshal) ts) ⊎ Collision host
            → (map marshal ss ≡ map marshal ts) ⊎ Collision host
        texts-bind ss ts (inl e) = leaves-bind ss ts e
        texts-bind ss ts (inr x) = inr x

        -- The trace root binds the steps: two traces of one length that have the same root are
        -- written the same, step by step, or yield two texts with one Keccak-256 hash. A hash has 32
        -- bytes, and `BytesToHash` is the identity on 32 bytes.
        pub calculate_trace_root-binds :
            (ss ts : List StepProof)
            → length ss ≡ length ts
            → calculate_trace_root host marshal ss ≡ calculate_trace_root host marshal ts
            → (map marshal ss ≡ map marshal ts) ⊎ Collision host
        unfolding calculate_trace_root
        calculate_trace_root-binds [] [] n e = inl refl
        calculate_trace_root-binds [] (t ∷ ts) n e = absurd (omega arith)
        calculate_trace_root-binds (s ∷ ss) [] n e = absurd (omega arith)
        calculate_trace_root-binds (s ∷ ss) (t ∷ ts) n e =
            let ls = map (hash_step host marshal) (s ∷ ss) in
            let ms = map (hash_step host marshal) (t ∷ ts) in
            texts-bind (s ∷ ss) (t ∷ ts) (
              root-binds ls ms (omega (arith, length-leaves (s ∷ ss), length-leaves (t ∷ ts), n))
                (omega arith) (leaves-Wide (s ∷ ss)) (leaves-Wide (t ∷ ts)) e)
