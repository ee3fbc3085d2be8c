-- ===== src/Core/Instructions/Memory.antt =====
-- Stores and loads of a word (purevm/core/instructions.go).
use offchain_com.Base.{
  take_all, take_front, drop_front, inl, inr, ℕ, ◌+◌, ◌-◌, ◌%◌, ◌≤◌, ◌<◌, ◌≡◌, refl, sym, ap, ◌∙◌,
  subst, arith, false, List, ◌∷◌, ◌++◌, length, length-append, length-take, length-drop, take, drop,
  ltb, some, length-replicate, replicate,
}
use offchain_com.Core.Word.{Bytes, Word, u64_mod}
use offchain_com.Core.Action.{Result, Result-cases, ok, bind_ok}
use offchain_com.Core.State.{VmState, expand_memory, stack_push}
use offchain_com.Core.Instructions.{slice, copy_at, push_slice, load_at, write_word, store_at}

-- What was copied into a memory that has room for it is read back.
slice-copy_at :
    (offset : ℕ) (value mem : Bytes)
    → offset + length value ≤ length mem
    → slice offset (offset + length value) (copy_at offset value mem) ≡ some value
unfolding slice copy_at
slice-copy_at offset value mem h =
    let a : length (take offset mem) ≡ offset = omega (arith, length-take offset mem) in
    let b : take (length mem - offset) value ≡ value =
      take_all value (length mem - offset) (omega arith) in
    let rest = drop (offset + length value) mem in
    let c : drop offset (take offset mem ++ (take (length mem - offset) value ++ rest))
        ≡ value ++ rest =
      drop_front offset (take offset mem) (take (length mem - offset) value ++ rest) (sym a)
      ∙ ap (λ (t : Bytes). t ++ rest) b in
    let d : take (offset + length value - offset) (value ++ rest) ≡ value =
      take_front (offset + length value - offset) value rest (omega arith) in
    let len : offset + length value
        ≤ length (take offset mem ++ (take (length mem - offset) value ++ rest)) =
      omega (
        arith,
        length-append (take offset mem) (take (length mem - offset) value ++ rest),
        length-append (take (length mem - offset) value) rest,
        ap length b,
        length-drop (offset + length value) mem,
        a,
      ) in
    ground (arith, ap (take (offset + length value - offset)) c ∙ d)

length-copy_at :
    (offset : ℕ) (value mem : Bytes)
    → offset + length value ≤ length mem
    → length (copy_at offset value mem) ≡ length mem
unfolding copy_at
length-copy_at offset value mem h = omega (
  arith,
  length-append (take offset mem)
      (take (length mem - offset) value ++ drop (offset + length value) mem),
  length-append (take (length mem - offset) value) (drop (offset + length value) mem),
  length-take offset mem,
  length-take (length mem - offset) value,
  length-drop (offset + length value) mem,
)

-- `ExpandMemory` that succeeds has made room.
expand_memory-room :
    (n : ℕ) (s : VmState)
    → (expand_memory n s).0 ≡ ok tt
    → (n ≤ length (expand_memory n s).1.memory) × ((expand_memory n s).1.stack ≡ s.stack)
unfolding expand_memory
expand_memory-room n s e = (
  ground (
    arith,
    length-append s.memory (replicate (n - length s.memory) 0),
    length-replicate {A = ℕ} (n - length s.memory) 0,
  ),
  ground arith,
)

expand_within : (n : ℕ) (s : VmState) → n ≤ length s.memory → expand_memory n s ≡ (ok tt, s)
unfolding expand_memory
expand_within n s h =
    let enough : ltb (length s.memory) n ≡ false = ground arith in rw (enough, expand_memory) refl

push_found :
    (offset bound : ℕ) (v : Word) (s : VmState)
    → slice offset bound s.memory ≡ some v
    → length s.stack < 1024
    → push_slice offset bound s ≡ (ok tt, record s { stack = v ∷ s.stack })
unfolding push_slice stack_push
push_found offset bound v s found depth = ground arith

load_within :
    (offset : ℕ) (v : Word) (s : VmState)
    → offset + 32 < u64_mod
    → offset + 32 ≤ length s.memory
    → slice offset (offset + 32) s.memory ≡ some v
    → length s.stack < 1024
    → load_at offset s ≡ (ok tt, record s { stack = v ∷ s.stack })
unfolding load_at
load_within offset v s fits room found depth =
    let bound : (offset + 32) % u64_mod ≡ offset + 32 = omega arith in
    bind_ok (expand_memory ((offset + 32) % u64_mod))
      (λ _. push_slice offset ((offset + 32) % u64_mod)) s tt s
      (expand_within ((offset + 32) % u64_mod) s (omega arith))
    ∙ subst (λ (n : ℕ). push_slice offset n s ≡ (ok tt, record s { stack = v ∷ s.stack }))
        (sym bound) (push_found offset (offset + 32) v s found depth)

written :
    (offset : ℕ) (v : Word) (s : VmState)
    → offset + 32 ≤ length s.memory
    → write_word offset v s ≡ (ok tt, record s { memory = copy_at offset v s.memory })
unfolding write_word
written offset v s room = ground arith

load_written :
    (offset : ℕ) (v : Word) (s : VmState)
    → offset + 32 < u64_mod
    → length v ≡ 32
    → offset + 32 ≤ length s.memory
    → length s.stack < 1024
    → load_at offset (write_word offset v s).1
      ≡ (ok tt, record ((write_word offset v s).1) { stack = v ∷ s.stack })
load_written offset v s fits wide room depth =
    let found : slice offset (offset + 32) (copy_at offset v s.memory) ≡ some v =
      subst (λ (n : ℕ). slice offset (offset + n) (copy_at offset v s.memory) ≡ some v) wide
        (slice-copy_at offset v s.memory (omega arith)) in
    subst
      (λ (t : Result (Unit {0}) × VmState).
        load_at offset t.1 ≡ (ok tt, record (t.1) { stack = v ∷ s.stack }))
      (sym (written offset v s room))
      (load_within offset v (record s { memory = copy_at offset v s.memory }) fits
        (omega (arith, length-copy_at offset v s.memory)) found depth)

-- What `MSTORE` has stored `MLOAD` loads again: behind a successful store of a word of 32 bytes at an
-- address whose access does not wrap in `uint64`, a load from that address succeeds, pushes that word
-- and changes nothing else, as long as the stack has room for it.
pub store_at-load_at :
    (offset : ℕ) (v : Word) (s : VmState)
    → offset + 32 < u64_mod
    → length v ≡ 32
    → length s.stack < 1024
    → (store_at offset v s).0 ≡ ok tt
    → load_at offset (store_at offset v s).1
      ≡ (ok tt, record ((store_at offset v s).1) { stack = v ∷ s.stack })
unfolding store_at
store_at-load_at offset v s fits wide depth h =
    let bound : (offset + 32) % u64_mod ≡ offset + 32 = omega arith in
    elim (Result-cases (expand_memory ((offset + 32) % u64_mod) s).0) [
      | inr (inl (x, e)) ↦ ground arith
      | inr (inr (f, e)) ↦ ground arith
      | inl (u, e) ↦
          let r = expand_memory-room ((offset + 32) % u64_mod) s e in
          let t = (expand_memory ((offset + 32) % u64_mod) s).1 in
          let stored : store_at offset v s ≡ write_word offset v t =
            bind_ok (expand_memory ((offset + 32) % u64_mod)) (λ _. write_word offset v) s tt t
              (ap (λ (x : Result (Unit {0})). (x, t)) e) in
          subst
            (λ (w : Result (Unit {0}) × VmState).
              load_at offset w.1 ≡ (ok tt, record (w.1) { stack = v ∷ s.stack }))
            (sym stored)
            (load_written offset v t fits wide (omega (arith, r.0)) (rw (r.1) depth)
              ∙ ap
                  (λ (ws : List Word).
                    (ok tt, record ((write_word offset v t).1) { stack = v ∷ ws }))
                  r.1)
    ]
