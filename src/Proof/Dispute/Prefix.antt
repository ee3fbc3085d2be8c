-- ===== src/Proof/Dispute/Prefix.antt =====
-- `FindFirstDivergentSegment` (purevm/proof/dispute.go) and the common prefix of two runs.
use offchain_com.Base.{
  ℕ, suc, ◌+◌, ◌-◌, ◌≡◌, refl, sym, subst, arith, Bool, true, false, not, ◌&&◌, List, [], ◌∷◌, map,
  some, Bool-cases, inl, inr, bytes_eq, bytes_eq→eq, bytes_eq_self, if◌then◌else◌,
}
use offchain_com.Core.Word.{Word}
use offchain_com.Core.Action.{ok}
use offchain_com.Core.Index.{SnapshotIndexEntry, SnapshotIndex}
use offchain_com.Core.Index.Chain.{IsIndex, IsChain}
use offchain_com.Proof.Dispute.{
  DivergentSegment, has_ordinal, root_mismatch, divergent_from, find_first_divergent_segment,
}

abbrev pub roots : List SnapshotIndexEntry → List Word
roots es = map (λ e. e.state_root) es

-- The length of the longest common prefix.
pub common_prefix : List Word → List Word → ℕ
common_prefix [] ws = 0
common_prefix (v ∷ vs) [] = 0
common_prefix (v ∷ vs) (w ∷ ws) =
    let rest = common_prefix vs ws in if bytes_eq v w then suc rest else 0

pub same_roots : List Word → List Word → Bool
same_roots [] [] = true
same_roots [] (w ∷ ws) = false
same_roots (v ∷ vs) [] = false
same_roots (v ∷ vs) (w ∷ ws) = let rest = same_roots vs ws in bytes_eq v w && rest

-- The answer of the search on lists whose entries before position `i` agree.
pub record Finds (i : ℕ) (vs ws : List Word) (d : DivergentSegment) : Type 0 where
  pub found_iff : d.found ≡ not (same_roots vs ws)
  pub first : d.found ≡ true → d.to_ordinal ≡ i + common_prefix vs ws
  pub segment : d.found ≡ true → d.from_ordinal ≡ d.to_ordinal - 1

IsChain-head :
    (n : ℕ) (e : SnapshotIndexEntry) (es : List SnapshotIndexEntry)
    → IsChain n (e ∷ es)
    → has_ordinal n e ≡ true
unfolding IsChain
IsChain-head n e [] h = let p = h.0 in ground arith
IsChain-head n e (x ∷ es) h = let p = h.0 in ground arith

IsChain-tail :
    (n : ℕ) (e : SnapshotIndexEntry) (es : List SnapshotIndexEntry)
    → IsChain n (e ∷ es)
    → IsChain (suc n) es
unfolding IsChain
IsChain-tail n e [] h = tt
IsChain-tail n e (x ∷ es) h = h.1.1

divergent_from-Finds :
    (i : ℕ) (c v : SnapshotIndexEntry) (cs vs : List SnapshotIndexEntry)
    → bytes_eq v.state_root c.state_root ≡ true
    → IsChain i cs
    → IsChain i vs
    → (d : DivergentSegment) × ((divergent_from i c v cs vs ≡ ok d)
        × Finds i (roots cs) (roots vs) d)
unfolding divergent_from common_prefix same_roots
divergent_from-Finds i c v [] [] e h k =
    (_, (refl, record { found_iff = refl; first = λ p. cc; segment = λ p. cc }))
divergent_from-Finds i c v (c' ∷ cs) [] e h k =
    (_, (refl, record { found_iff = refl; first = λ p. omega arith; segment = λ p. refl }))
divergent_from-Finds i c v [] (v' ∷ vs) e h k =
    (_, (refl, record { found_iff = refl; first = λ p. omega arith; segment = λ p. refl }))
divergent_from-Finds i c v (c' ∷ cs) (v' ∷ vs) e h k =
    elim (Bool-cases (bytes_eq c'.state_root v'.state_root)) [
      | inl same ↦
          let rest =
            divergent_from-Finds (suc i) c' v' cs vs
              (rw (bytes_eq→eq c'.state_root v'.state_root same) (bytes_eq_self v'.state_root))
              (IsChain-tail i c' cs h) (IsChain-tail i v' vs k) in
          (
            rest.0,
            (
              rw (IsChain-head i c' cs h, IsChain-head i v' vs k, same, divergent_from) rest.1.0,
              record {
                found_iff = rw same rest.1.1.found_iff;
                first = λ p. rw same (omega (arith, rest.1.1.first p));
                segment = rest.1.1.segment;
              },
            ),
          )
      | inr differ ↦ (
        root_mismatch i c c' v',
        (
          rw (IsChain-head i c' cs h, IsChain-head i v' vs k, differ, e, divergent_from) refl,
          record {
            found_iff = rw differ refl;
            first = λ p. rw differ (omega arith);
            segment = λ p. refl;
          },
        ),
      )
    ]

-- For two indices whose entries are numbered and linked in order and whose first roots agree, the
-- search succeeds. It finds a segment exactly if the two sequences of roots differ, and the segment
-- then ends at the length of their longest common prefix and starts one entry before.
pub find_first_divergent_segment-Finds :
    (claimed verified : SnapshotIndex) (c v : SnapshotIndexEntry) (cs vs : List SnapshotIndexEntry)
    → IsIndex claimed
    → IsIndex verified
    → claimed.snapshots ≡ c ∷ cs
    → verified.snapshots ≡ v ∷ vs
    → c.state_root ≡ v.state_root
    → (d : DivergentSegment) × ((find_first_divergent_segment (some claimed) (some verified) ≡ ok d)
        × Finds 0 (roots (c ∷ cs)) (roots (v ∷ vs)) d)
unfolding common_prefix same_roots find_first_divergent_segment
find_first_divergent_segment-Finds claimed verified c v cs vs h k p q e =
    let same : bytes_eq c.state_root v.state_root ≡ true =
      subst (λ r. bytes_eq r v.state_root ≡ true) (sym e) (bytes_eq_self v.state_root) in
    let found =
      divergent_from-Finds 1 c v cs vs
        (subst (λ r. bytes_eq v.state_root r ≡ true) (sym e) (bytes_eq_self v.state_root))
        (IsChain-tail 0 c cs (subst (IsChain 0) p h))
        (IsChain-tail 0 v vs (subst (IsChain 0) q k)) in
    (
      found.0,
      (
        rw (find_first_divergent_segment, p, q, same) found.1.0,
        record {
          found_iff = rw same found.1.1.found_iff;
          first = λ r. rw same (omega (arith, found.1.1.first r));
          segment = found.1.1.segment;
        },
      ),
    )
