-- ===== src/Proof/Dispute.antt =====
-- The search for the first segment on which two runs differ (purevm/proof/dispute.go).
pub mod Prefix
use offchain_com.Base.{
  ℕ, suc, ◌-◌, ◌==◌, ◌≡◌, Bool, true, false, ◌&&◌, List, [], ◌∷◌, Option, none, some, bytes_eq,
  replicate, if◌then◌else◌,
}
use offchain_com.Base.Int.{ℤ, pos, negsuc}
use offchain_com.Core.Word.{Bytes, Word}
use offchain_com.Core.Text.{codes}
use offchain_com.Core.Action.{
  Error, nil_index, empty_index, initial_root_mismatch, non_canonical_ordinal, prefix_broken,
  Result, ok, err,
}
use offchain_com.Core.Index.{SnapshotIndexEntry, SnapshotIndex}

-- `DivergentSegment`
pub record DivergentSegment : Type 0 where
  pub found : Bool
  pub from_ordinal : ℕ
  pub to_ordinal : ℕ
  pub shared_start_root : Word
  pub claimed_next_root : Word
  pub verified_next_root : Word
  pub claimed_next_missing : Bool
  pub verified_next_missing : Bool
  pub reason : Bytes

-- The zero value of `common.Hash`.
abbrev pub zero_hash : Word
zero_hash = replicate 32 0

abbrev pub roots_match : DivergentSegment
roots_match = record {
  found = false;
  from_ordinal = 0;
  to_ordinal = 0;
  shared_start_root = zero_hash;
  claimed_next_root = zero_hash;
  verified_next_root = zero_hash;
  claimed_next_missing = false;
  verified_next_missing = false;
  reason = codes "checkpoint roots match";
}

-- What is returned after the loop has ended at `limit = i`, where the entries before it end in `c`.
abbrev pub length_mismatch : ℕ → SnapshotIndexEntry → Word → Word → Bool → Bool → DivergentSegment
length_mismatch i c claimed_root verified_root no_claimed no_verified = record {
  found = true;
  from_ordinal = i - 1;
  to_ordinal = i;
  shared_start_root = c.state_root;
  claimed_next_root = claimed_root;
  verified_next_root = verified_root;
  claimed_next_missing = no_claimed;
  verified_next_missing = no_verified;
  reason = codes "checkpoint sequence length mismatch after common prefix";
}

abbrev pub root_mismatch :
    ℕ → SnapshotIndexEntry → SnapshotIndexEntry → SnapshotIndexEntry → DivergentSegment
root_mismatch i c c' v' = record {
  found = true;
  from_ordinal = i - 1;
  to_ordinal = i;
  shared_start_root = c.state_root;
  claimed_next_root = c'.state_root;
  verified_next_root = v'.state_root;
  claimed_next_missing = false;
  verified_next_missing = false;
  reason = codes "next checkpoint root mismatch";
}

-- `e.Ordinal == i`
abbrev pub has_ordinal : ℕ → SnapshotIndexEntry → Bool
has_ordinal i e = elim e.ordinal [ pos n ↦ n == i | negsuc n ↦ false ]

-- The loop of `FindFirstDivergentSegment` from position `i` on and what follows it: `c` and `v` are
-- the entries before that position, and the lists are the entries from there on.
unfoldable pub divergent_from :
    ℕ
    → SnapshotIndexEntry
    → SnapshotIndexEntry
    → List SnapshotIndexEntry
    → List SnapshotIndexEntry
    → Result DivergentSegment
divergent_from i c v [] [] = ok roots_match
divergent_from i c v (c' ∷ cs) [] = ok (length_mismatch i c c'.state_root zero_hash false true)
divergent_from i c v [] (v' ∷ vs) = ok (length_mismatch i c zero_hash v'.state_root true false)
divergent_from i c v (c' ∷ cs) (v' ∷ vs) =
    let rest = divergent_from (suc i) c' v' cs vs in
    if has_ordinal i c' && has_ordinal i v'
    then if bytes_eq c'.state_root v'.state_root
      then rest
      else if bytes_eq v.state_root c.state_root
      then ok (root_mismatch i c c' v')
      else err (prefix_broken i)
    else err (non_canonical_ordinal i)

abbrev divergent_entries :
    List SnapshotIndexEntry → List SnapshotIndexEntry → Result DivergentSegment
divergent_entries [] vs = err empty_index
divergent_entries (c ∷ cs) [] = err empty_index
divergent_entries (c ∷ cs) (v ∷ vs) =
    if bytes_eq c.state_root v.state_root
    then divergent_from 1 c v cs vs
    else err (initial_root_mismatch c.state_root v.state_root)

-- `FindFirstDivergentSegment`; `none` is a nil index.
unfoldable pub find_first_divergent_segment :
    Option SnapshotIndex → Option SnapshotIndex → Result DivergentSegment
find_first_divergent_segment none verified = err nil_index
find_first_divergent_segment (some claimed) none = err nil_index
find_first_divergent_segment (some claimed) (some verified) =
    divergent_entries claimed.snapshots verified.snapshots
