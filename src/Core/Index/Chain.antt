-- ===== src/Core/Index/Chain.antt =====
-- The numbers and links of the entries of an index (purevm/core/snapshot_index.go).
use offchain_com.Base.{
  ℕ, zero, suc, ◌+◌, ◌≡◌, refl, sym, ap, ◌∙◌, arith, Bool, List, [], ◌∷◌, ◌++◌, none, some, length,
  get_elem?, set, eq_of_some, Option-cases, inl, inr,
}
use offchain_com.Base.Int.{ℤ, pos, negsuc}
use offchain_com.Core.Word.{Bytes}
use offchain_com.Core.Action.{ok, err, no_next_snapshot}
use offchain_com.Core.Snapshot.{StandardSnapshot}
use offchain_com.Core.Index.{
  SnapshotIndexEntry, SnapshotIndex, link_last, new_entry, add_snapshot, entry, set_adjacent_proof,
  adjacent_entries,
}

-- Entries numbered from `n` on, each linked to the next one.
unfoldable pub IsChain : ℕ → List SnapshotIndexEntry → Type 0
IsChain n [] = Unit
IsChain n (e ∷ []) = (e.ordinal ≡ pos n) × (e.next_ordinal ≡ none)
IsChain n (e ∷ (e' ∷ es)) =
    (e.ordinal ≡ pos n) × ((e.next_ordinal ≡ some (pos (suc n))) × IsChain (suc n) (e' ∷ es))

abbrev pub IsIndex : SnapshotIndex → Type 0
IsIndex idx = IsChain 0 idx.snapshots

link_last-IsChain :
    (n m : ℕ) (es : List SnapshotIndexEntry) (e : SnapshotIndexEntry)
    → IsChain n es
    → m ≡ n + length es
    → e.ordinal ≡ pos m
    → e.next_ordinal ≡ none
    → IsChain n (link_last (pos m) es ++ e ∷ [])
unfolding IsChain link_last
link_last-IsChain n m [] e h p o x = (o ∙ ap pos (omega arith), x)
link_last-IsChain n m (a ∷ []) e h p o x =
    (h.0, (ap (λ (k : ℕ). some (pos k)) (omega arith), (o ∙ ap pos (omega arith), x)))
link_last-IsChain n m (a ∷ (b ∷ [])) e h p o x =
    (h.0, (h.1.0, link_last-IsChain (suc n) m (b ∷ []) e h.1.1 (omega arith) o x))
link_last-IsChain n m (a ∷ (b ∷ (c ∷ es))) e h p o x =
    (h.0, (h.1.0, link_last-IsChain (suc n) m (b ∷ (c ∷ es)) e h.1.1 (omega arith) o x))

-- `AddSnapshot` keeps the entries of an index numbered from 0 and linked in order.
pub add_snapshot-IsIndex :
    (file : Bytes) (snap : StandardSnapshot) (gas_used : ℕ) (idx : SnapshotIndex)
    → IsIndex idx
    → IsIndex (add_snapshot file snap gas_used idx)
unfolding add_snapshot
add_snapshot-IsIndex file snap gas_used idx h =
    link_last-IsChain 0 (length idx.snapshots) idx.snapshots
      (new_entry (length idx.snapshots) file snap gas_used) h (omega arith) refl refl

-- A write that keeps number and link of an entry keeps the chain.
set-IsChain :
    (n i : ℕ) (es : List SnapshotIndexEntry) (e e' : SnapshotIndexEntry)
    → IsChain n es
    → get_elem? es i ≡ some e
    → e'.ordinal ≡ e.ordinal
    → e'.next_ordinal ≡ e.next_ordinal
    → IsChain n (set es i e')
unfolding IsChain
set-IsChain n i [] e e' h g o x = tt
set-IsChain n zero (a ∷ []) e e' h g o x =
    let p = eq_of_some g in
    (
      o ∙ (ap (λ (t : SnapshotIndexEntry). t.ordinal) (sym p) ∙ h.0),
      x ∙ (ap (λ (t : SnapshotIndexEntry). t.next_ordinal) (sym p) ∙ h.1),
    )
set-IsChain n (suc i) (a ∷ []) e e' h g o x = h
set-IsChain n zero (a ∷ (b ∷ es)) e e' h g o x =
    let p = eq_of_some g in
    (
      o ∙ (ap (λ (t : SnapshotIndexEntry). t.ordinal) (sym p) ∙ h.0),
      (x ∙ (ap (λ (t : SnapshotIndexEntry). t.next_ordinal) (sym p) ∙ h.1.0), h.1.1),
    )
set-IsChain n (suc zero) (a ∷ (b ∷ es)) e e' h g o x =
    (h.0, (h.1.0, set-IsChain (suc n) zero (b ∷ es) e e' h.1.1 g o x))
set-IsChain n (suc (suc i)) (a ∷ (b ∷ es)) e e' h g o x =
    (h.0, (h.1.0, set-IsChain (suc n) (suc i) (b ∷ es) e e' h.1.1 g o x))

-- `SetAdjacentProof` keeps the entries of an index numbered and linked in order.
pub set_adjacent_proof-IsIndex :
    (ordinal : ℤ) (file : Bytes) (steps : ℕ) (full : Bool) (idx : SnapshotIndex)
    → IsIndex idx
    → IsIndex (set_adjacent_proof ordinal file steps full idx).1
unfolding set_adjacent_proof entry
set_adjacent_proof-IsIndex (negsuc n) file steps full idx h = h
set_adjacent_proof-IsIndex (pos n) file steps full idx h =
    elim (Option-cases (get_elem? idx.snapshots n)) [
      | inl e ↦ rw (e, set_adjacent_proof, entry) h
      | inr (a, e) ↦
          rw (e, set_adjacent_proof, entry)
            (set-IsChain 0 n idx.snapshots a
              (record a {
                adjacent_proof_file = file;
                adjacent_proof_steps = steps;
                adjacent_proof_is_full = full;
              })
              h e refl refl)
    ]

-- Within a chain an entry is linked to the one behind it.
IsChain-next :
    (n i : ℕ) (es : List SnapshotIndexEntry) (e e' : SnapshotIndexEntry)
    → IsChain n es
    → get_elem? es i ≡ some e
    → get_elem? es (suc i) ≡ some e'
    → e.next_ordinal ≡ some (pos (suc (n + i)))
unfolding IsChain
IsChain-next n i [] e e' h g k = cc
IsChain-next n zero (a ∷ []) e e' h g k = cc
IsChain-next n (suc i) (a ∷ []) e e' h g k = cc
IsChain-next n zero (a ∷ (b ∷ es)) e e' h g k =
    ap (λ (t : SnapshotIndexEntry). t.next_ordinal) (sym (eq_of_some g))
    ∙ (h.1.0 ∙ ap (λ (t : ℕ). some (pos t)) (omega arith))
IsChain-next n (suc i) (a ∷ (b ∷ es)) e e' h g k =
    IsChain-next (suc n) i (b ∷ es) e e' h.1.1 g k ∙ ap (λ (t : ℕ). some (pos t)) (omega arith)

IsChain-last :
    (n i : ℕ) (es : List SnapshotIndexEntry) (e : SnapshotIndexEntry)
    → IsChain n es
    → get_elem? es i ≡ some e
    → get_elem? es (suc i) ≡ none
    → e.next_ordinal ≡ none
unfolding IsChain
IsChain-last n i [] e h g k = cc
IsChain-last n zero (a ∷ []) e h g k =
    ap (λ (t : SnapshotIndexEntry). t.next_ordinal) (sym (eq_of_some g)) ∙ h.1
IsChain-last n (suc i) (a ∷ []) e h g k = cc
IsChain-last n zero (a ∷ (b ∷ es)) e h g k = cc
IsChain-last n (suc i) (a ∷ (b ∷ es)) e h g k = IsChain-last (suc n) i (b ∷ es) e h.1.1 g k

-- In an index whose entries are numbered and linked in order, `AdjacentEntries` returns an entry and
-- the one behind it, and fails with its own error at the last entry.
pub adjacent_entries_lem :
    (i : ℕ) (e : SnapshotIndexEntry) (idx : SnapshotIndex)
    → IsIndex idx
    → get_elem? idx.snapshots i ≡ some e
    → adjacent_entries (pos i) idx ≡ elim (get_elem? idx.snapshots (suc i)) [
      | none ↦ err (no_next_snapshot (pos i))
      | some e' ↦ ok (e, e')
    ]
unfolding adjacent_entries entry
adjacent_entries_lem i e idx h g = elim (Option-cases (get_elem? idx.snapshots (suc i))) [
  | inl k ↦ rw (adjacent_entries, entry, g, k, IsChain-last 0 i idx.snapshots e h g k) refl
  | inr (e', k) ↦
      let q : e.next_ordinal ≡ some (pos (suc i)) =
        IsChain-next 0 i idx.snapshots e e' h g k ∙ ap (λ (t : ℕ). some (pos t)) (omega arith) in
      ground arith
]
