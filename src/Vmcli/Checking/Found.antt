-- ===== src/Vmcli/Checking/Found.antt =====
-- What `verify-index` finds before it replays a segment, and where the replay is accepted
-- (purevm/cmd/vmcli/main.go).
use offchain_com.Base.{◌≡◌, inl, inr, subst, arith, Option, some, Option-cases}
use offchain_com.Base.Int.{ℤ}
use offchain_com.Core.Word.{Bytes}
use offchain_com.Core.Action.{Result-cases, ok}
use offchain_com.Core.Snapshot.{StandardSnapshot}
use offchain_com.Core.Index.{SnapshotIndex, adjacent_entries, validate_adjacent_threshold}
use offchain_com.Vmcli.Types.{finished}
use offchain_com.Vmcli.Checking.{Adjacent, Paths, resolve_path, find_adjacent}

pub finished_inj : {A : Type 0} {a b : A} → finished a ≡ finished b → a ≡ b
finished_inj e = cc

module _ (paths : Paths) (read_snapshot : Bytes → Option StandardSnapshot) (index_file : Bytes)
    (idx : SnapshotIndex) (ordinal : ℤ) where
  -- The entries and the files behind them.
  pub record Found (a : Adjacent) : Type 0 where
    pub entries : adjacent_entries ordinal idx ≡ ok (a.start_entry, a.end_entry)
    pub threshold : validate_adjacent_threshold a.start_entry a.end_entry idx ≡ ok tt
    pub start_file :
        read_snapshot (resolve_path paths index_file a.start_entry.snapshot_file)
        ≡ some a.start_snap
    pub end_file :
        read_snapshot (resolve_path paths index_file a.end_entry.snapshot_file) ≡ some a.end_snap

  pub find_adjacent-Found :
      (a : Adjacent)
      → find_adjacent paths read_snapshot index_file idx ordinal ≡ finished a
      → Found a
  unfolding find_adjacent
  find_adjacent-Found a h = elim (Result-cases (adjacent_entries ordinal idx)) [
    | inr (inl (x, e)) ↦ ground arith
    | inr (inr (x, e)) ↦ ground arith
    | inl ((s, t), e) ↦ elim (Result-cases (validate_adjacent_threshold s t idx)) [
      | inr (inl (x, v)) ↦ ground arith
      | inr (inr (x, v)) ↦ ground arith
      | inl (u, v) ↦
          elim (Option-cases (read_snapshot (resolve_path paths index_file s.snapshot_file))) [
            | inl f ↦ ground arith
            | inr (x, f) ↦
                elim (Option-cases
                  (read_snapshot (resolve_path paths index_file t.snapshot_file))) [
                    | inl g ↦ ground arith
                    | inr (y, g) ↦
                        let b : Adjacent = record {
                          start_entry = s;
                          end_entry = t;
                          start_snap = x;
                          end_snap = y;
                        } in
                        subst Found (finished_inj {a = b} {b = a} (ground arith))
                          (record { entries = e; threshold = v; start_file = f; end_file = g })
                  ]
          ]
    ]
  ]
