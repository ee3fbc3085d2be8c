-- ===== src/Vmcli/Generate/Saves.antt =====
-- What the cutting of a run by `generate-artifacts` (purevm/cmd/vmcli/main.go) leaves in the directory
-- and in the index.
use offchain_com.Base.{ℕ, ◌≡◌, refl, ap, ◌∙◌, List, [], ◌∷◌, some}
use offchain_com.Core.Word.{Bytes}
use offchain_com.Core.Action.{Host}
use offchain_com.Core.State.{VmState}
use offchain_com.Core.Snapshot.{StandardSnapshot}
use offchain_com.Core.Index.{SnapshotIndex, add_snapshot}
use offchain_com.Vmcli.Types.{finished}
use offchain_com.Vmcli.Artifacts.{Disk, Cutting, save, snapshot_of}
use offchain_com.Base.{map, reverse, ◌++◌, sym, subst}
use mathlib.Core.List.{reverse-cons}
use offchain_com.Core.Index.{SnapshotIndexEntry, new_entry, link_last}
use offchain_com.Base.Int.{ℤ}

-- A disk that writes every snapshot.
abbrev pub Writes : {Dir : Type 0} → Disk Dir → Type 0
Writes {Dir} disk =
    (name : Bytes) (snap : StandardSnapshot) (dir : Dir)
    → (dir' : Dir) × (disk.write_snapshot name snap dir ≡ some dir')

-- A directory after a list of snapshots has been written, the last one of them first.
abbrev pub Wrote : {Dir : Type 0} → Disk Dir → Dir → List (Bytes × StandardSnapshot) → Dir → Type 0
Wrote disk dir [] dir' = dir ≡ dir'
Wrote {Dir} disk dir ((name, snap) ∷ earlier) dir' =
    (mid : Dir) × Wrote disk dir earlier mid × (disk.write_snapshot name snap mid ≡ some dir')

-- The files that an index names, in its order.
abbrev pub index_files : SnapshotIndex → List Bytes
index_files index = map (λ (e : SnapshotIndexEntry). e.snapshot_file) index.snapshots

-- The names of the snapshots that were written, the first one first.
abbrev pub written_names : List (Bytes × StandardSnapshot) → List Bytes
written_names written = reverse (map (λ (w : Bytes × StandardSnapshot). w.0) written)

-- The directory `dir`, and an index of no snapshot, after what was written: `first` before all else.
pub record OnDisk {Dir : Type 0} (disk : Disk Dir) (dir : Dir) (first : Bytes × StandardSnapshot)
    (c : Cutting Dir) : Type 0 where
  pub between : List (Bytes × StandardSnapshot)
  pub listed : c.written ≡ between ++ first ∷ []
  pub wrote : Wrote disk dir c.written c.dir
  pub indexed : index_files c.index ≡ written_names c.written

link_last_files :
    (o : ℤ) (es : List SnapshotIndexEntry)
    → map (λ (e : SnapshotIndexEntry). e.snapshot_file) (link_last o es)
      ≡ map (λ (e : SnapshotIndexEntry). e.snapshot_file) es
unfolding link_last
link_last_files o [] = refl
link_last_files o (e ∷ []) = refl
link_last_files o (e ∷ (e' ∷ es)) =
    ap (λ (t : List Bytes). e.snapshot_file ∷ t) (link_last_files o (e' ∷ es))

append_file :
    (es : List SnapshotIndexEntry) (e : SnapshotIndexEntry)
    → map (λ (t : SnapshotIndexEntry). t.snapshot_file) (es ++ e ∷ [])
      ≡ map (λ (t : SnapshotIndexEntry). t.snapshot_file) es ++ e.snapshot_file ∷ []
append_file [] e = refl
append_file (x ∷ es) e = ap (λ (t : List Bytes). x.snapshot_file ∷ t) (append_file es e)

index_files-add_snapshot :
    (name : Bytes) (snap : StandardSnapshot) (gas_used : ℕ) (index : SnapshotIndex)
    → index_files (add_snapshot name snap gas_used index) ≡ index_files index ++ name ∷ []
unfolding add_snapshot
index_files-add_snapshot name snap gas_used index =
    append_file (link_last _ index.snapshots) (new_entry _ name snap gas_used)
    ∙ ap (λ (t : List Bytes). t ++ name ∷ []) (link_last_files _ index.snapshots)

module _ (host : Host VmState) {Dir : Type 0} (disk : Disk Dir) where
  -- What a `save` that has written the directory leaves.
  pub record Done (name : Bytes) (meta : List (Bytes × Bytes)) (c c' : Cutting Dir) : Type 0 where
    pub same_vm : c'.vm ≡ c.vm
    pub listed : c'.written ≡ (name, snapshot_of host disk meta c.vm) ∷ c.written
    pub written : disk.write_snapshot name (snapshot_of host disk meta c.vm) c.dir ≡ some c'.dir
    pub indexed : index_files c'.index ≡ index_files c.index ++ name ∷ []

  pub save-Done :
      (writes : Writes disk) (name : Bytes) (meta : List (Bytes × Bytes)) (gas_used : ℕ)
      (c : Cutting Dir)
      → (c' : Cutting Dir) × (save host disk name meta gas_used c ≡ finished c')
        × Done name meta c c'
  unfolding save
  save-Done writes name meta gas_used c =
      let snap = snapshot_of host disk meta c.vm in
      let (dir, e) = writes name snap c.dir in
      (
        record c {
          index = add_snapshot name snap gas_used c.index;
          written = (name, snap) ∷ c.written;
          dir = dir;
        },
        rw (save, e) refl,
        record {
          same_vm = refl;
          listed = refl;
          written = e;
          indexed = index_files-add_snapshot name snap gas_used c.index;
        },
      )

  Done-Wrote :
      (dir : Dir) (name : Bytes) (meta : List (Bytes × Bytes)) (c c' : Cutting Dir)
      → Done name meta c c'
      → Wrote disk dir c.written c.dir
      → Wrote disk dir c'.written c'.dir
  Done-Wrote dir name meta c c' d w =
      subst (λ (t : List (Bytes × StandardSnapshot)). Wrote disk dir t c'.dir) (sym d.listed)
        (c.dir, w, d.written)

  Done-written_names :
      (name : Bytes) (meta : List (Bytes × Bytes)) (c c' : Cutting Dir)
      → Done name meta c c'
      → index_files c.index ≡ written_names c.written
      → index_files c'.index ≡ written_names c'.written
  Done-written_names name meta c c' d e =
      d.indexed
      ∙ (ap (λ (t : List Bytes). t ++ name ∷ []) e
          ∙ (sym (reverse-cons name (map (λ (w : Bytes × StandardSnapshot). w.0) c.written))
              ∙ ap written_names (sym d.listed)))

  -- A later `save` keeps the directory and the index in step.
  pub Done-OnDisk :
      (dir : Dir) (first : Bytes × StandardSnapshot) (name : Bytes) (meta : List (Bytes × Bytes))
      (c c' : Cutting Dir)
      → Done name meta c c'
      → OnDisk disk dir first c
      → OnDisk disk dir first c'
  Done-OnDisk dir first name meta c c' d o = record {
    between = (name, snapshot_of host disk meta c.vm) ∷ o.between;
    listed =
        d.listed
        ∙ ap (λ (t : List (Bytes × StandardSnapshot)). (name, snapshot_of host disk meta c.vm) ∷ t)
            o.listed;
    wrote = Done-Wrote dir name meta c c' d o.wrote;
    indexed = Done-written_names name meta c c' d o.indexed;
  }

  -- The first `save` starts both.
  pub first-OnDisk :
      (dir : Dir) (name : Bytes) (meta : List (Bytes × Bytes)) (c c' : Cutting Dir)
      → Done name meta c c'
      → c.written ≡ []
      → c.dir ≡ dir
      → c.index.snapshots ≡ []
      → OnDisk disk dir (name, snapshot_of host disk meta c.vm) c'
  first-OnDisk dir name meta c c' d none_yet start empty = record {
    between = [];
    listed =
        d.listed
        ∙ ap (λ (t : List (Bytes × StandardSnapshot)). (name, snapshot_of host disk meta c.vm) ∷ t)
            none_yet;
    wrote = Done-Wrote dir name meta c c' d (
        subst (λ (t : List (Bytes × StandardSnapshot)). Wrote disk dir t c.dir) (sym none_yet)
          (sym start));
    indexed = Done-written_names name meta c c' d (
        ap (λ (t : List SnapshotIndexEntry). map (λ (e : SnapshotIndexEntry). e.snapshot_file) t)
          empty
        ∙ ap written_names (sym none_yet));
  }
