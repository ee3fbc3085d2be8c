-- ===== src/Vmcli/Artifacts/Cut.antt =====
-- The snapshots that `generate-artifacts` (purevm/cmd/vmcli/main.go) cuts are those that
-- `VerifyNextSnapshotHash` (purevm/proof/snapshot_verify.go) predicts.
use offchain_com.Base.{
  ℕ, zero, suc, ◌+◌, ◌%◌, ◌≤◌, ◌<◌, ◌≡◌, refl, sym, ap, subst, arith, true, false, List, [], ◌∷◌,
  some, Bool-cases, Option-cases, inl, inr, eq_of_some, length,
}
use offchain_com.Core.Word.{Bytes, u64_mod}
use offchain_com.Core.Action.{Result-cases, ok, Host}
use offchain_com.Core.State.{VmState}
use offchain_com.Core.Snapshot.{StandardSnapshot}
use offchain_com.Core.Machine.{Vm}
use offchain_com.Core.Step.{step, peek_next_gas_cost}
use offchain_com.Proof.Predict.{is_full}
use offchain_com.Proof.Predict.Unroll.{at_halt, at_full}
use offchain_com.Vmcli.Types.{Outcome, finished, exits, crashes, Outcome-cases}
use offchain_com.Core.Text.{codes}
use offchain_com.Vmcli.Artifacts.{
  Disk, Cutting, save, snapshot_name, gas_used_by, gas_used_entry, threshold_entry, cut_before,
  cut_from,
}
use offchain_com.Vmcli.Artifacts.Machines.{Keeps, taken_of}
use offchain_com.Vmcli.Artifacts.Ahead.{
  Follows, Chained, Ahead, start-Ahead, step-Ahead, here-Follows,
}

eq_of_finished : {A : Type 0} {a b : A} → finished a ≡ finished b → a ≡ b
eq_of_finished {A} {a} e =
    ap (λ (o : Outcome A). elim o [ finished x ↦ x | exits x ↦ a | crashes x ↦ a ]) e

module _ (host : Host VmState) {Dir : Type 0} (disk : Disk Dir) where
  -- What `save` has done.
  pub record Saved (name : Bytes) (meta : List (Bytes × Bytes)) (c c' : Cutting Dir) : Type 0 where
    pub same_vm : c'.vm ≡ c.vm
    pub same_window : c'.window ≡ c.window
    pub listed : c'.written ≡ (name, taken_of host meta c.vm) ∷ c.written

  pub save-Saved :
      (name : Bytes) (meta : List (Bytes × Bytes)) (gas_used : ℕ) (c c' : Cutting Dir)
      → save host disk name meta gas_used c ≡ finished c'
      → Saved name meta c c'
  unfolding save
  save-Saved name meta gas_used c c' e =
      elim (Option-cases (disk.write_snapshot name (taken_of host meta c.vm) c.dir)) [
        | inl f ↦ ground arith
        | inr (dir, f) ↦ record {
          same_vm = ground arith;
          same_window = ground arith;
          listed = ground arith;
        }
      ]

module _ (host : Host VmState) (P : Vm → Type 0) (inv : Keeps host P) {Dir : Type 0}
    (disk : Disk Dir) (total_gas threshold : ℕ) (positive : 0 < threshold) (most : ℕ) where
  -- What holds in the loop, with the fuel that is left.
  pub record At (fuel : ℕ) (c : Cutting Dir) : Type 0 where
    pub last : Bytes × StandardSnapshot
    pub earlier : List (Bytes × StandardSnapshot)
    pub listed : c.written ≡ last ∷ earlier
    pub chained : Chained host threshold most c.written
    pub ahead : Ahead host P inv threshold positive most last.1 fuel c.window c.vm
    pub good : P c.vm

  -- A new snapshot behind those that are written.
  pub longer-Chained :
      (b last : Bytes × StandardSnapshot) (written earlier : List (Bytes × StandardSnapshot))
      → written ≡ last ∷ earlier
      → Follows host threshold most last.1 b.1
      → Chained host threshold most written
      → Chained host threshold most (b ∷ written)
  longer-Chained b last written earlier e f h =
      subst (λ w. Chained host threshold most (b ∷ w)) (sym e)
        (f, subst (Chained host threshold most) e h)

  full-At :
      (fuel next : ℕ) (name : Bytes) (meta : List (Bytes × Bytes)) (c c' : Cutting Dir)
      → suc fuel ≤ most
      → At (suc fuel) c
      → c.vm.halted ≡ false
      → peek_next_gas_cost host c.vm ≡ ok next
      → is_full host threshold c.window next ≡ true
      → Saved host disk name meta c c'
      → At (suc fuel) (record c' { window = 0 })
  full-At fuel next name meta c c' le h running p full s =
      let b = taken_of host meta c.vm in
      let f =
        here-Follows host P inv threshold positive most h.last.1 (suc fuel) c.window false meta c.vm
          h.ahead h.good (at_full host h.last.1 threshold fuel c.window c.vm running next p full) in
      record {
        last = (name, b);
        earlier = c.written;
        listed = s.listed;
        chained =
            subst (Chained host threshold most) (sym s.listed)
              (longer-Chained (name, b) h.last c.written h.earlier h.listed f h.chained);
        ahead =
            subst (Ahead host P inv threshold positive most b (suc fuel) 0) (sym s.same_vm) (
              start-Ahead host P inv threshold positive most (suc fuel) meta c.vm h.good running
                le);
        good = subst P (sym s.same_vm) h.good;
      }

  -- Behind the cutting of a snapshot there is room for the next step.
  record Ready (fuel next : ℕ) (c c' : Cutting Dir) : Type 0 where
    same_vm : c'.vm ≡ c.vm
    at : At (suc fuel) c'
    room : is_full host threshold c'.window next ≡ false

  cut_before-Ready :
      (fuel next : ℕ) (c c' : Cutting Dir)
      → suc fuel ≤ most
      → At (suc fuel) c
      → c.vm.halted ≡ false
      → peek_next_gas_cost host c.vm ≡ ok next
      → cut_before host disk total_gas threshold next c ≡ finished c'
      → Ready fuel next c c'
  unfolding cut_before
  cut_before-Ready fuel next c c' le h running p e =
      elim (Bool-cases (is_full host threshold c.window next)) [
        | inr room ↦
            subst (Ready fuel next c) (eq_of_finished (ground arith))
              (record { same_vm = refl; at = h; room = room })
        | inl full ↦
            let gas_used = gas_used_by host disk total_gas threshold c.vm in
            let name =
              snapshot_name (codes "_step_") (length c.written) c.vm.state.step_count gas_used in
            let meta = gas_used_entry gas_used ∷ (threshold_entry threshold ∷ []) in
            elim (Outcome-cases (save host disk name meta gas_used c)) [
              | inr (inl (x, f)) ↦ ground arith
              | inr (inr (x, f)) ↦ ground arith
              | inl (c1, f) ↦
                  let s = save-Saved host disk name meta gas_used c c1 f in
                  subst (Ready fuel next c) {x = record c1 { window = 0 }}
                    (eq_of_finished (ground arith))
                    (record {
                      same_vm = s.same_vm;
                      at = full-At fuel next name meta c c1 le h running p full s;
                      room = refl;
                    })
            ]
      ]

  -- The loop has ended at a machine that has halted, and its snapshot follows the last one.
  pub record Done (c : Cutting Dir) : Type 0 where
    pub halted : c.vm.halted ≡ true
    pub last : Bytes × StandardSnapshot
    pub earlier : List (Bytes × StandardSnapshot)
    pub listed : c.written ≡ last ∷ earlier
    pub chained : Chained host threshold most c.written
    pub follows :
        (meta : List (Bytes × Bytes)) → Follows host threshold most last.1 (taken_of host meta c.vm)

  halted-Done : (fuel : ℕ) (c : Cutting Dir) → At (suc fuel) c → c.vm.halted ≡ true → Done c
  halted-Done fuel c h over = record {
    halted = over;
    last = h.last;
    earlier = h.earlier;
    listed = h.listed;
    chained = h.chained;
    follows = λ meta.
        here-Follows host P inv threshold positive most h.last.1 (suc fuel) c.window true meta c.vm
          h.ahead h.good (at_halt host h.last.1 threshold fuel c.window c.vm over);
  }

  stepped-At :
      (fuel next : ℕ) (c c' : Cutting Dir)
      → Ready fuel next c c'
      → c.vm.halted ≡ false
      → peek_next_gas_cost host c.vm ≡ ok next
      → (step host c'.vm).0 ≡ ok tt
      → At fuel (record c' { vm = (step host c'.vm).1; window = (c'.window + next) % u64_mod })
  stepped-At fuel next c c' r running p done =
      let running' = subst (λ (v : Vm). v.halted ≡ false) (sym r.same_vm) running in
      let p' = subst (λ v. peek_next_gas_cost host v ≡ ok next) (sym r.same_vm) p in
      record {
        last = r.at.last;
        earlier = r.at.earlier;
        listed = r.at.listed;
        chained = r.at.chained;
        ahead =
            step-Ahead host P inv threshold positive most r.at.last.1 fuel c'.window next c'.vm
              r.at.ahead running' p' r.room done;
        good = inv.kept c'.vm r.at.good running' done;
      }

  pub cut_from-Done :
      (fuel : ℕ) (c c' : Cutting Dir)
      → fuel ≤ most
      → At fuel c
      → cut_from host disk total_gas threshold fuel c ≡ some (finished c')
      → Done c'
  unfolding cut_from
  cut_from-Done zero c c' le h e = cc
  cut_from-Done (suc fuel) c c' le h e = elim (Bool-cases c.vm.halted) [
    | inl over ↦ subst Done (eq_of_finished (eq_of_some (ground arith))) (halted-Done fuel c h over)
    | inr running ↦ elim (Result-cases (peek_next_gas_cost host c.vm)) [
      | inr (inl (x, p)) ↦ ground arith
      | inr (inr (x, p)) ↦ ground arith
      | inl (next, p) ↦ elim (Outcome-cases (cut_before host disk total_gas threshold next c)) [
        | inr (inl (x, f)) ↦ ground arith
        | inr (inr (x, f)) ↦ ground arith
        | inl (mid, f) ↦ elim (Result-cases (step host mid.vm).0) [
          | inr (inl (x, s)) ↦ ground arith
          | inr (inr (x, s)) ↦ ground arith
          | inl (u, s) ↦
              let r = cut_before-Ready fuel next c mid le h running p f in
              cut_from-Done fuel
                (record mid { vm = (step host mid.vm).1; window = (mid.window + next) % u64_mod })
                c' (omega arith) (stepped-At fuel next c mid r running p s) (ground arith)
        ]
      ]
    ]
  ]
