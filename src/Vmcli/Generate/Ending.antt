-- ===== src/Vmcli/Generate/Ending.antt =====
-- The cutting of a run that halts, by `generate-artifacts` (purevm/cmd/vmcli/main.go), comes to its end.
use offchain_com.Base.{
  ℕ, zero, suc, ◌+◌, ◌%◌, ◌<◌, ◌≡◌, refl, ap, ◌∙◌, arith, false, true, List, [], ◌∷◌, some, length,
  get_elem?, Bool-cases, Option-cases, inl, inr,
}
use offchain_com.Core.Word.{Bytes, u64_mod}
use offchain_com.Core.Text.{codes}
use offchain_com.Core.Action.{Result, ok, Host}
use offchain_com.Core.State.{VmState}
use offchain_com.Core.Snapshot.{StandardSnapshot}
use offchain_com.Core.Machine.{Vm}
use offchain_com.Core.Index.{SnapshotIndex}
use offchain_com.Core.Step.{step, peek_next_gas_cost}
use offchain_com.Core.Step.Account.{step-Stepped}
use offchain_com.Proof.Predict.{is_full}
use offchain_com.Vmcli.Types.{finished}
use offchain_com.Vmcli.Countdown.Steps.{Steps, stay, move}
use offchain_com.Vmcli.Artifacts.{
  Disk, Cutting, snapshot_name, gas_used_by, gas_used_entry, threshold_entry, snapshot_of,
  cut_before, cut_from, save_final, save_initial, cut_run,
}
use offchain_com.Vmcli.Generate.Saves.{Writes, OnDisk, save-Done, Done-OnDisk, first-OnDisk}

module _ (host : Host VmState) where
  -- The price of a step that succeeds is known before it.
  known_price :
      (vm : Vm)
      → vm.halted ≡ false
      → (step host vm).0 ≡ ok tt
      → (next : ℕ) × (peek_next_gas_cost host vm ≡ ok next)
  unfolding peek_next_gas_cost
  known_price vm running done = elim (Option-cases (get_elem? vm.state.code vm.state.pc)) [
    | inl e ↦ (0, ground arith)
    | inr (op, e) ↦
        let s = step-Stepped host op vm running e done in (s.cost, ground (arith, s.priced))
  ]

module _ (host : Host VmState) {Dir : Type 0} (disk : Disk Dir) (writes : Writes disk) (dir : Dir)
    (first : Bytes × StandardSnapshot) (total_gas threshold : ℕ) where
  cut_before_finishes :
      (next : ℕ) (c : Cutting Dir)
      → (c' : Cutting Dir) × (cut_before host disk total_gas threshold next c ≡ finished c')
        × (c'.vm ≡ c.vm)
        × (OnDisk disk dir first c → OnDisk disk dir first c')
  unfolding cut_before
  cut_before_finishes next c = elim (Bool-cases (is_full host threshold c.window next)) [
    | inr room ↦ (c, rw (cut_before, room) refl, refl, λ o. o)
    | inl full ↦
        let gas_used = gas_used_by host disk total_gas threshold c.vm in
        let name =
          snapshot_name (codes "_step_") (length c.written) c.vm.state.step_count gas_used in
        let meta = gas_used_entry gas_used ∷ (threshold_entry threshold ∷ []) in
        let (c1, s, d) = save-Done host disk writes name meta gas_used c in
        (
          record c1 { window = 0 },
          rw (cut_before, full, s) refl,
          d.same_vm,
          λ o.
              let o1 = Done-OnDisk host disk dir first name meta c c1 d o in
              record {
                between = o1.between;
                listed = o1.listed;
                wrote = o1.wrote;
                indexed = o1.indexed;
              },
        )
  ]

  cut_from_finishes :
      {k : ℕ} {vm last : Vm} (fuel : ℕ) (c : Cutting Dir)
      → Steps host k vm last
      → last.halted ≡ true
      → c.vm ≡ vm
      → k < fuel
      → (c' : Cutting Dir) × (cut_from host disk total_gas threshold fuel c ≡ some (finished c'))
        × (c'.vm ≡ last)
        × (OnDisk disk dir first c → OnDisk disk dir first c')
  unfolding cut_from
  cut_from_finishes zero c s over same lt = absurd (omega arith)
  cut_from_finishes (suc fuel) c (stay w) over same lt =
      let h : c.vm.halted ≡ true = ap (λ (v : Vm). v.halted) same ∙ over in
      (c, ground arith, same, λ o. o)
  cut_from_finishes (suc fuel) c (move w running clean s rest) over same lt =
      let h : c.vm.halted ≡ false = ap (λ (v : Vm). v.halted) same ∙ running in
      let done : (step host c.vm).0 ≡ ok tt =
        ap (λ v. (step host v).0) same ∙ ap (λ (r : Result (Unit {0}) × Vm). r.0) s in
      let (next, p) = known_price host c.vm h done in
      let (c1, b, same1, kept1) = cut_before_finishes next c in
      let there = ap (step host) (same1 ∙ same) ∙ s in
      let moved = record c1 { vm = (step host c1.vm).1; window = (c1.window + next) % u64_mod } in
      let (c2, e, same2, kept2) =
        cut_from_finishes fuel moved rest over (ap (λ (r : Result (Unit {0}) × Vm). r.1) there)
          (omega arith) in
      let done1 = ap (λ (r : Result (Unit {0}) × Vm). r.0) there in
      (
        c2,
        ground (arith, e),
        same2,
        λ o.
            let o1 = kept1 o in
            kept2 (record {
              between = o1.between;
              listed = o1.listed;
              wrote = o1.wrote;
              indexed = o1.indexed;
            }),
      )

module _ (host : Host VmState) {Dir : Type 0} (disk : Disk Dir) (total_gas threshold : ℕ) where
  -- The initial snapshot of `vm` under its name.
  abbrev pub initial : Vm → Bytes × StandardSnapshot
  initial vm = (
    codes "snapshot_000_initial.json",
    snapshot_of host disk (gas_used_entry 0 ∷ (threshold_entry threshold ∷ [])) vm,
  )

  -- The final snapshot of `vm` behind `n` snapshots, under its name, when `gas_used` is used.
  abbrev pub final : ℕ → ℕ → Vm → Bytes × StandardSnapshot
  final n gas_used vm = (
    snapshot_name (codes "_final_step_") n vm.state.step_count gas_used,
    snapshot_of host disk (gas_used_entry gas_used ∷ []) vm,
  )

  -- The run of `vm` has ended in `last`, and everything is written, from the initial to the final
  -- snapshot.
  pub record Cut (dir : Dir) (vm last : Vm) (c : Cutting Dir) : Type 0 where
    pub ended : c.vm ≡ last
    pub earlier : List (Bytes × StandardSnapshot)
    pub closed :
        c.written
        ≡ final (length earlier) (gas_used_by host disk total_gas threshold last) last ∷ earlier
    pub on_disk : OnDisk disk dir (initial vm) c

  -- The whole run of a machine that halts is cut.
  pub cut_run-Cut :
      {k : ℕ} {vm last : Vm} (writes : Writes disk) (fuel : ℕ) (index : SnapshotIndex) (dir : Dir)
      → Steps host k vm last
      → last.halted ≡ true
      → index.snapshots ≡ []
      → k < fuel
      → (c : Cutting Dir) × (cut_run host disk total_gas threshold fuel vm index dir
          ≡ some (finished c))
        × Cut dir vm last c
  unfolding cut_run save_initial save_final
  cut_run-Cut {k} {vm} {last} writes fuel index dir way over empty lt =
      let start : Cutting Dir = record {
        vm = vm;
        window = 0;
        index = index;
        written = [];
        dir = dir;
      } in
      let meta0 = gas_used_entry 0 ∷ (threshold_entry threshold ∷ []) in
      let (c, s, d) =
        save-Done host disk writes (codes "snapshot_000_initial.json") meta0 0 start in
      let opened =
        first-OnDisk host disk dir (codes "snapshot_000_initial.json") meta0 start c d refl refl
          empty in
      let (c', e, same, kept) =
        cut_from_finishes host disk writes dir (initial vm) total_gas threshold fuel c way over
          d.same_vm lt in
      let gas_used = gas_used_by host disk total_gas threshold c'.vm in
      let name =
        snapshot_name (codes "_final_step_") (length c'.written) c'.vm.state.step_count gas_used in
      let (c2, f, d2) =
        save-Done host disk writes name (gas_used_entry gas_used ∷ []) gas_used c' in
      (
        c2,
        rw (cut_run, save_initial, s, e, save_final, f) refl,
        record {
          ended = d2.same_vm ∙ same;
          earlier = c'.written;
          closed =
              d2.listed
              ∙ ap
                  (λ (v : Vm).
                    final (length c'.written) (gas_used_by host disk total_gas threshold v) v
                    ∷ c'.written)
                  same;
          on_disk =
              Done-OnDisk host disk dir (initial vm) name (gas_used_entry gas_used ∷ []) c' c2 d2
                (kept opened);
        },
      )
