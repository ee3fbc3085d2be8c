-- ===== src/Vmcli/Countdown/Run.antt =====
-- The run of the counting loop (purevm/cmd/vmcli/main.go) from its start to its end.
use offchain_com.Base.{
  ℕ, zero, suc, ◌+◌, ◌-◌, ◌*◌, ◌%◌, ◌<◌, ◌≡◌, refl, sym, ap, ◌∙◌, subst, arith, true, List, [], ◌∷◌,
  ◌++◌, replicate, none, some,
}
use offchain_com.Core.Opcode.Name.{op_name}
use offchain_com.Core.Word.{Word, u64_mod, fill_bytes, zero_word, word_from_uint64}
use offchain_com.Core.Action.{Result, ok, Host}
use offchain_com.Core.State.{VmState}
use offchain_com.Core.Machine.{Vm, TraceStep}
use offchain_com.Core.Operators.{iszero_word, sub_word}
use offchain_com.Vmcli.Countdown.{build_countdown_loop, countdown_gas_for_iterations, u32_mod}
use offchain_com.Vmcli.Countdown.Steps.{Steps, stay, move, Goes, point}
use offchain_com.Vmcli.Countdown.Body.{small}
use offchain_com.Core.Opcode.{is_push, is_dup, is_swap}
use offchain_com.Core.State.{new_state, get_stack_depth}
use offchain_com.Core.Machine.{new_vm}
use offchain_com.Core.Gas.{one_of, calc_opcode_cost}
use offchain_com.Core.Instructions.{op_stop, instruction_set, find_instruction}
use offchain_com.Core.Step.{next_pc, finish_step, execute, run}
use offchain_com.Vmcli.Countdown.Counter.{start_word, iszero_zero, iszero_suc, sub_suc}
use offchain_com.Vmcli.Countdown.Steps.{step_of}
use offchain_com.Vmcli.Countdown.Body.{
  start_push, loop_jumpdest, loop_dup, loop_iszero, exit_push, exit_skipped, exit_taken, one_push,
  loop_sub, back_push, back_jump, exit_jumpdest,
}

module _ (host : Host VmState) (chain_id n : ℕ) where
  -- The machine where the loop has ended, after `count` steps.
  abbrev pub end_at : ℕ → List TraceStep → Vm
  end_at count trace = record (point host chain_id n 19 (word_from_uint64 0 ∷ []) 0 count trace) {
    halted = true;
  }

  -- The machine that starts the loop.
  abbrev pub loaded : Vm
  loaded = record (new_vm host (build_countdown_loop n) (countdown_gas_for_iterations n)) {
    chain_id = chain_id;
  }

module _ (host : Host VmState) (jumpdest_paid : host.jumpdest_gas ≡ 1) (chain_id n : ℕ) where
  -- From the point it is `k` steps to the end, whatever the count of steps.
  Ends : ℕ → ℕ → List Word → ℕ → Type 0
  Ends k pc stack gas =
      (count : ℕ) (trace : List TraceStep)
      → count + k < u64_mod
      → (t : List TraceStep) × Steps host k (point host chain_id n pc stack gas count trace)
          (end_at host chain_id n (count + k) t)

  before :
      (k pc pc' cost gas : ℕ) (stack stack' : List Word)
      → Goes host chain_id n pc stack cost pc' stack'
      → gas + cost < u64_mod
      → Ends k pc' stack' gas
      → Ends (suc k) pc stack (gas + cost)
  unfolding Ends Goes
  before k pc pc' cost gas stack stack' go fits rest count trace c =
      let (t, s) = go gas count trace fits (omega arith) in
      let (u, r) = rest (count + 1) t (omega arith) in
      let e : count + 1 + k ≡ count + suc k = omega arith in
      (
        u,
        move (record { empty = refl; intact = refl }) refl refl s
            (subst
              (λ (x : ℕ).
                Steps host k (point host chain_id n pc' stack' gas (count + 1) t)
                  (end_at host chain_id n x u))
              e r),
      )

  stop_Ends : Ends 1 18 (word_from_uint64 0 ∷ []) 0
  unfolding Ends build_countdown_loop fill_bytes calc_opcode_cost one_of execute is_push is_dup
      is_swap instruction_set find_instruction op_stop finish_step next_pc get_stack_depth
  stop_Ends count trace c =
      let s =
        step_of host 0x00 0 (point host chain_id n 18 (word_from_uint64 0 ∷ []) 0 count trace)
          (record (point host chain_id n 19 (word_from_uint64 0 ∷ []) 0 count trace) {
            halted = true;
          })
          refl refl refl (omega arith) refl in
      let counted : (count + 1) % u64_mod ≡ count + 1 = omega arith in
      let paid : (0 + u64_mod - 0) % u64_mod ≡ 0 = refl in
      (
        record { pc = 18; op = op_name 0; gas_cost = 0; gas_left = 0; stack_size = 1; op_code = 0 }
            ∷ trace,
        move (record { empty = refl; intact = refl }) refl refl (s ∙ rw (finish_step, counted) refl)
            (stay (record { empty = refl; intact = refl })),
      )

  -- The way out, from the head of the loop.
  exit_Ends : Ends 7 5 (word_from_uint64 0 ∷ []) 21
  exit_Ends =
      let w = word_from_uint64 0 in
      let out =
        before 3 8 10 3 11 (small 1 ∷ w ∷ []) (small 0x11 ∷ small 1 ∷ w ∷ [])
          (exit_push host chain_id n w (small 1)) (omega arith)
          (before 2 10 17 10 1 (small 0x11 ∷ small 1 ∷ w ∷ []) (w ∷ [])
            (exit_taken host chain_id n w) (omega arith)
            (before 1 17 18 1 0 (w ∷ []) (w ∷ []) (exit_jumpdest host chain_id n w jumpdest_paid)
              (omega arith) stop_Ends)) in
      before 6 5 6 1 20 (w ∷ []) (w ∷ []) (loop_jumpdest host chain_id n w jumpdest_paid)
        (omega arith)
        (before 5 6 7 3 17 (w ∷ []) (w ∷ w ∷ []) (loop_dup host chain_id n w) (omega arith) (
          before 4 7 8 3 14 (w ∷ w ∷ []) (iszero_word w ∷ w ∷ []) (loop_iszero host chain_id n w)
            (omega arith) (subst (λ (f : Word). Ends 4 8 (f ∷ w ∷ []) 14) (sym iszero_zero) out)))

  -- One round of the loop.
  round_Ends :
      (i k gas : ℕ)
      → suc k < u64_mod
      → gas + 37 < u64_mod
      → Ends i 5 (word_from_uint64 k ∷ []) gas
      → Ends
          (suc (suc (suc (suc (suc (suc (suc (suc (suc i)))))))))
          5
          (word_from_uint64 (suc k) ∷ [])
          (gas + 8 + 3 + 3 + 3 + 10 + 3 + 3 + 3 + 1)
  round_Ends i k gas small_k fits rest =
      let w = word_from_uint64 (suc k) in
      let v = word_from_uint64 k in
      let back =
        before (suc i) 14 16 3 (gas + 8) (v ∷ []) (small 5 ∷ v ∷ []) (back_push host chain_id n v)
          (omega arith)
          (before i 16 5 8 gas (small 5 ∷ v ∷ []) (v ∷ []) (back_jump host chain_id n v)
            (omega arith) rest) in
      let less =
        before (suc (suc (suc i))) 11 13 3 (gas + 8 + 3 + 3) (w ∷ []) (small 1 ∷ w ∷ [])
          (one_push host chain_id n w) (omega arith)
          (before (suc (suc i)) 13 14 3 (gas + 8 + 3) (small 1 ∷ w ∷ []) (sub_word (small 1) w ∷ [])
            (loop_sub host chain_id n w) (omega arith)
            (subst (λ (x : Word). Ends (suc (suc i)) 14 (x ∷ []) (gas + 8 + 3))
              (sym (sub_suc k small_k)) back)) in
      let stays =
        before (suc (suc (suc (suc (suc i))))) 8 10 3 (gas + 8 + 3 + 3 + 3 + 10)
          (zero_word ∷ w ∷ []) (small 0x11 ∷ zero_word ∷ w ∷ [])
          (exit_push host chain_id n w zero_word) (omega arith)
          (before (suc (suc (suc (suc i)))) 10 11 10 (gas + 8 + 3 + 3 + 3)
            (small 0x11 ∷ zero_word ∷ w ∷ []) (w ∷ []) (exit_skipped host chain_id n w)
            (omega arith) less) in
      before (suc (suc (suc (suc (suc (suc (suc (suc i)))))))) 5 6 1
        (gas + 8 + 3 + 3 + 3 + 10 + 3 + 3 + 3) (w ∷ []) (w ∷ [])
        (loop_jumpdest host chain_id n w jumpdest_paid) (omega arith)
        (before (suc (suc (suc (suc (suc (suc (suc i))))))) 6 7 3 (gas + 8 + 3 + 3 + 3 + 10 + 3 + 3)
          (w ∷ []) (w ∷ w ∷ []) (loop_dup host chain_id n w) (omega arith)
          (before (suc (suc (suc (suc (suc (suc i)))))) 7 8 3 (gas + 8 + 3 + 3 + 3 + 10 + 3)
            (w ∷ w ∷ []) (iszero_word w ∷ w ∷ []) (loop_iszero host chain_id n w) (omega arith)
            (subst
              (λ (f : Word).
                Ends (suc (suc (suc (suc (suc (suc i)))))) 8 (f ∷ w ∷ [])
                  (gas + 8 + 3 + 3 + 3 + 10 + 3))
              (sym (iszero_suc k small_k)) stays)))

  -- All rounds from a counter `k`.
  loop_Ends : (k : ℕ) → k < u32_mod → Ends (9 * k + 7) 5 (word_from_uint64 k ∷ []) (k * 37 + 21)
  loop_Ends zero h =
      subst (λ (i : ℕ). Ends i 5 (word_from_uint64 0 ∷ []) (0 * 37 + 21)) {x = 7} (omega arith)
        (subst (λ (g : ℕ). Ends 7 5 (word_from_uint64 0 ∷ []) g) {x = 21} (omega arith) exit_Ends)
  loop_Ends (suc k) h =
      let more =
        round_Ends (9 * k + 7) k (k * 37 + 21) (omega arith) (omega arith)
          (loop_Ends k (omega arith)) in
      subst (λ (i : ℕ). Ends i 5 (word_from_uint64 (suc k) ∷ []) (suc k * 37 + 21)) (omega arith)
        (subst (Ends _ 5 (word_from_uint64 (suc k) ∷ [])) (omega arith) more)

  program_Ends : n < u32_mod → Ends (9 * n + 8) 0 [] (countdown_gas_for_iterations n)
  unfolding countdown_gas_for_iterations
  program_Ends h =
      let all =
        before (9 * n + 7) 0 5 3 (n * 37 + 21) [] ((replicate 28 0 ++ fill_bytes 4 n []) ∷ [])
          (start_push host chain_id n) (omega arith)
          (subst (λ (w : Word). Ends (9 * n + 7) 5 (w ∷ []) (n * 37 + 21)) (sym (start_word n h))
            (loop_Ends n h)) in
      subst (λ (i : ℕ). Ends i 0 [] (countdown_gas_for_iterations n)) (omega arith)
        (subst (Ends (suc (9 * n + 7)) 0 []) (omega arith) all)

  Steps-run :
      {k : ℕ} {vm vm' : Vm} (fuel : ℕ)
      → Steps host k vm vm'
      → k < fuel
      → vm'.halted ≡ true
      → vm'.error ≡ none
      → run host fuel vm ≡ some (ok tt, vm')
  unfolding run
  Steps-run zero s lt h e = absurd (omega arith)
  Steps-run {k} {vm} {vm'} (suc fuel) (stay w) lt h e = ground arith
  Steps-run {k} {vm} {vm'} (suc fuel) (move w running clean s rest) lt h e =
      rw
        (
          run,
          running,
          clean,
          ap (λ (r : Result (Unit {0}) × Vm). r.0) s,
          ap (λ (r : Result (Unit {0}) × Vm). r.1) s,
        )
        (Steps-run fuel rest (omega arith) h e)

  pub loaded-Steps :
      n < u32_mod
      → (t : List TraceStep) × Steps host
          (9 * n + 8)
          (loaded host chain_id n)
          (end_at host chain_id n (9 * n + 8) t)
  unfolding Ends new_vm new_state
  loaded-Steps h =
      let (t, s) = program_Ends h 0 [] (omega arith) in
      (
        t,
        subst
            (λ (c : ℕ).
              Steps host (9 * n + 8) (loaded host chain_id n) (end_at host chain_id n c t))
            {x = 0 + (9 * n + 8)} (omega arith) s,
      )

  -- The counting loop of any number of iterations below 2 ^ 32, with exactly the gas that
  -- `countdownGasForIterations` gives for it, runs to its `STOP` without an error: 9 steps for each
  -- iteration and 8 more, no gas left, and the counter 0 on the stack. `JUMPDEST` costs 1 gas.
  pub countdown_runs :
      (fuel : ℕ)
      → n < u32_mod
      → 9 * n + 8 < fuel
      → (t : List TraceStep) × (run host fuel (loaded host chain_id n)
          ≡ some (ok tt, end_at host chain_id n (9 * n + 8) t))
  countdown_runs fuel h enough =
      let (t, s) = loaded-Steps h in (t, Steps-run fuel s enough refl refl)
