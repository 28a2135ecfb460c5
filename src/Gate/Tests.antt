-- ===== src/Gate/Tests.antt =====
-- The gate on a float type of whole percents, and the theorems on concrete machines.
use zenbench.Prelude.{
  ℕ, ◌*◌, ◌≡◌, refl, Bool, true, false, Option, none, some, [], ◌∷◌, ltb, arith, if◌then◌else◌,
  ◌==◌,
}
use zenbench.Prelude.Float.{whole}
use zenbench.Gate.{
  SystemState, ResourceGate, Reading, strict_config, new_gate, check_and_record_status,
  is_unreliable,
}
use zenbench.Gate.Wait.{Moment, effective_max, wait_for_clear_with_deadline}
use zenbench.Gate.Outcome.{ClearOutcome, wait_for_clear_with_deadline-ClearOutcome}
use zenbench.Gate.Ancestors.{Walked, collect_ancestors_with, collect_ancestors_chain}
use zenbench.Prelude.Text.{codes}
use zenbench.Gate.Scan.{basename, process_is_benchmark}
use zenbench.Gate.Verdict.{
  check_and_record_status_lem, Recorded, Step, here, next, IsLater, Reach-is_unreliable,
}

abbrev state : ℕ → SystemState whole
state load = record {
  cpu_load = load;
  available_ram_bytes = 8_000_000_000;
  total_ram_bytes = 16_000_000_000;
  cpu_temp_c = none;
  heavy_process_count = 0;
}

abbrev gate : ResourceGate whole
gate = new_gate whole (strict_config whole)

abbrev reading : ℕ → Reading whole
reading load = record { latest = none; snapshot = state load; snapshot_time = 7 }

-- busy for three turns of half a second, then quiet
abbrev moment : ℕ → Moment whole
moment k = record {
  state = if ltb k 3 then state 90 else state 1;
  elapsed = k * 500_000_000;
  elapsed_again = k * 500_000_000;
}

waits_three_times :
    wait_for_clear_with_deadline 70 none moment gate
    ≡ some (true, record gate { total_waits = 3; total_wait_time = 1_500_000_000 })
unfolding wait_for_clear_with_deadline
waits_three_times = refl

wait_for_clear_with_deadline-ClearOutcome_example :
    (r : Bool × ResourceGate whole) × (wait_for_clear_with_deadline 70 none moment gate ≡ some r)
    × (n : ℕ) × ClearOutcome (effective_max gate.config none) n moment gate r
wait_for_clear_with_deadline-ClearOutcome_example =
    wait_for_clear_with_deadline-ClearOutcome 70 none moment gate refl (omega arith)
      (λ k. omega arith) (omega arith)

abbrev parents : ℕ → Option ℕ
parents n = if n == 10 then some 9 else if n == 9 then some 8 else if n == 8 then some 10 else none

-- A cycle through the start ends the walk.
cyclic_parents : collect_ancestors_with (some 10) (10 ∷ []) parents ≡ 10 ∷ 9 ∷ 8 ∷ []
unfolding collect_ancestors_with
cyclic_parents = refl

collect_ancestors_chain_example :
    Walked parents (some 10) 1024 10 [] (collect_ancestors_with (some 10) [] parents)
collect_ancestors_chain_example = collect_ancestors_chain parents 10 []

basename_run : basename (codes "/target/deps/foo_zenbench-1a") ≡ codes "foo_zenbench-1a"
unfolding basename
basename_run = refl

-- A backup that names a benchmark directory among its arguments is no rival.
backup_is_no_rival :
    process_is_benchmark
      (λ t. t)
      (record {
        pid = 5;
        name = codes "rsync";
        cmd = codes "/usr/bin/rsync" ∷ codes "--exclude=criterion/" ∷ [];
      })
    ≡ false
unfolding process_is_benchmark
backup_is_no_rival = refl

check_and_record_status_lem_example :
    Recorded gate (state 90) (check_and_record_status (reading 90) gate)
check_and_record_status_lem_example = (check_and_record_status_lem (reading 90) gate).0 refl refl

abbrev marked : ResourceGate whole
marked = record gate { missing_observations = true }

Reach-is_unreliable_example :
    IsLater marked (check_and_record_status (reading 1) marked).1
    × (is_unreliable marked ≡ true
        → is_unreliable (check_and_record_status (reading 1) marked).1 ≡ true)
Reach-is_unreliable_example = Reach-is_unreliable (next here (Step.recorded (reading 1)))
