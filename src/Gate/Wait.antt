-- ===== src/Gate/Wait.antt =====
-- src/gate.rs: the loops that wait for a quiet machine, `wait_for_clear_with_deadline`,
-- `wait_for_no_benchmarks` and `brief_wait`. Turn `k` of a loop reads what the machine has for it;
-- the status lines that the loops print are left out.
use zenbench.Prelude.{
  ℕ, ◌+◌, min, Bool, true, false, Option, none, some, if◌then◌else◌, leb, ◌==◌, not,
}
use zenbench.Prelude.Float.{Float}
use zenbench.Prelude.Poll.{Turn, poll}
use zenbench.Gate.{GateConfig, SystemState, ResourceGate, check_state, seconds}

-- What one turn of a loop reads: the snapshot, the time since the start, and that time read once
-- more.
pub record Moment (f : Float) : Type 0 where
  pub state : SystemState f
  pub elapsed : ℕ
  pub elapsed_again : ℕ

module _ {f : Float} where
  -- the count and the sleep at the end of a turn
  abbrev pub waited : (interval : ℕ) → ResourceGate f → ResourceGate f
  waited interval g = record g {
    total_waits = g.total_waits + 1;
    total_wait_time = g.total_wait_time + interval;
  }

  -- one turn of `wait_for_clear_with_deadline`
  unfoldable pub clear_turn :
      (effective_max : ℕ)
      → (ℕ → Moment f)
      → ℕ
      → ResourceGate f
      → Turn (Bool × ResourceGate f) (ResourceGate f)
  unfolding check_state
  clear_turn effective_max moment k g = elim (check_state g.config (moment k).state) [
    | none ↦ Turn.stop (true, g)
    | some reason ↦
        if leb effective_max (moment k).elapsed
        then Turn.stop (false, g)
        else Turn.again (waited g.config.poll_interval g)
  ]

  abbrev pub effective_max : GateConfig f → Option ℕ → ℕ
  effective_max c none = c.max_wait
  effective_max c (some deadline) = min c.max_wait deadline

  -- `ResourceGate::wait_for_clear_with_deadline`
  unfoldable pub wait_for_clear_with_deadline :
      (fuel : ℕ) → Option ℕ → (ℕ → Moment f) → ResourceGate f → Option (Bool × ResourceGate f)
  unfolding poll clear_turn
  wait_for_clear_with_deadline fuel deadline moment g =
      if not g.config.enabled
      then some (true, g)
      else poll (clear_turn (effective_max g.config deadline) moment) fuel 0 g

  -- `ResourceGate::wait_for_clear`
  unfoldable pub wait_for_clear :
      (fuel : ℕ) → (ℕ → Moment f) → ResourceGate f → Option (Bool × ResourceGate f)
  unfolding wait_for_clear_with_deadline
  wait_for_clear fuel = wait_for_clear_with_deadline fuel none

  -- one turn of `brief_wait`
  unfoldable pub brief_turn :
      (max_wait : ℕ) → (ℕ → Moment f) → ℕ → ResourceGate f → Turn (ResourceGate f) (ResourceGate f)
  unfolding check_state
  brief_turn max_wait moment k g = elim (check_state g.config (moment k).state) [
    | none ↦ Turn.stop g
    | some reason ↦
        if leb max_wait (moment k).elapsed
        then Turn.stop (waited (moment k).elapsed_again g)
        else Turn.again g
  ]

  -- `ResourceGate::brief_wait`
  unfoldable pub brief_wait :
      (fuel max_wait : ℕ) → (ℕ → Moment f) → ResourceGate f → Option (ResourceGate f)
  unfolding poll brief_turn
  brief_wait fuel max_wait moment g =
      if not g.config.enabled then some g else poll (brief_turn max_wait moment) fuel 0 g

  -- What one turn of `wait_for_no_benchmarks` reads: the number of rivals, and the time.
  unfoldable pub rival_turn :
      (ℕ → ℕ × ℕ) → ℕ → ResourceGate f → Turn (ResourceGate f) (ResourceGate f)
  rival_turn scan k g =
      let (bench_count, elapsed) = scan k in
      if bench_count == 0
      then Turn.stop g
      else if leb (seconds 30) elapsed
      then Turn.stop (record g { missing_observations = true })
      else Turn.again (waited (seconds 1) g)

  -- `ResourceGate::wait_for_no_benchmarks`; `Scan.bench_count` says how one scan counts.
  unfoldable pub wait_for_no_benchmarks :
      (fuel : ℕ) → (ℕ → ℕ × ℕ) → ResourceGate f → Option (ResourceGate f)
  unfolding poll rival_turn
  wait_for_no_benchmarks fuel scan g =
      if not g.config.enabled then some g else poll (rival_turn scan) fuel 0 g
