-- ===== src/Gate.antt =====
-- src/gate.rs: the resource gate, which reads the system's state before a measurement round and
-- waits, or records that the machine was not quiet. This file has the configuration, the check of
-- one state and the recording of it; `Wait` has the waiting loops, `Ancestors` and `Scan` the
-- search for rival benchmark processes. A duration is a number of nanoseconds.
pub mod Wait
pub mod Outcome
pub mod Ancestors
pub mod Scan
pub mod Verdict
mod Tests
use zenbench.Prelude.{
  ℕ, ◌+◌, ◌*◌, min, ◌^◌, ◌-◌, Bool, true, false, Option, none, some, if◌then◌else◌, ltb, not, ◌&&◌,
  ◌||◌,
}
use zenbench.Prelude.Float.{Float}

abbrev pub seconds : ℕ → ℕ
seconds n = n * 1_000_000_000

abbrev pub milliseconds : ℕ → ℕ
milliseconds n = n * 1_000_000

-- `struct GateConfig`
pub record GateConfig (f : Float) : Type 0 where
  pub max_cpu_load : f.F
  pub min_available_ram_bytes : ℕ
  pub max_cpu_temp_c : Option f.F
  pub max_heavy_processes : ℕ
  pub max_wait : ℕ
  pub poll_interval : ℕ
  pub strict : Bool
  pub max_wait_count : ℕ
  pub enabled : Bool

-- `struct SystemState` of src/platform.rs
pub record SystemState (f : Float) : Type 0 where
  pub cpu_load : f.F
  pub available_ram_bytes : ℕ
  pub total_ram_bytes : ℕ
  pub cpu_temp_c : Option f.F
  pub heavy_process_count : ℕ

pub data GateReason (f : Float) : Type 0 where
  cpu_load : f.F → GateReason f
  low_ram : ℕ → GateReason f
  cpu_temp : f.F → GateReason f
  heavy_processes : ℕ → GateReason f

-- `struct ResourceGate`. The two monitors are the machine's: what they report is an argument of
-- the operations, and `background` says whether the sampling thread runs.
pub record ResourceGate (f : Float) : Type 0 where
  pub config : GateConfig f
  pub total_waits : ℕ
  pub total_wait_time : ℕ
  pub background : Bool
  pub observation_age_ns : Option ℕ
  pub last_observation : Option (Option (GateReason f) × SystemState f)
  pub missing_observations : Bool

-- What the machine has for one call of `check_and_record_status`: the background sampler's
-- latest sample with its age, and a snapshot with the time that it took.
pub record Reading (f : Float) : Type 0 where
  pub latest : Option (ℕ × SystemState f)
  pub snapshot : SystemState f
  pub snapshot_time : ℕ

module _ (f : Float) where
  open f use {hundredths}

  -- `impl Default for GateConfig`
  abbrev pub default_config : GateConfig f
  default_config = record {
    max_cpu_load = hundredths 20;
    min_available_ram_bytes = 512 * 1024 * 1024;
    max_cpu_temp_c = some (hundredths 8500);
    max_heavy_processes = 1;
    max_wait = seconds 30;
    poll_interval = milliseconds 500;
    strict = false;
    max_wait_count = 10;
    enabled = true;
  }

  -- `GateConfig::ci`
  abbrev pub ci_config : GateConfig f
  ci_config = record default_config {
    max_cpu_load = hundredths 50;
    min_available_ram_bytes = 256 * 1024 * 1024;
    max_cpu_temp_c = none;
    max_heavy_processes = 5;
    max_wait = seconds 30;
    strict = false;
    max_wait_count = 20;
  }

  -- `GateConfig::strict`
  abbrev pub strict_config : GateConfig f
  strict_config = record default_config {
    max_cpu_load = hundredths 5;
    max_heavy_processes = 0;
    strict = true;
    max_wait_count = 5;
  }

  -- `GateConfig::disabled`
  abbrev pub disabled_config : GateConfig f
  disabled_config = record default_config { enabled = false }

  -- `resolve_gate` of src/engine.rs
  abbrev pub resolve_gate : GateConfig f → Bool → GateConfig f
  resolve_gate config disable = if disable then disabled_config else config

  -- `ResourceGate::new`
  abbrev pub new_gate : GateConfig f → ResourceGate f
  new_gate config = record {
    config = config;
    total_waits = 0;
    total_wait_time = 0;
    background = false;
    observation_age_ns = none;
    last_observation = none;
    missing_observations = false;
  }

module _ {f : Float} where
  open f use {flt}

  -- `ResourceGate::start_monitoring`; `elapsed` is the time that the start of the sampler took.
  unfoldable pub start_monitoring : (elapsed : ℕ) → ResourceGate f → ResourceGate f
  start_monitoring elapsed g =
      if g.config.enabled && not g.background
      then record g { background = true; total_wait_time = g.total_wait_time + elapsed }
      else g

  -- the `if let` of `check_state`: both the limit and the reading are there
  abbrev over_temperature : Option f.F → Option f.F → Option (GateReason f)
  over_temperature (some max_temp) (some current) =
      if flt max_temp current then some (GateReason.cpu_temp current) else none
  over_temperature _ _ = none

  -- `ResourceGate::check_state`
  unfoldable pub check_state : GateConfig f → SystemState f → Option (GateReason f)
  check_state c s =
      if flt c.max_cpu_load s.cpu_load
      then some (GateReason.cpu_load s.cpu_load)
      else if ltb s.available_ram_bytes c.min_available_ram_bytes
      then some (GateReason.low_ram s.available_ram_bytes)
      else elim (over_temperature c.max_cpu_temp_c s.cpu_temp_c) [
        | some reason ↦ some reason
        | none ↦
            if ltb c.max_heavy_processes s.heavy_process_count
            then some (GateReason.heavy_processes s.heavy_process_count)
            else none
      ]

  -- `ResourceGate::check`
  unfoldable pub check : ResourceGate f → SystemState f → Option (GateReason f)
  unfolding check_state
  check g s = if g.config.enabled then check_state g.config s else none

  -- the tail of `check_and_record_status`, from the check of the state on
  abbrev pub record_state : SystemState f → ResourceGate f → Option Bool × ResourceGate f
  record_state s g =
      let reason = check_state g.config s in
      let g' : ResourceGate f = record g { last_observation = some (reason, s) } in
      elim reason [
        | none ↦ (some true, g')
        | some _ ↦ (some false, record g' { total_waits = g.total_waits + 1 })
      ]

  -- `ResourceGate::check_and_record_status`
  unfoldable pub check_and_record_status : Reading f → ResourceGate f → Option Bool × ResourceGate f
  unfolding check_state
  check_and_record_status r g =
      let cleared : ResourceGate f = record g { last_observation = none } in
      if not g.config.enabled
      then (none, cleared)
      else if g.background
      then elim r.latest [
        | none ↦ (none, record cleared { observation_age_ns = none; missing_observations = true })
        | some (age, s) ↦
            record_state s (record cleared { observation_age_ns = some (min age (2 ^ 64 - 1)) })
      ]
      else record_state r.snapshot
          (record cleared { total_wait_time = g.total_wait_time + r.snapshot_time })

  -- `ResourceGate::is_unreliable`
  abbrev pub is_unreliable : ResourceGate f → Bool
  is_unreliable g =
      g.missing_observations || (g.config.strict && ltb g.config.max_wait_count g.total_waits)
