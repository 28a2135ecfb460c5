-- ===== src/Pair/Observe.antt =====
-- src/bin/support/pair.rs: `admission`, `observation_value` and `finish_resource_observations`.
-- An instant is a number of nanoseconds.
use zenbench.Prelude.{
  ℕ, ◌-◌, Bool, true, false, Option, none, some, List, [], ◌∷◌, ◌++◌, map, if◌then◌else◌, not, ◌&&◌,
  ◌||◌, ltb, leb,
}
use Prim.Native.String.{String}
use zenbench.Prelude.Float.{Float}
use zenbench.Prelude.Text.{Text, codes}
use zenbench.Gate.{SystemState, strict_config}
use zenbench.Pair.{Observation, field_false, field_is, field_true}

-- `struct Admission`
pub record Admission : Type 0 where
  pub cpu_load_within_limit : Bool
  pub ownership_independent : Bool

-- `struct Lifecycle` of the supervisor: when the leader was last seen alive, and when its exit was
-- observed
pub record Lifecycle : Type 0 where
  pub last_alive : Option ℕ
  pub exit_observed : Option ℕ

-- `t <= config.max_cpu_temp_c.unwrap()`; the strict configuration has a limit
abbrev is_cool : (f : Float) → Option f.F → f.F → Bool
is_cool f none t = false
is_cool f (some limit) t = f.fle t limit

-- `state.cpu_temp_c.is_none_or(..)`
abbrev is_cool_or_unknown : (f : Float) → Option f.F → Option f.F → Bool
is_cool_or_unknown f limit none = true
is_cool_or_unknown f limit (some t) = f.is_finite t && is_cool f limit t

module _ {f : Float} where
  -- `admission`
  unfoldable pub admission : SystemState f → ℕ → Admission
  admission state sample_duration =
      let config = strict_config f in
      record {
        cpu_load_within_limit = f.fle state.cpu_load config.max_cpu_load;
        ownership_independent =
            f.is_finite state.cpu_load
            && leb state.heavy_process_count config.max_heavy_processes
            && leb config.min_available_ram_bytes state.available_ram_bytes
            && is_cool_or_unknown f config.max_cpu_temp_c state.cpu_temp_c
            && leb sample_duration 2_000_000_000;
      }

  -- `observation_value`
  unfoldable pub observation_value : SystemState f → ℕ → String → Observation
  unfolding admission
  observation_value state sample_duration phase =
      let a = admission state sample_duration in
      record {
        phase = some (codes phase);
        policy = some (codes "whole-host-strict-v1");
        clean = some (a.cpu_load_within_limit && a.ownership_independent);
        ownership_independent_clean = some a.ownership_independent;
        used_for_admission = some true;
        admission_waiver = none;
        sample_completed_after_start_ns = none;
        leader_last_alive_after_start_ns = none;
        leader_exit_observed_after_start_ns = none;
      }

-- the closure `relative`
abbrev relative : ℕ → Option ℕ → Option ℕ
relative began none = none
relative began (some t) = some (t - began)

-- `lifecycle.exit_observed.is_some_and(|exit| sampled_at >= exit)`
abbrev pub has_exited : Option ℕ → ℕ → Bool
has_exited none sampled_at = false
has_exited (some exit) sampled_at = leb exit sampled_at

-- `matches!(phase, Some("start_transition" | "exit_transition"))`
abbrev pub is_transition : Option Text → Bool
is_transition phase = field_is phase "exit_transition" || field_is phase "start_transition"

-- the first condition of the closure: a window that ends with the leader's exit
unfoldable pub relabel : Option ℕ → ℕ → Observation → Observation
relabel exit_observed sampled_at sample =
    if field_is sample.phase "during" && has_exited exit_observed sampled_at
    then record sample { phase = some (codes "exit_transition"); used_for_admission = some false }
    else sample

-- the second one: what does not depend on the owner of the load is never waived
unfoldable pub require_clean : Observation → Observation
require_clean sample =
    if not (field_true sample.ownership_independent_clean)
    then record sample { clean = some false; used_for_admission = some true }
    else sample

-- the third one
unfoldable pub note_waiver : Observation → Observation
note_waiver sample =
    if is_transition sample.phase && field_false sample.used_for_admission
    then record sample { admission_waiver = some (codes "cpu_load_magnitude") }
    else sample

-- the fields that the closure sets first
abbrev pub stamped : Lifecycle → ℕ → ℕ → Observation → Observation
stamped lifecycle began sampled_at sample = record sample {
  sample_completed_after_start_ns = relative began (some sampled_at);
  leader_last_alive_after_start_ns = relative began lifecycle.last_alive;
  leader_exit_observed_after_start_ns = relative began lifecycle.exit_observed;
}

-- the closure on one window
unfoldable pub finish_window : Lifecycle → ℕ → ℕ × Observation → Observation
unfolding relabel require_clean note_waiver
finish_window lifecycle began (sampled_at, sample) = note_waiver (
    require_clean
      (relabel lifecycle.exit_observed sampled_at (stamped lifecycle began sampled_at sample)))

-- `matches!((last_alive, exit_observed), (Some(alive), Some(exit)) if alive < exit)`
abbrev pub is_observed : Option ℕ → Option ℕ → Bool
is_observed none exit = false
is_observed (some alive) none = false
is_observed (some alive) (some exit) = ltb alive exit

-- the observation that is added where the leader was not seen alive before its exit
abbrev unobserved : Lifecycle → ℕ → Observation
unobserved lifecycle began = record {
  phase = some (codes "lifecycle_unobserved");
  policy = some (codes "whole-host-strict-v1");
  clean = some false;
  ownership_independent_clean = none;
  used_for_admission = some true;
  admission_waiver = none;
  sample_completed_after_start_ns = none;
  leader_last_alive_after_start_ns = relative began lifecycle.last_alive;
  leader_exit_observed_after_start_ns = relative began lifecycle.exit_observed;
}

abbrev pub no_windows {ℓ} : {A : Type ℓ} → List A → Bool
no_windows [] = true
no_windows (x ∷ xs) = false

-- `finish_resource_observations`
unfoldable pub finish_resource_observations :
    List (ℕ × Observation) → Lifecycle → ℕ → List Observation
unfolding finish_window
finish_resource_observations samples lifecycle began =
    let observations = map (finish_window lifecycle began) samples in
    if not (no_windows observations)
      && not (is_observed lifecycle.last_alive lifecycle.exit_observed)
    then observations ++ unobserved lifecycle began ∷ []
    else observations
