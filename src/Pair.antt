-- ===== src/Pair.antt =====
-- src/bin/support/pair.rs and its modules `plan`, `analysis` and `interval`: the data of a paired
-- experiment, which are the plan, the invocations that are retained and the packet of both.
-- A map is the list of its entries in the order of their keys, a path or a name is a text, and of
-- a JSON object the fields that the code reads, each absent where the object has none.
pub mod Expand
pub mod Schedule
pub mod Drawn
pub mod Observe
pub mod Observed
pub mod Intervals
pub mod Validate
pub mod Complete
pub mod Analysis
pub mod Decide
pub mod Retained
pub mod Rows
pub mod Confirmed
pub mod Sound
pub mod Accepted
pub mod Permuted
pub mod Membership
mod Tests
use zenbench.Prelude.{
  ℕ, Bool, true, false, Option, none, some, List, [], ◌∷◌, length, list_eq, ◌+◌, if◌then◌else◌,
}
use Prim.Native.String.{String}
pub use zenbench.Prelude.Float.{Arith}
use zenbench.Prelude.Float.{Float}
use zenbench.Prelude.Text.{Text, codes}

-- `type Env`
abbrev pub Env : Type 0
Env = List (Text × Option Text)

-- `struct Confirmation`
pub record Confirmation (f : Float) : Type 0 where
  pub margin_pct : f.F
  pub control_margin_pct : f.F
  pub family_confidence : f.F
  pub scope : Text
  pub accept : Text

-- `struct Arm`
pub record Arm : Type 0 where
  pub id : Text
  pub program : Text
  pub args : List Text
  pub cwd : Option Text
  pub env : Env
  pub timeout_seconds : ℕ
  pub revision : Text

-- `struct Case`
pub record Case : Type 0 where
  pub id : Text
  pub fields : List (Text × Text)
  pub inputs : List (Text × Text)

-- `enum Stream`
pub data Stream : Type 0 where
  stdout stderr : Stream

-- `enum Extract`
pub data Extract : Type 0 where
  prefix : (start : Text) → Extract
  tsv : (start : Text) (column : ℕ) → Extract
  json : (start pointer : Text) → Extract
  regex : (pattern : Text) (capture : ℕ) → Extract
  wall : Extract

-- `struct Metric`
pub record Metric (f : Float) : Type 0 where
  pub extract : Extract
  pub stream : Stream
  pub unit : Text
  pub expected : ℕ
  pub divide_by : f.F
  pub resolution : Option f.F

-- `enum Check`
pub data Check : Type 0 where
  files : (paths : List Text) → Check
  json : (start : Text) (pointers : List Text) (stream : Stream) → Check
  command : (program : Text) (args : List Text) (timeout_seconds : ℕ) → Check
  unchecked : (reason : Text) → Check

-- `struct Plan`
pub record PairPlan (f : Float) : Type 0 where
  pub schema : ℕ
  pub confirmation : Option (Confirmation f)
  pub baseline : Arm
  pub candidates : List Arm
  pub cases : List Case
  pub metric : Metric f
  pub check : Check
  pub warmup : Text
  pub blocks : ℕ
  pub aa : Bool
  pub clean_env : Bool
  pub env : Env
  pub record_env : List Text
  pub deadline_seconds : ℕ
  pub settle_ms : ℕ
  pub seed : Option ℕ

-- `usize::from(self.aa)`
abbrev pub usize_from : Bool → ℕ
usize_from false = 0
usize_from true = 1

-- `candidates.len() + 1 + usize::from(aa)`, the number of arms with the baseline
abbrev pub arm_count : {f : Float} → PairPlan f → ℕ
arm_count plan = length plan.candidates + 1 + usize_from plan.aa

-- A resource observation, a JSON object.
pub record Observation : Type 0 where
  pub phase : Option Text
  pub policy : Option Text
  pub clean : Option Bool
  pub ownership_independent_clean : Option Bool
  pub used_for_admission : Option Bool
  pub admission_waiver : Option Text
  pub sample_completed_after_start_ns : Option ℕ
  pub leader_last_alive_after_start_ns : Option ℕ
  pub leader_exit_observed_after_start_ns : Option ℕ

-- `struct Invocation`, less what only the reports read
pub record Invocation (f : Float) : Type 0 where
  pub case_index : ℕ
  pub block : ℕ
  pub arm : ℕ
  pub order : ℕ
  pub status : Text
  pub error : Option Text
  pub values_ns : List f.F
  pub continuation_safe : Bool
  pub observations : List Observation

-- the object that `interval` returns
pub record Interval (f : Float) : Type 0 where
  pub estimate_pct : f.F
  pub lower_pct : f.F
  pub upper_pct : f.F
  pub family_confidence : f.F
  pub comparisons_in_family : ℕ
  pub blocks : ℕ
  pub df : ℕ
  pub log_ratio_sd : f.F
  pub resolution_lower_log : f.F
  pub resolution_upper_log : f.F

-- The issues of a row, the strings of `validity_issues`.
pub data Issue : Type 0 where
  incomplete_blocks : Issue
  unverified_placement : Issue
  unclean_observations : Issue
  unresolved_interval : Issue
  no_contract : Issue
  no_equivalence : Issue

-- A row of `summaries`: the fields that a decision reads.
pub record Summary (f : Float) : Type 0 where
  pub case_id : Text
  pub arm_id : Text
  pub complete_blocks : ℕ
  pub planned_blocks : ℕ
  pub interval : Option (Interval f)
  pub verdict : Text
  pub validity_issues : List Issue
  pub control_equivalent : Option Bool

-- `struct Packet`, less what only the reports read
pub record Packet (f : Float) : Type 0 where
  pub kind : Text
  pub mode : Text
  pub schema : ℕ
  pub plan : PairPlan f
  pub schedule : List (List (List ℕ))
  pub invocations : List (Invocation f)
  pub summaries : List (Summary f)
  pub complete : Bool
  -- `placement["status"]`
  pub placement_status : Option Text
  pub resume_from : Option Text

-- the value of `decision`
pub record Decision : Type 0 where
  pub accepted : Bool
  pub exit_code : ℕ

-- The errors of the plan, of the expansion of a command and of a packet that is read.
pub data PairError : Type 0 where
  unknown_plan_schema missing_parts too_many_invocations too_many_values : PairError
  bad_arm bad_case colliding_fields : PairError
  bad_environment_key : Text → PairError
  unknown_unit bad_divisor bad_resolution bad_confirmation bad_cardinality bad_wall : PairError
  bad_pattern bad_capture : PairError
  bad_check_files no_pointers no_checker_timeout no_reason : PairError
  unterminated_placeholder nul_in_command : PairError
  unknown_placeholder : Text → PairError
  unknown_packet_schema bad_contract false_completion : PairError
  bad_case_schedule bad_block_schedule bad_arm_schedule bad_membership bad_vector : PairError

-- `value == "word"` for a text and for a field of a JSON object
abbrev pub is_word : Text → String → Bool
is_word text word = list_eq text (codes word)

abbrev pub field_is : Option Text → String → Bool
field_is none word = false
field_is (some text) word = is_word text word

-- `value == true` and `value == false` for a field of a JSON object
abbrev pub field_true : Option Bool → Bool
field_true none = false
field_true (some b) = b

abbrev pub field_false : Option Bool → Bool
field_false (some false) = true
field_false _ = false
