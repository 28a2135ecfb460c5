-- ===== src/Pair/Tests.antt =====
-- Tests of the paired comparison's model, and the witnesses of its theorems. Floats are whole
-- hundredths, with a logarithm that is linear.
use zenbench.Prelude.{
  ℕ, ◌≡◌, refl, Bool, true, false, Option, none, some, List, [], length, ◌∷◌, ◌++◌, get_elem?, ok,
  err, any, all, not, ◌&&◌, ◌||◌, ◌>>=◌,
}
use zenbench.Prelude.Float.{linear, whole}
use zenbench.Prelude.Text.{Text, codes}
use zenbench.Pair.{
  Arm, Case, Check, Confirmation, Extract, Invocation, Observation, Packet, PairError, PairPlan,
  Stream,
}
use zenbench.Pair.Accepted.{IsAcceptedCase, load-accepted}
use zenbench.Pair.Retained.{is_complete, load, summarized, validate_packet, validate_schedule}
use zenbench.Pair.Membership.{IsRetained, validate_packet-IsRetained}
use zenbench.Pair.Schedule.{schedule}
use zenbench.Pair.Permuted.{schedule-valid}
use native.Mathlib.Omega.{arith}
use zenbench.Pair.Validate.{validate}
use zenbench.Pair.Expand.{
  IsTemplate, Template, expand, expand_exact, render, substitute, without_nul,
}
use zenbench.Pair.Observe.{Lifecycle, finish_resource_observations, is_observed, no_windows}
use zenbench.Pair.Observed.{finish_resource_observations-admissible, is_admissible}
use zenbench.Pair.Complete.{is_rejected}

abbrev arm : Text → Arm
arm id = record {
  id = id;
  program = codes "fixture";
  args = [];
  cwd = none;
  env = [];
  timeout_seconds = 30;
  revision = codes "oracle";
}

abbrev contract : Confirmation whole
contract = record {
  margin_pct = 100;
  control_margin_pct = 100;
  family_confidence = 95;
  scope = codes "oracle";
  accept = codes "non_inferiority";
}

abbrev one_case : Case
one_case = record { id = codes "one"; fields = []; inputs = [] }

abbrev plan : PairPlan whole
plan = record {
  schema = 1;
  confirmation = some contract;
  baseline = arm (codes "base");
  candidates = arm (codes "edit") ∷ [];
  cases = one_case ∷ [];
  metric = record {
    extract = Extract.prefix (codes "TIME ");
    stream = Stream.stdout;
    unit = codes "ns";
    expected = 2;
    divide_by = 100;
    resolution = some 1;
  };
  check = Check.files (codes "result.bin" ∷ []);
  warmup = codes "fixture";
  blocks = 5;
  aa = true;
  clean_env = false;
  env = [];
  record_env = [];
  deadline_seconds = 300;
  settle_ms = 0;
  seed = none;
}

abbrev window : Text → Observation
window phase = record {
  phase = some phase;
  policy = some (codes "whole-host-strict-v1");
  clean = some true;
  ownership_independent_clean = some true;
  used_for_admission = some true;
  admission_waiver = none;
  sample_completed_after_start_ns = none;
  leader_last_alive_after_start_ns = none;
  leader_exit_observed_after_start_ns = none;
}

abbrev invocation : ℕ → ℕ → Invocation whole
invocation block a = record {
  case_index = 0;
  block = block;
  arm = a;
  order = a;
  status = codes "completed";
  error = none;
  values_ns = 9_000 ∷ 11_000 ∷ [];
  continuation_safe = true;
  observations =
      window (codes "boundary") ∷ window (codes "during") ∷ window (codes "boundary") ∷ [];
}

abbrev block_of : ℕ → List (Invocation whole)
block_of block = invocation block 0 ∷ invocation block 1 ∷ invocation block 2 ∷ []

abbrev order : List ℕ
order = 0 ∷ 1 ∷ 2 ∷ []

abbrev packet : Packet whole
packet = record {
  kind = codes "zenbench_pair";
  mode = codes "confirm";
  schema = 1;
  plan = plan;
  schedule = (order ∷ order ∷ order ∷ order ∷ order ∷ []) ∷ [];
  invocations = block_of 0 ++ (block_of 1 ++ (block_of 2 ++ (block_of 3 ++ block_of 4)));
  summaries = [];
  complete = true;
  placement_status = some (codes "enforced_uniform");
  resume_from = none;
}

abbrev groups : Text → Option ℕ
groups pattern = some 1

abbrev plain : Text → Bool
plain path = true

packet-loads :
    load groups plain whole linear packet
    ≡ ok (summarized whole linear packet, record { accepted = true; exit_code = 0 })
unfolding load
packet-loads = refl

load-accepted_example :
    (c : Confirmation whole) × (packet.plan.confirmation ≡ some c)
    × (is_complete packet ≡ true)
    × ((k : ℕ) (case_ : Case)
        → get_elem? packet.plan.cases k ≡ some case_
        → IsAcceptedCase whole linear packet c k)
load-accepted_example =
    load-accepted groups plain whole linear packet (summarized whole linear packet)
      (record { accepted = true; exit_code = 0 }) packet-loads refl

packet-valid : validate_packet groups plain whole linear packet ≡ ok tt
unfolding validate_packet
packet-valid = refl

-- What the plan's validation refuses: a confirmation with too few blocks.
few_blocks :
    validate groups plain whole linear (record plan { blocks = 4 }) ≡ err PairError.bad_confirmation
unfolding validate
few_blocks = refl

abbrev fields : List (Text × Text)
fields = (codes "input", codes "a b; ${nested}") ∷ []

expands : expand fields (codes "--file=${input}.") ≡ ok (codes "--file=a b; ${nested}.")
unfolding expand
expands = refl

unknown_field :
    expand fields (codes "${missing}") ≡ err (PairError.unknown_placeholder (codes "missing"))
unfolding expand
unknown_field = refl

unclosed_field : expand fields (codes "${input") ≡ err PairError.unterminated_placeholder
unfolding expand
unclosed_field = refl

expand_exact_example :
    ((t : Template)
      → IsTemplate t
      → expand fields (render t) ≡ (substitute fields t >>= without_nul))
    × ((text : Text) → (t : Template) × IsTemplate t × (render t ≡ text))
expand_exact_example = expand_exact fields

validate_packet-IsRetained_example : IsRetained groups plain whole linear packet
validate_packet-IsRetained_example =
    validate_packet-IsRetained groups plain whole linear packet packet-valid

-- An invocation that is retained twice is refused.
repeated :
    validate_packet groups plain whole linear
      (record packet { invocations = invocation 0 0 ∷ packet.invocations; complete = false })
    ≡ err PairError.bad_membership
unfolding validate_packet
repeated = refl

schedule-valid_example :
    (s : List (List (List ℕ))) × (schedule 1 2 3 1 ≡ some s)
    × (length s ≡ 1)
    × (validate_schedule 2 3 s ≡ ok tt)
schedule-valid_example = schedule-valid 1 2 3 1 (omega arith) (omega arith)

-- The orders that the generator makes of the seed 1.
seed_one : schedule 1 2 3 1 ≡ some (((0 ∷ 1 ∷ 2 ∷ []) ∷ (2 ∷ 1 ∷ 0 ∷ []) ∷ []) ∷ [])
unfolding schedule
seed_one = refl

abbrev lived : Lifecycle
lived = record { last_alive = some 40; exit_observed = some 60 }

abbrev loaded_window : Observation
loaded_window = record (window (codes "during")) { clean = some false }

abbrev windows : List (ℕ × Observation)
windows = (30, window (codes "during")) ∷ (70, loaded_window) ∷ []

finish_resource_observations-admissible_example :
    any is_rejected (finish_resource_observations windows lived 10)
    ≡ not (
        all (is_admissible lived) windows
        && (no_windows windows || is_observed lived.last_alive lived.exit_observed))
finish_resource_observations-admissible_example =
    finish_resource_observations-admissible windows lived 10

-- The window that ends after the exit is admitted with its load, the one before it is not.
late_window : any is_rejected (finish_resource_observations windows lived 10) ≡ false
unfolding finish_resource_observations is_rejected
late_window = refl

early_window :
    any is_rejected (finish_resource_observations ((50, loaded_window) ∷ []) lived 10) ≡ true
unfolding finish_resource_observations is_rejected
early_window = refl
