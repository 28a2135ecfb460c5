-- ===== src/Pair/Analysis.antt =====
-- src/bin/support/pair/analysis.rs: `summarize`, the rows that summarize a packet.
use zenbench.Prelude.{
  ℕ, ◌+◌, ◌*◌, ◌-◌, Bool, false, Option, none, some, List, [], ◌∷◌, ◌++◌, length, map, any, find,
  if◌then◌else◌, not, ◌&&◌, ◌||◌, ◌==◌, range_from, Result, ok, err,
}
use zenbench.Prelude.Float.{Float}
use zenbench.Prelude.Text.{Text, codes}
use zenbench.Pair.{
  Arith, Case, Confirmation, Interval, Invocation, Issue, Metric, Packet, PairError, PairPlan,
  Summary, arm_count, is_word,
}
use zenbench.Pair.Intervals.{mean, interval, classify, scale}
use zenbench.Pair.Complete.{
  is_none, last, block_rows, case_issues, is_completed, push_if, is_empty_issues, arm_id_of,
}

module _ (f : Float) (m : Arith f) where
  open f use {F, fle, hundredths}
  open m use {mul, neg}

  -- `mean(&rows.iter().find(|i| i.arm == arm).unwrap().values_ns)`; a row that is missing is a
  -- panic in the code, here it has no values
  abbrev arm_mean : List (Invocation f) → ℕ → F
  arm_mean rows arm = elim (find (λ i. i.arm == arm) rows) [
    | none ↦ mean f m []
    | some i ↦ mean f m i.values_ns
  ]

  -- the loop over the blocks: the means of an arm in the blocks that are complete
  unfoldable pub collect : Packet f → ℕ → ℕ → List ℕ → List F
  unfolding mean
  collect packet case_index arm [] = []
  collect packet case_index arm (block ∷ blocks) =
      let rows = block_rows packet case_index block in
      if not (length rows == arm_count packet.plan) || any (λ i. not (is_completed i)) rows
      then collect packet case_index arm blocks
      else arm_mean rows arm ∷ collect packet case_index arm blocks

  abbrev pub collected : Packet f → ℕ → ℕ → List F
  collected packet case_index arm = collect packet case_index arm (range_from 0 packet.plan.blocks)

  abbrev or_zero : Option F → F
  or_zero none = hundredths 0
  or_zero (some a) = a

  abbrev scale_or_zero : Result PairError F → F
  scale_or_zero (err e) = hundredths 0
  scale_or_zero (ok a) = a

  -- the resolution in nanoseconds
  abbrev pub resolution_of : Metric f → F
  resolution_of metric = mul (or_zero metric.resolution) (scale_or_zero (scale f m metric))

  -- `family`
  abbrev pub family_of : PairPlan f → ℕ
  family_of plan = length plan.cases * (arm_count plan - 1)

  -- the interval of an arm under a confirmation
  abbrev pub arm_interval : Packet f → Confirmation f → ℕ → ℕ → Option (Interval f)
  arm_interval packet c case_index arm =
      interval f m (collected packet case_index 0) (collected packet case_index arm)
        (resolution_of packet.plan.metric) c.family_confidence (family_of packet.plan)

  abbrev pub unless_empty : List Issue → Text → Text
  unless_empty issues verdict = if is_empty_issues issues then verdict else codes "invalid"

  -- interval, verdict and issues of an arm of a packet that confirms
  unfoldable pub confirmed :
      Packet f → Option (Confirmation f) → ℕ → ℕ → Option (Interval f) × Text × List Issue
  unfolding interval classify case_issues collect scale
  confirmed packet none case_index arm =
      (none, codes "invalid", case_issues packet case_index ++ Issue.no_contract ∷ [])
  confirmed packet (some c) case_index arm =
      let i = arm_interval packet c case_index arm in
      let issues = case_issues packet case_index ++ push_if (is_none i) Issue.unresolved_interval in
      (i, unless_empty issues (classify f m i c.margin_pct), issues)

  -- the row of an arm
  unfoldable pub arm_row : Packet f → ℕ → Case → ℕ → Summary f
  unfolding confirmed collect
  arm_row packet case_index case_ arm =
      let (i, verdict, issues) =
        if is_word packet.mode "confirm"
        then confirmed packet packet.plan.confirmation case_index arm
        else (none, codes "exploratory", []) in
      record {
        case_id = case_.id;
        arm_id = arm_id_of packet.plan arm;
        complete_blocks = length (collected packet case_index arm);
        planned_blocks = packet.plan.blocks;
        interval = i;
        verdict = verdict;
        validity_issues = issues;
        control_equivalent = none;
      }

  abbrev pub control_margin : Option (Confirmation f) → F
  control_margin none = hundredths 0
  control_margin (some c) = c.control_margin_pct

  -- `v >= -margin` of the lower end and `v <= margin` of the upper one
  abbrev pub is_within : Option (Interval f) → F → Bool
  is_within none margin = false
  is_within (some i) margin = fle (neg margin) i.lower_pct && fle i.upper_pct margin

  -- `equivalent`, of the control's row
  unfoldable pub is_equivalent : Summary f → F → Bool
  is_equivalent control margin =
      not (is_word control.verdict "invalid") && is_within control.interval margin

  -- the loop that marks the rows of a case
  unfoldable pub mark_row : Bool → Summary f → Summary f
  mark_row equivalent row =
      let marked = record row { control_equivalent = some equivalent } in
      if not (is_word row.verdict "invalid") && not equivalent
      then record marked {
        verdict = codes "inconclusive";
        validity_issues = row.validity_issues ++ Issue.no_equivalence ∷ [];
      }
      else marked

  -- the last part of `summarize`, on the rows of one case; a case without an arm has no row to
  -- mark
  unfoldable pub mark_rows : Packet f → List (Summary f) → List (Summary f)
  unfolding is_equivalent mark_row
  mark_rows packet rows =
      if is_word packet.mode "confirm"
      then elim (last rows) [
        | none ↦ rows
        | some control ↦
            map (mark_row (is_equivalent control (control_margin packet.plan.confirmation))) rows
      ]
      else rows

  -- the body of the loop over the cases
  unfoldable pub summarize_case : Packet f → ℕ → Case → List (Summary f)
  unfolding arm_row mark_rows
  summarize_case packet case_index case_ =
      mark_rows packet
        (map (arm_row packet case_index case_) (range_from 1 (arm_count packet.plan - 1)))

  -- the loop over the cases, from an index on
  unfoldable pub summarize_from : Packet f → ℕ → List Case → List (Summary f)
  unfolding summarize_case
  summarize_from packet case_index [] = []
  summarize_from packet case_index (c ∷ cs) =
      summarize_case packet case_index c ++ summarize_from packet (case_index + 1) cs

  -- `summarize`
  unfoldable pub summarize : Packet f → List (Summary f)
  unfolding summarize_from
  summarize packet = summarize_from packet 0 packet.plan.cases
