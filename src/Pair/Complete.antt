-- ===== src/Pair/Complete.antt =====
-- src/bin/support/pair.rs, `case_complete`, and src/bin/support/pair/analysis.rs, the tests of a
-- case that confirms.
use zenbench.Prelude.{
  ℕ, ◌*◌, ◌-◌, Bool, true, false, Option, none, some, List, [], ◌∷◌, ◌++◌, length, all, any, keep,
  get_elem?, if◌then◌else◌, not, ◌&&◌, ◌||◌, ltb, ◌==◌,
}
use zenbench.Prelude.Float.{Float}
use zenbench.Prelude.Text.{Text, codes}
use zenbench.Pair.{
  Invocation, Issue, Observation, Packet, PairPlan, arm_count, field_false, field_is, field_true,
  is_word,
}

abbrev pub is_none {ℓ} : {A : Type ℓ} → Option A → Bool
is_none none = true
is_none (some a) = false

-- the test of one observation in `summarize`, which reports those that are true
unfoldable pub is_rejected : Observation → Bool
is_rejected o =
    if field_is o.phase "exit_transition" || field_is o.phase "start_transition"
    then not (field_false o.used_for_admission)
    else not (field_true o.clean)
      || not (field_is o.policy "whole-host-strict-v1")
      || not (field_true o.used_for_admission)

-- the test of the observations of one invocation
unfoldable pub is_unclean : List Observation → Bool
unfolding is_rejected
is_unclean observations =
    ltb (length observations) 3
    || not (any (λ o. field_is o.phase "during") observations)
    || any is_rejected observations

-- `summaries.get(len - 1)`
abbrev pub last {ℓ} : {A : Type ℓ} → List A → Option A
last [] = none
last (x ∷ []) = some x
last (x ∷ y ∷ ys) = last (y ∷ ys)

abbrev pub push_if : Bool → Issue → List Issue
push_if false issue = []
push_if true issue = issue ∷ []

abbrev pub is_empty_issues : List Issue → Bool
is_empty_issues [] = true
is_empty_issues (i ∷ is) = false

module _ {f : Float} where
  -- `invocations.iter().filter(|i| i.case == case)`
  abbrev pub case_rows : Packet f → ℕ → List (Invocation f)
  case_rows packet case_index = keep (λ i. i.case_index == case_index) packet.invocations

  abbrev pub is_completed : Invocation f → Bool
  is_completed i = is_word i.status "completed"

  -- `case_complete`
  unfoldable pub case_complete : Packet f → ℕ → Bool
  case_complete packet case_index =
      (length (case_rows packet case_index) == packet.plan.blocks * arm_count packet.plan)
      && all is_completed (case_rows packet case_index)

  -- the invocations of a block
  abbrev pub block_rows : Packet f → ℕ → ℕ → List (Invocation f)
  block_rows packet case_index block =
      keep (λ i. (i.case_index == case_index) && (i.block == block)) packet.invocations

  -- `matches!(packet.placement["status"].as_str(), ..)`
  abbrev pub is_placed : Packet f → Bool
  is_placed packet =
      field_is packet.placement_status "uniform_hardware"
      || field_is packet.placement_status "enforced_uniform"

  -- the issues of a case that confirms, before its interval
  unfoldable pub case_issues : Packet f → ℕ → List Issue
  unfolding case_complete is_unclean
  case_issues packet case_index =
      push_if (not (case_complete packet case_index)) Issue.incomplete_blocks
      ++ (push_if (not (is_placed packet)) Issue.unverified_placement
          ++ push_if (any (λ i. is_unclean i.observations) (case_rows packet case_index))
              Issue.unclean_observations)

  -- `arm == candidates.len() + 1` is the control
  abbrev pub arm_id_of : PairPlan f → ℕ → Text
  arm_id_of plan arm = elim (get_elem? plan.candidates (arm - 1)) [
    | none ↦ codes "__aa"
    | some a ↦ a.id
  ]
