-- ===== src/Pair/Decide.antt =====
-- src/bin/support/pair/analysis.rs, `exit_code`, and src/bin/support/pair.rs, `decision`.
use zenbench.Prelude.{
  ℕ, Bool, true, false, Option, none, some, List, [], ◌∷◌, all, any, keep, if◌then◌else◌, not, ◌&&◌,
  ◌||◌, ◌==◌,
}
use zenbench.Prelude.Float.{Float}
use zenbench.Prelude.Text.{Text}
use zenbench.Pair.{Confirmation, Decision, Packet, Summary, is_word}

-- whether a verdict is in the family that the plan accepts
unfoldable pub is_accepted : Text → Text → Bool
is_accepted accept verdict =
    if is_word accept "improvement"
    then is_word verdict "improvement"
    else if is_word accept "equivalence"
    then is_word verdict "equivalent"
    else if is_word accept "non_inferiority"
    then is_word verdict "improvement"
      || is_word verdict "equivalent"
      || is_word verdict "non_inferior"
    else false

module _ {f : Float} where
  -- the rows that are not controls
  abbrev pub compared : Packet f → List (Summary f)
  compared packet = keep (λ s. not (is_word s.arm_id "__aa")) packet.summaries

  abbrev is_undecided : Summary f → Bool
  is_undecided s =
      is_word s.verdict "invalid"
      || is_word s.verdict "inconclusive"
      || is_word s.verdict "exploratory"

  abbrev pub accept_of : Option (Confirmation f) → Text
  accept_of none = []
  accept_of (some c) = c.accept

  abbrev no_rows : List (Summary f) → Bool
  no_rows [] = true
  no_rows (s ∷ ss) = false

  -- `exit_code`
  unfoldable pub exit_code : Packet f → ℕ
  unfolding is_accepted
  exit_code packet =
      if not packet.complete
      then 2
      else if is_word packet.mode "iterate"
      then 0
      else if no_rows (compared packet) || any is_undecided (compared packet)
      then 2
      else if any (λ s. is_word s.verdict "regression") (compared packet)
      then 1
      else if all (λ s. is_accepted (accept_of packet.plan.confirmation) s.verdict)
          (compared packet)
      then 0
      else 2

  -- `decision`
  unfoldable pub decision : Packet f → Decision
  unfolding exit_code
  decision packet = record {
    accepted = is_word packet.mode "confirm" && (exit_code packet == 0);
    exit_code = exit_code packet;
  }
