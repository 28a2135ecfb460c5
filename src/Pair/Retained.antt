-- ===== src/Pair/Retained.antt =====
-- src/bin/support/pair.rs: `validate_packet`, `load` and the merge of `load_interrupted`, for a
-- packet that is decoded.
use zenbench.Prelude.{
  ℕ, Bool, false, Option, none, some, List, [], ◌∷◌, length, any, all, not, ◌&&◌, ◌||◌, leb, ◌==◌,
  Result, ok, ◌>>◌, fail_if, list_eq, get_elem?, range_from,
}
use zenbench.Prelude.Float.{Float}
use zenbench.Prelude.Sort.{sort}
use zenbench.Prelude.Text.{Text}
use zenbench.Pair.{Arith, Decision, Invocation, Packet, PairError, PairPlan, arm_count, is_word}
use zenbench.Pair.Validate.{validate}
use zenbench.Pair.Complete.{case_complete, is_none}
use zenbench.Pair.Analysis.{summarize}
use zenbench.Pair.Decide.{decision}

-- the membership of an invocation in the experiment: case, block and arm
abbrev pub Key : Type 0
Key = ℕ × ℕ × ℕ

abbrev pub key_eq : Key → Key → Bool
key_eq (c, b, a) (c', b', a') = (c == c') && (b == b') && (a == a')

-- `seen.contains(&key)`
abbrev pub key_seen : List Key → Key → Bool
key_seen seen key = any (λ k. key_eq k key) seen

abbrev get_bind {ℓ} : {A : Type ℓ} → Option (List A) → ℕ → Option A
get_bind none i = none
get_bind (some xs) i = get_elem? xs i

-- `schedule[case][block][order]`
abbrev pub scheduled : List (List (List ℕ)) → ℕ → ℕ → ℕ → Option ℕ
scheduled schedule case_index block order =
    get_bind (get_bind (get_elem? schedule case_index) block) order

abbrev pub option_is : Option ℕ → ℕ → Bool
option_is none a = false
option_is (some b) a = b == a

-- the loop over the orders of a case
unfoldable pub validate_orders : ℕ → List (List ℕ) → Result PairError (Unit {0})
unfolding sort
validate_orders arms [] = ok tt
validate_orders arms (order ∷ orders) = do
  fail_if (not (list_eq (sort order) (range_from 0 arms))) PairError.bad_arm_schedule
  validate_orders arms orders

-- the loop over the cases of a schedule
unfoldable pub validate_schedule : ℕ → ℕ → List (List (List ℕ)) → Result PairError (Unit {0})
unfolding validate_orders
validate_schedule blocks arms [] = ok tt
validate_schedule blocks arms (orders ∷ cases) = do
  fail_if (not (length orders == blocks)) PairError.bad_block_schedule
  validate_orders arms orders
  validate_schedule blocks arms cases

module _ {f : Float} where
  abbrev pub key_of : Invocation f → Key
  key_of i = (i.case_index, i.block, i.arm)

  -- the test of an invocation's membership, after the ones that were seen
  unfoldable pub is_foreign : PairPlan f → List (List (List ℕ)) → List Key → Invocation f → Bool
  is_foreign plan schedule seen i =
      leb (length plan.cases) i.case_index
      || leb plan.blocks i.block
      || leb (arm_count plan) i.order
      || leb (arm_count plan) i.arm
      || not (option_is (scheduled schedule i.case_index i.block i.order) i.arm)
      || key_seen seen (key_of i)

  -- the test of the values of an invocation
  unfoldable pub has_bad_values : PairPlan f → Invocation f → Bool
  has_bad_values plan i =
      is_word i.status "completed"
      && (not (length i.values_ns == plan.metric.expected)
          || any (λ v. not (f.is_finite v) || f.fle v (f.hundredths 0)) i.values_ns)

  -- the loop over the invocations
  unfoldable pub validate_invocations :
      PairPlan f
      → List (List (List ℕ))
      → List Key
      → List (Invocation f)
      → Result PairError (Unit {0})
  unfolding is_foreign has_bad_values
  validate_invocations plan schedule seen [] = ok tt
  validate_invocations plan schedule seen (i ∷ is) = do
    fail_if (is_foreign plan schedule seen i) PairError.bad_membership
    fail_if (has_bad_values plan i) PairError.bad_vector
    validate_invocations plan schedule (key_of i ∷ seen) is

  -- `(0..cases.len()).all(|ci| case_complete(packet, ci))`
  unfoldable pub is_complete : Packet f → Bool
  unfolding case_complete
  is_complete packet = all (case_complete packet) (range_from 0 (length packet.plan.cases))

  -- the test of the retained contract
  unfoldable pub has_bad_contract : Packet f → Bool
  has_bad_contract packet =
      not (is_word packet.mode "iterate" || is_word packet.mode "confirm")
      || (is_word packet.mode "confirm"
          && (is_none packet.plan.confirmation || not (is_none packet.resume_from)))

  -- the test of the kind of a packet
  abbrev pub is_unknown_packet : Packet f → Bool
  is_unknown_packet packet = not (is_word packet.kind "zenbench_pair") || not (packet.schema == 1)

module _ (f : Float) (m : Arith f) where
  -- `packet.summaries = summarize(&packet);`
  abbrev pub summarized : Packet f → Packet f
  summarized packet = record packet { summaries = summarize f m packet }

module _ (captures_len : Text → Option ℕ) (is_normal : Text → Bool) (f : Float) (m : Arith f) where
  -- `validate_packet`
  unfoldable pub validate_packet : Packet f → Result PairError (Unit {0})
  unfolding validate has_bad_contract is_complete validate_schedule validate_invocations
  validate_packet packet = do
    fail_if (is_unknown_packet packet) PairError.unknown_packet_schema
    validate captures_len is_normal f m packet.plan
    fail_if (has_bad_contract packet) PairError.bad_contract
    fail_if (packet.complete && not (is_complete packet)) PairError.false_completion
    fail_if (not (length packet.schedule == length packet.plan.cases)) PairError.bad_case_schedule
    validate_schedule packet.plan.blocks (arm_count packet.plan) packet.schedule
    validate_invocations packet.plan packet.schedule [] packet.invocations

  -- `load` of a decoded packet: the packet with its summaries, and its decision
  unfoldable pub load : Packet f → Result PairError (Packet f × Decision)
  unfolding validate_packet summarize decision
  load packet = do
    fail_if (is_unknown_packet packet) PairError.unknown_packet_schema
    validate_packet packet
    ok (summarized f m packet, decision (summarized f m packet))
