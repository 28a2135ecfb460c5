-- ===== src/Pair/Membership.antt =====
-- src/bin/support/pair.rs: the packets that `validate_packet` accepts.
use zenbench.Prelude.{
  ℕ, ◌<◌, ◌≡◌, ap, Bool, true, false, Option, none, some, List, [], ◌∷◌, length, any, All, not,
  ◌&&◌, ◌||◌, leb, ◌==◌, ==_iff, arith, ok, list_eq, list_eq→eq, range_from, guard-eq-ok, >>=-eq-ok,
  implied,
}
use zenbench.Prelude.Float.{Float}
use zenbench.Prelude.Sort.{sort}
use zenbench.Prelude.Text.{Text}
use zenbench.Pair.{Arith, Invocation, Packet, PairPlan, arm_count, is_word}
use zenbench.Pair.Validate.{validate}
use zenbench.Pair.Complete.{is_none}
use zenbench.Pair.Retained.{
  Key, has_bad_contract, has_bad_values, is_complete, is_foreign, is_unknown_packet, key_of,
  key_seen, option_is, scheduled, validate_invocations, validate_orders, validate_packet,
  validate_schedule,
}

-- Each of the keys is not among the ones before it nor among those that were seen.
abbrev pub IsDistinct : List Key → List Key → Type 0
IsDistinct seen [] = Unit
IsDistinct seen (k ∷ ks) = (key_seen seen k ≡ false) × IsDistinct (k ∷ seen) ks

abbrev pub keys : {f : Float} → List (Invocation f) → List Key
keys [] = []
keys (i ∷ is) = key_of i ∷ keys is

-- The schedule of a case: the planned number of blocks, each with every arm once, in some order.
abbrev pub IsScheduled : ℕ → ℕ → List (List ℕ) → Type 0
IsScheduled blocks arms orders =
    (length orders ≡ blocks) × All (λ order. sort order ≡ range_from 0 arms) orders

six_false :
    (a b c d e g : Bool)
    → (a || b || c || d || not e || g) ≡ false
    → (a ≡ false) × (b ≡ false) × (c ≡ false) × (d ≡ false) × (e ≡ true) × (g ≡ false)
six_false a b c d e g h = ground arith

not_le : (a b : ℕ) → leb a b ≡ false → b < a
not_le a b h = ground arith

option_is-some : (o : Option ℕ) (a : ℕ) → option_is o a ≡ true → o ≡ some a
option_is-some none a h = cc
option_is-some (some b) a h = ap some ((==_iff b a).0 h)

values_good :
    (n m : ℕ) (done bad : Bool)
    → (done && (not (n == m) || bad)) ≡ false
    → done ≡ true
    → (n ≡ m) × (bad ≡ false)
values_good n m done bad h d = ground arith

module _ {f : Float} where
  -- An invocation of the experiment: a planned case, block and arm, at the place of the schedule
  -- that has this arm; and the values of a completed one are as many as planned, finite and
  -- positive.
  pub record IsMember (plan : PairPlan f) (schedule : List (List (List ℕ))) (i : Invocation f)
      : Type 0 where
    pub planned_case : i.case_index < length plan.cases
    pub planned_block : i.block < plan.blocks
    pub planned_order : i.order < arm_count plan
    pub planned_arm : i.arm < arm_count plan
    pub placed : scheduled schedule i.case_index i.block i.order ≡ some i.arm
    pub measured :
        is_word i.status "completed" ≡ true
        → (length i.values_ns ≡ plan.metric.expected)
          × (any (λ v. not (f.is_finite v) || f.fle v (f.hundredths 0)) i.values_ns ≡ false)

  is_foreign-IsMember :
      (plan : PairPlan f) (schedule : List (List (List ℕ))) (seen : List Key) (i : Invocation f)
      → is_foreign plan schedule seen i ≡ false
      → has_bad_values plan i ≡ false
      → IsMember plan schedule i × (key_seen seen (key_of i) ≡ false)
  unfolding is_foreign has_bad_values
  is_foreign-IsMember plan schedule seen i h g =
      let (a, b, c, d, e, fresh) =
        six_false (leb (length plan.cases) i.case_index) (leb plan.blocks i.block)
          (leb (arm_count plan) i.order) (leb (arm_count plan) i.arm)
          (option_is (scheduled schedule i.case_index i.block i.order) i.arm)
          (key_seen seen (key_of i)) h in
      (
        record {
          planned_case = not_le _ _ a;
          planned_block = not_le _ _ b;
          planned_order = not_le _ _ c;
          planned_arm = not_le _ _ d;
          placed = option_is-some _ _ e;
          measured = values_good _ _ _ _ g;
        },
        fresh,
      )

  validate_invocations-IsMember :
      (plan : PairPlan f) (schedule : List (List (List ℕ))) (seen : List Key)
      (is : List (Invocation f)) {u : Unit {0}}
      → validate_invocations plan schedule seen is ≡ ok u
      → All (IsMember plan schedule) is × IsDistinct seen (keys is)
  unfolding validate_invocations
  validate_invocations-IsMember plan schedule seen [] h = (tt, tt)
  validate_invocations-IsMember plan schedule seen (i ∷ is) h =
      let (own, e1) = guard-eq-ok (is_foreign plan schedule seen i) _ _ h in
      let (good, e2) = guard-eq-ok (has_bad_values plan i) _ _ e1 in
      let (member, fresh) = is_foreign-IsMember plan schedule seen i own good in
      let (members, distinct) =
        validate_invocations-IsMember plan schedule (key_of i ∷ seen) is e2 in
      ((member, members), (fresh, distinct))

of_not : (b : Bool) → not b ≡ false → b ≡ true
of_not b h = ground arith

validate_orders-sorted :
    (arms : ℕ) (orders : List (List ℕ)) {u : Unit {0}}
    → validate_orders arms orders ≡ ok u
    → All (λ order. sort order ≡ range_from 0 arms) orders
unfolding validate_orders
validate_orders-sorted arms [] h = tt
validate_orders-sorted arms (order ∷ orders) h =
    let (same, e1) = guard-eq-ok (not (list_eq (sort order) (range_from 0 arms))) _ _ h in
    (list_eq→eq _ _ (of_not _ same), validate_orders-sorted arms orders e1)

validate_schedule-IsScheduled :
    (blocks arms : ℕ) (schedule : List (List (List ℕ))) {u : Unit {0}}
    → validate_schedule blocks arms schedule ≡ ok u
    → All (IsScheduled blocks arms) schedule
unfolding validate_schedule
validate_schedule-IsScheduled blocks arms [] h = tt
validate_schedule-IsScheduled blocks arms (orders ∷ rest) h =
    let (count, e1) = guard-eq-ok (not (length orders == blocks)) _ _ h in
    let (_, valid, e2) = >>=-eq-ok (validate_orders arms orders) _ e1 in
    (
      ((==_iff _ _).0 (of_not _ count), validate_orders-sorted arms orders valid),
      validate_schedule-IsScheduled blocks arms rest e2,
    )

confirm_only :
    (iterates confirms missing resumed : Bool)
    → (not (iterates || confirms) || (confirms && (missing || not resumed))) ≡ false
    → confirms ≡ true
    → (missing ≡ false) × (resumed ≡ true)
confirm_only iterates confirms missing resumed h c = ground arith

module _ (captures_len : Text → Option ℕ) (is_normal : Text → Bool) (f : Float) (m : Arith f) where
  -- What a retained packet is held to.
  pub record IsRetained (packet : Packet f) : Type 0 where
    pub known : is_unknown_packet packet ≡ false
    pub planned : validate captures_len is_normal f m packet.plan ≡ ok tt
    -- a confirmation has its contract, and is one attempt
    pub contracted :
        is_word packet.mode "confirm" ≡ true
        → (is_none packet.plan.confirmation ≡ false) × (is_none packet.resume_from ≡ true)
    pub completed : packet.complete ≡ true → is_complete packet ≡ true
    pub cases_scheduled : length packet.schedule ≡ length packet.plan.cases
    pub scheduled : All (IsScheduled packet.plan.blocks (arm_count packet.plan)) packet.schedule
    pub members : All (IsMember packet.plan packet.schedule) packet.invocations
    pub distinct : IsDistinct [] (keys packet.invocations)

  -- A packet that passes its validation: its plan is valid, a confirmation has a contract and is
  -- not resumed, a packet that claims to be complete is, every block is scheduled with each arm
  -- once, and every invocation is a planned one at its place of the schedule, the only one of its
  -- case, block and arm, with finite and positive values in the planned number where it is
  -- completed.
  pub validate_packet-IsRetained :
      (packet : Packet f)
      → validate_packet captures_len is_normal f m packet ≡ ok tt
      → IsRetained packet
  unfolding validate_packet has_bad_contract
  validate_packet-IsRetained packet h =
      let (known, e1) = guard-eq-ok (is_unknown_packet packet) _ _ h in
      let (_, planned, e2) = >>=-eq-ok (validate captures_len is_normal f m packet.plan) _ e1 in
      let (contract, e3) = guard-eq-ok (has_bad_contract packet) _ _ e2 in
      let (completed, e4) = guard-eq-ok (packet.complete && not (is_complete packet)) _ _ e3 in
      let (count, e5) =
        guard-eq-ok (not (length packet.schedule == length packet.plan.cases)) _ _ e4 in
      let (_, orders, e6) =
        >>=-eq-ok (validate_schedule packet.plan.blocks (arm_count packet.plan) packet.schedule) _
          e5 in
      let (members, distinct) =
        validate_invocations-IsMember packet.plan packet.schedule [] packet.invocations e6 in
      record {
        known = known;
        planned = planned;
        contracted =
            confirm_only (is_word packet.mode "iterate") (is_word packet.mode "confirm")
              (is_none packet.plan.confirmation) (is_none packet.resume_from) contract;
        completed = implied packet.complete (is_complete packet) completed;
        cases_scheduled = (==_iff _ _).0 (of_not _ count);
        scheduled = validate_schedule-IsScheduled _ _ packet.schedule orders;
        members = members;
        distinct = distinct;
      }
