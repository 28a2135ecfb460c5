-- ===== src/Pair/Accepted.antt =====
-- src/bin/support/pair.rs: `load` and `decision`, for a packet that confirms.
use zenbench.Prelude.{
  ℕ, zero, suc, ◌+◌, ◌-◌, ◌<◌, ◌≡◌, ◌≢◌, refl, sym, ◌∙◌, ap, subst, Bool, true, false, Option, none,
  some, List, [], ◌∷◌, ◌++◌, length, all, keep, All, if◌then◌else◌, not, ◌&&◌, ◌||◌, ◌==◌, arith,
  inl, inr, Bool-cases, if-true, if-false, &&-eq-true, list_eq→eq, get_elem?, ok, ==_iff, implied,
  guard-eq-ok, >>=-eq-ok, ok-injective,
}
use zenbench.Prelude.Float.{Float}
use zenbench.Prelude.Text.{Text, codes}
use zenbench.Pair.{
  Arith, Arm, Case, Confirmation, Decision, Packet, PairPlan, Summary, usize_from, is_word,
}
use zenbench.Pair.Validate.{validate}
use zenbench.Pair.Complete.{is_none, arm_id_of}
use zenbench.Pair.Analysis.{summarize, summarize_from, summarize_case}
use zenbench.Pair.Decide.{accept_of, decision, exit_code, is_accepted}
use zenbench.Pair.Retained.{
  has_bad_contract, is_complete, load, validate_packet, is_unknown_packet, summarized,
}
use zenbench.Pair.Rows.{IsConfirmed, IsControlled, IsDecided, RowAccepted, is_none-some}
use zenbench.Pair.Confirmed.{summarize_case-accepted}
use zenbench.Pair.Sound.{contracted-aa, validate-IsSound}

-- The nested tests of the exit code of a packet that does not iterate.
zero_code :
    (complete iterates undecided regression accepted : Bool)
    → Path ℕ
        (if not complete
          then 2
          else if iterates
          then 0
          else if undecided
          then 2
          else if regression
          then 1
          else if accepted
          then 0
          else 2)
        0
    → iterates ≡ false
    → (complete ≡ true) × (accepted ≡ true)
zero_code complete iterates undecided regression accepted e h = ground arith

true-not-false : (b : Bool) → b ≡ true → b ≢ false
true-not-false b h g = cc

all-keep {ℓ} :
    {A : Type ℓ} (p q : A → Bool) (xs : List A)
    → all q (keep (λ a. not (p a)) xs) ≡ true
    → All (λ a. p a ≡ false → q a ≡ true) xs
all-keep p q [] h = tt
all-keep p q (x ∷ xs) h = elim (Bool-cases (p x)) [
  | inl skipped ↦ (
    λ kept. absurd (true-not-false _ skipped kept),
    all-keep p q xs (subst (λ l. all q l ≡ true) (if-false _ _ (ap not skipped)) h),
  )
  | inr kept ↦
      let (here, rest) =
        &&-eq-true _ _ (subst (λ l. all q l ≡ true) (if-true _ _ (ap not kept)) h) in
      (λ _. here, all-keep p q xs rest)
]

All-append {ℓ κ} :
    {A : Type ℓ} (P : A → Type κ) (xs ys : List A) → All P (xs ++ ys) → All P xs × All P ys
All-append P [] ys h = (tt, h)
All-append P (x ∷ xs) ys (p, h) = let (a, b) = All-append P xs ys h in ((p, a), b)

All-get {ℓ κ} :
    {A : Type ℓ} (P : A → Type κ) (xs : List A) (i : ℕ)
    → All P xs
    → i < length xs
    → (a : A) × (get_elem? xs i ≡ some a) × P a
All-get P [] i h less = absurd (omega (arith, less))
All-get P (x ∷ xs) zero (p, h) less = (x, refl, p)
All-get P (x ∷ xs) (suc i) (p, h) less = All-get P xs i h (omega (arith, less))

not-both : (mode : Text) → is_word mode "confirm" ≡ true → is_word mode "iterate" ≡ false
not-both mode h =
    subst (λ t. is_word t "iterate" ≡ false) (sym (list_eq→eq mode (codes "confirm") h)) refl

arm_id_of-get :
    {f : Float} (plan : PairPlan f) (arm : ℕ) (a : Arm)
    → get_elem? plan.candidates arm ≡ some a
    → arm_id_of plan (1 + arm) ≡ a.id
arm_id_of-get plan arm a found =
    subst (λ n. elim (get_elem? plan.candidates n) [ none ↦ codes "__aa" | some b ↦ b.id ] ≡ a.id)
      (index arm) (rw (found) refl)
  where
    index : (n : ℕ) → n ≡ (1 + n) - 1
    index n = omega arith

positive : (n : ℕ) → n ≢ 0 → 0 < n
positive n h = ground arith

module _ (f : Float) (m : Arith f) where
  summarize_from-case :
      (P : Summary f → Type 0) (packet : Packet f) (start : ℕ) (cases : List Case) (k : ℕ)
      (c : Case)
      → All P (summarize_from f m packet start cases)
      → get_elem? cases k ≡ some c
      → All P (summarize_case f m packet (start + k) c)
  unfolding summarize_from
  summarize_from-case P packet start [] k c h e = cc
  summarize_from-case P packet start (x ∷ xs) zero c h e =
      let here = (All-append P (summarize_case f m packet start x) _ h).0 in
      let same : x ≡ c = cc in
      subst (λ y. All P (summarize_case f m packet (start + 0) y)) same
        (subst (λ n. All P (summarize_case f m packet n x)) (omega arith) here)
  summarize_from-case P packet start (x ∷ xs) (suc k) c h e =
      let rest = (All-append P (summarize_case f m packet start x) _ h).1 in
      subst (λ n. All P (summarize_case f m packet n c)) (omega arith)
        (summarize_from-case P packet (start + 1) xs k c rest e)

  exit_code-zero :
      (packet : Packet f)
      → exit_code packet ≡ 0
      → is_word packet.mode "confirm" ≡ true
      → (packet.complete ≡ true)
        × All
            (λ (s : Summary f).
              is_word s.arm_id "__aa" ≡ false
              → is_accepted (accept_of packet.plan.confirmation) s.verdict ≡ true)
            packet.summaries
  unfolding exit_code
  exit_code-zero packet e mode =
      let (complete, accepted) = zero_code _ _ _ _ _ e (not-both packet.mode mode) in
      (complete, all-keep _ _ packet.summaries accepted)

  -- What an accepted packet says of a case.
  pub record IsAcceptedCase (packet : Packet f) (c : Confirmation f) (k : ℕ) : Type 0 where
    pub confirmed : IsConfirmed f m packet k
    pub controlled : IsControlled f m packet k c (1 + length packet.plan.candidates)
    pub decided :
        (arm : ℕ) → arm < length packet.plan.candidates → IsDecided f m packet k c (1 + arm)

  module _ (packet : Packet f) (c : Confirmation f) (mode : is_word packet.mode "confirm" ≡ true)
      (contract : packet.plan.confirmation ≡ some c) where
    each_arm :
        All (RowAccepted c.accept) (summarize f m packet)
        → packet.plan.aa ≡ true
        → All (λ (a : Arm). is_word a.id "__aa" ≡ false) packet.plan.candidates
        → (k : ℕ) (case_ : Case) → get_elem? packet.plan.cases k ≡ some case_
        → (arm : ℕ) → arm < length packet.plan.candidates
        → IsConfirmed f m packet k
          × IsControlled f m packet k c (1 + length packet.plan.candidates)
          × IsDecided f m packet k c (1 + arm)
    unfolding summarize
    each_arm h aa named k case_ there arm less =
        let rows =
          summarize_from-case (RowAccepted c.accept) packet 0 packet.plan.cases k case_ h there in
        let (a, found, right) = All-get _ packet.plan.candidates arm named less in
        summarize_case-accepted f m packet k c mode contract case_ (length packet.plan.candidates)
          (ap (λ b. (length packet.plan.candidates + 1 + usize_from b) - 1) aa ∙ omega arith)
          (subst (λ n. All (RowAccepted c.accept) (summarize_case f m packet n case_)) (omega arith)
            rows)
          arm (omega (arith, less))
          (subst (λ (t : Text). is_word t "__aa" ≡ false)
            (sym (arm_id_of-get packet.plan arm a found)) right)

    summaries-IsAcceptedCase :
        All (RowAccepted c.accept) (summarize f m packet)
        → packet.plan.aa ≡ true
        → length packet.plan.candidates ≢ 0
        → All (λ (a : Arm). is_word a.id "__aa" ≡ false) packet.plan.candidates
        → (k : ℕ) (case_ : Case) → get_elem? packet.plan.cases k ≡ some case_
        → IsAcceptedCase packet c k
    summaries-IsAcceptedCase h aa some_arm named k case_ there =
        let each = each_arm h aa named k case_ there in
        let (confirmed, controlled, first) = each 0 (positive _ some_arm) in
        record {
          confirmed = confirmed;
          controlled = controlled;
          decided = λ arm less. (each arm less).2;
        }

has_bad_contract-given :
    {f : Float} (packet : Packet f)
    → has_bad_contract packet ≡ false
    → is_word packet.mode "confirm" ≡ true
    → is_none packet.plan.confirmation ≡ false
unfolding has_bad_contract
has_bad_contract-given packet h mode =
    given (is_word packet.mode "iterate") (is_word packet.mode "confirm")
      (is_none packet.plan.confirmation) (not (is_none packet.resume_from)) h mode
  where
    given :
        (iterates confirms missing resumed : Bool)
        → (not (iterates || confirms) || (confirms && (missing || resumed))) ≡ false
        → confirms ≡ true
        → missing ≡ false
    given iterates confirms missing resumed g c = ground arith

decision-accepted :
    {f : Float} (packet : Packet f)
    → (decision packet).accepted ≡ true
    → (is_word packet.mode "confirm" ≡ true) × (exit_code packet ≡ 0)
unfolding decision
decision-accepted packet h =
    let (mode, code) = &&-eq-true (is_word packet.mode "confirm") (exit_code packet == 0) h in
    (mode, (==_iff (exit_code packet) 0).0 code)

module _ (captures_len : Text → Option ℕ) (is_normal : Text → Bool) (f : Float) (m : Arith f) where
  -- A packet that is loaded and whose decision is to accept has a confirmation contract. Every
  -- planned case is complete, its placement is verified and the observations of its invocations
  -- pass; the interval of the control is within the control's margin; and for each candidate the
  -- interval that is computed from the retained values has a class that the contract accepts.
  pub load-accepted :
      (packet loaded : Packet f) (d : Decision)
      → load captures_len is_normal f m packet ≡ ok (loaded, d)
      → d.accepted ≡ true
      → (c : Confirmation f) × (packet.plan.confirmation ≡ some c)
        × (is_complete packet ≡ true)
        × ((k : ℕ) (case_ : Case)
            → get_elem? packet.plan.cases k ≡ some case_
            → IsAcceptedCase f m packet c k)
  unfolding load validate_packet
  load-accepted packet loaded d h accepted =
      let (_, e1) = guard-eq-ok (is_unknown_packet packet) _ _ h in
      let (_, valid, e2) = >>=-eq-ok (validate_packet captures_len is_normal f m packet) _ e1 in
      let (_, v1) = guard-eq-ok (is_unknown_packet packet) _ _ valid in
      let (_, plan_valid, v2) = >>=-eq-ok (validate captures_len is_normal f m packet.plan) _ v1 in
      let (contract, v3) = guard-eq-ok (has_bad_contract packet) _ _ v2 in
      let (completion, _) = guard-eq-ok (packet.complete && not (is_complete packet)) _ _ v3 in
      let same : (decision (summarized f m packet)).accepted ≡ d.accepted =
        ap (λ (x : Packet f × Decision). x.1.accepted) (ok-injective e2) in
      let (mode, code) = decision-accepted (summarized f m packet) (same ∙ accepted) in
      let (complete, rows) = exit_code-zero f m (summarized f m packet) code mode in
      let (c, given) =
        is_none-some packet.plan.confirmation (has_bad_contract-given packet contract mode) in
      let sound = validate-IsSound captures_len is_normal f m packet.plan c plan_valid given in
      (
        c,
        given,
        implied packet.complete (is_complete packet) completion complete,
        λ k case_ there.
            summaries-IsAcceptedCase f m packet c mode given
              (subst (λ o. All (RowAccepted (accept_of o)) (summarize f m packet)) given rows)
              (contracted-aa packet.plan c sound.contracted) sound.sized sound.named.1 k case_
              there,
      )
