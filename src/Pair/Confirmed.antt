-- ===== src/Pair/Confirmed.antt =====
-- src/bin/support/pair/analysis.rs: a case whose rows `exit_code` accepts.
use zenbench.Prelude.{
  ℕ, suc, ◌+◌, ◌-◌, ◌<◌, ◌≡◌, refl, sym, ◌∙◌, ap, subst, Bool, true, false, Option, none, some,
  List, ◌++◌, map, All, if◌then◌else◌, range_from, inl, inr, Bool-cases, if-true, if-false,
  &&-eq-true,
}
use zenbench.Prelude.Float.{Float}
use zenbench.Prelude.Text.{codes}
use zenbench.Pair.{Arith, Case, Confirmation, Interval, Issue, Packet, Summary, arm_count, is_word}
use zenbench.Pair.Intervals.{classify}
use zenbench.Pair.Complete.{arm_id_of, is_none, last, case_issues, is_empty_issues, push_if}
use zenbench.Pair.Analysis.{
  arm_interval, arm_row, confirmed, is_equivalent, is_within, mark_row, mark_rows, summarize_case,
}
use zenbench.Pair.Decide.{is_accepted}
use zenbench.Pair.Rows.{
  All-map, All-range, last-map-range, is_none-some, append-empty, IsConfirmed,
  case_issues-IsConfirmed, IsDecided, IsControlled, RowAccepted, marked-accepted, mark_row-verdict,
  mark_row-arm_id, is_accepted-invalid,
}

module _ (f : Float) (m : Arith f) (packet : Packet f) (k : ℕ) (c : Confirmation f)
    (mode : is_word packet.mode "confirm" ≡ true)
    (contract : packet.plan.confirmation ≡ some c) where
  arm_row-confirmed :
      (case_ : Case) (arm : ℕ)
      → ((arm_row f m packet k case_ arm).interval ≡ arm_interval f m packet c k arm)
        × ((arm_row f m packet k case_ arm).verdict ≡ (
            if is_empty_issues (
              case_issues packet k
              ++ push_if (is_none (arm_interval f m packet c k arm)) Issue.unresolved_interval)
            then classify f m (arm_interval f m packet c k arm) c.margin_pct
            else codes "invalid"))
  unfolding arm_row confirmed
  arm_row-confirmed case_ arm = rw (mode, contract) (refl, refl)

  arm_row-IsDecided :
      (case_ : Case) (arm : ℕ)
      → is_accepted c.accept (arm_row f m packet k case_ arm).verdict ≡ true
      → IsConfirmed f m packet k × IsDecided f m packet k c arm
  arm_row-IsDecided case_ arm h =
      decided (subst (λ v. is_accepted c.accept v ≡ true) ((arm_row-confirmed case_ arm).1) h)
    where
      I : Option (Interval f)
      I = arm_interval f m packet c k arm

      decided :
          is_accepted c.accept (
              if is_empty_issues
                (case_issues packet k ++ push_if (is_none I) Issue.unresolved_interval)
              then classify f m I c.margin_pct
              else codes "invalid")
            ≡ true
          → IsConfirmed f m packet k × IsDecided f m packet k c arm
      decided g =
          elim (Bool-cases (
            is_empty_issues
              (case_issues packet k ++ push_if (is_none I) Issue.unresolved_interval))) [
                | inr wrong ↦
                    let e = subst (λ v. is_accepted c.accept v ≡ true) (if-false _ _ wrong) g in
                    let never = is_accepted-invalid c.accept in cc
                | inl clean ↦
                    let (issues, resolved) = append-empty _ _ (case_issues packet k) clean in
                    let (i, found) = is_none-some I resolved in
                    let e = subst (λ v. is_accepted c.accept v ≡ true) (if-true _ _ clean) g in
                    (
                      case_issues-IsConfirmed f m packet k issues,
                      (
                        i,
                        found,
                        subst (λ o. is_accepted c.accept (classify f m o c.margin_pct) ≡ true) found
                            e,
                      ),
                    )
              ]

  is_within-some :
      (o : Option (Interval f)) (margin : f.F)
      → is_within f m o margin ≡ true
      → (i : Interval f) × (o ≡ some i) × (is_within f m (some i) margin ≡ true)
  is_within-some none margin h = cc
  is_within-some (some i) margin h = (i, refl, h)

  arm_row-IsControlled :
      (case_ : Case) (arm : ℕ)
      → is_equivalent f m (arm_row f m packet k case_ arm) c.control_margin_pct ≡ true
      → IsControlled f m packet k c arm
  unfolding is_equivalent
  arm_row-IsControlled case_ arm h = is_within-some _ _ (
      subst (λ o. is_within f m o c.control_margin_pct ≡ true) ((arm_row-confirmed case_ arm).0)
        ((&&-eq-true _ _ h).1))

  mark_rows-marked :
      (rows : List (Summary f)) (control : Summary f)
      → last rows ≡ some control
      → mark_rows f m packet rows
        ≡ map (mark_row f m (is_equivalent f m control c.control_margin_pct)) rows
  unfolding mark_rows
  mark_rows-marked rows control e = rw (mode, e, contract) refl

  summarize_case-marked :
      (case_ : Case) (n : ℕ)
      → arm_count packet.plan - 1 ≡ suc n
      → summarize_case f m packet k case_
        ≡ map
            (mark_row f m
              (is_equivalent f m (arm_row f m packet k case_ (1 + n)) c.control_margin_pct))
            (map (arm_row f m packet k case_) (range_from 1 (suc n)))
  unfolding summarize_case
  summarize_case-marked case_ n count =
      ap (λ l. mark_rows f m packet (map (arm_row f m packet k case_) (range_from 1 l))) count
      ∙ mark_rows-marked (map (arm_row f m packet k case_) (range_from 1 (suc n))) _
          (last-map-range (arm_row f m packet k case_) 1 n)

  -- The rows of a case are accepted: the case is confirmed, the control is within its margin,
  -- and each arm that is not the control is decided.
  pub summarize_case-accepted :
      (case_ : Case) (n : ℕ)
      → arm_count packet.plan - 1 ≡ suc n
      → All (RowAccepted c.accept) (summarize_case f m packet k case_)
      → (arm : ℕ) → arm < suc n
      → is_word (arm_id_of packet.plan (1 + arm)) "__aa" ≡ false
      → IsConfirmed f m packet k
        × IsControlled f m packet k c (1 + n)
        × IsDecided f m packet k c (1 + arm)
  unfolding arm_row
  summarize_case-accepted case_ n count h arm less named =
      let id =
        mark_row-arm_id f m packet k c.accept equivalent ((arm_row f m packet k case_) (1 + arm)) in
      let taken = row_accepted arm less (subst (λ i. is_word i "__aa" ≡ false) (sym id) named) in
      let (control, decided) =
        marked-accepted f m packet k c.accept equivalent
          ((arm_row f m packet k case_) (1 + arm)).verdict
          (subst (λ v. is_accepted c.accept v ≡ true)
            (mark_row-verdict f m packet k c.accept equivalent
              ((arm_row f m packet k case_) (1 + arm)))
            taken) in
      let (confirmed, class) = arm_row-IsDecided case_ (1 + arm) decided in
      (confirmed, arm_row-IsControlled case_ (1 + n) control, class)
    where
      equivalent : Bool
      equivalent = is_equivalent f m ((arm_row f m packet k case_) (1 + n)) c.control_margin_pct

      row_accepted :
          (a : ℕ)
          → a < suc n
          → RowAccepted c.accept (mark_row f m equivalent ((arm_row f m packet k case_) (1 + a)))
      row_accepted a below =
          All-range
            (λ b. RowAccepted c.accept (mark_row f m equivalent ((arm_row f m packet k case_) b))) 1
            (suc n) a
            (All-map (λ r. RowAccepted c.accept (mark_row f m equivalent r))
              (arm_row f m packet k case_) (range_from 1 (suc n))
              (All-map (RowAccepted c.accept) (mark_row f m equivalent)
                (map (arm_row f m packet k case_) (range_from 1 (suc n)))
                (subst (All (RowAccepted c.accept)) (summarize_case-marked case_ n count) h)))
            below
