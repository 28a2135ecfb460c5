-- ===== src/Placement/Inserted.antt =====
-- src/platform/windows_topology.rs: the processors that the records of cores insert.
use zenbench.Prelude.{
  ℕ, ◌<◌, ◌≡◌, sym, ◌∙◌, subst, Bool, true, false, List, [], ◌∷◌, ltb, ◌==◌, arith, ok, err,
  >>=-eq-ok, ok-injective, inl, inr, Bool-cases, if-true, if-false,
}
use zenbench.Prelude.Sort.{IsRising, IsRisingAfter}
use zenbench.Prelude.Bits.{bit}
use zenbench.Placement.Windows.{DecodeError, insert_core, insert_cores, insert_if}

-- The processors of a list of cores.
abbrev pub cpus_of : List (ℕ × ℕ) → List ℕ
cpus_of [] = []
cpus_of ((cpu, rank) ∷ cores) = cpu ∷ cpus_of cores

pub err_ok : {A : Type 0} {error : DecodeError} {a : A} → err error ≡ ok a → ⊥
err_ok e = ground (arith, e)

-- Insertion keeps the order, and adds the processor.
insert_core-rising :
    (low cpu rank : ℕ) (cores : List (ℕ × ℕ)) (out : List (ℕ × ℕ))
    → insert_core cpu rank cores ≡ ok out
    → IsRisingAfter low (cpus_of cores)
    → low < cpu
    → IsRisingAfter low (cpus_of out)
unfolding insert_core
insert_core-rising low cpu rank [] out e h less =
    subst (λ o. IsRisingAfter low (cpus_of o)) (ok-injective e) (less, tt)
insert_core-rising low cpu rank ((c, r) ∷ cores) out e (first, rest) less =
    elim (Bool-cases (ltb cpu c)) [
      | inl before ↦
          subst (λ o. IsRisingAfter low (cpus_of o)) (ok-injective (sym (if-true _ _ before) ∙ e))
            (less, (ground arith, rest))
      | inr not_before ↦ elim (Bool-cases (cpu == c)) [
        | inl same ↦ absurd (err_ok (sym (if-true _ _ same) ∙ sym (if-false _ _ not_before) ∙ e))
        | inr other ↦
            let (more, e1, e2) =
              >>=-eq-ok (insert_core cpu rank cores) _
                (sym (if-false _ _ other) ∙ sym (if-false _ _ not_before) ∙ e) in
            subst (λ o. IsRisingAfter low (cpus_of o)) (ok-injective e2)
              (first, insert_core-rising c cpu rank cores more e1 rest (ground arith))
      ]
    ]

insert_core-IsRising :
    (cpu rank : ℕ) (cores : List (ℕ × ℕ)) (out : List (ℕ × ℕ))
    → insert_core cpu rank cores ≡ ok out
    → IsRising (cpus_of cores)
    → IsRising (cpus_of out)
unfolding insert_core
insert_core-IsRising cpu rank [] out e h = subst (λ o. IsRising (cpus_of o)) (ok-injective e) tt
insert_core-IsRising cpu rank ((c, r) ∷ cores) out e h = elim (Bool-cases (ltb cpu c)) [
  | inl before ↦
      subst (λ o. IsRising (cpus_of o)) (ok-injective (sym (if-true _ _ before) ∙ e))
        (ground arith, h)
  | inr not_before ↦ elim (Bool-cases (cpu == c)) [
    | inl same ↦ absurd (err_ok (sym (if-true _ _ same) ∙ sym (if-false _ _ not_before) ∙ e))
    | inr other ↦
        let (more, e1, e2) =
          >>=-eq-ok (insert_core cpu rank cores) _
            (sym (if-false _ _ other) ∙ sym (if-false _ _ not_before) ∙ e) in
        subst (λ o. IsRising (cpus_of o)) (ok-injective e2)
          (insert_core-rising c cpu rank cores more e1 h (ground arith))
  ]
]

insert_if-IsRising :
    (test : Bool) (cpu rank : ℕ) (cores out : List (ℕ × ℕ))
    → insert_if test cpu rank cores ≡ ok out
    → IsRising (cpus_of cores)
    → IsRising (cpus_of out)
unfolding insert_if
insert_if-IsRising true cpu rank cores out e h = insert_core-IsRising cpu rank cores out e h
insert_if-IsRising false cpu rank cores out e h =
    subst (λ o. IsRising (cpus_of o)) (ok-injective e) h

pub insert_cores-IsRising :
    (cpus rank : ℕ) (fresh : List ℕ) (cores out : List (ℕ × ℕ))
    → insert_cores cpus rank fresh cores ≡ ok out
    → IsRising (cpus_of cores)
    → IsRising (cpus_of out)
unfolding insert_cores
insert_cores-IsRising cpus rank [] cores out e h =
    subst (λ o. IsRising (cpus_of o)) (ok-injective e) h
insert_cores-IsRising cpus rank (cpu ∷ fresh) cores out e h =
    let (more, e1, e2) = >>=-eq-ok (insert_if (bit cpus cpu) cpu rank cores) _ e in
    insert_cores-IsRising cpus rank fresh more out e2
      (insert_if-IsRising (bit cpus cpu) cpu rank cores more e1 h)
