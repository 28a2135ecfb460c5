-- ===== src/Plan/Resolved.antt =====
-- src/plan.rs: what a plan that `BenchmarkPlan::resolve` returns holds, and where it comes from.
use zenbench.Prelude.{
  ok-injective, ◌≡◌, ◌≢◌, refl, Bool, true, false, Option, none, some, List, ◌&&◌, not, Result, ok,
  err, ◌>>=◌, fail_if, >>=-eq-ok, guard-eq-ok, arith, Bool-cases, inl, inr, if-true, if-false, ◌∙◌,
  subst, sym, ap, ◌⊎◌, All,
}
use Prim.Native.String.{String}
use zenbench.Prelude.Float.{Float}
use zenbench.Prelude.Text.{Text, codes, parse_usize}
use zenbench.Plan.{BenchmarkMode, BenchmarkPlan, PlanError, is_iterate, validate}
use zenbench.Plan.Valid.{IsValid, validate_iff}
use zenbench.Plan.Resolve.{
  parse_mode, Environment, value_of, parsed, has_legacy_repetitions, is_some, is_bad_format,
  settle_processes, finish_plan, resolve, parse_rounds, parse_seconds, as_text,
}
use zenbench.Plan.Given.{IsFrom, IsGiven, IsOther, IsApplied, IsApplied-IsFrom}
use zenbench.Plan.Known.{
  IsFormat, IsModeName, IsWithout, parse_mode-IsModeName, is_bad_format-IsFormat, legacy-IsWithout,
}
use zenbench.Plan.Fields.{
  resolve-eq-ok, from_processes-eq-ok, from_rounds-eq-ok, from_margin-eq-ok, from_confidence-eq-ok,
  from_workload-eq-ok, from_scope-eq-ok, from_timeout-eq-ok,
}

confirmed : (a b : Bool) → not a && b ≡ false → a ≡ false → b ≡ false
confirmed a b h c = ground arith

iterates : (m : BenchmarkMode) → m ≡ BenchmarkMode.iterate → is_iterate m ≡ true
iterates m h = ap is_iterate h

confirms : (m : BenchmarkMode) → m ≢ BenchmarkMode.iterate → is_iterate m ≡ false
confirms BenchmarkMode.iterate h = absurd (h refl)
confirms BenchmarkMode.confirm h = refl
confirms BenchmarkMode.evidence h = refl

module _ (f : Float) (parse_float : Text → Option f.F) (args : List Text) (env : Environment) where
  -- Where a field comes from.
  abbrev IsField {ℓ} : {A : Type ℓ} → String → String → (Text → Result PlanError A) → A → A → Type ℓ
  IsField flag var = IsFrom (IsGiven args env flag var)

  -- Where the fields of the plan `q` come from, with the plan `p` underneath.
  pub record IsResolved (p q : BenchmarkPlan f) : Type 0 where
    pub mode :
        (IsGiven args env "mode" "ZENBENCH_MODE" none × (q.mode ≡ p.mode))
        ⊎ ((text : Text) × IsGiven args env "mode" "ZENBENCH_MODE" (some text)
            × IsModeName text q.mode)
    pub rounds :
        IsField "rounds" "ZENBENCH_ROUNDS" (parsed "round count" parse_rounds) p.rounds q.rounds
    pub margin :
        IsField "margin" "ZENBENCH_MARGIN"
          (parsed "practical margin" parse_float)
          p.margin_pct
          q.margin_pct
    pub confidence :
        IsField "confidence" "ZENBENCH_CONFIDENCE"
          (parsed "confidence" parse_float)
          p.confidence
          q.confidence
    pub workload : IsField "workload-id" "ZENBENCH_WORKLOAD_ID" as_text p.workload_id q.workload_id
    pub scope : IsField "scope" "ZENBENCH_SCOPE" as_text p.scope q.scope
    pub timeout :
        IsField "timeout" "ZENBENCH_TIMEOUT"
          (parsed "timeout seconds" parse_seconds)
          p.timeout
          q.timeout
    pub one_process : q.mode ≡ BenchmarkMode.iterate → q.processes ≡ 1
    pub processes :
        q.mode ≢ BenchmarkMode.iterate
        → IsField "processes" "ZENBENCH_PROCESSES"
            (parsed "process count" parse_usize)
            p.processes
            q.processes
    pub no_legacy :
        q.mode ≢ BenchmarkMode.iterate
        → All
            (λ arg. IsWithout (codes "-of-passes=") arg × IsWithout (codes "-of-processes=") arg)
            args
    pub format :
        (text : Text)
        → env (codes "ZENBENCH_FORMAT") ≡ some text
        → All (IsOther "format") args
        → IsFormat text

  -- What the end of `resolve` makes of the plan.
  record IsFinished (p q : BenchmarkPlan f) : Type 0 where
    settled : q ≡ (record p { processes = q.processes })
    one_process : is_iterate p.mode ≡ true → q.processes ≡ 1
    same_processes : is_iterate p.mode ≡ false → q.processes ≡ p.processes
    no_legacy : is_iterate p.mode ≡ false → has_legacy_repetitions args ≡ false
    format : is_bad_format args (env (codes "ZENBENCH_FORMAT")) ≡ false
    valid : IsValid q

  -- The plan with a settled number of processes.
  settled-eq-ok :
      (p : BenchmarkPlan f) (c : Bool) (q : BenchmarkPlan f)
      → (given : Result PlanError (Option Text))
      → (given >>= λ explicit.
          fail_if (is_some explicit && c) PlanError.processes_need_confirmation >>= λ u.
          ok (record p { processes = 1 }))
        ≡ ok q
      → (record p { processes = 1 }) ≡ q
  settled-eq-ok p c q (err why) e = cc
  settled-eq-ok p c q (ok explicit) e =
      ok-injective
        (guard-eq-ok (is_some explicit && c) PlanError.processes_need_confirmation
          (ok (record p { processes = 1 })) e).1

  IsSettled : BenchmarkPlan f → BenchmarkPlan f → Type 0
  IsSettled p q =
      ((is_iterate p.mode ≡ true) × ((record p { processes = 1 }) ≡ q))
      ⊎ ((is_iterate p.mode ≡ false) × (p ≡ q))

  settle_processes-IsSettled :
      (p q : BenchmarkPlan f) → settle_processes f parse_float args env p ≡ ok q → IsSettled p q
  unfolding settle_processes IsSettled
  settle_processes-IsSettled p q e = elim (Bool-cases (is_iterate p.mode)) [
    | inl iterates ↦ inl (iterates, settled-eq-ok p _ q _ (sym (if-true _ _ iterates) ∙ e))
    | inr confirms ↦ inr (confirms, ok-injective (sym (if-false _ _ confirms) ∙ e))
  ]

  finished :
      (p s : BenchmarkPlan f)
      → IsSettled p s
      → not (is_iterate s.mode) && has_legacy_repetitions args ≡ false
      → is_bad_format args (env (codes "ZENBENCH_FORMAT")) ≡ false
      → IsValid s
      → IsFinished p s
  unfolding IsSettled
  finished p s (inl (iterates, same)) no_legacy format valid = subst (IsFinished p) same record {
    settled = refl;
    one_process = λ h. refl;
    same_processes = λ h. absurd cc;
    no_legacy = λ h. absurd cc;
    format = format;
    valid = subst IsValid (sym same) valid;
  }
  finished p s (inr (confirms, same)) no_legacy format valid = subst (IsFinished p) same record {
    settled = refl;
    one_process = λ h. absurd cc;
    same_processes = λ h. refl;
    no_legacy = λ h.
        confirmed _ _
          (subst (λ x. not (is_iterate x.mode) && has_legacy_repetitions args ≡ false) (sym same)
            no_legacy)
          h;
    format = format;
    valid = subst IsValid (sym same) valid;
  }

  finish_plan-IsFinished :
      (p q : BenchmarkPlan f) → finish_plan f parse_float args env p ≡ ok q → IsFinished p q
  unfolding finish_plan
  finish_plan-IsFinished p q e =
      let (s, settled, e1) = >>=-eq-ok (settle_processes f parse_float args env p) _ e in
      let (no_legacy, e2) =
        guard-eq-ok (not (is_iterate s.mode) && has_legacy_repetitions args) _ _ e1 in
      let (format, e3) = guard-eq-ok (is_bad_format args (env (codes "ZENBENCH_FORMAT"))) _ _ e2 in
      let (u, valid, same) = >>=-eq-ok (validate s) (λ u. ok s) e3 in
      subst (IsFinished p) (ok-injective same) (
        finished p s (settle_processes-IsSettled p s settled) no_legacy format
          ((validate_iff s).0 valid))

  named :
      (old new : BenchmarkMode)
      → IsField "mode" "ZENBENCH_MODE" parse_mode old new
      → (IsGiven args env "mode" "ZENBENCH_MODE" none × (new ≡ old))
        ⊎ ((text : Text) × IsGiven args env "mode" "ZENBENCH_MODE" (some text)
            × IsModeName text new)
  named old new (inl left) = inl left
  named old new (inr (text, given, e)) = inr (text, given, parse_mode-IsModeName text new e)

  -- `resolve` returns only a valid plan. Each field is read from the one argument `--flag=value` of
  -- its flag, else, where no argument starts with `--flag=`, from its variable in the environment,
  -- else it is that of the plan underneath. The number of processes of a plan that iterates is one
  -- instead. A plan that confirms has no argument with an older repetition flag beside it, and the
  -- environment's output format, where no argument gives one, is one of the six that are known.
  pub resolve_exact :
      (p q : BenchmarkPlan f) → resolve f parse_float args env p ≡ ok q → IsValid q × IsResolved p q
  resolve_exact p q e =
      let (mode, is_mode, e1) = resolve-eq-ok f parse_float args env p q e in
      let p1 : BenchmarkPlan f = record p { mode = mode } in
      let (processes, is_processes, e2) = from_processes-eq-ok f parse_float args env p1 q e1 in
      let p2 : BenchmarkPlan f = record p1 { processes = processes } in
      let (rounds, is_rounds, e3) = from_rounds-eq-ok f parse_float args env p2 q e2 in
      let p3 : BenchmarkPlan f = record p2 { rounds = rounds } in
      let (margin, is_margin, e4) = from_margin-eq-ok f parse_float args env p3 q e3 in
      let p4 : BenchmarkPlan f = record p3 { margin_pct = margin } in
      let (confidence, is_confidence, e5) = from_confidence-eq-ok f parse_float args env p4 q e4 in
      let p5 : BenchmarkPlan f = record p4 { confidence = confidence } in
      let (workload, is_workload, e6) = from_workload-eq-ok f parse_float args env p5 q e5 in
      let p6 : BenchmarkPlan f = record p5 { workload_id = workload } in
      let (scope, is_scope, e7) = from_scope-eq-ok f parse_float args env p6 q e6 in
      let p7 : BenchmarkPlan f = record p6 { scope = scope } in
      let (timeout, is_timeout, e8) = from_timeout-eq-ok f parse_float args env p7 q e7 in
      let p8 : BenchmarkPlan f = record p7 { timeout = timeout } in
      let d = finish_plan-IsFinished p8 q e8 in
      (
        d.valid,
        subst (IsResolved p) (sym d.settled) record {
          mode =
              named p.mode _
                (IsApplied-IsFrom args env "mode" "ZENBENCH_MODE" parse_mode _ _ is_mode);
          rounds = IsApplied-IsFrom args env "rounds" "ZENBENCH_ROUNDS" _ _ _ is_rounds;
          margin = IsApplied-IsFrom args env "margin" "ZENBENCH_MARGIN" _ _ _ is_margin;
          confidence =
              IsApplied-IsFrom args env "confidence" "ZENBENCH_CONFIDENCE" _ _ _ is_confidence;
          workload =
              IsApplied-IsFrom args env "workload-id" "ZENBENCH_WORKLOAD_ID" _ _ _ is_workload;
          scope = IsApplied-IsFrom args env "scope" "ZENBENCH_SCOPE" _ _ _ is_scope;
          timeout = IsApplied-IsFrom args env "timeout" "ZENBENCH_TIMEOUT" _ _ _ is_timeout;
          one_process = λ i. d.one_process (iterates _ i);
          processes = λ c. IsApplied-IsFrom args env "processes" "ZENBENCH_PROCESSES" _ _ _ (
              subst
                (IsApplied (value_of args env "processes" "ZENBENCH_PROCESSES")
                  (parsed "process count" parse_usize) p.processes)
                (sym (d.same_processes (confirms _ c))) is_processes);
          no_legacy = λ c. legacy-IsWithout args (d.no_legacy (confirms _ c));
          format = λ text known others. is_bad_format-IsFormat args _ text d.format known others;
        },
      )
