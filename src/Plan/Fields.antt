-- ===== src/Plan/Fields.antt =====
-- src/plan.rs: the fields that `BenchmarkPlan::resolve` sets, one after the other.
use zenbench.Prelude.{
  ℕ, ◌≡◌, refl, Option, none, some, List, Result, ok, err, ◌>>=◌, >>=-eq-ok, inl, inr, ◌∙◌, ap,
}
use zenbench.Prelude.Float.{Float}
use zenbench.Prelude.Text.{Text, parse_usize}
use zenbench.Plan.{BenchmarkMode, BenchmarkPlan, PlanError}
use zenbench.Plan.Resolve.{
  parse_mode, Environment, value_of, parsed, set_from, finish_plan, resolve, from_processes,
  from_rounds, from_margin, from_confidence, from_workload, from_scope, from_timeout, parse_rounds,
  parse_seconds, as_text,
}
use zenbench.Plan.Given.{IsApplied}

-- A field that is set, and the plan with which the code goes on.
set_from-IsApplied {ℓ κ μ} :
    {A : Type ℓ} {P : Type κ} {B : Type μ} (given : Result PlanError (Option Text))
    (parse : Text → Result PlanError A) (put : A → P → P) (get : P → A) (p : P)
    (k : P → Result PlanError B) (b : B)
    → put (get p) p ≡ p
    → (set_from given parse put p >>= k) ≡ ok b
    → (a : A) × IsApplied given parse (get p) a × (k (put a p) ≡ ok b)
unfolding set_from
set_from-IsApplied (err why) parse put get p k b same e = cc
set_from-IsApplied (ok none) parse put get p k b same e = (get p, inl (refl, refl), ap k same ∙ e)
set_from-IsApplied (ok (some text)) parse put get p k b same e =
    let (a, h, later) = >>=-eq-ok (parse text) (λ a. k (put a p)) (assoc (parse text) ∙ e) in
    (a, inr (text, refl, h), later)
  where
    assoc : (r : Result PlanError _) → (r >>= λ a. k (put a p)) ≡ ((r >>= λ a. ok (put a p)) >>= k)
    assoc (ok a) = refl
    assoc (err why) = refl

module _ (f : Float) (parse_float : Text → Option f.F) (args : List Text) (env : Environment) where
  pub resolve-eq-ok :
      (p q : BenchmarkPlan f)
      → resolve f parse_float args env p ≡ ok q
      → (a : BenchmarkMode) × IsApplied
          (value_of args env "mode" "ZENBENCH_MODE")
          parse_mode
          p.mode
          a
        × (from_processes f parse_float args env (record p { mode = a }) ≡ ok q)
  unfolding resolve
  resolve-eq-ok p q e =
      set_from-IsApplied (value_of args env "mode" "ZENBENCH_MODE") parse_mode
        (λ a q. record q { mode = a }) (λ x. x.mode) p (from_processes f parse_float args env) q
        refl e

  pub from_processes-eq-ok :
      (p q : BenchmarkPlan f)
      → from_processes f parse_float args env p ≡ ok q
      → (a : ℕ) × IsApplied
          (value_of args env "processes" "ZENBENCH_PROCESSES")
          (parsed "process count" parse_usize)
          p.processes
          a
        × (from_rounds f parse_float args env (record p { processes = a }) ≡ ok q)
  unfolding from_processes
  from_processes-eq-ok p q e =
      set_from-IsApplied (value_of args env "processes" "ZENBENCH_PROCESSES")
        (parsed "process count" parse_usize) (λ a q. record q { processes = a }) (λ x. x.processes)
        p (from_rounds f parse_float args env) q refl e

  pub from_rounds-eq-ok :
      (p q : BenchmarkPlan f)
      → from_rounds f parse_float args env p ≡ ok q
      → (a : Option ℕ) × IsApplied
          (value_of args env "rounds" "ZENBENCH_ROUNDS")
          (parsed "round count" parse_rounds)
          p.rounds
          a
        × (from_margin f parse_float args env (record p { rounds = a }) ≡ ok q)
  unfolding from_rounds
  from_rounds-eq-ok p q e =
      set_from-IsApplied (value_of args env "rounds" "ZENBENCH_ROUNDS")
        (parsed "round count" parse_rounds) (λ a q. record q { rounds = a }) (λ x. x.rounds) p
        (from_margin f parse_float args env) q refl e

  pub from_margin-eq-ok :
      (p q : BenchmarkPlan f)
      → from_margin f parse_float args env p ≡ ok q
      → (a : f.F) × IsApplied
          (value_of args env "margin" "ZENBENCH_MARGIN")
          (parsed "practical margin" parse_float)
          p.margin_pct
          a
        × (from_confidence f parse_float args env (record p { margin_pct = a }) ≡ ok q)
  unfolding from_margin
  from_margin-eq-ok p q e =
      set_from-IsApplied (value_of args env "margin" "ZENBENCH_MARGIN")
        (parsed "practical margin" parse_float) (λ a q. record q { margin_pct = a })
        (λ x. x.margin_pct) p (from_confidence f parse_float args env) q refl e

  pub from_confidence-eq-ok :
      (p q : BenchmarkPlan f)
      → from_confidence f parse_float args env p ≡ ok q
      → (a : f.F) × IsApplied
          (value_of args env "confidence" "ZENBENCH_CONFIDENCE")
          (parsed "confidence" parse_float)
          p.confidence
          a
        × (from_workload f parse_float args env (record p { confidence = a }) ≡ ok q)
  unfolding from_confidence
  from_confidence-eq-ok p q e =
      set_from-IsApplied (value_of args env "confidence" "ZENBENCH_CONFIDENCE")
        (parsed "confidence" parse_float) (λ a q. record q { confidence = a }) (λ x. x.confidence) p
        (from_workload f parse_float args env) q refl e

  pub from_workload-eq-ok :
      (p q : BenchmarkPlan f)
      → from_workload f parse_float args env p ≡ ok q
      → (a : Option Text) × IsApplied
          (value_of args env "workload-id" "ZENBENCH_WORKLOAD_ID")
          as_text
          p.workload_id
          a
        × (from_scope f parse_float args env (record p { workload_id = a }) ≡ ok q)
  unfolding from_workload
  from_workload-eq-ok p q e =
      set_from-IsApplied (value_of args env "workload-id" "ZENBENCH_WORKLOAD_ID") as_text
        (λ a q. record q { workload_id = a }) (λ x. x.workload_id) p
        (from_scope f parse_float args env) q refl e

  pub from_scope-eq-ok :
      (p q : BenchmarkPlan f)
      → from_scope f parse_float args env p ≡ ok q
      → (a : Option Text) × IsApplied (value_of args env "scope" "ZENBENCH_SCOPE") as_text p.scope a
        × (from_timeout f parse_float args env (record p { scope = a }) ≡ ok q)
  unfolding from_scope
  from_scope-eq-ok p q e =
      set_from-IsApplied (value_of args env "scope" "ZENBENCH_SCOPE") as_text
        (λ a q. record q { scope = a }) (λ x. x.scope) p (from_timeout f parse_float args env) q
        refl e

  pub from_timeout-eq-ok :
      (p q : BenchmarkPlan f)
      → from_timeout f parse_float args env p ≡ ok q
      → (a : ℕ) × IsApplied
          (value_of args env "timeout" "ZENBENCH_TIMEOUT")
          (parsed "timeout seconds" parse_seconds)
          p.timeout
          a
        × (finish_plan f parse_float args env (record p { timeout = a }) ≡ ok q)
  unfolding from_timeout
  from_timeout-eq-ok p q e =
      set_from-IsApplied (value_of args env "timeout" "ZENBENCH_TIMEOUT")
        (parsed "timeout seconds" parse_seconds) (λ a q. record q { timeout = a }) (λ x. x.timeout)
        p (finish_plan f parse_float args env) q refl e
