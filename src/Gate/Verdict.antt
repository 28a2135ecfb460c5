-- ===== src/Gate/Verdict.antt =====
-- src/gate.rs: when a round counts as clean, and what a gate remembers of the whole run.
use zenbench.Prelude.{
  ℕ, ◌+◌, ◌≤◌, ◌≡◌, refl, Bool, true, false, Option, none, some, arith, min, ◌^◌, ◌-◌, ◌⊎◌, inl,
  inr, ◌↔◌, ap, ◌∙◌, Option-cases, Bool-cases,
}
use zenbench.Prelude.Float.{Float}
use zenbench.Prelude.Poll.{Turn, poll_keeps}
use zenbench.Gate.{
  GateConfig, SystemState, ResourceGate, Reading, start_monitoring, check_state, record_state,
  check_and_record_status, is_unreliable,
}
use zenbench.Gate.Wait.{
  Moment, clear_turn, effective_max, wait_for_clear_with_deadline, brief_turn, brief_wait,
  rival_turn, wait_for_no_benchmarks,
}

-- A temperature that is known passes no limit that is set. A comparison with a NaN is false, so a
-- NaN passes no limit.
abbrev CoolEnough : (f : Float) → Option f.F → Option f.F → Type 0
CoolEnough f (some max_temp) (some current) = f.flt max_temp current ≡ false
CoolEnough f _ _ = Unit

module _ {f : Float} where
  open f use {flt}

  pub record IsQuiet (c : GateConfig f) (s : SystemState f) : Type 0 where
    pub load : flt c.max_cpu_load s.cpu_load ≡ false
    pub ram : c.min_available_ram_bytes ≤ s.available_ram_bytes
    pub temperature : CoolEnough f c.max_cpu_temp_c s.cpu_temp_c
    pub heavy : s.heavy_process_count ≤ c.max_heavy_processes

  -- The check passes exactly the quiet states.
  pub check_state_iff :
      (c : GateConfig f) (s : SystemState f) → (check_state c s ≡ none) ↔ IsQuiet c s
  unfolding check_state
  check_state_iff c s = (λ e. ground arith, λ q. ground arith)

  -- What `check_and_record_status` says of the round, and what it keeps.
  pub record Recorded (g : ResourceGate f) (s : SystemState f) (r : Option Bool × ResourceGate f)
      : Type 0 where
    pub verdict : (r.0 ≡ some true) ↔ IsQuiet g.config s
    pub decided : (r.0 ≡ some true) ⊎ (r.0 ≡ some false)
    pub counted :
        (r.1.total_waits ≡ g.total_waits) × (r.0 ≡ some true)
        ⊎ (r.1.total_waits ≡ g.total_waits + 1) × (r.0 ≡ some false)
    pub observed : r.1.last_observation ≡ some (check_state g.config s, s)
    pub missing : r.1.missing_observations ≡ g.missing_observations

  record_state-Recorded :
      (g h : ResourceGate f) (s : SystemState f)
      → h.config ≡ g.config
      → h.total_waits ≡ g.total_waits
      → h.missing_observations ≡ g.missing_observations
      → Recorded g s (record_state s h)
  record_state-Recorded g h s e w m =
      let (to, from) = check_state_iff g.config s in
      let c : check_state h.config s ≡ check_state g.config s = ap (λ k. check_state k s) e in
      elim (Option-cases (check_state g.config s)) [
        | inl quiet ↦ record {
          verdict = (λ q. to quiet, λ q. ground arith);
          decided = ground arith;
          counted = ground arith;
          observed = ground arith;
          missing = ground arith;
        }
        | inr (reason, found) ↦ record {
          verdict = (λ q. absurd (ground arith), λ q. absurd (ground (arith, from q)));
          decided = ground arith;
          counted = ground arith;
          observed = ground arith;
          missing = ground arith;
        }
      ]

  -- On an enabled gate that has a state to judge (the background sampler's latest sample, or a
  -- snapshot where no sampler runs), a round is clean exactly if that state is quiet, it is
  -- decided one way or the other, each unclean round counts one wait, and the state is retained.
  -- With a sampler that has no sample yet the round is undecided and marked as missing. On a
  -- disabled gate it is undecided and nothing is counted.
  pub check_and_record_status_lem :
      (r : Reading f) (g : ResourceGate f)
      → ((g.config.enabled ≡ true)
          → (g.background ≡ false)
          → Recorded g r.snapshot (check_and_record_status r g))
        × ((age : ℕ) (s : SystemState f)
            → (g.config.enabled ≡ true)
            → (g.background ≡ true)
            → (r.latest ≡ some (age, s))
            → Recorded g s (check_and_record_status r g))
        × ((g.config.enabled ≡ true)
            → (g.background ≡ true)
            → (r.latest ≡ none)
            → ((check_and_record_status r g).0 ≡ none)
              × ((check_and_record_status r g).1.missing_observations ≡ true))
        × ((g.config.enabled ≡ false)
            → ((check_and_record_status r g).0 ≡ none)
              × ((check_and_record_status r g).1.total_waits ≡ g.total_waits))
  unfolding check_and_record_status
  check_and_record_status_lem r g = (
    λ on quiet.
        let h : ResourceGate f = record g {
          last_observation = none;
          background = false;
          total_wait_time = g.total_wait_time + r.snapshot_time;
        } in
        simp (on, quiet) (record_state-Recorded g h r.snapshot refl refl refl),
    λ age s on bg e.
        let h : ResourceGate f = record g {
          last_observation = none;
          background = true;
          observation_age_ns = some (min age (2 ^ 64 - 1));
        } in
        simp (on, bg, e) (record_state-Recorded g h s refl refl refl),
    λ on bg e. ground arith,
    λ off. ground arith,
  )

  -- What every operation keeps: the configuration, the counts and the mark of a missing observation
  -- never go back.
  pub record IsLater (g g' : ResourceGate f) : Type 0 where
    pub config : g'.config ≡ g.config
    pub waits : g.total_waits ≤ g'.total_waits
    pub time : g.total_wait_time ≤ g'.total_wait_time
    pub missing : g.missing_observations ≡ true → g'.missing_observations ≡ true

  IsLater-refl : (g : ResourceGate f) → IsLater g g
  IsLater-refl g = record {
    config = refl;
    waits = omega arith;
    time = omega arith;
    missing = λ h. h;
  }

  IsLater-trans : (g h i : ResourceGate f) → IsLater g h → IsLater h i → IsLater g i
  IsLater-trans g h i a b = record {
    config = b.config ∙ a.config;
    waits = omega arith;
    time = omega arith;
    missing = λ m. b.missing (a.missing m);
  }

  start_monitoring-IsLater : (e : ℕ) (g : ResourceGate f) → IsLater g (start_monitoring e g)
  unfolding start_monitoring
  start_monitoring-IsLater e g = ground arith

  check_and_record_status-IsLater :
      (r : Reading f) (g : ResourceGate f) → IsLater g (check_and_record_status r g).1
  unfolding check_and_record_status
  check_and_record_status-IsLater r g = elim (Bool-cases g.config.enabled) [
    | inl on ↦ elim (Bool-cases g.background) [
      | inl bg ↦ elim (Option-cases r.latest) [ inl e ↦ ground arith | inr (a, e) ↦ ground arith ]
      | inr bg ↦ ground arith
    ]
    | inr off ↦ ground arith
  ]

  clear_turn-IsLater :
      (limit : ℕ) (moment : ℕ → Moment f) (k : ℕ) (s : ResourceGate f)
      → ((s' : ResourceGate f) → clear_turn limit moment k s ≡ Turn.again s' → IsLater s s')
        × ((r : Bool × ResourceGate f) → clear_turn limit moment k s ≡ Turn.stop r → IsLater s r.1)
  unfolding clear_turn
  clear_turn-IsLater limit moment k s =
      elim (Option-cases (check_state s.config (moment k).state)) [
        | inl e ↦ (λ s' t. ground arith, λ r t. ground arith)
        | inr (reason, e) ↦ (λ s' t. ground arith, λ r t. ground arith)
      ]

  wait_for_clear-IsLater :
      (fuel : ℕ) (deadline : Option ℕ) (moment : ℕ → Moment f) (g : ResourceGate f)
      (r : Bool × ResourceGate f)
      → wait_for_clear_with_deadline fuel deadline moment g ≡ some r
      → IsLater g r.1
  unfolding wait_for_clear_with_deadline
  wait_for_clear-IsLater fuel deadline moment g r e = elim (Bool-cases g.config.enabled) [
    | inl on ↦
        poll_keeps (clear_turn (effective_max g.config deadline) moment) (λ s. IsLater g s)
          (λ r. IsLater g r.1)
          (λ k s s' p t.
            IsLater-trans g s s' p
              ((clear_turn-IsLater (effective_max g.config deadline) moment k s).0 s' t))
          (λ k s r p t.
            IsLater-trans g s r.1 p
              ((clear_turn-IsLater (effective_max g.config deadline) moment k s).1 r t))
          fuel 0 g r (IsLater-refl g) (simp on at e)
    | inr off ↦ ground arith
  ]

  brief_turn-IsLater :
      (limit : ℕ) (moment : ℕ → Moment f) (k : ℕ) (s : ResourceGate f)
      → ((s' : ResourceGate f) → brief_turn limit moment k s ≡ Turn.again s' → IsLater s s')
        × ((r : ResourceGate f) → brief_turn limit moment k s ≡ Turn.stop r → IsLater s r)
  unfolding brief_turn
  brief_turn-IsLater limit moment k s =
      elim (Option-cases (check_state s.config (moment k).state)) [
        | inl e ↦ (λ s' t. ground arith, λ r t. ground arith)
        | inr (reason, e) ↦ (λ s' t. ground arith, λ r t. ground arith)
      ]

  brief_wait-IsLater :
      (fuel limit : ℕ) (moment : ℕ → Moment f) (g r : ResourceGate f)
      → brief_wait fuel limit moment g ≡ some r
      → IsLater g r
  unfolding brief_wait
  brief_wait-IsLater fuel limit moment g r e = elim (Bool-cases g.config.enabled) [
    | inl on ↦
        poll_keeps (brief_turn limit moment) (λ s. IsLater g s) (λ r. IsLater g r)
          (λ k s s' p t. IsLater-trans g s s' p ((brief_turn-IsLater limit moment k s).0 s' t))
          (λ k s r p t. IsLater-trans g s r p ((brief_turn-IsLater limit moment k s).1 r t)) fuel 0
          g r (IsLater-refl g) (simp on at e)
    | inr off ↦ ground arith
  ]

  rival_turn-IsLater :
      (scan : ℕ → ℕ × ℕ) (k : ℕ) (s : ResourceGate f)
      → ((s' : ResourceGate f) → rival_turn scan k s ≡ Turn.again s' → IsLater s s')
        × ((r : ResourceGate f) → rival_turn scan k s ≡ Turn.stop r → IsLater s r)
  unfolding rival_turn
  rival_turn-IsLater scan k s = (λ s' t. ground arith, λ r t. ground arith)

  wait_for_no_benchmarks-IsLater :
      (fuel : ℕ) (scan : ℕ → ℕ × ℕ) (g r : ResourceGate f)
      → wait_for_no_benchmarks fuel scan g ≡ some r
      → IsLater g r
  unfolding wait_for_no_benchmarks
  wait_for_no_benchmarks-IsLater fuel scan g r e = elim (Bool-cases g.config.enabled) [
    | inl on ↦
        poll_keeps (rival_turn scan) (λ s. IsLater g s) (λ r. IsLater g r)
          (λ k s s' p t. IsLater-trans g s s' p ((rival_turn-IsLater scan k s).0 s' t))
          (λ k s r p t. IsLater-trans g s r p ((rival_turn-IsLater scan k s).1 r t)) fuel 0 g r
          (IsLater-refl g) (simp on at e)
    | inr off ↦ ground arith
  ]

-- One operation of a gate, with what the machine had for it.
pub data Step (f : Float) (g : ResourceGate f) : ResourceGate f → Type 0 where
  monitored : (elapsed : ℕ) → Step f g (start_monitoring elapsed g)
  recorded : (r : Reading f) → Step f g (check_and_record_status r g).1
  waited_clear :
      (fuel : ℕ) (deadline : Option ℕ) (moment : ℕ → Moment f) {r : Bool × ResourceGate f}
      → wait_for_clear_with_deadline fuel deadline moment g ≡ some r
      → Step f g r.1
  waited_briefly :
      (fuel limit : ℕ) (moment : ℕ → Moment f) {r : ResourceGate f}
      → brief_wait fuel limit moment g ≡ some r
      → Step f g r
  waited_rivals :
      (fuel : ℕ) (scan : ℕ → ℕ × ℕ) {r : ResourceGate f}
      → wait_for_no_benchmarks fuel scan g ≡ some r
      → Step f g r

pub data Reach (f : Float) (g : ResourceGate f) : ResourceGate f → Type 0 where
  here : Reach f g g
  next : {h i : ResourceGate f} → Reach f g h → Step f h i → Reach f g i

module _ {f : Float} where
  Step-IsLater : {g g' : ResourceGate f} → Step f g g' → IsLater g g'
  Step-IsLater {g} (monitored e) = start_monitoring-IsLater e g
  Step-IsLater {g} (recorded r) = check_and_record_status-IsLater r g
  Step-IsLater {g} (waited_clear n d m {r} e) = wait_for_clear-IsLater n d m g r e
  Step-IsLater {g} (waited_briefly n l m {r} e) = brief_wait-IsLater n l m g r e
  Step-IsLater {g} (waited_rivals n s {r} e) = wait_for_no_benchmarks-IsLater n s g r e

  Reach-IsLater : {g g' : ResourceGate f} → Reach f g g' → IsLater g g'
  Reach-IsLater {g} here = IsLater-refl g
  Reach-IsLater {g} (next {h} {i} r s) = IsLater-trans g h i (Reach-IsLater r) (Step-IsLater s)

  -- Whatever operations follow, a gate never changes its configuration, its counts never go down,
  -- and once its results are unreliable they stay so.
  pub Reach-is_unreliable :
      {g g' : ResourceGate f}
      → Reach f g g'
      → IsLater g g' × (is_unreliable g ≡ true → is_unreliable g' ≡ true)
  Reach-is_unreliable {g} {g'} r = let l = Reach-IsLater r in (l, λ u. sticky l u)
    where
      sticky : IsLater g g' → is_unreliable g ≡ true → is_unreliable g' ≡ true
      sticky l u = ground (arith, l.missing)
