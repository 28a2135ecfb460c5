-- ===== src/Gate/Outcome.antt =====
-- src/gate.rs: how the waiting loops end, and what they have counted by then.
use zenbench.Prelude.{
  ℕ, ◌+◌, ◌*◌, ◌/◌, ◌≤◌, ◌<◌, ◌≡◌, ◌≢◌, refl, Bool, true, false, Option, none, some, arith,
  Option-cases, ◌⊎◌, inl, inr, subst, ap, ◌∙◌,
}
use native.Mathlib.Decide.{dec_lt}
use zenbench.Prelude.Float.{Float}
use zenbench.Prelude.Poll.{Turn, poll_rule}
use zenbench.Gate.{GateConfig, ResourceGate, check_state}
use zenbench.Gate.Wait.{Moment, waited, clear_turn, effective_max, wait_for_clear_with_deadline}

quotient_bound : (k p e : ℕ) → 0 < p → k * p < e → k < e / p + 1
quotient_bound k p e h lt = grind arith

module _ {f : Float} where
  -- The loop of `wait_for_clear_with_deadline` left at turn `n`: the turns before saw a busy machine
  -- within the limit and slept, and turn `n` saw a quiet one, or a busy one past the limit.
  pub record ClearOutcome (limit n : ℕ) (moment : ℕ → Moment f) (g : ResourceGate f)
      (r : Bool × ResourceGate f) : Type 0 where
    pub bound : n ≤ limit / g.config.poll_interval + 1
    pub waits : r.1.total_waits ≡ g.total_waits + n
    pub time : r.1.total_wait_time ≡ g.total_wait_time + n * g.config.poll_interval
    pub missing : r.1.missing_observations ≡ g.missing_observations
    pub busy :
        (k : ℕ)
        → k < n
        → (check_state g.config (moment k).state ≢ none) × ((moment k).elapsed < limit)
    pub last :
        (r.0 ≡ true) × (check_state g.config (moment n).state ≡ none)
        ⊎ (r.0 ≡ false)
          × (check_state g.config (moment n).state ≢ none)
          × (limit ≤ (moment n).elapsed)

  -- Before turn `k` of that loop.
  record Waiting (limit : ℕ) (moment : ℕ → Moment f) (g : ResourceGate f) (k : ℕ)
      (s : ResourceGate f) : Type 0 where
    same : s.config ≡ g.config
    waits : s.total_waits ≡ g.total_waits + k
    time : s.total_wait_time ≡ g.total_wait_time + k * g.config.poll_interval
    missing : s.missing_observations ≡ g.missing_observations
    busy :
        (j : ℕ)
        → j < k
        → (check_state g.config (moment j).state ≢ none) × ((moment j).elapsed < limit)

  module _ (limit : ℕ) (moment : ℕ → Moment f) (g : ResourceGate f)
      (sleeps : (k : ℕ) → k * g.config.poll_interval ≤ (moment k).elapsed)
      (interval : 0 < g.config.poll_interval) where
    clear_turn-again :
        (k : ℕ) (s s' : ResourceGate f)
        → clear_turn limit moment k s ≡ Turn.again s'
        → (s' ≡ waited s.config.poll_interval s)
          × (check_state s.config (moment k).state ≢ none)
          × ((moment k).elapsed < limit)
    unfolding clear_turn
    clear_turn-again k s s' e = elim (Option-cases (check_state s.config (moment k).state)) [
      | inl clear ↦ ground arith
      | inr (reason, found) ↦ ground arith
    ]

    clear_turn-stop :
        (k : ℕ) (s : ResourceGate f) (r : Bool × ResourceGate f)
        → clear_turn limit moment k s ≡ Turn.stop r
        → (r.1 ≡ s)
          × ((r.0 ≡ true) × (check_state s.config (moment k).state ≡ none)
              ⊎ (r.0 ≡ false)
                × (check_state s.config (moment k).state ≢ none)
                × (limit ≤ (moment k).elapsed))
    unfolding clear_turn
    clear_turn-stop k s r e = elim (Option-cases (check_state s.config (moment k).state)) [
      | inl clear ↦ ground arith
      | inr (reason, found) ↦ ground arith
    ]

    Waiting-again :
        (k : ℕ) (s s' : ResourceGate f)
        → Waiting limit moment g k s
        → clear_turn limit moment k s ≡ Turn.again s'
        → Waiting limit moment g (k + 1) s' × (k < limit / g.config.poll_interval + 1)
    Waiting-again k s s' w e =
        let (next, found, early) = clear_turn-again k s s' e in
        let noisy : check_state g.config (moment k).state ≢ none =
          subst (λ c. check_state c (moment k).state ≢ none) w.same found in
        (
          record {
            same = ap (λ t. t.config) next ∙ w.same;
            waits = omega (arith, ap (λ t. t.total_waits) next, w.waits);
            time =
                ap (λ t. t.total_wait_time) next
                ∙ grind (arith, w.time, ap (λ (c : GateConfig f). c.poll_interval) w.same);
            missing = ap (λ t. t.missing_observations) next ∙ w.missing;
            busy = λ j lt. elim (dec_lt j k) [
              | yes old ↦ w.busy j old
              | no new ↦
                  let here : k ≡ j = omega arith in
                  subst
                    (λ i.
                      (check_state g.config (moment i).state ≢ none) × ((moment i).elapsed < limit))
                    here (noisy, early)
            ];
          },
          quotient_bound k g.config.poll_interval limit interval (omega (arith, sleeps k)),
        )

    Waiting-stop :
        (k : ℕ) (s : ResourceGate f) (r : Bool × ResourceGate f)
        → Waiting limit moment g k s × (k ≤ limit / g.config.poll_interval + 1)
        → clear_turn limit moment k s ≡ Turn.stop r
        → (n : ℕ) × ClearOutcome limit n moment g r
    Waiting-stop k s r (w, bound) e =
        let (same, last) = clear_turn-stop k s r e in
        (
          k,
          record {
            bound = bound;
            waits = ap (λ t. t.total_waits) same ∙ w.waits;
            time = ap (λ t. t.total_wait_time) same ∙ w.time;
            missing = ap (λ t. t.missing_observations) same ∙ w.missing;
            busy = w.busy;
            last =
                subst
                  (λ c.
                    (r.0 ≡ true) × (check_state c (moment k).state ≡ none)
                    ⊎ (r.0 ≡ false)
                      × (check_state c (moment k).state ≢ none)
                      × (limit ≤ (moment k).elapsed))
                  w.same last;
          },
        )

  -- Where a sleep lasts at least the poll interval, waiting on an enabled gate ends within
  -- `limit / interval + 1` sleeps, for the limit that the configuration and the deadline give. It
  -- returns `true` exactly at the first turn that finds the machine quiet, and `false` exactly at
  -- a busy turn past the limit with none quiet before; each turn before that is counted as one
  -- wait of one interval, and no observation is marked as missing.
  pub wait_for_clear_with_deadline-ClearOutcome :
      (fuel : ℕ) (deadline : Option ℕ) (moment : ℕ → Moment f) (g : ResourceGate f)
      → g.config.enabled ≡ true
      → 0 < g.config.poll_interval
      → ((k : ℕ) → k * g.config.poll_interval ≤ (moment k).elapsed)
      → effective_max g.config deadline / g.config.poll_interval + 1 < fuel
      → (r : Bool × ResourceGate f) × (wait_for_clear_with_deadline fuel deadline moment g ≡ some r)
        × (n : ℕ) × ClearOutcome (effective_max g.config deadline) n moment g r
  unfolding wait_for_clear_with_deadline
  wait_for_clear_with_deadline-ClearOutcome fuel deadline moment g on interval sleeps enough =
      let limit = effective_max g.config deadline in
      let last = limit / g.config.poll_interval + 1 in
      let (r, e, o) =
        poll_rule (clear_turn limit moment) (λ k s. Waiting limit moment g k s × (k ≤ last))
          (λ r. (n : ℕ) × ClearOutcome limit n moment g r) last
          (λ k s s' w e.
            let (w', lt) = Waiting-again limit moment g sleeps interval k s s' w.0 e in
            ((w', omega arith), lt))
          (λ k s r w e. Waiting-stop limit moment g sleeps interval k s r w e) fuel 0 g
          (omega arith) (omega arith)
          (
            record {
              same = refl;
              waits = omega arith;
              time = omega arith;
              missing = refl;
              busy = λ j lt. elim lt [ ];
            },
            omega arith,
          ) in
      (r, simp on e, o.0, o.1)
