-- ===== src/Coordination/Exclusion.antt =====
-- src/coordination.rs: who may run, over all runs of the admission protocol.
use zenbench.Prelude.{
  ℕ, ◌≤◌, ◌≡◌, refl, true, Option, none, some, List, [], ◌∷◌, ◌==◌, ◌&&◌, contains, All, Result, ok,
  err, arith, Bool-cases, inl, inr, subst,
}
use zenbench.Coordination.{
  Ticket, Directory, AdmissionError, scan, settle, try_admit, has_ticket, has_running,
}
use zenbench.Coordination.Steps.{Step, Run, empty_directory}
use zenbench.Coordination.Invariant.{IsFrom, IsFirst, IsValid, scan-keeps-live, scan-clear}
use zenbench.Coordination.Preserved.{
  empty-IsValid, enqueue-IsValid, spent-IsValid, release-IsValid, drop-IsValid, swept-IsValid,
}
use zenbench.Coordination.Admit.{from-has_ticket, try_admit-IsValid}

pub Step-IsValid : {d e : Directory} → Step d e → IsValid d → IsValid e
Step-IsValid {d} {e} (Step.enqueued pid start activity t q) v =
    enqueue-IsValid d pid start activity t e v q
Step-IsValid {d} Step.spent v = spent-IsValid d v
Step-IsValid {d} (Step.tried own live) v = try_admit-IsValid d own live v
Step-IsValid {d} (Step.dropped retain n live) v = drop-IsValid d retain n v
Step-IsValid {d} (Step.swept n dead waits) v = swept-IsValid d n dead v
Step-IsValid {d} (Step.died n) v = release-IsValid d n v

pub Run-IsValid : {d e : Directory} → Run d e → IsValid d → IsValid e
Run-IsValid Run.here v = v
Run-IsValid (Run.next r s) v = Step-IsValid s (Run-IsValid r v)

-- Nothing is before a ticket that runs.
running-IsFrom :
    (m : ℕ) (ts us : List Ticket) → All (IsFirst ts) us → has_running m us ≡ true → IsFrom m ts
running-IsFrom m ts [] f h = absurd (ground arith)
running-IsFrom m ts (u ∷ us) f h = elim (Bool-cases (u.sequence == m && u.running)) [
  | inl this ↦
      let same : u.sequence ≡ m = ground arith in subst (λ k. IsFrom k ts) same (f.0 (ground arith))
  | inr other ↦ running-IsFrom m ts us f.1 (ground arith)
]

pub has_running-has_ticket :
    (m : ℕ) (ts : List Ticket) → has_running m ts ≡ true → has_ticket m ts ≡ true
has_running-has_ticket m [] h = h
has_running-has_ticket m (t ∷ ts) h = ground (arith, has_running-has_ticket m ts)

pub one_running :
    (d : Directory) (m k : ℕ)
    → IsValid d
    → has_running m d.tickets ≡ true
    → has_running k d.tickets ≡ true
    → m ≡ k
one_running d m k v h g =
    let a =
      from-has_ticket m k d.tickets (running-IsFrom m d.tickets d.tickets v.first h)
        (has_running-has_ticket k d.tickets g) in
    let b =
      from-has_ticket k m d.tickets (running-IsFrom k d.tickets d.tickets v.first g)
        (has_running-has_ticket m d.tickets h) in
    omega (arith, a, b)

-- However processes enqueue, try, drop their reservations and die, at most one reservation is
-- marked as running, among live owners and orphans alike.
pub Run-exclusive :
    (d : Directory) (m k : ℕ)
    → Run empty_directory d
    → has_running m d.tickets ≡ true
    → has_running k d.tickets ≡ true
    → m ≡ k
Run-exclusive d m k r h g = one_running d m k (Run-IsValid r empty-IsValid) h g

-- A pass that admits leaves only tickets from its own on.
admitted-clear :
    (own : Ticket) (outcome : Result AdmissionError (Option Ticket)) (ts : List Ticket)
    → (settle own outcome ts).1 ≡ ok true
    → outcome ≡ ok none
admitted-clear own (err e) ts h = absurd cc
admitted-clear own (ok (some t)) ts h = absurd cc
admitted-clear own (ok none) ts h = refl

-- Admission is first come, first served: in every state that the protocol reaches, a reservation
-- is admitted only when no live owner holds one with a smaller number.
pub admitted_first :
    (d : Directory) (own : Ticket) (m : ℕ)
    → Run empty_directory d
    → (try_admit own d).1 ≡ ok true
    → contains d.held m ≡ true
    → own.sequence ≤ m
unfolding try_admit
admitted_first d own m r e live =
    let v = Run-IsValid r empty-IsValid in
    let clear =
      scan-clear own.sequence d.held none d.tickets
        (admitted-clear own _ ((scan own.sequence d.held none d.tickets).0) e) in
    from-has_ticket own.sequence m ((scan own.sequence d.held none d.tickets).0) clear.1
      (scan-keeps-live own.sequence m d.held none d.tickets live (v.present m live))
