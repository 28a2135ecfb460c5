-- ===== src/Coordination/Orphan.antt =====
-- src/coordination.rs: tickets of dead owners that were running, and the head of the queue.
use zenbench.Prelude.{
  ℕ, suc, ◌≤◌, ◌≡◌, refl, true, false, Option, none, some, List, [], ◌∷◌, ◌==◌, not, contains, keep,
  All, Result, ok, err, arith, Bool-cases, inl, inr, subst, ap, ◌∙◌, Option-cases,
}
use zenbench.Prelude.Text.{Text}
use zenbench.Prelude.Word.{checked_add}
use zenbench.Coordination.{
  Ticket, Directory, AdmissionError, count, new_ticket, enqueue, scan, write_ticket, run, settle,
  try_admit, release, remove, has_ticket, has_running, drop_reservation,
}
use zenbench.Coordination.Steps.{Step, Run, empty_directory}
use zenbench.Coordination.Invariant.{IsFrom, IsValid, scan-keeps-running}
use zenbench.Coordination.Preserved.{empty-IsValid}
use zenbench.Coordination.Exclusion.{Run-IsValid, one_running, has_running-has_ticket}

-- A running ticket whose owner is gone.
abbrev pub IsOrphan : ℕ → Directory → Type 0
IsOrphan m d = (has_running m d.tickets ≡ true) × (contains d.held m ≡ false)

has_running-remove :
    (n m : ℕ) (ts : List Ticket)
    → (m == n) ≡ false
    → has_running m ts ≡ true
    → has_running m (remove n ts) ≡ true
has_running-remove n m [] h k = k
has_running-remove n m (t ∷ ts) h k = ground (arith, has_running-remove n m ts)

has_running-write :
    (own : Ticket) (m : ℕ) (ts : List Ticket)
    → (own.sequence == m) ≡ false
    → has_running m ts ≡ true
    → has_running m (write_ticket own ts) ≡ true
has_running-write own m [] o h = absurd (ground arith)
has_running-write own m (t ∷ ts) o h = ground (arith, has_running-write own m ts)

not-live :
    (held : List ℕ) (n m : ℕ) → contains held n ≡ true → contains held m ≡ false → (n == m) ≡ false
not-live held n m h g = elim (Bool-cases (n == m)) [
  | inr other ↦ other
  | inl same ↦
      let e : n ≡ m = ground arith in
      let live = subst (λ x. contains held x ≡ true) e h in absurd cc
]

released-dead :
    (n m : ℕ) (held : List ℕ)
    → contains held m ≡ false
    → contains (keep (λ h. not (h == n)) held) m ≡ false
released-dead n m [] h = h
released-dead n m (x ∷ held) h = ground (arith, released-dead n m held)

settle-keeps :
    (own : Ticket) (m : ℕ) (outcome : Result AdmissionError (Option Ticket)) (ts : List Ticket)
    → (own.sequence == m) ≡ false
    → has_running m ts ≡ true
    → has_running m ((settle own outcome ts).0) ≡ true
settle-keeps own m (err e) ts o h = h
settle-keeps own m (ok (some t)) ts o h = h
settle-keeps own m (ok none) ts o h = has_running-write (run own) m ts o h

enqueue-IsOrphan :
    (d : Directory) (pid start : ℕ) (activity : Text) (t : Ticket) (e : Directory) (m : ℕ)
    → m ≤ count d.counter
    → enqueue pid start activity d ≡ ok (t, e)
    → IsOrphan m d
    → IsOrphan m e
unfolding enqueue
enqueue-IsOrphan d pid start activity t e m bound q o =
    elim (Option-cases (checked_add (count d.counter) 1)) [
      | inl exhausted ↦ absurd (ground arith)
      | inr (n, h) ↦
          let is_next : n ≡ suc (count d.counter) = ground arith in
          let own = new_ticket n pid start activity in
          let queued : Directory = record {
            counter = some n;
            tickets = own ∷ d.tickets;
            held = n ∷ d.held;
          } in
          let same : queued ≡ e = ground arith in
          subst (IsOrphan m) same (ground (arith, o.0), ground (arith, o.1))
    ]

ticket-bound :
    (n m : ℕ) (ts : List Ticket) → All (λ t. t.sequence ≤ n) ts → has_ticket m ts ≡ true → m ≤ n
ticket-bound n m [] b h = absurd (ground arith)
ticket-bound n m (t ∷ ts) b h = ground (arith, ticket-bound n m ts)

Step-IsOrphan : {d e : Directory} (m : ℕ) → Step d e → IsValid d → IsOrphan m d → IsOrphan m e
unfolding try_admit drop_reservation release
Step-IsOrphan {d} {e} m (Step.enqueued pid start activity t q) v o =
    enqueue-IsOrphan d pid start activity t e m
      (ticket-bound (count d.counter) m d.tickets v.numbered
        (has_running-has_ticket m d.tickets o.0))
      q o
Step-IsOrphan {d} m Step.spent v o = o
Step-IsOrphan {d} m (Step.tried own live) v o = (
  settle-keeps own m ((scan own.sequence d.held none d.tickets).1)
      ((scan own.sequence d.held none d.tickets).0) (not-live d.held own.sequence m live o.1)
      (scan-keeps-running own.sequence m d.held none d.tickets o.0),
  o.1,
)
Step-IsOrphan {d} m (Step.dropped true n live) v o = (o.0, released-dead n m d.held o.1)
Step-IsOrphan {d} m (Step.dropped false n live) v o = (
  has_running-remove n m d.tickets (flip n m (not-live d.held n m live o.1)) o.0,
  released-dead n m d.held o.1,
)
  where
    flip : (a b : ℕ) → (a == b) ≡ false → (b == a) ≡ false
    flip a b h = ground arith
Step-IsOrphan {d} m (Step.swept n dead waits) v o =
    (has_running-remove n m d.tickets (other m n d.tickets o.0 waits) o.0, o.1)
  where
    other :
        (a b : ℕ) (ts : List Ticket)
        → has_running a ts ≡ true
        → has_running b ts ≡ false
        → (a == b) ≡ false
    other a b ts h g = elim (Bool-cases (a == b)) [
      | inr differ ↦ differ
      | inl same ↦
          let e : a ≡ b = ground arith in
          let runs = subst (λ x. has_running x ts ≡ true) e h in absurd cc
    ]
Step-IsOrphan {d} m (Step.died n) v o = (o.0, released-dead n m d.held o.1)

Run-IsOrphan : {d e : Directory} (m : ℕ) → Run d e → IsValid d → IsOrphan m d → IsOrphan m e
Run-IsOrphan m Run.here v o = o
Run-IsOrphan m (Run.next r s) v o = Step-IsOrphan m s (Run-IsValid r v) (Run-IsOrphan m r v o)

-- In every state that the protocol reaches, a running reservation whose owner is gone stays in the directory whatever the processes do from
-- then on, and no other reservation is ever marked as running: its work may still be alive.
pub IsOrphan-stops :
    (d e : Directory) (m : ℕ)
    → Run empty_directory d
    → IsOrphan m d
    → Run d e
    → IsOrphan m e × ((k : ℕ) → has_running k e.tickets ≡ true → k ≡ m)
IsOrphan-stops d e m r o s =
    let v = Run-IsValid r empty-IsValid in
    let q = Run-IsOrphan m s v o in (q, λ k h. one_running e k m (Run-IsValid s v) h q.0)

-- A scan with no earlier live owner and no earlier orphan finds nothing.
scan-first :
    (n : ℕ) (held : List ℕ) (ts : List Ticket)
    → ((m : ℕ) → contains held m ≡ true → n ≤ m)
    → IsFrom n (keep (λ t. t.running) ts)
    → (scan n held none ts).1 ≡ ok none
unfolding scan
scan-first n held [] first calm = refl
scan-first n held (t ∷ ts) first calm = ground (arith, scan-first n held ts first, first t.sequence)

settle-none :
    (own : Ticket) (outcome : Result AdmissionError (Option Ticket)) (ts : List Ticket)
    → outcome ≡ ok none
    → settle own outcome ts ≡ (write_ticket (run own) ts, ok true)
settle-none own outcome ts e = rw e

-- The reservation with the smallest number among the live owners is admitted in its next pass,
-- unless an earlier running ticket is an orphan.
pub first_admitted :
    (d : Directory) (own : Ticket)
    → ((m : ℕ) → contains d.held m ≡ true → own.sequence ≤ m)
    → IsFrom own.sequence (keep (λ t. t.running) d.tickets)
    → ((try_admit own d).1 ≡ ok true)
      × (has_running own.sequence ((try_admit own d).0.tickets) ≡ true)
unfolding try_admit
first_admitted d own first calm =
    let left = (scan own.sequence d.held none d.tickets).0 in
    let e =
      settle-none own ((scan own.sequence d.held none d.tickets).1) left
        (scan-first own.sequence d.held d.tickets first calm) in
    (ap (λ r. r.1) e, ap (λ r. has_running own.sequence r.0) e ∙ written-runs own left)
  where
    written-runs :
        (a : Ticket) (ts : List Ticket) → has_running a.sequence (write_ticket (run a) ts) ≡ true
    written-runs a [] = ground arith
    written-runs a (t ∷ ts) = ground (arith, written-runs a ts)
