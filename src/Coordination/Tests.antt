-- ===== src/Coordination/Tests.antt =====
-- Tests of the admission protocol, and the witnesses of its theorems: two processes enqueue, the
-- first is admitted and dies, and the second meets the orphan.
use zenbench.Prelude.{ℕ, ◌≤◌, ◌≡◌, refl, true, false, some, List, [], ◌∷◌, contains, ok, err, arith}
use zenbench.Prelude.Text.{codes, parse_usize}
use zenbench.Coordination.{
  Ticket, Directory, AdmissionError, new_ticket, run, enqueue, try_admit, scan, release,
  has_running, drop_reservation,
}
use zenbench.Coordination.Steps.{Step, Run, empty_directory}
use zenbench.Coordination.Exclusion.{Run-exclusive, admitted_first}
use zenbench.Coordination.Orphan.{IsOrphan, IsOrphan-stops, first_admitted}
use zenbench.Coordination.Lease.{
  Process, inherit, inherit-IsLease, IsLease, is_ancestor, queued_pids,
}

abbrev first_ticket : Ticket
first_ticket = new_ticket 1 100 5 (codes "a")

abbrev second_ticket : Ticket
second_ticket = new_ticket 2 200 6 (codes "b")

abbrev one_queued : Directory
one_queued = record { counter = some 1; tickets = first_ticket ∷ []; held = 1 ∷ [] }

abbrev two_queued : Directory
two_queued = record {
  counter = some 2;
  tickets = second_ticket ∷ first_ticket ∷ [];
  held = 2 ∷ 1 ∷ [];
}

abbrev first_runs : Directory
first_runs = record {
  counter = some 2;
  tickets = second_ticket ∷ run first_ticket ∷ [];
  held = 2 ∷ 1 ∷ [];
}

abbrev first_died : Directory
first_died = record {
  counter = some 2;
  tickets = second_ticket ∷ run first_ticket ∷ [];
  held = 2 ∷ [];
}

enqueues_first : enqueue 100 5 (codes "a") empty_directory ≡ ok (first_ticket, one_queued)
unfolding enqueue
enqueues_first = refl

enqueues_second : enqueue 200 6 (codes "b") one_queued ≡ ok (second_ticket, two_queued)
unfolding enqueue
enqueues_second = refl

admits_first : try_admit first_ticket two_queued ≡ (first_runs, ok true)
unfolding try_admit scan
admits_first = refl

blocks_second : try_admit second_ticket two_queued ≡ (two_queued, ok false)
unfolding try_admit scan
blocks_second = refl

meets_orphan :
    try_admit second_ticket first_died
    ≡ (first_died, err (AdmissionError.orphaned (run first_ticket)))
unfolding try_admit scan
meets_orphan = refl

drops_first :
    drop_reservation false 1 first_runs
    ≡ record { counter = some 2; tickets = second_ticket ∷ []; held = 2 ∷ [] }
unfolding drop_reservation release
drops_first = refl

Run-queued : Run empty_directory two_queued
Run-queued =
    Run.next (Run.next Run.here (Step.enqueued 100 5 (codes "a") first_ticket enqueues_first))
      (Step.enqueued 200 6 (codes "b") second_ticket enqueues_second)

Run-first : Run empty_directory first_runs
unfolding try_admit scan
Run-first = Run.next Run-queued (Step.tried {d = two_queued} first_ticket refl)

Run-died : Run empty_directory first_died
unfolding release
Run-died = Run.next Run-first (Step.died {d = first_runs} 1)

Run-exclusive_example : Path ℕ 1 1
Run-exclusive_example = Run-exclusive first_runs 1 1 Run-first refl refl

admits : (try_admit first_ticket two_queued).1 ≡ ok true
unfolding try_admit scan
admits = refl

admitted_first_example : 1 ≤ 2
admitted_first_example = admitted_first two_queued first_ticket 2 Run-queued admits refl

IsOrphan-stops_example :
    IsOrphan 1 first_died × ((k : ℕ) → has_running k first_died.tickets ≡ true → k ≡ 1)
IsOrphan-stops_example = IsOrphan-stops first_died first_died 1 Run-died (refl, refl) Run.here

first_is_least : (m : ℕ) → contains two_queued.held m ≡ true → 1 ≤ m
first_is_least m h = ground arith

first_admitted_example :
    ((try_admit first_ticket two_queued).1 ≡ ok true)
    × (has_running 1 ((try_admit first_ticket two_queued).0.tickets) ≡ true)
first_admitted_example = first_admitted two_queued first_ticket first_is_least tt

abbrev processes : List Process
processes =
    record { pid = 100; start = 5; parent = some 1 }
    ∷ record { pid = 300; start = 8; parent = some 100 }
    ∷ []

inherits : inherit (codes "1") first_runs processes 300 ≡ ok 1
unfolding inherit is_ancestor
inherits = refl

inherit-IsLease_example : (parse_usize (codes "1") ≡ some 1) × IsLease first_runs processes 300 1
inherit-IsLease_example = inherit-IsLease (codes "1") first_runs processes 300 1 inherits

first_waits : queued_pids processes two_queued ≡ 100 ∷ []
unfolding queued_pids
first_waits = refl
