-- ===== src/Coordination.antt =====
-- src/coordination.rs: the FIFO admission of benchmark processes through a shared directory. A
-- directory is its counter, its tickets (one file for each sequence) and the guards that live
-- owners hold locked. The files and locks change only under the control mutex, so that each
-- operation here is one transaction; a lock is given up by the system when its owner dies.
pub mod Steps
pub mod Invariant
pub mod Preserved
pub mod Admit
pub mod Exclusion
pub mod Orphan
pub mod Lease
mod Tests
use zenbench.Prelude.{
  ℕ, zero, suc, ◌+◌, ◌≡◌, Bool, true, false, Option, none, some, List, [], ◌∷◌, if◌then◌else◌, leb,
  ◌==◌, not, ◌&&◌, contains, keep, any, Result, ok, err,
}
use zenbench.Prelude.Word.{checked_add}
use zenbench.Prelude.Text.{Text}

-- `struct Ticket`
pub record Ticket : Type 0 where
  pub sequence : ℕ
  pub pid : ℕ
  pub start : ℕ
  pub activity : Text
  pub running : Bool

-- The files `sequence`, `<n>.json` and the locked `<n>.guard`
pub record Directory : Type 0 where
  pub counter : Option ℕ
  pub tickets : List Ticket
  pub held : List ℕ

-- the number in the file `sequence`, 0 without the file
abbrev pub count : Option ℕ → ℕ
count none = 0
count (some n) = n

pub data AdmissionError : Type 0 where
  sequence_exhausted : AdmissionError
  orphaned : Ticket → AdmissionError

abbrev pub new_ticket : ℕ → ℕ → ℕ → Text → Ticket
new_ticket n pid start activity = record {
  sequence = n;
  pid = pid;
  start = start;
  activity = activity;
  running = false;
}

-- `at_controlled`, the first transaction: a number, a locked guard, and a ticket that waits
unfoldable pub enqueue :
    (pid start : ℕ) → Text → Directory → Result AdmissionError (Ticket × Directory)
enqueue pid start activity d = elim (checked_add (count d.counter) 1) [
  | none ↦ err AdmissionError.sequence_exhausted
  | some n ↦
      let t = new_ticket n pid start activity in
      ok (t, record { counter = some n; tickets = t ∷ d.tickets; held = n ∷ d.held })
]

abbrev pub prepend :
    Ticket
    → List Ticket × Result AdmissionError (Option Ticket)
    → List Ticket × Result AdmissionError (Option Ticket)
prepend t (ts, outcome) = (t ∷ ts, outcome)

-- `at_controlled`, the scan of the earlier tickets: what is left of them, and the last one that a
-- live owner blocks, or the refusal of an orphan
unfoldable pub scan :
    ℕ → List ℕ → Option Ticket → List Ticket → List Ticket × Result AdmissionError (Option Ticket)
scan n held blocked [] = ([], ok blocked)
scan n held blocked (t ∷ ts) = elim (leb n t.sequence) [
  | true ↦ prepend t (scan n held blocked ts)
  | false ↦ elim (contains held t.sequence) [
    | true ↦ prepend t (scan n held (some t) ts)
    | false ↦ elim t.running [
      | true ↦ (t ∷ ts, err (AdmissionError.orphaned t))
      | false ↦ scan n held blocked ts
    ]
  ]
]

-- `fs::write` of the ticket's file
abbrev pub write_ticket : Ticket → List Ticket → List Ticket
write_ticket own [] = own ∷ []
write_ticket own (t ∷ ts) = if t.sequence == own.sequence then own ∷ ts else t ∷ write_ticket own ts

abbrev pub run : Ticket → Ticket
run t = record t { running = true }

-- the end of one pass of the loop: the ticket runs where nothing blocked it
abbrev pub settle :
    Ticket
    → Result AdmissionError (Option Ticket)
    → List Ticket
    → List Ticket × Result AdmissionError Bool
settle own (err e) ts = (ts, err e)
settle own (ok (some t)) ts = (ts, ok false)
settle own (ok none) ts = (write_ticket (run own) ts, ok true)

-- `at_controlled`, one pass of the loop; the result says whether the ticket was admitted
unfoldable pub try_admit : Ticket → Directory → Directory × Result AdmissionError Bool
unfolding scan
try_admit own d =
    let (left, outcome) = scan own.sequence d.held none d.tickets in
    let (tickets, admitted) = settle own outcome left in (record d { tickets = tickets }, admitted)

-- A guard is unlocked: its owner died, or kept its ticket for work that may still run.
unfoldable pub release : ℕ → Directory → Directory
release n d = record d { held = keep (λ h. not (h == n)) d.held }

-- `fs::remove_file` of the ticket's file
abbrev pub remove : ℕ → List Ticket → List Ticket
remove n ts = keep (λ t. not (t.sequence == n)) ts

-- The sequence has a ticket, or one that runs.
abbrev pub has_ticket : ℕ → List Ticket → Bool
has_ticket n ts = any (λ t. t.sequence == n) ts

abbrev pub has_running : ℕ → List Ticket → Bool
has_running n ts = any (λ t. t.sequence == n && t.running) ts

-- `impl Drop for Reservation`: the ticket goes before the guard, unless it is retained.
unfoldable pub drop_reservation : (retain : Bool) → ℕ → Directory → Directory
unfolding release
drop_reservation true n d = release n d
drop_reservation false n d = release n (record d { tickets = remove n d.tickets })
