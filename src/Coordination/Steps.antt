-- ===== src/Coordination/Steps.antt =====
-- src/coordination.rs: the runs of the admission protocol, as sequences of transactions of any
-- number of processes.
use zenbench.Prelude.{ℕ, suc, ◌≡◌, Bool, true, false, none, some, [], contains, ok}
use zenbench.Prelude.Text.{Text}
use zenbench.Coordination.{
  Ticket, Directory, enqueue, try_admit, release, remove, drop_reservation, count, has_running,
}

-- One transaction. Only a live owner, whose guard is locked, tries to run or drops its
-- reservation. A process may die at any time, also while it enqueues: the number is then spent.
pub data Step : Directory → Directory → Type 0 where
  enqueued :
      {d e : Directory} (pid start : ℕ) (activity : Text) (t : Ticket)
      → enqueue pid start activity d ≡ ok (t, e)
      → Step d e
  spent : {d : Directory} → Step d (record d { counter = some (suc (count d.counter)) })
  tried :
      {d : Directory} (own : Ticket)
      → contains d.held own.sequence ≡ true
      → Step d ((try_admit own d).0)
  dropped :
      {d : Directory} (retain : Bool) (n : ℕ)
      → contains d.held n ≡ true
      → Step d (drop_reservation retain n d)
  -- a scan that dies halfway has removed waiting tickets of dead owners
  swept :
      {d : Directory} (n : ℕ)
      → contains d.held n ≡ false
      → has_running n d.tickets ≡ false
      → Step d (record d { tickets = remove n d.tickets })
  -- also the end of a drop whose cleanup failed: only the guard goes
  died : {d : Directory} (n : ℕ) → Step d (release n d)

pub data Run : Directory → Directory → Type 0 where
  here : {d : Directory} → Run d d
  next : {d e g : Directory} → Run d e → Step e g → Run d g

abbrev pub empty_directory : Directory
empty_directory = record { counter = none; tickets = []; held = [] }
