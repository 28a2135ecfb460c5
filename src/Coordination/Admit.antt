-- ===== src/Coordination/Admit.antt =====
-- src/coordination.rs: the invariant over one pass of the admission loop.
use zenbench.Prelude.{
  ℕ, ◌≤◌, ◌≡◌, refl, true, false, Option, none, some, List, [], ◌∷◌, ◌==◌, contains, All, Result,
  ok, err, arith, Bool-cases, inl, inr, subst, sym,
}
use zenbench.Coordination.{
  Ticket, Directory, AdmissionError, count, scan, write_ticket, run, settle, try_admit, has_ticket,
}
use zenbench.Coordination.Invariant.{
  IsFrom, IsFirst, IsValid, All-map, scan-All, scan-keeps-live, scan-clear,
}

pub write-All {κ} :
    (P : Ticket → Type κ) (own : Ticket) (ts : List Ticket)
    → P own
    → All P ts
    → All P (write_ticket own ts)
write-All P own [] o h = (o, tt)
write-All P own (t ∷ ts) o h = elim (Bool-cases (t.sequence == own.sequence)) [
  | inl same ↦ subst (All P) (sym (write-same own t ts same)) (o, h.1)
  | inr other ↦ subst (All P) (sym (write-other own t ts other)) (h.0, write-All P own ts o h.1)
]
  where
    write-same :
        (a u : Ticket) (us : List Ticket)
        → (u.sequence == a.sequence) ≡ true
        → write_ticket a (u ∷ us) ≡ a ∷ us
    write-same a u us e = ground arith

    write-other :
        (a u : Ticket) (us : List Ticket)
        → (u.sequence == a.sequence) ≡ false
        → write_ticket a (u ∷ us) ≡ u ∷ write_ticket a us
    write-other a u us e = ground arith

pub has_ticket-write :
    (own : Ticket) (m : ℕ) (ts : List Ticket)
    → has_ticket m ts ≡ true
    → has_ticket m (write_ticket own ts) ≡ true
has_ticket-write own m [] h = absurd (ground arith)
has_ticket-write own m (t ∷ ts) h = ground (arith, has_ticket-write own m ts)

-- A bound on all tickets is one on a number that has a ticket.
pub from-has_ticket : (k n : ℕ) (ts : List Ticket) → IsFrom k ts → has_ticket n ts ≡ true → k ≤ n
from-has_ticket k n [] f h = absurd (ground arith)
from-has_ticket k n (t ∷ ts) f h = ground (arith, from-has_ticket k n ts)

scanned-IsValid :
    (d : Directory) (n : ℕ)
    → IsValid d
    → IsValid (record d { tickets = (scan n d.held none d.tickets).0 })
scanned-IsValid d n v = record {
  numbered = scan-All (λ u. u.sequence ≤ count d.counter) n d.held none d.tickets v.numbered;
  first = scan-All (IsFirst ((scan n d.held none d.tickets).0)) n d.held none d.tickets (
      All-map (IsFirst d.tickets) (IsFirst ((scan n d.held none d.tickets).0)) d.tickets
        (λ u f runs. scan-All (λ w. u.sequence ≤ w.sequence) n d.held none d.tickets (f runs))
        v.first);
  present = λ m h. scan-keeps-live n m d.held none d.tickets h (v.present m h);
  guarded = v.guarded;
}

-- A ticket that comes first among the tickets may run.
written-IsValid :
    (d : Directory) (own : Ticket)
    → contains d.held own.sequence ≡ true
    → IsFrom own.sequence d.tickets
    → IsValid d
    → IsValid (record d { tickets = write_ticket (run own) d.tickets })
written-IsValid d own live clear v = record {
  numbered =
      write-All (λ u. u.sequence ≤ count d.counter) (run own) d.tickets
        (v.guarded own.sequence live) v.numbered;
  first =
      write-All (IsFirst (write_ticket (run own) d.tickets)) (run own) d.tickets
        (λ runs. write-All (λ w. own.sequence ≤ w.sequence) (run own) d.tickets (omega arith) clear)
        (All-map (IsFirst d.tickets) (IsFirst (write_ticket (run own) d.tickets)) d.tickets
          (λ u f runs.
            write-All (λ w. u.sequence ≤ w.sequence) (run own) d.tickets
              (from-has_ticket u.sequence own.sequence d.tickets (f runs)
                (v.present own.sequence live))
              (f runs))
          v.first);
  present = λ m h. has_ticket-write (run own) m d.tickets (v.present m h);
  guarded = v.guarded;
}

settled-IsValid :
    (d : Directory) (own : Ticket) (outcome : Result AdmissionError (Option Ticket))
    → contains d.held own.sequence ≡ true
    → (outcome ≡ ok none → IsFrom own.sequence d.tickets)
    → IsValid d
    → IsValid (record d { tickets = (settle own outcome d.tickets).0 })
settled-IsValid d own (err e) live clear v = v
settled-IsValid d own (ok (some t)) live clear v = v
settled-IsValid d own (ok none) live clear v = written-IsValid d own live (clear refl) v

pub try_admit-IsValid :
    (d : Directory) (own : Ticket)
    → contains d.held own.sequence ≡ true
    → IsValid d
    → IsValid ((try_admit own d).0)
unfolding try_admit
try_admit-IsValid d own live v =
    settled-IsValid (record d { tickets = (scan own.sequence d.held none d.tickets).0 }) own
      ((scan own.sequence d.held none d.tickets).1) live
      (λ e. (scan-clear own.sequence d.held none d.tickets e).1) (scanned-IsValid d own.sequence v)
