-- ===== src/Coordination/Lease.antt =====
-- src/coordination.rs: a process that inherits its launcher's reservation, and the processes that
-- the busy check leaves out because they wait in the queue.
use zenbench.Prelude.{
  ok-injective, ok_or-eq-ok, ℕ, zero, suc, ◌<◌, ◌≡◌, Bool, true, false, Option, none, some, List,
  ◌==◌, not, ◌&&◌, ◌||◌, contains, find, keep, map, Result, ok, ◌>>=◌, ◌>>◌, fail_if, ok_or, arith,
  Bool-cases, inl, inr, Option-cases, >>=-eq-ok, guard-eq-ok, if◌then◌else◌, find-eq-some,
  get_elem?, subst,
}
use zenbench.Prelude.Text.{Text, parse_usize}
use zenbench.Coordination.{Ticket, Directory}

-- A process of the system's table: when it started and who its parent is.
pub record Process : Type 0 where
  pub pid : ℕ
  pub start : ℕ
  pub parent : Option ℕ

abbrev pub process : List Process → ℕ → Option Process
process table pid = find (λ p. p.pid == pid) table

pub data LeaseError : Type 0 where
  invalid_sequence : LeaseError
  unreadable_ticket : LeaseError
  not_held : LeaseError
  not_ancestor : LeaseError

-- the loop over the ancestors, on its bound
unfoldable pub is_ancestor : ℕ → List Process → Ticket → ℕ → Bool
is_ancestor zero table owner cursor = false
is_ancestor (suc fuel) table owner cursor = elim (process table cursor) [
  | none ↦ false
  | some p ↦
      if cursor == owner.pid && p.start == owner.start
      then true
      else elim p.parent [ none ↦ false | some parent ↦ is_ancestor fuel table owner parent ]
]

-- `at_controlled`, the part on an inherited reservation, for the process `self`
unfoldable pub inherit : Text → Directory → List Process → ℕ → Result LeaseError ℕ
unfolding is_ancestor
inherit value d table self = do
  sequence ← ok_or (parse_usize value) LeaseError.invalid_sequence
  ticket ← ok_or (find (λ t. t.sequence == sequence) d.tickets) LeaseError.unreadable_ticket
  fail_if (not (contains d.held sequence) || not ticket.running) LeaseError.not_held
  fail_if (not (is_ancestor 256 table ticket self)) LeaseError.not_ancestor
  ok sequence

-- the test of one ticket in `queued_pids`: it waits, and its owner lives
abbrev pub is_queued : List Process → List ℕ → Ticket → Bool
is_queued table held t =
    not t.running
    && (elim (process table t.pid) [ none ↦ false | some p ↦ p.start == t.start ]
        && contains held t.sequence)

-- `queued_pids`
unfoldable pub queued_pids : List Process → Directory → List ℕ
queued_pids table d = map (λ t. t.pid) (keep (is_queued table d.held) d.tickets)

-- The process that `k` steps to a parent lead to.
abbrev pub forefather : List Process → ℕ → ℕ → Option Process
forefather table zero cursor = process table cursor
forefather table (suc k) cursor = elim (process table cursor) [
  | none ↦ none
  | some p ↦ elim p.parent [ none ↦ none | some parent ↦ forefather table k parent ]
]

-- The owner of the ticket is the process itself or one of fewer than `fuel` generations before.
pub record IsHeir (fuel : ℕ) (table : List Process) (owner : Ticket) (cursor : ℕ) : Type 0 where
  pub generation : ℕ
  pub bounded : generation < fuel
  pub ancestor : Process
  pub there : forefather table generation cursor ≡ some ancestor
  pub same_pid : ancestor.pid ≡ owner.pid
  pub same_start : ancestor.start ≡ owner.start

process-pid :
    (table : List Process) (pid : ℕ) (p : Process) → process table pid ≡ some p → p.pid ≡ pid
process-pid table pid p e =
    let (i, there, same) = find-eq-some (λ q. q.pid == pid) table p e in ground arith

is_ancestor-IsHeir :
    (fuel : ℕ) (table : List Process) (owner : Ticket) (cursor : ℕ)
    → is_ancestor fuel table owner cursor ≡ true
    → IsHeir fuel table owner cursor
unfolding is_ancestor
is_ancestor-IsHeir zero table owner cursor h = absurd cc
is_ancestor-IsHeir (suc fuel) table owner cursor h = elim (Option-cases (process table cursor)) [
  | inl gone ↦ absurd (ground arith)
  | inr (p, e) ↦ elim (Bool-cases (cursor == owner.pid && p.start == owner.start)) [
    | inl found ↦ record {
      generation = 0;
      bounded = ground arith;
      ancestor = p;
      there = e;
      same_pid = ground (arith, process-pid table cursor p e);
      same_start = ground arith;
    }
    | inr other ↦ elim (Option-cases p.parent) [
      | inl root ↦ absurd (ground arith)
      | inr (parent, q) ↦
          let r = is_ancestor-IsHeir fuel table owner parent (ground arith) in
          record {
            generation = suc r.generation;
            bounded = ground (arith, r.bounded);
            ancestor = r.ancestor;
            there = ground (arith, r.there);
            same_pid = r.same_pid;
            same_start = r.same_start;
          }
    ]
  ]
]

-- What an inherited reservation stands for.
pub record IsLease (d : Directory) (table : List Process) (self sequence : ℕ) : Type 0 where
  pub ticket : Ticket
  pub place : ℕ
  pub there : get_elem? d.tickets place ≡ some ticket
  pub its_sequence : ticket.sequence ≡ sequence
  pub running : ticket.running ≡ true
  pub live : contains d.held sequence ≡ true
  pub heir : IsHeir 256 table ticket self

held_and_running : (a b : Bool) → not a || not b ≡ false → (a ≡ true) × (b ≡ true)
held_and_running a b h = ground arith

not-false : (a : Bool) → not a ≡ false → a ≡ true
not-false a h = ground arith

as-IsLease :
    (d : Directory) (table : List Process) (self n : ℕ) (t : Ticket)
    → find (λ u. u.sequence == n) d.tickets ≡ some t
    → contains d.held n ≡ true
    → t.running ≡ true
    → is_ancestor 256 table t self ≡ true
    → IsLease d table self n
as-IsLease d table self n t e live running related =
    let (i, there, same) = find-eq-some (λ u. u.sequence == n) d.tickets t e in
    record {
      ticket = t;
      place = i;
      there = there;
      its_sequence = ground arith;
      running = running;
      live = live;
      heir = is_ancestor-IsHeir 256 table t self related;
    }

-- A reservation is inherited only if it has a ticket that runs, its guard is locked, and the
-- ticket's owner, told by its number and its start time, is the process or one of its fewer than
-- 256 nearest ancestors.
pub inherit-IsLease :
    (value : Text) (d : Directory) (table : List Process) (self sequence : ℕ)
    → inherit value d table self ≡ ok sequence
    → (parse_usize value ≡ some sequence) × IsLease d table self sequence
unfolding inherit
inherit-IsLease value d table self sequence e =
    let (n, parsed, e1) = >>=-eq-ok (ok_or (parse_usize value) LeaseError.invalid_sequence) _ e in
    let (t, read, e2) =
      >>=-eq-ok (ok_or (find (λ u. u.sequence == n) d.tickets) LeaseError.unreadable_ticket) _ e1 in
    let (held, e3) =
      guard-eq-ok (not (contains d.held n) || not t.running) LeaseError.not_held _ e2 in
    let (related, e4) =
      guard-eq-ok (not (is_ancestor 256 table t self)) LeaseError.not_ancestor (ok n) e3 in
    let (live, running) = held_and_running (contains d.held n) t.running held in
    let lease =
      as-IsLease d table self n t
        (ok_or-eq-ok (find (λ u. u.sequence == n) d.tickets) LeaseError.unreadable_ticket t read)
        live running (not-false (is_ancestor 256 table t self) related) in
    let same : n ≡ sequence = ok-injective e4 in
    subst (λ k. (parse_usize value ≡ some k) × IsLease d table self k) same
      (ok_or-eq-ok (parse_usize value) LeaseError.invalid_sequence n parsed, lease)
