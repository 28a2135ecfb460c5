-- ===== src/Coordination/Preserved.antt =====
-- src/coordination.rs: the invariant over enqueueing, dropping and dying.
use zenbench.Prelude.{
  ℕ, suc, ◌≤◌, ◌≡◌, Bool, true, false, some, List, [], ◌∷◌, ◌==◌, not, contains, keep, All, ok,
  arith, Bool-cases, inl, inr, subst, Option-cases,
}
use zenbench.Prelude.Word.{checked_add}
use zenbench.Prelude.Text.{Text}
use zenbench.Coordination.{
  Ticket, Directory, count, new_ticket, enqueue, release, remove, has_ticket, drop_reservation,
}
use zenbench.Coordination.Steps.{empty_directory}
use zenbench.Coordination.Invariant.{IsFirst, IsValid, All-map, All-keep}

pub empty-IsValid : IsValid empty_directory
empty-IsValid = record {
  numbered = tt;
  first = tt;
  present = λ n h. absurd (ground arith);
  guarded = λ n h. absurd (ground arith);
}

-- The new ticket waits and has a number after all others.
pub enqueue-IsValid :
    (d : Directory) (pid start : ℕ) (activity : Text) (t : Ticket) (e : Directory)
    → IsValid d
    → enqueue pid start activity d ≡ ok (t, e)
    → IsValid e
unfolding enqueue
enqueue-IsValid d pid start activity t e v q =
    elim (Option-cases (checked_add (count d.counter) 1)) [
      | inl exhausted ↦ absurd (ground arith)
      | inr (n, h) ↦
          let is_next : n ≡ suc (count d.counter) = ground arith in
          let own = new_ticket n pid start activity in
          let queued : Directory = record {
            counter = some n;
            tickets = own ∷ d.tickets;
            held = n ∷ d.held;
          } in
          let same : queued ≡ e = ground arith in
          subst IsValid same record {
            numbered = (
              ground arith,
              All-map (λ u. u.sequence ≤ count d.counter) (λ u. u.sequence ≤ n) d.tickets
                  (λ u b. omega arith) v.numbered,
            );
            first = (
              λ runs. absurd cc,
              All-map (λ u. (u.sequence ≤ count d.counter) × IsFirst d.tickets u)
                  (IsFirst (own ∷ d.tickets)) d.tickets
                  (λ u both runs. (omega (arith, both.0), both.1 runs))
                  (All-both _ _ d.tickets v.numbered v.first),
            );
            present = λ m k. ground (arith, v.present m);
            guarded = λ m k. ground (arith, v.guarded m);
          }
    ]
  where
    All-both :
        (P Q : Ticket → Type 0) (ts : List Ticket) → All P ts → All Q ts → All (λ u. P u × Q u) ts
    All-both P Q [] a b = tt
    All-both P Q (u ∷ us) a b = ((a.0, b.0), All-both P Q us a.1 b.1)

pub spent-IsValid :
    (d : Directory) → IsValid d → IsValid (record d { counter = some (suc (count d.counter)) })
spent-IsValid d v = record {
  numbered =
      All-map (λ u. u.sequence ≤ count d.counter) (λ u. u.sequence ≤ suc (count d.counter))
        d.tickets (λ u b. omega arith) v.numbered;
  first = v.first;
  present = v.present;
  guarded = λ n h. let g = v.guarded n h in omega arith;
}

-- Tickets that leave take nothing from those that stay.
restrict-IsFirst :
    (ts : List Ticket) (p : Ticket → Bool)
    → All (IsFirst ts) ts
    → All (IsFirst (keep p ts)) (keep p ts)
restrict-IsFirst ts p h = All-keep (IsFirst (keep p ts)) p ts (
    All-map (IsFirst ts) (IsFirst (keep p ts)) ts
      (λ u f runs. All-keep (λ w. u.sequence ≤ w.sequence) p ts (f runs)) h)

contains-release :
    (n m : ℕ) (held : List ℕ)
    → contains (keep (λ h. not (h == n)) held) m ≡ true
    → (contains held m ≡ true) × ((m == n) ≡ false)
contains-release n m [] h = absurd (ground arith)
contains-release n m (x ∷ held) h = ground (arith, contains-release n m held)

has_ticket-remove :
    (n m : ℕ) (ts : List Ticket)
    → (m == n) ≡ false
    → has_ticket m ts ≡ true
    → has_ticket m (remove n ts) ≡ true
has_ticket-remove n m [] h k = k
has_ticket-remove n m (t ∷ ts) h k = ground (arith, has_ticket-remove n m ts)

pub release-IsValid : (d : Directory) (n : ℕ) → IsValid d → IsValid (release n d)
unfolding release
release-IsValid d n v = record {
  numbered = v.numbered;
  first = v.first;
  present = λ m h. v.present m (contains-release n m d.held h).0;
  guarded = λ m h. v.guarded m (contains-release n m d.held h).0;
}

remove-IsValid :
    (d : Directory) (n : ℕ) (held : List ℕ)
    → IsValid d
    → ((m : ℕ) → contains held m ≡ true → (contains d.held m ≡ true) × ((m == n) ≡ false))
    → IsValid (record d { tickets = remove n d.tickets; held = held })
remove-IsValid d n held v others = record {
  numbered =
      All-keep (λ u. u.sequence ≤ count d.counter) (λ t. not (t.sequence == n)) d.tickets
        v.numbered;
  first = restrict-IsFirst d.tickets (λ t. not (t.sequence == n)) v.first;
  present = λ m h.
      let (live, other) = others m h in has_ticket-remove n m d.tickets other (v.present m live);
  guarded = λ m h. v.guarded m (others m h).0;
}

pub drop-IsValid :
    (d : Directory) (retain : Bool) (n : ℕ) → IsValid d → IsValid (drop_reservation retain n d)
unfolding drop_reservation release
drop-IsValid d true n v = release-IsValid d n v
drop-IsValid d false n v =
    remove-IsValid d n (keep (λ h. not (h == n)) d.held) v (λ m h. contains-release n m d.held h)

pub swept-IsValid :
    (d : Directory) (n : ℕ)
    → contains d.held n ≡ false
    → IsValid d
    → IsValid (record d { tickets = remove n d.tickets })
swept-IsValid d n dead v = remove-IsValid d n d.held v (λ m h. (
  h,
  elim (Bool-cases (m == n)) [
    | inr other ↦ other
    | inl same ↦
        let e : m ≡ n = ground arith in
        let live : contains d.held n ≡ true = subst (λ x. contains d.held x ≡ true) e h in absurd cc
  ],
))
