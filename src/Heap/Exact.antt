-- ===== src/Heap/Exact.antt =====
-- The ledger of src/heap.rs against the plain count of `Heap.Spec`.
use zenbench.Prelude.{
  ℕ, ◌+◌, ◌-◌, ◌≤◌, ◌<◌, max, ◌≡◌, refl, true, false, List, [], ◌∷◌, arith, ok, subst, ap, ◌∙◌,
}
use zenbench.Prelude.Word.{u64_mod}
use zenbench.Heap.{
  Ledger, Call, call, calls, add, transition, allocated, reallocated, HeapPhase, HeapMeasurement,
  snapshot, begin_locked, finish,
}
use zenbench.Heap.Spec.{
  live_after, IsLegal, AllLegal, final_live, highest, bytes_of, allocation_of, reallocation_of,
  failure_of, sum_of,
}

-- The peaks are kept up with the live bytes, and the live bytes were all asked for.
pub record IsValid (l : Ledger) : Type 0 where
  pub below_peak : l.live ≤ l.peak
  pub below_phase : l.phase_active ≡ true → l.live ≤ l.phase_peak
  pub phase_below : l.phase_active ≡ true → l.phase_peak ≤ l.peak
  pub asked : l.live ≤ l.requested
  pub word : l.peak < u64_mod

-- What one call does to a ledger that is valid after it.
record IsExact (c : Call) (l l' : Ledger) : Type 0 where
  was_valid : l.valid ≡ true
  legal : IsLegal l.live c
  live : l'.live ≡ live_after l.live c
  phase : l'.phase_active ≡ l.phase_active
  requested : l'.requested ≡ l.requested + bytes_of c
  allocations : l'.allocations ≡ l.allocations + allocation_of c
  reallocations : l'.reallocations ≡ l.reallocations + reallocation_of c
  failed : l'.failed ≡ l.failed + failure_of c

call-IsExact : (c : Call) (l : Ledger) → (call c l).valid ≡ true → IsExact c l (call c l)
unfolding call allocated reallocated add transition
call-IsExact (Call.alloc size true) l h = ground arith
call-IsExact (Call.alloc size false) l h = ground arith
call-IsExact (Call.dealloc size) l h = ground arith
call-IsExact (Call.realloc old new true) l h = ground arith
call-IsExact (Call.realloc old new false) l h = ground arith

-- What one call does to the peaks: both follow the live bytes, the phase's while a phase is active.
record IsTracked (l l' : Ledger) : Type 0 where
  kept : IsValid l'
  peak : l'.peak ≡ max l.peak l'.live
  phase_peak : l.phase_active ≡ true → l'.phase_peak ≡ max l.phase_peak l'.live

call-IsTracked :
    (c : Call) (l : Ledger) → (call c l).valid ≡ true → IsValid l → IsTracked l (call c l)
unfolding call allocated reallocated add transition
call-IsTracked (Call.alloc size true) l h v = ground arith
call-IsTracked (Call.alloc size false) l h v = ground arith
call-IsTracked (Call.dealloc size) l h v = ground arith
call-IsTracked (Call.realloc old new true) l h v = ground arith
call-IsTracked (Call.realloc old new false) l h v = ground arith

-- A ledger that is valid now was valid before every call.
pub calls-was_valid : (cs : List Call) (l : Ledger) → (calls cs l).valid ≡ true → l.valid ≡ true
unfolding calls
calls-was_valid [] l h = h
calls-was_valid (c ∷ cs) l h = (call-IsExact c l (calls-was_valid cs (call c l) h)).was_valid

-- Every call keeps the invariant, unless it marks the ledger as invalid.
pub calls-IsValid :
    (cs : List Call) (l : Ledger) → IsValid l → (calls cs l).valid ≡ true → IsValid (calls cs l)
unfolding calls
calls-IsValid [] l v h = v
calls-IsValid (c ∷ cs) l v h =
    calls-IsValid cs (call c l) (call-IsTracked c l (calls-was_valid cs (call c l) h) v).kept h

-- What a sequence of calls has done to a ledger that is valid after it.
pub record AllExact (cs : List Call) (l l' : Ledger) : Type 0 where
  pub legal : AllLegal l.live cs
  pub live : l'.live ≡ final_live l.live cs
  pub phase : l'.phase_active ≡ l.phase_active
  pub peak : l'.peak ≡ max l.peak (highest l.live cs)
  pub phase_peak : l.phase_active ≡ true → l'.phase_peak ≡ max l.phase_peak (highest l.live cs)
  pub requested : l'.requested ≡ l.requested + sum_of bytes_of cs
  pub allocations : l'.allocations ≡ l.allocations + sum_of allocation_of cs
  pub reallocations : l'.reallocations ≡ l.reallocations + sum_of reallocation_of cs
  pub failed : l'.failed ≡ l.failed + sum_of failure_of cs

highest-ge : (cs : List Call) (live : ℕ) → live ≤ highest live cs
highest-ge [] live = omega arith
highest-ge (c ∷ cs) live = omega arith

AllExact-cons :
    (c : Call) (cs : List Call) {l m l' : Ledger}
    → IsValid l
    → IsExact c l m
    → IsTracked l m
    → AllExact cs m l'
    → AllExact (c ∷ cs) l l'
AllExact-cons c cs {l} {m} {l'} v e t r = record {
  legal = (e.legal, subst (λ n. AllLegal n cs) e.live r.legal);
  live = rw (← e.live) r.live;
  phase = r.phase ∙ e.phase;
  peak = rw (← e.live) (omega (arith, r.peak, t.peak, v.below_peak, highest-ge cs m.live));
  phase_peak = λ a. rw (← e.live) (
      omega
        (arith, r.phase_peak (e.phase ∙ a), t.phase_peak a, v.below_phase a, highest-ge cs m.live));
  requested = omega (arith, r.requested, e.requested);
  allocations = omega (arith, r.allocations, e.allocations);
  reallocations = omega (arith, r.reallocations, e.reallocations);
  failed = omega (arith, r.failed, e.failed);
}

-- From a ledger that keeps the invariant, a sequence of calls that leaves it valid released only
-- live bytes; the live bytes, the lifetime peak, the peak of an active phase and the four
-- counters are then exactly those of the plain count over the calls.
pub calls_exact :
    (cs : List Call) (l : Ledger)
    → IsValid l
    → (calls cs l).valid ≡ true
    → AllExact cs l (calls cs l)
unfolding calls
calls_exact [] l v h = record {
  legal = tt;
  live = refl;
  phase = refl;
  peak = omega (arith, v.below_peak);
  phase_peak = λ a. omega (arith, v.below_phase a);
  requested = omega arith;
  allocations = omega arith;
  reallocations = omega arith;
  failed = omega arith;
}
calls_exact (c ∷ cs) l v h =
    let t = call-IsTracked c l (calls-was_valid cs (call c l) h) v in
    AllExact-cons c cs v (call-IsExact c l (calls-was_valid cs (call c l) h)) t
      (calls_exact cs (call c l) t.kept h)

-- What `finish` reports of a phase that was entered at `l` and saw the calls `cs`.
pub record Reports (cs : List Call) (l : Ledger) (m : HeapMeasurement) : Type 0 where
  pub legal : AllLegal l.live cs
  pub entry : m.entry_live_bytes ≡ l.live
  pub peak : m.peak_live_bytes ≡ highest l.live cs
  pub exit : m.exit_live_bytes ≡ final_live l.live cs
  pub requested : m.requested_bytes ≡ sum_of bytes_of cs
  pub allocations : m.allocations ≡ sum_of allocation_of cs
  pub reallocations : m.reallocations ≡ sum_of reallocation_of cs
  pub failed : m.failed_requests ≡ sum_of failure_of cs

-- `HeapPhase::begin` succeeds only so.
begin_locked-eq-ok :
    (l l' : Ledger) (p : HeapPhase)
    → begin_locked l ≡ (ok p, l')
    → (l' ≡ record l { phase_peak = l.live; phase_active = true })
      × (p.entry.live_bytes ≡ l.live)
      × (p.entry.requested_bytes ≡ l.requested)
      × (p.entry.allocations ≡ l.allocations)
      × (p.entry.reallocations ≡ l.reallocations)
      × (p.entry.failed_requests ≡ l.failed)
unfolding begin_locked snapshot
begin_locked-eq-ok l l' p h = ground arith

finish-eq-ok :
    (p : HeapPhase) (l : Ledger) (m : HeapMeasurement)
    → (finish p l).0 ≡ ok m
    → (l.valid ≡ true)
      × (m.entry_live_bytes ≡ p.entry.live_bytes)
      × (m.peak_live_bytes ≡ l.phase_peak)
      × (m.exit_live_bytes ≡ l.live)
      × (m.requested_bytes ≡ l.requested - p.entry.requested_bytes)
      × (m.allocations ≡ l.allocations - p.entry.allocations)
      × (m.reallocations ≡ l.reallocations - p.entry.reallocations)
      × (m.failed_requests ≡ l.failed - p.entry.failed_requests)
unfolding finish snapshot
finish-eq-ok p l m h = ground arith

begun-IsValid :
    (l : Ledger) → IsValid l → IsValid (record l { phase_peak = l.live; phase_active = true })
begun-IsValid l v = ground arith

-- A phase that begins on a ledger with the invariant, sees any calls, and finishes with a result
-- reports exactly what a plain count over those calls gives: the live bytes at entry and exit,
-- the highest count between them, and the traffic. No call of the phase released more than was
-- live.
pub measurement_exact :
    (l l' : Ledger) (p : HeapPhase) (cs : List Call) (m : HeapMeasurement)
    → IsValid l
    → begin_locked l ≡ (ok p, l')
    → (finish p (calls cs l')).0 ≡ ok m
    → Reports cs l m
measurement_exact l l' p cs m v b f =
    let (same, e0, e1, e2, e3, e4) = begin_locked-eq-ok l l' p b in
    let (valid, f0, f1, f2, f3, f4, f5, f6) = finish-eq-ok p (calls cs l') m f in
    let start : Ledger = record l { phase_peak = l.live; phase_active = true } in
    let x : AllExact cs start (calls cs start) =
      calls_exact cs start (begun-IsValid l v)
        (subst (λ s. (calls cs s).valid ≡ true) same valid) in
    record {
      legal = x.legal;
      entry = f0 ∙ e0;
      peak =
          f1
          ∙ ap (λ s. (calls cs s).phase_peak) same
          ∙ omega (arith, x.phase_peak refl, highest-ge cs l.live);
      exit = f2 ∙ ap (λ s. (calls cs s).live) same ∙ x.live;
      requested = omega (arith, f3, e1, ap (λ s. (calls cs s).requested) same, x.requested);
      allocations = omega (arith, f4, e2, ap (λ s. (calls cs s).allocations) same, x.allocations);
      reallocations =
          omega (arith, f5, e3, ap (λ s. (calls cs s).reallocations) same, x.reallocations);
      failed = omega (arith, f6, e4, ap (λ s. (calls cs s).failed) same, x.failed);
    }
