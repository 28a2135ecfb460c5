-- ===== src/Heap/Phases.antt =====
-- src/heap.rs: phases, from their beginning to their end, and when a ledger becomes invalid.
use zenbench.Prelude.{
  ◌+◌, ◌≤◌, ◌<◌, ◌≡◌, refl, ◌∙◌, Bool, true, false, List, [], ◌∷◌, arith, ok, ◌≢◌, subst, sym,
}
use zenbench.Prelude.Word.{u64_mod}
use zenbench.Heap.{
  Ledger, Call, call, calls, add, transition, allocated, reallocated, HeapPhase, snapshot,
  read_counters, initialize, begin_locked, begin, finish, drop_phase,
}
use zenbench.Heap.Spec.{
  live_after, IsLegal, AllLegal, bytes_of, allocation_of, reallocation_of, failure_of, sum_of,
}

call-phase_active : (c : Call) (l : Ledger) → (call c l).phase_active ≡ l.phase_active
unfolding call allocated reallocated add transition
call-phase_active (Call.alloc size true) l = ground arith
call-phase_active (Call.alloc size false) l = ground arith
call-phase_active (Call.dealloc size) l = ground arith
call-phase_active (Call.realloc old new true) l = ground arith
call-phase_active (Call.realloc old new false) l = ground arith

calls-phase_active : (cs : List Call) (l : Ledger) → (calls cs l).phase_active ≡ l.phase_active
unfolding calls
calls-phase_active [] l = refl
calls-phase_active (c ∷ cs) l = calls-phase_active cs (call c l) ∙ call-phase_active c l

initialize-phase_active : (g : Bool) (l : Ledger) → (initialize g l).phase_active ≡ l.phase_active
unfolding initialize
initialize-phase_active g l = ground (
  arith,
  call-phase_active (Call.alloc 1 true) l,
  call-phase_active (Call.dealloc 1) (call (Call.alloc 1 true) l),
)

begin_locked-active :
    (l : Ledger) (p : HeapPhase)
    → (begin_locked l).0 ≡ ok p
    → (l.phase_active ≡ false) × ((begin_locked l).1.phase_active ≡ true) × (p.active ≡ true)
unfolding begin_locked snapshot
begin_locked-active l p h = ground arith

begin_locked-refused :
    (l : Ledger) (p : HeapPhase) → l.phase_active ≡ true → (begin_locked l).0 ≢ ok p
unfolding begin_locked snapshot
begin_locked-refused l p a h = ground arith

-- Between a `begin` that succeeded and the end of its phase no `begin` succeeds, whatever the
-- allocator was called for in between.
pub phase_exclusive :
    (g g' : Bool) (l : Ledger) (p q : HeapPhase) (cs : List Call)
    → (begin g l).0 ≡ ok p
    → (begin g' (calls cs (begin g l).1)).0 ≢ ok q
unfolding begin
phase_exclusive g g' l p q cs b =
    begin_locked-refused (initialize g' (calls cs (begin_locked (initialize g l)).1)) q (
      initialize-phase_active g' (calls cs (begin_locked (initialize g l)).1)
      ∙ calls-phase_active cs (begin_locked (initialize g l)).1
      ∙ (begin_locked-active (initialize g l) p b).1)

finish-phase_active : (p : HeapPhase) (l : Ledger) → (finish p l).1.phase_active ≡ false
unfolding finish snapshot
finish-phase_active p l = ground arith

begin_locked-ok :
    (l : Ledger)
    → l.installed ≡ true
    → l.valid ≡ true
    → l.phase_active ≡ false
    → (p : HeapPhase) × ((begin_locked l).0 ≡ ok p)
unfolding begin_locked snapshot
begin_locked-ok l i v a = (record { entry = read_counters l; active = true }, ground arith)

finish-keeps :
    (p : HeapPhase) (l : Ledger)
    → ((finish p l).1.installed ≡ l.installed) × ((finish p l).1.valid ≡ l.valid)
unfolding finish snapshot
finish-keeps p l = ground arith

initialize-installed : (g : Bool) (l : Ledger) → l.installed ≡ true → initialize g l ≡ l
unfolding initialize
initialize-installed g l h = ground arith

-- Ending a phase, by `finish` whatever it returns or by the drop of its handle, lets the next
-- `begin` succeed on a ledger that is installed and valid.
pub phase_released :
    (g : Bool) (p : HeapPhase) (l : Ledger)
    → l.installed ≡ true
    → l.valid ≡ true
    → p.active ≡ true
    → ((q : HeapPhase) × ((begin g (finish p l).1).0 ≡ ok q))
      × ((q : HeapPhase) × ((begin g (drop_phase p l)).0 ≡ ok q))
unfolding begin
phase_released g p l i v a =
    let (fi, fv) = finish-keeps p l in
    let d : drop_phase p l ≡ record l { phase_active = false } = unfold drop_phase in rw a in
    (
      rw (initialize-installed g (finish p l).1 (fi ∙ i))
          (begin_locked-ok (finish p l).1 (fi ∙ i) (fv ∙ v) (finish-phase_active p l)),
      rw d (
          rw (initialize-installed g (record l { phase_active = false }) i)
            (begin_locked-ok (record l { phase_active = false }) i v refl)),
    )

-- Room for the traffic of the calls in the four counters.
pub record Fits (cs : List Call) (l : Ledger) : Type 0 where
  pub requested : l.requested + sum_of bytes_of cs < u64_mod
  pub allocations : l.allocations + sum_of allocation_of cs < u64_mod
  pub reallocations : l.reallocations + sum_of reallocation_of cs < u64_mod
  pub failed : l.failed + sum_of failure_of cs < u64_mod

-- After one call: the ledger is valid, and has room for the rest.
record Advances (c : Call) (cs : List Call) (l l' : Ledger) : Type 0 where
  valid : l'.valid ≡ true
  asked : l'.live ≤ l'.requested
  live : l'.live ≡ live_after l.live c
  fits : Fits cs l'

call-Advances :
    (c : Call) (cs : List Call) (l : Ledger)
    → l.valid ≡ true
    → l.live ≤ l.requested
    → IsLegal l.live c
    → Fits (c ∷ cs) l
    → Advances c cs l (call c l)
unfolding call allocated reallocated add transition
call-Advances (Call.alloc size true) cs l v a g f = ground arith
call-Advances (Call.alloc size false) cs l v a g f = ground arith
call-Advances (Call.dealloc size) cs l v a g f = ground arith
call-Advances (Call.realloc old new true) cs l v a g f = ground arith
call-Advances (Call.realloc old new false) cs l v a g f = ground arith

-- A ledger is marked invalid for no other reason than an overflow or a release of bytes that are
-- not live: with legal calls whose traffic fits in the counters it stays valid.
pub calls_stay_valid :
    (cs : List Call) (l : Ledger)
    → l.valid ≡ true
    → l.live ≤ l.requested
    → AllLegal l.live cs
    → Fits cs l
    → (calls cs l).valid ≡ true
unfolding calls
calls_stay_valid [] l v a g f = v
calls_stay_valid (c ∷ cs) l v a g f =
    let n = call-Advances c cs l v a g.0 f in
    calls_stay_valid cs (call c l) n.valid n.asked (subst (λ k. AllLegal k cs) (sym n.live) g.1)
      n.fits
