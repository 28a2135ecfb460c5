-- ===== src/Heap.antt =====
-- src/heap.rs: the process-wide ledger of requested heap bytes, and the phases measured over it.
-- Every operation holds the ledger's spin lock from its first read to its last write, so an
-- operation is one function from ledger to ledger; threads interleave between operations only.
-- Definitions here; `Exact` has what a measurement means, `Phases` the exclusion of phases.
pub mod Spec
pub mod Exact
pub mod Phases
mod Tests
use zenbench.Prelude.{
  ℕ, ◌-◌, max, Bool, true, false, Option, none, some, List, [], ◌∷◌, if◌then◌else◌, Result, ok, err,
  ◌>>=◌, ◌>>◌, fail_if, not,
}
use zenbench.Prelude.Word.{checked_add, checked_sub}

-- `struct Ledger`, without the bit of its spin lock. All counters are `u64`.
pub record Ledger : Type 0 where
  pub installed : Bool
  pub valid : Bool
  pub phase_active : Bool
  pub live : ℕ
  pub peak : ℕ
  pub phase_peak : ℕ
  pub requested : ℕ
  pub allocations : ℕ
  pub reallocations : ℕ
  pub failed : ℕ

-- `Ledger::new`
abbrev pub new_ledger : Ledger
new_ledger = record {
  installed = false;
  valid = true;
  phase_active = false;
  live = 0;
  peak = 0;
  phase_peak = 0;
  requested = 0;
  allocations = 0;
  reallocations = 0;
  failed = 0;
}

-- The field that a call of `Guard::add` names.
pub data Counter : Type 0 where
  requested_field allocations_field reallocations_field failed_field : Counter

abbrev pub load : Counter → Ledger → ℕ
load Counter.requested_field l = l.requested
load Counter.allocations_field l = l.allocations
load Counter.reallocations_field l = l.reallocations
load Counter.failed_field l = l.failed

abbrev pub store : Counter → ℕ → Ledger → Ledger
store Counter.requested_field v l = record l { requested = v }
store Counter.allocations_field v l = record l { allocations = v }
store Counter.reallocations_field v l = record l { reallocations = v }
store Counter.failed_field v l = record l { failed = v }

-- `Guard::add`
unfoldable pub add : Counter → ℕ → Ledger → Ledger
add c n l = elim (checked_add (load c l) n) [
  | some v ↦ store c v l
  | none ↦ record l { valid = false }
]

-- the `and_then` of `Guard::transition`
abbrev next_live : ℕ → ℕ → ℕ → Option ℕ
next_live live old new = elim (checked_sub live old) [ some v ↦ checked_add v new | none ↦ none ]

-- `Guard::transition`
unfoldable pub transition : ℕ → ℕ → Ledger → Ledger
transition old new l = elim (next_live l.live old new) [
  | some next ↦ record l {
    live = next;
    peak = max l.peak next;
    phase_peak = if l.phase_active then max l.phase_peak next else l.phase_peak;
  }
  | none ↦ record l { valid = false }
]

-- `Guard::allocated`
unfoldable pub allocated : ℕ → Bool → Ledger → Ledger
allocated size true l =
    add Counter.allocations_field 1
      (add Counter.requested_field size (transition 0 size (record l { installed = true })))
allocated size false l = add Counter.failed_field 1 (record l { installed = true })

-- `Guard::reallocated`
unfoldable pub reallocated : ℕ → ℕ → Bool → Ledger → Ledger
reallocated old new true l =
    add Counter.reallocations_field 1 (add Counter.requested_field new (transition old new l))
reallocated old new false l = add Counter.failed_field 1 l

-- A call of the global allocator: the layout's size, and whether the system returned a block.
-- `alloc_zeroed` accounts like `alloc`.
pub data Call : Type 0 where
  alloc : (size : ℕ) (success : Bool) → Call
  dealloc : (size : ℕ) → Call
  realloc : (old new : ℕ) (success : Bool) → Call

-- `impl GlobalAlloc for HeapProfiler`
unfoldable pub call : Call → Ledger → Ledger
call (Call.alloc size success) l = allocated size success l
call (Call.dealloc size) l = transition size 0 l
call (Call.realloc old new success) l = reallocated old new success l

-- Calls in the order in which they take the lock.
unfoldable pub calls : List Call → Ledger → Ledger
calls [] l = l
calls (c ∷ cs) l = calls cs (call c l)

-- `initialize`: a probe of one byte, which reaches the ledger if the profiler is the global
-- allocator.
unfoldable pub initialize : Bool → Ledger → Ledger
initialize global l =
    if l.installed
    then l
    else if global
    then call (Call.dealloc 1) (call (Call.alloc 1 true) l)
    else l

pub record HeapSnapshot : Type 0 where
  pub live_bytes : ℕ
  pub lifetime_peak_bytes : ℕ
  pub requested_bytes : ℕ
  pub allocations : ℕ
  pub reallocations : ℕ
  pub failed_requests : ℕ

pub data HeapError : Type 0 where
  not_installed phase_already_active counter_overflow : HeapError

abbrev pub read_counters : Ledger → HeapSnapshot
read_counters l = record {
  live_bytes = l.live;
  lifetime_peak_bytes = l.peak;
  requested_bytes = l.requested;
  allocations = l.allocations;
  reallocations = l.reallocations;
  failed_requests = l.failed;
}

-- `Guard::snapshot`
unfoldable pub snapshot : Ledger → Result HeapError HeapSnapshot
snapshot l = do
  fail_if (not l.installed) HeapError.not_installed
  fail_if (not l.valid) HeapError.counter_overflow
  ok (read_counters l)

-- `HeapSnapshot::get`
unfoldable pub get_snapshot : Bool → Ledger → Result HeapError HeapSnapshot × Ledger
get_snapshot global l = let l' = initialize global l in (snapshot l', l')

pub record HeapPhase : Type 0 where
  pub entry : HeapSnapshot
  pub active : Bool

pub record HeapMeasurement : Type 0 where
  pub entry_live_bytes : ℕ
  pub peak_live_bytes : ℕ
  pub exit_live_bytes : ℕ
  pub requested_bytes : ℕ
  pub allocations : ℕ
  pub reallocations : ℕ
  pub failed_requests : ℕ

-- the part of `HeapPhase::begin` under the lock
unfoldable pub begin_locked : Ledger → Result HeapError HeapPhase × Ledger
begin_locked l = elim (snapshot l) [
  | err e ↦ (err e, l)
  | ok entry ↦ if l.phase_active then (err HeapError.phase_already_active, l) else (
    ok (record { entry = entry; active = true }),
    record l { phase_peak = entry.live_bytes; phase_active = true },
  )
]

-- `HeapPhase::begin`
unfoldable pub begin : Bool → Ledger → Result HeapError HeapPhase × Ledger
begin global l = begin_locked (initialize global l)

-- `HeapPhase::finish`, on the ledger that the exit reads. The subtractions are those of `u64`; by
-- `Exact.calls_exact` none of them is below 0.
unfoldable pub finish : HeapPhase → Ledger → Result HeapError HeapMeasurement × Ledger
finish p l =
    let l' = record l { phase_active = false } in
    elim (snapshot l') [
      | err e ↦ (err e, l')
      | ok exit ↦ (
        ok (record {
          entry_live_bytes = p.entry.live_bytes;
          peak_live_bytes = l'.phase_peak;
          exit_live_bytes = exit.live_bytes;
          requested_bytes = exit.requested_bytes - p.entry.requested_bytes;
          allocations = exit.allocations - p.entry.allocations;
          reallocations = exit.reallocations - p.entry.reallocations;
          failed_requests = exit.failed_requests - p.entry.failed_requests;
        }),
        l',
      )
    ]

-- `impl Drop for HeapPhase`
unfoldable pub drop_phase : HeapPhase → Ledger → Ledger
drop_phase p l = if p.active then record l { phase_active = false } else l
