-- ===== src/Heap/Tests.antt =====
-- Runs of the ledger, those of the unit tests of src/heap.rs among them, and the theorems at
-- concrete phases.
use zenbench.Prelude.{◌≡◌, ◌≢◌, refl, true, false, List, [], ◌∷◌, arith, ok, err}
use zenbench.Heap.{
  Ledger, new_ledger, Call, call, calls, allocated, reallocated, transition, add, HeapPhase,
  HeapError, HeapMeasurement, read_counters, snapshot, initialize, begin_locked, begin, finish,
  drop_phase,
}
use zenbench.Heap.Exact.{IsValid, calls-IsValid, calls_exact, AllExact, Reports, measurement_exact}
use zenbench.Heap.Phases.{phase_exclusive, phase_released, calls_stay_valid}

abbrev work : List Call
work =
    Call.alloc 100 true
    ∷ Call.alloc 500 false
    ∷ Call.realloc 100 1000 false
    ∷ Call.realloc 100 200 true
    ∷ Call.realloc 200 50 true
    ∷ Call.dealloc 50
    ∷ []

failures_preserve_live_bytes :
    snapshot (calls work new_ledger)
    ≡ ok (record {
      live_bytes = 0;
      lifetime_peak_bytes = 200;
      requested_bytes = 350;
      allocations = 1;
      reallocations = 2;
      failed_requests = 2;
    })
unfolding calls call allocated reallocated transition add snapshot
failures_preserve_live_bytes = refl

invalid_ledger_fails :
    snapshot (calls (Call.alloc 1 true ∷ Call.dealloc 2 ∷ []) new_ledger)
    ≡ err HeapError.counter_overflow
unfolding calls call allocated reallocated transition add snapshot
invalid_ledger_fails = refl

-- A ledger with 4 live bytes, before a phase.
abbrev before : Ledger
before = record new_ledger { installed = true; live = 4; peak = 9; requested = 12; allocations = 2 }

abbrev begun : Ledger
begun = record before { phase_peak = 4; phase_active = true }

abbrev phase : HeapPhase
phase = record { entry = read_counters before; active = true }

abbrev measured : HeapMeasurement
measured = record {
  entry_live_bytes = 4;
  peak_live_bytes = 204;
  exit_live_bytes = 4;
  requested_bytes = 350;
  allocations = 1;
  reallocations = 2;
  failed_requests = 2;
}

before-IsValid : IsValid before
before-IsValid = ground arith

calls-IsValid_example : IsValid (calls work before)
unfolding calls call allocated reallocated transition add
calls-IsValid_example = calls-IsValid work before before-IsValid refl

calls_exact_example : AllExact work before (calls work before)
unfolding calls call allocated reallocated transition add
calls_exact_example = calls_exact work before before-IsValid refl

measurement_exact_example : Reports work before measured
unfolding calls call allocated reallocated transition add snapshot begin_locked finish
measurement_exact_example =
    measurement_exact before begun phase work measured before-IsValid refl refl

phase_exclusive_example : (begin true (calls work (begin true before).1)).0 ≢ ok phase
unfolding calls call allocated reallocated transition add snapshot begin_locked begin initialize
phase_exclusive_example = phase_exclusive true true before phase phase work refl

phase_released_example :
    ((q : HeapPhase) × ((begin true (finish phase begun).1).0 ≡ ok q))
    × ((q : HeapPhase) × ((begin true (drop_phase phase begun)).0 ≡ ok q))
phase_released_example = phase_released true phase begun refl refl refl

calls_stay_valid_example : (calls work before).valid ≡ true
calls_stay_valid_example =
    calls_stay_valid work before refl (omega arith) (omega arith) (omega arith)
