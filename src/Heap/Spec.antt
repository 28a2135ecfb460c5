-- ===== src/Heap/Spec.antt =====
-- What a heap phase promises to measure, as a count over the allocator's calls alone: the bytes
-- that are live, their highest count, and the traffic. No ledger, no word size.
use zenbench.Prelude.{ℕ, ◌+◌, ◌-◌, ◌≤◌, max, List, [], ◌∷◌, true, false}
use zenbench.Heap.{Call}

abbrev pub live_after : ℕ → Call → ℕ
live_after live (Call.alloc size true) = live + size
live_after live (Call.alloc size false) = live
live_after live (Call.dealloc size) = live - size
live_after live (Call.realloc old new true) = live - old + new
live_after live (Call.realloc old new false) = live

-- A call releases no more than is live.
abbrev pub IsLegal : ℕ → Call → Type 0
IsLegal live (Call.dealloc size) = size ≤ live
IsLegal live (Call.realloc old new true) = old ≤ live
IsLegal live _ = Unit

abbrev pub AllLegal : ℕ → List Call → Type 0
AllLegal live [] = Unit
AllLegal live (c ∷ cs) = IsLegal live c × AllLegal (live_after live c) cs

abbrev pub final_live : ℕ → List Call → ℕ
final_live live [] = live
final_live live (c ∷ cs) = final_live (live_after live c) cs

-- The highest live count along the calls, the start included.
abbrev pub highest : ℕ → List Call → ℕ
highest live [] = live
highest live (c ∷ cs) = max live (highest (live_after live c) cs)

-- Bytes that one call asked for with success, and the counts of one call.
abbrev pub bytes_of : Call → ℕ
bytes_of (Call.alloc size true) = size
bytes_of (Call.realloc old new true) = new
bytes_of _ = 0

abbrev pub allocation_of : Call → ℕ
allocation_of (Call.alloc size true) = 1
allocation_of _ = 0

abbrev pub reallocation_of : Call → ℕ
reallocation_of (Call.realloc old new true) = 1
reallocation_of _ = 0

abbrev pub failure_of : Call → ℕ
failure_of (Call.alloc size false) = 1
failure_of (Call.realloc old new false) = 1
failure_of _ = 0

abbrev pub sum_of : (Call → ℕ) → List Call → ℕ
sum_of f [] = 0
sum_of f (c ∷ cs) = f c + sum_of f cs
