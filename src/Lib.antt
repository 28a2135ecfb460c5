-- ===== src/Lib.antt =====
-- zenbench measures benchmarks that are interleaved in one process or spread over fresh ones. This
-- library models the parts that decide whether a measurement may start, what it is, and what it
-- counts. Every file says at its top which source it is about.
--
-- The parts and where they are:
-- * src/coordination.rs, in Coordination. Processes take a number in a shared directory, and the
--   first of the live ones runs. `Coordination` has the transactions on the directory (`enqueue`,
--   `scan` and `try_admit` of `Reservation::at_controlled`, `drop_reservation` of its `Drop`),
--   `Steps` their interleavings by any number of processes, deaths included, `Lease` what a child
--   inherits. The control mutex makes each transaction one step; reading the directory in any
--   order is any order of the list of tickets. A lock that its dead owner gives up is `release`.
-- * src/platform/placement.rs, in Placement. A session (`Session.start`, `CpuSession::start`), on
--   Linux or on Windows, with the job of src/platform/windows_job.rs there (`install`), resolves
--   (`Resolve.resolve`) a policy against the topology (`Classes.group_classes`) and the boundary
--   that the system enforces, with `select` for the performance and efficiency classes. What Windows
--   does is a parameter, `Machine`; an error carries the process as the start left it. `Observer`
--   picks the sampler's CPUs.
-- * src/plan.rs, in Plan. `Options` normalizes and validates the command line, `Resolve` lays it
--   and the environment over the caller's plan (`Given` says which of the two gives a value),
--   `validate` has the last word.
-- * src/gate.rs, in Gate. The engine (src/engine.rs, `resolve_gate`) makes a gate from its
--   configuration, waits on it before a round and records afterwards whether the machine was quiet.
-- * src/heap.rs, in Heap. The allocator's calls, one after the other under the ledger's lock, are
--   `call`; phases are `begin` and `finish`; `Spec` is the plain count that they are held against.
-- * src/platform/windows_topology.rs, in Placement.Windows. `decode` reads the bytes of the records
--   that Windows reports about cores, caches and processor groups. Its loop has a fuel of the number
--   of bytes; a record has eight or more. The name of a class, a text, is its rank, the level and
--   the sizes of its last caches. `read_with` stands in Placement.Readback. The call of the
--   operating system is its parameter, which may answer by the calls before; its loop has the three
--   turns of the code.
-- * src/platform/affinity.rs, in Affinity. The list of CPUs that the user names, which a placement
--   and a pin are asked for with.
-- * src/bin/support/pair.rs and its modules, in Pair. A comparison of fresh processes: the plan and
--   `Validate`, the placeholders of a command in `Expand`, the windows of the machine's load in
--   `Observe`, `Intervals` (interval.rs), `Complete` and `Analysis` (`summarize`), `Decide`
--   (`exit_code`, `decision`), and in `Retained` the packet that is read back (`load`). A JSON value
--   is a record of the fields that the code reads, absent or present.
-- * src/inference.rs with the results that it reads (src/results.rs) and the decision on a new
--   baseline (src/baseline.rs), in Inference. `Issues` has the tests of a result (`issues`), which
--   `Tested`, `Sampled` and `Placed` read as statements, `Compare` the intervals and the means of
--   the processes, `Confirm` the comparisons of one result (`confirm`) and of two
--   (`compare_benchmark`), and `assess_baseline`.
-- * src/engine.rs, in Engine. The iterations of a sample, the order of a round, the time stamp
--   (`Dates`, against the calendar of `Calendar`).
--
-- Numbers are natural numbers; a sum or a product of machine words has its overflow written out
-- (Prelude.Word), and a subtraction is guarded as in the source. Floats are an interface
-- (Prelude.Float): the tests and constants that the code uses, and for a paired comparison its
-- arithmetic (`Arith` of Pair), with no law assumed. Texts are
-- lists of code points. What the machine, the file system, the process table and the clock report
-- comes as arguments, and so does the parser of floats. Errors are data types with what the
-- messages tell apart; the wording of messages is left out.
--
-- Loops that the source leaves unbounded run on fuel: the waiting loops of the gate on a number of
-- turns, of which one more than the limit holds intervals is enough; the years of a time stamp on
-- one more than the number of days, since a year takes at least 365 of them. The ancestors of a
-- process (1024) and of a lease (256) are bounded in the source, and so are the five rounds of the
-- estimate of iterations. A turn of the expansion of a command takes a placeholder off the rest, so
-- that one more than its length is enough. The rejection loop of the schedule draws at most 2^64
-- numbers, a period of the generator, in which some number is taken. All other recursion is on the
-- lists that the source loops over.
--
-- Not modelled: reading the topology and the enforced boundary from the system, the measurement
-- loop itself, the statistics but for mean and variance, the processes that a paired comparison
-- starts and the metrics that it reads from them, storage, reports, charts and servers, which are
-- input and output or wait for a model of their own.
pub mod Prelude
pub mod Heap
pub mod Gate
pub mod Placement
pub mod Inference
pub mod Pair
pub mod Plan
pub mod Coordination
pub mod Engine
pub mod Affinity
