-- ===== src/Engine.antt =====
-- src/engine.rs: the parts of the measurement engine that are arithmetic. `Estimate` chooses the
-- iterations of a sample, `Shuffle` the order of the benchmarks in a round, `Dates` makes the
-- time stamp of a run, which `Timestamp` holds against the closed formulas of `Calendar`.
pub mod Estimate
pub mod Shuffle
pub mod Dates
pub mod Calendar
pub mod Timestamp
mod Tests
