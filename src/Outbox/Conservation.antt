-- ===== src/Outbox/Conservation.antt =====
-- The account of a request on a channel, over each operation of internal/outbox and over runs in
-- which the worker's steps and the engine's sweeps interleave.
pub mod Measure
pub mod Finish
pub mod Sweeps
pub mod Enqueue
pub mod Attempts
pub mod Queue
pub mod Runs
