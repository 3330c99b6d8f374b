-- ===== src/Outbox.antt =====
-- internal/outbox: the delivery engine. Spool names and files, the registry of waiters, the worker
-- of one channel, and the sweeps of the engine.
pub mod Name
pub mod Spool
pub mod Registry
pub mod Settle
pub mod Worker
pub mod Engine
pub mod Conservation
