-- ===== src/Tests.antt =====
-- The theorems at concrete inputs, and runs of the definitions that can be followed in the source.
mod Samples
mod OutboxTests
mod ConservationTests
mod TomleditTests
mod RequestTests
mod ConfigTests
mod LogTests
mod StoreTests
mod ServerTests
mod EngineTests
mod AdapterTests
mod AdminTests
mod EditTests
