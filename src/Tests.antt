-- ===== src/Tests.antt =====
-- The theorems at concrete inputs.
mod Protocol
mod Scheduler
mod Broker
mod Pool
mod Config
mod Future
mod Worker
mod Client
mod Descriptor
