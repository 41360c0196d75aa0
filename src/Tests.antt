-- ===== src/Tests.antt =====
-- The theorems at concrete inputs.
mod Data
mod Client
mod Rpc
mod Events
mod Setup
mod Threads
mod Life
mod Outage
mod Whole
mod Messages
mod Switch
mod Leases
