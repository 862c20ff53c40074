-- ===== src/Tests.antt =====
-- The theorems at concrete inputs.
mod Caches
mod Checks
mod Records
mod Overlaps
mod Remote
mod Messages
mod Queues
mod Calls
mod Queries
mod Requests
mod Tokens
mod Servers
mod Database
mod Services
