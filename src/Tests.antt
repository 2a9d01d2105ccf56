-- ===== src/Tests.antt =====
-- Runs of the theorems at concrete inputs.
mod Constraints
mod Shards
mod Records
mod Filters
mod Lists
mod Packets
mod Answers
mod Threads
mod Captures
mod Messages
mod Sections
mod Udps
mod Queues
