-- ===== src/Tests.antt =====
-- The theorems applied at small concrete inputs.
mod Sample
mod Control
mod Runner
mod Records
mod Batch
mod Calendar
mod Queries
mod Configs
mod Targets
mod Engines
mod Bundles
mod Durations
