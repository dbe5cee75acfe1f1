-- ===== src/Tests.antt =====
-- Runs on small inputs, and each property at one of them.
mod Database
mod Measures
mod Records
mod Comparison
mod Pipes
mod Forked
mod Replayed
mod Stores
mod Reported
mod Copies
mod Locations
mod Actions
mod Simulated
