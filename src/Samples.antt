-- ===== src/Samples.antt =====
-- Concrete runs, on which the library's theorems are applied.
mod States
mod Leases
mod Resources
mod Clocks
mod Recoveries
mod Takeovers
mod Logs
mod Dreams
mod Ontologies
mod Merges
