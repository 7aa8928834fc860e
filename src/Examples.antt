-- ===== src/Examples.antt =====
-- The theorems at concrete inputs: a small group, its nodes, and an API server that keeps labels.
mod Fixture
mod Store
mod Reconciling
mod Reconciled
mod Assigning
mod Packing
mod Deleting
mod Managing
mod Events
mod Commands
mod Starting
